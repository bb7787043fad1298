-- ===== src/Ipv4.antt =====
-- `std::net::Ipv4Addr`: equality, the conversions to and from `u32`, and `parse`.
use yellow_vpn.Common.{
  ℕ, ◌/◌, ◌%◌, Bool, false, ◌&&◌, ◌||◌, Option, none, some, List, [], ◌∷◌, ltb, ◌==◌, if◌then◌else◌,
  length, from_be32,
}
use yellow_vpn.Error.{Text}
use yellow_vpn.Common.Str.{split_on, digits_value, at_most}

pub data Ipv4Addr : Type 0 where
  ipv4 : ℕ → ℕ → ℕ → ℕ → Ipv4Addr

-- A network: its address and the length of its prefix.
abbrev pub Subnet : Type 0
Subnet = Ipv4Addr × ℕ

unfoldable pub is_unspecified : Ipv4Addr → Bool
is_unspecified (ipv4 a b c d) = a == 0 && (b == 0 && (c == 0 && d == 0))

unfoldable pub addr_eq : Ipv4Addr → Ipv4Addr → Bool
addr_eq (ipv4 a b c d) (ipv4 a' b' c' d') = a == a' && (b == b' && (c == c' && d == d'))

-- `Vec::contains`
unfoldable pub holds_addr : List Ipv4Addr → Ipv4Addr → Bool
unfolding addr_eq
holds_addr [] a = false
holds_addr (x ∷ xs) a = addr_eq x a || holds_addr xs a

abbrev pub to_u32 : Ipv4Addr → ℕ
to_u32 (ipv4 a b c d) = from_be32 a b c d

abbrev pub from_u32 : ℕ → Ipv4Addr
from_u32 n = ipv4 (n / 256 / 256 / 256) (n / 256 / 256 % 256) (n / 256 % 256) (n % 256)

-- At most three digits, without a zero in front of others.
abbrev pub octet : Text → Option ℕ
octet [] = none
octet (c ∷ []) = digits_value 10 0 (c ∷ [])
octet (c ∷ (d ∷ ds)) =
    if c == b'0' || ltb 1 (length ds) then none else at_most 255 (digits_value 10 0 (c ∷ (d ∷ ds)))

abbrev pub ipv4_of : Option ℕ → Option ℕ → Option ℕ → Option ℕ → Option Ipv4Addr
ipv4_of (some a) (some b) (some c) (some d) = some (ipv4 a b c d)
ipv4_of _ _ _ _ = none

abbrev pub of_parts : List Text → Option Ipv4Addr
of_parts (a ∷ (b ∷ (c ∷ (d ∷ [])))) = ipv4_of (octet a) (octet b) (octet c) (octet d)
of_parts _ = none

-- `parse::<Ipv4Addr>().ok()`
unfoldable pub parse_ipv4 : Text → Option Ipv4Addr
unfolding split_on digits_value
parse_ipv4 s = of_parts (split_on (λ c. c == b'.') s)
