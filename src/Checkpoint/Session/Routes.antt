-- ===== src/Checkpoint/Session/Routes.antt =====
-- crates/vpn-engine/src/checkpoint/session.rs: the routes of a session against the ranges of the
-- `hello_reply`.
use mathlib.Core.Option
use mathlib.Core.Path.{subst}
use yellow_vpn.Common.{
  ℕ, ◌^◌, ◌<◌, ◌≡◌, refl, ap, ◌∙◌, inl, inr, Bool, true, false, not, ◌&&◌, ◌||◌, Option, none, some,
  List, [], ◌∷◌, ◌++◌, arith, ltb, leb, ◌==◌, if◌then◌else◌, Bool-cases, length, codes,
}
use yellow_vpn.Common.Str.{
  text_eq, split_on, digits_value, at_most, on_digit, digit_below, hex_digit,
}
use yellow_vpn.Error.{◌>>◌, Text, VpnError, is_permanent, Result, ok, err}
use yellow_vpn.Ipv4.{Ipv4Addr, ipv4, addr_eq, Subnet, to_u32, octet, ipv4_of, of_parts, parse_ipv4}
use yellow_vpn.Checkpoint.Ccc.{CccValue, get, elements, name}
use yellow_vpn.Checkpoint.Ranges.{range_to_subnets}
use yellow_vpn.Checkpoint.Ranges.Cover.{matched, matched-range_to_subnets}
use yellow_vpn.Checkpoint.Session.{
  atom_at, CheckpointSession, get_atom, range_bounds, range_of, extend_routes, routes_of,
  route_list, check_name, with_address, session_of, parse_hello_reply,
}

matched-append :
    (ns ms : List Subnet) (x : ℕ) → matched (ns ++ ms) x ≡ (matched ns x || matched ms x)
matched-append [] ms x = refl
matched-append (n ∷ ns) ms x = ground (arith, matched-append ns ms x)

abbrev Below : Option ℕ → Type 0
Below none = Unit
Below (some v) = v < 256

at_most-Below : (o : Option ℕ) → Below (at_most 255 o)
at_most-Below none = tt
at_most-Below (some v) = elim (Bool-cases (leb v 255)) [
  | inl small ↦ rw small (ground arith)
  | inr big ↦ rw big tt
]

one_digit-Below : (o : Option ℕ) → Below (on_digit 10 0 (λ v. some v) (digit_below 10 o))
one_digit-Below none = tt
one_digit-Below (some d) = elim (Bool-cases (ltb d 10)) [
  | inl small ↦ rw small (ground arith)
  | inr big ↦ rw big tt
]

octet-Below : (s : Text) → Below (octet s)
unfolding digits_value
octet-Below [] = tt
octet-Below (c ∷ []) = one_digit-Below (hex_digit c)
octet-Below (c ∷ (d ∷ ds)) = elim (Bool-cases (c == b'0' || ltb 1 (length ds))) [
  | inl long ↦ rw long tt
  | inr short ↦ rw short (at_most-Below (digits_value 10 0 (c ∷ (d ∷ ds))))
]

abbrev IsAddress : Option Ipv4Addr → Type 0
IsAddress none = Unit
IsAddress (some (ipv4 a b c d)) = (a < 256) × (b < 256) × (c < 256) × (d < 256)

of_parts-IsAddress : (parts : List Text) → IsAddress (of_parts parts)
of_parts-IsAddress (a ∷ (b ∷ (c ∷ (d ∷ [])))) =
    go (octet a) (octet b) (octet c) (octet d) (octet-Below a) (octet-Below b) (octet-Below c)
      (octet-Below d)
  where
    go : (p q r s : Option ℕ) → Below p → Below q → Below r → Below s → IsAddress (ipv4_of p q r s)
    go (some p) (some q) (some r) (some s) hp hq hr hs = (hp, hq, hr, hs)
    go none q r s hp hq hr hs = tt
    go (some p) none r s hp hq hr hs = tt
    go (some p) (some q) none s hp hq hr hs = tt
    go (some p) (some q) (some r) none hp hq hr hs = tt
of_parts-IsAddress [] = tt
of_parts-IsAddress (a ∷ []) = tt
of_parts-IsAddress (a ∷ (b ∷ [])) = tt
of_parts-IsAddress (a ∷ (b ∷ (c ∷ []))) = tt
of_parts-IsAddress (a ∷ (b ∷ (c ∷ (d ∷ (e ∷ parts))))) = tt

parse_ipv4-IsAddress : (s : Text) → IsAddress (parse_ipv4 s)
unfolding parse_ipv4
parse_ipv4-IsAddress s = of_parts-IsAddress (split_on (λ c. c == b'.') s)

abbrev pub number : Option Ipv4Addr → Option ℕ
number none = none
number (some a) = some (to_u32 a)

-- The address in a field, as a number; none where there is none that can be read.
abbrev pub bound : Text → CccValue → Option ℕ
bound key elem = number (Option.bind (get_atom key elem) parse_ipv4)

-- Is the address between the bounds? A range whose first address is 0.0.0.1 holds none.
abbrev pub in_range : Option ℕ → Option ℕ → ℕ → Bool
in_range none to x = false
in_range (some from) none x = false
in_range (some from) (some to) x = not (from == 1) && (leb from x && leb x to)

abbrev pub any_holds : List CccValue → ℕ → Bool
any_holds [] x = false
any_holds (elem ∷ elems) x =
    in_range (bound (codes "from") elem) (bound (codes "to") elem) x || any_holds elems x

-- What the source takes from an element, as a range.
abbrev range_holds : Option (Ipv4Addr × Ipv4Addr) → ℕ → Bool
range_holds none x = false
range_holds (some (from, to)) x = leb (to_u32 from) x && leb x (to_u32 to)

sentinel-one : (a : Ipv4Addr) → IsAddress (some a) → addr_eq a (ipv4 0 0 0 1) ≡ (to_u32 a == 1)
unfolding addr_eq
sentinel-one (ipv4 a b c d) (ha, hb, hc, hd) = ground arith

range_holds-range_bounds :
    (from to : Option Ipv4Addr) (x : ℕ)
    → IsAddress from
    → range_holds (range_bounds from to) x ≡ in_range (number from) (number to) x
range_holds-range_bounds none to x h = refl
range_holds-range_bounds (some f) none x h = refl
range_holds-range_bounds (some f) (some t) x h = elim (Bool-cases (to_u32 f == 1)) [
  | inl one ↦ rw (sentinel-one f h, one) refl
  | inr other ↦ rw (sentinel-one f h, other) refl
]

bind-IsAddress : (t : Option Text) → IsAddress (Option.bind t parse_ipv4)
unfolding Option.bind
bind-IsAddress none = tt
bind-IsAddress (some t) = parse_ipv4-IsAddress t

range_holds-range_of :
    (elem : CccValue) (x : ℕ)
    → range_holds (range_of elem) x
      ≡ in_range (bound (codes "from") elem) (bound (codes "to") elem) x
unfolding range_of
range_holds-range_of elem x =
    range_holds-range_bounds (Option.bind (get_atom (codes "from") elem) parse_ipv4)
      (Option.bind (get_atom (codes "to") elem) parse_ipv4) x
      (bind-IsAddress (get_atom (codes "from") elem))

abbrev IsRange : Option (Ipv4Addr × Ipv4Addr) → Type 0
IsRange none = Unit
IsRange (some (from, to)) = to_u32 to < 2 ^ 32

guarded-IsRange :
    (from to : Ipv4Addr) (b : Bool)
    → to_u32 to < 2 ^ 32
    → IsRange (if b then none else some (from, to))
guarded-IsRange from to true h = tt
guarded-IsRange from to false h = h

range_bounds-IsRange : (f t : Option Ipv4Addr) → IsAddress t → IsRange (range_bounds f t)
range_bounds-IsRange none t h = tt
range_bounds-IsRange (some f) none h = tt
range_bounds-IsRange (some f) (some (ipv4 a b c d)) (ha, hb, hc, hd) =
    guarded-IsRange f (ipv4 a b c d) _ (omega arith)

range_of-IsRange : (elem : CccValue) → IsRange (range_of elem)
unfolding range_of
range_of-IsRange elem =
    range_bounds-IsRange _ (Option.bind (get_atom (codes "to") elem) parse_ipv4)
      (bind-IsAddress (get_atom (codes "to") elem))

matched-routes_of :
    (elems : List CccValue) (x : ℕ) → matched (routes_of elems) x ≡ any_holds elems x
unfolding routes_of
matched-routes_of [] x = refl
matched-routes_of (elem ∷ elems) x =
    go (range_of elem) (range_of-IsRange elem) (matched-routes_of elems x)
    ∙ ap (λ b. b || any_holds elems x) (range_holds-range_of elem x)
  where
    go :
        (o : Option (Ipv4Addr × Ipv4Addr))
        → IsRange o
        → matched (routes_of elems) x ≡ any_holds elems x
        → matched (extend_routes o (routes_of elems)) x ≡ (range_holds o x || any_holds elems x)
    go none h ih = ih
    go (some (from, to)) h ih =
        matched-append (range_to_subnets from to) (routes_of elems) x
        ∙ cc (matched-range_to_subnets from to x h, ih)

abbrev elements_of : Option CccValue → List CccValue
elements_of none = []
elements_of (some v) = elements v

-- The elements of the field `range`.
abbrev pub ranges : CccValue → List CccValue
ranges tree = elements_of (get tree (codes "range"))

-- The routes of a session match an address exactly where an element of the reply's `range` has a
-- `from` and a `to` that can be read as addresses, `from` is not 0.0.0.1, and the address is
-- between the two.
pub matched-parse_hello_reply :
    (tree : CccValue) (x : ℕ) {s : CheckpointSession}
    → parse_hello_reply tree ≡ ok s
    → matched s.routes x ≡ any_holds (ranges tree) x
unfolding parse_hello_reply
matched-parse_hello_reply tree x {s} h =
    go (check_name (name tree) tree)
      (Option.bind (atom_at (codes "OM") (codes "ipaddr") tree) parse_ipv4) h
  where
    listed : (v : Option CccValue) → matched (route_list v) x ≡ any_holds (elements_of v) x
    listed none = refl
    listed (some v) = matched-routes_of (elements v) x

    go :
        (m : Result (Unit {0})) (a : Option Ipv4Addr)
        → (m >> with_address tree a) ≡ ok s
        → matched s.routes x ≡ any_holds (ranges tree) x
    go (err e) a h = absurd (cc)
    go (ok u) none h = absurd (cc)
    go (ok u) (some a) h =
        let same : session_of tree a ≡ s = cc in
        subst (λ (t : CheckpointSession). matched t.routes x ≡ any_holds (ranges tree) x) same
          (listed (get tree (codes "range")))

abbrev Passing : {A : Type 0} → Result A → Type 0
Passing (ok a) = Unit
Passing (err e) = is_permanent e ≡ false

>>-Passing :
    {A : Type 0} (m : Result (Unit {0})) (k : Result A) → Passing m → Passing k → Passing (m >> k)
>>-Passing (ok u) k p q = q
>>-Passing (err e) k p q = p

check_name-Passing : (n : Option Text) (v : CccValue) → Passing (check_name n v)
unfolding is_permanent
check_name-Passing none v = refl
check_name-Passing (some n) v = elim (Bool-cases (text_eq n (codes "disconnect"))) [
  | inl refusal ↦ rw refusal refl
  | inr other ↦ elim (Bool-cases (text_eq n (codes "hello_reply"))) [
    | inl reply ↦ rw (other, reply) tt
    | inr unknown ↦ rw (other, unknown) refl
  ]
]

with_address-Passing : (tree : CccValue) (a : Option Ipv4Addr) → Passing (with_address tree a)
unfolding is_permanent
with_address-Passing tree none = refl
with_address-Passing tree (some a) = tt

parse_hello_reply-Passing : (tree : CccValue) → Passing (parse_hello_reply tree)
unfolding parse_hello_reply
parse_hello_reply-Passing tree =
    >>-Passing (check_name (name tree) tree)
      (with_address tree (Option.bind (atom_at (codes "OM") (codes "ipaddr") tree) parse_ipv4))
      (check_name-Passing (name tree) tree)
      (with_address-Passing tree
        (Option.bind (atom_at (codes "OM") (codes "ipaddr") tree) parse_ipv4))

-- Whatever a gateway replies, a disconnect included, what the parser refuses it with is a passing
-- error, so that the client connects again.
pub is_permanent-parse_hello_reply :
    (tree : CccValue) {e : VpnError} → parse_hello_reply tree ≡ err e → is_permanent e ≡ false
is_permanent-parse_hello_reply tree {e} h = subst Passing h (parse_hello_reply-Passing tree)
