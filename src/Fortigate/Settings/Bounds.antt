-- ===== src/Fortigate/Settings/Bounds.antt =====
-- crates/vpn-engine/src/fortigate/config.rs: the keepalive, the masks, and the resolvers.
use mathlib.Core.Path.{subst}
use yellow_vpn.Common.{
  ℕ, ◌/◌, ◌≤◌, ◌<◌, ◌≡◌, refl, inl, inr, Bool, true, false, ◌||◌, Option, none, some, List, [], ◌∷◌,
  ◌++◌, arith, ltb, ◌==◌, Bool-cases,
}
use yellow_vpn.Common.Table.{table, table-lt}
use yellow_vpn.Checkpoint.Session.{count_ones}
use yellow_vpn.Ipv4.{Ipv4Addr, ipv4, holds_addr, addr_eq}
use yellow_vpn.Fortigate.Negotiate.Ipcp.{PppSession}
use yellow_vpn.Fortigate.Settings.{
  FortiConfig, clamp, keepalive_secs, push_new, push_all, to_session_params, mask_to_prefix,
  prefix_to_mask, dns_of,
}

inside : (t t' : ℕ) → some t ≡ some t' → t ≡ t'
inside t t' e = cc

-- The keepalive is sent every 5 to 60 seconds, and within the gateway's idle timeout where that is
-- longer than 5 seconds.
pub keepalive_secs-bounds :
    (idle : Option ℕ)
    → (5 ≤ keepalive_secs idle)
      × (keepalive_secs idle ≤ 60)
      × ((t : ℕ) → idle ≡ some t → 5 < t → keepalive_secs idle < t)
unfolding keepalive_secs
keepalive_secs-bounds none = (omega arith, omega arith, λ t e. cc)
keepalive_secs-bounds (some t) = elim (Bool-cases (ltb 0 t)) [
  | inl used ↦ rw used (clamped t)
  | inr unused ↦
      rw unused (omega arith, omega arith, λ t' e h. absurd (unused_zero t t' unused e h))
]
  where
    third :
        (t n : ℕ)
        → n ≡ t / 3
        → (5 ≤ clamp n 5 60) × (clamp n 5 60 ≤ 60) × (5 < t → clamp n 5 60 < t)
    third t n e = (ground arith, ground arith, λ h. ground arith)

    clamped :
        (t : ℕ)
        → (5 ≤ clamp (t / 3) 5 60)
          × (clamp (t / 3) 5 60 ≤ 60)
          × ((t' : ℕ) → some t ≡ some t' → 5 < t' → clamp (t / 3) 5 60 < t')
    clamped t =
        let (lo, hi, below) = third t (t / 3) refl in
        (lo, hi, λ t' e h. subst (λ n. 5 < n → clamp (t / 3) 5 60 < n) (inside t t' e) below h)

    unused_zero : (t t' : ℕ) → ltb 0 t ≡ false → some t ≡ some t' → 5 < t' → ⊥
    unused_zero t t' u e h = ground arith

-- No address stands twice.
abbrev pub Distinct : List Ipv4Addr → Type 0
Distinct [] = Unit
Distinct (a ∷ as_) = (holds_addr as_ a ≡ false) × Distinct as_

==-sym : (a b : ℕ) → (a == b) ≡ (b == a)
==-sym a b = ground arith

false-or : (a : Bool) → (a || false) ≡ a
false-or true = refl
false-or false = refl

or_assoc : (a b c : Bool) → (a || (b || c)) ≡ ((a || b) || c)
or_assoc true b c = refl
or_assoc false b c = refl

addr_eq-sym : (a b : Ipv4Addr) → addr_eq a b ≡ addr_eq b a
unfolding addr_eq
addr_eq-sym (ipv4 a b c d) (ipv4 a' b' c' d') =
    rw (==-sym a a', ==-sym b b', ==-sym c c', ==-sym d d') refl

holds_addr-append :
    (xs : List Ipv4Addr) (y a : Ipv4Addr)
    → holds_addr (xs ++ (y ∷ [])) a ≡ (holds_addr xs a || addr_eq y a)
unfolding holds_addr
holds_addr-append [] y a = false-or (addr_eq y a)
holds_addr-append (x ∷ xs) y a =
    rw (holds_addr-append xs y a) (or_assoc (addr_eq x a) (holds_addr xs a) (addr_eq y a))

Distinct-snoc :
    (xs : List Ipv4Addr) (a : Ipv4Addr)
    → holds_addr xs a ≡ false
    → Distinct xs
    → Distinct (xs ++ (a ∷ []))
unfolding holds_addr
Distinct-snoc [] a h d = (refl, tt)
Distinct-snoc (x ∷ xs) a h d =
    let (apart, rest) = neither (addr_eq x a) (holds_addr xs a) h in
    (rw (holds_addr-append xs a x, d.0, addr_eq-sym a x) apart, Distinct-snoc xs a rest d.1)
  where
    neither : (a b : Bool) → (a || b) ≡ false → (a ≡ false) × (b ≡ false)
    neither false b h = (refl, h)
    neither true b h = absurd (ground (arith, h))

push_new-Distinct : (a : Ipv4Addr) (xs : List Ipv4Addr) → Distinct xs → Distinct (push_new a xs)
unfolding push_new
push_new-Distinct a xs d = elim (Bool-cases (holds_addr xs a)) [
  | inl there ↦ rw there d
  | inr new ↦ rw new (Distinct-snoc xs a new d)
]

push_all-Distinct : (as_ xs : List Ipv4Addr) → Distinct xs → Distinct (push_all as_ xs)
unfolding push_all
push_all-Distinct [] xs d = d
push_all-Distinct (a ∷ as_) xs d = push_all-Distinct as_ (push_new a xs) (push_new-Distinct a xs d)

-- The resolvers of a session are distinct, whatever PPP and the gateway's configuration list.
pub dns-to_session_params :
    (c : FortiConfig) (ppp : Option PppSession) → Distinct (to_session_params c ppp).dns
unfolding to_session_params
dns-to_session_params c ppp = push_all-Distinct (dns_of ppp ++ c.dns) [] tt

abbrev mask_test : ℕ → Bool
mask_test p = mask_to_prefix (prefix_to_mask p) == p

mask_range : table 33 mask_test ≡ true
unfolding table prefix_to_mask count_ones
mask_range = refl

-- The prefix of a mask is the one that the mask was made of.
pub mask_to_prefix-prefix_to_mask : (p : ℕ) → p ≤ 32 → mask_to_prefix (prefix_to_mask p) ≡ p
mask_to_prefix-prefix_to_mask p h =
    equal (mask_to_prefix (prefix_to_mask p)) p (table-lt 33 mask_test p mask_range (omega arith))
  where
    equal : (m n : ℕ) → (m == n) ≡ true → m ≡ n
    equal m n e = ground arith
