-- ===== src/TunDevice/Wide.antt =====
-- crates/vpn-engine/src/tun_device.rs: how a name is read at the other side.
use yellow_vpn.Common.{
  ℕ, ◌+◌, ◌-◌, ◌*◌, ◌/◌, ◌%◌, ◌≤◌, ◌<◌, ◌≡◌, refl, ap, ◌∙◌, inl, inr, Bool, true, false, ◌&&◌,
  Option, none, some, List, [], ◌∷◌, ◌++◌, append_assoc, arith, ltb, leb, ◌==◌, if◌then◌else◌,
  ltb→lt, Bool-cases, All, IsScalar,
}
use yellow_vpn.Error.{Text}
use yellow_vpn.TunDevice.{utf16_units, encode_wide_nul}

abbrev pub is_high : ℕ → Bool
is_high u = leb 0xD800 u && ltb u 0xDC00

abbrev pub is_low : ℕ → Bool
is_low u = leb 0xDC00 u && ltb u 0xE000

abbrev pub with_first : ℕ → Option Text → Option Text
with_first c none = none
with_first c (some s) = some (c ∷ s)

-- A string in UTF-16 as its characters, up to its null; none where the memory given ends without
-- one, so that a reader would run past it.
unfoldable pub read_wide : List ℕ → Option Text
read_wide [] = none
read_wide (u ∷ []) = if u == 0 then some [] else none
read_wide (u ∷ (v ∷ us)) =
    let single = read_wide (v ∷ us) in
    let paired = read_wide us in
    if u == 0
    then some []
    else if is_high u && is_low v
    then with_first (0x10000 + ((u - 0xD800) * 0x400 + (v - 0xDC00))) paired
    else with_first u single

-- A character of a name: a Unicode scalar value other than null.
abbrev pub IsNameChar : ℕ → Type 0
IsNameChar c = IsScalar c × ((c == 0) ≡ false)

scalar-high : (c : ℕ) → IsScalar c → c < 0x10000 → is_high c ≡ false
scalar-high c (inl low) h = ground arith
scalar-high c (inr (lo, hi)) h = ground arith

read_wide-single :
    (c : ℕ) (us : List ℕ)
    → (c == 0) ≡ false
    → is_high c ≡ false
    → read_wide (c ∷ us) ≡ with_first c (read_wide us)
unfolding read_wide
read_wide-single c [] h k = rw h refl
read_wide-single c (v ∷ us) h k = rw (h, k) refl

surrogates :
    (c : ℕ)
    → 0x10000 ≤ c
    → c < 0x110000
    → ((0xD800 + (c - 0x10000) / 0x400 == 0) ≡ false)
      × (is_high (0xD800 + (c - 0x10000) / 0x400) ≡ true)
      × (is_low (0xDC00 + (c - 0x10000) % 0x400) ≡ true)
surrogates c lo hi = (ground arith, ground arith, ground arith)

joined :
    (c : ℕ)
    → 0x10000 ≤ c
    → 0x10000
        + ((0xD800 + (c - 0x10000) / 0x400 - 0xD800) * 0x400
            + (0xDC00 + (c - 0x10000) % 0x400 - 0xDC00))
      ≡ c
joined c lo = omega arith

scalar-lt : (c : ℕ) → IsScalar c → c < 0x110000
scalar-lt c (inl low) = omega arith
scalar-lt c (inr (lo, hi)) = hi

read_wide-units :
    (c : ℕ) (us : List ℕ)
    → IsNameChar c
    → read_wide (utf16_units c ++ us) ≡ with_first c (read_wide us)
unfolding utf16_units read_wide
read_wide-units c us (scalar, nonzero) = elim (Bool-cases (ltb c 0x10000)) [
  | inl small ↦
      rw small (read_wide-single c us nonzero (scalar-high c scalar (ltb→lt c 0x10000 small)))
  | inr large ↦
      let lo : 0x10000 ≤ c = ground arith in
      let (whole, high, low) = surrogates c lo (scalar-lt c scalar) in
      rw (large, whole, high, low) (ap (λ x. with_first x (read_wide us)) (joined c lo))
]

read_wide-null : (us : List ℕ) → read_wide (0 ∷ us) ≡ some []
unfolding read_wide
read_wide-null [] = refl
read_wide-null (v ∷ us) = refl

-- A name of Unicode characters other than null that is handed to Windows as a wide string is read
-- there as the same name, the characters beyond the first plane too, whatever stands in the memory
-- behind it: the string has its terminator, and the reader goes no further.
pub read_wide-encode_wide_nul :
    (name : Text) (behind : List ℕ)
    → All IsNameChar name
    → read_wide (encode_wide_nul name ++ behind) ≡ some name
unfolding encode_wide_nul
read_wide-encode_wide_nul [] behind h = read_wide-null behind
read_wide-encode_wide_nul (c ∷ cs) behind (h, hs) =
    ap read_wide (append_assoc (utf16_units c) (encode_wide_nul cs) behind)
    ∙ (read_wide-units c (encode_wide_nul cs ++ behind) h
        ∙ ap (with_first c) (read_wide-encode_wide_nul cs behind hs))
