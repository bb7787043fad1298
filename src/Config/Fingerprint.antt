-- ===== src/Config/Fingerprint.antt =====
-- crates/vpn-engine/src/config.rs: what the pin of a certificate is.
use yellow_vpn.Common.{
  ℕ, zero, suc, ◌+◌, ◌*◌, ◌<◌, ◌≡◌, refl, sym, ap, ◌∙◌, ◌⊎◌, inl, inr, Bool, true, false, ◌&&◌,
  Option, none, some, [], ◌∷◌, arith, ◌==◌, lt→ltb, Bool-cases, length, All, Bytes, IsByte,
  as_bytes,
}
use yellow_vpn.Error.{Text, VpnError, is_permanent, Result, ok, err}
use yellow_vpn.Common.Str.{is_some, at_most, parse_unsigned, u8_max, digits_value, hex_digit}
use yellow_vpn.Config.{bad_fingerprint, cleaned_pin, all_hex, pin_bytes, parse_sha256_fingerprint}

hex_digit-lt : (c x : ℕ) → hex_digit c ≡ some x → x < 16
unfolding hex_digit
hex_digit-lt c x h = ground arith

hex_digit-plus : (c x : ℕ) → hex_digit c ≡ some x → (c == b'+') ≡ false
unfolding hex_digit
hex_digit-plus c x h = ground arith

is_some-some : {A : Type 0} (o : Option A) → is_some o ≡ true → (a : A) × (o ≡ some a)
is_some-some none h = absurd (ground arith)
is_some-some (some a) h = (a, refl)

digits-IsByte : (x y : ℕ) → x < 16 → y < 16 → IsByte (x * 16 + y)
digits-IsByte x y h g = omega arith

at_most-IsByte : (n : ℕ) → IsByte n → at_most u8_max (some n) ≡ some n
at_most-IsByte n h = ground arith

pub pair-some :
    (c d x y : ℕ)
    → hex_digit c ≡ some x
    → hex_digit d ≡ some y
    → parse_unsigned 16 u8_max (c ∷ (d ∷ [])) ≡ some (x * 16 + y)
unfolding parse_unsigned digits_value
pair-some c d x y hc hd =
    let small = hex_digit-lt c x hc in
    let small' = hex_digit-lt d y hd in
    rw (hex_digit-plus c x hc, hc, lt→ltb x 16 small, hd, lt→ltb y 16 small')
      (at_most-IsByte ((0 * 16 + x) * 16 + y) (digits-IsByte (0 * 16 + x) y (omega arith) small')
        ∙ ap some (omega arith))

both : (a b : Bool) → (a && b) ≡ true → (a ≡ true) × (b ≡ true)
both a b h = (ground arith, ground arith)

all_hex-digit :
    (c : ℕ) (s : Text)
    → all_hex (c ∷ s) ≡ true
    → ((x : ℕ) × (hex_digit c ≡ some x)) × (all_hex s ≡ true)
unfolding all_hex
all_hex-digit c s h =
    let (digit, rest) = both (is_some (hex_digit c)) (all_hex s) h in
    (is_some-some (hex_digit c) digit, rest)

-- The result holds so many bytes.
abbrev pub HoldsBytes : ℕ → Result Bytes → Type 0
HoldsBytes n r = (bs : Bytes) × (r ≡ ok bs) × (length bs ≡ n) × All IsByte bs

pin_bytes-HoldsBytes :
    (n : ℕ) (s : Text) → length s ≡ 2 * n → all_hex s ≡ true → HoldsBytes n (pin_bytes n s)
unfolding pin_bytes
pin_bytes-HoldsBytes zero s len hex = ([], refl, refl, tt)
pin_bytes-HoldsBytes (suc n) [] len hex = absurd (omega arith)
pin_bytes-HoldsBytes (suc n) (c ∷ []) len hex = absurd (omega arith)
pin_bytes-HoldsBytes (suc n) (c ∷ (d ∷ s)) len hex =
    let ((x, hx), hex') = all_hex-digit c (d ∷ s) hex in
    let ((y, hy), hex'') = all_hex-digit d s hex' in
    let (bs, e, count, small) = pin_bytes-HoldsBytes n s (omega arith) hex'' in
    (
      (x * 16 + y) ∷ bs,
      rw (pair-some c d x y hx hy, e) refl,
      ap suc count,
      (digits-IsByte x y (hex_digit-lt c x hx) (hex_digit-lt d y hy), small),
    )

hex_digit-ascii : (c x : ℕ) → hex_digit c ≡ some x → c < 0x80
unfolding hex_digit
hex_digit-ascii c x h = ground arith

pub as_bytes-hex : (s : Text) → all_hex s ≡ true → as_bytes s ≡ s
unfolding as_bytes
as_bytes-hex [] h = refl
as_bytes-hex (c ∷ s) h =
    let ((x, hx), h') = all_hex-digit c s h in
    rw (lt→ltb c 0x80 (hex_digit-ascii c x hx)) (ap (◌∷◌ c) (as_bytes-hex s h'))

length-==_64 : (s : Text) → (length s == 64) ≡ true → length s ≡ 2 * 32
length-==_64 s h = ground arith

-- A fingerprint is read where the text without its prefixes, colons and white space is of 64
-- hexadecimal digits, as 32 bytes; any other text is refused with a permanent error.
pub parse_sha256_fingerprint-cases :
    (input : Text)
    → (all_hex (cleaned_pin input) ≡ true)
        × (length (cleaned_pin input) ≡ 64)
        × HoldsBytes 32 (parse_sha256_fingerprint input)
      ⊎ (e : VpnError) × (parse_sha256_fingerprint input ≡ err e) × (is_permanent e ≡ true)
unfolding parse_sha256_fingerprint is_permanent
parse_sha256_fingerprint-cases input =
    elim (Bool-cases (length (as_bytes (cleaned_pin input)) == 64 && all_hex (cleaned_pin input))) [
      | inr bad ↦ inr (bad_fingerprint input, rw bad refl, refl)
      | inl good ↦
          let (count, hex) =
            both (length (as_bytes (cleaned_pin input)) == 64) (all_hex (cleaned_pin input)) good in
          let count' =
            length-==_64 (cleaned_pin input)
              (rw (sym (as_bytes-hex (cleaned_pin input) hex)) count) in
          let (bs, e, size, bytes) = pin_bytes-HoldsBytes 32 (cleaned_pin input) count' hex in
          inl (hex, count', (bs, rw (good, e) refl, size, bytes))
    ]
