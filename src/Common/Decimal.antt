-- ===== src/Common/Decimal.antt =====
-- What is written by `to_string` of a number is read back by `parse`; the digits in base sixteen.
use Prim.Native.Nat.{ℕ, zero, suc, ◌+◌, ◌*◌, ◌/◌, ◌%◌, ◌≤◌, ◌<◌}
use native.Mathlib.Omega.{arith}
use mathlib.Core.Path.{◌≡◌, refl, sym, ap, ◌∙◌}
use mathlib.Core.Logic.{inl, inr}
use mathlib.Core.Bool.{false}
use mathlib.Core.Option.{some}
use mathlib.Core.List.{List, [], ◌∷◌}
use yellow_vpn.Common.Tests.{◌==◌, ltb, lt→ltb, Bool-cases}
use yellow_vpn.Common.Str.{
  hex_char, hex_digit, digits_value, parse_unsigned, parse_nat, decimal, decimal_digits, at_most,
}

hex_digit-digit : (d : ℕ) → d < 10 → hex_digit (b'0' + d) ≡ some d
unfolding hex_digit
hex_digit-digit d h = ground arith

digits_value-digit :
    (a d : ℕ) (s : List ℕ)
    → d < 10
    → digits_value 10 a ((b'0' + d) ∷ s) ≡ digits_value 10 (a * 10 + d) s
unfolding digits_value
digits_value-digit a d s h = rw (hex_digit-digit d h, lt→ltb d 10 h) refl

digits_value-decimal_digits :
    (k n : ℕ) (s : List ℕ) → n < k → digits_value 10 0 (decimal_digits k n s) ≡ digits_value 10 n s
unfolding decimal_digits
digits_value-decimal_digits zero n s h = absurd (omega arith)
digits_value-decimal_digits (suc k) n s h = elim (Bool-cases (ltb n 10)) [
  | inl small ↦
      rw small
        (digits_value-digit 0 n s (ground arith) ∙ ap (λ m. digits_value 10 m s) (omega arith))
  | inr large ↦ rw large (
      digits_value-decimal_digits k (n / 10) ((b'0' + n % 10) ∷ s) (ground arith)
      ∙ (digits_value-digit (n / 10) (n % 10) s (omega arith)
          ∙ ap (λ m. digits_value 10 m s) (omega arith)))
]

-- A text that does not begin with a sign.
abbrev StartsUnsigned : List ℕ → Type 0
StartsUnsigned s = (c : ℕ) × (cs : List ℕ) × (s ≡ c ∷ cs) × ((c == b'+') ≡ false)

decimal_digits-StartsUnsigned :
    (k n : ℕ) (s : List ℕ) → n < k → StartsUnsigned (decimal_digits k n s)
unfolding decimal_digits
decimal_digits-StartsUnsigned zero n s h = absurd (omega arith)
decimal_digits-StartsUnsigned (suc k) n s h = elim (Bool-cases (ltb n 10)) [
  | inl small ↦ rw small ((b'0' + n, s, refl, ground arith))
  | inr large ↦ rw large (decimal_digits-StartsUnsigned k (n / 10) _ (ground arith))
]

parse_unsigned-digits :
    (bound c : ℕ) (cs : List ℕ)
    → (c == b'+') ≡ false
    → parse_unsigned 10 bound (c ∷ cs) ≡ at_most bound (digits_value 10 0 (c ∷ cs))
unfolding parse_unsigned
parse_unsigned-digits bound c [] h = refl
parse_unsigned-digits bound c (d ∷ ds) h = rw h refl

at_most-le : (bound n : ℕ) → n ≤ bound → at_most bound (some n) ≡ some n
at_most-le bound n h = ground arith

pub parse_nat-decimal : (bound n : ℕ) → n ≤ bound → parse_nat bound (decimal n) ≡ some n
unfolding parse_nat decimal
parse_nat-decimal bound n h =
    let (c, cs, e, unsigned) = decimal_digits-StartsUnsigned (suc n) n [] (omega arith) in
    let read = digits_value-decimal_digits (suc n) n [] (omega arith) in
    ap (parse_unsigned 10 bound) e
    ∙ (parse_unsigned-digits bound c cs unsigned
        ∙ (ap (λ s. at_most bound (digits_value 10 0 s)) (sym e)
            ∙ (ap (at_most bound) read ∙ at_most-le bound n h)))

pub hex_digit-hex_char : (d : ℕ) → d < 16 → hex_digit (hex_char d) ≡ some d
unfolding hex_digit
hex_digit-hex_char d h = ground arith
