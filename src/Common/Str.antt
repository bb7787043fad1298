-- ===== src/Common/Str.antt =====
-- Methods of the standard library's `str` and `char`, on a text as its code points.
use Prim.Native.Nat.{ℕ, zero, suc, ◌+◌, ◌*◌, ◌-◌, ◌/◌, ◌%◌}
use mathlib.Core.Bool.{Bool, true, false, ◌&&◌, ◌||◌}
use mathlib.Core.Option.{Option, none, some}
use mathlib.Core.List.{List, [], ◌∷◌}
use yellow_vpn.Common.Tests.{ltb, leb, ◌==◌, if◌then◌else◌}

unfoldable pub text_eq : List ℕ → List ℕ → Bool
text_eq [] [] = true
text_eq (x ∷ xs) (y ∷ ys) = x == y && text_eq xs ys
text_eq _ _ = false

abbrev pub starts_with : List ℕ → List ℕ → Bool
starts_with [] s = true
starts_with (x ∷ xs) [] = false
starts_with (x ∷ xs) (y ∷ ys) = x == y && starts_with xs ys

unfoldable pub contains : List ℕ → List ℕ → Bool
contains pat [] = starts_with pat []
contains pat (c ∷ cs) = starts_with pat (c ∷ cs) || contains pat cs

unfoldable pub strip_prefix : List ℕ → List ℕ → Option (List ℕ)
strip_prefix [] s = some s
strip_prefix (x ∷ xs) [] = none
strip_prefix (x ∷ xs) (y ∷ ys) = if x == y then strip_prefix xs ys else none

abbrev pub behind : ℕ → Option (List ℕ × List ℕ) → Option (List ℕ × List ℕ)
behind c none = none
behind c (some (front, rest)) = some (c ∷ front, rest)

abbrev pub first_match : Option (List ℕ) → Option (List ℕ × List ℕ) → Option (List ℕ × List ℕ)
first_match (some rest) later = some ([], rest)
first_match none later = later

-- `split_once` at a text: what stands before its first place, and behind it.
unfoldable pub split_once : List ℕ → List ℕ → Option (List ℕ × List ℕ)
unfolding strip_prefix
split_once pat [] = first_match (strip_prefix pat []) none
split_once pat (c ∷ cs) = first_match (strip_prefix pat (c ∷ cs)) (behind c (split_once pat cs))

abbrev pub onto_first : ℕ → List (List ℕ) → List (List ℕ)
onto_first c [] = (c ∷ []) ∷ []
onto_first c (part ∷ parts) = (c ∷ part) ∷ parts

-- `split` at the characters that a test picks.
unfoldable pub split_on : (ℕ → Bool) → List ℕ → List (List ℕ)
split_on p [] = [] ∷ []
split_on p (c ∷ cs) = let parts = split_on p cs in if p c then [] ∷ parts else onto_first c parts

-- The characters before the first that the test picks, and the others.
unfoldable pub span_until : (ℕ → Bool) → List ℕ → List ℕ × List ℕ
span_until p [] = ([], [])
span_until p (c ∷ cs) =
    let (front, rest) = span_until p cs in if p c then ([], c ∷ cs) else (c ∷ front, rest)

-- `trim_start_matches`, `trim_end_matches` and `trim_matches` with a test.
unfoldable pub trim_start_by : (ℕ → Bool) → List ℕ → List ℕ
trim_start_by p [] = []
trim_start_by p (c ∷ cs) = if p c then trim_start_by p cs else c ∷ cs

abbrev pub keep_if_last : Bool → ℕ → List ℕ → List ℕ
keep_if_last true c [] = []
keep_if_last false c [] = c ∷ []
keep_if_last b c (d ∷ ds) = c ∷ (d ∷ ds)

unfoldable pub trim_end_by : (ℕ → Bool) → List ℕ → List ℕ
trim_end_by p [] = []
trim_end_by p (c ∷ cs) = keep_if_last (p c) c (trim_end_by p cs)

unfoldable pub trim_by : (ℕ → Bool) → List ℕ → List ℕ
unfolding trim_start_by trim_end_by
trim_by p s = trim_end_by p (trim_start_by p s)

abbrev pub within : ℕ → ℕ → ℕ → Bool
within lo hi c = leb lo c && leb c hi

-- `char::is_whitespace`: the property White_Space of Unicode.
unfoldable pub is_whitespace : ℕ → Bool
is_whitespace c =
    within 0x09 0x0D c
    || (c == 0x20
        || (c == 0x85
            || (c == 0xA0
                || (c == 0x1680
                    || (within 0x2000 0x200A c
                        || (within 0x2028 0x2029 c
                            || (c == 0x202F || (c == 0x205F || c == 0x3000))))))))

unfoldable pub trim : List ℕ → List ℕ
unfolding trim_by is_whitespace
trim s = trim_by is_whitespace s

unfoldable pub trim_start : List ℕ → List ℕ
unfolding trim_start_by is_whitespace
trim_start s = trim_start_by is_whitespace s

abbrev pub is_digit : ℕ → Bool
is_digit c = within b'0' b'9' c

abbrev pub is_alphanumeric : ℕ → Bool
is_alphanumeric c = is_digit c || (within b'A' b'Z' c || within b'a' b'z' c)

unfoldable pub to_lower : ℕ → ℕ
to_lower c = if within b'A' b'Z' c then c + 32 else c

unfoldable pub to_lowercase : List ℕ → List ℕ
unfolding to_lower
to_lowercase [] = []
to_lowercase (c ∷ cs) = to_lower c ∷ to_lowercase cs

-- The value of a digit, up to base sixteen.
unfoldable pub hex_digit : ℕ → Option ℕ
hex_digit c =
    if is_digit c
    then some (c - b'0')
    else if within b'a' b'f' c
    then some (c - b'a' + 10)
    else if within b'A' b'F' c
    then some (c - b'A' + 10)
    else none

abbrev pub digit_below : ℕ → Option ℕ → Option ℕ
digit_below base none = none
digit_below base (some d) = if ltb d base then some d else none

abbrev pub on_digit : ℕ → ℕ → (ℕ → Option ℕ) → Option ℕ → Option ℕ
on_digit base acc more none = none
on_digit base acc more (some d) = more (acc * base + d)

unfoldable pub digits_value : ℕ → ℕ → List ℕ → Option ℕ
unfolding hex_digit
digits_value base acc [] = some acc
digits_value base acc (c ∷ cs) =
    on_digit base acc (λ v. digits_value base v cs) (digit_below base (hex_digit c))

abbrev pub at_most : ℕ → Option ℕ → Option ℕ
at_most bound none = none
at_most bound (some v) = if leb v bound then some v else none

-- `from_str_radix` and, in base ten, `parse` of an unsigned type: a `+` may stand in front.
unfoldable pub parse_unsigned : ℕ → ℕ → List ℕ → Option ℕ
unfolding digits_value
parse_unsigned base bound [] = none
parse_unsigned base bound (c ∷ []) = at_most bound (digits_value base 0 (c ∷ []))
parse_unsigned base bound (c ∷ (d ∷ ds)) =
    at_most bound
      (if c == b'+' then digits_value base 0 (d ∷ ds) else digits_value base 0 (c ∷ (d ∷ ds)))

-- `lines`: cut at each newline, without the carriage return in front of it.
unfoldable pub lines : List ℕ → List (List ℕ)
lines [] = []
lines (c ∷ cs) =
    let rest = lines cs in
    if c == 10
    then [] ∷ rest
    else if starts_with (13 ∷ 10 ∷ []) (c ∷ cs)
    then rest
    else onto_first c rest

abbrev pub is_empty : {A : Type 0} → List A → Bool
is_empty [] = true
is_empty (x ∷ xs) = false

abbrev pub is_some : {A : Type 0} → Option A → Bool
is_some none = false
is_some (some a) = true

abbrev pub crlf : List ℕ
crlf = 13 ∷ 10 ∷ []

abbrev pub drop_empty : List (List ℕ) → List (List ℕ)
drop_empty [] = []
drop_empty ([] ∷ parts) = drop_empty parts
drop_empty ((c ∷ cs) ∷ parts) = (c ∷ cs) ∷ drop_empty parts

unfoldable pub split_whitespace : List ℕ → List (List ℕ)
unfolding split_on is_whitespace
split_whitespace s = drop_empty (split_on is_whitespace s)

-- `parse` of an unsigned type whose values end at the bound.
unfoldable pub parse_nat : ℕ → List ℕ → Option ℕ
unfolding parse_unsigned
parse_nat bound s = parse_unsigned 10 bound s

abbrev pub u8_max : ℕ
u8_max = 255

abbrev pub u16_max : ℕ
u16_max = 65_535

abbrev pub u32_max : ℕ
u32_max = 4_294_967_295

abbrev pub u64_max : ℕ
u64_max = 18_446_744_073_709_551_615

-- `to_string` of a number; the first number bounds its digits.
unfoldable pub decimal_digits : ℕ → ℕ → List ℕ → List ℕ
decimal_digits zero n acc = acc
decimal_digits (suc digits) n acc =
    let more = decimal_digits digits (n / 10) ((b'0' + n % 10) ∷ acc) in
    if ltb n 10 then (b'0' + n) ∷ acc else more

unfoldable pub decimal : ℕ → List ℕ
unfolding decimal_digits
decimal n = decimal_digits (suc n) n []

-- The digit of a number below sixteen, in lower case.
abbrev pub hex_char : ℕ → ℕ
hex_char d = if ltb d 10 then b'0' + d else b'a' + (d - 10)
