-- ===== src/Common/Utf8.antt =====
-- `str::as_bytes` and `String::from_utf8_lossy` of the standard library: UTF-8 written and read.
-- A `char` is its code point. Each maximal ill-formed piece is read as U+FFFD.
use Prim.Native.Nat.{ℕ, zero, suc, ◌+◌, ◌*◌, ◌/◌, ◌%◌, ◌-◌, ◌≤◌, ◌<◌}
use Prim.Native.Char.{code}
use Prim.Native.String.{String}
use mathlib.Core.Path.{◌≡◌, refl, sym, ap, ◌∙◌}
use mathlib.Core.Logic.{◌⊎◌}
use mathlib.Core.Bool.{Bool, ◌&&◌}
use mathlib.Core.List.{List, [], ◌∷◌, ◌++◌, append_assoc}
use native.Mathlib.Omega.{arith}
use yellow_vpn.Common.Tests.{ltb, leb, ◌==◌, if◌then◌else◌}
use yellow_vpn.Common.Lists.{get_or, All}
use yellow_vpn.Common.Endian.{Bytes}

unfoldable pub char_to_utf8 : ℕ → Bytes
char_to_utf8 c =
    if ltb c 0x80
    then c ∷ []
    else if ltb c 0x800
    then (0xC0 + c / 64) ∷ (0x80 + c % 64) ∷ []
    else if ltb c 0x10000
    then (0xE0 + c / 4096) ∷ (0x80 + c / 64 % 64) ∷ (0x80 + c % 64) ∷ []
    else (0xF0 + c / 262144) ∷ (0x80 + c / 4096 % 64) ∷ (0x80 + c / 64 % 64) ∷ (0x80 + c % 64) ∷ []

unfoldable pub as_bytes : List ℕ → Bytes
unfolding char_to_utf8
as_bytes [] = []
as_bytes (c ∷ cs) = char_to_utf8 c ++ as_bytes cs

pub as_bytes-append : (s t : List ℕ) → as_bytes (s ++ t) ≡ as_bytes s ++ as_bytes t
unfolding as_bytes
as_bytes-append [] t = refl
as_bytes-append (c ∷ s) t =
    ap (λ x. char_to_utf8 c ++ x) (as_bytes-append s t)
    ∙ sym (append_assoc (char_to_utf8 c) (as_bytes s) (as_bytes t))

abbrev pub replacement : ℕ
replacement = 0xFFFD

abbrev within : ℕ → ℕ → ℕ → Bool
within lo hi b = leb lo b && leb b hi

abbrev is_tail : ℕ → Bool
is_tail b = within 0x80 0xBF b

-- The second bytes that may follow a first byte of a three-byte or a four-byte sequence.
abbrev second3 : ℕ → ℕ → Bool
second3 a b =
    if a == 0xE0 then within 0xA0 0xBF b else if a == 0xED then within 0x80 0x9F b else is_tail b

abbrev second4 : ℕ → ℕ → Bool
second4 a b =
    if a == 0xF0 then within 0x90 0xBF b else if a == 0xF4 then within 0x80 0x8F b else is_tail b

abbrev char2 : ℕ → ℕ → ℕ
char2 a b = (a - 0xC0) * 64 + (b - 0x80)

abbrev char3 : ℕ → ℕ → ℕ → ℕ
char3 a b c = ((a - 0xE0) * 64 + (b - 0x80)) * 64 + (c - 0x80)

abbrev char4 : ℕ → ℕ → ℕ → ℕ → ℕ
char4 a b c d = (((a - 0xF0) * 64 + (b - 0x80)) * 64 + (c - 0x80)) * 64 + (d - 0x80)

-- The character read at the first byte `a`, and how many of the bytes behind `a` it takes. A byte
-- that is missing is read as 0, which continues no sequence.
unfoldable pub first_char : ℕ → Bytes → ℕ × ℕ
first_char a r =
    let b = get_or r 0 0 in
    let c = get_or r 1 0 in
    let d = get_or r 2 0 in
    if ltb a 0x80
    then (a, 0)
    else if within 0xC2 0xDF a
    then (if is_tail b then (char2 a b, 1) else (replacement, 0))
    else if within 0xE0 0xEF a
    then (if second3 a b
        then (if is_tail c then (char3 a b c, 2) else (replacement, 1))
        else (replacement, 0))
    else if within 0xF0 0xF4 a
    then (if second4 a b
        then (if is_tail c
            then (if is_tail d then (char4 a b c d, 3) else (replacement, 2))
            else (replacement, 1))
        else (replacement, 0))
    else (replacement, 0)

-- The first number counts the bytes that the last character still takes.
lossy : ℕ → Bytes → List ℕ
lossy k [] = []
lossy (suc k) (a ∷ r) = lossy k r
lossy zero (a ∷ r) = let (c, k) = first_char a r in c ∷ lossy k r

unfoldable pub from_utf8_lossy : Bytes → List ℕ
unfolding lossy first_char
from_utf8_lossy = lossy zero

-- A Unicode scalar value, as every `char` is.
abbrev pub IsScalar : ℕ → Type 0
IsScalar c = (c < 0xD800) ⊎ ((0xE000 ≤ c) × (c < 0x110000))

read1 : (c : ℕ) (r : Bytes) → c < 0x80 → first_char c r ≡ (c, 0)
unfolding first_char
read1 c r h = ground arith

read2 :
    (c : ℕ) (r : Bytes)
    → 0x80 ≤ c
    → c < 0x800
    → first_char (0xC0 + c / 64) ((0x80 + c % 64) ∷ r) ≡ (c, 1)
unfolding first_char
read2 c r lo hi = ground arith

read3 :
    (c : ℕ) (r : Bytes)
    → 0x800 ≤ c
    → c < 0x10000
    → IsScalar c
    → first_char (0xE0 + c / 4096) ((0x80 + c / 64 % 64) ∷ (0x80 + c % 64) ∷ r) ≡ (c, 2)
unfolding first_char
read3 c r lo hi h = ground arith

read4 :
    (c : ℕ) (r : Bytes)
    → 0x10000 ≤ c
    → c < 0x110000
    → first_char
        (0xF0 + c / 262144)
        ((0x80 + c / 4096 % 64) ∷ (0x80 + c / 64 % 64) ∷ (0x80 + c % 64) ∷ r)
      ≡ (c, 3)
unfolding first_char
read4 c r lo hi = ground arith

lossy-char_to_utf8 :
    (c : ℕ) (r : Bytes) → IsScalar c → lossy zero (char_to_utf8 c ++ r) ≡ c ∷ lossy zero r
unfolding lossy char_to_utf8
lossy-char_to_utf8 c r h = ground (arith, read1 c r, read2 c r, read3 c r, read4 c r)

pub from_utf8_lossy-as_bytes : (s : List ℕ) → All IsScalar s → from_utf8_lossy (as_bytes s) ≡ s
unfolding from_utf8_lossy as_bytes
from_utf8_lossy-as_bytes [] h = refl
from_utf8_lossy-as_bytes (c ∷ cs) (h, hs) =
    unfold from_utf8_lossy in
    lossy-char_to_utf8 c (as_bytes cs) h ∙ ap (◌∷◌ c) (from_utf8_lossy-as_bytes cs hs)

-- The code points of a text literal.
abbrev pub codes : String → List ℕ
codes String.[] = []
codes (String.◌∷◌ c s) = code c ∷ codes s
