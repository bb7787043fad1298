-- ===== src/Checkpoint/Cipher/Restore.antt =====
-- crates/vpn-engine/src/checkpoint/cipher.rs: what `decode` makes of an encoded password.
use Prim.Native.Nat.{bit_xor}
use mathlib.Core.List.{reverse, reverse-reverse, reverse-cons}
use yellow_vpn.Common.{
  ℕ, zero, suc, ◌+◌, ◌*◌, ◌/◌, ◌%◌, ◌<◌, ◌≡◌, refl, ap, ◌∙◌, Bool, true, ◌&&◌, [], ◌∷◌, arith, ltb,
  ◌==◌, if◌then◌else◌, lt→ltb, ==_iff, length, get_or, All, All-append, Bytes, IsByte, as_bytes,
}
use yellow_vpn.Common.Table.{table, table-lt}
use yellow_vpn.Common.Str.{hex_char}
use yellow_vpn.Common.Decimal.{hex_digit-hex_char}
use yellow_vpn.Error.{Text, ok}
use yellow_vpn.Checkpoint.Cipher.{
  key_table, key_at, masked, translate, translate_from, obfuscate, deobfuscate, to_hex_lower,
  hex_pairs, from_hex, encode, decode,
}

-- What a byte is read back as: a zero byte and the byte that the key maps to 0xFF are lost.
abbrev pub restored : ℕ → ℕ → ℕ
restored key c = if c == 0 then 0xFF else if bit_xor c key == 0xFF then key else c

abbrev key_test : ℕ → Bool
key_test i = ltb 0 (get_or key_table i 0) && ltb (get_or key_table i 0) 128

key_range : table 77 key_test ≡ true
unfolding table key_table
key_range = refl

key_at_bounds : (i : ℕ) → (0 < key_at i) × (key_at i < 128)
unfolding key_at
key_at_bounds i =
    bounds (get_or key_table (i % 77) 0) (table-lt 77 key_test (i % 77) key_range (omega arith))
  where
    bounds : (k : ℕ) → (ltb 0 k && ltb k 128) ≡ true → (0 < k) × (k < 128)
    bounds k h = ground arith

abbrev mask_test : ℕ → ℕ → Bool
mask_test k c =
    (masked (suc k) (masked (suc k) c) == restored (suc k) c) && ltb (masked (suc k) c) 256

masked_range : table 127 (λ k. table 256 (mask_test k)) ≡ true
unfolding table
masked_range = refl

masked_twice :
    (k c : ℕ)
    → 0 < k
    → k < 128
    → c < 256
    → (masked k (masked k c) ≡ restored k c) × (masked k c < 256)
masked_twice zero c pos small byte = absurd (omega arith)
masked_twice (suc k) c pos small byte =
    split (masked (suc k) (masked (suc k) c)) (restored (suc k) c) (masked (suc k) c) (
      table-lt 256 (mask_test k) c
        (table-lt 127 (λ j. table 256 (mask_test j)) k masked_range (omega arith)) byte)
  where
    split : (x y z : ℕ) → (x == y && ltb z 256) ≡ true → (x ≡ y) × (z < 256)
    split x y z h = ground arith

translate_twice :
    (i c : ℕ)
    → c < 256
    → (translate i (translate i c) ≡ restored (key_at i) c) × (translate i c < 256)
unfolding translate
translate_twice i c byte = masked_twice (key_at i) c (key_at_bounds i).0 (key_at_bounds i).1 byte

-- What the bytes from a position on are read back as.
abbrev pub restored_from : ℕ → Bytes → Bytes
restored_from i [] = []
restored_from i (c ∷ cs) = restored (key_at i) c ∷ restored_from (i + 1) cs

translate_from_twice :
    (i : ℕ) (bs : Bytes)
    → All IsByte bs
    → translate_from i (translate_from i bs) ≡ restored_from i bs
unfolding translate_from
translate_from_twice i [] h = refl
translate_from_twice i (c ∷ cs) h =
    cc ((translate_twice i c h.0).0, translate_from_twice (i + 1) cs h.1)

All-translate_from : (i : ℕ) (bs : Bytes) → All IsByte bs → All IsByte (translate_from i bs)
unfolding translate_from
All-translate_from i [] h = tt
All-translate_from i (c ∷ cs) h = ((translate_twice i c h.0).1, All-translate_from (i + 1) cs h.1)

All-reverse : (bs : Bytes) → All IsByte bs → All IsByte (reverse bs)
All-reverse [] h = tt
All-reverse (b ∷ bs) h =
    rw (reverse-cons b bs) (All-append IsByte (reverse bs) (b ∷ []) (All-reverse bs h.1) (h.0, tt))

deobfuscate-obfuscate :
    (bs : Bytes) → All IsByte bs → deobfuscate (obfuscate bs) ≡ restored_from 0 bs
unfolding deobfuscate obfuscate
deobfuscate-obfuscate bs h =
    ap (translate_from 0) (reverse-reverse (translate_from 0 bs)) ∙ translate_from_twice 0 bs h

hex_pairs-to_hex_lower : (bs : Bytes) → All IsByte bs → hex_pairs (to_hex_lower bs) ≡ ok bs
unfolding hex_pairs to_hex_lower
hex_pairs-to_hex_lower [] h = refl
hex_pairs-to_hex_lower (b ∷ bs) h =
    rw
      (
        hex_digit-hex_char (b / 16) (omega (arith, h.0)),
        hex_digit-hex_char (b % 16) (omega arith),
        hex_pairs-to_hex_lower bs h.1,
      )
      (ap (λ x. ok (x ∷ bs)) (omega arith))

even-to_hex_lower : (bs : Bytes) → length (to_hex_lower bs) ≡ 2 * length bs
unfolding to_hex_lower
even-to_hex_lower [] = omega arith
even-to_hex_lower (b ∷ bs) = omega (arith, even-to_hex_lower bs)

abbrev IsAscii : ℕ → Type 0
IsAscii c = c < 128

as_bytes_ascii : (s : Text) → All IsAscii s → as_bytes s ≡ s
unfolding as_bytes
as_bytes_ascii [] h = refl
as_bytes_ascii (c ∷ cs) h = rw (lt→ltb c 0x80 h.0) (ap (◌∷◌ c) (as_bytes_ascii cs h.1))

hex_char-lt : (d : ℕ) → d < 16 → hex_char d < 128
hex_char-lt d h = ground arith

All-to_hex_lower : (bs : Bytes) → All IsByte bs → All IsAscii (to_hex_lower bs)
unfolding to_hex_lower
All-to_hex_lower [] h = tt
All-to_hex_lower (b ∷ bs) h = (
  hex_char-lt (b / 16) (omega (arith, h.0)),
  (hex_char-lt (b % 16) (omega arith), All-to_hex_lower bs h.1),
)

from_hex-to_hex_lower : (bs : Bytes) → All IsByte bs → from_hex (as_bytes (to_hex_lower bs)) ≡ ok bs
unfolding from_hex
from_hex-to_hex_lower bs h =
    rw
      (
        as_bytes_ascii (to_hex_lower bs) (All-to_hex_lower bs h),
        even-to_hex_lower bs,
        even_test (length bs),
      )
      (hex_pairs-to_hex_lower bs h)
  where
    even_test : (n : ℕ) → (2 * n % 2 == 0) ≡ true
    even_test n = ground arith

-- Any text comes back from its encoding byte by byte, but for two bytes at each position: a zero
-- byte is read back as 0xFF, and the byte that differs from the key's in every bit is read back as
-- the key's.
pub decode-encode :
    (p : Text) → All IsByte (as_bytes p) → decode (encode p) ≡ ok (restored_from 0 (as_bytes p))
unfolding decode encode
decode-encode p h =
    rw (from_hex-to_hex_lower (obfuscate (as_bytes p)) obfuscated)
      (ap ok (deobfuscate-obfuscate (as_bytes p) h))
  where
    obfuscated : All IsByte (obfuscate (as_bytes p))
    obfuscated =
        unfold obfuscate in
        All-reverse (translate_from 0 (as_bytes p)) (All-translate_from 0 (as_bytes p) h)

ascii_table : table 127 (λ k. table 127 (λ c. restored (suc k) (suc c) == suc c)) ≡ true
unfolding table
ascii_table = refl

restored_ascii : (k c : ℕ) → 0 < k → k < 128 → 0 < c → c < 128 → restored k c ≡ c
restored_ascii zero c pk hk pc hc = absurd (omega arith)
restored_ascii (suc k) zero pk hk pc hc = absurd (omega arith)
restored_ascii (suc k) (suc c) pk hk pc hc = (==_iff (restored (suc k) (suc c)) (suc c)).0 (
    table-lt 127 (λ d. restored (suc k) (suc d) == suc d) c
      (table-lt 127 (λ j. table 127 (λ d. restored (suc j) (suc d) == suc d)) k ascii_table
        (omega arith))
      (omega arith))

abbrev pub IsPrintable : ℕ → Type 0
IsPrintable c = (0 < c) × (c < 128)

restored_from_ascii : (i : ℕ) (s : Text) → All IsPrintable s → restored_from i s ≡ s
restored_from_ascii i [] h = refl
restored_from_ascii i (c ∷ cs) h = cc (
  restored_ascii (key_at i) c (key_at_bounds i).0 (key_at_bounds i).1 h.0.0 h.0.1,
  restored_from_ascii (i + 1) cs h.1,
)

IsPrintable-IsAscii : (s : Text) → All IsPrintable s → All IsAscii s × All IsByte s
IsPrintable-IsAscii [] h = (tt, tt)
IsPrintable-IsAscii (c ∷ cs) h =
    let rest = IsPrintable-IsAscii cs h.1 in ((h.0.1, rest.0), (omega (arith, h.0.1), rest.1))

-- An ASCII text without a NUL comes back from its encoding as it was.
pub decode-encode_ascii : (p : Text) → All IsPrintable p → decode (encode p) ≡ ok p
decode-encode_ascii p h =
    let both = IsPrintable-IsAscii p h in
    let same = as_bytes_ascii p both.0 in
    decode-encode p (rw same both.1) ∙ ap ok (ap (restored_from 0) same ∙ restored_from_ascii 0 p h)
