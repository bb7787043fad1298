-- ===== src/Checkpoint/Cipher.antt =====
-- crates/vpn-engine/src/checkpoint/cipher.rs: the password obfuscation, and its text form in
-- hexadecimal digits. `(hi << 4) | lo` of two digits is their sum in base sixteen.
pub mod Restore
use Prim.Native.Nat.{bit_xor}
use mathlib.Core.List.{reverse}
use yellow_vpn.Common.{
  ℕ, zero, suc, ◌+◌, ◌-◌, ◌*◌, ◌/◌, ◌%◌, ◌^◌, ◌≤◌, ◌<◌, String, ◌≡◌, refl, sym, ap, ◌∙◌, ◌≢◌, ◌↔◌,
  ◌⊎◌, inl, inr, Bool, true, false, not, ◌&&◌, ◌||◌, Option, none, some, List, [], ◌∷◌, ◌++◌, map,
  append-nil, append_assoc, arith, ltb, leb, ◌==◌, if◌then◌else◌, ltb→lt, ltb→le, lt→ltb, le→ltb,
  leb→le, ==_iff, ==_self, Bool-cases, Option-cases, length, get_or, take, drop, All, length-append,
  take-append-drop, length-take, length-drop, take-length_append, drop-length_append, take-append,
  drop-append, All-append, Bytes, IsByte, as_u8, as_u16, as_u32, be16, from_be16, be32, from_be32,
  from_be16-be16, from_be32-be32, as_bytes, from_utf8_lossy, IsScalar, from_utf8_lossy-as_bytes,
  codes,
}
use yellow_vpn.Common.Str.{hex_char, hex_digit}
use yellow_vpn.Error.{
  ensure, ◌>>◌, Text, Message, format, verbatim, caused, plain, VpnError, config, privilege, tun,
  tun_unavailable, routing, tls, protocol, auth_failed, server_disconnect, io, not_implemented,
  is_permanent, Result, ok, err, ◌>>=◌, Result-cases,
}

unfoldable pub key_table : Bytes
key_table =
    codes "-ODIFIED&W0ROPERTY3HEET7ITH/+4HE3HEET)$3?,$!0?!5?02/0%24)%3.5,,"
    ++ (0x10 ∷ (codes "&7?70?/" ++ (b'"' ∷ codes "*%#43")))

abbrev pub key_len : ℕ
key_len = 77

unfoldable pub key_at : ℕ → ℕ
unfolding key_table
key_at i = get_or key_table (i % key_len) 0

-- The transform of a byte under a byte of the key.
abbrev pub masked : ℕ → ℕ → ℕ
masked key c = let x = bit_xor (if c == 0xFF then 0 else c) key in if x == 0 then 0xFF else x

unfoldable pub translate : ℕ → ℕ → ℕ
unfolding key_at
translate i c = masked (key_at i) c

-- `enumerate` and `map`, from a position on.
unfoldable pub translate_from : ℕ → Bytes → Bytes
unfolding translate
translate_from i [] = []
translate_from i (c ∷ cs) = translate i c ∷ translate_from (i + 1) cs

unfoldable pub obfuscate : Bytes → Bytes
unfolding translate_from
obfuscate bytes = reverse (translate_from 0 bytes)

unfoldable pub deobfuscate : Bytes → Bytes
unfolding translate_from
deobfuscate bytes = translate_from 0 (reverse bytes)

unfoldable pub to_hex_lower : Bytes → Text
to_hex_lower [] = []
to_hex_lower (b ∷ bs) = hex_char (b / 16) ∷ (hex_char (b % 16) ∷ to_hex_lower bs)

abbrev pub hex_val : Option ℕ → Result ℕ
hex_val none = err (protocol (plain "invalid hex digit"))
hex_val (some d) = ok d

-- The pairs of digits. A single digit at the end is never met, since the length is even.
unfoldable pub hex_pairs : Bytes → Result Bytes
unfolding hex_digit
hex_pairs [] = ok []
hex_pairs (c ∷ []) = ok []
hex_pairs (a ∷ (b ∷ bs)) = do
  hi ← hex_val (hex_digit a)
  lo ← hex_val (hex_digit b)
  rest ← hex_pairs bs
  ok ((hi * 16 + lo) ∷ rest)

unfoldable pub from_hex : Bytes → Result Bytes
unfolding hex_pairs
from_hex bytes = do
  ensure (length bytes % 2 == 0) (protocol (plain "hex string has odd length"))
  hex_pairs bytes

unfoldable pub encode : Text → Text
unfolding to_hex_lower obfuscate as_bytes
encode password = to_hex_lower (obfuscate (as_bytes password))

abbrev pub then_deobfuscate : Result Bytes → Result Bytes
then_deobfuscate (ok bytes) = ok (deobfuscate bytes)
then_deobfuscate (err e) = err e

unfoldable pub decode : Text → Result Bytes
unfolding from_hex deobfuscate as_bytes
decode hex = then_deobfuscate (from_hex (as_bytes hex))
