-- ===== src/Config.antt =====
-- crates/vpn-engine/src/config.rs: the configuration of the engine and the pin of a certificate.
pub mod Fingerprint
use yellow_vpn.Common.{
  ℕ, zero, suc, ◌+◌, ◌-◌, ◌*◌, ◌/◌, ◌%◌, ◌^◌, ◌≤◌, ◌<◌, String, ◌≡◌, refl, sym, ap, ◌∙◌, ◌≢◌, ◌↔◌,
  ◌⊎◌, inl, inr, Bool, true, false, not, ◌&&◌, ◌||◌, Option, none, some, List, [], ◌∷◌, ◌++◌, map,
  append-nil, append_assoc, arith, ltb, leb, ◌==◌, if◌then◌else◌, ltb→lt, ltb→le, lt→ltb, le→ltb,
  leb→le, ==_iff, ==_self, Bool-cases, Option-cases, length, get_or, take, drop, All, length-append,
  take-append-drop, length-take, length-drop, take-length_append, drop-length_append, take-append,
  drop-append, All-append, Bytes, IsByte, as_u8, as_u16, as_u32, be16, from_be16, be32, from_be32,
  from_be16-be16, from_be32-be32, as_bytes, from_utf8_lossy, IsScalar, from_utf8_lossy-as_bytes,
  codes,
}
use yellow_vpn.Common.Str.{
  is_some, strip_prefix, trim, is_whitespace, hex_digit, parse_unsigned, u8_max,
}
use yellow_vpn.Error.{
  ensure, ◌>>◌, Text, Message, format, verbatim, caused, plain, VpnError, config, privilege, tun,
  tun_unavailable, routing, tls, auth_failed, server_disconnect, io, not_implemented, is_permanent,
  Result, ok, err, ◌>>=◌, Result-cases,
}

pub data Protocol : Type 0 where
  any_connect checkpoint forti_gate : Protocol

pub record Config : Type 0 where
  pub host : Text
  pub port : ℕ
  pub username : Text
  pub password : Option Text
  pub verbose : Bool
  pub cert_sha256 : Option Bytes
  pub insecure : Bool
  pub protocol : Protocol
  pub realm : Text

abbrev pub new_config : Text → ℕ → Text → Config
new_config host port username = record {
  host = host;
  port = port;
  username = username;
  password = none;
  verbose = false;
  cert_sha256 = none;
  insecure = false;
  protocol = any_connect;
  realm = [];
}

abbrev pub or_self : Option Text → Text → Text
or_self none s = s
or_self (some rest) s = rest

-- `trim_start_matches` of a text that is not empty, on fuel: a round shortens the text.
unfoldable pub trim_start_matches : ℕ → Text → Text → Text
unfolding strip_prefix
trim_start_matches zero pat s = s
trim_start_matches (suc rounds) pat s =
    trim_start_matches rounds pat (or_self (strip_prefix pat s) s)

-- `filter` of the separators and the white space.
unfoldable pub cleaned : Text → Text
unfolding is_whitespace
cleaned [] = []
cleaned (c ∷ cs) = let rest = cleaned cs in if c == b':' || is_whitespace c then rest else c ∷ rest

unfoldable pub cleaned_pin : Text → Text
unfolding trim trim_start_matches cleaned
cleaned_pin input =
    let s = trim input in
    cleaned (
      trim_start_matches (length s) (codes "SHA256:")
        (trim_start_matches (length s) (codes "sha256:") s))

-- `is_ascii_hexdigit` of every character.
unfoldable pub all_hex : Text → Bool
unfolding hex_digit
all_hex [] = true
all_hex (c ∷ cs) = is_some (hex_digit c) && all_hex cs

abbrev pub pair_value : Option ℕ → Result ℕ
pair_value none = err (config (plain "invalid fingerprint hex"))
pair_value (some b) = ok b

-- The bytes of the array, one for each pair of digits.
unfoldable pub pin_bytes : ℕ → Text → Result Bytes
unfolding parse_unsigned
pin_bytes zero s = ok []
pin_bytes (suc n) s = do
  b ← pair_value (parse_unsigned 16 u8_max (take 2 s))
  rest ← pin_bytes n (drop 2 s)
  ok (b ∷ rest)

abbrev pub bad_fingerprint : Text → VpnError
bad_fingerprint input = config (
    caused (plain "invalid SHA-256 fingerprint, expected 64 hex characters (32 bytes)")
      (verbatim input))

unfoldable pub parse_sha256_fingerprint : Text → Result Bytes
unfolding cleaned_pin all_hex pin_bytes as_bytes
parse_sha256_fingerprint input = do
  ensure (length (as_bytes (cleaned_pin input)) == 64 && all_hex (cleaned_pin input))
      (bad_fingerprint input)
  pin_bytes 32 (cleaned_pin input)
