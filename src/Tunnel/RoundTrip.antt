-- ===== src/Tunnel/RoundTrip.antt =====
-- crates/vpn-engine/src/tunnel.rs: writing and reading CSTP packets.
use yellow_vpn.Common.{
  ℕ, ◌^◌, ◌<◌, ◌≡◌, refl, none, some, ◌∷◌, ◌++◌, arith, length, length-append, take-length_append,
  drop-length_append, Bytes, from_be16-be16,
}
use yellow_vpn.Error.{ok}
use yellow_vpn.Tunnel.{
  CstpType, packet_data, to_u8, from_u8, CstpPacket, write_header, parse_header, try_decode_cstp,
}

-- The type byte of a packet determines the type.
pub from_u8-to_u8 : (t : CstpType) → from_u8 (to_u8 t) ≡ ok t
unfolding from_u8 to_u8
from_u8-to_u8 packet_data = refl
from_u8-to_u8 _ = refl

pub to_u8-from_u8 : (b : ℕ) {t : CstpType} → from_u8 b ≡ ok t → to_u8 t ≡ b
unfolding from_u8 to_u8
to_u8-from_u8 b h = ground arith

pub parse_header-write_header :
    (t : CstpType) (n : ℕ) → n < 2 ^ 16 → parse_header (write_header t n) ≡ ok (t, n)
unfolding parse_header write_header
parse_header-write_header t n h = ground (arith, from_u8-to_u8 t, from_be16-be16 n)

abbrev pub packet_bytes : CstpPacket → Bytes
packet_bytes p = write_header p.packet_type (length p.payload) ++ p.payload

pub try_decode_cstp-packet_bytes :
    (p : CstpPacket) (rest : Bytes)
    → length p.payload < 2 ^ 16
    → try_decode_cstp (packet_bytes p ++ rest) ≡ (ok (some p), rest)
unfolding try_decode_cstp write_header
try_decode_cstp-packet_bytes p rest h = ground (
  arith,
  take-length_append p.payload rest,
  drop-length_append p.payload rest,
  length-append p.payload rest,
  from_be16-be16 (length p.payload),
  from_u8-to_u8 p.packet_type,
)

pub try_decode_cstp_partial :
    (p : CstpPacket) (front back : Bytes) (x : ℕ)
    → length p.payload < 2 ^ 16
    → packet_bytes p ≡ front ++ (x ∷ back)
    → try_decode_cstp front ≡ (ok none, front)
unfolding try_decode_cstp write_header
try_decode_cstp_partial p (a ∷ b ∷ c ∷ d ∷ e ∷ f ∷ g ∷ h ∷ front) back x small s = ground (
  arith,
  length-append front (x ∷ back),
  from_be16-be16 (length p.payload),
  from_u8-to_u8 p.packet_type,
)
try_decode_cstp_partial p _ back x h s = refl
