-- ===== src/Tunnel.antt =====
-- crates/vpn-engine/src/tunnel.rs: the CSTP packet header and the codec on top of it.
pub mod RoundTrip
pub mod Agree
pub mod Session
pub mod Tls
use yellow_vpn.Common.{
  ℕ, zero, suc, ◌+◌, ◌-◌, ◌*◌, ◌/◌, ◌%◌, ◌^◌, ◌≤◌, ◌<◌, String, ◌≡◌, refl, sym, ap, ◌∙◌, ◌≢◌, ◌↔◌,
  ◌⊎◌, inl, inr, Bool, true, false, not, ◌&&◌, ◌||◌, Option, none, some, List, [], ◌∷◌, ◌++◌, map,
  append-nil, append_assoc, arith, ltb, leb, ◌==◌, if◌then◌else◌, ltb→lt, ltb→le, lt→ltb, le→ltb,
  leb→le, ==_iff, ==_self, Bool-cases, Option-cases, length, get_or, take, drop, All, length-append,
  take-append-drop, length-take, length-drop, take-length_append, drop-length_append, take-append,
  drop-append, All-append, Bytes, IsByte, as_u8, as_u16, as_u32, be16, from_be16, be32, from_be32,
  from_be16-be16, from_be32-be32, as_bytes, from_utf8_lossy, IsScalar, from_utf8_lossy-as_bytes,
  codes,
}
use yellow_vpn.Error.{
  ensure, ◌>>◌, Text, Message, format, verbatim, caused, plain, VpnError, config, privilege, tun,
  tun_unavailable, routing, tls, protocol, auth_failed, server_disconnect, io, not_implemented,
  is_permanent, Result, ok, err, ◌>>=◌, Result-cases,
}

abbrev pub cstp_header_len : ℕ
cstp_header_len = 8

-- "STF"
abbrev pub cstp_magic : Bytes
cstp_magic = 0x53 ∷ 0x54 ∷ 0x46 ∷ []

abbrev pub cstp_version : ℕ
cstp_version = 0x01

pub data CstpType : Type 0 where
  packet_data dpd_out dpd_resp disconnect keepalive compressed term_server : CstpType

unfoldable pub to_u8 : CstpType → ℕ
to_u8 packet_data = 0x00
to_u8 dpd_out = 0x03
to_u8 dpd_resp = 0x04
to_u8 disconnect = 0x05
to_u8 keepalive = 0x07
to_u8 compressed = 0x08
to_u8 term_server = 0x09

unfoldable pub from_u8 : ℕ → Result CstpType
from_u8 b =
    if b == 0x00
    then ok packet_data
    else if b == 0x03
    then ok dpd_out
    else if b == 0x04
    then ok dpd_resp
    else if b == 0x05
    then ok disconnect
    else if b == 0x07
    then ok keepalive
    else if b == 0x08
    then ok compressed
    else if b == 0x09
    then ok term_server
    else err (protocol (format "unknown CSTP packet type: 0x{:02x}" (b ∷ [])))

pub record CstpPacket : Type 0 where
  pub packet_type : CstpType
  pub payload : Bytes

unfoldable pub write_header : CstpType → ℕ → Bytes
unfolding to_u8
write_header packet_type payload_len =
    let len = as_u16 payload_len in
    cstp_magic ++ (cstp_version ∷ (be16 len ++ (to_u8 packet_type ∷ 0x00 ∷ [])))

-- `header[0..3] == CSTP_MAGIC`
abbrev has_magic : Bytes → Bool
has_magic header =
    get_or header 0 0 == 0x53 && (get_or header 1 0 == 0x54 && get_or header 2 0 == 0x46)

-- Its argument has eight bytes.
unfoldable pub parse_header : Bytes → Result (CstpType × ℕ)
unfolding from_u8
parse_header header =
    let len = from_be16 (get_or header 4 0) (get_or header 5 0) in
    do
      ensure (has_magic header) (protocol (format "bad CSTP magic: {:02x?}" (take 3 header)))
      packet_type ← from_u8 (get_or header 6 0)
      ok (packet_type, len)

unfoldable pub encode_data : Bytes → Bytes
unfolding write_header
encode_data payload = write_header packet_data (length payload) ++ payload

unfoldable pub decode : Bytes → Result CstpPacket
unfolding parse_header
decode frame =
    let body = drop cstp_header_len frame in
    do
      ensure (leb cstp_header_len (length frame))
          (protocol (format "CSTP frame too short: {} bytes" (length frame ∷ [])))
      (packet_type, len) ← parse_header (take cstp_header_len frame)
      ensure (length body == len) (
          protocol
            (format "CSTP length mismatch: header says {}, body is {}" (len ∷ length body ∷ [])))
      ok (record { packet_type = packet_type; payload = body })

-- What `try_decode_cstp` does once the header has arrived and is parsed.
abbrev pub take_packet : Bytes → Result (CstpType × ℕ) → Result (Option CstpPacket) × Bytes
take_packet buf (err e) = (err e, buf)
take_packet buf (ok (packet_type, len)) =
    let rest = drop cstp_header_len buf in
    if ltb (length buf) (cstp_header_len + len)
    then (ok none, buf)
    else (ok (some (record { packet_type = packet_type; payload = take len rest })), drop len rest)

unfoldable pub try_decode_cstp : Bytes → Result (Option CstpPacket) × Bytes
unfolding parse_header
try_decode_cstp buf =
    if ltb (length buf) cstp_header_len
    then (ok none, buf)
    else take_packet buf (parse_header (take cstp_header_len buf))
