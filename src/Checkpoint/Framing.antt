-- ===== src/Checkpoint/Framing.antt =====
-- crates/vpn-engine/src/checkpoint/framing.rs: the SLIM frames, an eight-byte header and a payload.
pub mod RoundTrip
use yellow_vpn.Common.{
  ℕ, zero, suc, ◌+◌, ◌-◌, ◌*◌, ◌/◌, ◌%◌, ◌^◌, ◌≤◌, ◌<◌, String, ◌≡◌, refl, sym, ap, ◌∙◌, ◌≢◌, ◌↔◌,
  ◌⊎◌, inl, inr, Bool, true, false, not, ◌&&◌, ◌||◌, Option, none, some, List, [], ◌∷◌, ◌++◌, map,
  append-nil, append_assoc, arith, ltb, leb, ◌==◌, if◌then◌else◌, ltb→lt, ltb→le, lt→ltb, le→ltb,
  leb→le, ==_iff, ==_self, Bool-cases, Option-cases, length, get_or, take, drop, All, length-append,
  take-append-drop, length-take, length-drop, take-length_append, drop-length_append, take-append,
  drop-append, All-append, Bytes, IsByte, as_u8, as_u16, as_u32, be16, from_be16, be32, from_be32,
  from_be16-be16, from_be32-be32, as_bytes, from_utf8_lossy, IsScalar, from_utf8_lossy-as_bytes,
  codes,
}
use yellow_vpn.Error.{
  ensure, ◌>>◌, Text, Message, format, verbatim, caused, plain, VpnError, config, privilege, tun,
  tun_unavailable, routing, tls, protocol, auth_failed, server_disconnect, io, not_implemented,
  is_permanent, Result, ok, err, ◌>>=◌, Result-cases,
}
use yellow_vpn.Checkpoint.Ccc.{CccValue, atom, node, nil, field, to_wire, parse}

abbrev pub slim_header_len : ℕ
slim_header_len = 8

abbrev pub pkt_control : ℕ
pkt_control = 1

abbrev pub pkt_data : ℕ
pkt_data = 2

abbrev pub max_slim_payload : ℕ
max_slim_payload = 1_048_576

pub data SlimPacket : Type 0 where
  control : CccValue → SlimPacket
  packet_data : Bytes → SlimPacket

unfoldable pub encode_data_append : Bytes → Bytes → Bytes
encode_data_append payload out =
    out ++ (be32 (as_u32 (length payload)) ++ (be32 pkt_data ++ payload))

unfoldable pub encode_data : Bytes → Bytes
unfolding encode_data_append
encode_data payload = encode_data_append payload []

unfoldable pub encode_control : Text → Bytes
encode_control sexpr_wire =
    let payload = as_bytes sexpr_wire ++ (0x00 ∷ []) in
    be32 (as_u32 (length payload)) ++ (be32 pkt_control ++ payload)

abbrev pub keepalive_tree : CccValue
keepalive_tree = node (some (codes "keepalive")) (field (codes "id") (atom (codes "0")) nil)

unfoldable pub encode_keepalive : Bytes
unfolding encode_control
encode_keepalive = encode_control (to_wire keepalive_tree)

-- The payload without one trailing NUL.
unfoldable pub strip_nul : Bytes → Bytes
strip_nul [] = []
strip_nul (b ∷ []) = if b == 0x00 then [] else b ∷ []
strip_nul (b ∷ (c ∷ bs)) = b ∷ strip_nul (c ∷ bs)

abbrev pub control_of : Result CccValue → Result (Option SlimPacket)
control_of (ok tree) = ok (some (control tree))
control_of (err e) = err e

-- The last match: on the type of a frame whose bytes have been consumed.
unfoldable pub read_payload : ℕ → Bytes → Result (Option SlimPacket)
unfolding strip_nul
read_payload packet_type payload =
    if packet_type == pkt_control
    then control_of (parse (from_utf8_lossy (strip_nul payload)))
    else if packet_type == pkt_data
    then ok (some (packet_data payload))
    else err (protocol (format "unknown SLIM packet type: {}" (packet_type ∷ [])))

unfoldable pub try_decode_slim : Bytes → Result (Option SlimPacket) × Bytes
unfolding read_payload
try_decode_slim buf =
    let len = from_be32 (get_or buf 0 0) (get_or buf 1 0) (get_or buf 2 0) (get_or buf 3 0) in
    let packet_type =
      from_be32 (get_or buf 4 0) (get_or buf 5 0) (get_or buf 6 0) (get_or buf 7 0) in
    let rest = drop slim_header_len buf in
    if ltb (length buf) slim_header_len
    then (ok none, buf)
    else if ltb max_slim_payload len
    then (err (protocol (format "SLIM frame length {} exceeds cap" (len ∷ []))), buf)
    else if ltb (length buf) (slim_header_len + len)
    then (ok none, buf)
    else (read_payload packet_type (take len rest), drop len rest)
