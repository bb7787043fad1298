-- ===== src/Fortigate/Framing.antt =====
-- crates/vpn-engine/src/fortigate/framing.rs: the envelope of the FortiGate tunnel. A `BytesMut`
-- is a list of bytes; a decoder returns its result with the buffer that it leaves.
pub mod RoundTrip
use yellow_vpn.Common.{
  ℕ, zero, suc, ◌+◌, ◌-◌, ◌*◌, ◌/◌, ◌%◌, ◌^◌, ◌≤◌, ◌<◌, String, ◌≡◌, refl, sym, ap, ◌∙◌, ◌≢◌, ◌↔◌,
  ◌⊎◌, inl, inr, Bool, true, false, not, ◌&&◌, ◌||◌, Option, none, some, List, [], ◌∷◌, ◌++◌, map,
  append-nil, append_assoc, arith, ltb, leb, ◌==◌, if◌then◌else◌, ltb→lt, ltb→le, lt→ltb, le→ltb,
  leb→le, ==_iff, ==_self, Bool-cases, Option-cases, length, get_or, take, drop, All, length-append,
  take-append-drop, length-take, length-drop, take-length_append, drop-length_append, take-append,
  drop-append, All-append, Bytes, IsByte, as_u8, as_u16, as_u32, be16, from_be16, be32, from_be32,
  from_be16-be16, from_be32-be32, as_bytes, from_utf8_lossy, IsScalar, from_utf8_lossy-as_bytes,
  codes,
}
use yellow_vpn.Error.{
  ensure, ◌>>◌, Text, Message, format, verbatim, caused, plain, VpnError, config, privilege, tun,
  tun_unavailable, routing, tls, protocol, auth_failed, server_disconnect, io, not_implemented,
  is_permanent, Result, ok, err, ◌>>=◌, Result-cases,
}

abbrev pub forti_header_len : ℕ
forti_header_len = 6

abbrev pub forti_magic : ℕ
forti_magic = 0x5050

abbrev pub max_forti_body : ℕ
max_forti_body = 16 * 1024

-- The new content of `out`, or the error; `out` is written only on success.
unfoldable pub encode_frame_append : Bytes → Bytes → Result Bytes
encode_frame_append body out =
    if ltb max_forti_body (length body)
    then err (
        protocol
          (format "FortiGate frame body {} exceeds cap {}" (length body ∷ max_forti_body ∷ [])))
    else (let total = as_u16 (forti_header_len + length body) in
        ok (out ++ (be16 total ++ (be16 forti_magic ++ (be16 (as_u16 (length body)) ++ body)))))

unfoldable pub encode_frame : Bytes → Result Bytes
unfolding encode_frame_append
encode_frame body = encode_frame_append body []

unfoldable pub try_decode_frame : Bytes → Result (Option Bytes) × Bytes
try_decode_frame buf =
    let total = from_be16 (get_or buf 0 0) (get_or buf 1 0) in
    let magic = from_be16 (get_or buf 2 0) (get_or buf 3 0) in
    let body_len = from_be16 (get_or buf 4 0) (get_or buf 5 0) in
    let rest = drop forti_header_len buf in
    if ltb (length buf) forti_header_len
    then (ok none, buf)
    else if not (magic == forti_magic)
    then (err (protocol (format "bad FortiGate frame magic: 0x{:04x}" (magic ∷ []))), buf)
    else if not (total == forti_header_len + body_len)
    then (
      err (
          protocol (format "FortiGate length mismatch: total {}, body {}" (total ∷ body_len ∷ []))),
      buf,
    )
    else if ltb max_forti_body body_len
    then (err (protocol (format "FortiGate frame body {} exceeds cap" (body_len ∷ []))), buf)
    else if ltb (length buf) (forti_header_len + body_len)
    then (ok none, buf)
    else (ok (some (take body_len rest)), drop body_len rest)
