-- ===== src/Fortigate/Ppp.antt =====
-- crates/vpn-engine/src/fortigate/ppp.rs: control packets, option lists and the framing of PPP in
-- the FortiGate envelope. The children hold the negotiation and the proofs.
pub mod Control
pub mod Options
pub mod Frames
use yellow_vpn.Common.{
  ℕ, zero, suc, ◌+◌, ◌-◌, ◌*◌, ◌/◌, ◌%◌, ◌^◌, ◌≤◌, ◌<◌, String, ◌≡◌, refl, sym, ap, ◌∙◌, ◌≢◌, ◌↔◌,
  ◌⊎◌, inl, inr, Bool, true, false, not, ◌&&◌, ◌||◌, Option, none, some, List, [], ◌∷◌, ◌++◌, map,
  append-nil, append_assoc, arith, ltb, leb, ◌==◌, if◌then◌else◌, ltb→lt, ltb→le, lt→ltb, le→ltb,
  leb→le, ==_iff, ==_self, Bool-cases, Option-cases, length, get_or, take, drop, All, length-append,
  take-append-drop, length-take, length-drop, take-length_append, drop-length_append, take-append,
  drop-append, All-append, Bytes, IsByte, as_u8, as_u16, as_u32, be16, from_be16, be32, from_be32,
  from_be16-be16, from_be32-be32, as_bytes, from_utf8_lossy, IsScalar, from_utf8_lossy-as_bytes,
  codes,
}
use yellow_vpn.Ipv4.{Ipv4Addr, ipv4}
use yellow_vpn.Error.{
  ensure, ◌>>◌, Text, Message, format, verbatim, caused, plain, VpnError, config, privilege, tun,
  tun_unavailable, routing, tls, protocol, auth_failed, server_disconnect, io, not_implemented,
  is_permanent, Result, ok, err, ◌>>=◌, Result-cases,
}
use yellow_vpn.Fortigate.Framing.{forti_header_len, forti_magic, try_decode_frame}

abbrev pub ppp_lcp : ℕ
ppp_lcp = 0xc021

abbrev pub ppp_ipcp : ℕ
ppp_ipcp = 0x8021

abbrev pub ppp_ipv4 : ℕ
ppp_ipv4 = 0x0021

abbrev pub ppp_pap : ℕ
ppp_pap = 0xc023

abbrev pub ppp_chap : ℕ
ppp_chap = 0xc223

abbrev pub code_conf_req : ℕ
code_conf_req = 1

abbrev pub code_conf_ack : ℕ
code_conf_ack = 2

abbrev pub code_conf_nak : ℕ
code_conf_nak = 3

abbrev pub code_conf_rej : ℕ
code_conf_rej = 4

abbrev pub code_term_req : ℕ
code_term_req = 5

abbrev pub code_term_ack : ℕ
code_term_ack = 6

abbrev pub code_echo_req : ℕ
code_echo_req = 9

abbrev pub code_echo_rep : ℕ
code_echo_rep = 10

pub record CpPacket : Type 0 where
  pub code : ℕ
  pub id : ℕ
  pub payload : Bytes

unfoldable pub parse_cp : Bytes → Result CpPacket
parse_cp b =
    let len = from_be16 (get_or b 2 0) (get_or b 3 0) in
    if ltb (length b) 4
    then err (protocol (format "PPP control packet too short ({} bytes)" (length b ∷ [])))
    else if ltb len 4 || ltb (length b) len
    then err (
        protocol (
          format "PPP control length {} inconsistent with {} available bytes"
            (len ∷ length b ∷ [])))
    else ok (record { code = get_or b 0 0; id = get_or b 1 0; payload = take (len - 4) (drop 4 b) })

unfoldable pub build_cp : ℕ → ℕ → Bytes → Bytes
build_cp code id payload = code ∷ id ∷ (be16 (as_u16 (length payload + 4)) ++ payload)

-- The loop of `parse_options`: the bytes from index `i` on, on fuel.
parse_options_from : ℕ → Bytes → List (ℕ × Bytes)
parse_options_from zero b = []
parse_options_from (suc fuel) [] = []
parse_options_from (suc fuel) (typ ∷ []) = []
parse_options_from (suc fuel) (typ ∷ (len ∷ rest)) =
    let more = parse_options_from fuel (drop (len - 2) rest) in
    if ltb len 2 || ltb (length rest + 2) len then [] else (typ, take (len - 2) rest) ∷ more

-- A round takes two bytes at least, so the length of the input is fuel enough.
unfoldable pub parse_options : Bytes → List (ℕ × Bytes)
unfolding parse_options_from
parse_options b = parse_options_from (length b) b

unfoldable pub build_options : List (ℕ × Bytes) → Bytes
build_options [] = []
build_options ((typ, val) ∷ opts) =
    let more = build_options opts in
    if ltb 253 (length val) then more else typ ∷ (as_u8 (length val + 2) ∷ (val ++ more))

unfoldable pub opt_ipv4 : Bytes → Option Ipv4Addr
opt_ipv4 v =
    if length v == 4
    then some (ipv4 (get_or v 0 0) (get_or v 1 0) (get_or v 2 0) (get_or v 3 0))
    else none

unfoldable pub encode_ppp_append : ℕ → Bytes → Bytes → Bytes
encode_ppp_append proto payload out =
    let body_len = 2 + length payload in
    let total = as_u16 (forti_header_len + body_len) in
    out ++ (be16 total ++ (be16 forti_magic ++ (be16 (as_u16 body_len) ++ (be16 proto ++ payload))))

unfoldable pub encode_ppp : ℕ → Bytes → Bytes
unfolding encode_ppp_append
encode_ppp proto payload = encode_ppp_append proto payload []

unfoldable pub split_ppp : Bytes → Option (ℕ × Bytes)
split_ppp body =
    let prefixed = leb 2 (length body) && (get_or body 0 0 == 0xFF && get_or body 1 0 == 0x03) in
    let off = if prefixed then 2 else 0 in
    if ltb (length body) (off + 2)
    then none
    else some (from_be16 (get_or body off 0) (get_or body (off + 1) 0), drop (off + 2) body)

-- The protocol and payload of a frame's body, or the error for a body that is too short.
abbrev pub ppp_of : Result (Option Bytes) → Result (Option (ℕ × Bytes))
ppp_of (err e) = err e
ppp_of (ok none) = ok none
ppp_of (ok (some body)) = elim (split_ppp body) [
  | some frame ↦ ok (some frame)
  | none ↦ err (protocol (format "PPP frame body too short ({} bytes)" (length body ∷ [])))
]

unfoldable pub try_decode_ppp : Bytes → Result (Option (ℕ × Bytes)) × Bytes
unfolding split_ppp
try_decode_ppp buf = let (decoded, rest) = try_decode_frame buf in (ppp_of decoded, rest)

unfoldable pub echo_request : ℕ → ℕ → Bytes
unfolding encode_ppp build_cp
echo_request magic id = encode_ppp ppp_lcp (build_cp code_echo_req id (be32 magic))

-- Our magic number, then what follows the peer's.
unfoldable pub echo_reply : ℕ → CpPacket → Bytes
unfolding encode_ppp build_cp
echo_reply magic req =
    encode_ppp ppp_lcp (build_cp code_echo_rep req.id (be32 magic ++ drop 4 req.payload))

-- `b"bye"`
unfoldable pub terminate_request : ℕ → Bytes
unfolding encode_ppp build_cp
terminate_request id = encode_ppp ppp_lcp (build_cp code_term_req id (b'b' ∷ b'y' ∷ b'e' ∷ []))
