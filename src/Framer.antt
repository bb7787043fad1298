-- ===== src/Framer.antt =====
-- crates/vpn-engine/src/framer.rs: the trait `TunnelFramer` and its three implementations. A
-- `dyn TunnelFramer` is a value of a data type with a constructor for each implementation, and a
-- method is a function by cases on it; a method that sets a cell returns the new framer.
pub mod Stream
pub mod Laws
pub mod Control
use yellow_vpn.Common.{
  ℕ, zero, suc, ◌+◌, ◌-◌, ◌*◌, ◌/◌, ◌%◌, ◌^◌, ◌≤◌, ◌<◌, String, ◌≡◌, refl, sym, ap, ◌∙◌, ◌≢◌, ◌↔◌,
  ◌⊎◌, inl, inr, Bool, true, false, not, ◌&&◌, ◌||◌, Option, none, some, List, [], ◌∷◌, ◌++◌, map,
  append-nil, append_assoc, arith, ltb, leb, ◌==◌, if◌then◌else◌, ltb→lt, ltb→le, lt→ltb, le→ltb,
  leb→le, ==_iff, ==_self, Bool-cases, Option-cases, length, get_or, take, drop, All, length-append,
  take-append-drop, length-take, length-drop, take-length_append, drop-length_append, take-append,
  drop-append, All-append, Bytes, IsByte, as_u8, as_u16, as_u32, be16, from_be16, be32, from_be32,
  from_be16-be16, from_be32-be32, as_bytes, from_utf8_lossy, IsScalar, from_utf8_lossy-as_bytes,
  codes,
}
use yellow_vpn.Error.{
  ensure, ◌>>◌, Text, Message, format, verbatim, caused, plain, VpnError, config, privilege, tun,
  tun_unavailable, routing, tls, protocol, auth_failed, server_disconnect, io, not_implemented,
  is_permanent, Result, ok, err, ◌>>=◌, Result-cases,
}
use yellow_vpn.Tunnel
use yellow_vpn.Tunnel.{
  CstpType, CstpPacket, packet_data, dpd_out, dpd_resp, disconnect, keepalive, compressed,
  term_server, write_header, try_decode_cstp,
}
use yellow_vpn.Checkpoint.Ccc
use yellow_vpn.Checkpoint.Ccc.{CccValue, text_eq, as_atom}
use yellow_vpn.Checkpoint.Framing
use yellow_vpn.Checkpoint.Framing.{SlimPacket, try_decode_slim}
use yellow_vpn.Fortigate.Ppp.{
  CpPacket, ppp_ipv4, ppp_lcp, ppp_ipcp, code_echo_req, code_conf_req, code_conf_ack, code_term_req,
  encode_ppp, encode_ppp_append, try_decode_ppp, parse_cp, build_cp, echo_request, echo_reply,
  terminate_request,
}

pub data FrameEvent : Type 0 where
  payload : Bytes → FrameEvent
  reply : Bytes → FrameEvent
  ignore : FrameEvent
  disconnected : Text → FrameEvent

-- `FortinetPppFramer` has its magic number and the cell `echo_id`.
pub data TunnelFramer : Type 0 where
  cstp : TunnelFramer
  slim : TunnelFramer
  fortinet : ℕ → ℕ → TunnelFramer

unfoldable pub encode_data : TunnelFramer → Bytes → Bytes
encode_data cstp p = Tunnel.encode_data p
encode_data slim p = Framing.encode_data p
encode_data (fortinet magic echo_id) p = encode_ppp ppp_ipv4 p

unfoldable pub encode_data_append : TunnelFramer → Bytes → Bytes → Bytes
encode_data_append cstp p out = (out ++ write_header packet_data (length p)) ++ p
encode_data_append slim p out = Framing.encode_data_append p out
encode_data_append (fortinet magic echo_id) p out = encode_ppp_append ppp_ipv4 p out

-- `out.clear()` first.
unfoldable pub encode_data_into : TunnelFramer → Bytes → Bytes → Bytes
unfolding encode_data_append
encode_data_into f p out = encode_data_append f p []

unfoldable pub encode_keepalive : TunnelFramer → Bytes × TunnelFramer
encode_keepalive cstp = (write_header dpd_out 0, cstp)
encode_keepalive slim = (Framing.encode_keepalive, slim)
encode_keepalive (fortinet magic echo_id) =
    let id = as_u8 (echo_id + 1) in (echo_request magic id, fortinet magic id)

unfoldable pub encode_shutdown : TunnelFramer → Option Bytes
encode_shutdown cstp = some (write_header disconnect 0)
encode_shutdown slim = none
encode_shutdown (fortinet magic echo_id) = some (terminate_request 0)

-- The answer to a CSTP packet.
unfoldable pub cstp_event : CstpPacket → FrameEvent
cstp_event p = elim p.packet_type [
  | packet_data ↦ payload p.payload
  | dpd_out ↦ reply (write_header dpd_resp 0)
  | dpd_resp ↦ ignore
  | keepalive ↦ ignore
  | compressed ↦ ignore
  | disconnect ↦ disconnected (codes "CSTP Disconnect frame")
  | term_server ↦ disconnected (codes "CSTP Terminate frame")
]

-- `trim_matches('"')`
abbrev trim_start : Text → Text
trim_start [] = []
trim_start (c ∷ cs) = if c == b'"' then trim_start cs else c ∷ cs

abbrev cons_unless_last_quote : ℕ → Text → Text
cons_unless_last_quote c [] = if c == b'"' then [] else c ∷ []
cons_unless_last_quote c (x ∷ xs) = c ∷ (x ∷ xs)

abbrev trim_end : Text → Text
trim_end [] = []
trim_end (c ∷ cs) = cons_unless_last_quote c (trim_end cs)

unfoldable pub trim_quotes : Text → Text
trim_quotes s = trim_end (trim_start s)

abbrev atom_field : CccValue → Text → Option Text
atom_field tree key = elim (Ccc.get tree key) [ none ↦ none | some v ↦ as_atom v ]

abbrev describe : Option Text → Option Text → Text
describe (some c) (some m) =
    codes "gateway sent disconnect code " ++ (c ++ (codes ": " ++ trim_quotes m))
describe (some c) none = codes "gateway sent disconnect code " ++ c
describe none (some m) = codes "gateway sent disconnect: " ++ trim_quotes m
describe none none = codes "gateway sent a disconnect frame"

unfoldable pub describe_slim_disconnect : CccValue → Text
describe_slim_disconnect tree =
    describe (atom_field tree (codes "code")) (atom_field tree (codes "message"))

abbrev is_disconnect : Option Text → Bool
is_disconnect none = false
is_disconnect (some n) = text_eq n (codes "disconnect")

unfoldable pub slim_event : SlimPacket → FrameEvent
slim_event (SlimPacket.packet_data p) = payload p
slim_event (SlimPacket.control tree) =
    if is_disconnect (Ccc.name tree) then disconnected (describe_slim_disconnect tree) else ignore

-- The answer to a control packet of `FortinetPppFramer`.
unfoldable pub cp_event : ℕ → ℕ → CpPacket → FrameEvent
cp_event magic proto pkt =
    if proto == ppp_lcp && pkt.code == code_echo_req
    then reply (echo_reply magic pkt)
    else if (proto == ppp_lcp || proto == ppp_ipcp) && pkt.code == code_conf_req
    then reply (encode_ppp proto (build_cp code_conf_ack pkt.id pkt.payload))
    else if proto == ppp_lcp && pkt.code == code_term_req
    then disconnected (codes "LCP Terminate-Request")
    else ignore

unfoldable pub ppp_event : ℕ → ℕ × Bytes → FrameEvent
unfolding cp_event
ppp_event magic (proto, p) =
    if proto == ppp_ipv4
    then payload p
    else elim (parse_cp p) [ ok pkt ↦ cp_event magic proto pkt | err e ↦ ignore ]

abbrev pub classify {ℓ} :
    {A : Type ℓ} → (A → FrameEvent) → Result (Option A) → Result (Option FrameEvent)
classify event (ok (some a)) = ok (some (event a))
classify event (ok none) = ok none
classify event (err e) = err e

unfoldable pub try_decode : TunnelFramer → Bytes → Result (Option FrameEvent) × Bytes
try_decode cstp buf = let (r, rest) = try_decode_cstp buf in (classify cstp_event r, rest)
try_decode slim buf = let (r, rest) = try_decode_slim buf in (classify slim_event r, rest)
try_decode (fortinet magic echo_id) buf =
    let (r, rest) = try_decode_ppp buf in (classify (ppp_event magic) r, rest)
