-- ===== src/Framer/Control.antt =====
-- crates/vpn-engine/src/framer.rs: keepalives, their answers and shutdown, between two ends.
use yellow_vpn.Common.{
  ℕ, ◌+◌, ◌≤◌, ◌≡◌, refl, ◌≢◌, ◌⊎◌, inl, inr, some, [], ◌∷◌, ◌++◌, append-nil, arith, length, Bytes,
  as_u8, be32, as_bytes, codes,
}
use yellow_vpn.Error.{Text, ok}
use yellow_vpn.Tunnel.{CstpType, dpd_out, dpd_resp, disconnect, write_header}
use yellow_vpn.Tunnel.RoundTrip.{try_decode_cstp-packet_bytes}
use yellow_vpn.Checkpoint.Ccc.{parse, to_wire, text_eq, name}
use yellow_vpn.Checkpoint.Framing.{pkt_control, keepalive_tree, control_of, read_payload}
use yellow_vpn.Checkpoint.Framing.RoundTrip.{
  encode_keepalive-frame, try_decode_slim-frame, read_payload-control,
}
use yellow_vpn.Fortigate.Ppp.{
  CpPacket, ppp_lcp, ppp_ipv4, code_echo_req, code_echo_rep, code_term_req, encode_ppp, build_cp,
  parse_cp, echo_reply, echo_request, terminate_request,
}
use yellow_vpn.Fortigate.Ppp.Control.{parse_cp-build_cp}
use yellow_vpn.Fortigate.Ppp.Frames.{IsProtocol, encode_ppp-frame, try_decode_ppp-frame}
use yellow_vpn.Framer.{
  reply, ignore, disconnected, TunnelFramer, cstp, slim, fortinet, encode_keepalive,
  encode_shutdown, try_decode, cstp_event, slim_event, ppp_event, cp_event,
}

cstp_control :
    (t : CstpType) (rest : Bytes)
    → try_decode cstp (write_header t 0 ++ rest)
      ≡ (ok (some (cstp_event (record { packet_type = t; payload = [] }))), rest)
unfolding try_decode
cstp_control t rest = rw (← append_nil_header) (
    rw (try_decode_cstp-packet_bytes (record { packet_type = t; payload = [] }) rest (omega arith)))
  where
    append_nil_header : write_header t 0 ++ [] ≡ write_header t 0
    append_nil_header = append-nil (write_header t 0)

-- A control packet that the peer framed is answered as `cp_event` says.
pub try_decode_control :
    (magic echo_id proto : ℕ) (p : CpPacket) (rest : Bytes)
    → IsProtocol proto
    → proto ≢ ppp_ipv4
    → length p.payload ≤ 16378
    → try_decode
        (fortinet magic echo_id)
        (encode_ppp proto (build_cp p.code p.id p.payload) ++ rest)
      ≡ (ok (some (cp_event magic proto p)), rest)
unfolding try_decode
try_decode_control magic echo_id proto p rest hp ne h =
    let small : 2 + length (build_cp p.code p.id p.payload) ≤ 16384 =
      unfold build_cp in omega arith in
    let parsed : parse_cp (build_cp p.code p.id p.payload) ≡ ok p =
      rw append-nil at (parse_cp-build_cp p [] (omega arith)) in
    rw
      (
        encode_ppp-frame proto (build_cp p.code p.id p.payload) small,
        try_decode_ppp-frame proto (build_cp p.code p.id p.payload) rest hp small,
      )
      (unfold ppp_event in ground (arith, parsed))

slim_keepalive_parsed : parse (to_wire keepalive_tree) ≡ ok keepalive_tree
unfolding parse to_wire as_bytes
slim_keepalive_parsed = refl

slim_keepalive :
    (rest : Bytes) → try_decode slim ((encode_keepalive slim).0 ++ rest) ≡ (ok (some ignore), rest)
unfolding try_decode encode_keepalive
slim_keepalive rest =
    let text = to_wire keepalive_tree in
    let body : Bytes = as_bytes text ++ (0x00 ∷ []) in
    let read : read_payload pkt_control body ≡ control_of (parse text) =
      read_payload-control text (unfold to_wire in ground arith) in
    rw
      (
        encode_keepalive-frame,
        try_decode_slim-frame pkt_control body rest (unfold to_wire as_bytes in omega arith),
        read,
        slim_keepalive_parsed,
      )
      (unfold slim_event name text_eq in refl)

-- The two ends of one tunnel.
abbrev pub SameProtocol : TunnelFramer → TunnelFramer → Type 0
SameProtocol cstp cstp = Unit
SameProtocol slim slim = Unit
SameProtocol (fortinet _ _) (fortinet _ _) = Unit
SameProtocol _ _ = ⊥

-- `g` decodes the keepalive of `f` to nothing, or to an answer that `f` decodes to nothing.
abbrev pub Answers : TunnelFramer → TunnelFramer → Bytes → Type 0
Answers f g rest =
    (try_decode g ((encode_keepalive f).0 ++ rest) ≡ (ok (some ignore), rest))
    ⊎ ((answer : Bytes) × (try_decode g ((encode_keepalive f).0 ++ rest)
          ≡ (ok (some (reply answer)), rest))
        × (try_decode f (answer ++ rest) ≡ (ok (some ignore), rest)))

fortinet_keepalive :
    (magic echo_id magic' echo_id' : ℕ) (rest : Bytes)
    → Answers (fortinet magic echo_id) (fortinet magic' echo_id') rest
unfolding encode_keepalive echo_request cp_event
fortinet_keepalive magic echo_id magic' echo_id' rest =
    let request : CpPacket = record {
      code = code_echo_req;
      id = as_u8 (echo_id + 1);
      payload = be32 magic;
    } in
    let response : CpPacket = record {
      code = code_echo_rep;
      id = as_u8 (echo_id + 1);
      payload = be32 magic';
    } in
    inr (
      echo_reply magic' request,
      try_decode_control magic' echo_id' ppp_lcp request rest (omega arith) (omega arith)
          (omega arith),
      unfold echo_reply in
          try_decode_control magic echo_id ppp_lcp response rest (omega arith) (omega arith)
            (omega arith),
    )

-- Between two ends of one protocol, a keepalive is decoded to nothing, or to a reply that its
-- sender decodes to nothing; the bytes behind it stay.
pub keepalive-Answers : (f g : TunnelFramer) (rest : Bytes) → SameProtocol f g → Answers f g rest
keepalive-Answers cstp cstp rest s =
    unfold encode_keepalive cstp_event in
    inr (write_header dpd_resp 0, cstp_control dpd_out rest, cstp_control dpd_resp rest)
keepalive-Answers cstp slim rest s = absurd s
keepalive-Answers cstp (fortinet m i) rest s = absurd s
keepalive-Answers slim cstp rest s = absurd s
keepalive-Answers slim slim rest s = inl (slim_keepalive rest)
keepalive-Answers slim (fortinet m i) rest s = absurd s
keepalive-Answers (fortinet m i) cstp rest s = absurd s
keepalive-Answers (fortinet m i) slim rest s = absurd s
keepalive-Answers (fortinet m i) (fortinet m' i') rest s = fortinet_keepalive m i m' i' rest

cstp_shutdown :
    (rest : Bytes)
    → try_decode cstp (write_header disconnect 0 ++ rest)
      ≡ (ok (some (disconnected (codes "CSTP Disconnect frame"))), rest)
unfolding cstp_event
cstp_shutdown rest = cstp_control disconnect rest

fortinet_shutdown :
    (magic echo_id : ℕ) (rest : Bytes)
    → try_decode (fortinet magic echo_id) (terminate_request 0 ++ rest)
      ≡ (ok (some (disconnected (codes "LCP Terminate-Request"))), rest)
unfolding terminate_request cp_event
fortinet_shutdown magic echo_id rest =
    let request : CpPacket = record {
      code = code_term_req;
      id = 0;
      payload = b'b' ∷ b'y' ∷ b'e' ∷ [];
    } in
    try_decode_control magic echo_id ppp_lcp request rest (omega arith) (omega arith) (omega arith)

-- Between two ends of one protocol, the shutdown frame, where the protocol has one, makes the
-- other end leave its loop, and the bytes behind it stay.
pub encode_shutdown-disconnects :
    (f g : TunnelFramer) (rest : Bytes) {bytes : Bytes}
    → SameProtocol f g
    → encode_shutdown f ≡ some bytes
    → (why : Text) × (try_decode g (bytes ++ rest) ≡ (ok (some (disconnected why)), rest))
unfolding encode_shutdown
encode_shutdown-disconnects cstp cstp rest {bytes} s h =
    let e : write_header disconnect 0 ≡ bytes = cc in
    (codes "CSTP Disconnect frame", rw (← e) (cstp_shutdown rest))
encode_shutdown-disconnects slim g rest s h = absurd (cc)
encode_shutdown-disconnects cstp slim rest s h = absurd s
encode_shutdown-disconnects cstp (fortinet m i) rest s h = absurd s
encode_shutdown-disconnects (fortinet m i) cstp rest s h = absurd s
encode_shutdown-disconnects (fortinet m i) slim rest s h = absurd s
encode_shutdown-disconnects (fortinet m i) (fortinet m' i') rest {bytes} s h =
    let e : terminate_request 0 ≡ bytes = cc in
    (codes "LCP Terminate-Request", rw (← e) (fortinet_shutdown m' i' rest))
