-- ===== src/Framer/Laws.antt =====
-- crates/vpn-engine/src/framer.rs: the three framers against the contract of Framer/Stream.
use yellow_vpn.Common.{
  ℕ, ◌-◌, ◌≤◌, ◌<◌, ◌≡◌, refl, sym, ◌∙◌, Option, none, some, [], ◌∷◌, ◌++◌, append_assoc, arith,
  length, get_or, take, drop, length-drop, Bytes, be16, from_be16, from_be32,
}
use yellow_vpn.Error.{Result, ok, err}
use yellow_vpn.Tunnel
use yellow_vpn.Tunnel.{
  parse_header, take_packet, CstpType, CstpPacket, write_header, packet_data, try_decode_cstp,
}
use yellow_vpn.Tunnel.RoundTrip.{try_decode_cstp-packet_bytes, try_decode_cstp_partial}
use yellow_vpn.Checkpoint.Framing
use yellow_vpn.Checkpoint.Framing.{
  SlimPacket, try_decode_slim, pkt_data, max_slim_payload, read_payload,
}
use yellow_vpn.Checkpoint.Framing.RoundTrip.{
  encode_data-frame, try_decode_slim-frame, try_decode_slim_partial,
}
use yellow_vpn.Fortigate.Framing.{max_forti_body, try_decode_frame}
use yellow_vpn.Fortigate.Framing.RoundTrip.{frame}
use yellow_vpn.Fortigate.Ppp.{ppp_ipv4, encode_ppp, try_decode_ppp, ppp_of}
use yellow_vpn.Fortigate.Ppp.Frames.{
  encode_ppp_append-frame, try_decode_ppp-frame, try_decode_ppp_partial,
}
use yellow_vpn.Framer.{
  FrameEvent, payload, TunnelFramer, cstp, slim, fortinet, encode_data, encode_data_append,
  try_decode, cstp_event, slim_event, ppp_event, classify,
}
use yellow_vpn.Framer.Stream.{StreamCodec}

-- The longest payload that survives the length fields and the decoder's cap.
abbrev pub max_payload : TunnelFramer → ℕ
max_payload cstp = 65535
max_payload slim = max_slim_payload
max_payload (fortinet magic echo_id) = max_forti_body - 2

-- The hot-path encoder appends what the plain encoder returns.
pub encode_data_append-encode_data :
    (f : TunnelFramer) (p out : Bytes) → encode_data_append f p out ≡ out ++ encode_data f p
unfolding encode_data encode_data_append
encode_data_append-encode_data cstp p out =
    unfold Tunnel.encode_data in append_assoc out (write_header packet_data (length p)) p
encode_data_append-encode_data slim p out = unfold Framing.encode_data in refl
encode_data_append-encode_data (fortinet magic echo_id) p out = unfold encode_ppp in refl

ipv4-frame :
    (p : Bytes) → length p ≤ max_forti_body - 2 → encode_ppp ppp_ipv4 p ≡ frame (be16 ppp_ipv4 ++ p)
unfolding encode_ppp
ipv4-frame p h = encode_ppp_append-frame ppp_ipv4 p [] (omega arith)

abbrev data_packet : Bytes → CstpPacket
data_packet p = record { packet_type = packet_data; payload = p }

-- The frame of a packet that the protocol's frame can carry is decoded to that packet, and the
-- bytes behind the frame stay in the buffer.
pub try_decode-encode_data :
    (f : TunnelFramer) (p rest : Bytes)
    → length p ≤ max_payload f
    → try_decode f (encode_data f p ++ rest) ≡ (ok (some (payload p)), rest)
unfolding try_decode encode_data
try_decode-encode_data cstp p rest h =
    unfold Tunnel.encode_data cstp_event in
    rw (try_decode_cstp-packet_bytes (data_packet p) rest (omega arith))
try_decode-encode_data slim p rest h =
    unfold slim_event read_payload in
    rw (encode_data-frame p h, try_decode_slim-frame pkt_data p rest h)
try_decode-encode_data (fortinet magic echo_id) p rest h =
    unfold ppp_event in
    rw (ipv4-frame p h, try_decode_ppp-frame ppp_ipv4 p rest (omega arith) (omega arith))

-- A proper front piece of the frame of a packet that the protocol's frame can carry waits for the
-- rest, and stays in the buffer.
pub try_decode_partial :
    (f : TunnelFramer) (p front back : Bytes) (x : ℕ)
    → length p ≤ max_payload f
    → encode_data f p ≡ front ++ (x ∷ back)
    → try_decode f front ≡ (ok none, front)
unfolding try_decode encode_data
try_decode_partial cstp p front back x h e =
    unfold Tunnel.encode_data in
    rw (try_decode_cstp_partial (data_packet p) front back x (omega arith) e)
try_decode_partial slim p front back x h e =
    rw (try_decode_slim_partial pkt_data p front back x h (sym (encode_data-frame p h) ∙ e))
try_decode_partial (fortinet magic echo_id) p front back x h e =
    rw (try_decode_ppp_partial ppp_ipv4 p front back x (omega arith) (sym (ipv4-frame p h) ∙ e))

pub try_decode_empty : (f : TunnelFramer) → try_decode f [] ≡ (ok none, [])
unfolding try_decode
try_decode_empty cstp = unfold try_decode_cstp in refl
try_decode_empty slim = unfold try_decode_slim in refl
try_decode_empty (fortinet magic echo_id) = unfold try_decode_ppp try_decode_frame in refl

take_packet_shrinks :
    (buf : Bytes) (header : Result (CstpType × ℕ)) (p : CstpPacket) (rest : Bytes)
    → 8 ≤ length buf
    → take_packet buf header ≡ (ok (some p), rest)
    → length rest < length buf
take_packet_shrinks buf (err e) p rest h s = cc
take_packet_shrinks buf (ok (t, n)) p rest h s =
    ground (arith, length-drop n (drop 8 buf), length-drop 8 buf)

try_decode_cstp_shrinks :
    (buf : Bytes) {p : CstpPacket} {rest : Bytes}
    → try_decode_cstp buf ≡ (ok (some p), rest)
    → length rest < length buf
unfolding try_decode_cstp
try_decode_cstp_shrinks buf {p} {rest} s =
    ground (arith, take_packet_shrinks buf (parse_header (take 8 buf)) p rest)

try_decode_slim_shrinks :
    (buf : Bytes) {p : SlimPacket} {rest : Bytes}
    → try_decode_slim buf ≡ (ok (some p), rest)
    → length rest < length buf
unfolding try_decode_slim
try_decode_slim_shrinks buf s =
    let n = from_be32 (get_or buf 0 0) (get_or buf 1 0) (get_or buf 2 0) (get_or buf 3 0) in
    ground (arith, length-drop n (drop 8 buf), length-drop 8 buf)

try_decode_frame_shrinks :
    (buf : Bytes) {body rest : Bytes}
    → try_decode_frame buf ≡ (ok (some body), rest)
    → length rest < length buf
unfolding try_decode_frame
try_decode_frame_shrinks buf s =
    let n = from_be16 (get_or buf 4 0) (get_or buf 5 0) in
    ground (arith, length-drop n (drop 6 buf), length-drop 6 buf)

classify_shrinks {ℓ} :
    {A : Type ℓ} (event : A → FrameEvent) (buf : Bytes) (d : Result (Option A) × Bytes)
    → ((a : A) (rest : Bytes) → d ≡ (ok (some a), rest) → length rest < length buf)
    → {e : FrameEvent} {rest : Bytes}
    → ◌≡◌ {A = Result (Option FrameEvent) × Bytes} (classify event d.0, d.1) (ok (some e), rest)
    → length rest < length buf
classify_shrinks event buf (ok (some a), r) shrinks h = ground (arith, shrinks a r refl)
classify_shrinks event buf (ok none, r) shrinks h = cc
classify_shrinks event buf (err e, r) shrinks h = cc

ppp_of_shrinks :
    (buf : Bytes) (d : Result (Option Bytes) × Bytes)
    → ((a : Bytes) (rest : Bytes) → d ≡ (ok (some a), rest) → length rest < length buf)
    → {p : ℕ × Bytes} {rest : Bytes}
    → ◌≡◌ {A = Result (Option (ℕ × Bytes)) × Bytes} (ppp_of d.0, d.1) (ok (some p), rest)
    → length rest < length buf
ppp_of_shrinks buf (ok (some a), r) shrinks h = ground (arith, shrinks a r refl)
ppp_of_shrinks buf (ok none, r) shrinks h = cc
ppp_of_shrinks buf (err e, r) shrinks h = cc

try_decode_ppp_shrinks :
    (buf : Bytes) {p : ℕ × Bytes} {rest : Bytes}
    → try_decode_ppp buf ≡ (ok (some p), rest)
    → length rest < length buf
unfolding try_decode_ppp
try_decode_ppp_shrinks buf h =
    ppp_of_shrinks buf (try_decode_frame buf) (λ a r s. try_decode_frame_shrinks buf s) h

-- A frame that is decoded is taken out of the buffer.
pub try_decode_shrinks :
    (f : TunnelFramer) (buf : Bytes) {e : FrameEvent} {rest : Bytes}
    → try_decode f buf ≡ (ok (some e), rest)
    → length rest < length buf
unfolding try_decode
try_decode_shrinks cstp buf h =
    classify_shrinks cstp_event buf (try_decode_cstp buf) (λ a r s. try_decode_cstp_shrinks buf s) h
try_decode_shrinks slim buf h =
    classify_shrinks slim_event buf (try_decode_slim buf) (λ a r s. try_decode_slim_shrinks buf s) h
try_decode_shrinks (fortinet magic echo_id) buf h =
    classify_shrinks (ppp_event magic) buf (try_decode_ppp buf)
      (λ a r s. try_decode_ppp_shrinks buf s) h

-- The contract, for each of the three.
abbrev pub codec : TunnelFramer → StreamCodec
codec f = record {
  encode = encode_data f;
  decode = try_decode f;
  max_payload = max_payload f;
  decode-encode = try_decode-encode_data f;
  decode_partial = try_decode_partial f;
  decode_empty = try_decode_empty f;
  decode_shrinks = λ buf h. try_decode_shrinks f buf h;
}
