-- ===== src/Checkpoint/Framing/RoundTrip.antt =====
-- crates/vpn-engine/src/checkpoint/framing.rs: writing and reading SLIM frames.
use yellow_vpn.Common.{
  ℕ, ◌≤◌, ◌<◌, ◌≡◌, refl, ap, none, [], ◌∷◌, ◌++◌, arith, length, All, length-append,
  take-length_append, drop-length_append, Bytes, be32, from_be32-be32, as_bytes, IsScalar,
  from_utf8_lossy-as_bytes,
}
use yellow_vpn.Error.{Text, ok}
use yellow_vpn.Checkpoint.Ccc.{to_wire, parse}
use yellow_vpn.Checkpoint.Framing.{
  encode_keepalive, keepalive_tree, pkt_data, pkt_control, max_slim_payload, encode_data,
  encode_control, strip_nul, read_payload, control_of, try_decode_slim,
}

-- A frame of any type, as the two encoders write it.
abbrev pub frame : ℕ → Bytes → Bytes
frame packet_type payload = be32 (length payload) ++ (be32 packet_type ++ payload)

pub encode_data-frame :
    (payload : Bytes)
    → length payload ≤ max_slim_payload
    → encode_data payload ≡ frame pkt_data payload
unfolding encode_data
encode_data-frame payload h = ground arith

pub encode_control-frame :
    (s : Text)
    → length (as_bytes s) < max_slim_payload
    → encode_control s ≡ frame pkt_control (as_bytes s ++ (0x00 ∷ []))
unfolding encode_control
encode_control-frame s h = ground (arith, length-append (as_bytes s) (0x00 ∷ []))

-- A frame whose payload is within the size guard is consumed once it has arrived, whatever its
-- payload turns out to be, and the bytes behind it stay.
pub try_decode_slim-frame :
    (packet_type : ℕ) (payload rest : Bytes)
    → length payload ≤ max_slim_payload
    → try_decode_slim (frame packet_type payload ++ rest) ≡ (read_payload packet_type payload, rest)
unfolding try_decode_slim
try_decode_slim-frame t payload rest h =
    unfold try_decode_slim in
    ground (
      arith,
      take-length_append payload rest,
      drop-length_append payload rest,
      length-append payload rest,
      from_be32-be32 (length payload),
      from_be32-be32 t,
    )

pub try_decode_slim_partial :
    (packet_type : ℕ) (payload front back : Bytes) (x : ℕ)
    → length payload ≤ max_slim_payload
    → frame packet_type payload ≡ front ++ (x ∷ back)
    → try_decode_slim front ≡ (ok none, front)
unfolding try_decode_slim
try_decode_slim_partial t payload (a ∷ b ∷ c ∷ d ∷ e ∷ f ∷ g ∷ h ∷ front) back x small s =
    ground (arith, length-append front (x ∷ back), from_be32-be32 (length payload))
try_decode_slim_partial t payload _ back x h s = refl

strip_nul-append_nul : (bs : Bytes) → strip_nul (bs ++ (0x00 ∷ [])) ≡ bs
unfolding strip_nul
strip_nul-append_nul [] = refl
strip_nul-append_nul (b ∷ []) = refl
strip_nul-append_nul (b ∷ (c ∷ bs)) = ap (◌∷◌ b) (strip_nul-append_nul (c ∷ bs))

-- A control frame hands its text to the parser unchanged.
pub read_payload-control :
    (s : Text)
    → All IsScalar s
    → read_payload pkt_control (as_bytes s ++ (0x00 ∷ [])) ≡ control_of (parse s)
unfolding read_payload
read_payload-control s h = rw (strip_nul-append_nul, from_utf8_lossy-as_bytes s h)

-- The frame of the keepalive.
pub encode_keepalive-frame :
    encode_keepalive ≡ frame pkt_control (as_bytes (to_wire keepalive_tree) ++ (0x00 ∷ []))
unfolding encode_keepalive to_wire as_bytes
encode_keepalive-frame = refl
