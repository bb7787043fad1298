-- ===== src/Fortigate/Framing/RoundTrip.antt =====
-- crates/vpn-engine/src/fortigate/framing.rs: writing and reading the envelope.
use yellow_vpn.Common.{
  ℕ, ◌+◌, ◌≤◌, ◌≡◌, refl, none, some, ◌∷◌, ◌++◌, arith, length, All, length-append,
  take-append-drop, length-take, take-length_append, drop-length_append, Bytes, IsByte, be16,
  from_be16, from_be16-be16,
}
use yellow_vpn.Error.{ok}
use yellow_vpn.Fortigate.Framing.{
  max_forti_body, forti_magic, encode_frame_append, try_decode_frame,
}

abbrev pub frame : Bytes → Bytes
frame body = be16 (6 + length body) ++ (be16 forti_magic ++ (be16 (length body) ++ body))

pub encode_frame_append-frame :
    (body out : Bytes)
    → length body ≤ max_forti_body
    → encode_frame_append body out ≡ ok (out ++ frame body)
unfolding encode_frame_append
encode_frame_append-frame body out h = ground arith

pub try_decode_frame-frame :
    (body rest : Bytes)
    → length body ≤ max_forti_body
    → try_decode_frame (frame body ++ rest) ≡ (ok (some body), rest)
unfolding try_decode_frame
try_decode_frame-frame body rest h = ground (
  arith,
  take-length_append body rest,
  drop-length_append body rest,
  length-append body rest,
  from_be16-be16 (length body),
  from_be16-be16 (6 + length body),
)

pub try_decode_frame_partial :
    (body front back : Bytes) (x : ℕ)
    → length body ≤ max_forti_body
    → frame body ≡ front ++ (x ∷ back)
    → try_decode_frame front ≡ (ok none, front)
unfolding try_decode_frame
try_decode_frame_partial body (a ∷ b ∷ c ∷ d ∷ e ∷ f ∷ front) back x h s = ground (
  arith,
  length-append front (x ∷ back),
  from_be16-be16 (length body),
  from_be16-be16 (6 + length body),
)
try_decode_frame_partial body _ back x h s = refl

-- Where the buffer's elements are bytes, a frame that is decoded stood at the head of the buffer
-- as the encoder writes it, in front of the bytes that stay, and its body is within the size
-- guard.
pub try_decode_frame-eq-some :
    (buf : Bytes) {body rest : Bytes}
    → All IsByte buf
    → try_decode_frame buf ≡ (ok (some body), rest)
    → (buf ≡ frame body ++ rest) × (length body ≤ max_forti_body)
unfolding try_decode_frame
try_decode_frame-eq-some (a ∷ b ∷ c ∷ d ∷ e ∷ f ∷ front) h s =
    let n = from_be16 e f in ground (arith, take-append-drop n front, length-take n front)
try_decode_frame-eq-some _ h s = cc
