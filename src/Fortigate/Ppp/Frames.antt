-- ===== src/Fortigate/Ppp/Frames.antt =====
-- crates/vpn-engine/src/fortigate/ppp.rs: writing and reading PPP frames.
use yellow_vpn.Common.{
  ℕ, ◌+◌, ◌^◌, ◌≤◌, ◌<◌, ◌≡◌, ◌≢◌, none, some, [], ◌∷◌, ◌++◌, arith, length, Bytes, be16,
  from_be16-be16,
}
use yellow_vpn.Error.{ok}
use yellow_vpn.Fortigate.Framing.{max_forti_body}
use yellow_vpn.Fortigate.Framing.RoundTrip.{frame, try_decode_frame-frame, try_decode_frame_partial}
use yellow_vpn.Fortigate.Ppp.{encode_ppp, encode_ppp_append, split_ppp, try_decode_ppp}

-- A protocol number that cannot be taken for the HDLC prefix.
abbrev pub IsProtocol : ℕ → Type 0
IsProtocol proto = (proto < 2 ^ 16) × (proto ≢ 0xFF03)

pub encode_ppp_append-frame :
    (proto : ℕ) (payload out : Bytes)
    → 2 + length payload ≤ max_forti_body
    → encode_ppp_append proto payload out ≡ out ++ frame (be16 proto ++ payload)
unfolding encode_ppp_append
encode_ppp_append-frame proto payload out h = ground arith

pub encode_ppp-frame :
    (proto : ℕ) (payload : Bytes)
    → 2 + length payload ≤ max_forti_body
    → encode_ppp proto payload ≡ frame (be16 proto ++ payload)
unfolding encode_ppp
encode_ppp-frame proto payload h = encode_ppp_append-frame proto payload [] h

pub split_ppp-be16 :
    (proto : ℕ) (payload : Bytes)
    → IsProtocol proto
    → split_ppp (be16 proto ++ payload) ≡ some (proto, payload)
unfolding split_ppp
split_ppp-be16 proto payload h = ground (arith, from_be16-be16 proto)

pub try_decode_ppp-frame :
    (proto : ℕ) (payload rest : Bytes)
    → IsProtocol proto
    → 2 + length payload ≤ max_forti_body
    → try_decode_ppp (frame (be16 proto ++ payload) ++ rest) ≡ (ok (some (proto, payload)), rest)
unfolding try_decode_ppp
try_decode_ppp-frame proto payload rest p h =
    ground
      (arith, try_decode_frame-frame (be16 proto ++ payload) rest, split_ppp-be16 proto payload)

pub try_decode_ppp_partial :
    (proto : ℕ) (payload front back : Bytes) (x : ℕ)
    → 2 + length payload ≤ max_forti_body
    → frame (be16 proto ++ payload) ≡ front ++ (x ∷ back)
    → try_decode_ppp front ≡ (ok none, front)
unfolding try_decode_ppp
try_decode_ppp_partial proto payload front back x h s =
    rw (try_decode_frame_partial (be16 proto ++ payload) front back x (omega arith) s)
