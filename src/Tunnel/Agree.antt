-- ===== src/Tunnel/Agree.antt =====
-- crates/vpn-engine/src/tunnel.rs: `try_decode_cstp` against `decode`.
use Prim.Native.Nat.{min}
use yellow_vpn.Common.{
  ℕ, zero, suc, ◌≡◌, refl, some, [], ◌∷◌, ◌++◌, arith, length, take, drop, take-append-drop,
  length-take, length-drop, Bytes, from_be16,
}
use yellow_vpn.Error.{ok}
use yellow_vpn.Tunnel.{CstpPacket, decode, try_decode_cstp}

take_all : (n : ℕ) (xs : Bytes) → length xs ≡ n → (take n xs ≡ xs) × (drop n xs ≡ [])
take_all zero [] h = (refl, refl)
take_all zero (x ∷ xs) h = absurd (omega arith)
take_all (suc n) [] h = absurd (omega arith)
take_all (suc n) (x ∷ xs) h = ground (arith, take_all n xs)

-- What `decode` accepts is one packet for the buffered decoder, with nothing left.
pub try_decode_cstp-decode :
    (buf : Bytes) {p : CstpPacket} → decode buf ≡ ok p → try_decode_cstp buf ≡ (ok (some p), [])
unfolding decode try_decode_cstp
try_decode_cstp-decode buf {p} h =
    ground (arith, length-drop 8 buf, take_all (length p.payload) (drop 8 buf))

-- A packet that the buffered decoder takes off the buffer stood at its head as bytes that `decode`
-- accepts as that packet, in front of the bytes that stay.
pub decode-try_decode_cstp :
    (buf : Bytes) {p : CstpPacket} {rest : Bytes}
    → try_decode_cstp buf ≡ (ok (some p), rest)
    → (front : Bytes) × (buf ≡ front ++ rest) × (decode front ≡ ok p)
unfolding decode try_decode_cstp
decode-try_decode_cstp (a ∷ b ∷ c ∷ d ∷ e ∷ f ∷ g ∷ h ∷ body) {p} {rest} s =
    let n = from_be16 e f in
    let facts : (take n body ++ drop n body ≡ body) × (length (take n body) ≡ min n (length body)) =
      (take-append-drop n body, length-take n body) in
    (a ∷ b ∷ c ∷ d ∷ e ∷ f ∷ g ∷ h ∷ take n body, ground arith, ground arith)
decode-try_decode_cstp _ {p} h = ([], cc, cc)
