-- ===== src/Checkpoint/Session/Reply.antt =====
-- crates/vpn-engine/src/checkpoint/session.rs: the reply in the stream of bytes that is read.
use yellow_vpn.Common.{
  ℕ, ◌≤◌, ◌<◌, ◌≡◌, refl, sym, ap, ◌∙◌, ◌≢◌, Option, none, some, List, [], ◌∷◌, ◌++◌, map,
  append-nil, append_assoc, arith, le→ltb, length, All, length-append, Bytes, as_bytes, IsScalar,
}
use yellow_vpn.Error.{Text, Result, ok}
use yellow_vpn.Checkpoint.Ccc.{CccValue, parse}
use yellow_vpn.Checkpoint.Framing.{
  SlimPacket, control, pkt_control, max_slim_payload, encode_control, control_of, try_decode_slim,
}
use yellow_vpn.Checkpoint.Framing.RoundTrip.{
  encode_control-frame, try_decode_slim-frame, try_decode_slim_partial, read_payload-control,
}
use yellow_vpn.Checkpoint.Session.{
  CheckpointSession, HelloRead, arrived, hello_reply_max_bytes, parse_hello_reply, answer, pending,
  on_slim, drain_hello, search_hello, await_hello, HelloOpts, establish_session,
}
use yellow_vpn.Framer.Stream.{concat}

abbrev pub AllNonEmpty : List Bytes → Type 0
AllNonEmpty chunks = All (λ c. c ≢ []) chunks

search_hello-answer :
    (buf rest : Bytes) (tree : CccValue)
    → try_decode_slim buf ≡ (ok (some (control tree)), rest)
    → search_hello buf ≡ answer (parse_hello_reply tree)
unfolding drain_hello
search_hello-answer buf rest tree h = ap (on_slim (drain_hello (length buf))) h

search_hello-pending :
    (buf : Bytes) → try_decode_slim buf ≡ (ok none, buf) → search_hello buf ≡ pending buf
unfolding drain_hello
search_hello-pending buf h = ap (on_slim (drain_hello (length buf))) h

-- A step of the loop on a buffer without a whole frame.
await_hello-pending :
    (b : ℕ) (bs buf : Bytes) (reads : List HelloRead)
    → search_hello buf ≡ pending buf
    → length buf ≤ hello_reply_max_bytes
    → await_hello (arrived (b ∷ bs) ∷ reads) buf ≡ await_hello reads (buf ++ (b ∷ bs))
unfolding await_hello
await_hello-pending b bs buf reads h small =
    rw (h, le→ltb hello_reply_max_bytes (length buf) small) refl

await_hello-answer :
    (reads : List HelloRead) (buf : Bytes) (r : Result CheckpointSession)
    → search_hello buf ≡ answer r
    → await_hello reads buf ≡ some r
unfolding await_hello
await_hello-answer [] buf r h = rw h refl
await_hello-answer (x ∷ reads) buf r h = rw h refl

module _ (s : Text) (tree : CccValue) (scalars : All IsScalar s) (read_back : parse s ≡ ok tree)
    (small : length (encode_control s) ≤ hello_reply_max_bytes) where
  fits : length (as_bytes s) < max_slim_payload
  unfolding encode_control
  fits = omega (arith, small, length-append (as_bytes s) (0x00 ∷ []))

  whole : (rest : Bytes) → search_hello (encode_control s ++ rest) ≡ answer (parse_hello_reply tree)
  whole rest = search_hello-answer (encode_control s ++ rest) rest tree (
      rw (encode_control-frame s fits) (
        try_decode_slim-frame pkt_control (as_bytes s ++ (0x00 ∷ [])) rest
          (omega (arith, fits, length-append (as_bytes s) (0x00 ∷ [])))
        ∙ ap (λ (r : Result (Option SlimPacket)). (r, rest))
            (read_payload-control s scalars ∙ ap control_of read_back)))

  piece :
      (front back : Bytes) (x : ℕ)
      → encode_control s ≡ front ++ (x ∷ back)
      → search_hello front ≡ pending front
  piece front back x h = search_hello-pending front (
      try_decode_slim_partial pkt_control (as_bytes s ++ (0x00 ∷ [])) front back x
        (omega (arith, fits, length-append (as_bytes s) (0x00 ∷ [])))
        (sym (encode_control-frame s fits) ∙ h))

  await_hello_from :
      (chunks : List Bytes) (buf : Bytes)
      → AllNonEmpty chunks
      → encode_control s ≡ buf ++ concat chunks
      → await_hello (map arrived chunks) buf ≡ some (parse_hello_reply tree)
  await_hello_from [] buf n h = await_hello-answer [] buf (parse_hello_reply tree) (
      ap search_hello (sym (append-nil buf) ∙ sym h ∙ sym (append-nil (encode_control s)))
      ∙ whole [])
  await_hello_from ([] ∷ chunks) buf n h = absurd (n.0 refl)
  await_hello_from ((b ∷ bs) ∷ chunks) buf n h =
      await_hello-pending b bs buf (map arrived chunks) (piece buf (bs ++ concat chunks) b h)
        (omega (arith, small, ap length h, length-append buf (b ∷ (bs ++ concat chunks))))
      ∙ await_hello_from chunks (buf ++ (b ∷ bs)) n.1
          (h ∙ sym (append_assoc buf (b ∷ bs) (concat chunks)))

-- However the frame of a gateway's reply of at most 64 KiB is cut into reads, the exchange answers
-- what the parser makes of the reply's tree.
pub establish_session-encode_control :
    (cookie : Text) (opts : HelloOpts) (s : Text) (tree : CccValue) (chunks : List Bytes)
    → All IsScalar s
    → parse s ≡ ok tree
    → length (encode_control s) ≤ hello_reply_max_bytes
    → AllNonEmpty chunks
    → concat chunks ≡ encode_control s
    → (establish_session cookie opts none (map arrived chunks)).1 ≡ some (parse_hello_reply tree)
unfolding establish_session
establish_session-encode_control cookie opts s tree chunks scalars read_back small n h =
    await_hello_from s tree scalars read_back small chunks [] n (sym h)
