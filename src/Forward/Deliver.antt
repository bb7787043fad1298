-- ===== src/Forward/Deliver.antt =====
-- crates/vpn-engine/src/forward.rs: packets from one end's TUN device to the other's.
use yellow_vpn.Common.{
  ℕ, zero, suc, ◌≤◌, ◌<◌, ◌≡◌, refl, ◌∙◌, ◌≢◌, Option, none, some, List, [], ◌∷◌, ◌++◌, map,
  append-nil, append_assoc, arith, length, All, Bytes,
}
use yellow_vpn.Error.{Result, ok, err}
use yellow_vpn.Framer.{
  FrameEvent, payload, TunnelFramer, encode_data, encode_data_append, try_decode,
}
use yellow_vpn.Framer.Laws.{codec, encode_data_append-encode_data}
use yellow_vpn.Framer.Stream.{Drained, drain, stream, concat, Fit, after_decode}
use yellow_vpn.Framer.Stream.Chunks.{Waits, drain-Cut, Waits-start, Waits-end, Fit-append}
use yellow_vpn.Forward.{
  read, Event, tls_ready, Writes, Loop, running, handle, write_tls, on_decoded, drain_loop, on_tls,
  on_tun, batch, pending, step, run, initial, max_tx_batch,
}

-- Any inbound frame resets the counter.
abbrev pub reset : List Bytes → ℕ → ℕ
reset [] missed = missed
reset (p ∷ ps) missed = 0

reset_zero : (ps : List Bytes) → reset ps 0 ≡ 0
reset_zero [] = refl
reset_zero (p ∷ ps) = refl

abbrev pub delivered : List Bytes → Bytes → Loop → Loop
delivered ps left s = record s {
  inbound = left;
  missed = reset ps s.missed;
  tun_out = s.tun_out ++ ps;
}

abbrev yields : List Bytes → Bytes → Drained
yields ps left = record { events = map payload ps; left = left; error = none }

abbrev pub arrivals : List Bytes → List Event
arrivals [] = []
arrivals (c ∷ cs) = tls_ready (read c) ∷ arrivals cs

-- No read is empty: that would be the end of the stream.
abbrev pub NonEmpty : List Bytes → Type 0
NonEmpty = All (λ c. c ≢ [])

reset-append : (ps qs : List Bytes) (m : ℕ) → reset qs (reset ps m) ≡ reset (ps ++ qs) m
reset-append [] qs m = refl
reset-append (p ∷ ps) qs m = reset_zero qs

module _ (w : Writes) (written : (n : ℕ) → w.tun_write n ≡ none) where
  handle_payload :
      (p : Bytes) (s : Loop)
      → handle w (payload p) s ≡ running (record s { tun_out = s.tun_out ++ (p ∷ []) })
  unfolding handle
  handle_payload p s = ground (arith, written (length s.tun_out))

  on_decoded-delivered :
      (fuel : ℕ) (s : Loop) (d : Result (Option FrameEvent) × Bytes) (ps : List Bytes)
      (left : Bytes)
      → after_decode (drain (codec s.framer) fuel) d ≡ yields ps left
      → ((s' : Loop) (ps' : List Bytes)
          → s'.framer ≡ s.framer
          → drain (codec s.framer) fuel s'.inbound ≡ yields ps' left
          → drain_loop w fuel s' ≡ running (delivered ps' left s'))
      → on_decoded w (drain_loop w fuel) d s ≡ running (delivered ps left s)
  on_decoded-delivered fuel s (ok (some e), rest) [] left h ih = absurd (cc)
  on_decoded-delivered fuel s (ok (some e), rest) (p ∷ ps) left h ih =
      let s' : Loop = record s { inbound = rest; missed = 0; tun_out = s.tun_out ++ (p ∷ []) } in
      let same : e ≡ payload p = ground arith in
      rw (same, handle_payload)
        (ih s' ps refl (ground arith) ∙ rw (reset_zero ps, append_assoc s.tun_out (p ∷ []) ps))
  on_decoded-delivered fuel s (ok none, rest) [] left h ih = ground (arith, append-nil s.tun_out)
  on_decoded-delivered fuel s (ok none, rest) (p ∷ ps) left h ih = absurd (cc)
  on_decoded-delivered fuel s (err e, rest) ps left h ih = absurd (cc)

  drain_loop-delivered :
      (fuel : ℕ) (s : Loop) (ps : List Bytes) (left : Bytes)
      → drain (codec s.framer) fuel s.inbound ≡ yields ps left
      → drain_loop w fuel s ≡ running (delivered ps left s)
  unfolding drain_loop drain
  drain_loop-delivered zero s [] left h = ground (arith, append-nil s.tun_out)
  drain_loop-delivered zero s (p ∷ ps) left h = absurd (cc)
  drain_loop-delivered (suc fuel) s ps left h =
      on_decoded-delivered fuel s (try_decode s.framer s.inbound) ps left h
        (λ s' ps' same e. drain_loop-delivered fuel s' ps' left (rw same e))

  on_tls-delivered :
      (s : Loop) (chunk : Bytes) (ps : List Bytes) (left : Bytes)
      → chunk ≢ []
      → drain (codec s.framer) (suc (length (s.inbound ++ chunk))) (s.inbound ++ chunk)
        ≡ yields ps left
      → on_tls w (read chunk) s ≡ running (delivered ps left s)
  unfolding on_tls
  on_tls-delivered s [] ps left ne h = absurd (ne refl)
  on_tls-delivered s (b ∷ chunk) ps left ne h =
      let buf = s.inbound ++ (b ∷ chunk) in
      drain_loop-delivered (suc (length buf)) (record s { inbound = buf }) ps left h

  run-Waits :
      (chunks : List Bytes) (s : Loop) (ps : List Bytes)
      → Fit (codec s.framer) ps
      → NonEmpty chunks
      → Waits (codec s.framer) s.inbound ps
      → s.inbound ++ concat chunks ≡ stream (codec s.framer) ps
      → run w (arrivals chunks) s ≡ running (delivered ps [] s)
  unfolding run step
  run-Waits [] s ps fit ne wait h =
      let (e, l) = Waits-end (codec s.framer) wait h in rw e (ground (arith, append-nil s.tun_out))
  run-Waits (chunk ∷ chunks) s ps fit ne wait h =
      let buf = s.inbound ++ chunk in
      let c =
        drain-Cut (codec s.framer) ps (suc (length buf)) buf (concat chunks) fit (omega arith)
          (append_assoc s.inbound chunk (concat chunks) ∙ h) in
      let s' = delivered c.done c.left s in
      rw (on_tls-delivered s chunk c.done c.left ne.0 c.drains) (
        run-Waits chunks s' c.todo (Fit-append (codec s.framer) c.done c.todo (rw c.splits at fit))
          ne.1 c.waits c.remains
        ∙ rw
            (c.splits, ← reset-append c.done c.todo s.missed, append_assoc s.tun_out c.done c.todo))

  -- However the stream of some packets that the protocol's frames can carry is cut into non-empty
  -- reads, a loop that starts, and whose writes to the TUN device succeed, writes each packet to
  -- the TUN device, in order, and keeps no byte back.
  pub run-arrivals :
      (f : TunnelFramer) (ps chunks : List Bytes)
      → Fit (codec f) ps
      → NonEmpty chunks
      → concat chunks ≡ stream (codec f) ps
      → run w (arrivals chunks) (initial f []) ≡ running (delivered ps [] (initial f []))
  run-arrivals f ps chunks fit ne h =
      run-Waits chunks (initial f []) ps fit ne (Waits-start (codec f) ps fit) h

-- A batch is the stream of its packets.
pub batch-stream :
    (f : TunnelFramer) (n : ℕ) (ps : List Bytes) (out : Bytes)
    → length ps ≤ n
    → NonEmpty ps
    → batch f n (map read ps) out ≡ (out ++ stream (codec f) ps, pending)
unfolding batch
batch-stream f zero [] out h ne = rw append-nil
batch-stream f zero (p ∷ ps) out h ne = absurd (omega arith)
batch-stream f (suc n) [] out h ne = rw append-nil
batch-stream f (suc n) ([] ∷ ps) out h ne = absurd (ne.0 refl)
batch-stream f (suc n) ((b ∷ p) ∷ ps) out h ne =
    batch-stream f n ps (encode_data_append f (b ∷ p) out) (omega arith) ne.1
    ∙ rw (
      encode_data_append-encode_data f (b ∷ p) out,
      append_assoc out (encode_data f (b ∷ p)) (stream (codec f) ps),
    )

on_tun-stream :
    (w : Writes) (p : Bytes) (ps : List Bytes) (s : Loop)
    → w.tls_write (length s.tls_out) ≡ none
    → length ps < max_tx_batch
    → NonEmpty (p ∷ ps)
    → on_tun w (read p) (map read ps) s
      ≡ running (record s { tls_out = s.tls_out ++ (stream (codec s.framer) (p ∷ ps) ∷ []) })
on_tun-stream w [] ps s ok_write h ne = absurd (ne.0 refl)
on_tun-stream w (b ∷ p) ps s ok_write h ne =
    let batched : batch s.framer 31 (map read ps) (encode_data_append s.framer (b ∷ p) [])
        ≡ (encode_data_append s.framer (b ∷ p) [] ++ stream (codec s.framer) ps, pending) =
      batch-stream s.framer 31 ps (encode_data_append s.framer (b ∷ p) []) (omega arith) ne.1 in
    unfold on_tun write_tls in
    ground (arith, ok_write, batched, encode_data_append-encode_data s.framer (b ∷ p) [])

-- From any state, where the write to TLS succeeds, a burst of at most thirty-two non-empty
-- packets, each of them within what the protocol's frame can carry, becomes one write to TLS; and
-- however those bytes are cut into non-empty reads, a loop of the same framer that starts at the
-- other end writes the same packets to its TUN device, in order, if its writes there succeed.
pub on_tun_delivers :
    (w w' : Writes) (p : Bytes) (ps : List Bytes) (s : Loop)
    → w.tls_write (length s.tls_out) ≡ none
    → ((n : ℕ) → w'.tun_write n ≡ none)
    → length ps < max_tx_batch
    → NonEmpty (p ∷ ps)
    → Fit (codec s.framer) (p ∷ ps)
    → (bytes : Bytes) × (on_tun w (read p) (map read ps) s
        ≡ running (record s { tls_out = s.tls_out ++ (bytes ∷ []) }))
      × ((chunks : List Bytes)
          → NonEmpty chunks
          → concat chunks ≡ bytes
          → run w' (arrivals chunks) (initial s.framer [])
            ≡ running (delivered (p ∷ ps) [] (initial s.framer [])))
on_tun_delivers w w' p ps s sent written h ne fit = (
  stream (codec s.framer) (p ∷ ps),
  on_tun-stream w p ps s sent h ne,
  λ chunks ne' e. run-arrivals w' written s.framer (p ∷ ps) chunks fit ne' e,
)
