-- ===== src/Forward/Liveness.antt =====
-- crates/vpn-engine/src/forward.rs: the keepalive count, and how the loop ends.
use yellow_vpn.Common.{
  ℕ, zero, suc, ◌+◌, ◌-◌, ◌≤◌, ◌<◌, ◌≡◌, refl, ◌⊎◌, inl, inr, Option, none, some, List, [], ◌∷◌,
  ◌++◌, arith, length, All, Bytes,
}
use yellow_vpn.Error.{Result, ok, err}
use yellow_vpn.Tunnel.{write_header}
use yellow_vpn.Checkpoint.Framing
use yellow_vpn.Fortigate.Ppp.{echo_request}
use yellow_vpn.Framer.{
  FrameEvent, payload, TunnelFramer, cstp, slim, fortinet, encode_keepalive, encode_data_append,
  try_decode,
}
use yellow_vpn.Forward.{
  ReadResult, read, failed, Event, shutdown, tick, tun_ready, tls_ready, Writes, Loop, Step,
  running, exited, and_then, send_keepalive, write_tls, on_shutdown, on_tick, BatchEnd, pending,
  batch, after_batch, on_tun, handle, on_decoded, drain_loop, on_tls, step, run, initial,
  max_tx_batch, max_missed_keepalives,
}

-- `P` holds of a loop that runs on, and `Q` of the result of one that ended.
abbrev pub Ensures : (Loop → Type 0) → (Result (Unit {0}) → Type 0) → Step → Type 0
Ensures P Q (running s) = P s
Ensures P Q (exited r s) = Q r

abbrev pub IsErr : Result (Unit {0}) → Type 0
IsErr (ok _) = ⊥
IsErr (err e) = Unit

abbrev Live : Loop → Type 0
Live s = s.missed < 3

Ensures-and_then :
    (P : Loop → Type 0) (Q : Result (Unit {0}) → Type 0) (R : Loop → Type 0) (m : Step)
    (f : Loop → Step)
    → Ensures R Q m
    → ((s : Loop) → R s → Ensures P Q (f s))
    → Ensures P Q (and_then m f)
Ensures-and_then P Q R (running s) f h k = k s h
Ensures-and_then P Q R (exited r s) f h k = h

-- A write leaves the counter alone, or fails.
write_tls-Ensures :
    (w : Writes) (bytes : Bytes) (s : Loop)
    → Ensures (λ s'. s'.missed ≡ s.missed) IsErr (write_tls w bytes s)
unfolding write_tls
write_tls-Ensures w bytes s = ground arith

handle-Ensures :
    (w : Writes) (e : FrameEvent) (s : Loop)
    → Ensures (λ s'. s'.missed ≡ s.missed) IsErr (handle w e s)
unfolding handle
handle-Ensures w (payload p) s = ground arith
handle-Ensures w _ s = ground arith

drain_loop-Ensures :
    (w : Writes) (fuel : ℕ) (s : Loop) → Live s → Ensures Live IsErr (drain_loop w fuel s)
unfolding drain_loop
drain_loop-Ensures w zero s h = h
drain_loop-Ensures w (suc fuel) s h = go (try_decode s.framer s.inbound) (drain_loop-Ensures w fuel)
  where
    go :
        (d : Result (Option FrameEvent) × Bytes)
        → ((s' : Loop) → Live s' → Ensures Live IsErr (drain_loop w fuel s'))
        → Ensures Live IsErr (on_decoded w (drain_loop w fuel) d s)
    go (ok (some e), rest) ih =
        let s₀ = record s { inbound = rest; missed = 0 } in
        Ensures-and_then Live IsErr (λ s'. s'.missed ≡ 0) (handle w e s₀) (drain_loop w fuel)
          (handle-Ensures w e s₀) (λ s' z. ih s' (omega arith))
    go (ok none, rest) ih = h
    go (err e, rest) ih = tt

-- The arms that read from the TUN device, or wait for a timer.
abbrev pub IsSilent : Event → Type 0
IsSilent tick = Unit
IsSilent (tun_ready first ready) = Unit
IsSilent _ = ⊥

abbrev pub ticks : List Event → ℕ
ticks [] = 0
ticks (tick ∷ events) = suc (ticks events)
ticks (_ ∷ events) = ticks events

keepalive-cons : (f : TunnelFramer) → (b : ℕ) × (bs : Bytes) × ((encode_keepalive f).0 ≡ b ∷ bs)
unfolding encode_keepalive
keepalive-cons cstp = unfold write_header in (_, _, refl)
keepalive-cons slim = unfold Framing.encode_keepalive in (_, _, refl)
keepalive-cons (fortinet magic echo_id) = unfold echo_request in (_, _, refl)

send_keepalive-Ensures :
    (w : Writes) (frame : Bytes) (s : Loop) (b : ℕ) (bs : Bytes)
    → frame ≡ b ∷ bs
    → Ensures (λ s'. (s'.missed ≡ s.missed + 1) × (s'.missed < 3)) IsErr (send_keepalive w frame s)
unfolding write_tls
send_keepalive-Ensures w [] s b bs e = absurd (cc)
send_keepalive-Ensures w (x ∷ frame) s b bs e = ground arith

on_tick-Ensures :
    (w : Writes) (s : Loop)
    → Ensures (λ s'. (s'.missed ≡ s.missed + 1) × (s'.missed < 3)) IsErr (on_tick w s)
unfolding on_tick
on_tick-Ensures w s =
    let (b, bs, e) = keepalive-cons s.framer in
    send_keepalive-Ensures w (encode_keepalive s.framer).0
      (record s { framer = (encode_keepalive s.framer).1 }) b bs e

after_batch-Ensures :
    (e : BatchEnd) (s : Loop) (m : ℕ)
    → s.missed ≡ m
    → Ensures (λ s'. s'.missed ≡ m) IsErr (after_batch e s)
after_batch-Ensures pending s m h = h
after_batch-Ensures _ s m h = tt

on_tun-Ensures :
    (w : Writes) (first : ReadResult) (ready : List ReadResult) (s : Loop)
    → Ensures (λ s'. s'.missed ≡ s.missed) IsErr (on_tun w first ready s)
unfolding on_tun
on_tun-Ensures w (failed m) ready s = tt
on_tun-Ensures w (read []) ready s = tt
on_tun-Ensures w (read (b ∷ p)) ready s =
    let d = batch s.framer (max_tx_batch - 1) ready (encode_data_append s.framer (b ∷ p) []) in
    Ensures-and_then (λ s'. s'.missed ≡ s.missed) IsErr (λ s'. s'.missed ≡ s.missed)
      (write_tls w d.0 s) (after_batch d.1) (write_tls-Ensures w d.0 s)
      (λ s' e. after_batch-Ensures d.1 s' s.missed e)

on_tls-Ensures :
    (w : Writes) (r : ReadResult) (s : Loop) → Live s → Ensures Live IsErr (on_tls w r s)
unfolding on_tls
on_tls-Ensures w (failed m) s h = tt
on_tls-Ensures w (read []) s h = tt
on_tls-Ensures w (read (b ∷ chunk)) s h =
    let buf = s.inbound ++ (b ∷ chunk) in
    drain_loop-Ensures w (suc (length buf)) (record s { inbound = buf }) h

Ensures-mono :
    (P R : Loop → Type 0) (Q : Result (Unit {0}) → Type 0) (m : Step)
    → Ensures R Q m
    → ((s : Loop) → R s → P s)
    → Ensures P Q m
Ensures-mono P R Q (running s) h k = k s h
Ensures-mono P R Q (exited r s) h k = h

-- Among the events there is a shutdown.
abbrev pub HasShutdown : List Event → Type 0
HasShutdown [] = ⊥
HasShutdown (shutdown ∷ events) = Unit
HasShutdown (_ ∷ events) = HasShutdown events

-- A loop that runs on has missed fewer than three keepalives; a loop that ended well was shut down.
abbrev pub WellEnded : List Event → Step → Type 0
WellEnded events =
    Ensures (λ s. s.missed < max_missed_keepalives) (λ r. IsErr r ⊎ HasShutdown events)

Ensures-weaken :
    (P : Loop → Type 0) (Q R : Result (Unit {0}) → Type 0) (m : Step)
    → Ensures P R m
    → ((r : Result (Unit {0})) → R r → Q r)
    → Ensures P Q m
Ensures-weaken P Q R (running s) h k = h
Ensures-weaken P Q R (exited r s) h k = k r h

run-WellEnded_from :
    (w : Writes) (events : List Event) (s : Loop) → Live s → WellEnded events (run w events s)
unfolding run step
run-WellEnded_from w [] s h = h
run-WellEnded_from w (shutdown ∷ events) s h = unfold on_shutdown in inr tt
run-WellEnded_from w (tick ∷ events) s h =
    Ensures-and_then Live (λ r. IsErr r ⊎ HasShutdown events) Live (on_tick w s) (run w events)
      (Ensures-weaken Live (λ r. IsErr r ⊎ HasShutdown events) IsErr (on_tick w s)
        (Ensures-mono Live (λ s'. (s'.missed ≡ s.missed + 1) × (s'.missed < 3)) IsErr (on_tick w s)
          (on_tick-Ensures w s) (λ s' m. m.1))
        (λ r e. inl e))
      (run-WellEnded_from w events)
run-WellEnded_from w (tun_ready first ready ∷ events) s h =
    Ensures-and_then Live (λ r. IsErr r ⊎ HasShutdown events) Live (on_tun w first ready s)
      (run w events)
      (Ensures-weaken Live (λ r. IsErr r ⊎ HasShutdown events) IsErr (on_tun w first ready s)
        (Ensures-mono Live (λ s'. s'.missed ≡ s.missed) IsErr (on_tun w first ready s)
          (on_tun-Ensures w first ready s) (λ s' m. omega arith))
        (λ r e. inl e))
      (run-WellEnded_from w events)
run-WellEnded_from w (tls_ready r ∷ events) s h =
    Ensures-and_then Live (λ r. IsErr r ⊎ HasShutdown events) Live (on_tls w r s) (run w events)
      (Ensures-weaken Live (λ r. IsErr r ⊎ HasShutdown events) IsErr (on_tls w r s)
        (on_tls-Ensures w r s h) (λ r e. inl e))
      (run-WellEnded_from w events)

-- From its start the loop runs on with fewer than three keepalives missed, or ends with an error,
-- or ends because it was shut down.
pub run-WellEnded :
    (w : Writes) (f : TunnelFramer) (prime : Bytes) (events : List Event)
    → WellEnded events (run w events (initial f prime))
run-WellEnded w f prime events = run-WellEnded_from w events (initial f prime) (omega arith)

-- The loop has ended, with an error.
abbrev pub GivesUp : Step → Type 0
GivesUp = Ensures (λ s. ⊥) IsErr

run_silent :
    (w : Writes) (events : List Event) (s : Loop)
    → All IsSilent events
    → Live s
    → 3 ≤ s.missed + ticks events
    → GivesUp (run w events s)
unfolding run step
run_silent w [] s silent h enough = absurd (omega arith)
run_silent w (tick ∷ events) s silent h enough =
    Ensures-and_then (λ s'. ⊥) IsErr (λ s'. (s'.missed ≡ s.missed + 1) × (s'.missed < 3))
      (on_tick w s) (run w events) (on_tick-Ensures w s)
      (λ s' m. run_silent w events s' silent.1 m.1 (omega arith))
run_silent w (tun_ready first ready ∷ events) s silent h enough =
    Ensures-and_then (λ s'. ⊥) IsErr (λ s'. s'.missed ≡ s.missed) (on_tun w first ready s)
      (run w events) (on_tun-Ensures w first ready s)
      (λ s' m. run_silent w events s' silent.1 (omega arith) (omega arith))
run_silent w (shutdown ∷ events) s silent h enough = absurd silent.0
run_silent w (tls_ready r ∷ events) s silent h enough = absurd silent.0

-- A peer that stays silent over three ticks of the keepalive timer is given up, whatever the loop
-- sends meanwhile: where no event is a shutdown or bytes from the peer, and fewer than three
-- keepalives are missed at first, the loop ends with an error. This holds for the three framers
-- alike, the one of FortiGate included: its keepalive frame is an LCP echo request, so none of the
-- three is empty.
pub run_silent-GivesUp :
    (w : Writes) (events : List Event) (s : Loop)
    → All IsSilent events
    → s.missed < max_missed_keepalives
    → max_missed_keepalives ≤ ticks events
    → GivesUp (run w events s)
run_silent-GivesUp w events s silent h enough = run_silent w events s silent h (omega arith)
