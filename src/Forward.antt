-- ===== src/Forward.antt =====
-- crates/vpn-engine/src/forward.rs: the forwarding loop. Each arm of its `select!` is an event, a
-- run is a list of events, and a write to TLS (with its flush) or to the TUN device is a step
-- whose outcome the environment decides.
pub mod Deliver
pub mod Liveness
use yellow_vpn.Common.{
  ℕ, zero, suc, ◌+◌, ◌-◌, ◌*◌, ◌/◌, ◌%◌, ◌^◌, ◌≤◌, ◌<◌, String, ◌≡◌, refl, sym, ap, ◌∙◌, ◌≢◌, ◌↔◌,
  ◌⊎◌, inl, inr, Bool, true, false, not, ◌&&◌, ◌||◌, Option, none, some, List, [], ◌∷◌, ◌++◌, map,
  append-nil, append_assoc, arith, ltb, leb, ◌==◌, if◌then◌else◌, ltb→lt, ltb→le, lt→ltb, le→ltb,
  leb→le, ==_iff, ==_self, Bool-cases, Option-cases, length, get_or, take, drop, All, length-append,
  take-append-drop, length-take, length-drop, take-length_append, drop-length_append, take-append,
  drop-append, All-append, Bytes, IsByte, as_u8, as_u16, as_u32, be16, from_be16, be32, from_be32,
  from_be16-be16, from_be32-be32, as_bytes, from_utf8_lossy, IsScalar, from_utf8_lossy-as_bytes,
  codes,
}
use yellow_vpn.Error.{
  ensure, ◌>>◌, Text, Message, format, verbatim, caused, plain, VpnError, config, privilege, tun,
  tun_unavailable, routing, tls, protocol, auth_failed, server_disconnect, io, not_implemented,
  is_permanent, Result, ok, err, ◌>>=◌, Result-cases,
}
use yellow_vpn.Framer.{
  FrameEvent, payload, reply, ignore, disconnected, TunnelFramer, encode_data_append,
  encode_keepalive, encode_shutdown, try_decode,
}
use yellow_vpn.Routing.{Handle, RoutingGuard, remove_all}

abbrev pub max_tx_batch : ℕ
max_tx_batch = 32

abbrev pub max_missed_keepalives : ℕ
max_missed_keepalives = 3

-- A read of no bytes is the end of the stream.
pub data ReadResult : Type 0 where
  read : Bytes → ReadResult
  failed : Message → ReadResult

-- `tun_ready` carries the first packet, and the reads that are ready behind it.
pub data Event : Type 0 where
  shutdown : Event
  tick : Event
  tun_ready : ReadResult → List ReadResult → Event
  tls_ready : ReadResult → Event

-- The outcome of the n-th write to TLS, and to the TUN device.
pub record Writes : Type 0 where
  pub tls_write : ℕ → Option Message
  pub tun_write : ℕ → Option Message

pub record Loop : Type 0 where
  pub framer : TunnelFramer
  pub inbound : Bytes
  pub missed : ℕ
  pub tls_out : List Bytes
  pub tun_out : List Bytes

pub data Step : Type 0 where
  running : Loop → Step
  exited : Result (Unit {0}) → Loop → Step

abbrev pub and_then : Step → (Loop → Step) → Step
and_then (running s) f = f s
and_then (exited r s) f = exited r s

abbrev pub eof_error : VpnError
eof_error = io (plain "read returned 0")

unfoldable pub write_tls : Writes → Bytes → Loop → Step
write_tls w bytes s = elim (w.tls_write (length s.tls_out)) [
  | none ↦ running (record s { tls_out = s.tls_out ++ (bytes ∷ []) })
  | some m ↦ exited (err (io m)) s
]

unfoldable pub write_tun : Writes → Bytes → Loop → Step
write_tun w packet s = elim (w.tun_write (length s.tun_out)) [
  | none ↦ running (record s { tun_out = s.tun_out ++ (packet ∷ []) })
  | some m ↦ exited (err (io m)) s
]

-- Best effort: a failed write is dropped.
abbrev pub last_words : Writes → Option Bytes → Loop → Loop
last_words w none s = s
last_words w (some frame) s = elim (w.tls_write (length s.tls_out)) [
  | none ↦ record s { tls_out = s.tls_out ++ (frame ∷ []) }
  | some m ↦ s
]

unfoldable pub on_shutdown : Writes → Loop → Step
on_shutdown w s = exited (ok tt) (last_words w (encode_shutdown s.framer) s)

abbrev pub count_missed : Loop → Step
count_missed s =
    let s' = record s { missed = s.missed + 1 } in
    if leb max_missed_keepalives (s.missed + 1)
    then exited (err (protocol (plain "peer unresponsive (missed keepalives)"))) s'
    else running s'

abbrev pub send_keepalive : Writes → Bytes → Loop → Step
send_keepalive w [] s = running s
send_keepalive w (b ∷ frame) s = and_then (write_tls w (b ∷ frame) s) count_missed

unfoldable pub on_tick : Writes → Loop → Step
unfolding write_tls
on_tick w s =
    let (frame, framer) = encode_keepalive s.framer in
    send_keepalive w frame (record s { framer = framer })

-- How the draining of the TUN device ended.
pub data BatchEnd : Type 0 where
  pending eof : BatchEnd
  read_error : Message → BatchEnd

-- The reads that are ready, at most so many of them, framed behind one another.
unfoldable pub batch : TunnelFramer → ℕ → List ReadResult → Bytes → Bytes × BatchEnd
batch f zero ready out = (out, pending)
batch f (suc n) [] out = (out, pending)
batch f (suc n) (failed m ∷ ready) out = (out, read_error m)
batch f (suc n) (read [] ∷ ready) out = (out, eof)
batch f (suc n) (read (b ∷ p) ∷ ready) out = batch f n ready (encode_data_append f (b ∷ p) out)

abbrev pub after_batch : BatchEnd → Loop → Step
after_batch pending s = running s
after_batch eof s = exited (err eof_error) s
after_batch (read_error m) s = exited (err (io m)) s

unfoldable pub on_tun : Writes → ReadResult → List ReadResult → Loop → Step
unfolding write_tls batch
on_tun w (failed m) ready s = exited (err (io m)) s
on_tun w (read []) ready s = exited (err eof_error) s
on_tun w (read (b ∷ p)) ready s =
    let (out, end) =
      batch s.framer (max_tx_batch - 1) ready (encode_data_append s.framer (b ∷ p) []) in
    and_then (write_tls w out s) (after_batch end)

unfoldable pub handle : Writes → FrameEvent → Loop → Step
unfolding write_tls write_tun
handle w (payload packet) s = write_tun w packet s
handle w (reply bytes) s = write_tls w bytes s
handle w ignore s = running s
handle w (disconnected reason) s = exited (err (server_disconnect (verbatim reason))) s

-- What the inner loop does with a decoder's result; `more` is its next round.
abbrev pub on_decoded : Writes → (Loop → Step) → Result (Option FrameEvent) × Bytes → Loop → Step
on_decoded w more (ok (some e), rest) s =
    and_then (handle w e (record s { inbound = rest; missed = 0 })) more
on_decoded w more (ok none, rest) s = running (record s { inbound = rest })
on_decoded w more (err e, rest) s = exited (err e) (record s { inbound = rest })

-- The inner loop: decode frames and act on them until more bytes are needed.
unfoldable pub drain_loop : Writes → ℕ → Loop → Step
unfolding handle
drain_loop w zero s = running s
drain_loop w (suc fuel) s = on_decoded w (drain_loop w fuel) (try_decode s.framer s.inbound) s

-- A frame has a byte at least, so the length of the buffer bounds the rounds.
unfoldable pub on_tls : Writes → ReadResult → Loop → Step
unfolding drain_loop
on_tls w (failed m) s = exited (err (io m)) s
on_tls w (read []) s = exited (err eof_error) s
on_tls w (read (b ∷ chunk)) s =
    let buf = s.inbound ++ (b ∷ chunk) in
    drain_loop w (suc (length buf)) (record s { inbound = buf })

unfoldable pub step : Writes → Event → Loop → Step
unfolding on_shutdown on_tick on_tun on_tls
step w shutdown s = on_shutdown w s
step w tick s = on_tick w s
step w (tun_ready first ready) s = on_tun w first ready s
step w (tls_ready r) s = on_tls w r s

unfoldable pub run : Writes → List Event → Loop → Step
run w [] s = running s
run w (e ∷ events) s = and_then (step w e s) (λ s'. run w events s')

-- The loop starts with the bytes read past the handshake.
abbrev pub initial : TunnelFramer → Bytes → Loop
initial framer prime = record {
  framer = framer;
  inbound = prime;
  missed = 0;
  tls_out = [];
  tun_out = [];
}

-- Behind the loop the routes are removed, on every way out.
pub record Exit (os : Handle) : Type 0 where
  pub result : Result (Unit {0})
  pub last : Loop
  pub guard : RoutingGuard
  pub table : os.Table

module _ (os : Handle) (g : RoutingGuard) (t : os.Table) where
  abbrev pub teardown : Step → Option (Exit os)
  teardown (running s) = none
  teardown (exited r s) = some (record {
    result = r;
    last = s;
    guard = (remove_all os g t).0;
    table = (remove_all os g t).1;
  })

  -- `none` while the loop still waits for an event.
  unfoldable pub run_forwarding : Writes → TunnelFramer → Bytes → List Event → Option (Exit os)
  run_forwarding w framer prime events = teardown (run w events (initial framer prime))
