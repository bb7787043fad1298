-- ===== src/Client.antt =====
-- crates/vpn-engine/src/client.rs: one connection attempt by each protocol, the backoff schedule,
-- and the supervised reconnect loop. The stages that run over the network are arguments: what
-- each of them answers in an attempt. Log lines are left out.
pub mod Schedule
pub mod Attempt
use yellow_vpn.Ipv4.{Subnet}
use yellow_vpn.Common.{
  ℕ, zero, suc, ◌+◌, ◌-◌, ◌*◌, ◌/◌, ◌%◌, ◌^◌, ◌≤◌, ◌<◌, String, ◌≡◌, refl, sym, ap, ◌∙◌, ◌≢◌, ◌↔◌,
  ◌⊎◌, inl, inr, Bool, true, false, not, ◌&&◌, ◌||◌, Option, none, some, List, [], ◌∷◌, ◌++◌, map,
  append-nil, append_assoc, arith, ltb, leb, ◌==◌, if◌then◌else◌, ltb→lt, ltb→le, lt→ltb, le→ltb,
  leb→le, ==_iff, ==_self, Bool-cases, Option-cases, length, get_or, take, drop, All, length-append,
  take-append-drop, length-take, length-drop, take-length_append, drop-length_append, take-append,
  drop-append, All-append, Bytes, IsByte, as_u8, as_u16, as_u32, be16, from_be16, be32, from_be32,
  from_be16-be16, from_be32-be32, as_bytes, from_utf8_lossy, IsScalar, from_utf8_lossy-as_bytes,
  codes,
}
use yellow_vpn.Error.{
  ensure, ◌>>◌, Text, Message, format, verbatim, caused, plain, VpnError, config, privilege,
  tun_unavailable, routing, protocol, auth_failed, server_disconnect, io, not_implemented,
  is_permanent, Result, ok, err, ◌>>=◌, Result-cases,
}
use yellow_vpn.Routing.{vpn_routes}

pub data ClientEvent : Type 0 where
  connecting established disconnected : ClientEvent
  reconnecting : ℕ → ClientEvent
  permanent_error : VpnError → ClientEvent

abbrev pub base_delay_ms : ℕ
base_delay_ms = 1_000

abbrev pub max_delay_ms : ℕ
max_delay_ms = 60_000

abbrev pub min_sustained_session : ℕ
min_sustained_session = 30_000

unfoldable pub min : ℕ → ℕ → ℕ
min m n = if leb m n then m else n

abbrev pub u32_max : ℕ
u32_max = 4_294_967_295

abbrev pub u64_max : ℕ
u64_max = 18_446_744_073_709_551_615

-- `saturating_pow`, `saturating_mul`, `min`.
unfoldable pub backoff_base_ms : ℕ → ℕ
unfolding min
backoff_base_ms attempt =
    let factor = min (2 ^ attempt) u64_max in
    min (min (base_delay_ms * factor) u64_max) max_delay_ms

pub data CertTrust : Type 0 where
  pinned : Bytes → CertTrust
  insecure webpki : CertTrust

unfoldable pub cert_trust : Option Bytes → Bool → CertTrust
cert_trust (some pin) allowed = pinned pin
cert_trust none allowed = if allowed then insecure else webpki

-- What `open_tun` and `if_index`, `install_routes` and `run_forwarding` answer.
pub record Pipeline : Type 0 where
  pub tun : Result ℕ
  pub install : ℕ → List Subnet → Result (Unit {0})
  pub forwarding : Result (Unit {0})

-- An attempt's result, whether it reached the forwarding loop, the events that it sent, and the
-- sessions that it signed out.
pub record Outcome : Type 0 where
  pub result : Result (Unit {0})
  pub reached : Bool
  pub events : List ClientEvent
  pub signed_out : List Bytes

abbrev pub failed : VpnError → Outcome
failed e = record { result = err e; reached = false; events = []; signed_out = [] }

abbrev pub or_fail : {A : Type 0} → Result A → (A → Outcome) → Outcome
or_fail (ok a) f = f a
or_fail (err e) f = failed e

unfoldable pub run_pipeline : Pipeline → List Subnet → Outcome
run_pipeline p routes = or_fail p.tun (λ ifindex. or_fail (p.install ifindex routes) (λ u. record {
  result = p.forwarding;
  reached = true;
  events = established ∷ [];
  signed_out = [];
}))

-- The gateway's routes, or the default ones where it sent none.
unfoldable pub routes_or_default : List Subnet → List Subnet
unfolding vpn_routes
routes_or_default [] = vpn_routes
routes_or_default (r ∷ routes) = r ∷ routes

-- `connect_tls`, `authenticate`, `cstp_connect`.
pub record AnyConnect : Type 0 where
  pub tls : Result (Unit {0})
  pub cookie : Result Bytes
  pub session : Result (Unit {0})
  pub pipeline : Pipeline

unfoldable pub connect_anyconnect : AnyConnect → Outcome
unfolding run_pipeline vpn_routes
connect_anyconnect c =
    or_fail c.tls (λ u.
      or_fail c.cookie (λ cookie. or_fail c.session (λ s. run_pipeline c.pipeline vpn_routes)))

pub record CccSession : Type 0 where
  pub session_id : Bytes
  pub active_key : Result Bytes

-- `authenticate_checkpoint`, `connect_tls`, `establish_session` with the routes of its reply.
pub record CheckPoint : Type 0 where
  pub ccc : Result CccSession
  pub tls : Result (Unit {0})
  pub session : Result (List Subnet)
  pub pipeline : Pipeline

unfoldable pub connect_checkpoint_tunnel : CheckPoint → Outcome
unfolding run_pipeline routes_or_default
connect_checkpoint_tunnel c =
    or_fail c.tls
      (λ u. or_fail c.session (λ routes. run_pipeline c.pipeline (routes_or_default routes)))

-- The sign-out is best effort: what it answers does not matter.
abbrev pub sign_out : Bytes → Outcome → Outcome
sign_out [] o = o
sign_out (b ∷ id) o = record o { signed_out = (b ∷ id) ∷ [] }

unfoldable pub connect_checkpoint : CheckPoint → Outcome
unfolding connect_checkpoint_tunnel
connect_checkpoint c = or_fail c.ccc (λ ccc.
    or_fail ccc.active_key (λ cookie. sign_out ccc.session_id (connect_checkpoint_tunnel c)))

-- `authenticate_on`, `fetch_config_on` with its routes, `open_tunnel`.
pub record FortiGate : Type 0 where
  pub cookie : Result Bytes
  pub routes : Result (List Subnet)
  pub tunnel : Result (Unit {0})
  pub pipeline : Pipeline

unfoldable pub connect_fortigate : FortiGate → Outcome
unfolding run_pipeline routes_or_default
connect_fortigate c = or_fail c.cookie (λ cookie.
    or_fail c.routes
      (λ routes. or_fail c.tunnel (λ u. run_pipeline c.pipeline (routes_or_default routes))))

pub data Connection : Type 0 where
  any_connect : AnyConnect → Connection
  checkpoint : CheckPoint → Connection
  forti_gate : FortiGate → Connection

unfoldable pub connect : Connection → Outcome
unfolding connect_anyconnect connect_checkpoint connect_fortigate
connect (any_connect c) = connect_anyconnect c
connect (checkpoint c) = connect_checkpoint c
connect (forti_gate c) = connect_fortigate c

-- One turn of the reconnect loop: the shutdown flag at its top, the connection, how long it took
-- in milliseconds, the flag behind it, the wall clock that the jitter reads, and whether a
-- shutdown came before the delay was over.
pub record Turn : Type 0 where
  pub stop_before : Bool
  pub connection : Connection
  pub lasted : ℕ
  pub stop_after : Bool
  pub clock : ℕ
  pub interrupted : Bool

-- The events sent, and the result once the loop ended.
pub record Run : Type 0 where
  pub sent : List ClientEvent
  pub over : Option (Result (Unit {0}))

abbrev pub emit : List ClientEvent → Run → Run
emit events r = record { sent = events ++ r.sent; over = r.over }

abbrev pub ended : ClientEvent → Result (Unit {0}) → Run
ended e r = record { sent = e ∷ []; over = some r }

-- The schedule starts anew behind a session that was sustained.
abbrev pub next_attempt : Turn → Outcome → ℕ → ℕ
next_attempt t o attempt = if o.reached && leb min_sustained_session t.lasted then 0 else attempt

-- `jitter` is the arithmetic on `f64` that scales a delay by a fraction the clock chooses.
module _ (jitter : ℕ → ℕ → ℕ) where
  abbrev pub wait_and_retry : Bool → Run → Run
  wait_and_retry true more = ended disconnected (ok tt)
  wait_and_retry false more = more

  abbrev pub on_transient : Bool → Turn → ℕ → (ℕ → Run) → Run
  on_transient true t n more = ended disconnected (ok tt)
  on_transient false t n more =
      emit (reconnecting (jitter (backoff_base_ms n) t.clock) ∷ [])
        (wait_and_retry t.interrupted (more (min (n + 1) u32_max)))

  abbrev pub on_error : Bool → VpnError → Turn → ℕ → (ℕ → Run) → Run
  on_error true e t n more = ended (permanent_error e) (err e)
  on_error false e t n more = on_transient t.stop_after t n more

  abbrev pub on_result : Result (Unit {0}) → Turn → ℕ → (ℕ → Run) → Run
  on_result (ok u) t n more = ended disconnected (ok tt)
  on_result (err e) t n more = on_error (is_permanent e) e t n more

  abbrev pub on_turn : Bool → Turn → Outcome → ℕ → (ℕ → Run) → Run
  on_turn true t o attempt more = ended disconnected (ok tt)
  on_turn false t o attempt more =
      emit (connecting ∷ o.events) (on_result o.result t (next_attempt t o attempt) more)

  unfoldable pub supervise : ℕ → List Turn → Run
  unfolding connect
  supervise attempt [] = record { sent = []; over = none }
  supervise attempt (t ∷ turns) =
      on_turn t.stop_before t (connect t.connection) attempt (λ n. supervise n turns)

  unfoldable pub run_client_supervised : List Turn → Run
  unfolding supervise
  run_client_supervised turns = supervise 0 turns
