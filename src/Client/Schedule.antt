-- ===== src/Client/Schedule.antt =====
-- crates/vpn-engine/src/client.rs: the delays of the reconnect loop, and how it ends.
use yellow_vpn.Common.{
  ℕ, ◌+◌, ◌*◌, ◌^◌, ◌≤◌, ◌<◌, ◌≡◌, refl, ap, Bool, true, false, ◌&&◌, Option, none, some, List, [],
  ◌∷◌, ◌++◌, append_assoc, arith, leb, length, All, Bytes,
}
use yellow_vpn.Error.{VpnError, is_permanent, Result, ok, err}
use yellow_vpn.Ipv4.{Subnet}
use yellow_vpn.Client.{
  or_fail, Pipeline, run_pipeline, connect_anyconnect, connect_checkpoint,
  connect_checkpoint_tunnel, connect_fortigate, sign_out, Connection, any_connect, checkpoint,
  forti_gate, ClientEvent, connecting, established, disconnected, reconnecting, permanent_error,
  min, u32_max, u64_max, backoff_base_ms, Outcome, Turn, Run, connect, supervise,
  run_client_supervised, emit, ended, on_turn, on_result, on_error, on_transient, wait_and_retry,
  next_attempt,
}

min-left : (m n : ℕ) → m ≤ n → min m n ≡ m
unfolding min
min-left m n small = ground arith

-- The delay before jitter doubles from a second, and stays at a minute from then on: no attempt
-- number makes the saturating arithmetic answer anything else.
pub backoff_base_ms-doubles : (n : ℕ) → backoff_base_ms n ≡ min (1000 * 2 ^ n) 60_000
unfolding backoff_base_ms min
backoff_base_ms-doubles n = go (2 ^ n)
  where
    go : (x : ℕ) → min (min (1000 * min x u64_max) u64_max) 60_000 ≡ min (1000 * x) 60_000
    go x = ground arith

-- An attempt that fails for a passing reason, without a session that was sustained or a shutdown.
pub record FailsFast (t : Turn) : Type 0 where
  pub goes_on : t.stop_before ≡ false
  pub error : VpnError
  pub fails : (connect t.connection).result ≡ err error
  pub passing : is_permanent error ≡ false
  pub not_sustained : ((connect t.connection).reached && leb 30_000 t.lasted) ≡ false
  pub no_stop : t.stop_after ≡ false
  pub slept : t.interrupted ≡ false

-- The delays among the events.
unfoldable pub delays : List ClientEvent → List ℕ
delays [] = []
delays (connecting ∷ es) = delays es
delays (established ∷ es) = delays es
delays (disconnected ∷ es) = delays es
delays (reconnecting d ∷ es) = d ∷ delays es
delays (permanent_error e ∷ es) = delays es

module _ (jitter : ℕ → ℕ → ℕ) where
  -- The jittered delays of failures in a row.
  unfoldable pub schedule : ℕ → List Turn → List ℕ
  schedule n [] = []
  schedule n (t ∷ turns) = jitter (min (1000 * 2 ^ n) 60_000) t.clock ∷ schedule (n + 1) turns

delays-append : (es fs : List ClientEvent) → delays (es ++ fs) ≡ delays es ++ delays fs
unfolding delays
delays-append [] fs = refl
delays-append (connecting ∷ es) fs = delays-append es fs
delays-append (established ∷ es) fs = delays-append es fs
delays-append (disconnected ∷ es) fs = delays-append es fs
delays-append (reconnecting d ∷ es) fs = ap (λ ds. d ∷ ds) (delays-append es fs)
delays-append (permanent_error e ∷ es) fs = delays-append es fs

-- A connection itself waits for nothing.
IsQuiet : Outcome → Type 0
IsQuiet o = delays o.events ≡ []

or_fail-IsQuiet :
    {A : Type 0} (m : Result A) (f : A → Outcome)
    → ((a : A) → IsQuiet (f a))
    → IsQuiet (or_fail m f)
unfolding IsQuiet delays
or_fail-IsQuiet (ok a) f q = q a
or_fail-IsQuiet (err e) f q = refl

run_pipeline-IsQuiet : (p : Pipeline) (routes : List Subnet) → IsQuiet (run_pipeline p routes)
unfolding run_pipeline IsQuiet delays
run_pipeline-IsQuiet p routes =
    or_fail-IsQuiet p.tun _ (λ i. or_fail-IsQuiet (p.install i routes) _ (λ u. refl))

sign_out-IsQuiet : (id : Bytes) (o : Outcome) → IsQuiet o → IsQuiet (sign_out id o)
unfolding IsQuiet
sign_out-IsQuiet [] o q = q
sign_out-IsQuiet (b ∷ id) o q = q

connect-IsQuiet : (c : Connection) → IsQuiet (connect c)
unfolding connect connect_anyconnect connect_checkpoint connect_checkpoint_tunnel connect_fortigate
connect-IsQuiet (any_connect c) = or_fail-IsQuiet c.tls _ (λ u.
    or_fail-IsQuiet c.cookie _
      (λ k. or_fail-IsQuiet c.session _ (λ s. run_pipeline-IsQuiet c.pipeline _)))
connect-IsQuiet (checkpoint c) = or_fail-IsQuiet c.ccc _ (λ ccc.
    or_fail-IsQuiet ccc.active_key _ (λ k. sign_out-IsQuiet ccc.session_id _ (
      or_fail-IsQuiet c.tls _
        (λ u. or_fail-IsQuiet c.session _ (λ s. run_pipeline-IsQuiet c.pipeline _)))))
connect-IsQuiet (forti_gate c) = or_fail-IsQuiet c.cookie _ (λ k.
    or_fail-IsQuiet c.routes _
      (λ r. or_fail-IsQuiet c.tunnel _ (λ u. run_pipeline-IsQuiet c.pipeline _)))

module _ (jitter : ℕ → ℕ → ℕ) where
  supervise-FailsFast :
      (n : ℕ) (t : Turn) (turns : List Turn)
      → FailsFast t
      → n < u32_max
      → supervise jitter n (t ∷ turns)
        ≡ emit (connecting ∷ (connect t.connection).events) (
            emit
              (reconnecting (jitter (backoff_base_ms n) t.clock) ∷ [])
              (supervise jitter (n + 1) turns))
  unfolding supervise
  supervise-FailsFast n t turns h small =
      rw
        (
          h.goes_on,
          h.fails,
          h.passing,
          h.not_sustained,
          h.no_stop,
          h.slept,
          min-left (n + 1) u32_max (omega arith),
        )
        refl

  -- While each connection fails for a passing reason without a sustained session, and no shutdown
  -- comes, the reconnect loop waits the jittered delays of 1 s, 2 s, 4 s, … up to 60 s, one behind
  -- each failure, and goes on.
  pub run_client_supervised-schedule :
      (turns : List Turn)
      → length turns ≤ u32_max
      → All FailsFast turns
      → ((delays (run_client_supervised jitter turns).sent ≡ schedule jitter 0 turns)
          × ((run_client_supervised jitter turns).over ≡ none))
  unfolding run_client_supervised supervise delays schedule IsQuiet
  run_client_supervised-schedule turns small fails = go 0 turns (omega arith) fails
    where
      go :
          (n : ℕ) (ts : List Turn)
          → n + length ts ≤ u32_max
          → All FailsFast ts
          → ((delays (supervise jitter n ts).sent ≡ schedule jitter n ts)
              × ((supervise jitter n ts).over ≡ none))
      go n [] small fs = (refl, refl)
      go n (t ∷ ts) small (f, fs) =
          let (same, none_) = go (n + 1) ts (omega arith) fs in
          rw
            (
              supervise-FailsFast n t ts f (omega arith),
              delays-append (connect t.connection).events (
                  reconnecting (jitter (backoff_base_ms n) t.clock)
                  ∷ (supervise jitter (n + 1) ts).sent),
              connect-IsQuiet t.connection,
              backoff_base_ms-doubles n,
              same,
            )
            (refl, none_)

abbrev Ends : List ClientEvent → Option (Result (Unit {0})) → Type 0
Ends es none = Unit
Ends es (some (ok u)) = (before : List ClientEvent) × (es ≡ before ++ (disconnected ∷ []))
Ends es (some (err e)) =
    (is_permanent e ≡ true)
    × ((before : List ClientEvent) × (es ≡ before ++ (permanent_error e ∷ [])))

-- Where the loop ended, its last event is that it disconnected if it answers `ok`, and else the
-- error that it answers, which is a permanent one.
abbrev pub Concluded : Run → Type 0
Concluded r = Ends r.sent r.over

emit-Concluded : (es : List ClientEvent) (r : Run) → Concluded r → Concluded (emit es r)
emit-Concluded es r k = go r.sent r.over k
  where
    go :
        (sent : List ClientEvent) (o : Option (Result (Unit {0})))
        → Ends sent o
        → Ends (es ++ sent) o
    go sent none h = tt
    go sent (some (ok u)) (before, same) =
        (es ++ before, rw (same, append_assoc es before (disconnected ∷ [])) refl)
    go sent (some (err e)) (permanent, (before, same)) =
        (permanent, (es ++ before, rw (same, append_assoc es before (permanent_error e ∷ [])) refl))

disconnected-Concluded : Concluded (ended disconnected (ok tt))
disconnected-Concluded = ([], refl)

on_turn-Concluded :
    (jitter : ℕ → ℕ → ℕ) (b : Bool) (t : Turn) (o : Outcome) (n : ℕ) (more : ℕ → Run)
    → ((m : ℕ) → Concluded (more m))
    → Concluded (on_turn jitter b t o n more)
on_turn-Concluded jitter true t o n more k = disconnected-Concluded
on_turn-Concluded jitter false t o n more k =
    emit-Concluded (connecting ∷ o.events) _ (result o.result)
  where
    waited : (b : Bool) (m : ℕ) → Concluded (wait_and_retry jitter b (more m))
    waited true m = disconnected-Concluded
    waited false m = k m

    transient : (b : Bool) (m : ℕ) → Concluded (on_transient jitter b t m more)
    transient true m = disconnected-Concluded
    transient false m =
        emit-Concluded (reconnecting (jitter (backoff_base_ms m) t.clock) ∷ [])
          (wait_and_retry jitter t.interrupted (more (min (m + 1) u32_max)))
          (waited t.interrupted (min (m + 1) u32_max))

    error :
        (b : Bool) (e : VpnError) (m : ℕ)
        → is_permanent e ≡ b
        → Concluded (on_error jitter b e t m more)
    error true e m p = (p, ([], refl))
    error false e m p = transient t.stop_after m

    result : (r : Result (Unit {0})) → Concluded (on_result jitter r t (next_attempt t o n) more)
    result (ok u) = disconnected-Concluded
    result (err e) = error (is_permanent e) e (next_attempt t o n) refl

-- However the connections go, the reconnect loop answers an error only where it is a permanent
-- one, with the event `PermanentError` of it as the last, and answers `ok` only with the event
-- `Disconnected` as the last.
pub run_client_supervised-Concluded :
    (jitter : ℕ → ℕ → ℕ) (turns : List Turn) → Concluded (run_client_supervised jitter turns)
unfolding run_client_supervised supervise
run_client_supervised-Concluded jitter turns = go 0 turns
  where
    go : (n : ℕ) (ts : List Turn) → Concluded (supervise jitter n ts)
    go n [] = tt
    go n (t ∷ ts) =
        on_turn-Concluded jitter t.stop_before t (connect t.connection) n
          (λ m. supervise jitter m ts) (λ m. go m ts)
