-- ===== src/Helper/Teardown.antt =====
-- crates/vpn-helper/src/main.rs: the tunnels that the helper's loop leaves up.
use yellow_vpn.Common.{
  ℕ, zero, suc, ◌+◌, ◌≤◌, ◌≡◌, refl, sym, ap, ◌∙◌, Bool, true, false, Option, none, some, List, [],
  ◌∷◌, ◌++◌, append-nil, arith, ◌==◌, if◌then◌else◌, ==_self, length, take,
}
use yellow_vpn.Error.{◌>>◌, Text, Result, ok, err}
use yellow_vpn.Config.{Config}
use yellow_vpn.Helper.{
  ClientCommand, connect, disconnect, shutdown, bye, config_from_wire, Effect, send,
  signal_shutdown, spawn, Session, no_session, stop, Checks, start, Incoming, line, eof, read_error,
  Next, continue, leave, going_on, leaving, on_config, on_command, serve_line, then_serve,
  serve_from, serve,
}

abbrev pub Engines : Type 0
Engines = List (ℕ × Config)

-- The engines without the one that was told to stop.
unfoldable pub told : ℕ → Engines → Engines
told id [] = []
told id (e ∷ es) = let rest = told id es in if e.0 == id then rest else e ∷ rest

abbrev pub apply : Effect → Engines → Engines
apply (spawn id cfg) es = (id, cfg) ∷ es
apply (signal_shutdown id) es = told id es
apply _ es = es

-- The engines that were started and not yet told to stop.
unfoldable pub running : List Effect → Engines → Engines
unfolding told
running [] es = es
running (e ∷ effects) es = running effects (apply e es)

-- What a line asks for: no tunnel, or one with a configuration.
abbrev pub granted : Result (Unit {0}) → Config → Option Config
granted (ok u) cfg = some cfg
granted (err e) cfg = none

abbrev pub asked : Result Config → Checks → Option Config → Option Config
asked (ok cfg) checks wanted = granted (checks.privileges >> checks.tun_availability) cfg
asked (err e) checks wanted = wanted

abbrev pub ordered : Option ClientCommand → Checks → Option Config → Option Config
ordered none checks wanted = wanted
ordered (some (connect wire password)) checks wanted =
    asked (config_from_wire wire password) checks wanted
ordered (some _) checks wanted = none

abbrev pub is_shutdown : Option ClientCommand → Bool
is_shutdown (some shutdown) = true
is_shutdown _ = false

running-append :
    (xs ys : List Effect) (es : Engines) → running (xs ++ ys) es ≡ running ys (running xs es)
unfolding running
running-append [] ys es = refl
running-append (x ∷ xs) ys es = running-append xs ys (apply x es)

told_self : (id : ℕ) (cfg : Config) → told id ((id, cfg) ∷ []) ≡ []
unfolding told
told_self id cfg = rw (==_self id) refl

-- At each moment one engine at most is running.
abbrev Single : List Effect → Engines → Type 0
Single [] es = length es ≤ 1
Single (e ∷ effects) es = (length es ≤ 1) × Single effects (apply e es)

Single-append :
    (xs ys : List Effect) (es : Engines)
    → Single xs es
    → Single ys (running xs es)
    → Single (xs ++ ys) es
unfolding running
Single-append [] ys es h g = g
Single-append (x ∷ xs) ys es h g = (h.0, Single-append xs ys (apply x es) h.1 g)

Single-take :
    (n : ℕ) (xs : List Effect) (es : Engines) → Single xs es → length (running (take n xs) es) ≤ 1
unfolding running
Single-take zero [] es h = h
Single-take (suc n) [] es h = h
Single-take zero (x ∷ xs) es h = h.0
Single-take (suc n) (x ∷ xs) es h = Single-take n xs (apply x es) h.1

-- The session's handles are those of the engine that is running, and it is the one asked for.
data Holds : Session → Engines → Option Config → Type 0 where
  idle : Holds no_session [] none
  up :
      (id : ℕ) (cfg : Config)
      → Holds (record { shutdown_handle = some id; engine = some id }) ((id, cfg) ∷ []) (some cfg)

Holds-length : {s : Session} {es : Engines} {w : Option Config} → Holds s es w → length es ≤ 1
Holds-length idle = omega arith
Holds-length (up id cfg) = omega arith

stop-running :
    {s : Session} {es : Engines} {w : Option Config} → Holds s es w → running (stop s).0 es ≡ []
unfolding stop running
stop-running idle = refl
stop-running (up id cfg) = rw (told_self id cfg) refl

stop-Single : {s : Session} {es : Engines} {w : Option Config} → Holds s es w → Single (stop s).0 es
unfolding stop
stop-Single idle = omega arith
stop-Single (up id cfg) = rw (told_self id cfg) (omega arith, (omega arith, omega arith))

stop-Holds :
    {s : Session} {es : Engines} {w : Option Config}
    → Holds s es w
    → Holds (stop s).1 (running (stop s).0 es) none
unfolding stop
stop-Holds h = rw (stop-running h) idle

-- What a round of the loop keeps.
abbrev Kept : List Effect × Next → Engines → Option Config → Bool → Type 0
Kept (effects, continue s) es w over =
    Single effects es × (Holds s (running effects es) w × (over ≡ false))
Kept (effects, leave) es w over = Single effects es × ((running effects es ≡ []) × (over ≡ true))

start-Kept :
    (r : Result (Unit {0})) (id : ℕ) (cfg : Config)
    → Kept (going_on (start r id cfg)) [] (granted r cfg) false
unfolding running
start-Kept (ok u) id cfg = ((omega arith, omega arith), (up id cfg, refl))
start-Kept (err e) id cfg = ((omega arith, omega arith), (idle, refl))

-- Effects behind those that stop what was running.
behind-stop :
    {s : Session} {es : Engines} {w : Option Config} (later : List Effect × Session)
    {w' : Option Config}
    → Holds s es w
    → Kept (going_on later) [] w' false
    → Kept (going_on ((stop s).0 ++ later.0, later.1)) es w' false
behind-stop {s} {es} (effects, s') {w'} h kept = (
  Single-append (stop s).0 effects es (stop-Single h) (rw (stop-running h) kept.0),
  (rw (running-append (stop s).0 effects es, stop-running h) kept.1.0, refl),
)

leaving-Kept :
    {s : Session} {es : Engines} {w : Option Config}
    → Holds s es w
    → Kept (leaving (stop s) []) es none true
leaving-Kept {s} {es} h = rw (append-nil (stop s).0) (stop-Single h, (stop-running h, refl))

bye-Kept :
    {s : Session} {es : Engines} {w : Option Config}
    → Holds s es w
    → Kept (leaving (stop s) (send bye ∷ [])) es none true
unfolding running
bye-Kept {s} {es} h = (
  Single-append (stop s).0 (send bye ∷ []) es (stop-Single h)
      (rw (stop-running h) (omega arith, omega arith)),
  (rw (running-append (stop s).0 (send bye ∷ []) es, stop-running h) refl, refl),
)

on_config-Kept :
    (r : Result Config) {s : Session} {es : Engines} {w : Option Config} (checks : Checks) (id : ℕ)
    → Holds s es w
    → Kept (on_config r s checks id) es (asked r checks w) false
unfolding running
on_config-Kept (ok cfg) checks id h =
    behind-stop (start (checks.privileges >> checks.tun_availability) id cfg) h
      (start-Kept (checks.privileges >> checks.tun_availability) id cfg)
on_config-Kept (err e) checks id h = ((Holds-length h, Holds-length h), (h, refl))

on_command-Kept :
    (c : Option ClientCommand) {s : Session} {es : Engines} {w : Option Config} (checks : Checks)
    (id : ℕ)
    → Holds s es w
    → Kept (on_command c s checks id) es (ordered c checks w) (is_shutdown c)
unfolding running
on_command-Kept none checks id h = (Holds-length h, (h, refl))
on_command-Kept (some (connect wire password)) checks id h =
    on_config-Kept (config_from_wire wire password) checks id h
on_command-Kept (some disconnect) {s} {es} checks id h = (stop-Single h, (stop-Holds h, refl))
on_command-Kept (some shutdown) checks id h = bye-Kept h

abbrev pub listed : Option Config → List Config
listed none = []
listed (some cfg) = cfg ∷ []

abbrev pub configs : Engines → List Config
configs [] = []
configs (e ∷ es) = e.1 ∷ configs es

Holds-configs :
    {s : Session} {es : Engines} {w : Option Config} → Holds s es w → configs es ≡ listed w
Holds-configs idle = refl
Holds-configs (up id cfg) = refl

-- What the loop did, next to what was wanted of it.
abbrev Meets : List Effect × Bool → Engines → Option Config × Bool → Type 0
Meets did es want =
    Single did.0 es × ((configs (running did.0 es) ≡ listed want.0) × (did.1 ≡ want.1))

then_serve-Meets :
    (round : List Effect × Next) (es : Engines) (w : Option Config) (over : Bool)
    (more : Session → List Effect × Bool) (later : Option Config × Bool)
    → Kept round es w over
    → ((s : Session) (es' : Engines) → Holds s es' w → Meets (more s) es' later)
    → Meets (then_serve round more) es (if over then (none, true) else later)
then_serve-Meets (effects, leave) es w over more later kept go =
    rw kept.1.1 (kept.0, (rw kept.1.0 refl, refl))
then_serve-Meets (effects, continue s) es w over more later kept go =
    let meets = go s (running effects es) kept.1.0 in
    rw (kept.1.1, running-append effects (more s).0 es)
      (Single-append effects (more s).0 es kept.0 meets.0, (meets.1.0, meets.1.1))

ended_or :
    (over : Bool) (later : Option Config × Bool)
    → (later.1 ≡ true → later.0 ≡ none)
    → (if over then (none, true) else later).1 ≡ true
    → (if over then (none, true) else later).0 ≡ none
ended_or true later go h = refl
ended_or false later go h = go h

module _ (from_str : Text → Option ClientCommand) where
  abbrev pub ordered_by : Incoming → Option Config → Option Config
  ordered_by (line text checks) w = ordered (from_str text) checks w
  ordered_by _ w = none

  abbrev pub ends : Incoming → Bool
  ends (line text checks) = is_shutdown (from_str text)
  ends _ = true

  -- The controller that the loop implements: the tunnel that the inputs ask for, and whether one
  -- of them ends the loop.
  abbrev pub wanted : List Incoming → Option Config → Option Config × Bool
  wanted [] w = (w, false)
  wanted (i ∷ inputs) w =
      let later = wanted inputs (ordered_by i w) in if ends i then (none, true) else later

  serve_line-Kept :
      (i : Incoming) {s : Session} {es : Engines} {w : Option Config} (id : ℕ)
      → Holds s es w
      → Kept (serve_line from_str i s id) es (ordered_by i w) (ends i)
  unfolding serve_line
  serve_line-Kept (line text checks) id h = on_command-Kept (from_str text) checks id h
  serve_line-Kept eof id h = leaving-Kept h
  serve_line-Kept read_error id h = leaving-Kept h

  serve_from-Meets :
      (inputs : List Incoming) {s : Session} {es : Engines} {w : Option Config} (id : ℕ)
      → Holds s es w
      → Meets (serve_from from_str inputs s id) es (wanted inputs w)
  unfolding serve_from running
  serve_from-Meets [] id h = (Holds-length h, (Holds-configs h, refl))
  serve_from-Meets (i ∷ inputs) {s} {es} {w} id h =
      then_serve-Meets (serve_line from_str i s id) es (ordered_by i w) (ends i)
        (λ s'. serve_from from_str inputs s' (id + 1)) (wanted inputs (ordered_by i w))
        (serve_line-Kept i id h) (λ s' es' h'. serve_from-Meets inputs (id + 1) h')

  -- The loop implements the controller: whatever the lines and the checks of the platform answer,
  -- the engines that were started and not told to stop are those of the configuration wanted last,
  -- and the loop ends where the controller does.
  pub running-serve :
      (inputs : List Incoming)
      → (configs (running (serve from_str inputs).0 []) ≡ listed (wanted inputs none).0)
        × ((serve from_str inputs).1 ≡ (wanted inputs none).1)
  unfolding serve
  running-serve inputs = (serve_from-Meets inputs 0 idle).1

  -- At each moment, between any two effects, one engine at most is running.
  pub length-running-take :
      (inputs : List Incoming) (n : ℕ) → length (running (take n (serve from_str inputs).0) []) ≤ 1
  unfolding serve
  length-running-take inputs n =
      Single-take n (serve_from from_str inputs no_session 0).0 []
        (serve_from-Meets inputs 0 idle).0

  wanted-ended :
      (inputs : List Incoming) (w : Option Config)
      → (wanted inputs w).1 ≡ true
      → (wanted inputs w).0 ≡ none
  wanted-ended [] w h = ground arith
  wanted-ended (i ∷ inputs) w h =
      ended_or (ends i) (wanted inputs (ordered_by i w)) (wanted-ended inputs (ordered_by i w)) h

  -- Where the loop has ended, by a shutdown, the end of the input or an error of it, each engine
  -- that was started has been told to stop.
  pub serve-ended :
      (inputs : List Incoming)
      → (serve from_str inputs).1 ≡ true
      → configs (running (serve from_str inputs).0 []) ≡ []
  serve-ended inputs over =
      (running-serve inputs).0
      ∙ ap listed (wanted-ended inputs none (sym (running-serve inputs).1 ∙ over))
