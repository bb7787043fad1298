-- ===== src/Helper.antt =====
-- crates/vpn-ipc/src/lib.rs and crates/vpn-helper/src/main.rs: the messages between the interface
-- and the elevated helper, and the helper's loop. What the loop does to the world is a list of
-- effects. The JSON of a line and the checks of the platform are parameters; a delay is in
-- milliseconds, and an error stands for its text.
pub mod Teardown
pub mod Socket
use yellow_vpn.Common.{
  ℕ, zero, suc, ◌+◌, ◌-◌, ◌*◌, ◌/◌, ◌%◌, ◌^◌, ◌≤◌, ◌<◌, String, ◌≡◌, refl, sym, ap, ◌∙◌, ◌≢◌, ◌↔◌,
  ◌⊎◌, inl, inr, Bool, true, false, not, ◌&&◌, ◌||◌, Option, none, some, List, [], ◌∷◌, ◌++◌, map,
  append-nil, append_assoc, arith, ltb, leb, ◌==◌, if◌then◌else◌, ltb→lt, ltb→le, lt→ltb, le→ltb,
  leb→le, ==_iff, ==_self, Bool-cases, Option-cases, length, get_or, take, drop, All, length-append,
  take-append-drop, length-take, length-drop, take-length_append, drop-length_append, take-append,
  drop-append, All-append, Bytes, IsByte, as_u8, as_u16, as_u32, be16, from_be16, be32, from_be32,
  from_be16-be16, from_be32-be32, as_bytes, from_utf8_lossy, IsScalar, from_utf8_lossy-as_bytes,
  codes,
}
use yellow_vpn.Common.Str.{trim, is_empty}
use yellow_vpn.Error.{
  ensure, ◌>>◌, Text, Message, format, verbatim, caused, plain, VpnError, config, privilege, tun,
  tun_unavailable, routing, tls, auth_failed, server_disconnect, io, not_implemented, is_permanent,
  Result, ok, err, ◌>>=◌, Result-cases,
}
use yellow_vpn.Config.{
  Protocol, any_connect, checkpoint, forti_gate, Config, parse_sha256_fingerprint,
}
use yellow_vpn.Client.{
  ClientEvent, connecting, established, disconnected, reconnecting, permanent_error,
}

pub data WireProtocol : Type 0 where
  wire_any_connect wire_checkpoint wire_forti_gate : WireProtocol

pub record WireConfig : Type 0 where
  pub host : Text
  pub port : ℕ
  pub username : Text
  pub protocol : WireProtocol
  pub cert_sha256 : Option Text
  pub insecure : Bool
  pub verbose : Bool
  pub realm : Option Text

pub data ClientCommand : Type 0 where
  connect : WireConfig → Text → ClientCommand
  disconnect shutdown : ClientCommand

pub data WireState : Type 0 where
  state_connecting state_established state_disconnected : WireState
  state_reconnecting : ℕ → WireState

pub data ClientMessage : Type 0 where
  state : WireState → ClientMessage
  error : VpnError → Bool → ClientMessage
  bye : ClientMessage

abbrev pub engine_protocol : WireProtocol → Protocol
engine_protocol wire_any_connect = any_connect
engine_protocol wire_checkpoint = checkpoint
engine_protocol wire_forti_gate = forti_gate

abbrev pub some_pin : Result Bytes → Result (Option Bytes)
some_pin (ok bs) = ok (some bs)
some_pin (err e) = err e

abbrev pub wire_pin : Option Text → Result (Option Bytes)
wire_pin none = ok none
wire_pin (some s) = if is_empty (trim s) then ok none else some_pin (parse_sha256_fingerprint s)

abbrev pub realm_or_default : Option Text → Text
realm_or_default none = []
realm_or_default (some r) = r

unfoldable pub config_from_wire : WireConfig → Text → Result Config
unfolding trim parse_sha256_fingerprint
config_from_wire w password = do
  pin ← wire_pin w.cert_sha256
  ok (record {
    host = w.host;
    port = w.port;
    username = w.username;
    password = some password;
    verbose = w.verbose;
    cert_sha256 = pin;
    insecure = w.insecure;
    protocol = engine_protocol w.protocol;
    realm = realm_or_default w.realm;
  })

unfoldable pub map_event : ClientEvent → ClientMessage
map_event connecting = state state_connecting
map_event established = state state_established
map_event (reconnecting delay) = state (state_reconnecting delay)
map_event disconnected = state state_disconnected
map_event (permanent_error e) = error e true

-- What the helper does. A running engine and its shutdown channel have the number of the connect
-- that started them.
pub data Effect : Type 0 where
  send : ClientMessage → Effect
  signal_shutdown await_engine : ℕ → Effect
  spawn : ℕ → Config → Effect

pub record Session : Type 0 where
  pub shutdown_handle : Option ℕ
  pub engine : Option ℕ

abbrev pub no_session : Session
no_session = record { shutdown_handle = none; engine = none }

abbrev pub signal_taken : Option ℕ → List Effect
signal_taken none = []
signal_taken (some id) = signal_shutdown id ∷ []

abbrev pub await_taken : Option ℕ → List Effect
await_taken none = []
await_taken (some id) = await_engine id ∷ []

-- `Session::stop`: both handles are taken.
unfoldable pub stop : Session → List Effect × Session
stop s = (signal_taken s.shutdown_handle ++ await_taken s.engine, no_session)

-- What the two checks of the platform answer.
pub record Checks : Type 0 where
  pub privileges : Result (Unit {0})
  pub tun_availability : Result (Unit {0})

abbrev pub start : Result (Unit {0}) → ℕ → Config → List Effect × Session
start (err e) id cfg = (send (error e true) ∷ [], no_session)
start (ok u) id cfg = (spawn id cfg ∷ [], record { shutdown_handle = some id; engine = some id })

abbrev pub handle_connect : Session → Checks → ℕ → Config → List Effect × Session
handle_connect s checks id cfg =
    let (stopping, stopped) = stop s in
    let (starting, started) = start (checks.privileges >> checks.tun_availability) id cfg in
    (stopping ++ starting, started)

-- A line with what the platform answers while it is handled, the end, or an error.
pub data Incoming : Type 0 where
  line : Text → Checks → Incoming
  eof read_error : Incoming

-- Whether the loop goes on, and with which session.
pub data Next : Type 0 where
  continue : Session → Next
  leave : Next

abbrev pub going_on : List Effect × Session → List Effect × Next
going_on (effects, s) = (effects, continue s)

abbrev pub leaving : List Effect × Session → List Effect → List Effect × Next
leaving (effects, s) more = (effects ++ more, leave)

abbrev pub on_config : Result Config → Session → Checks → ℕ → List Effect × Next
on_config (ok cfg) s checks id = going_on (handle_connect s checks id cfg)
on_config (err e) s checks id = (send (error e true) ∷ [], continue s)

abbrev pub on_command : Option ClientCommand → Session → Checks → ℕ → List Effect × Next
on_command none s checks id = ([], continue s)
on_command (some (connect wire password)) s checks id =
    on_config (config_from_wire wire password) s checks id
on_command (some disconnect) s checks id = going_on (stop s)
on_command (some shutdown) s checks id = leaving (stop s) (send bye ∷ [])

abbrev pub then_serve : List Effect × Next → (Session → List Effect × Bool) → List Effect × Bool
then_serve (effects, leave) more = (effects, true)
then_serve (effects, continue s) more = let (later, over) = more s in (effects ++ later, over)

-- `from_str` is serde's parser of a line.
module _ (from_str : Text → Option ClientCommand) where
  -- One round of the loop; the number is the next connect's.
  unfoldable pub serve_line : Incoming → Session → ℕ → List Effect × Next
  unfolding stop config_from_wire
  serve_line (line text checks) s id = on_command (from_str text) s checks id
  serve_line eof s id = leaving (stop s) []
  serve_line read_error s id = leaving (stop s) []

  -- The effects, and whether the loop has ended; without another line it waits.
  unfoldable pub serve_from : List Incoming → Session → ℕ → List Effect × Bool
  unfolding serve_line
  serve_from [] s id = ([], false)
  serve_from (i ∷ inputs) s id =
      then_serve (serve_line i s id) (λ s'. serve_from inputs s' (id + 1))

  unfoldable pub serve : List Incoming → List Effect × Bool
  unfolding serve_from
  serve inputs = serve_from inputs no_session 0
