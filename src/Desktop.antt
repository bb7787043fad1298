-- ===== src/Desktop.antt =====
-- src-tauri/src/lib.rs: what the desktop application keeps about the tunnel, its commands, and the
-- task that relays the helper's messages. A connection to the helper is its number, and what the
-- application does is a list of effects. Each command is one step: two commands at once, which the
-- locks of the source would interleave, are left out. The pipe's answers are arguments.
pub mod Pipe
pub mod Talks
pub mod Once
pub mod Relay
use yellow_vpn.Common.{
  ℕ, zero, suc, ◌+◌, ◌-◌, ◌*◌, ◌/◌, ◌%◌, ◌^◌, ◌≤◌, ◌<◌, String, ◌≡◌, refl, sym, ap, ◌∙◌, ◌≢◌, ◌↔◌,
  ◌⊎◌, inl, inr, Bool, true, false, not, ◌&&◌, ◌||◌, Option, none, some, List, [], ◌∷◌, ◌++◌, map,
  append-nil, append_assoc, arith, ltb, leb, ◌==◌, if◌then◌else◌, ltb→lt, ltb→le, lt→ltb, le→ltb,
  leb→le, ==_iff, ==_self, Bool-cases, Option-cases, length, get_or, take, drop, All, length-append,
  take-append-drop, length-take, length-drop, take-length_append, drop-length_append, take-append,
  drop-append, All-append, Bytes, IsByte, as_u8, as_u16, as_u32, be16, from_be16, be32, from_be32,
  from_be16-be16, from_be32-be32, as_bytes, from_utf8_lossy, IsScalar, from_utf8_lossy-as_bytes,
  codes,
}
use yellow_vpn.Error.{
  Text, Message, format, verbatim, caused, plain, VpnError, privilege, tun, tun_unavailable,
  routing, tls, protocol, auth_failed, server_disconnect, io, not_implemented, is_permanent,
  to_string, Result, ok, err, ◌>>=◌, Result-cases,
}
use yellow_vpn.Helper.{
  WireConfig, ClientCommand, connect, disconnect, shutdown, WireState, state_connecting,
  state_established, state_reconnecting, state_disconnected, ClientMessage, state, error, bye,
}

pub record VpnState : Type 0 where
  pub writer : Option ℕ
  pub reader : Option ℕ
  pub status : WireState
  pub current_profile : Option Text

abbrev pub default_state : VpnState
default_state = record {
  writer = none;
  reader = none;
  status = state_disconnected;
  current_profile = none;
}

-- `write_failed` is a write to a connection that fails, `write_ignored` one whose error is dropped.
pub data Effect : Type 0 where
  opened reader_spawned reader_aborted write_failed write_ignored : ℕ → Effect
  sent : ℕ → ClientCommand → Effect
  notified : Text → Effect
  window_hidden : Effect
  emitted : ClientMessage → Effect
  exited : Effect

pub record ConnectArgs : Type 0 where
  pub config : WireConfig
  pub password : Text
  pub profile_name : Text

abbrev pub command_of : ConnectArgs → ClientCommand
command_of args = connect args.config args.password

-- What the pipe answers to a command: whether a write to the connection that is held succeeds,
-- `connect_with_spawn` with the number of the new connection, and the first write to that.
pub record PipeAnswers : Type 0 where
  pub held_write : Option Message
  pub connected : Option Message
  pub fresh : ℕ
  pub fresh_write : Option Message

-- The effects of a command, the state behind it, and its answer: none, or the error.
abbrev pub Outcome : Type 0
Outcome = List Effect × VpnState × Option Message

abbrev pub first_write : VpnState → ℕ → ClientCommand → Option Message → Outcome
first_write s n cmd (some m) = (opened n ∷ write_failed n ∷ [], s, some m)
first_write s n cmd none = (
  opened n ∷ sent n cmd ∷ reader_spawned n ∷ [],
  record s { writer = some n; reader = some n },
  none,
)

abbrev pub connect_fresh : VpnState → PipeAnswers → ClientCommand → Option Message → Outcome
connect_fresh s p cmd (some m) = ([], s, some m)
connect_fresh s p cmd none = first_write s p.fresh cmd p.fresh_write

abbrev pub abort_reader : Option ℕ → List Effect
abort_reader none = []
abort_reader (some r) = reader_aborted r ∷ []

abbrev pub behind : List Effect → Outcome → Outcome
behind effects o = (effects ++ o.0, o.1, o.2)

-- With a connection held, it is used again, or it is given up with its reader.
abbrev pub connect_held : VpnState → PipeAnswers → ClientCommand → ℕ → Option Message → Outcome
connect_held s p cmd w none = (sent w cmd ∷ [], record s { writer = some w }, none)
connect_held s p cmd w (some m) =
    behind (write_failed w ∷ abort_reader s.reader)
      (connect_fresh (record s { writer = none; reader = none }) p cmd p.connected)

abbrev pub connect_with : VpnState → PipeAnswers → ClientCommand → Option ℕ → Outcome
connect_with s p cmd none = connect_fresh s p cmd p.connected
connect_with s p cmd (some w) = connect_held s p cmd w p.held_write

unfoldable pub vpn_connect : VpnState → PipeAnswers → ConnectArgs → Outcome
vpn_connect s p args =
    connect_with (record s { current_profile = some args.profile_name }) p (command_of args)
      s.writer

abbrev pub disconnect_held : VpnState → ℕ → Option Message → Outcome
disconnect_held s w none = (sent w disconnect ∷ [], record s { writer = some w }, none)
disconnect_held s w (some m) = (write_failed w ∷ [], record s { writer = none }, some m)

abbrev pub disconnect_with : VpnState → PipeAnswers → Option ℕ → Outcome
disconnect_with s p none = ([], s, none)
disconnect_with s p (some w) = disconnect_held s w p.held_write

unfoldable pub vpn_disconnect : VpnState → PipeAnswers → Outcome
vpn_disconnect s p = disconnect_with s p s.writer

abbrev pub sent_unless : Option Message → ℕ → ClientCommand → List Effect
sent_unless none w cmd = sent w cmd ∷ []
sent_unless (some m) w cmd = write_ignored w ∷ []

-- The item "Disconnect" of the tray: the writer is put back whatever the write answers.
abbrev pub tray_disconnect_with : VpnState → PipeAnswers → Option ℕ → Outcome
tray_disconnect_with s p none = ([], s, none)
tray_disconnect_with s p (some w) =
    (sent_unless p.held_write w disconnect, record s { writer = some w }, none)

unfoldable pub tray_disconnect : VpnState → PipeAnswers → Outcome
tray_disconnect s p = tray_disconnect_with s p s.writer

abbrev pub tray_quit_with : VpnState → PipeAnswers → Option ℕ → Outcome
tray_quit_with s p none = (exited ∷ [], s, none)
tray_quit_with s p (some w) =
    (sent_unless p.held_write w shutdown ++ (exited ∷ []), record s { writer = none }, none)

unfoldable pub tray_quit : VpnState → PipeAnswers → Outcome
tray_quit s p = tray_quit_with s p s.writer

-- What the user asks for.
pub data Request : Type 0 where
  ask_connect : ConnectArgs → Request
  ask_disconnect tray_item_disconnect tray_item_quit : Request

unfoldable pub perform : VpnState → PipeAnswers → Request → Outcome
unfolding vpn_connect vpn_disconnect tray_disconnect tray_quit
perform s p (ask_connect args) = vpn_connect s p args
perform s p ask_disconnect = vpn_disconnect s p
perform s p tray_item_disconnect = tray_disconnect s p
perform s p tray_item_quit = tray_quit s p

-- The requests one behind the other.
unfoldable pub session : List (PipeAnswers × Request) → VpnState → List Effect × VpnState
unfolding perform
session [] s = ([], s)
session ((p, r) ∷ requests) s =
    let (effects, s', answer) = perform s p r in
    let (later, end) = session requests s' in (effects ++ later, end)

abbrev pub name_of : Option Text → Text
name_of none = []
name_of (some name) = name

abbrev pub on_state : VpnState → WireState → List Effect × VpnState
on_state s state_established = (
  notified (codes "Connected to " ++ name_of s.current_profile) ∷ window_hidden ∷ [],
  record s { status = state_established },
)
on_state s other = ([], record s { status = other })

-- A message of the helper, before it is handed to the interface.
unfoldable pub on_message : VpnState → ClientMessage → List Effect × VpnState
on_message s (state w) = on_state s w
on_message s (error m true) = ([], record s { status = state_disconnected })
on_message s (error m false) = ([], s)
on_message s bye = ([], s)

abbrev pub is_bye : ClientMessage → Bool
is_bye bye = true
is_bye _ = false

-- The end of the pipe.
abbrev pub pipe_ended : VpnState → List Effect × VpnState
pipe_ended s = (emitted (state state_disconnected) ∷ [], record s { status = state_disconnected })

abbrev pub and_then : List Effect → List Effect × VpnState → List Effect × VpnState
and_then effects (later, s) = (effects ++ later, s)

abbrev pub relayed :
    (VpnState → List Effect × VpnState)
    → ClientMessage
    → List Effect × VpnState
    → List Effect × VpnState
relayed more m (effects, s) =
    and_then (effects ++ (emitted m ∷ [])) (if is_bye m then pipe_ended s else more s)

abbrev pub on_line : {A : Type 0} → Option ClientMessage → A → (ClientMessage → A) → A
on_line none pass handle = pass
on_line (some m) pass handle = handle m

-- The reader task on the lines up to the end of the pipe; a line that is no message is passed.
unfoldable pub relay :
    (from_str : Text → Option ClientMessage) → List Text → VpnState → List Effect × VpnState
unfolding on_message
relay from_str [] s = pipe_ended s
relay from_str (l ∷ ls) s =
    on_line (from_str l) (relay from_str ls s)
      (λ m. relayed (λ s'. relay from_str ls s') m (on_message s m))
