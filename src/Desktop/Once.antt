-- ===== src/Desktop/Once.antt =====
-- src-tauri/src/lib.rs: how often a connection is opened.
use yellow_vpn.Common.{
  ℕ, ◌+◌, ◌≤◌, ◌≡◌, refl, true, false, Option, none, some, List, [], ◌∷◌, ◌++◌, arith, All,
}
use yellow_vpn.Error.{Message}
use yellow_vpn.Desktop.{
  VpnState, default_state, Effect, opened, reader_spawned, reader_aborted, write_failed,
  write_ignored, sent, notified, window_hidden, emitted, exited, ConnectArgs, command_of,
  PipeAnswers, Outcome, connect_fresh, connect_with, vpn_connect, disconnect_with, vpn_disconnect,
  tray_disconnect_with, tray_disconnect, Request, ask_connect, ask_disconnect, tray_item_disconnect,
  tray_item_quit, perform, session,
}

abbrev pub opens : List Effect → ℕ
opens [] = 0
opens (opened n ∷ effects) = opens effects + 1
opens (_ ∷ effects) = opens effects

-- The writes to the pipe succeed, and the application is not quit.
abbrev pub IsAlive : PipeAnswers × Request → Type 0
IsAlive (p, tray_item_quit) = true ≡ false
IsAlive (p, _) = (p.held_write ≡ none) × (p.fresh_write ≡ none)

-- How many connections may still be opened.
abbrev budget : Option ℕ → ℕ
budget none = 1
budget (some w) = 0

opens-append : (es es' : List Effect) → opens (es ++ es') ≡ opens es + opens es'
opens-append [] es' = omega arith
opens-append (opened n ∷ es) es' = let rest = opens-append es es' in omega arith
opens-append (reader_spawned n ∷ es) es' = let rest = opens-append es es' in omega arith
opens-append (reader_aborted n ∷ es) es' = let rest = opens-append es es' in omega arith
opens-append (write_failed n ∷ es) es' = let rest = opens-append es es' in omega arith
opens-append (write_ignored n ∷ es) es' = let rest = opens-append es es' in omega arith
opens-append (sent n cmd ∷ es) es' = let rest = opens-append es es' in omega arith
opens-append (notified t ∷ es) es' = let rest = opens-append es es' in omega arith
opens-append (window_hidden ∷ es) es' = let rest = opens-append es es' in omega arith
opens-append (emitted m ∷ es) es' = let rest = opens-append es es' in omega arith
opens-append (exited ∷ es) es' = let rest = opens-append es es' in omega arith

-- A step uses no more of the budget than it had.
abbrev Spends : Option ℕ → Outcome → Type 0
Spends o (effects, s, answer) = opens effects + budget s.writer ≤ budget o

connect_fresh-Spends :
    (s : VpnState) (p : PipeAnswers) (args : ConnectArgs) (m : Option Message)
    → s.writer ≡ none
    → p.fresh_write ≡ none
    → Spends none (connect_fresh s p (command_of args) m)
connect_fresh-Spends s p args none h alive = rw alive (omega arith)
connect_fresh-Spends s p args (some m) h alive = rw h (omega arith)

connect_with-Spends :
    (s : VpnState) (p : PipeAnswers) (args : ConnectArgs) (o : Option ℕ)
    → s.writer ≡ o
    → p.held_write ≡ none
    → p.fresh_write ≡ none
    → Spends o (connect_with s p (command_of args) o)
connect_with-Spends s p args none same held fresh =
    connect_fresh-Spends s p args p.connected same fresh
connect_with-Spends s p args (some w) same held fresh = rw held (omega arith)

disconnect_with-Spends :
    (s : VpnState) (p : PipeAnswers) (o : Option ℕ)
    → s.writer ≡ o
    → p.held_write ≡ none
    → Spends o (disconnect_with s p o)
disconnect_with-Spends s p none same held = rw same (omega arith)
disconnect_with-Spends s p (some w) same held = rw held (omega arith)

tray_disconnect_with-Spends :
    (s : VpnState) (p : PipeAnswers) (o : Option ℕ)
    → s.writer ≡ o
    → p.held_write ≡ none
    → Spends o (tray_disconnect_with s p o)
tray_disconnect_with-Spends s p none same held = rw same (omega arith)
tray_disconnect_with-Spends s p (some w) same held = rw held (omega arith)

perform-Spends :
    (s : VpnState) (p : PipeAnswers) (r : Request)
    → IsAlive (p, r)
    → Spends s.writer (perform s p r)
unfolding perform vpn_connect vpn_disconnect tray_disconnect
perform-Spends s p (ask_connect args) (held, fresh) =
    connect_with-Spends (record s { current_profile = some args.profile_name }) p args s.writer refl
      held fresh
perform-Spends s p ask_disconnect (held, fresh) = disconnect_with-Spends s p s.writer refl held
perform-Spends s p tray_item_disconnect (held, fresh) =
    tray_disconnect_with-Spends s p s.writer refl held
perform-Spends s p tray_item_quit h = absurd (ground arith)

session_from-opens :
    (requests : List (PipeAnswers × Request)) (s : VpnState)
    → All IsAlive requests
    → opens (session requests s).0 ≤ budget s.writer
unfolding session
session_from-opens [] s h = omega arith
session_from-opens ((p, r) ∷ requests) s (h, hs) =
    let spent = perform-Spends s p r h in
    let later = session_from-opens requests (perform s p r).1 hs in
    let both = opens-append (perform s p r).0 (session requests (perform s p r).1).0 in omega arith

-- As long as writes to the pipe succeed, the requests of a session up to its end open one
-- connection to the helper at most, however often the user connects and disconnects.
pub session-opens :
    (requests : List (PipeAnswers × Request))
    → All IsAlive requests
    → opens (session requests default_state).0 ≤ 1
session-opens requests h = session_from-opens requests default_state h
