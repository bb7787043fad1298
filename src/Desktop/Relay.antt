-- ===== src/Desktop/Relay.antt =====
-- src-tauri/src/lib.rs: what the interface is told by the task that reads the pipe.
use yellow_vpn.Common.{
  ◌≡◌, refl, ap, ◌∙◌, inl, inr, true, false, Option, List, [], ◌∷◌, ◌++◌, if◌then◌else◌, Bool-cases,
  Option-cases,
}
use yellow_vpn.Error.{Text}
use yellow_vpn.Helper.{
  state_connecting, state_established, state_reconnecting, state_disconnected, ClientMessage, state,
  error, bye,
}
use yellow_vpn.Desktop.{
  VpnState, Effect, opened, reader_spawned, reader_aborted, write_failed, write_ignored, sent,
  notified, window_hidden, emitted, exited, on_message, is_bye, pipe_ended, on_line, relayed, relay,
}

-- The messages among the lines, up to the first `Bye` with it.
abbrev pub messages : (Text → Option ClientMessage) → List Text → List ClientMessage
messages from_str [] = []
messages from_str (l ∷ ls) =
    on_line (from_str l) (messages from_str ls)
      (λ m. m ∷ (if is_bye m then [] else messages from_str ls))

-- What the interface is told.
abbrev pub told : List Effect → List ClientMessage
told [] = []
told (emitted m ∷ effects) = m ∷ told effects
told (_ ∷ effects) = told effects

told-append : (es es' : List Effect) → told (es ++ es') ≡ told es ++ told es'
told-append [] es' = refl
told-append (emitted m ∷ es) es' = ap (◌∷◌ m) (told-append es es')
told-append (opened n ∷ es) es' = told-append es es'
told-append (reader_spawned n ∷ es) es' = told-append es es'
told-append (reader_aborted n ∷ es) es' = told-append es es'
told-append (write_failed n ∷ es) es' = told-append es es'
told-append (write_ignored n ∷ es) es' = told-append es es'
told-append (sent n cmd ∷ es) es' = told-append es es'
told-append (notified t ∷ es) es' = told-append es es'
told-append (window_hidden ∷ es) es' = told-append es es'
told-append (exited ∷ es) es' = told-append es es'

on_message-told : (s : VpnState) (m : ClientMessage) → told (on_message s m).0 ≡ []
unfolding on_message
on_message-told s (state state_established) = refl
on_message-told s (state state_connecting) = refl
on_message-told s (state state_disconnected) = refl
on_message-told s (state (state_reconnecting n)) = refl
on_message-told s (error m true) = refl
on_message-told s (error m false) = refl
on_message-told s bye = refl

-- The end of a relay: the last state told is that the tunnel is down, and so is the one kept.
abbrev pub Relays : List ClientMessage → List Effect × VpnState → Type 0
Relays ms (effects, s) =
    (told effects ≡ ms ++ (state state_disconnected ∷ [])) × (s.status ≡ state_disconnected)

relayed-Relays :
    (more : VpnState → List Effect × VpnState) (m : ClientMessage) (r : List Effect × VpnState)
    (ms : List ClientMessage)
    → told r.0 ≡ []
    → ((s : VpnState) → Relays ms (more s))
    → Relays (m ∷ (if is_bye m then [] else ms)) (relayed more m r)
relayed-Relays more m (effects, s) ms quiet h =
    let first : told (effects ++ (emitted m ∷ [])) ≡ m ∷ [] =
      told-append effects (emitted m ∷ []) ∙ ap (λ x. x ++ (m ∷ [])) quiet in
    elim (Bool-cases (is_bye m)) [
      | inl last ↦ rw last (
        told-append (effects ++ (emitted m ∷ [])) (pipe_ended s).0
            ∙ ap (λ x. x ++ (state state_disconnected ∷ [])) first,
        refl,
      )
      | inr not_last ↦ rw not_last (
        told-append (effects ++ (emitted m ∷ [])) (more s).0
            ∙ (ap (λ x. x ++ told (more s).0) first ∙ ap (◌∷◌ m) (h s).0),
        (h s).1,
      )
    ]

-- Whatever the helper writes, the interface is told each of its messages up to the first `Bye`, in
-- their order and none else, and then that the tunnel is down; lines that are no messages are
-- passed over. In the end the state kept is that the tunnel is down.
pub relay-Relays :
    (from_str : Text → Option ClientMessage) (ls : List Text) (s : VpnState)
    → Relays (messages from_str ls) (relay from_str ls s)
unfolding relay
relay-Relays from_str [] s = (refl, refl)
relay-Relays from_str (l ∷ ls) s = elim (Option-cases (from_str l)) [
  | inl none_read ↦ rw none_read (relay-Relays from_str ls s)
  | inr (m, read) ↦ rw read (
      relayed-Relays (relay from_str ls) m (on_message s m) (messages from_str ls)
        (on_message-told s m) (relay-Relays from_str ls))
]
