-- ===== src/Desktop/Talks.antt =====
-- src-tauri/src/lib.rs: to which connection the commands go.
use yellow_vpn.Common.{ℕ, ◌≡◌, Option, none, some, List, [], ◌∷◌}
use yellow_vpn.Desktop.{Effect, opened, write_failed, write_ignored, sent, exited, Outcome}

-- The connection opened last; none where a write to it failed since, or the application was left.
abbrev pub current : Option ℕ → List Effect → Option ℕ
current c [] = c
current c (opened n ∷ effects) = current (some n) effects
current c (write_failed n ∷ effects) = current none effects
current c (exited ∷ effects) = current none effects
current c (_ ∷ effects) = current c effects

-- Each command goes to the current connection, whether its write succeeds or not.
abbrev pub TalksTo : Option ℕ → List Effect → Type 0
TalksTo c [] = Unit {0}
TalksTo c (opened n ∷ effects) = TalksTo (some n) effects
TalksTo c (sent n cmd ∷ effects) = (c ≡ some n) × TalksTo c effects
TalksTo c (write_failed n ∷ effects) = (c ≡ some n) × TalksTo none effects
TalksTo c (write_ignored n ∷ effects) = (c ≡ some n) × TalksTo c effects
TalksTo c (exited ∷ effects) = TalksTo none effects
TalksTo c (_ ∷ effects) = TalksTo c effects

-- The writer, if there is one, is of the current connection.
abbrev HeldBy : Option ℕ → Option ℕ → Type 0
HeldBy c none = Unit {0}
HeldBy c (some w) = c ≡ some w

abbrev Goes : Option ℕ → Outcome → Type 0
Goes c (effects, s, answer) = TalksTo c effects × HeldBy (current c effects) s.writer
