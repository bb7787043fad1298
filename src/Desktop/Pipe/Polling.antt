-- ===== src/Desktop/Pipe/Polling.antt =====
-- src-tauri/src/pipe.rs: what the polling of the helper answers.
use yellow_vpn.Common.{
  ℕ, zero, suc, ◌+◌, ◌≤◌, ◌<◌, ◌≡◌, refl, ap, ◌∙◌, ◌⊎◌, inl, inr, Bool, true, false, Option, none,
  some, arith, ◌==◌, ==_iff, Bool-cases,
}
use yellow_vpn.Error.{Message}
use yellow_vpn.Desktop.Pipe.{PipeResult, done, failed, poll, after_spawn, connect_with_spawn}

-- The answer is the first attempt that succeeds; without an answer none did, or the helper was not
-- started.
abbrev pub IsFirst : (ℕ → Bool) → Option Message → PipeResult ℕ → Type 0
IsFirst attempt spawn (done j) =
    (attempt j ≡ true) × (j ≤ 150) × ((i : ℕ) → i < j → attempt i ≡ false)
IsFirst attempt spawn (failed m) =
    (attempt 0 ≡ false)
    × ((spawn ≡ some m) ⊎ ((spawn ≡ none) × ((i : ℕ) → i ≤ 150 → attempt i ≡ false)))

below_suc :
    (attempt : ℕ → Bool) (k : ℕ)
    → ((i : ℕ) → i < k → attempt i ≡ false)
    → attempt k ≡ false
    → (i : ℕ) → i < k + 1
    → attempt i ≡ false
below_suc attempt k h e i lt = elim (Bool-cases (i == k)) [
  | inl same ↦ ap attempt ((==_iff i k).0 same) ∙ e
  | inr other ↦ h i (ground arith)
]

poll-IsFirst :
    (attempt : ℕ → Bool) (n k : ℕ)
    → n + k ≡ 151
    → 1 ≤ k
    → ((i : ℕ) → i < k → attempt i ≡ false)
    → IsFirst attempt none (poll attempt n k)
unfolding poll
poll-IsFirst attempt zero k sum pos h = (h 0 (omega arith), inr (refl, λ i le. h i (omega arith)))
poll-IsFirst attempt (suc n) k sum pos h = elim (Bool-cases (attempt k)) [
  | inl up ↦ rw up (up, omega arith, h)
  | inr closed ↦
      rw closed
        (poll-IsFirst attempt n (k + 1) (omega arith) (omega arith) (below_suc attempt k h closed))
]

after_spawn-IsFirst :
    (attempt : ℕ → Bool) (spawn : Option Message)
    → attempt 0 ≡ false
    → IsFirst attempt spawn (after_spawn attempt spawn)
after_spawn-IsFirst attempt none closed =
    poll-IsFirst attempt 150 1 refl (omega arith)
      (below_suc attempt 0 (λ i lt. absurd (omega arith)) closed)
after_spawn-IsFirst attempt (some m) closed = (closed, inl refl)

-- `connect_with_spawn` makes 151 attempts at most and answers at the first that succeeds; it fails
-- only where the first attempt failed and the helper could not be started, or every attempt failed.
pub connect_with_spawn-IsFirst :
    (attempt : ℕ → Bool) (spawn : Option Message)
    → IsFirst attempt spawn (connect_with_spawn attempt spawn)
unfolding connect_with_spawn
connect_with_spawn-IsFirst attempt spawn = elim (Bool-cases (attempt 0)) [
  | inl up ↦ rw up (up, omega arith, λ i lt. absurd (omega arith))
  | inr closed ↦ rw closed (after_spawn-IsFirst attempt spawn closed)
]
