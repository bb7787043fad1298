-- ===== src/Fortigate/Negotiate/Bounds.antt =====
-- crates/vpn-engine/src/fortigate/ppp.rs: the rounds of `negotiate` and their bound.
use yellow_vpn.Common.{
  ℕ, zero, suc, ◌+◌, ◌≤◌, ◌<◌, ◌≡◌, refl, Bool, true, false, Option, none, some, List, [], ◌∷◌,
  arith, length, Bytes,
}
use yellow_vpn.Error.{VpnError, Result, ok, err}
use yellow_vpn.Fortigate.Negotiate.{
  Round, max_rounds, turn, too_late, Progress, finished, stopped, waiting, negotiation,
}
use yellow_vpn.Fortigate.Negotiate.Lcp
use yellow_vpn.Fortigate.Negotiate.Lcp.{Lcp, lcp_phase}
use yellow_vpn.Fortigate.Negotiate.Ipcp.{
  Ipcp, ipcp_phase, after_ipcp, run_ipcp, after_lcp, run_lcp, request, start_ipcp, start_lcp,
  negotiate,
}

-- The loop does not wait, and has used so many rounds at most.
abbrev Ended : {A : Type 0} → ℕ → List Round → Progress A → Type 0
Ended n rs (finished s rest) = length rs ≤ length rest + n
Ended n rs (stopped e) = Unit
Ended n rs (waiting s) = ⊥

Ended-turn :
    {S : Type 0} (b late : Bool) (s : S) (diverged : VpnError) (r : Round) (rs : List Round)
    (m : Result S) (more : S → Progress S) (n : ℕ)
    → ((s' : S) → Ended n rs (more s'))
    → Ended (suc n) (r ∷ rs) (turn b late s diverged (r ∷ rs) m more)
Ended-turn true late s diverged r rs m more n h = omega arith
Ended-turn false true s diverged r rs m more n h = tt
Ended-turn false false s diverged r rs (err e) more n h = tt
Ended-turn false false s diverged r rs (ok s') more n h = later (more s') (h s')
  where
    later : {A : Type 0} (p : Progress A) → Ended n rs p → Ended (suc n) (r ∷ rs) p
    later (finished x rest) k = omega arith
    later (stopped e) k = tt
    later (waiting x) k = k

module _ {S : Type 0} (done : S → Bool) (body : Round → S → Result S) (diverged : VpnError) where
  negotiation-Ended :
      (left rounds : ℕ) (rs : List Round) (s : S)
      → rounds + left ≡ max_rounds
      → left < length rs
      → Ended left rs (negotiation done body diverged rounds rs s)
  unfolding negotiation
  negotiation-Ended left rounds [] s e h = absurd (omega arith)
  negotiation-Ended zero rounds (r ∷ rs) s e h = last (done s) (too_late rounds r) (ground arith)
    where
      last :
          (b late : Bool)
          → late ≡ true
          → Ended zero (r ∷ rs) (
              turn b late s diverged
                (r ∷ rs)
                (body r s)
                (λ s'. negotiation done body diverged (rounds + 1) rs s'))
      last true late h = omega arith
      last false true h = tt
      last false false h = absurd (cc)
  negotiation-Ended (suc left) rounds (r ∷ rs) s e h =
      Ended-turn (done s) (too_late rounds r) s diverged r rs (body r s)
        (λ s'. negotiation done body diverged (rounds + 1) rs s') left
        (λ s'. negotiation-Ended left (rounds + 1) rs s' (omega arith) (omega arith))

abbrev pub Answers : {A : Type 0} → Option A → Type 0
Answers none = ⊥
Answers (some a) = Unit

after_ipcp-Answers :
    (magic mru n : ℕ) (rs : List Round) (p : Progress Ipcp)
    → Ended n rs p
    → Answers (after_ipcp magic mru p)
after_ipcp-Answers magic mru n rs (finished s rest) h = tt
after_ipcp-Answers magic mru n rs (stopped e) h = tt
after_ipcp-Answers magic mru n rs (waiting s) h = h

run_ipcp-Answers :
    (magic mru : ℕ) (r : Round) (rs : List Round) (m : Result Ipcp)
    → max_rounds < length rs
    → Answers (run_ipcp magic r mru rs m)
run_ipcp-Answers magic mru r rs (err e) h = tt
run_ipcp-Answers magic mru r rs (ok s) h =
    unfold ipcp_phase in
    after_ipcp-Answers magic mru max_rounds rs (ipcp_phase magic rs s)
      (negotiation-Ended _ _ _ max_rounds 0 rs s refl h)

after_lcp-Answers :
    (magic : ℕ) (r : Round) (rs : List Round) (p : Progress Lcp)
    → max_rounds + max_rounds < length rs
    → Ended max_rounds rs p
    → Answers (after_lcp magic r p)
after_lcp-Answers magic r rs (finished s rest) h e =
    run_ipcp-Answers magic s.mru r rest (request r (start_ipcp s.link)) (omega arith)
after_lcp-Answers magic r rs (stopped x) h e = tt
after_lcp-Answers magic r rs (waiting s) h e = e

run_lcp-Answers :
    (magic : ℕ) (r : Round) (rs : List Round) (m : Result Lcp)
    → max_rounds + max_rounds < length rs
    → Answers (run_lcp magic r rs m)
run_lcp-Answers magic r rs (err e) h = tt
run_lcp-Answers magic r rs (ok s) h =
    unfold lcp_phase in
    after_lcp-Answers magic r rs (lcp_phase magic rs s) h
      (negotiation-Ended _ _ _ max_rounds 0 rs s refl (omega arith))

-- After eighty rounds at most, the negotiation has a session or an error, whatever the peer sends
-- and whatever the clock says: no peer can keep it going.
pub negotiate-Answers :
    (magic : ℕ) (prime : Bytes) (r₁ r₂ : Round) (rounds : List Round)
    → max_rounds + max_rounds < length rounds
    → Answers (negotiate magic prime r₁ r₂ rounds)
unfolding negotiate
negotiate-Answers magic prime r₁ r₂ rounds h =
    run_lcp-Answers magic r₂ rounds (Lcp.request r₁ (start_lcp magic prime)) h
