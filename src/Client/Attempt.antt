-- ===== src/Client/Attempt.antt =====
-- crates/vpn-engine/src/client.rs: what a connection attempt leaves behind.
use yellow_vpn.Common.{ℕ, ◌≡◌, refl, ◌⊎◌, inl, inr, true, false, List, [], ◌∷◌, Bytes}
use yellow_vpn.Error.{VpnError, Result, ok, err}
use yellow_vpn.Ipv4.{Subnet}
use yellow_vpn.Client.{
  established, Outcome, or_fail, Pipeline, run_pipeline, CheckPoint, connect_checkpoint,
  connect_checkpoint_tunnel, sign_out, connect, Connection, any_connect, checkpoint, forti_gate,
  connect_anyconnect, connect_fortigate,
}

-- Behind an authentication that gave a session with an id and a readable key, the attempt answers
-- what its tunnel answers, and signs the session out, whether the tunnel failed or not.
pub connect_checkpoint-signs-out :
    (c : CheckPoint) (b : ℕ) (id key : Bytes)
    → c.ccc ≡ ok (record { session_id = b ∷ id; active_key = ok key })
    → ((connect_checkpoint c).signed_out ≡ (b ∷ id) ∷ [])
      × ((connect_checkpoint c).result ≡ (connect_checkpoint_tunnel c).result)
unfolding connect_checkpoint
connect_checkpoint-signs-out c b id key same = rw same (refl, refl)

-- A session whose key cannot be read is not signed out.
pub connect_checkpoint-keeps :
    (c : CheckPoint) (id : Bytes) (e : VpnError)
    → c.ccc ≡ ok (record { session_id = id; active_key = err e })
    → ((connect_checkpoint c).signed_out ≡ []) × ((connect_checkpoint c).result ≡ err e)
unfolding connect_checkpoint
connect_checkpoint-keeps c id e same = rw same (refl, refl)

-- An attempt announces `Established` once if it reached the forwarding loop, and sends no event
-- else; an attempt that did not reach it failed.
abbrev pub Announced : Outcome → Type 0
Announced o =
    (o.reached ≡ true × o.events ≡ established ∷ [])
    ⊎ ((o.reached ≡ false) × ((o.events ≡ []) × ((e : VpnError) × (o.result ≡ err e))))

or_fail-Announced :
    {A : Type 0} (m : Result A) (f : A → Outcome)
    → ((a : A) → Announced (f a))
    → Announced (or_fail m f)
or_fail-Announced (ok a) f k = k a
or_fail-Announced (err e) f k = inr (refl, (refl, (e, refl)))

run_pipeline-Announced : (p : Pipeline) (routes : List Subnet) → Announced (run_pipeline p routes)
unfolding run_pipeline
run_pipeline-Announced p routes =
    or_fail-Announced p.tun _
      (λ i. or_fail-Announced (p.install i routes) _ (λ u. inl (refl, refl)))

sign_out-Announced : (id : Bytes) (o : Outcome) → Announced o → Announced (sign_out id o)
sign_out-Announced [] o k = k
sign_out-Announced (b ∷ id) o k = k

-- By each protocol, an attempt that reaches the forwarding loop sends the event `Established` and
-- no other, and an attempt that does not sends no event and answers an error.
pub connect-Announced : (c : Connection) → Announced (connect c)
unfolding connect connect_anyconnect connect_checkpoint connect_checkpoint_tunnel connect_fortigate
connect-Announced (any_connect c) = or_fail-Announced c.tls _ (λ u.
    or_fail-Announced c.cookie _
      (λ k. or_fail-Announced c.session _ (λ s. run_pipeline-Announced c.pipeline _)))
connect-Announced (checkpoint c) = or_fail-Announced c.ccc _ (λ ccc.
    or_fail-Announced ccc.active_key _ (λ k. sign_out-Announced ccc.session_id _ (
      or_fail-Announced c.tls _
        (λ u. or_fail-Announced c.session _ (λ s. run_pipeline-Announced c.pipeline _)))))
connect-Announced (forti_gate c) = or_fail-Announced c.cookie _ (λ k.
    or_fail-Announced c.routes _
      (λ r. or_fail-Announced c.tunnel _ (λ u. run_pipeline-Announced c.pipeline _)))
