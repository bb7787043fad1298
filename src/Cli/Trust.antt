-- ===== src/Cli/Trust.antt =====
-- crates/vpn-cli/src/main.rs: where `connect` and `probe` connect to.
use mathlib.Core.Path.{subst}
use yellow_vpn.Common.{
  ◌≡◌, refl, sym, ap, ◌∙◌, ◌≢◌, inl, inr, Bool, true, false, not, Option, none, some, List, arith,
  Bool-cases, Bytes,
}
use yellow_vpn.Common.Str.{trim, is_empty}
use yellow_vpn.Error.{Text, Message, Result, ok, err}
use yellow_vpn.Config.{any_connect, Config, parse_sha256_fingerprint}
use yellow_vpn.Client.{pinned, cert_trust}
use yellow_vpn.Cli.{Answer, done, refused, ◌>>=◌, reported, Settings}
use yellow_vpn.Cli.Password.{Prompted, resolve_password}
use yellow_vpn.Cli.Command.{
  World, settings_of, required, or_else, connect_pin, trust_or, probe_trust, require_privileges,
  Prepared, checked, with_password, cmd_connect, connect_config, probe_call, probed, cmd_probe,
  ProbeCall,
}

no_answer : {B : Type 0} (m : Message) (b : B) → some (refused m) ≢ some (done b)
no_answer m b h = ground arith

checked-done :
    {A B : Type 0} (m : Answer A) (f : A → Prepared B) {b : B}
    → (checked m f).1 ≡ some (done b)
    → (a : A) × (m ≡ done a) × ((f a).1 ≡ some (done b))
checked-done (done a) f h = (a, refl, h)
checked-done (refused m) f {b = b} h = absurd (no_answer m b h)

checked-same :
    {A B : Type 0} (m : Answer A) (f : A → Prepared B) {r : Option (Answer B)} {a : A}
    → m ≡ done a
    → (checked m f).1 ≡ r
    → (f a).1 ≡ r
checked-same m f e h = ap (λ x. (checked x f).1) (sym e) ∙ h

with_password-done :
    {B : Type 0} (r : Prompted) (f : Text → Answer B) {b : B}
    → (with_password r f).1 ≡ some (done b)
    → (p : Text) × (r.1 ≡ some (done p)) × (f p ≡ done b)
with_password-done (effects, none) f h = absurd (ground arith)
with_password-done (effects, some (refused m)) f {b = b} h = absurd (no_answer m b h)
with_password-done (effects, some (done p)) f h = (p, refl, ground arith)

done-inj : {A : Type 0} {a b : A} → done a ≡ done b → a ≡ b
done-inj h = ground arith

do-done :
    {A B : Type 0} (m : Answer A) (f : A → Answer B) {b : B}
    → (m >>= f) ≡ done b
    → (a : A) × (m ≡ done a) × (f a ≡ done b)
do-done (done a) f h = (a, refl, h)
do-done (refused m) f {b = b} h = absurd (no_answer m b (ap some h))

pin_trust :
    (r : Result Bytes) (allowed : Bool)
    → (do pin ← (do pin ← reported r; done (some pin)); done (cert_trust pin allowed))
      ≡ (do pin ← reported r; done (pinned pin))
unfolding cert_trust
pin_trust (ok pin) allowed = refl
pin_trust (err e) allowed = refl

default_trust : (allowed : Bool) → trust_or allowed none ≡ done (cert_trust none allowed)
unfolding cert_trust
default_trust false = refl
default_trust true = refl

-- `probe` takes the certificate of the gateway for trusted exactly where `connect` does.
probe_trust-connect_pin :
    (servercert : Option Text) (allowed : Bool)
    → probe_trust servercert allowed
      ≡ (do pin ← connect_pin servercert; done (cert_trust pin allowed))
unfolding probe_trust connect_pin cert_trust
probe_trust-connect_pin none false = refl
probe_trust-connect_pin none true = refl
probe_trust-connect_pin (some s) allowed = elim (Bool-cases (not (is_empty (trim s)))) [
  | inl full ↦ rw full (sym (pin_trust (parse_sha256_fingerprint s) allowed))
  | inr blank ↦ rw blank (default_trust allowed)
]

-- One connection: where to, as whom, by which protocol, and which certificate is trusted.
abbrev pub SameTarget : ProbeCall → Config → Text → Type 0
SameTarget q c password =
    (q.host ≡ c.host)
    × (q.port ≡ c.port)
    × (q.username ≡ c.username)
    × (q.password ≡ password)
    × (q.realm ≡ c.realm)
    × (q.protocol ≡ c.protocol)
    × (q.trust ≡ cert_trust c.cert_sha256 c.insecure)

some-inj : {A : Type 0} {a b : A} → some a ≡ some b → a ≡ b
some-inj h = ground arith

concluded :
    (s : Settings) (host user : Text) (pin : Option Bytes) (word word' : Text) {c : Config}
    {password : Text} {q : ProbeCall}
    → done word' ≡ done word
    → ◌≡◌ {A = Answer (Config × Text)}
        (done (connect_config s host user pin, word))
        (done (c, password))
    → done (probe_call s host user (cert_trust pin (or_else false s.insecure)) word') ≡ done q
    → SameTarget q c password
concluded s host user pin word word' {c} {password} same h g =
    subst (λ x. SameTarget x c password) (done-inj g)
      (subst
        (λ x.
          SameTarget (probe_call s host user (cert_trust pin (or_else false s.insecure)) word') x.0
            x.1)
        (done-inj h) ((refl, refl, refl, done-inj same, refl, refl, refl)))

-- Where `connect` and `probe` with the same arguments, in the same surroundings, get as far as the
-- engine, the probe goes to the same gateway, as the same user with the same password, and trusts
-- the same certificates.
pub cmd_probe-SameTarget :
    (w : World) (args : List Text) (c : Config) (password : Text) (q : ProbeCall)
    → (cmd_connect w args).1 ≡ some (done (c, password))
    → (cmd_probe w args).1 ≡ some (done q)
    → SameTarget q c password
unfolding cmd_connect cmd_probe
cmd_probe-SameTarget w args c password q h h' =
    let (s, es, h1) = checked-done (settings_of w args) _ h in
    let (host, eh, h2) = checked-done (required "--host is required" s.host) _ h1 in
    let (user, eu, h3) = checked-done (required "--user is required" s.username) _ h2 in
    let (pin, ep, h4) = checked-done (connect_pin s.servercert) _ h3 in
    let (word, ew, h5) =
      with_password-done (resolve_password s w.stdin w.env_password w.terminal host user) _ h4 in
    let (u, eu', h6) = do-done (require_privileges w) _ h5 in
    let g1 = checked-same (settings_of w args) _ es h' in
    let g2 = checked-same (required "--host is required" s.host) _ eh g1 in
    let g3 = checked-same (required "--user is required" s.username) _ eu g2 in
    let (v, ev, g4) = checked-done (probed (or_else any_connect s.protocol)) _ g3 in
    let trusted =
      probe_trust-connect_pin s.servercert (or_else false s.insecure)
      ∙ ap (λ m. (do pin' ← m; done (cert_trust pin' (or_else false s.insecure)))) ep in
    let g5 = checked-same (probe_trust s.servercert (or_else false s.insecure)) _ trusted g4 in
    let (word', ew', g6) =
      with_password-done (resolve_password s w.stdin w.env_password w.terminal host user) _ g5 in
    concluded s host user pin word word' (some-inj (sym ew' ∙ ew)) h6 g6
