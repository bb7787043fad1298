-- ===== src/Cli/Command.antt =====
-- crates/vpn-cli/src/main.rs: the commands, up to the call of the engine. The stages of the engine
-- that a probe goes through are arguments.
use yellow_vpn.Common.{
  ℕ, ◌/◌, ◌%◌, ◌^◌, String, Bool, false, not, ◌||◌, Option, none, some, List, [], ◌∷◌, ◌==◌,
  if◌then◌else◌, Bytes, codes,
}
use yellow_vpn.Common.Str.{text_eq, trim, is_empty, lines, strip_prefix, parse_unsigned, u64_max}
use yellow_vpn.Error.{Text, verbatim, caused, plain}
use yellow_vpn.Config.{
  Protocol, any_connect, checkpoint, forti_gate, Config, parse_sha256_fingerprint,
}
use yellow_vpn.Client.{CertTrust, pinned, insecure, webpki}
use yellow_vpn.Cli.{
  Answer, done, refused, ◌>>=◌, reported, Settings, default_settings, merge_over, one_of,
  parse_args,
}
use yellow_vpn.Cli.Profile.{Entries, Surroundings, load_profile, profile_dir}
use yellow_vpn.Cli.Password.{TtyEffect, Terminal, Prompted, resolve_password}

-- What the program does with its arguments.
pub data Command : Type 0 where
  show_usage show_version : Command
  connect profiles probe : List Text → Command

abbrev pub any_of : List String → List Text → Bool
any_of names [] = false
any_of names (a ∷ args) = one_of names a || any_of names args

abbrev pub dispatch : Text → List Text → Answer Command
dispatch name args =
    if text_eq name (codes "connect")
    then done (connect args)
    else if text_eq name (codes "profiles")
    then done (profiles args)
    else if text_eq name (codes "probe")
    then done (probe args)
    else refused (caused (plain "unknown command") (verbatim name))

unfoldable pub run : List Text → Answer Command
unfolding one_of text_eq
run [] = done show_usage
run (a ∷ args) =
    if any_of ("-h" ∷ "--help" ∷ []) (a ∷ args)
    then done show_usage
    else if any_of ("-V" ∷ "--version" ∷ []) (a ∷ args)
    then done show_version
    else dispatch a args

-- What the commands take from outside.
pub record World : Type 0 where
  pub surroundings : Surroundings
  pub order : Entries → Entries
  pub read : Text → Answer Text
  pub stdin : Answer Text
  pub env_password : Option Text
  pub terminal : Terminal
  pub is_root : Bool
  pub status : Option Text

abbrev pub in_dir : World → Text → Option Text → Answer Settings
in_dir w name none = refused (plain "cannot determine the profile directory; pass --profile-dir")
in_dir w name (some dir) = load_profile w.order w.read dir name

abbrev pub of_profile : World → Settings → Option Text → Answer Settings
of_profile w cli none = done default_settings
of_profile w cli (some name) = in_dir w name (profile_dir w.surroundings cli.profile_dir)

-- The profile first, the command line on top.
unfoldable pub settings_of : World → List Text → Answer Settings
unfolding parse_args load_profile profile_dir merge_over
settings_of w args = do
  (cli, profile) ← parse_args args
  base ← of_profile w cli profile
  done (merge_over base cli)

abbrev pub required : {A : Type 0} → String → Option A → Answer A
required m none = refused (plain m)
required m (some a) = done a

abbrev pub or_else : {A : Type 0} → A → Option A → A
or_else a none = a
or_else a (some b) = b

abbrev pub some_pin : Text → Answer (Option Bytes)
some_pin s = do pin ← reported (parse_sha256_fingerprint s); done (some pin)

-- The pin of `connect`: a text of white space is none.
unfoldable pub connect_pin : Option Text → Answer (Option Bytes)
unfolding trim parse_sha256_fingerprint
connect_pin none = done none
connect_pin (some s) = let pin = some_pin s in if not (is_empty (trim s)) then pin else done none

abbrev pub pinned_to : Text → Answer CertTrust
pinned_to s = do pin ← reported (parse_sha256_fingerprint s); done (pinned pin)

abbrev pub kept_if : (Text → Bool) → Option Text → Option Text
kept_if p none = none
kept_if p (some s) = if p s then some s else none

abbrev pub trust_or : Bool → Option Text → Answer CertTrust
trust_or allowed (some s) = pinned_to s
trust_or allowed none = if allowed then done insecure else done webpki

-- The trust of `probe`.
unfoldable pub probe_trust : Option Text → Bool → Answer CertTrust
unfolding trim parse_sha256_fingerprint
probe_trust servercert allowed =
    trust_or allowed (kept_if (λ s. not (is_empty (trim s))) servercert)

abbrev pub first_some : Option Text → Option Text → Option Text
first_some (some a) later = some a
first_some none later = later

-- `find_map` of the lines with the prefix.
abbrev pub line_behind : Text → List Text → Option Text
line_behind pat [] = none
line_behind pat (l ∷ ls) = first_some (strip_prefix pat l) (line_behind pat ls)

abbrev pub has_bit : Option ℕ → Bool
has_bit none = false
has_bit (some caps) = not (caps / 2 ^ 12 % 2 == 0)

abbrev pub caps_of : Option Text → Option ℕ
caps_of none = none
caps_of (some hex) = parse_unsigned 16 u64_max (trim hex)

unfoldable pub has_cap_net_admin : Option Text → Bool
unfolding strip_prefix trim parse_unsigned lines
has_cap_net_admin none = false
has_cap_net_admin (some status) = has_bit (caps_of (line_behind (codes "CapEff:") (lines status)))

unfoldable pub require_privileges : World → Answer (Unit {0})
unfolding has_cap_net_admin
require_privileges w =
    if w.is_root
    then done tt
    else if has_cap_net_admin w.status
    then done tt
    else refused (plain "needs CAP_NET_ADMIN")

-- What a command is about to do, with the effects of the prompt; the terminal may still be read.
abbrev pub Prepared : Type 0 → Type 0
Prepared A = List TtyEffect × Option (Answer A)

abbrev pub checked : {A B : Type 0} → Answer A → (A → Prepared B) → Prepared B
checked (refused m) f = ([], some (refused m))
checked (done a) f = f a

abbrev pub with_password : {B : Type 0} → Prompted → (Text → Answer B) → Prepared B
with_password (effects, none) f = (effects, none)
with_password (effects, some (refused m)) f = (effects, some (refused m))
with_password (effects, some (done p)) f = (effects, some (f p))

abbrev pub connect_config : Settings → Text → Text → Option Bytes → Config
connect_config s host username pin = record {
  host = host;
  port = or_else 443 s.port;
  username = username;
  password = none;
  verbose = s.verbose;
  cert_sha256 = pin;
  insecure = or_else false s.insecure;
  protocol = or_else any_connect s.protocol;
  realm = or_else [] s.realm;
}

-- The configuration and the password that `run_client` is called with.
unfoldable pub cmd_connect : World → List Text → Prepared (Config × Text)
unfolding settings_of connect_pin resolve_password require_privileges
cmd_connect w args = checked (settings_of w args) (λ s.
    checked (required "--host is required" s.host) (λ host.
      checked (required "--user is required" s.username) (λ username.
        checked (connect_pin s.servercert) (λ pin.
          with_password (resolve_password s w.stdin w.env_password w.terminal host username)
            (λ password. do
              u ← require_privileges w
              done (connect_config s host username pin, password))))))

-- What a probe is called with.
pub record ProbeCall : Type 0 where
  pub host : Text
  pub port : ℕ
  pub username : Text
  pub password : Text
  pub realm : Text
  pub protocol : Protocol
  pub trust : CertTrust

abbrev pub probed : Protocol → Answer (Unit {0})
probed any_connect = refused (plain "probe supports --protocol fortigate and checkpoint only")
probed checkpoint = done tt
probed forti_gate = done tt

abbrev pub probe_call : Settings → Text → Text → CertTrust → Text → ProbeCall
probe_call s host username trust password = record {
  host = host;
  port = or_else 443 s.port;
  username = username;
  password = password;
  realm = or_else [] s.realm;
  protocol = or_else any_connect s.protocol;
  trust = trust;
}

unfoldable pub cmd_probe : World → List Text → Prepared ProbeCall
unfolding settings_of probe_trust resolve_password
cmd_probe w args = checked (settings_of w args) (λ s.
    checked (required "--host is required" s.host) (λ host.
      checked (required "--user is required" s.username) (λ username.
        checked (probed (or_else any_connect s.protocol)) (λ u.
          checked (probe_trust s.servercert (or_else false s.insecure)) (λ trust.
            with_password (resolve_password s w.stdin w.env_password w.terminal host username)
              (λ password. done (probe_call s host username trust password)))))))

-- The stages of the Check Point probe: `authenticate_checkpoint` with the session, the port and
-- the key of its answer, `connect_tls` to a port, and `establish_session`.
pub record ProbeStages : Type 0 where
  pub ccc : Answer (Bytes × ℕ)
  pub active_key : Answer Bytes
  pub tls : ℕ → Answer (Unit {0})
  pub session : Answer (Unit {0})

-- The result of the probe with the sessions that it signed out.
abbrev pub Probed : Type 0
Probed = Answer (Unit {0}) × List Bytes

abbrev pub probing : {A : Type 0} → Answer A → (A → Probed) → Probed
probing (refused m) f = (refused m, [])
probing (done a) f = f a

-- The answer to the sign-out is only printed.
unfoldable pub probe_checkpoint : ProbeStages → Probed
probe_checkpoint p = probing p.ccc (λ ccc.
    probing p.active_key
      (λ key. probing (p.tls ccc.1) (λ u. probing p.session (λ v. (done tt, ccc.0 ∷ [])))))
