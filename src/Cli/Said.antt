-- ===== src/Cli/Said.antt =====
-- crates/vpn-cli/src/main.rs: settings written as arguments, and read back.
use yellow_vpn.Common.{
  ℕ, ◌≤◌, String, ◌≡◌, refl, sym, ap, ◌∙◌, ◌≢◌, Bool, true, false, Option, none, some, List, [],
  ◌∷◌, codes,
}
use yellow_vpn.Common.Str.{contains, split_once, decimal, u16_max}
use yellow_vpn.Common.Decimal.{parse_nat-decimal}
use yellow_vpn.Error.{Text}
use yellow_vpn.Config.{Protocol, any_connect, checkpoint, forti_gate}
use yellow_vpn.Cli.{
  done, ◌>>=◌, Settings, default_settings, over, Flag, host_flag, port_flag, user_flag,
  protocol_flag, realm_flag, servercert_flag, dir_flag, positional, flag_of, split_flag, on_flag,
  turn, Parsed, parse_from, parse_args, parse_port, parse_protocol,
}
use yellow_vpn.Cli.Args.{takes_value, with_value, parse_from-separate, split_flag-whole}

abbrev option : String → Option Text → List Text → List Text
option f none args = args
option f (some v) args = codes f ∷ v ∷ args

abbrev switch : String → Bool → List Text → List Text
switch f false args = args
switch f true args = codes f ∷ args

abbrev port_text : Option ℕ → Option Text
port_text none = none
port_text (some n) = some (decimal n)

abbrev protocol_text : Option Protocol → Option Text
protocol_text none = none
protocol_text (some any_connect) = some (codes "anyconnect")
protocol_text (some checkpoint) = some (codes "checkpoint")
protocol_text (some forti_gate) = some (codes "fortigate")

-- No argument says that the certificate is to be verified.
abbrev is_insecure : Option Bool → Bool
is_insecure (some true) = true
is_insecure _ = false

abbrev profile_args : Option Text → List Text
profile_args none = []
profile_args (some a) = a ∷ []

-- The arguments that say the settings and the profile.
unfoldable pub to_args : Settings → Option Text → List Text
unfolding decimal
to_args s p = option "--host" s.host (
    option "--port" (port_text s.port) (
      option "--user" s.username (
        option "--protocol" (protocol_text s.protocol) (
          option "--realm" s.realm (
            option "--servercert" s.servercert (
              option "--profile-dir" s.profile_dir (
                switch "--insecure" (is_insecure s.insecure) (
                  switch "--password-stdin" s.password_stdin
                    (switch "--verbose" s.verbose (profile_args p))))))))))

abbrev pub PortFits : Option ℕ → Type 0
PortFits none = Unit {0}
PortFits (some n) = n ≤ u16_max

-- Settings that arguments can say: no password, a port in 16 bits, and certificates verified only
-- by default.
abbrev pub CanBeSaid : Settings → Type 0
CanBeSaid s = (s.password ≡ none) × (s.insecure ≢ some false) × PortFits s.port

-- A profile name that is no option.
abbrev pub IsName : Option Text → Type 0
IsName none = Unit {0}
IsName (some a) = (contains (b'=' ∷ []) a ≡ false) × (flag_of a ≡ positional)

-- An option whose flag is taken apart by computation.
option-some :
    (f : String) (k : Flag) (v : Text) (args : List Text) (st st' : Parsed)
    → contains (b'=' ∷ []) (codes f) ≡ false
    → flag_of (codes f) ≡ k
    → takes_value k ≡ true
    → with_value k v st ≡ done st'
    → parse_from (codes f ∷ v ∷ args) st ≡ parse_from args st'
option-some f k v args st st' plain_flag same takes h =
    parse_from-separate (codes f) v args st (split_flag-whole (codes f) plain_flag)
      (ap takes_value same ∙ takes)
    ∙ (ap (λ k'. (do st'' ← with_value k' v st; parse_from args st'')) same
        ∙ ap (λ m. (do st'' ← m; parse_from args st'')) h)

with_value-port :
    (v : Text) (n : ℕ) (s : Settings) (p : Option Text)
    → parse_port v ≡ done n
    → with_value port_flag v (s, p) ≡ done (record s { port = some n }, p)
unfolding parse_port with_value
with_value-port v n s p h = rw h refl

option-host :
    (o : Option Text) (args : List Text) (s : Settings) (p : Option Text)
    → parse_from (option "--host" o args) (s, p)
      ≡ parse_from args (record s { host = over s.host o }, p)
unfolding flag_of contains with_value
option-host none args s p = refl
option-host (some v) args s p = option-some "--host" host_flag v args (s, p) _ refl refl refl refl

option-username :
    (o : Option Text) (args : List Text) (s : Settings) (p : Option Text)
    → parse_from (option "--user" o args) (s, p)
      ≡ parse_from args (record s { username = over s.username o }, p)
unfolding flag_of contains with_value
option-username none args s p = refl
option-username (some v) args s p =
    option-some "--user" user_flag v args (s, p) _ refl refl refl refl

option-realm :
    (o : Option Text) (args : List Text) (s : Settings) (p : Option Text)
    → parse_from (option "--realm" o args) (s, p)
      ≡ parse_from args (record s { realm = over s.realm o }, p)
unfolding flag_of contains with_value
option-realm none args s p = refl
option-realm (some v) args s p =
    option-some "--realm" realm_flag v args (s, p) _ refl refl refl refl

option-servercert :
    (o : Option Text) (args : List Text) (s : Settings) (p : Option Text)
    → parse_from (option "--servercert" o args) (s, p)
      ≡ parse_from args (record s { servercert = over s.servercert o }, p)
unfolding flag_of contains with_value
option-servercert none args s p = refl
option-servercert (some v) args s p =
    option-some "--servercert" servercert_flag v args (s, p) _ refl refl refl refl

option-profile_dir :
    (o : Option Text) (args : List Text) (s : Settings) (p : Option Text)
    → parse_from (option "--profile-dir" o args) (s, p)
      ≡ parse_from args (record s { profile_dir = over s.profile_dir o }, p)
unfolding flag_of contains with_value
option-profile_dir none args s p = refl
option-profile_dir (some v) args s p =
    option-some "--profile-dir" dir_flag v args (s, p) _ refl refl refl refl

parse_port-decimal : (n : ℕ) → n ≤ u16_max → parse_port (decimal n) ≡ done n
unfolding parse_port
parse_port-decimal n h = rw (parse_nat-decimal u16_max n h) refl

option-port :
    (o : Option ℕ) (args : List Text) (s : Settings) (p : Option Text)
    → PortFits o
    → parse_from (option "--port" (port_text o) args) (s, p)
      ≡ parse_from args (record s { port = over s.port o }, p)
unfolding flag_of contains
option-port none args s p h = refl
option-port (some n) args s p h =
    option-some "--port" port_flag (decimal n) args (s, p) _ refl refl refl
      (with_value-port (decimal n) n s p (parse_port-decimal n h))

option-protocol :
    (o : Option Protocol) (args : List Text) (s : Settings) (p : Option Text)
    → parse_from (option "--protocol" (protocol_text o) args) (s, p)
      ≡ parse_from args (record s { protocol = over s.protocol o }, p)
unfolding flag_of contains parse_protocol with_value
option-protocol none args s p = refl
option-protocol (some any_connect) args s p =
    option-some "--protocol" protocol_flag (codes "anyconnect") args (s, p) _ refl refl refl refl
option-protocol (some checkpoint) args s p =
    option-some "--protocol" protocol_flag (codes "checkpoint") args (s, p) _ refl refl refl refl
option-protocol (some forti_gate) args s p =
    option-some "--protocol" protocol_flag (codes "fortigate") args (s, p) _ refl refl refl refl

-- A round that spends one argument.
parse_from-one :
    (a : Text) (args : List Text) (st st' : Parsed)
    → ((following : Option Text) → turn a following st ≡ done (st', false))
    → parse_from (a ∷ args) st ≡ parse_from args st'
unfolding parse_from
parse_from-one a [] st st' h = rw (h none) refl
parse_from-one a (b ∷ args) st st' h = rw (h (some b)) refl

switch-insecure :
    (o : Option Bool) (args : List Text) (s : Settings) (p : Option Text)
    → o ≢ some false
    → parse_from (switch "--insecure" (is_insecure o) args) (s, p)
      ≡ parse_from args (record s { insecure = over s.insecure o }, p)
unfolding turn split_flag split_once on_flag flag_of
switch-insecure none args s p h = refl
switch-insecure (some false) args s p h = absurd (h refl)
switch-insecure (some true) args s p h =
    parse_from-one (codes "--insecure") args (s, p) _ (λ following. refl)

switch-stdin :
    (b : Bool) (args : List Text) (s : Settings) (p : Option Text)
    → s.password_stdin ≡ false
    → parse_from (switch "--password-stdin" b args) (s, p)
      ≡ parse_from args (record s { password_stdin = b }, p)
unfolding turn split_flag split_once on_flag flag_of
switch-stdin false args s p off = ap (λ x. parse_from args (record s { password_stdin = x }, p)) off
switch-stdin true args s p off =
    parse_from-one (codes "--password-stdin") args (s, p) _ (λ following. refl)

switch-verbose :
    (b : Bool) (args : List Text) (s : Settings) (p : Option Text)
    → s.verbose ≡ false
    → parse_from (switch "--verbose" b args) (s, p) ≡ parse_from args (record s { verbose = b }, p)
unfolding turn split_flag split_once on_flag flag_of
switch-verbose false args s p off = ap (λ x. parse_from args (record s { verbose = x }, p)) off
switch-verbose true args s p off =
    parse_from-one (codes "--verbose") args (s, p) _ (λ following. refl)

profile_args-lem :
    (p : Option Text) (s : Settings)
    → IsName p
    → parse_from (profile_args p) (s, none) ≡ done (s, p)
unfolding parse_from turn on_flag
profile_args-lem none s h = refl
profile_args-lem (some a) s h =
    let (plain_name, other) = h in rw (split_flag-whole a plain_name, other) refl

over-none : {A : Type 0} (o : Option A) → over none o ≡ o
over-none none = refl
over-none (some a) = refl

abbrev overlaid : Settings → Settings
overlaid s = record {
  host = over none s.host;
  port = over none s.port;
  username = over none s.username;
  password = none;
  protocol = over none s.protocol;
  realm = over none s.realm;
  insecure = over none s.insecure;
  servercert = over none s.servercert;
  verbose = s.verbose;
  password_stdin = s.password_stdin;
  profile_dir = over none s.profile_dir;
}

overlaid-eq : (s : Settings) → s.password ≡ none → overlaid s ≡ s
overlaid-eq s no_password =
    rw
      (
        over-none s.host,
        over-none s.port,
        over-none s.username,
        over-none s.protocol,
        over-none s.realm,
        over-none s.insecure,
        over-none s.servercert,
        over-none s.profile_dir,
      )
      (ap (λ x. record s { password = x }) (sym no_password))

-- Settings that arguments can say, written as arguments with a profile's name behind them, are
-- read back with that name: whatever the values look like, and whichever settings are set.
pub parse_args-to_args :
    (s : Settings) (p : Option Text)
    → CanBeSaid s
    → IsName p
    → parse_args (to_args s p) ≡ done (s, p)
unfolding parse_args to_args
parse_args-to_args s p (no_password, checks, small) name =
    option-host s.host _ default_settings none
    ∙ (option-port s.port _ _ none small
        ∙ (option-username s.username _ _ none
            ∙ (option-protocol s.protocol _ _ none
                ∙ (option-realm s.realm _ _ none
                    ∙ (option-servercert s.servercert _ _ none
                        ∙ (option-profile_dir s.profile_dir _ _ none
                            ∙ (switch-insecure s.insecure _ _ none checks
                                ∙ (switch-stdin s.password_stdin _ _ none refl
                                    ∙ (switch-verbose s.verbose _ _ none refl
                                        ∙ (profile_args-lem p _ name
                                            ∙ ap (λ x. done (x, p))
                                                (overlaid-eq s no_password)))))))))))
