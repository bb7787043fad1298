-- ===== src/Cli.antt =====
-- crates/vpn-cli/src/main.rs: the arguments of the command line. What the program takes from its
-- surroundings (files, environment, terminal, the engine) is an argument of the children.
pub mod Profile
pub mod Password
pub mod Command
pub mod Args
pub mod Said
pub mod Trust
use yellow_vpn.Common.{
  ℕ, zero, suc, ◌+◌, ◌-◌, ◌*◌, ◌/◌, ◌%◌, ◌^◌, ◌≤◌, ◌<◌, String, ◌≡◌, refl, sym, ap, ◌∙◌, ◌≢◌, ◌↔◌,
  ◌⊎◌, inl, inr, Bool, true, false, not, ◌&&◌, ◌||◌, Option, none, some, List, [], ◌∷◌, ◌++◌, map,
  append-nil, append_assoc, arith, ltb, leb, ◌==◌, if◌then◌else◌, ltb→lt, ltb→le, lt→ltb, le→ltb,
  leb→le, ==_iff, ==_self, Bool-cases, Option-cases, length, get_or, take, drop, All, length-append,
  take-append-drop, length-take, length-drop, take-length_append, drop-length_append, take-append,
  drop-append, All-append, Bytes, IsByte, as_u8, as_u16, as_u32, be16, from_be16, be32, from_be32,
  from_be16-be16, from_be32-be32, as_bytes, from_utf8_lossy, IsScalar, from_utf8_lossy-as_bytes,
  codes,
}
use yellow_vpn.Common.Str.{text_eq, starts_with, split_once, to_lowercase, parse_nat, u16_max}
use yellow_vpn.Error.{
  Text, Message, format, verbatim, caused, plain, VpnError, config, privilege, tun, tun_unavailable,
  routing, tls, auth_failed, server_disconnect, io, not_implemented, is_permanent, to_string,
  Result, ok, err, Result-cases,
}
use yellow_vpn.Config.{Protocol, any_connect, checkpoint, forti_gate}

-- `Result<T, String>`: the value, or the text of the error.
pub data Answer {ℓ} (A : Type ℓ) : Type ℓ where
  done : A → Answer A
  refused : Message → Answer A

infixl 5 ◌>>=◌
abbrev pub ◌>>=◌ {ℓ₁ ℓ₂} : {A : Type ℓ₁} {B : Type ℓ₂} → Answer A → (A → Answer B) → Answer B
done a >>= f = f a
refused m >>= f = refused m

-- `map_err(|e| e.to_string())`.
abbrev pub reported : {A : Type 0} → Result A → Answer A
reported (ok a) = done a
reported (err e) = refused (to_string e)

pub record Settings : Type 0 where
  pub host : Option Text
  pub port : Option ℕ
  pub username : Option Text
  pub password : Option Text
  pub protocol : Option Protocol
  pub realm : Option Text
  pub insecure : Option Bool
  pub servercert : Option Text
  pub verbose : Bool
  pub password_stdin : Bool
  pub profile_dir : Option Text

abbrev pub default_settings : Settings
default_settings = record {
  host = none;
  port = none;
  username = none;
  password = none;
  protocol = none;
  realm = none;
  insecure = none;
  servercert = none;
  verbose = false;
  password_stdin = false;
  profile_dir = none;
}

-- The other value where it is set.
abbrev pub over : {A : Type 0} → Option A → Option A → Option A
over this none = this
over this (some other) = some other

unfoldable pub merge_over : Settings → Settings → Settings
merge_over this other = record {
  host = over this.host other.host;
  port = over this.port other.port;
  username = over this.username other.username;
  password = over this.password other.password;
  protocol = over this.protocol other.protocol;
  realm = over this.realm other.realm;
  insecure = over this.insecure other.insecure;
  servercert = over this.servercert other.servercert;
  verbose = this.verbose || other.verbose;
  password_stdin = this.password_stdin || other.password_stdin;
  profile_dir = over this.profile_dir other.profile_dir;
}

-- A pattern with alternatives.
unfoldable pub one_of : List String → Text → Bool
unfolding text_eq
one_of [] s = false
one_of (name ∷ names) s = text_eq (codes name) s || one_of names s

-- `replace(['-', '_'], "")`.
unfoldable pub without_dashes : Text → Text
without_dashes [] = []
without_dashes (c ∷ cs) =
    let rest = without_dashes cs in if c == b'-' || c == b'_' then rest else c ∷ rest

unfoldable pub parse_protocol : Text → Answer Protocol
unfolding one_of without_dashes to_lowercase
parse_protocol s =
    let name = without_dashes (to_lowercase s) in
    if one_of ("anyconnect" ∷ "cisco" ∷ "cstp" ∷ []) name
    then done any_connect
    else if one_of ("checkpoint" ∷ "snx" ∷ []) name
    then done checkpoint
    else if one_of ("fortigate" ∷ "fortinet" ∷ "forticlient" ∷ "forti" ∷ []) name
    then done forti_gate
    else refused (caused (plain "unknown protocol") (verbatim name))

unfoldable pub parse_bool : Text → Answer Bool
unfolding one_of to_lowercase
parse_bool s =
    let name = to_lowercase s in
    if one_of ("1" ∷ "true" ∷ "yes" ∷ "on" ∷ []) name
    then done true
    else if one_of ("0" ∷ "false" ∷ "no" ∷ "off" ∷ []) name
    then done false
    else refused (caused (plain "expected a boolean, got") (verbatim name))

abbrev pub port_of : Text → Option ℕ → Answer ℕ
port_of v none = refused (caused (plain "invalid port") (verbatim v))
port_of v (some n) = done n

-- `parse` of a `u16`.
unfoldable pub parse_port : Text → Answer ℕ
unfolding parse_nat
parse_port v = port_of v (parse_nat u16_max v)

-- The arms of the match on a flag.
pub data Flag : Type 0 where
  host_flag port_flag user_flag protocol_flag realm_flag servercert_flag dir_flag : Flag
  insecure_flag stdin_flag verbose_flag unknown_flag positional : Flag

unfoldable pub flag_of : Text → Flag
unfolding one_of
flag_of flag =
    if one_of ("-H" ∷ "--host" ∷ []) flag
    then host_flag
    else if one_of ("-p" ∷ "--port" ∷ []) flag
    then port_flag
    else if one_of ("-u" ∷ "--user" ∷ "--username" ∷ []) flag
    then user_flag
    else if one_of ("--protocol" ∷ []) flag
    then protocol_flag
    else if one_of ("--realm" ∷ []) flag
    then realm_flag
    else if one_of ("--servercert" ∷ []) flag
    then servercert_flag
    else if one_of ("--profile-dir" ∷ []) flag
    then dir_flag
    else if one_of ("--insecure" ∷ []) flag
    then insecure_flag
    else if one_of ("--password-stdin" ∷ []) flag
    then stdin_flag
    else if one_of ("-v" ∷ "--verbose" ∷ []) flag
    then verbose_flag
    else if starts_with (b'-' ∷ []) flag
    then unknown_flag
    else positional

abbrev pub long_form : Text → Option (Text × Text) → Text × Option Text
long_form a none = (a, none)
long_form a (some (f, v)) = if starts_with (codes "--") f then (f, some v) else (a, none)

-- `--flag=value`, or an argument without a value of its own.
unfoldable pub split_flag : Text → Text × Option Text
unfolding split_once
split_flag a = long_form a (split_once (b'=' ∷ []) a)

-- The value of a flag, and whether it is the argument that follows.
abbrev pub value : String → Option Text → Option Text → Answer (Text × Bool)
value name (some v) following = done (v, false)
value name none (some v) = done (v, true)
value name none none = refused (caused (plain name) (plain " needs a value"))

-- What the loop keeps: the settings and the positional argument.
abbrev pub Parsed : Type 0
Parsed = Settings × Option Text

abbrev pub at_positional : Text → Parsed → Answer Parsed
at_positional a (s, none) = done (s, some a)
at_positional a (s, some p) = refused (caused (plain "unexpected extra argument") (verbatim a))

-- A round of the loop, at the flag; the test says whether the following argument is spent.
unfoldable pub on_flag : Flag → Text → Option Text → Option Text → Parsed → Answer (Parsed × Bool)
unfolding parse_port parse_protocol
on_flag host_flag flag inline following (s, p) = do
  (v, took) ← value "--host" inline following
  done ((record s { host = some v }, p), took)
on_flag port_flag flag inline following (s, p) = do
  (v, took) ← value "--port" inline following
  n ← parse_port v
  done ((record s { port = some n }, p), took)
on_flag user_flag flag inline following (s, p) = do
  (v, took) ← value "--user" inline following
  done ((record s { username = some v }, p), took)
on_flag protocol_flag flag inline following (s, p) = do
  (v, took) ← value "--protocol" inline following
  chosen ← parse_protocol v
  done ((record s { protocol = some chosen }, p), took)
on_flag realm_flag flag inline following (s, p) = do
  (v, took) ← value "--realm" inline following
  done ((record s { realm = some v }, p), took)
on_flag servercert_flag flag inline following (s, p) = do
  (v, took) ← value "--servercert" inline following
  done ((record s { servercert = some v }, p), took)
on_flag dir_flag flag inline following (s, p) = do
  (v, took) ← value "--profile-dir" inline following
  done ((record s { profile_dir = some v }, p), took)
on_flag insecure_flag flag inline following (s, p) =
    done ((record s { insecure = some true }, p), false)
on_flag stdin_flag flag inline following (s, p) =
    done ((record s { password_stdin = true }, p), false)
on_flag verbose_flag flag inline following (s, p) = done ((record s { verbose = true }, p), false)
on_flag unknown_flag flag inline following st =
    refused (caused (plain "unknown option") (verbatim flag))
on_flag positional flag inline following st = do st' ← at_positional flag st; done (st', false)

abbrev pub at_flag : Text × Option Text → Option Text → Parsed → Answer (Parsed × Bool)
at_flag (flag, inline) following st = on_flag (flag_of flag) flag inline following st

unfoldable pub turn : Text → Option Text → Parsed → Answer (Parsed × Bool)
unfolding split_flag on_flag flag_of
turn a following st = at_flag (split_flag a) following st

abbrev pub go_on :
    Answer (Parsed × Bool) → (Parsed → Answer Parsed) → (Parsed → Answer Parsed) → Answer Parsed
go_on (refused m) next skip = refused m
go_on (done (st, false)) next skip = next st
go_on (done (st, true)) next skip = skip st

-- The loop over the arguments that are left.
unfoldable pub parse_from : List Text → Parsed → Answer Parsed
unfolding turn
parse_from [] st = done st
parse_from (a ∷ []) st = go_on (turn a none st) (λ st'. done st') (λ st'. done st')
parse_from (a ∷ (b ∷ args)) st =
    go_on (turn a (some b) st) (λ st'. parse_from (b ∷ args) st') (λ st'. parse_from args st')

unfoldable pub parse_args : List Text → Answer Parsed
unfolding parse_from
parse_args args = parse_from args (default_settings, none)
