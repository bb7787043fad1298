-- ===== src/Cli/Args.antt =====
-- crates/vpn-cli/src/main.rs: the arguments that say some settings, and the two forms of an option.
use yellow_vpn.Common.{
  ◌≡◌, refl, sym, ◌∙◌, Bool, true, false, Option, none, some, List, [], ◌∷◌, ◌++◌, arith, ◌==◌,
  codes,
}
use yellow_vpn.Common.Str.{starts_with, strip_prefix, split_once, contains}
use yellow_vpn.Error.{Text}
use yellow_vpn.Cli.{
  Answer, done, refused, ◌>>=◌, Flag, host_flag, port_flag, user_flag, protocol_flag, realm_flag,
  servercert_flag, dir_flag, insecure_flag, stdin_flag, verbose_flag, unknown_flag, positional,
  flag_of, split_flag, on_flag, turn, go_on, Parsed, parse_from, parse_port, parse_protocol,
}

-- The options that take a value.
abbrev pub takes_value : Flag → Bool
takes_value host_flag = true
takes_value port_flag = true
takes_value user_flag = true
takes_value protocol_flag = true
takes_value realm_flag = true
takes_value servercert_flag = true
takes_value dir_flag = true
takes_value _ = false

-- Settings with a value, or the error of the value.
unfoldable pub with_value : Flag → Text → Parsed → Answer Parsed
unfolding parse_port parse_protocol
with_value host_flag v (s, p) = done (record s { host = some v }, p)
with_value port_flag v (s, p) = do n ← parse_port v; done (record s { port = some n }, p)
with_value user_flag v (s, p) = done (record s { username = some v }, p)
with_value protocol_flag v (s, p) = do
  chosen ← parse_protocol v
  done (record s { protocol = some chosen }, p)
with_value realm_flag v (s, p) = done (record s { realm = some v }, p)
with_value servercert_flag v (s, p) = done (record s { servercert = some v }, p)
with_value dir_flag v (s, p) = done (record s { profile_dir = some v }, p)
with_value _ v st = done st

abbrev pub took : Bool → Answer Parsed → Answer (Parsed × Bool)
took b (done st) = done (st, b)
took b (refused m) = refused m

took-do :
    {X : Type 0} (b : Bool) (m : Answer X) (f : X → Parsed)
    → (do n ← m; done (f n, b)) ≡ took b (do n ← m; done (f n))
took-do b (done n) f = refl
took-do b (refused m) f = refl

go_on-took-false :
    (m : Answer Parsed) (next skip : Parsed → Answer Parsed)
    → go_on (took false m) next skip ≡ (m >>= next)
go_on-took-false (done st) next skip = refl
go_on-took-false (refused m) next skip = refl

go_on-took-true :
    (m : Answer Parsed) (next skip : Parsed → Answer Parsed)
    → go_on (took true m) next skip ≡ (m >>= skip)
go_on-took-true (done st) next skip = refl
go_on-took-true (refused m) next skip = refl

-- A value behind `=` or in the argument that follows.
on_flag-took :
    (k : Flag) (f v : Text) (o : Option Text) (st : Parsed)
    → takes_value k ≡ true
    → (on_flag k f (some v) o st ≡ took false (with_value k v st))
      × (on_flag k f none (some v) st ≡ took true (with_value k v st))
unfolding on_flag with_value
on_flag-took host_flag f v o (s, p) h = (refl, refl)
on_flag-took port_flag f v o (s, p) h =
    (took-do false (parse_port v) _, took-do true (parse_port v) _)
on_flag-took user_flag f v o (s, p) h = (refl, refl)
on_flag-took protocol_flag f v o (s, p) h =
    (took-do false (parse_protocol v) _, took-do true (parse_protocol v) _)
on_flag-took realm_flag f v o (s, p) h = (refl, refl)
on_flag-took servercert_flag f v o (s, p) h = (refl, refl)
on_flag-took dir_flag f v o (s, p) h = (refl, refl)
on_flag-took insecure_flag f v o (s, p) h = absurd (ground arith)
on_flag-took stdin_flag f v o (s, p) h = absurd (ground arith)
on_flag-took verbose_flag f v o (s, p) h = absurd (ground arith)
on_flag-took unknown_flag f v o (s, p) h = absurd (ground arith)
on_flag-took positional f v o st h = absurd (ground arith)

-- An option with its value as two arguments.
pub parse_from-separate :
    (f v : Text) (args : List Text) (st : Parsed)
    → split_flag f ≡ (f, none)
    → takes_value (flag_of f) ≡ true
    → parse_from (f ∷ v ∷ args) st ≡ (do st' ← with_value (flag_of f) v st; parse_from args st')
unfolding parse_from turn
parse_from-separate f v args st whole h =
    rw (whole, (on_flag-took (flag_of f) f v none st h).1)
      (go_on-took-true (with_value (flag_of f) v st) _ _)

parse_from-joined :
    (a f v : Text) (args : List Text) (st : Parsed)
    → split_flag a ≡ (f, some v)
    → takes_value (flag_of f) ≡ true
    → parse_from (a ∷ args) st ≡ (do st' ← with_value (flag_of f) v st; parse_from args st')
unfolding parse_from turn
parse_from-joined a f v [] st cut h =
    rw (cut, (on_flag-took (flag_of f) f v none st h).0)
      (go_on-took-false (with_value (flag_of f) v st) _ _)
parse_from-joined a f v (b ∷ args) st cut h =
    rw (cut, (on_flag-took (flag_of f) f v (some b) st h).0)
      (go_on-took-false (with_value (flag_of f) v st) _ _)

split_once-at :
    (f v : Text)
    → contains (b'=' ∷ []) f ≡ false
    → split_once (b'=' ∷ []) (f ++ (b'=' ∷ v)) ≡ some (f, v)
unfolding split_once strip_prefix contains
split_once-at [] v h = refl
split_once-at (c ∷ f) v h =
    let other : (b'=' == c) ≡ false = ground arith in
    let later : contains (b'=' ∷ []) f ≡ false = ground arith in
    rw (other, split_once-at f v later) refl

split_once-none : (f : Text) → contains (b'=' ∷ []) f ≡ false → split_once (b'=' ∷ []) f ≡ none
unfolding split_once strip_prefix contains
split_once-none [] h = refl
split_once-none (c ∷ f) h =
    let other : (b'=' == c) ≡ false = ground arith in
    let later : contains (b'=' ∷ []) f ≡ false = ground arith in
    rw (other, split_once-none f later) refl

pub split_flag-whole : (f : Text) → contains (b'=' ∷ []) f ≡ false → split_flag f ≡ (f, none)
unfolding split_flag
split_flag-whole f h = rw (split_once-none f h) refl

split_flag-joined :
    (f v : Text)
    → contains (b'=' ∷ []) f ≡ false
    → starts_with (codes "--") f ≡ true
    → split_flag (f ++ (b'=' ∷ v)) ≡ (f, some v)
unfolding split_flag
split_flag-joined f v h long = rw (split_once-at f v h, long) refl

-- An option `--flag=value` says what `--flag value` says, for each option that takes a value, any
-- value, arguments behind it, and settings read before: also where both are refused.
pub parse_from-inline :
    (f v : Text) (args : List Text) (st : Parsed)
    → contains (b'=' ∷ []) f ≡ false
    → starts_with (codes "--") f ≡ true
    → takes_value (flag_of f) ≡ true
    → parse_from ((f ++ (b'=' ∷ v)) ∷ args) st ≡ parse_from (f ∷ v ∷ args) st
parse_from-inline f v args st h long takes =
    parse_from-joined (f ++ (b'=' ∷ v)) f v args st (split_flag-joined f v h long) takes
    ∙ sym (parse_from-separate f v args st (split_flag-whole f h) takes)
