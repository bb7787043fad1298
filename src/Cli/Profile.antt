-- ===== src/Cli/Profile.antt =====
-- crates/vpn-cli/src/main.rs: profile files. Paths are those of Unix. The file system, the
-- environment and the iteration order of a hash map are arguments.

pub mod Order
pub mod Contained
use yellow_vpn.Common.{
  ℕ, zero, suc, ◌+◌, ◌-◌, ◌*◌, ◌/◌, ◌%◌, ◌^◌, ◌≤◌, ◌<◌, String, ◌≡◌, refl, sym, ap, ◌∙◌, ◌≢◌, ◌↔◌,
  ◌⊎◌, inl, inr, Bool, true, false, not, ◌&&◌, ◌||◌, Option, none, some, List, [], ◌∷◌, ◌++◌, map,
  append-nil, append_assoc, arith, ltb, leb, ◌==◌, if◌then◌else◌, ltb→lt, ltb→le, lt→ltb, le→ltb,
  leb→le, ==_iff, ==_self, Bool-cases, Option-cases, length, get_or, take, drop, All, length-append,
  take-append-drop, length-take, length-drop, take-length_append, drop-length_append, take-append,
  drop-append, All-append, Bytes, IsByte, as_u8, as_u16, as_u32, be16, from_be16, be32, from_be32,
  from_be16-be16, from_be32-be32, as_bytes, from_utf8_lossy, IsScalar, from_utf8_lossy-as_bytes,
  codes,
}
use yellow_vpn.Common.Str.{
  text_eq, contains, lines, span_until, split_once, starts_with, to_lowercase, trim, is_empty,
}
use yellow_vpn.Error.{
  Text, Message, format, verbatim, caused, plain, VpnError, config, privilege, tun, tun_unavailable,
  routing, tls, protocol, auth_failed, server_disconnect, io, not_implemented, is_permanent, Result,
  ok, err, Result-cases,
}
use yellow_vpn.Cli.{
  Answer, done, refused, ◌>>=◌, Settings, default_settings, one_of, parse_protocol, parse_bool,
  parse_port,
}

-- The arms of the match on a key.
pub data Key : Type 0 where
  host_key port_key username_key password_key protocol_key realm_key insecure_key : Key
  servercert_key unknown_key : Key

unfoldable pub key_of : Text → Key
unfolding one_of
key_of k =
    if one_of ("host" ∷ "gateway" ∷ []) k
    then host_key
    else if one_of ("port" ∷ []) k
    then port_key
    else if one_of ("username" ∷ "user" ∷ []) k
    then username_key
    else if one_of ("password" ∷ []) k
    then password_key
    else if one_of ("protocol" ∷ []) k
    then protocol_key
    else if one_of ("realm" ∷ []) k
    then realm_key
    else if one_of ("insecure" ∷ []) k
    then insecure_key
    else if one_of ("servercert" ∷ "cert_sha256" ∷ []) k
    then servercert_key
    else unknown_key

-- The map of keys to values as its entries.
abbrev pub Entries : Type 0
Entries = List (Text × Text)

-- `HashMap::insert` replaces the value of a key that is there.
unfoldable pub insert : Text → Text → Entries → Entries
unfolding text_eq
insert k v [] = (k, v) ∷ []
insert k v ((k', v') ∷ kv) =
    let rest = insert k v kv in if text_eq k k' then (k, v) ∷ kv else (k', v') ∷ rest

abbrev pub pair_or_fail : ℕ → Text → Option (Text × Text) → Answer (Text × Text)
pair_or_fail n line none =
    refused (caused (format "line {}: expected `key = value`, got" ((n + 1) ∷ [])) (verbatim line))
pair_or_fail n line (some pair) = done pair

-- A line without its comment and the white space around it.
unfoldable pub content : Text → Text
unfolding span_until trim
content raw = trim (span_until (λ c. c == b'#') raw).0

-- The pairs of the lines, the first of which has the given number.
unfoldable pub read_lines : ℕ → List Text → Entries → Answer Entries
unfolding content split_once insert trim to_lowercase
read_lines n [] kv = done kv
read_lines n (raw ∷ ls) kv =
    let rest = read_lines (n + 1) ls kv in
    if is_empty (content raw) then rest else (do
      (k, v) ← pair_or_fail n (content raw) (split_once (b'=' ∷ []) (content raw))
      read_lines (n + 1) ls (insert (to_lowercase (trim k)) (trim v) kv))

unfoldable pub set_entry : Key → Text → Text → Settings → Answer Settings
unfolding parse_port parse_protocol parse_bool
set_entry host_key k v s = done (record s { host = some v })
set_entry port_key k v s = do n ← parse_port v; done (record s { port = some n })
set_entry username_key k v s = done (record s { username = some v })
set_entry password_key k v s = done (record s { password = some v })
set_entry protocol_key k v s = do
  chosen ← parse_protocol v
  done (record s { protocol = some chosen })
set_entry realm_key k v s = done (record s { realm = some v })
set_entry insecure_key k v s = do b ← parse_bool v; done (record s { insecure = some b })
set_entry servercert_key k v s = done (record s { servercert = some v })
set_entry unknown_key k v s = refused (caused (plain "unknown profile key") (verbatim k))

-- The loop over the map.
unfoldable pub set_all : Entries → Settings → Answer Settings
unfolding set_entry key_of
set_all [] s = done s
set_all ((k, v) ∷ kv) s = do s' ← set_entry (key_of k) k v s; set_all kv s'

-- The first argument is the order in which the map is iterated.
unfoldable pub parse_profile : (Entries → Entries) → Text → Answer Settings
unfolding read_lines set_all lines
parse_profile order text = do kv ← read_lines 0 (lines text) []; set_all (order kv) default_settings

abbrev pub ends_in_slash : Text → Bool
ends_in_slash [] = false
ends_in_slash (c ∷ []) = c == b'/'
ends_in_slash (c ∷ (d ∷ cs)) = ends_in_slash (d ∷ cs)

-- `Path::join`: an absolute path replaces what stands before it.
unfoldable pub join : Text → Text → Text
join dir p =
    if starts_with (b'/' ∷ []) p
    then p
    else if is_empty dir || ends_in_slash dir
    then dir ++ p
    else dir ++ (b'/' ∷ p)

abbrev pub located : Text → Answer Settings → Answer Settings
located path (done s) = done s
located path (refused m) = refused (caused (verbatim path) m)

unfoldable pub is_valid_name : Text → Bool
unfolding contains
is_valid_name name =
    not (contains (b'/' ∷ []) name || (contains (b'\\' ∷ []) name || contains (codes "..") name))

-- `read` is `read_to_string`, with its error in words.
unfoldable pub load_profile :
    (Entries → Entries) → (read : Text → Answer Text) → Text → Text → Answer Settings
unfolding join parse_profile is_valid_name
load_profile order read dir name =
    if is_valid_name name
    then (do
      text ← read (join dir (name ++ codes ".conf"))
      located (join dir (name ++ codes ".conf")) (parse_profile order text))
    else refused (caused (plain "invalid profile name") (verbatim name))

-- What the environment and the password database answer.
pub record Surroundings : Type 0 where
  pub xdg_config_home : Option Text
  pub home : Option Text
  pub sudo_user : Option Text
  pub home_of : Text → Option Text
  pub is_dir : Text → Bool

abbrev pub or_config : Option Text → Option Text → Option Text
or_config none none = none
or_config none (some h) = some (join h (codes ".config"))
or_config (some base) home = some base

abbrev pub profiles_in : Option Text → Option Text
profiles_in none = none
profiles_in (some base) = some (join (join base (codes "yellow-vpn")) (codes "profiles"))

unfoldable pub default_profile_dir : Surroundings → Option Text
unfolding join
default_profile_dir w = profiles_in (or_config w.xdg_config_home w.home)

-- The directory of the user who called `sudo`, where it is there.
abbrev pub or_default : Surroundings → Option Text → Option Text
or_default w none = default_profile_dir w
or_default w (some p) = if w.is_dir p then some p else default_profile_dir w

abbrev pub home_config : Option Text → Option Text
home_config none = none
home_config (some home) =
    some (join (join (join home (codes ".config")) (codes "yellow-vpn")) (codes "profiles"))

abbrev pub home_of_user : Surroundings → Option Text → Option Text
home_of_user w none = none
home_of_user w (some user) = w.home_of user

unfoldable pub profile_dir : Surroundings → Option Text → Option Text
unfolding join default_profile_dir
profile_dir w (some d) = some d
profile_dir w none = or_default w (home_config (home_of_user w w.sudo_user))
