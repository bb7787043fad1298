-- ===== src/Tests/Cli.antt =====
-- crates/vpn-cli/src/main.rs and crates/vpn-engine/src/tunnel.rs: runs of the command line, and the
-- theorems about it and about the pin of a certificate at concrete inputs.
use mathlib.Core.List.{Permᴰ}
use mathlib.Core.List.Permᴰ
use yellow_vpn.Common.{
  ℕ, zero, suc, ◌+◌, ◌-◌, ◌*◌, ◌/◌, ◌%◌, ◌^◌, ◌≤◌, ◌<◌, String, ◌≡◌, refl, sym, ap, ◌∙◌, ◌≢◌, ◌↔◌,
  ◌⊎◌, inl, inr, Bool, true, false, not, ◌&&◌, ◌||◌, Option, none, some, List, [], ◌∷◌, ◌++◌, map,
  append-nil, append_assoc, arith, ltb, leb, ◌==◌, if◌then◌else◌, ltb→lt, ltb→le, lt→ltb, le→ltb,
  leb→le, ==_iff, ==_self, Bool-cases, Option-cases, length, get_or, take, drop, All, length-append,
  take-append-drop, length-take, length-drop, take-length_append, drop-length_append, take-append,
  drop-append, All-append, Bytes, IsByte, as_u8, as_u16, as_u32, be16, from_be16, be32, from_be32,
  from_be16-be16, from_be32-be32, as_bytes, from_utf8_lossy, IsScalar, from_utf8_lossy-as_bytes,
  codes,
}
use yellow_vpn.Common.Str.{lines, starts_with, contains}
use yellow_vpn.Error.{Text, plain, ok, err}
use yellow_vpn.Config.{checkpoint, forti_gate}
use yellow_vpn.Client.{insecure, pinned}
use yellow_vpn.Common.Str.{text_eq}
use yellow_vpn.Cli.{
  Answer, done, refused, Settings, default_settings, merge_over, parse_from, parse_args,
}
use yellow_vpn.Cli.Args.{parse_from-inline}
use yellow_vpn.Cli.Said.{to_args, parse_args-to_args}
use yellow_vpn.Cli.Profile.{Entries, Surroundings, join, read_lines, parse_profile, load_profile}
use yellow_vpn.Cli.Profile.Order.{parse_profile-Reorders}
use yellow_vpn.Cli.Profile.Contained.{IsEntryName, load_profile-Contained}
use yellow_vpn.Cli.Password.{Terminal, byte, resolve_password}
use yellow_vpn.Cli.Password.Kept.{IsKept, resolve_password-IsKept}
use yellow_vpn.Cli.Command.{
  World, cmd_connect, cmd_probe, connect_config, probe_call, probe_checkpoint,
}
use yellow_vpn.Cli.Trust.{SameTarget, cmd_probe-SameTarget}
use yellow_vpn.Tunnel.Tls.{build_tls_config, Crypto, mismatch, verify_server_cert}
use yellow_vpn.Tunnel.Tls.Pin.{IsShown, shown, verify_server_cert-shown}

abbrev said : Settings
said = record {
  host = some (codes "vpn.example.com");
  port = some 8443;
  username = some (codes "alice");
  password = none;
  protocol = some forti_gate;
  realm = none;
  insecure = some true;
  servercert = none;
  verbose = true;
  password_stdin = false;
  profile_dir = none;
}

arguments_read :
    parse_args (
      codes "work"
      ∷ codes "--host"
      ∷ codes "vpn.example.com"
      ∷ codes "-p"
      ∷ codes "8443"
      ∷ codes "-u"
      ∷ codes "alice"
      ∷ codes "--protocol"
      ∷ codes "fortigate"
      ∷ codes "--insecure"
      ∷ codes "-v"
      ∷ [])
    ≡ done (said, some (codes "work"))
unfolding parse_args
arguments_read = refl

-- A value given to a switch is passed over: certificates are not verified here.
insecure_whatever :
    parse_args (codes "--insecure=false" ∷ [])
    ≡ done (record default_settings { insecure = some true }, none)
unfolding parse_args
insecure_whatever = refl

parse_args-to_args_example :
    parse_args (to_args said (some (codes "work"))) ≡ done (said, some (codes "work"))
unfolding yellow_vpn.Common.Str.contains yellow_vpn.Cli.flag_of
parse_args-to_args_example =
    parse_args-to_args said (some (codes "work")) (refl, (λ h. ground arith), omega arith)
      (refl, refl)

parse_from-inline_example :
    parse_from (codes "--realm=a=b" ∷ codes "work" ∷ []) (default_settings, none)
    ≡ parse_from (codes "--realm" ∷ codes "a=b" ∷ codes "work" ∷ []) (default_settings, none)
unfolding yellow_vpn.Common.Str.contains yellow_vpn.Cli.flag_of
parse_from-inline_example =
    parse_from-inline (codes "--realm") (codes "a=b") (codes "work" ∷ []) (default_settings, none)
      refl refl refl

abbrev profile : Text
profile = codes "# gateway\nhost = vpn.example.com\nport=443 # inline\n"

abbrev read_profile : Settings
read_profile = record default_settings { host = some (codes "vpn.example.com"); port = some 443 }

abbrev kept : Entries → Entries
kept kv = kv

abbrev swapped : Entries → Entries
swapped (a ∷ (b ∷ kv)) = b ∷ (a ∷ kv)
swapped kv = kv

swapped-perm : (kv : Entries) → Permᴰ kv (swapped kv)
swapped-perm [] = Permᴰ.nil
swapped-perm (a ∷ []) = Permᴰ.refl (a ∷ [])
swapped-perm (a ∷ (b ∷ kv)) = Permᴰ.swap refl refl

profile_read : parse_profile kept profile ≡ done read_profile
unfolding parse_profile
profile_read = refl

profile_entries :
    read_lines 0 (lines profile) []
    ≡ done ((codes "host", codes "vpn.example.com") ∷ ((codes "port", codes "443") ∷ []))
unfolding read_lines lines
profile_entries = refl

-- Two keys of one setting: the one that the map yields last wins.
alias_kept :
    parse_profile kept (codes "host = a\ngateway = b")
    ≡ done (record default_settings { host = some (codes "b") })
unfolding parse_profile
alias_kept = refl

alias_swapped :
    parse_profile swapped (codes "host = a\ngateway = b")
    ≡ done (record default_settings { host = some (codes "a") })
unfolding parse_profile
alias_swapped = refl

parse_profile-Reorders_example : parse_profile swapped profile ≡ done read_profile
unfolding yellow_vpn.Cli.Profile.key_of read_lines lines
parse_profile-Reorders_example =
    parse_profile-Reorders kept swapped profile read_profile (λ kv. Permᴰ.refl kv) swapped-perm
      (((λ h. ground arith), tt), (tt, tt)) profile_read

-- Two file systems that agree below one directory.
abbrev everywhere : Text → Answer Text
everywhere path = done (codes "host = a")

abbrev only_below : Text → Answer Text
only_below path =
    if starts_with (codes "/p/") path then done (codes "host = a") else refused (plain "no file")

agree :
    (c : Text) → IsEntryName c → everywhere (join (codes "/p") c) ≡ only_below (join (codes "/p") c)
unfolding join contains
agree [] h = refl
agree (x ∷ c) (h, dot, dots) = let other : (b'/' == x) ≡ false = ground arith in rw other refl

load_profile-Contained_example :
    load_profile kept everywhere (codes "/p") (codes "work")
    ≡ load_profile kept only_below (codes "/p") (codes "work")
load_profile-Contained_example =
    load_profile-Contained kept everywhere only_below (codes "/p") (codes "work") agree

abbrev terminal : Terminal
terminal = record {
  opened = done tt;
  attributes = done tt;
  quieted = done tt;
  reads = byte b's' ∷ byte b'e' ∷ byte b'c' ∷ byte 13 ∷ byte 10 ∷ [];
  restored = none;
}

resolve_password-IsKept_example :
    IsKept none (
      resolve_password said (refused (plain "no input")) (some []) terminal (codes "h") (codes "u"))
resolve_password-IsKept_example =
    resolve_password-IsKept said (refused (plain "no input")) (some []) terminal (codes "h")
      (codes "u")

abbrev world : World
world = record {
  surroundings = record {
    xdg_config_home = none;
    home = none;
    sudo_user = none;
    home_of = λ user. none;
    is_dir = λ dir. false;
  };
  order = kept;
  read = everywhere;
  stdin = refused (plain "no input");
  env_password = some (codes "secret");
  terminal = terminal;
  is_root = true;
  status = none;
}

abbrev arguments : List Text
arguments =
    codes "-H"
    ∷ codes "gw"
    ∷ codes "-u"
    ∷ codes "alice"
    ∷ codes "--protocol=snx"
    ∷ codes "--insecure"
    ∷ []

abbrev settings : Settings
settings = record default_settings {
  host = some (codes "gw");
  username = some (codes "alice");
  protocol = some checkpoint;
  insecure = some true;
}

connect_ready :
    (cmd_connect world arguments).1
    ≡ some (done (connect_config settings (codes "gw") (codes "alice") none, codes "secret"))
unfolding cmd_connect
connect_ready = refl

probe_ready :
    (cmd_probe world arguments).1
    ≡ some (done (probe_call settings (codes "gw") (codes "alice") insecure (codes "secret")))
unfolding cmd_probe
probe_ready = refl

cmd_probe-SameTarget_example :
    SameTarget
      (probe_call settings (codes "gw") (codes "alice") insecure (codes "secret"))
      (connect_config settings (codes "gw") (codes "alice") none)
      (codes "secret")
cmd_probe-SameTarget_example =
    cmd_probe-SameTarget world arguments (connect_config settings (codes "gw") (codes "alice") none)
      (codes "secret") (probe_call settings (codes "gw") (codes "alice") insecure (codes "secret"))
      connect_ready probe_ready

-- A probe that fails behind the authentication does not sign its session out.
probe_leaks :
    probe_checkpoint (record {
      ccc = done (1 ∷ [], 443);
      active_key = done [];
      tls = λ port. done tt;
      session = refused (plain "timeout");
    })
    ≡ (refused (plain "timeout"), [])
unfolding probe_checkpoint
probe_leaks = refl

unfoldable repeat : ℕ → Bytes
repeat zero = []
repeat (suc n) = (200 - n) ∷ repeat n

repeat-IsByte : (n : ℕ) → All IsByte (repeat n)
unfolding repeat
repeat-IsByte zero = tt
repeat-IsByte (suc n) = (omega arith, repeat-IsByte n)

-- The bytes from 169 on.
abbrev digest : Bytes
digest = repeat 32

-- All that rustls does succeeds, and each certificate has this digest.
abbrev crypto : Crypto
crypto = record {
  sha256 = λ cert. digest;
  verify_chain = λ cert. ok tt;
  verify_signature = λ message cert signature. ok tt;
}

wrong_pin :
    verify_server_cert crypto (build_tls_config (pinned (1 ∷ []))).verifier (7 ∷ [])
    ≡ err (mismatch (1 ∷ []) digest)
unfolding verify_server_cert build_tls_config repeat text_eq
wrong_pin = refl

verify_server_cert-shown_example : IsShown crypto (7 ∷ []) (shown (mismatch (1 ∷ []) digest))
unfolding repeat
verify_server_cert-shown_example =
    verify_server_cert-shown crypto (1 ∷ []) (7 ∷ []) (repeat-IsByte 32) refl wrong_pin
