-- ===== src/Tests/Desktop.antt =====
-- src-tauri/src, crates/vpn-helper/src/main.rs and the engine: the desktop application, the helper's
-- socket, the opening of the tunnel, the names of interfaces and the log at concrete inputs.
use yellow_vpn.Common.{
  ℕ, zero, suc, ◌+◌, ◌-◌, ◌*◌, ◌/◌, ◌%◌, ◌^◌, ◌≤◌, ◌<◌, String, ◌≡◌, refl, sym, ap, ◌∙◌, ◌≢◌, ◌↔◌,
  ◌⊎◌, inl, inr, Bool, true, false, not, ◌&&◌, ◌||◌, Option, none, some, List, [], ◌∷◌, ◌++◌, map,
  append-nil, append_assoc, arith, ltb, leb, ◌==◌, if◌then◌else◌, ltb→lt, ltb→le, lt→ltb, le→ltb,
  leb→le, ==_iff, ==_self, Bool-cases, Option-cases, length, get_or, take, drop, All, length-append,
  take-append-drop, length-take, length-drop, take-length_append, drop-length_append, take-append,
  drop-append, All-append, Bytes, IsByte, as_u8, as_u16, as_u32, be16, from_be16, be32, from_be32,
  from_be16-be16, from_be32-be32, as_bytes, from_utf8_lossy, IsScalar, from_utf8_lossy-as_bytes,
  as_bytes-append, codes,
}
use yellow_vpn.Error.{Text, Message, plain, Result, ok, err}
use yellow_vpn.Ipv4.{ipv4}
use yellow_vpn.Client.{pinned}
use yellow_vpn.Tunnel.Tls.{
  Crypto, Verifier, root_store, insecure_verifier, pinned_verifier, Dial, verify_server_cert,
  verify_tls_signature,
}
use yellow_vpn.Helper.{
  wire_forti_gate, ClientMessage, state, state_established, state_connecting, bye,
}
use yellow_vpn.Helper.Socket.{
  SocketAnswers, already_exists, peer, no_credentials, owner_uid, unix_main,
}
use yellow_vpn.Helper.Socket.Guarded.{IsGuarded, unix_main-IsGuarded}
use yellow_vpn.Desktop.{
  ConnectArgs, PipeAnswers, Request, ask_connect, ask_disconnect, default_state, session, relay,
}
use yellow_vpn.Desktop.Once.{opens, session-opens}
use yellow_vpn.Desktop.Relay.{Relays, messages, relay-Relays}
use yellow_vpn.Desktop.Pipe.{done, script, spawn_script, connect_with_spawn}
use yellow_vpn.Desktop.Pipe.Shell.{ReadsAs, spawn_script-ReadsAs}
use yellow_vpn.TunDevice.{encode_wide_nul}
use yellow_vpn.TunDevice.Wide.{read_wide, read_wide-encode_wide_nul}
use yellow_vpn.Checkpoint.Session.{default_hello_opts, build_client_hello}
use yellow_vpn.Checkpoint.Session.Redact.{hello_line, hello_line-build_client_hello}
use yellow_vpn.Fortigate.PppIo.{chunk}
use yellow_vpn.Fortigate.Negotiate.{Round}
use yellow_vpn.Fortigate.Negotiate.Ipcp.{PppSession}
use yellow_vpn.Fortigate.Session.{build_tunnel_request, Upgrade, open_tunnel}
use yellow_vpn.Fortigate.Session.Opened.{HandshakeLaw, IsServer, WritesTo, open_tunnel-WritesTo}

abbrev args : ConnectArgs
args = record {
  config = record {
    host = codes "gw";
    port = 443;
    username = codes "alice";
    protocol = wire_forti_gate;
    cert_sha256 = none;
    insecure = false;
    verbose = false;
    realm = none;
  };
  password = codes "secret";
  profile_name = codes "work";
}

abbrev alive : ℕ → PipeAnswers
alive n = record { held_write = none; connected = none; fresh = n; fresh_write = none }

abbrev requests : List (PipeAnswers × Request)
requests =
    (alive 1, ask_connect args) ∷ ((alive 2, ask_disconnect) ∷ ((alive 3, ask_connect args) ∷ []))

session-opens_example : opens (session requests default_state).0 ≤ 1
session-opens_example = session-opens requests ((refl, refl), ((refl, refl), ((refl, refl), tt)))

abbrev from_str : Text → Option ClientMessage
from_str (c ∷ []) =
    if c == b'c'
    then some (state state_connecting)
    else if c == b'e'
    then some (state state_established)
    else if c == b'b'
    then some bye
    else none
from_str _ = none

abbrev written : List Text
written = codes "c" ∷ codes "noise" ∷ codes "e" ∷ codes "b" ∷ codes "c" ∷ []

relay-Relays_example : Relays (messages from_str written) (relay from_str written default_state)
relay-Relays_example = relay-Relays from_str written default_state

messages_read :
    messages from_str written ≡ state state_connecting ∷ state state_established ∷ bye ∷ []
messages_read = refl

abbrev helper_path : Text
helper_path = codes "/Applications/Yellow VPN.app/yellow-vpn-helper"

script_made : spawn_script helper_path 501 ≡ done (script helper_path 501)
unfolding spawn_script
script_made = refl

spawn_script-ReadsAs_example : ReadsAs helper_path 501 (script helper_path 501)
spawn_script-ReadsAs_example =
    spawn_script-ReadsAs helper_path 501 (script helper_path 501) script_made

third_attempt : connect_with_spawn (λ k. k == 3) none ≡ done 3
unfolding connect_with_spawn
third_attempt = refl

abbrev answers : SocketAnswers
answers = record {
  argument = some (codes "501");
  directory = record {
    create = already_exists;
    is_dir = inr true;
    chown = none;
    set_permissions = none;
  };
  umask = 0o022;
  bind = none;
  chown = none;
  set_mode = none;
  accepts = peer 502 ∷ no_credentials ∷ peer 501 ∷ [];
  stale_removal = some (plain "No such file or directory");
  removal = none;
}

unix_main-IsGuarded_example :
    IsGuarded answers
      (owner_uid answers)
      (record { umask = 0o022; socket = none })
      (unix_main answers)
unix_main-IsGuarded_example = unix_main-IsGuarded answers 0o022

read_wide-encode_wide_nul_example :
    read_wide (encode_wide_nul (0x59 ∷ 0x1F4DE ∷ []) ++ (0x5A ∷ 0x5B ∷ []))
    ≡ some (0x59 ∷ 0x1F4DE ∷ [])
read_wide-encode_wide_nul_example =
    read_wide-encode_wide_nul (0x59 ∷ 0x1F4DE ∷ []) (0x5A ∷ 0x5B ∷ [])
      ((inl (omega arith), refl), ((inr (omega arith, omega arith), refl), tt))

hello_line-build_client_hello_example :
    ((hello_line (build_client_hello (codes "c00k1e") (codes "0.0.0.0") default_hello_opts)).1
      ≡ build_client_hello (codes "<redacted>") (codes "0.0.0.0") default_hello_opts)
    × ((hello_line (build_client_hello (codes "c00k1e") (codes "0.0.0.0") default_hello_opts)).0
        ≡ length (as_bytes (codes "c00k1e"))
          + (hello_line (build_client_hello [] (codes "0.0.0.0") default_hello_opts)).0)
    × (hello_line (build_client_hello (codes "c00k1e") (codes "0.0.0.0") default_hello_opts)
        ≡ hello_line (build_client_hello (codes "s3cret") (codes "0.0.0.0") default_hello_opts))
unfolding as_bytes
hello_line-build_client_hello_example =
    hello_line-build_client_hello (codes "c00k1e") (codes "s3cret")
      (refl, (refl, (refl, (refl, (refl, (refl, tt))))))
      (refl, (refl, (refl, (refl, (refl, (refl, tt)))))) refl

abbrev silence : Round
silence = record { top = 0; now = 0; reads = []; write_error = none }

-- A gateway's requests, and its answers to ours, for LCP and for IPCP.
abbrev gateway : Bytes
gateway =
    0 ∷ 12 ∷ 80 ∷ 80 ∷ 0 ∷ 6 ∷ 192 ∷ 33 ∷ 1 ∷ 9 ∷ 0 ∷ 4 ∷ 0 ∷ 12 ∷ 80 ∷ 80 ∷ 0 ∷ 6 ∷ 192 ∷ 33 ∷ 2
    ∷ 1 ∷ 0 ∷ 4 ∷ 0 ∷ 12 ∷ 80 ∷ 80 ∷ 0 ∷ 6 ∷ 128 ∷ 33 ∷ 1 ∷ 9 ∷ 0 ∷ 4 ∷ 0 ∷ 18 ∷ 80 ∷ 80 ∷ 0 ∷ 12
    ∷ 128 ∷ 33 ∷ 2 ∷ 1 ∷ 0 ∷ 10 ∷ 3 ∷ 6 ∷ 10 ∷ 1 ∷ 2 ∷ 3 ∷ []

-- Each certificate has this digest, and rustls asks the verifier of its configuration.
abbrev crypto : Crypto
crypto = record {
  sha256 = λ cert. 9 ∷ [];
  verify_chain = λ cert. ok tt;
  verify_signature = λ message cert signature. ok tt;
}

abbrev shaken : Result (Unit {0}) → Option Message
shaken (ok u) = none
shaken (err e) = some (plain "invalid certificate")

abbrev dial : Dial
dial = record {
  server_name = λ host. none;
  tcp = λ host port. none;
  handshake = λ config. shaken (verify_server_cert crypto config.verifier (7 ∷ []));
}

shaken-ok : (r : Result (Unit {0})) → shaken r ≡ none → r ≡ ok tt
shaken-ok (ok tt) h = refl
shaken-ok (err e) h = absurd (cc)

signed : (v : Verifier) → verify_tls_signature crypto v (5 ∷ []) (7 ∷ []) (6 ∷ []) ≡ ok tt
unfolding verify_tls_signature
signed root_store = refl
signed insecure_verifier = refl
signed (pinned_verifier pin) = refl

dial_law : HandshakeLaw dial crypto (7 ∷ []) (5 ∷ []) (6 ∷ [])
dial_law c h = (shaken-ok (verify_server_cert crypto c.verifier (7 ∷ [])) h, signed c.verifier)

abbrev upgrade : Upgrade
upgrade = record {
  dial = dial;
  write_error = none;
  magic = 7;
  lcp_request = silence;
  ipcp_request = silence;
  rounds = record silence { reads = chunk gateway ∷ [] } ∷ silence ∷ silence ∷ silence ∷ [];
}

abbrev negotiated_session : PppSession
negotiated_session = record {
  address = ipv4 10 1 2 3;
  peer = none;
  dns = [];
  mtu = 1354;
  magic = 7;
}

tunnel_opened :
    (open_tunnel upgrade (codes "gw") 443 (pinned (9 ∷ [])) (codes "C00K1E")).1
    ≡ some (ok (negotiated_session, []))
unfolding open_tunnel verify_server_cert yellow_vpn.Common.Str.text_eq
    yellow_vpn.Fortigate.Negotiate.Lcp.request yellow_vpn.Fortigate.Negotiate.send_request
    yellow_vpn.Fortigate.Negotiate.Lcp.lcp_phase yellow_vpn.Fortigate.Negotiate.negotiation
    yellow_vpn.Fortigate.Negotiate.Lcp.round yellow_vpn.Fortigate.PppIo.recv
    yellow_vpn.Fortigate.Ppp.try_decode_ppp yellow_vpn.Fortigate.Framing.try_decode_frame
    yellow_vpn.Fortigate.Ppp.parse_cp yellow_vpn.Fortigate.Ppp.parse_options
    yellow_vpn.Fortigate.Negotiate.Ipcp.request yellow_vpn.Fortigate.Negotiate.Ipcp.ipcp_phase
    yellow_vpn.Fortigate.Negotiate.Ipcp.round yellow_vpn.Fortigate.Ppp.opt_ipv4
tunnel_opened = refl

open_tunnel-WritesTo_example :
    WritesTo
      (IsServer crypto (9 ∷ []) (7 ∷ []) (5 ∷ []) (6 ∷ []))
      (as_bytes (build_tunnel_request (codes "C00K1E")))
      (open_tunnel upgrade (codes "gw") 443 (pinned (9 ∷ [])) (codes "C00K1E"))
open_tunnel-WritesTo_example =
    open_tunnel-WritesTo crypto (7 ∷ []) (5 ∷ []) (6 ∷ []) upgrade (codes "gw") 443 (9 ∷ [])
      (codes "C00K1E") dial_law
