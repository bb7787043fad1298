-- ===== src/Tests/Helper.antt =====
-- crates/vpn-helper/src/main.rs, and config.rs and auth.rs under crates/vpn-engine/src.
use yellow_vpn.Common.{
  ◌≡◌, refl, false, Option, none, some, List, [], ◌∷◌, ◌==◌, if◌then◌else◌, codes,
}
use yellow_vpn.Error.{Text, ok}
use yellow_vpn.Config.{parse_sha256_fingerprint}
use yellow_vpn.Helper.{
  WireConfig, wire_checkpoint, ClientCommand, connect, disconnect, shutdown, Checks, Incoming, line,
  eof, serve,
}
use yellow_vpn.Helper.Teardown.{running, wanted, listed, configs, running-serve}
use yellow_vpn.Login.{xml_escape, parse_auth_response}

abbrev profile : WireConfig
profile = record {
  host = codes "vpn.example.com";
  port = 443;
  username = codes "alice";
  protocol = wire_checkpoint;
  cert_sha256 = none;
  insecure = false;
  verbose = false;
  realm = none;
}

-- A parser of one-letter commands.
abbrev commands : Text → Option ClientCommand
commands [] = none
commands (c ∷ cs) =
    if c == b'c'
    then some (connect profile (codes "pw"))
    else if c == b'd'
    then some disconnect
    else some shutdown

abbrev granted_checks : Checks
granted_checks = record { privileges = ok tt; tun_availability = ok tt }

abbrev inputs : List Incoming
inputs =
    line (codes "c") granted_checks
    ∷ line [] granted_checks
    ∷ line (codes "c") granted_checks
    ∷ eof
    ∷ []

running-serve_example :
    (configs (running (serve commands inputs).0 []) ≡ listed (wanted commands inputs none).0)
    × ((serve commands inputs).1 ≡ (wanted commands inputs none).1)
running-serve_example = running-serve commands inputs

abbrev fingerprint : Text
fingerprint =
    codes
      "sha256:4C:B6:52:94:82:E0:85:E0:1C:79:4C:2D:83:20:CF:F8:BD:CD:C2:B8:EA:EE:1E:C7:27:39:89:9C:AE:1A:74:A7"

fingerprint_read :
    parse_sha256_fingerprint fingerprint
    ≡ ok (
        0x4c ∷ 0xb6 ∷ 0x52 ∷ 0x94 ∷ 0x82 ∷ 0xe0 ∷ 0x85 ∷ 0xe0 ∷ 0x1c ∷ 0x79 ∷ 0x4c ∷ 0x2d ∷ 0x83
        ∷ 0x20 ∷ 0xcf ∷ 0xf8 ∷ 0xbd ∷ 0xcd ∷ 0xc2 ∷ 0xb8 ∷ 0xea ∷ 0xee ∷ 0x1e ∷ 0xc7 ∷ 0x27 ∷ 0x39
        ∷ 0x89 ∷ 0x9c ∷ 0xae ∷ 0x1a ∷ 0x74 ∷ 0xa7 ∷ [])
unfolding parse_sha256_fingerprint
fingerprint_read = refl

escaped : xml_escape (codes "a<b&c") ≡ codes "a&lt;b&amp;c"
unfolding xml_escape
escaped = refl

cookie_found :
    parse_auth_response (codes "HTTP/1.1 200 OK\r\nSet-Cookie: webvpn=abc; path=/\r\n\r\n")
    ≡ ok (codes "abc")
unfolding parse_auth_response
cookie_found = refl
