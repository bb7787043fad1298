-- ===== src/Lib.antt =====
-- A model of the VPN engine, the crate at crates/vpn-engine, and of the programs around it: the
-- elevated helper, the command line and the desktop application. The engine opens a TLS session
-- by one of three protocols (AnyConnect's CSTP, Check Point's SLIM, FortiGate's PPP in TLS),
-- brings a TUN device and routes up, forwards packets between the TUN device and the tunnel until
-- one side ends it, takes the routes down, and reconnects. The command line runs it in its own
-- process; the desktop application talks to the helper, which runs it with privileges.
--
-- Files and sources, below crates/vpn-engine/src:
-- - Error: error.rs, the kinds of error, their messages as a format with its arguments.
-- - Ipv4: the addresses of std::net. Config: config.rs, the configuration and the certificate pin
--   (child Fingerprint).
-- - Login: auth.rs, the AnyConnect login (child Escape).
-- - Tunnel: tunnel.rs, the CSTP packet codec (write_header, parse_header, decode,
--   try_decode_cstp); Tunnel.Session: the upgrade (build_connect_request, parse_connect_response,
--   cstp_connect); Tunnel.Tls: the verifiers of the certificate and connect_tls. TunDevice:
--   tun_device.rs.
-- - Checkpoint.Framing: checkpoint/framing.rs. Checkpoint.Ccc: checkpoint/ccc.rs, values, to_wire
--   and the parser (children Total, RoundTrip, Refuse). Checkpoint.Cipher: checkpoint/cipher.rs.
--   Checkpoint.Auth: checkpoint/auth.rs. Checkpoint.Ranges and Checkpoint.Session:
--   checkpoint/session.rs, the routes of a range, the client_hello, parse_hello_reply,
--   establish_session, and the redaction of the cookie (child Redact).
-- - Fortigate.Framing: fortigate/framing.rs. Fortigate.Ppp, Fortigate.PppIo and
--   Fortigate.Negotiate: fortigate/ppp.rs, the control packets and frames, the buffered reader
--   with the HTTP prologue, and `negotiate` with its LCP and IPCP loops (children Lcp and Ipcp).
--   Fortigate.Http: fortigate/http.rs, requests, heads and chunked bodies; its child Request
--   reads responses and keeps the connection, and SetCookie is about the value of a cookie.
--   Fortigate.Login: fortigate/auth.rs. Fortigate.Settings: fortigate/config.rs.
--   Fortigate.Session: fortigate/session.rs.
-- - Framer: framer.rs, the trait TunnelFramer with its three implementations as one data type.
-- - Forward: forward.rs, `run_forwarding`: a step for each arm of its `select!`, run over a list
--   of events; the outcomes of reads and writes are part of the events and of the record Writes.
-- - Routing: routing.rs, RoutingGuard over a routing handle, which is a parameter (Handle) with
--   the laws RoutingLaws.
-- - Client: client.rs, the attempts over the outcomes of their stages, the backoff and
--   `run_client_supervised` over a list of turns.
-- - Helper: crates/vpn-ipc/src/lib.rs and the module `proto` of crates/vpn-helper/src/main.rs:
--   `serve` as a function from the lines of the interface to a list of effects; Helper.Teardown
--   relates it to a controller that knows only which tunnel is wanted. Helper.Socket: the module
--   `unix_impl`, with the system calls as effects.
-- - Cli: crates/vpn-cli/src/main.rs, settings and arguments; its children Profile (files),
--   Password (sources and prompt) and Command (connect, probe, privileges).
-- - Desktop: src-tauri/src/lib.rs, the state of the application, its commands and the relay of
--   messages; Desktop.Pipe: src-tauri/src/pipe.rs.
-- - Common: numbers, lists, bytes, big-endian words, UTF-8, the methods of `str` (Str), finite
--   tables (Table). Tests: concrete runs.
--
-- A buffer that the source changes in place is passed and returned. A loop that reads from a
-- stream is a recursion on the list of what its reads answer. Bytes are numbers, and a theorem
-- that needs them below 256 says so. Machine integers keep their casts (`as_u8`, `as_u16`,
-- `as_u32`), their saturation, and in fortigate/http.rs the sums of a `usize` that wrap around in
-- a release build.
--
-- Fuel: the inner loop of the forwarding loop runs on the length of the buffer plus one, since
-- each frame takes a byte at least; the search for the hello_reply likewise; the CCC parser on
-- the length of its text, and the levels of nesting; the chunk decoder on the length of the
-- buffer, since a round passes a line end; the attribute scanner on the length of its fragment.
-- The range loop runs on the number of its addresses, since a round advances by one at least. The
-- loops of `negotiate`, of the forwarding loop, of the client, of the helper and of the
-- application are recursions on the rounds, events, turns, lines and requests that happen; the
-- polling of the helper runs on its 150 attempts, and the arguments of the command line are
-- consumed by structural recursion.
--
-- Not modelled: sockets, the inside of TLS, the digest, the TUN driver and signals, whose
-- outcomes are arguments; the arithmetic on floating-point numbers that jitters a delay, which is
-- a parameter; the JSON of the lines between application and helper, a parameter, and the pipe of
-- Windows; two commands of the application at once; the profile database, whose statements SQLite
-- runs; the listing and the printed reports of the command line; the interface itself. Log lines
-- and most variants for Windows and Android are left out.
pub mod Common
pub mod Ipv4
pub mod Error
pub mod Checkpoint
pub mod Fortigate
pub mod Tunnel
pub mod Framer
pub mod Routing
pub mod Forward
pub mod Client
pub mod Cli
pub mod Desktop
pub mod TunDevice
pub mod Config
pub mod Helper
pub mod Login
mod Tests
