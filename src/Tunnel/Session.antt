-- ===== src/Tunnel/Session.antt =====
-- crates/vpn-engine/src/tunnel.rs: the CSTP tunnel upgrade, from the CONNECT request to the
-- session parameters.
pub mod Bounds
use yellow_vpn.Common.{
  ℕ, zero, suc, ◌+◌, ◌-◌, ◌*◌, ◌/◌, ◌%◌, ◌^◌, ◌≤◌, ◌<◌, String, ◌≡◌, refl, sym, ap, ◌∙◌, ◌≢◌, ◌↔◌,
  ◌⊎◌, inl, inr, Bool, true, false, not, ◌&&◌, ◌||◌, Option, none, some, List, [], ◌∷◌, ◌++◌, map,
  append-nil, append_assoc, arith, ltb, leb, ◌==◌, if◌then◌else◌, ltb→lt, ltb→le, lt→ltb, le→ltb,
  leb→le, ==_iff, ==_self, Bool-cases, Option-cases, length, get_or, take, drop, All, length-append,
  take-append-drop, length-take, length-drop, take-length_append, drop-length_append, take-append,
  drop-append, All-append, Bytes, IsByte, as_u8, as_u16, as_u32, be16, from_be16, be32, from_be32,
  from_be16-be16, from_be32-be32, as_bytes, from_utf8_lossy, IsScalar, from_utf8_lossy-as_bytes,
  codes,
}
use yellow_vpn.Common.Str.{
  crlf, text_eq, contains, split_once, trim, to_lowercase, lines, parse_nat, u16_max, u32_max,
}
use yellow_vpn.Error.{
  ensure, ◌>>◌, Text, Message, format, verbatim, caused, plain, VpnError, config, privilege, tun,
  tun_unavailable, routing, tls, protocol, auth_failed, server_disconnect, io, not_implemented,
  is_permanent, Result, ok, err, ◌>>=◌, Result-cases,
}
use yellow_vpn.Ipv4.{Ipv4Addr, parse_ipv4}

abbrev pub connect_response_max : ℕ
connect_response_max = 64 * 1024

abbrev pub default_mtu : ℕ
default_mtu = 1400

-- A request's lines, each with its line end.
abbrev pub crlf_lines : List Text → Text
crlf_lines [] = []
crlf_lines (l ∷ ls) = l ++ (13 ∷ (10 ∷ crlf_lines ls))

unfoldable pub build_connect_request : Text → Text → Text
build_connect_request host cookie = crlf_lines (
    codes "CONNECT /CSCOSSLC/tunnel HTTP/1.1"
    ∷ (codes "Host: " ++ host)
    ∷ codes "User-Agent: AnyConnect Windows 4.10.05085"
    ∷ (codes "Cookie: webvpn=" ++ cookie)
    ∷ codes "X-CSTP-Version: 1"
    ∷ codes "X-CSTP-Hostname: vpn-client"
    ∷ codes "X-CSTP-Address-Type: IPv4"
    ∷ codes "X-CSTP-MTU: 1400"
    ∷ codes "X-CSTP-Base-MTU: 1400"
    ∷ codes "X-CSTP-Full-IPv6-Capability: false"
    ∷ []
    ∷ [])

pub record SessionParams : Type 0 where
  pub address : Ipv4Addr
  pub netmask : Option Ipv4Addr
  pub dns : List Ipv4Addr
  pub mtu : ℕ
  pub keepalive : Option ℕ
  pub dpd : Option ℕ
  pub disconnected_timeout : Option ℕ

-- The variables of the loop over the header lines.
pub record Headers : Type 0 where
  pub address : Option Ipv4Addr
  pub netmask : Option Ipv4Addr
  pub dns : List Ipv4Addr
  pub mtu : ℕ
  pub keepalive : Option ℕ
  pub dpd : Option ℕ
  pub disconnected_timeout : Option ℕ

abbrev pub no_headers : Headers
no_headers = record {
  address = none;
  netmask = none;
  dns = [];
  mtu = default_mtu;
  keepalive = none;
  dpd = none;
  disconnected_timeout = none;
}

abbrev pub push_dns : Option Ipv4Addr → List Ipv4Addr → List Ipv4Addr
push_dns none dns = dns
push_dns (some a) dns = dns ++ (a ∷ [])

abbrev pub or_keep : Option ℕ → ℕ → ℕ
or_keep none old = old
or_keep (some n) old = n

-- The match on a header's name, which is in lower case.
unfoldable pub on_header : Text → Text → Headers → Headers
unfolding text_eq parse_ipv4 parse_nat
on_header name value h =
    if text_eq name (codes "x-cstp-address")
    then record h { address = parse_ipv4 value }
    else if text_eq name (codes "x-cstp-netmask")
    then record h { netmask = parse_ipv4 value }
    else if text_eq name (codes "x-cstp-dns")
    then record h { dns = push_dns (parse_ipv4 value) h.dns }
    else if text_eq name (codes "x-cstp-mtu")
    then record h { mtu = or_keep (parse_nat u16_max value) h.mtu }
    else if text_eq name (codes "x-cstp-keepalive")
    then record h { keepalive = parse_nat u32_max value }
    else if text_eq name (codes "x-cstp-dpd")
    then record h { dpd = parse_nat u32_max value }
    else if text_eq name (codes "x-cstp-disconnected-timeout")
    then record h { disconnected_timeout = parse_nat u32_max value }
    else h

abbrev pub on_line : Option (Text × Text) → Headers → Headers
on_line none h = h
on_line (some (name, value)) h = on_header (to_lowercase (trim name)) (trim value) h

-- The lines up to an empty one.
unfoldable pub read_headers : List Text → Headers → Headers
unfolding on_header split_once to_lowercase trim
read_headers [] h = h
read_headers ([] ∷ ls) h = h
read_headers ((c ∷ cs) ∷ ls) h = read_headers ls (on_line (split_once (b':' ∷ []) (c ∷ cs)) h)

abbrev pub session_params : Headers → Option Ipv4Addr → Result SessionParams
session_params h none =
    err (tls (plain "server did not assign an address (missing X-CSTP-Address)"))
session_params h (some address) = ok (record {
  address = address;
  netmask = h.netmask;
  dns = h.dns;
  mtu = h.mtu;
  keepalive = h.keepalive;
  dpd = h.dpd;
  disconnected_timeout = h.disconnected_timeout;
})

abbrev pub parse_response_lines : List Text → Result SessionParams
parse_response_lines [] = err (tls (caused (plain "unexpected CONNECT response") (verbatim [])))
parse_response_lines (status ∷ ls) =
    if contains (codes "200") status
    then session_params (read_headers ls no_headers) (read_headers ls no_headers).address
    else err (tls (caused (plain "unexpected CONNECT response") (verbatim status)))

unfoldable pub parse_connect_response : Text → Result SessionParams
unfolding contains read_headers lines
parse_connect_response raw = parse_response_lines (lines raw)

-- A read from the stream: its bytes, none at the end, or the error.
pub data StreamRead : Type 0 where
  read : Bytes → StreamRead
  failed : Message → StreamRead

abbrev pub header_terminator : Bytes
header_terminator = 13 ∷ 10 ∷ 13 ∷ 10 ∷ []

-- What follows a read: the answer, or, with none, another read of the rest.
abbrev pub on_bytes :
    Bytes → (Bytes → Option (Result SessionParams)) → Option (Result SessionParams)
on_bytes buf more =
    if contains header_terminator buf
    then some (parse_connect_response (from_utf8_lossy buf))
    else if ltb connect_response_max (length buf)
    then some (err (tls (plain "CONNECT response exceeded size guard before headers ended")))
    else more buf

-- The loop, on what the reads answer; `none` while it waits for another.
unfoldable pub read_connect_response : List StreamRead → Bytes → Option (Result SessionParams)
unfolding parse_connect_response contains
read_connect_response [] buf = none
read_connect_response (failed m ∷ reads) buf = some (err (io m))
read_connect_response (read [] ∷ reads) buf =
    some (err (tls (plain "connection closed before CONNECT response completed")))
read_connect_response (read (b ∷ bs) ∷ reads) buf =
    on_bytes (buf ++ (b ∷ bs)) (λ buf'. read_connect_response reads buf')

-- `written` is the error of the write or of the flush, if there is one. The request stands beside
-- the answer.
unfoldable pub cstp_connect :
    Text → Text → Option Message → List StreamRead → Bytes × Option (Result SessionParams)
unfolding build_connect_request read_connect_response
cstp_connect host cookie (some m) reads =
    (as_bytes (build_connect_request host cookie), some (err (io m)))
cstp_connect host cookie none reads =
    (as_bytes (build_connect_request host cookie), read_connect_response reads [])
