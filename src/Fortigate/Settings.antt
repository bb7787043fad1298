-- ===== src/Fortigate/Settings.antt =====
-- crates/vpn-engine/src/fortigate/config.rs: the tunnel's configuration in the gateway's XML, and
-- the session parameters that it and PPP give. The `Display` of log lines is left out.
pub mod Bounds
use mathlib.Core.Option
use Prim.Native.Nat.{min}
use yellow_vpn.Common.{
  ℕ, zero, suc, ◌+◌, ◌-◌, ◌*◌, ◌/◌, ◌%◌, ◌^◌, ◌≤◌, ◌<◌, String, ◌≡◌, refl, sym, ap, ◌∙◌, ◌≢◌, ◌↔◌,
  ◌⊎◌, inl, inr, Bool, true, false, not, ◌&&◌, ◌||◌, Option, none, some, List, [], ◌∷◌, ◌++◌, map,
  append-nil, append_assoc, arith, ltb, leb, ◌==◌, if◌then◌else◌, ltb→lt, ltb→le, lt→ltb, le→ltb,
  leb→le, ==_iff, ==_self, Bool-cases, Option-cases, length, get_or, take, drop, All, length-append,
  take-append-drop, length-take, length-drop, take-length_append, drop-length_append, take-append,
  drop-append, All-append, Bytes, IsByte, as_u8, as_u16, as_u32, be16, from_be16, be32, from_be32,
  from_be16-be16, from_be32-be32, as_bytes, from_utf8_lossy, IsScalar, from_utf8_lossy-as_bytes,
  codes,
}
use yellow_vpn.Common.Str.{
  text_eq, split_on, split_once, span_until, strip_prefix, trim_start, is_whitespace, is_empty,
  parse_nat, u8_max, u32_max,
}
use yellow_vpn.Error.{
  ensure, ◌>>◌, Text, Message, format, verbatim, caused, plain, VpnError, config, privilege, tun,
  tun_unavailable, routing, tls, protocol, auth_failed, server_disconnect, io, not_implemented,
  is_permanent, Result, ok, err, ◌>>=◌, Result-cases,
}
use yellow_vpn.Ipv4.{Ipv4Addr, ipv4, Subnet, holds_addr, to_u32, from_u32, parse_ipv4}
use yellow_vpn.Tunnel.Session.{SessionParams}
use yellow_vpn.Checkpoint.Session.{count_ones}
use yellow_vpn.Fortigate.Negotiate.Ipcp.{PppSession}
use yellow_vpn.Fortigate.Login.{Request}
use yellow_vpn.Fortigate.Http.{HttpResponse, in_name}

abbrev pub default_mtu : ℕ
default_mtu = 1354

abbrev pub default_keepalive_secs : ℕ
default_keepalive_secs = 30

pub record FortiConfig : Type 0 where
  pub address : Option Ipv4Addr
  pub netmask : Option Ipv4Addr
  pub dns : List Ipv4Addr
  pub dns_suffix : Option Text
  pub routes : List Subnet
  pub exclude_routes : List Subnet
  pub version : Option Text
  pub tunnel_methods : List Text
  pub idle_timeout : Option ℕ
  pub auth_timeout : Option ℕ

abbrev pub no_config : FortiConfig
no_config = record {
  address = none;
  netmask = none;
  dns = [];
  dns_suffix = none;
  routes = [];
  exclude_routes = [];
  version = none;
  tunnel_methods = [];
  idle_timeout = none;
  auth_timeout = none;
}

-- `clamp` of an ordered range.
abbrev pub clamp : ℕ → ℕ → ℕ → ℕ
clamp n lo hi = if ltb n lo then lo else if ltb hi n then hi else n

unfoldable pub keepalive_secs : Option ℕ → ℕ
keepalive_secs none = default_keepalive_secs
keepalive_secs (some t) = if ltb 0 t then clamp (t / 3) 5 60 else default_keepalive_secs

unfoldable pub push_new : Ipv4Addr → List Ipv4Addr → List Ipv4Addr
unfolding holds_addr
push_new a dns = if holds_addr dns a then dns else dns ++ (a ∷ [])

unfoldable pub push_all : List Ipv4Addr → List Ipv4Addr → List Ipv4Addr
unfolding push_new
push_all [] dns = dns
push_all (a ∷ as_) dns = push_all as_ (push_new a dns)

abbrev pub address_of : Option PppSession → Option Ipv4Addr → Ipv4Addr
address_of (some p) own = p.address
address_of none (some a) = a
address_of none none = ipv4 0 0 0 0

abbrev pub dns_of : Option PppSession → List Ipv4Addr
dns_of (some p) = p.dns
dns_of none = []

abbrev pub mtu_of : Option PppSession → ℕ
mtu_of (some p) = p.mtu
mtu_of none = default_mtu

unfoldable pub to_session_params : FortiConfig → Option PppSession → SessionParams
unfolding keepalive_secs push_all
to_session_params c ppp = record {
  address = address_of ppp c.address;
  netmask = c.netmask;
  dns = push_all (dns_of ppp ++ c.dns) [];
  mtu = mtu_of ppp;
  keepalive = some (keepalive_secs c.idle_timeout);
  dpd = none;
  disconnected_timeout = c.idle_timeout;
}

abbrev pub mask_to_prefix : Ipv4Addr → ℕ
mask_to_prefix mask = count_ones 32 (to_u32 mask)

-- `u32::MAX << (32 - p)`, with the bits behind the word lost.
unfoldable pub prefix_to_mask : ℕ → Ipv4Addr
prefix_to_mask prefix =
    let p = min prefix 32 in from_u32 (if p == 0 then 0 else as_u32 (u32_max * 2 ^ (32 - p)))

abbrev pub up_to : ℕ → Text → Option (Text × Text) → Option Text
up_to quote rest none = none
up_to quote rest (some (value, later)) = some value

-- What stands within quotes, behind the '='; with another text the search goes on.
abbrev pub quoted_value : Option Text → Text → Option Text
quoted_value retry [] = retry
quoted_value retry (c ∷ cs) =
    if c == b'\'' || c == b'"' then up_to c cs (split_once (c ∷ []) cs) else retry

abbrev pub value_behind : Option Text → Option Text → Option Text
value_behind retry none = retry
value_behind retry (some rest) = quoted_value retry (trim_start rest)

-- The search from a place on; `before` ends in the character in front of the place.
abbrev pub attr_at : (Text → Option Text) → Text → Option (Text × Text) → Option Text
attr_at more before none = none
attr_at more before (some (front, after)) =
    if in_name (before ++ front)
    then more after
    else value_behind (more after) (strip_prefix (b'=' ∷ []) (trim_start after))

unfoldable pub attr_from : ℕ → Text → Text → Text → Option Text
unfolding split_once strip_prefix trim_start
attr_from zero name before rest = none
attr_from (suc places) name before rest =
    attr_at (attr_from places name name) before (split_once name rest)

-- A place is behind the one before it, so the length bounds their number.
unfoldable pub attr : Text → Text → Option Text
unfolding attr_from
attr fragment name = attr_from (suc (length fragment)) name [] fragment

pub record Scan : Type 0 where
  pub cfg : FortiConfig
  pub in_split : Bool
  pub split_negated : Bool

abbrev pub or_keep : {A : Type 0} → Option A → Option A → Option A
or_keep (some a) old = some a
or_keep none old = old

abbrev pub mask_or_keep : Option ℕ → Option Ipv4Addr → Option Ipv4Addr
mask_or_keep (some p) old = some (prefix_to_mask p)
mask_or_keep none old = old

abbrev pub push_method : Option Text → List Text → List Text
push_method (some v) methods = methods ++ (v ∷ [])
push_method none methods = methods

abbrev pub push_dns : Option Ipv4Addr → List Ipv4Addr → List Ipv4Addr
push_dns (some a) dns = push_new a dns
push_dns none dns = dns

abbrev pub suffix_or_keep : Option Text → Option Text → Option Text
suffix_or_keep (some (c ∷ cs)) old = some (c ∷ cs)
suffix_or_keep _ old = old

abbrev pub is_negate : Option Text → Bool
is_negate none = false
is_negate (some v) = text_eq v (b'1' ∷ []) || text_eq v (codes "true")

abbrev pub prefix_of : Option Ipv4Addr → Option ℕ → Option ℕ
prefix_of (some m) p = some (mask_to_prefix m)
prefix_of none p = p

abbrev pub add_route : Bool → Option Ipv4Addr → Option ℕ → FortiConfig → FortiConfig
add_route negated (some ip) (some prefix) c =
    if negated
    then record c { exclude_routes = c.exclude_routes ++ ((ip, prefix) ∷ []) }
    else record c { routes = c.routes ++ ((ip, prefix) ∷ []) }
add_route negated _ _ c = c

abbrev pub address_attr : Text → String → Option Ipv4Addr
address_attr rest key = Option.bind (attr rest (codes key)) parse_ipv4

abbrev pub number_attr : ℕ → Text → String → Option ℕ
number_attr bound rest key = Option.bind (attr rest (codes key)) (parse_nat bound)

-- The match on the name of an element.
unfoldable pub on_element : Text → Text → Scan → Scan
unfolding text_eq attr parse_ipv4 parse_nat push_new prefix_to_mask count_ones Option.bind
on_element name rest s =
    if text_eq name (codes "sslvpn-tunnel")
    then record s { cfg = record s.cfg { version = attr rest (codes "ver") } }
    else if text_eq name (codes "tunnel-method")
    then record s {
      cfg = record s.cfg {
        tunnel_methods = push_method (attr rest (codes "value")) s.cfg.tunnel_methods;
      };
    }
    else if text_eq name (codes "idle-timeout")
    then record s { cfg = record s.cfg { idle_timeout = number_attr u32_max rest "val" } }
    else if text_eq name (codes "auth-timeout")
    then record s { cfg = record s.cfg { auth_timeout = number_attr u32_max rest "val" } }
    else if text_eq name (codes "assigned-addr")
    then record s {
      cfg = record s.cfg {
        address = or_keep (address_attr rest "ipv4") s.cfg.address;
        netmask = mask_or_keep (number_attr u8_max rest "prefix-len") s.cfg.netmask;
      };
    }
    else if text_eq name (codes "dns")
    then record s {
      cfg = record s.cfg {
        dns = push_dns (address_attr rest "ip") s.cfg.dns;
        dns_suffix = suffix_or_keep (attr rest (codes "domain")) s.cfg.dns_suffix;
      };
    }
    else if text_eq name (codes "split-tunnel-info")
    then record s { in_split = true; split_negated = is_negate (attr rest (codes "negate")) }
    else if text_eq name (codes "/split-tunnel-info")
    then record s { in_split = false; split_negated = false }
    else if text_eq name (codes "addr") && s.in_split
    then record s {
      cfg =
          add_route s.split_negated (address_attr rest "ip")
            (prefix_of (address_attr rest "mask") (number_attr u8_max rest "prefix-len")) s.cfg;
    }
    else s

abbrev pub on_fragment : Text → Scan → Scan
on_fragment frag s =
    let (name, rest) =
      span_until (λ c. is_whitespace c || (c == b'/' || c == b'>')) (trim_start frag) in
    on_element name rest s

unfoldable pub scan : List Text → Scan → Scan
unfolding on_element span_until trim_start is_whitespace
scan [] s = s
scan (frag ∷ frags) s = scan frags (on_fragment frag s)

unfoldable pub parse_config_xml : Text → Result FortiConfig
unfolding scan split_on
parse_config_xml body =
    ok
      (scan (split_on (λ c. c == b'<') body)
        (record { cfg = no_config; in_split = false; split_negated = false })).cfg

abbrev pub of_response : HttpResponse → Result FortiConfig
of_response resp =
    if leb 400 resp.status
    then err (protocol (format "FortiGate config fetch failed (HTTP {})" (resp.status ∷ [])))
    else parse_config_xml (from_utf8_lossy resp.body)

unfoldable pub config_request : Text → String → Request
config_request cookie path = record {
  method = codes "GET";
  path = codes path;
  cookie_value = some (codes "SVPNCOOKIE=" ++ cookie);
  body = none;
}

-- `send` is `HttpSession::request` on the state of the session and of the network.
module _ {S : Type 0} (send : S → Request → Result HttpResponse × S) where
  -- What the first two requests answer does not matter.
  unfoldable pub fetch_config_on : Text → S → Result FortiConfig × S
  unfolding config_request parse_config_xml
  fetch_config_on cookie s =
      let index = send s (config_request cookie "/remote/index") in
      let tunnel = send index.1 (config_request cookie "/remote/fortisslvpn") in
      let answer = send tunnel.1 (config_request cookie "/remote/fortisslvpn_xml") in
      (answer.0 >>= of_response, answer.1)
