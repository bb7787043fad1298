-- ===== src/Fortigate/Session.antt =====
-- crates/vpn-engine/src/fortigate/session.rs: the request that turns a connection into the tunnel,
-- and the negotiation behind it.
pub mod Opened
use yellow_vpn.Common.{
  ℕ, zero, suc, ◌+◌, ◌-◌, ◌*◌, ◌/◌, ◌%◌, ◌^◌, ◌≤◌, ◌<◌, String, ◌≡◌, refl, sym, ap, ◌∙◌, ◌≢◌, ◌↔◌,
  ◌⊎◌, inl, inr, Bool, true, false, not, ◌&&◌, ◌||◌, Option, none, some, List, [], ◌∷◌, ◌++◌, map,
  append-nil, append_assoc, arith, ltb, leb, ◌==◌, if◌then◌else◌, ltb→lt, ltb→le, lt→ltb, le→ltb,
  leb→le, ==_iff, ==_self, Bool-cases, Option-cases, length, get_or, take, drop, All, length-append,
  take-append-drop, length-take, length-drop, take-length_append, drop-length_append, take-append,
  drop-append, All-append, Bytes, IsByte, as_u8, as_u16, as_u32, be16, from_be16, be32, from_be32,
  from_be16-be16, from_be32-be32, as_bytes, from_utf8_lossy, IsScalar, from_utf8_lossy-as_bytes,
  codes,
}
use yellow_vpn.Error.{
  ensure, ◌>>◌, Text, Message, format, verbatim, caused, plain, VpnError, config, privilege, tun,
  tun_unavailable, routing, tls, protocol, auth_failed, server_disconnect, io, not_implemented,
  is_permanent, Result, ok, err, ◌>>=◌, Result-cases,
}
use yellow_vpn.Client.{CertTrust}
use yellow_vpn.Tunnel.Tls.{Dial, connect_tls}
use yellow_vpn.Fortigate.Negotiate.{Round}
use yellow_vpn.Fortigate.Negotiate.Ipcp.{PppSession, negotiate}

abbrev pub user_agent_tunnel : Text
user_agent_tunnel = codes "Mozilla/5.0 SV1"

unfoldable pub build_tunnel_request : Text → Text
build_tunnel_request cookie =
    codes "GET /remote/sslvpn-tunnel HTTP/1.1\r\nHost: sslvpn\r\nUser-Agent: "
    ++ (user_agent_tunnel ++ (codes "\r\nCookie: SVPNCOOKIE=" ++ (cookie ++ codes "\r\n\r\n")))

-- What the network answers: the dial, the write of the request with its flush, and the rounds of
-- the negotiation with its magic number.
pub record Upgrade : Type 0 where
  pub dial : Dial
  pub write_error : Option Message
  pub magic : ℕ
  pub lcp_request : Round
  pub ipcp_request : Round
  pub rounds : List Round

-- What was written before the negotiation, and its answer; none while it waits for more.
abbrev pub Outcome : Type 0
Outcome = List Bytes × Option (Result (PppSession × Bytes))

abbrev pub negotiated : Upgrade → Bytes → Option Message → Outcome
negotiated u request none =
    (request ∷ [], negotiate u.magic [] u.lcp_request u.ipcp_request u.rounds)
negotiated u request (some m) = ([], some (err (io m)))

abbrev pub on_stream : Upgrade → Bytes → Result (Unit {0}) → Outcome
on_stream u request (err e) = ([], some (err e))
on_stream u request (ok stream) = negotiated u request u.write_error

unfoldable pub open_tunnel : Upgrade → Text → ℕ → CertTrust → Text → Outcome
unfolding connect_tls build_tunnel_request as_bytes negotiate
open_tunnel u host port trust cookie =
    on_stream u (as_bytes (build_tunnel_request cookie)) (connect_tls u.dial host port trust)
