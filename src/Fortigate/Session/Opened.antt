-- ===== src/Fortigate/Session/Opened.antt =====
-- crates/vpn-engine/src/fortigate/session.rs: the lines of the request, and an opened tunnel.
use yellow_vpn.Common.{
  ℕ, ◌≡◌, refl, ◌⊎◌, inl, inr, false, Option, none, some, [], ◌∷◌, ◌++◌, arith, ◌==◌, All, Bytes,
  as_bytes, codes,
}
use yellow_vpn.Common.Str.{lines, crlf}
use yellow_vpn.Error.{Text, Message, caused, plain, tls, io, Result, ok, err, ◌>>=◌}
use yellow_vpn.Client.{CertTrust, pinned}
use yellow_vpn.Tunnel.Tls.{
  Crypto, TlsConfig, Dial, verify_server_cert, verify_tls_signature, build_tls_config,
  unless_failed, connect_tls,
}
use yellow_vpn.Tunnel.Tls.Pin.{Accepts-pinned}
use yellow_vpn.Fortigate.Negotiate.Ipcp.{negotiate}
use yellow_vpn.Fortigate.Negotiate.Ipcp.{PppSession}
use yellow_vpn.Fortigate.Negotiate.Session.{IsUsable, negotiate-IsUsable}
use yellow_vpn.Fortigate.Session.{
  build_tunnel_request, Upgrade, Outcome, negotiated, on_stream, open_tunnel,
}

-- A character within a line.
abbrev pub IsWithinLine : ℕ → Type 0
IsWithinLine c = ((c == 10) ≡ false) × ((c == 13) ≡ false)

lines-line : (s t : Text) → All IsWithinLine s → lines (s ++ (crlf ++ t)) ≡ s ∷ lines t
unfolding lines
lines-line [] t h = refl
lines-line (c ∷ s) t ((feed, return), hs) =
    let other : (13 == c) ≡ false = ground arith in rw (feed, other, lines-line s t hs) refl

-- A cookie without a line end stands on a line of its own: the request has the four lines of the
-- source, with the cookie in the last, and the empty line that ends it.
pub lines-build_tunnel_request :
    (cookie : Text)
    → All IsWithinLine cookie
    → lines (build_tunnel_request cookie)
      ≡ codes "GET /remote/sslvpn-tunnel HTTP/1.1"
        ∷ codes "Host: sslvpn"
        ∷ codes "User-Agent: Mozilla/5.0 SV1"
        ∷ (codes "Cookie: SVPNCOOKIE=" ++ cookie)
        ∷ []
        ∷ []
unfolding build_tunnel_request lines
lines-build_tunnel_request cookie h = rw (lines-line cookie crlf h) refl

-- What rustls promises of a handshake that succeeds with a server that shows the certificate and
-- signs the message: the verifier of the configuration has accepted both.
abbrev pub HandshakeLaw : Dial → Crypto → (cert message signature : Bytes) → Type 0
HandshakeLaw d k cert message signature =
    (c : TlsConfig)
    → d.handshake c ≡ none
    → (verify_server_cert k c.verifier cert ≡ ok tt)
      × (verify_tls_signature k c.verifier message cert signature ≡ ok tt)

-- The server is the one of the pin: it shows its certificate and can sign with it.
abbrev pub IsServer : Crypto → (pin cert message signature : Bytes) → Type 0
IsServer k pin cert message signature =
    (k.sha256 cert ≡ pin) × (k.verify_signature message cert signature ≡ ok tt)

-- Nothing was written, or the request was written once, to the server of the pin; a tunnel that is
-- opened had it written and has a usable address.
abbrev pub WritesTo : Type 0 → Bytes → Outcome → Type 0
WritesTo server request (written, some (ok (session, prime))) =
    (written ≡ request ∷ []) × server × IsUsable session
WritesTo server request (written, some (err e)) =
    (written ≡ []) ⊎ ((written ≡ request ∷ []) × server)
WritesTo server request (written, none) = (written ≡ request ∷ []) × server

negotiation-WritesTo :
    {server : Type 0} (u : Upgrade) (request : Bytes)
    (answer : Option (Result (PppSession × Bytes)))
    → negotiate u.magic [] u.lcp_request u.ipcp_request u.rounds ≡ answer
    → server
    → WritesTo server request (request ∷ [], answer)
negotiation-WritesTo u request none h trusted = (refl, trusted)
negotiation-WritesTo u request (some (err e)) h trusted = inr (refl, trusted)
negotiation-WritesTo u request (some (ok (session, prime))) h trusted = (
  refl,
  trusted,
  negotiate-IsUsable u.magic [] u.lcp_request u.ipcp_request u.rounds session prime h,
)

negotiated-WritesTo :
    {server : Type 0} (u : Upgrade) (request : Bytes) (w : Option Message)
    → server
    → WritesTo server request (negotiated u request w)
negotiated-WritesTo u request none trusted =
    negotiation-WritesTo u request (negotiate u.magic [] u.lcp_request u.ipcp_request u.rounds) refl
      trusted
negotiated-WritesTo u request (some m) trusted = inl refl

on_stream-WritesTo :
    {server : Type 0} (u : Upgrade) (request : Bytes) (stream : Result (Unit {0}))
    → (stream ≡ ok tt → server)
    → WritesTo server request (on_stream u request stream)
on_stream-WritesTo u request (ok tt) trusted =
    negotiated-WritesTo u request u.write_error (trusted refl)
on_stream-WritesTo u request (err e) trusted = inl refl

-- A connection that is made has had its handshake.
connect_tls-handshake :
    (d : Dial) (host : Text) (port : ℕ) (trust : CertTrust)
    → connect_tls d host port trust ≡ ok tt
    → d.handshake (build_tls_config trust) ≡ none
unfolding connect_tls
connect_tls-handshake d host port trust h =
    go (d.server_name host) (d.tcp host port) (d.handshake (build_tls_config trust)) h
  where
    go :
        (n t s : Option Message)
        → (do
          u ← unless_failed n (λ m. tls (caused (plain "invalid server name") m))
          v ← unless_failed t io
          unless_failed s (λ m. tls (caused (plain "TLS handshake failed:") m)))
          ≡ ok tt
        → s ≡ none
    go none none none e = refl
    go none none (some m) e = absurd (cc)
    go none (some m) s e = absurd (cc)
    go (some m) t s e = absurd (cc)

-- With a pin, and a rustls that asks the verifier of its configuration: the request with the
-- cookie is written to no other server than the one whose certificate has the pin as its digest and
-- that signs the handshake with it, and at most once, where a write that fails counts as none; a
-- tunnel that is opened had it written, and has a usable address.
pub open_tunnel-WritesTo :
    (k : Crypto) (cert message signature : Bytes) (u : Upgrade) (host : Text) (port : ℕ)
    (pin : Bytes) (cookie : Text)
    → HandshakeLaw u.dial k cert message signature
    → WritesTo
        (IsServer k pin cert message signature)
        (as_bytes (build_tunnel_request cookie))
        (open_tunnel u host port (pinned pin) cookie)
unfolding open_tunnel
open_tunnel-WritesTo k cert message signature u host port pin cookie law =
    on_stream-WritesTo u (as_bytes (build_tunnel_request cookie))
      (connect_tls u.dial host port (pinned pin))
      (λ made. (Accepts-pinned k pin cert message signature).0 (
        law (build_tls_config (pinned pin))
          (connect_tls-handshake u.dial host port (pinned pin) made)))
