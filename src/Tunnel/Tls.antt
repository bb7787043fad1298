-- ===== src/Tunnel/Tls.antt =====
-- crates/vpn-engine/src/tunnel.rs: which server is trusted, and the TLS connection. What rustls, the
-- digest and the socket do are arguments of the definitions.
pub mod Pin
use yellow_vpn.Common.{
  ℕ, zero, suc, ◌+◌, ◌-◌, ◌*◌, ◌/◌, ◌%◌, ◌^◌, ◌≤◌, ◌<◌, String, ◌≡◌, refl, sym, ap, ◌∙◌, ◌≢◌, ◌↔◌,
  ◌⊎◌, inl, inr, Bool, true, false, not, ◌&&◌, ◌||◌, Option, none, some, List, [], ◌∷◌, ◌++◌, map,
  append-nil, append_assoc, arith, ltb, leb, ◌==◌, if◌then◌else◌, ltb→lt, ltb→le, lt→ltb, le→ltb,
  leb→le, ==_iff, ==_self, Bool-cases, Option-cases, length, get_or, take, drop, All, length-append,
  take-append-drop, length-take, length-drop, take-length_append, drop-length_append, take-append,
  drop-append, All-append, Bytes, IsByte, as_u8, as_u16, as_u32, be16, from_be16, be32, from_be32,
  from_be16-be16, from_be32-be32, as_bytes, from_utf8_lossy, IsScalar, from_utf8_lossy-as_bytes,
  codes,
}
use yellow_vpn.Common.Str.{hex_char, text_eq}
use yellow_vpn.Error.{
  ensure, ◌>>◌, Text, Message, format, verbatim, caused, plain, VpnError, config, privilege, tun,
  tun_unavailable, routing, tls, protocol, auth_failed, server_disconnect, io, not_implemented,
  is_permanent, to_string, Result, ok, err, ◌>>=◌, Result-cases,
}
use yellow_vpn.Client.{CertTrust, pinned, insecure, webpki}

unfoldable pub hex_encode : Bytes → Text
hex_encode [] = []
hex_encode (b ∷ bs) = hex_char (b / 16) ∷ (hex_char (b % 16) ∷ hex_encode bs)

-- `ClientConfig`: the verifier of the root store, or one of the two below, and the resumption of
-- sessions.
pub data Verifier : Type 0 where
  root_store insecure_verifier : Verifier
  pinned_verifier : Bytes → Verifier

pub record TlsConfig : Type 0 where
  pub verifier : Verifier
  pub resumption : Bool

unfoldable pub build_tls_config : CertTrust → TlsConfig
build_tls_config webpki = record { verifier = root_store; resumption = false }
build_tls_config (pinned pin) = record { verifier = pinned_verifier pin; resumption = false }
build_tls_config insecure = record { verifier = insecure_verifier; resumption = false }

-- What stands for rustls and the digest: `Sha256::digest`, the check of a certificate against the
-- root store, and the check of a handshake signature by the crypto provider.
pub record Crypto : Type 0 where
  pub sha256 : Bytes → Bytes
  pub verify_chain : Bytes → Result (Unit {0})
  pub verify_signature : (message cert signature : Bytes) → Result (Unit {0})

abbrev pub mismatch : Bytes → Bytes → VpnError
mismatch pin got = tls (
    caused (plain "server certificate fingerprint mismatch: pinned")
      (caused (verbatim (hex_encode pin)) (caused (plain "presented") (verbatim (hex_encode got)))))

unfoldable pub verify_server_cert : Crypto → Verifier → Bytes → Result (Unit {0})
unfolding text_eq hex_encode
verify_server_cert k root_store cert = k.verify_chain cert
verify_server_cert k insecure_verifier cert = ok tt
verify_server_cert k (pinned_verifier pin) cert =
    if text_eq (k.sha256 cert) pin then ok tt else err (mismatch pin (k.sha256 cert))

-- `verify_tls12_signature` and `verify_tls13_signature`.
unfoldable pub verify_tls_signature :
    Crypto → Verifier → (message cert signature : Bytes) → Result (Unit {0})
verify_tls_signature k root_store message cert signature = k.verify_signature message cert signature
verify_tls_signature k insecure_verifier message cert signature = ok tt
verify_tls_signature k (pinned_verifier pin) message cert signature =
    k.verify_signature message cert signature

-- What `ServerName::try_from` and `TcpStream::connect` answer, and the handshake of rustls with the
-- configuration.
pub record Dial : Type 0 where
  pub server_name : Text → Option Message
  pub tcp : Text → ℕ → Option Message
  pub handshake : TlsConfig → Option Message

abbrev pub unless_failed : Option Message → (Message → VpnError) → Result (Unit {0})
unless_failed none wrap = ok tt
unless_failed (some m) wrap = err (wrap m)

-- A failure of `set_nodelay` is only logged.
unfoldable pub connect_tls : Dial → Text → ℕ → CertTrust → Result (Unit {0})
unfolding build_tls_config
connect_tls d host port trust = do
  u ← unless_failed (d.server_name host) (λ m. tls (caused (plain "invalid server name") m))
  v ← unless_failed (d.tcp host port) io
  unless_failed (d.handshake (build_tls_config trust))
      (λ m. tls (caused (plain "TLS handshake failed:") m))
