-- ===== src/Fortigate.antt =====
-- crates/vpn-engine/src/fortigate: the frame codec, PPP, the HTTP client, the login and the
-- configuration of the tunnel.
pub mod Framing
pub mod Ppp
pub mod PppIo
pub mod Negotiate
pub mod Http
pub mod Login
pub mod Settings
pub mod Session
