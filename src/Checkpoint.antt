-- ===== src/Checkpoint.antt =====
-- crates/vpn-engine/src/checkpoint: the CCC values, the obfuscation, the login, the SLIM frames
-- and the session with its routes.
pub mod Ccc
pub mod Framing
pub mod Ranges
pub mod Session
pub mod Cipher
pub mod Auth
