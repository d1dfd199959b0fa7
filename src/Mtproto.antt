-- ===== src/Mtproto.antt =====
-- crates/wrtg/src/mtproto.rs: the obfuscated transport, and which address serves a datacenter.
pub mod Constants
pub mod Handshake
pub mod RelayInit
pub mod Routing
pub mod Crypto
mod Examples
