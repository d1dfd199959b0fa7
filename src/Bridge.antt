-- ===== src/Bridge.antt =====
-- crates/wrtg/src/bridge.rs: the relay loops of a session.
pub mod State
pub mod Direct
pub mod Fallback
pub mod Session
pub mod Connection
pub mod Passthrough
pub mod Idle
pub mod Upstream
pub mod Tcp
mod Setting
mod Runs
mod Examples
