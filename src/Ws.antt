-- ===== src/Ws.antt =====
-- crates/wrtg/src/ws.rs: the WebSocket client.
pub mod Error
pub mod Frame
pub mod Recv
pub mod Answer
pub mod Upgrade
mod Examples
