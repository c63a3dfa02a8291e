-- ===== src/Net.antt =====
-- crates/net: frames over a byte stream, the link above them, and the sessions that use it.
pub mod Wire
pub mod Link
pub mod Talk
pub mod Handshake
pub mod Orchestrator
pub mod Sender
pub mod Sending
pub mod Receiver
pub mod Discovery
