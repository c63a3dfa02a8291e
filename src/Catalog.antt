-- ===== src/Catalog.antt =====
-- crates/core/src/catalog.rs: the sender's library rows, its peers and the confirmed-sent index.
pub mod Peers
pub mod Assets
pub mod Backlog
pub mod Sent
pub mod Keys
pub mod Rescans
pub mod Counts
