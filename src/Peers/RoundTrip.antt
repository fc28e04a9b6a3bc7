-- ===== src/Peers/RoundTrip.antt =====
-- crates/convergio-mesh/src/peers_registry.rs: a registry that is saved and loaded again.
pub mod Number
pub mod Items
pub mod Fields
pub mod Entries
pub mod Peer
pub mod File
pub mod Registry
