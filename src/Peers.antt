-- ===== src/Peers.antt =====
-- The peers of a node: their names, the file peers.conf and the registry of it.
pub mod Config
pub mod Name
pub mod Parser
pub mod Ini
pub mod Registry
pub mod RoundTrip
pub mod Examples
pub mod Printer
