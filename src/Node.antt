-- ===== src/Node.antt =====
-- The background loop of a node, and what the node says of itself to the program that hosts it.
pub mod Stats
pub mod Round
pub mod Healthy
pub mod Heartbeat
pub mod Delegation
pub mod Capability
pub mod Extension
pub mod Convergence
mod Examples
