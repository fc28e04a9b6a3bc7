-- ===== src/Routes.antt =====
-- The HTTP handlers of a node.
pub mod Rows
pub mod Sync
pub mod Heartbeat
pub mod Status
pub mod Peers
pub mod Roles
pub mod CrossPoll
pub mod SyncRepo
pub mod Table
mod Examples
