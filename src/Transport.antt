-- ===== src/Transport.antt =====
-- How a node reaches its peers: addresses, signed requests and statistics.
pub mod Addr
pub mod Local
pub mod Client
pub mod Reach
mod Examples
