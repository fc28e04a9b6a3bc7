-- ===== src/Capabilities.antt =====
-- crates/convergio-mesh/src/capability_registry.rs and capability_routes.rs: which node can do what.
pub mod Types
pub mod Table
pub mod Query
pub mod Listing
pub mod Handlers
mod Examples
