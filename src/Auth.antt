-- ===== src/Auth.antt =====
-- Authentication of peers: crates/convergio-mesh/src/auth.rs and error.rs, and the check of signed
-- requests that the handlers of routes.rs share.
pub mod Error
pub mod Hmac
pub mod Secret
pub mod Signed
pub mod Examples
