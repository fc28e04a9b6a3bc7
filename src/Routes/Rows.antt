-- ===== src/Routes/Rows.antt =====
-- crates/convergio-mesh/src/routes.rs and routes_role_config.rs: what a SELECT of a handler comes to.
-- Its statement is refused, it cannot be run, or it gives the rows of a table.
pub data Rows {ℓ} (A : Type ℓ) : Type ℓ where
  unprepared unread : Rows A
  table : A → Rows A
