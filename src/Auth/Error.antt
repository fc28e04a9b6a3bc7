-- ===== src/Auth/Error.antt =====
-- crates/convergio-mesh/src/error.rs, with the result type of the functions that return it.
use convergio_mesh.Prelude.Text.{Text}

pub data MeshError : Type 0 where
  io : Text → MeshError
  db : Text → MeshError
  serialization : Text → MeshError
  config : Text → MeshError
  network : Text → MeshError
  auth : Text → MeshError
  internal : Text → MeshError

pub data Result {ℓ} (A : Type ℓ) : Type ℓ where
  ok : A → Result A
  err : MeshError → Result A
