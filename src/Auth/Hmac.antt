-- ===== src/Auth/Hmac.antt =====
-- crates/convergio-mesh/src/auth.rs: HMAC-SHA256 over the crates hmac and sha2, which are a parameter.
pub mod RoundTrip
use convergio_mesh.Prelude.{
  ℕ, ◌≡◌, ◌↔◌, Bool, true, false, List, Option, none, some, is_empty, if◌then◌else◌,
}
use convergio_mesh.Prelude.Text.{codes}
use convergio_mesh.Auth.Error.{auth, Result, ok, err}

abbrev pub Bytes : Type 0
Bytes = List ℕ

pub record Mac : Type 1 where
  pub Key : Type 0
  -- Hmac::new_from_slice
  pub new_from_slice : Bytes → Option Key
  -- The tag of a message, and the check of a tag.
  pub finalize : Key → Bytes → Bytes
  pub verify_slice : Key → Bytes → Bytes → Bool
  -- A tag passes if it is the one that `finalize` gives, and no other does.
  pub verify_iff : (k : Key) (d r : Bytes) → (verify_slice k d r ≡ true) ↔ (r ≡ finalize k d)

module _ (mac : Mac) where
  open mac use {Key, new_from_slice, finalize, verify_slice}

  unfoldable pub tag_with : Bytes → Option Key → Result Bytes
  tag_with content none = err (auth (codes "invalid HMAC key length"))
  tag_with content (some key) = ok (finalize key content)

  unfoldable pub compute_hmac : Bytes → Bytes → Result Bytes
  unfolding tag_with
  compute_hmac secret content =
      if is_empty secret
      then err (auth (codes "HMAC secret must not be empty"))
      else if is_empty content
      then err (auth (codes "HMAC data must not be empty"))
      else tag_with content (new_from_slice secret)

  unfoldable pub verify_with : Bytes → Bytes → Option Key → Result Bool
  verify_with content response none = err (auth (codes "invalid HMAC key length"))
  verify_with content response (some key) = ok (verify_slice key content response)

  unfoldable pub verify_hmac : Bytes → Bytes → Bytes → Result Bool
  unfolding verify_with
  verify_hmac secret content response =
      if is_empty secret
      then err (auth (codes "HMAC secret must not be empty"))
      else if is_empty content
      then err (auth (codes "HMAC data must not be empty"))
      else verify_with content response (new_from_slice secret)
