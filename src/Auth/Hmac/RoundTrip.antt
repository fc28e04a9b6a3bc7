-- ===== src/Auth/Hmac/RoundTrip.antt =====
-- A response passes exactly if it is what the holder of the secret computes.
use convergio_mesh.Prelude.{
  ◌≡◌, ◌↔◌, true, Option, none, some, arith, is_empty, Bool-cases, inl, inr,
}
use convergio_mesh.Auth.Error.{ok}
use convergio_mesh.Auth.Hmac.{Bytes, Mac, tag_with, compute_hmac, verify_with, verify_hmac}

module _ (mac : Mac) where
  verify_with-tag_with :
      (content response : Bytes) (k : Option mac.Key)
      → (verify_with mac content response k ≡ ok true) ↔ (tag_with mac content k ≡ ok response)
  unfolding verify_with tag_with
  verify_with-tag_with content response none = (λ h. cc, λ h. cc)
  verify_with-tag_with content response (some k) = ground (arith, mac.verify_iff k content response)

  -- For all secrets, messages and responses, the response is accepted exactly if it is the tag that
  -- `compute_hmac` returns for that secret and message; where one fails, so does the other.
  pub verify-compute :
      (secret content response : Bytes)
      → (verify_hmac mac secret content response ≡ ok true)
        ↔ (compute_hmac mac secret content ≡ ok response)
  unfolding verify_hmac compute_hmac
  verify-compute secret content response = elim (Bool-cases (is_empty secret)) [
    | inl no_secret ↦ rw no_secret (λ h. cc, λ h. cc)
    | inr secret_given ↦ elim (Bool-cases (is_empty content)) [
      | inl no_content ↦ rw (secret_given, no_content) (λ h. cc, λ h. cc)
      | inr content_given ↦
          rw (secret_given, content_given)
            (verify_with-tag_with content response (mac.new_from_slice secret))
    ]
  ]
