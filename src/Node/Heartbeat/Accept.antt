-- ===== src/Node/Heartbeat/Accept.antt =====
-- Heartbeats reach the nodes that share the secret.
use convergio_mesh.Prelude.{◌≡◌, refl, false, ◌∷◌, ◌++◌, Option, none, some, is_empty, or_else}
use convergio_mesh.Prelude.Int.{ℤ}
use convergio_mesh.Prelude.Text.{Text, codes}
use convergio_mesh.Prelude.Text.Number.{parse_i64}
use convergio_mesh.Prelude.Text.Utf8.{as_bytes}
use convergio_mesh.Auth.Hmac.{Bytes, Mac}
use convergio_mesh.Auth.Signed.{
  Hex, is_expired, sign_with, signed_headers, hash_header, received, mesh_hmac_header, authorize,
}
use convergio_mesh.Auth.Signed.Accept.{accepted_of}
use convergio_mesh.Node.Heartbeat.{heartbeat_hash, heartbeat_headers}

received_heartbeat :
    (bearer timestamp sig body_hash : Text)
    → let h = received (
        (codes "Content-Type", codes "application/json")
        ∷ (codes "Authorization", bearer)
        ∷ signed_headers (some body_hash) (some (timestamp, sig))) in
      (h (codes "x-mesh-timestamp") ≡ some timestamp)
      × (h (codes "x-mesh-signature") ≡ some sig)
      × (h (codes "x-mesh-body-hash") ≡ some body_hash)
unfolding received signed_headers hash_header
received_heartbeat bearer timestamp sig body_hash = (refl, refl, refl)

module _ (mac : Mac) (hex : Hex) (digest : Bytes → Bytes) where
  -- A heartbeat that is signed with a secret that is not empty passes the check of every node that
  -- has the same secret, whatever its body and token are, as long as its timestamp has not expired
  -- there and the hash of the body is not empty text.
  pub heartbeat_accepted :
      (now : ℤ) (token : Option Text) (secret timestamp sig : Text) (body : Bytes)
      → is_empty secret ≡ false
      → is_empty (heartbeat_hash mac hex digest body) ≡ false
      → sign_with mac hex timestamp
          (codes "POST")
          (codes "/api/heartbeat")
          (some (heartbeat_hash mac hex digest body))
          secret
        ≡ some (timestamp, sig)
      → is_expired now (parse_i64 timestamp) ≡ false
      → authorize mac hex now
          (codes "/api/heartbeat")
          (some (as_bytes secret))
          (received (heartbeat_headers mac hex digest token secret timestamp body))
        ≡ none
  unfolding heartbeat_headers mesh_hmac_header
  heartbeat_accepted now token secret timestamp sig body given hashed signed fresh =
      let r =
        received_heartbeat (codes "Bearer " ++ or_else token (codes "dev-local")) timestamp sig
          (heartbeat_hash mac hex digest body) in
      rw (given, signed)
        (accepted_of mac hex now timestamp (codes "/api/heartbeat") secret sig
          (heartbeat_hash mac hex digest body) _ hashed signed r.0 r.1 r.2 fresh)
