-- ===== src/Node/Heartbeat.antt =====
-- crates/convergio-mesh/src/sync_loop.rs: the headers that send_heartbeat_to_peer puts on its request.
pub mod Accept
use convergio_mesh.Prelude.{
  Bool, List, [], ◌∷◌, ◌++◌, Option, none, some, is_empty, or_else, if◌then◌else◌,
}
use convergio_mesh.Prelude.Text.{Text, codes}
use convergio_mesh.Auth.Hmac.{Bytes, Mac}
use convergio_mesh.Auth.Signed.{Hex, signed_headers, sign_with}

module _ (mac : Mac) (hex : Hex) (digest : Bytes → Bytes) where
  abbrev pub heartbeat_hash : Bytes → Text
  heartbeat_hash body = hex.encode (digest body)

  -- The token is CONVERGIO_AUTH_TOKEN; the body is signed if there is a secret.
  unfoldable pub heartbeat_headers : Option Text → Text → Text → Bytes → List (Text × Text)
  unfolding signed_headers sign_with
  heartbeat_headers token shared_secret timestamp body =
      (codes "Content-Type", codes "application/json")
      ∷ (codes "Authorization", codes "Bearer " ++ or_else token (codes "dev-local"))
      ∷ (if is_empty shared_secret
          then []
          else signed_headers (some (heartbeat_hash body)) (
              sign_with mac hex timestamp (codes "POST") (codes "/api/heartbeat")
                (some (heartbeat_hash body)) shared_secret))
