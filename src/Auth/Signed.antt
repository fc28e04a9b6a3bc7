-- ===== src/Auth/Signed.antt =====
-- The signed requests: what a sender puts into the headers (transport.rs) and what the handlers of
-- routes.rs check before they look at the body. The crate hex is a parameter; `wrapping_sub` is the
-- arithmetic of a release build.
pub mod Accept
use convergio_mesh.Prelude.{
  ℕ, ◌≡◌, Bool, true, false, ◌&&◌, List, [], ◌∷◌, ◌++◌, Option, none, some, is_empty, or_else,
  ◌>>=◌, if◌then◌else◌,
}
use convergio_mesh.Prelude.Int.{ℤ, pos, wrapping_sub, wrapping_abs, ltb_ℤ}
use convergio_mesh.Prelude.Text.{Text, codes, eq_ignore_case}
use convergio_mesh.Prelude.Text.Number.{parse_i64}
use convergio_mesh.Prelude.Text.Utf8.{as_bytes}
use convergio_mesh.Auth.Error.{Result, ok, err}
use convergio_mesh.Auth.Hmac.{Bytes, Mac, compute_hmac, verify_hmac}

pub record Hex : Type 0 where
  pub encode : Bytes → Text
  pub decode : Text → Option Bytes
  pub decode-encode : (b : Bytes) → decode (encode b) ≡ some b

-- The value of a header, if it is there and visible ASCII.
abbrev pub Headers : Type 0
Headers = Text → Option Text

abbrev pub hmac_max_age_secs : ℤ
hmac_max_age_secs = pos 300

-- (now - ts).abs() > HMAC_MAX_AGE_SECS; a timestamp that is no number is not checked.
unfoldable pub is_expired : ℤ → Option ℤ → Bool
is_expired now none = false
is_expired now (some ts) = ltb_ℤ hmac_max_age_secs (wrapping_abs (wrapping_sub now ts))

unfoldable pub colon : Text → Text → Text
colon a b = a ++ b':' ∷ b

-- timestamp:method:path:bodyhash, or without the last part.
unfoldable pub signed_message : Text → Text → Text → Option Text → Text
unfolding colon
signed_message timestamp method path (some body_hash) =
    colon timestamp (colon method (colon path body_hash))
signed_message timestamp method path none = colon timestamp (colon method path)

pub data Refusal : Type 0 where
  expired not_verified : Refusal

unfoldable pub bearer_from_token : Text → Option Text
bearer_from_token [] = none
bearer_from_token (c ∷ cs) = some (codes "Bearer " ++ c ∷ cs)

-- CONVERGIO_AUTH_TOKEN, if it is set.
unfoldable pub auth_bearer_value : Option Text → Option Text
unfolding bearer_from_token
auth_bearer_value token = token >>= bearer_from_token

unfoldable pub bearer_header : Option Text → List (Text × Text)
bearer_header none = []
bearer_header (some bearer) = (codes "Authorization", bearer) ∷ []

unfoldable pub hash_header : Option Text → List (Text × Text)
hash_header none = []
hash_header (some body_hash) = (codes "X-Mesh-Body-Hash", body_hash) ∷ []

unfoldable pub signed_headers : Option Text → Option (Text × Text) → List (Text × Text)
unfolding hash_header
signed_headers body_hash none = []
signed_headers body_hash (some (timestamp, sig)) =
    (codes "X-Mesh-Timestamp", timestamp) ∷ (codes "X-Mesh-Signature", sig) ∷ hash_header body_hash

-- What the server reads: the first header of the name, in any case of its letters.
unfoldable pub received : List (Text × Text) → Headers
unfolding eq_ignore_case
received [] name = none
received ((key, value) ∷ rest) name =
    let later = received rest name in if eq_ignore_case key name then some value else later

unfoldable pub hash_part : Text → Option Text
hash_part [] = none
hash_part (c ∷ cs) = some (c ∷ cs)

unfoldable pub verdict : Result Bool → Option Refusal
verdict (ok true) = none
verdict _ = some not_verified

unfoldable pub sign_result : Hex → Text → Result Bytes → Option (Text × Text)
sign_result hex timestamp (ok tag) = some (timestamp, hex.encode tag)
sign_result hex timestamp (err e) = none

module _ (mac : Mac) (hex : Hex) where
  -- transport.rs: the timestamp and the signature of a request, if there is a secret to sign with.
  unfoldable pub sign_with : Text → Text → Text → Option Text → Text → Option (Text × Text)
  unfolding signed_message as_bytes sign_result
  sign_with timestamp method path body_hash secret = sign_result hex timestamp (
      compute_hmac mac (as_bytes secret)
        (as_bytes (signed_message timestamp method path body_hash)))

  unfoldable pub mesh_hmac_header :
      Text → Text → Text → Option Text → Option Text → Option (Text × Text)
  unfolding sign_with
  mesh_hmac_header timestamp method path body_hash secret =
      secret >>= sign_with timestamp method path body_hash

  -- The hash of a body is `hex::encode(Sha256::digest(b))`; `digest` is the crate sha2.
  unfoldable pub body_hash_of : (Bytes → Bytes) → Option Bytes → Option Text
  body_hash_of digest none = none
  body_hash_of digest (some body) = some (hex.encode (digest body))

  -- The headers that a request gets, in order.
  unfoldable pub apply_mesh_auth :
      (Bytes → Bytes)
      → Option Text
      → Option Text
      → Text
      → Text
      → Text
      → Option Bytes
      → List (Text × Text)
  unfolding auth_bearer_value bearer_header body_hash_of mesh_hmac_header signed_headers
  apply_mesh_auth digest token secret timestamp method path body =
      bearer_header (auth_bearer_value token)
      ++ signed_headers (body_hash_of digest body)
          (mesh_hmac_header timestamp method path (body_hash_of digest body) secret)

  -- routes.rs: the check of handle_import and handle_heartbeat for their path.
  unfoldable pub check_signature : ℤ → Text → Bytes → Headers → Option Refusal
  unfolding is_expired hash_part signed_message as_bytes verdict
  check_signature now path secret headers =
      let sig_header = or_else (headers (codes "x-mesh-signature")) [] in
      let timestamp = or_else (headers (codes "x-mesh-timestamp")) [] in
      let body_hash = or_else (headers (codes "x-mesh-body-hash")) [] in
      let message = signed_message timestamp (codes "POST") path (hash_part body_hash) in
      let sig_bytes = or_else (hex.decode sig_header) [] in
      if is_expired now (parse_i64 timestamp)
      then some expired
      else verdict (verify_hmac mac secret (as_bytes message) sig_bytes)

  -- Without a shared secret nothing is checked.
  unfoldable pub authorize : ℤ → Text → Option Bytes → Headers → Option Refusal
  unfolding check_signature
  authorize now path none headers = none
  authorize now path (some secret) headers = check_signature now path secret headers
