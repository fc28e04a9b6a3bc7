-- ===== src/Auth/Signed/Accept.antt =====
-- Which signed requests are accepted.
use convergio_mesh.Prelude.{
  ℕ, ◌+◌, ◌^◌, ◌≤◌, ◌<◌, ◌≡◌, ◌↔◌, refl, Bool, true, false, [], ◌∷◌, Option, none, some, arith,
  or_else, is_empty, ◌++◌, ◌>>=◌, Bool-cases, inl, inr,
}
use convergio_mesh.Prelude.Int.{ℤ, pos, wrapping_sub, wrapping_abs}
use convergio_mesh.Prelude.Text.{Text, codes}
use convergio_mesh.Prelude.Text.Number.{parse_i64}
use convergio_mesh.Prelude.Text.Utf8.{as_bytes}
use convergio_mesh.Auth.Error.{Result, ok, err}
use convergio_mesh.Auth.Hmac.{Bytes, Mac, compute_hmac, verify_hmac}
use convergio_mesh.Auth.Hmac.RoundTrip.{verify-compute}
use convergio_mesh.Auth.Signed.{
  Hex, Headers, is_expired, signed_message, sign_with, sign_result, mesh_hmac_header, body_hash_of,
  apply_mesh_auth, received, bearer_header, bearer_from_token, signed_headers, hash_header,
  hash_part, verdict, check_signature, authorize,
}

-- For times after 1970 the age test is the distance from now, at most 300 seconds either way.
pub fresh_iff :
    (now ts : ℕ)
    → now < 2 ^ 63
    → ts < 2 ^ 63
    → (is_expired (pos now) (some (pos ts)) ≡ false) ↔ ((now ≤ ts + 300) × (ts ≤ now + 300))
unfolding is_expired wrapping_sub wrapping_abs
fresh_iff now ts h k = ground arith

verdict_iff : (r : Result Bool) → (verdict r ≡ none) ↔ (r ≡ ok true)
unfolding verdict
verdict_iff (ok true) = (λ h. refl, λ h. refl)
verdict_iff (ok false) = (λ h. cc, λ h. cc)
verdict_iff (err e) = (λ h. cc, λ h. cc)

abbrev pub header : Headers → Text → Text
header headers name = or_else (headers name) []

abbrev pub signature : Hex → Headers → Bytes
signature hex headers = or_else (hex.decode (header headers (codes "x-mesh-signature"))) []

-- What the signature of a request has to be the tag of.
abbrev pub message_of : Text → Headers → Text
message_of path headers =
    signed_message (header headers (codes "x-mesh-timestamp")) (codes "POST") path
      (hash_part (header headers (codes "x-mesh-body-hash")))

through : {A B C : Type 0} {x : Bool} → (A ↔ B) → (B ↔ C) → A ↔ ((x ≡ x) × C)
through f g = (λ a. (refl, g.0 (f.0 a)), λ p. f.1 (g.1 p.1))

received_signed :
    (bearer : Option Text) (timestamp sig body_hash : Text)
    → let h =
        received
          (bearer_header bearer ++ signed_headers (some body_hash) (some (timestamp, sig))) in
      (h (codes "x-mesh-timestamp") ≡ some timestamp)
      × (h (codes "x-mesh-signature") ≡ some sig)
      × (h (codes "x-mesh-body-hash") ≡ some body_hash)
unfolding received bearer_header signed_headers hash_header
received_signed none timestamp sig body_hash = (refl, refl, refl)
received_signed (some b) timestamp sig body_hash = (refl, refl, refl)

hash_part_given : (t : Text) → is_empty t ≡ false → hash_part t ≡ some t
unfolding hash_part
hash_part_given [] h = cc
hash_part_given (c ∷ cs) h = refl

module _ (mac : Mac) (hex : Hex) where
  pub authorize_iff :
      (now : ℤ) (path : Text) (secret : Bytes) (headers : Headers)
      → (authorize mac hex now path (some secret) headers ≡ none) ↔ (
          (is_expired now (parse_i64 (header headers (codes "x-mesh-timestamp"))) ≡ false)
          × (compute_hmac mac secret (as_bytes (message_of path headers))
              ≡ ok (signature hex headers)))
  unfolding authorize check_signature
  authorize_iff now path secret headers =
      elim (Bool-cases (is_expired now (parse_i64 (header headers (codes "x-mesh-timestamp"))))) [
        | inl old ↦ rw old (λ h. cc, λ h. cc)
        | inr fresh ↦ rw fresh (
            through
              (verdict_iff (
                verify_hmac mac secret (as_bytes (message_of path headers))
                  (signature hex headers)))
              (verify-compute mac secret (as_bytes (message_of path headers))
                (signature hex headers)))
      ]

  -- The headers that the sender of a request makes pass at the receiver.
  sent_tag :
      (timestamp sig : Text) (r : Result Bytes)
      → sign_result hex timestamp r ≡ some (timestamp, sig)
      → (tag : Bytes) × (r ≡ ok tag) × (sig ≡ hex.encode tag)
  unfolding sign_result
  sent_tag timestamp sig (ok tag) h = (tag, refl, cc)
  sent_tag timestamp sig (err e) h = cc

  pub accepted_of :
      (now : ℤ) (timestamp path secret sig body_hash : Text) (headers : Headers)
      → is_empty body_hash ≡ false
      → mesh_hmac_header mac hex timestamp (codes "POST") path (some body_hash) (some secret)
        ≡ some (timestamp, sig)
      → headers (codes "x-mesh-timestamp") ≡ some timestamp
      → headers (codes "x-mesh-signature") ≡ some sig
      → headers (codes "x-mesh-body-hash") ≡ some body_hash
      → is_expired now (parse_i64 timestamp) ≡ false
      → authorize mac hex now path (some (as_bytes secret)) headers ≡ none
  unfolding mesh_hmac_header sign_with
  accepted_of now timestamp path secret sig body_hash headers given signed ht hs hb fresh =
      let s =
        sent_tag timestamp sig
          (compute_hmac mac (as_bytes secret)
            (as_bytes (signed_message timestamp (codes "POST") path (some body_hash))))
          signed in
      (authorize_iff now path (as_bytes secret) headers).1 (
        rw ht fresh,
        rw (ht, hs, hb, hash_part_given body_hash given, s.2, hex.decode-encode s.0) s.1,
      )

  -- Whatever the body and the bearer token, the headers that apply_mesh_auth adds to a POST, where
  -- mesh_hmac_header signs it with a secret, pass at a receiver that has the same secret, at any
  -- time at which the timestamp has not expired, if the hash of the body is not empty text.
  pub signed_accepted :
      (digest : Bytes → Bytes) (token : Option Text) (now : ℤ) (timestamp path secret sig : Text)
      (body : Bytes)
      → is_empty (hex.encode (digest body)) ≡ false
      → mesh_hmac_header mac hex timestamp
          (codes "POST")
          path
          (body_hash_of mac hex digest (some body))
          (some secret)
        ≡ some (timestamp, sig)
      → is_expired now (parse_i64 timestamp) ≡ false
      → authorize mac hex now path (some (as_bytes secret)) (
          received (
            apply_mesh_auth mac hex digest token
              (some secret)
              timestamp
              (codes "POST")
              path
              (some body)))
        ≡ none
  unfolding apply_mesh_auth body_hash_of
  signed_accepted digest token now timestamp path secret sig body given signed fresh =
      let r =
        received_signed (token >>= bearer_from_token) timestamp sig (hex.encode (digest body)) in
      rw signed (
        accepted_of now timestamp path secret sig (hex.encode (digest body))
          (received (
            bearer_header (token >>= bearer_from_token)
            ++ signed_headers (some (hex.encode (digest body))) (some (timestamp, sig))))
          given signed r.0 r.1 r.2 fresh)
