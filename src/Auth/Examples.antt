-- ===== src/Auth/Examples.antt =====
-- The signed requests at concrete inputs, with a mac and a hex that are simple enough to compute.
use convergio_mesh.Prelude.{◌≡◌, refl, [], ◌∷◌, ◌++◌, none, some}
use convergio_mesh.Prelude.Int.{pos, wrapping_abs}
use convergio_mesh.Prelude.Text.{Text, codes, text_eq}
use convergio_mesh.Prelude.Text.Order.{text_eq_iff}
use convergio_mesh.Prelude.Text.Number.{parse_i64}
use convergio_mesh.Prelude.Text.Utf8.{as_bytes}
use convergio_mesh.Auth.Hmac.{Bytes, Mac, compute_hmac}
use convergio_mesh.Auth.Signed.{
  Hex, Headers, is_expired, authorize, apply_mesh_auth, mesh_hmac_header, body_hash_of, received,
}
use convergio_mesh.Auth.Signed.Accept.{signed_accepted}

-- The tag is the key followed by the message.
abbrev pub chain : Mac
chain = record {
  Key = Bytes;
  new_from_slice = some;
  finalize = λ k d. k ++ d;
  verify_slice = λ k d r. text_eq r (k ++ d);
  verify_iff = λ k d r. text_eq_iff r (k ++ d);
}

-- Every byte is its own digit.
abbrev pub plain : Hex
plain = record { encode = λ b. b; decode = some; decode-encode = λ b. refl }

abbrev pub key : Text
key = codes "k"

abbrev pub path : Text
path = codes "/api/sync/import"

abbrev body : Bytes
body = 1 ∷ 2 ∷ []

abbrev digest : Bytes → Bytes
digest b = codes "h" ++ b

abbrev pub silent : Headers
silent = λ name. none

abbrev stamp : Text
stamp = codes "999"

abbrev sent : Text
sent = codes "k999:POST:/api/sync/import:h" ++ body

signed_accepted_example :
    authorize chain plain (pos 1000) path (some (as_bytes key)) (
      received (
        apply_mesh_auth chain plain digest
          (some (codes "t"))
          (some key)
          stamp
          (codes "POST")
          path
          (some body)))
    ≡ none
unfolding mesh_hmac_header body_hash_of is_expired parse_i64 compute_hmac wrapping_abs
signed_accepted_example =
    signed_accepted chain plain digest (some (codes "t")) (pos 1000) stamp path key sent body refl
      refl refl
