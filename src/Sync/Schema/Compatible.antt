-- ===== src/Sync/Schema/Compatible.antt =====
-- When two nodes are compatible.
use convergio_mesh.Prelude.{
  ℕ, ◌%◌, ◌^◌, ◌≡◌, ◌↔◌, refl, List, [], ◌∷◌, Option, none, some, arith, All,
}
use convergio_mesh.Prelude.Text.{Text}
use convergio_mesh.Prelude.Map.{Map, lookup}
use convergio_mesh.Sync.Schema.{
  versions, Mismatch, mismatch_of, or_later, compare_versions, compare_health,
  check_schema_compatibility,
}

-- A module has one version on both sides, as numbers of 32 bits, or the peer gives none for it.
abbrev Agrees : ℕ → Option ℕ → Type 0
Agrees v none = Unit
Agrees v (some r) = r % 2 ^ 32 ≡ v

abbrev pub IsCompatible : Map ℕ → Text × ℕ → Type 0
IsCompatible remote (module_name, v) = Agrees v (lookup module_name remote)

mismatch_of_iff : (m : Text) (v : ℕ) (o : Option ℕ) → (mismatch_of m v o ≡ none) ↔ Agrees v o
unfolding mismatch_of
mismatch_of_iff m v none = (λ h. tt, λ h. refl)
mismatch_of_iff m v (some r) = ground arith

or_later_iff : (a b : Option Mismatch) → (or_later a b ≡ none) ↔ ((a ≡ none) × (b ≡ none))
unfolding or_later
or_later_iff none b = (λ h. (refl, h), λ h. h.1)
or_later_iff (some m) b = (λ h. cc, λ h. cc)

compare_versions_iff :
    (locals : List (Text × ℕ)) (remote : Map ℕ)
    → (compare_versions locals remote ≡ none) ↔ All (IsCompatible remote) locals
unfolding compare_versions
compare_versions_iff [] remote = (λ h. tt, λ h. refl)
compare_versions_iff ((m, v) ∷ rest) remote =
    let s = or_later_iff (mismatch_of m v (lookup m remote)) (compare_versions rest remote) in
    let f = mismatch_of_iff m v (lookup m remote) in
    let r = compare_versions_iff rest remote in
    (λ h. (f.0 (s.0 h).0, r.0 (s.0 h).1), λ h. s.1 (f.1 h.0, r.1 h.1))

-- Against a peer that answers with versions, the check passes exactly if every module of this node
-- that the peer gives a version for has the same version there, modulo 2 ^ 32.
pub check_schema_compatibility_iff :
    (locals : List (Text × ℕ)) (remote : Map ℕ)
    → (check_schema_compatibility locals (versions (some remote)) ≡ none)
      ↔ All (IsCompatible remote) locals
unfolding check_schema_compatibility compare_health
check_schema_compatibility_iff [] remote = (λ h. tt, λ h. refl)
check_schema_compatibility_iff (l ∷ locals) remote = compare_versions_iff (l ∷ locals) remote
