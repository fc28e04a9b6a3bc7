-- ===== src/Peers/Registry/Lookup.antt =====
-- Finding a peer in the registry.
use mathlib.Core.Option
use mathlib.Core.Option.{some-injective}
use convergio_mesh.Prelude.{
  ◌≡◌, ◌⊎◌, refl, sym, subst, ◌∙◌, true, false, [], ◌∷◌, Option, none, some, arith, find,
  Bool-cases, inl, inr, if◌then◌else◌,
}
use convergio_mesh.Prelude.Text.{Text, text_eq, elem}
use convergio_mesh.Prelude.Text.Order.{text_eq_iff, text_eq_refl, text_ltb_irrefl}
use convergio_mesh.Prelude.Map.{Map, Above, lookup}
use convergio_mesh.Prelude.Map.Laws.{lookup-modify, IsSorted}
use convergio_mesh.Peers.Config.{not_found, PeerConfig, PeersRegistry}
use convergio_mesh.Peers.Registry.{with_role, set_role, update_role, has_alias, by_alias, get_peer}

lookup-Above : (k j : Text) (m : Map PeerConfig) → Above k m → k ≡ j → lookup j m ≡ none
unfolding lookup
lookup-Above k j [] a e = refl
lookup-Above k j ((i, v) ∷ m) a e =
    ground (arith, text_eq_iff i j, text_ltb_irrefl k, lookup-Above k j m)

abbrev IsEntry : Text → Map PeerConfig → Text × PeerConfig → Type 0
IsEntry name m q = (lookup q.0 m ≡ some q.1) × (elem name (q.1).aliases ≡ true)

find-entry :
    (name n : Text) (p : PeerConfig) (m : Map PeerConfig)
    → IsSorted m
    → find (has_alias name) m ≡ some (n, p)
    → (lookup n m ≡ some p) × (elem name p.aliases ≡ true)
unfolding lookup
find-entry name n p [] s h = cc
find-entry name n p ((j, v) ∷ m) s h = elim (Bool-cases (elem name v.aliases)) [
  | inl here ↦
      let hit : find (has_alias name) ((j, v) ∷ m) ≡ some (j, v) = rw here refl in
      let same : (j, v) ≡ (n, p) = some-injective _ _ (sym hit ∙ h) in
      subst (IsEntry name ((j, v) ∷ m)) same (rw (text_eq_refl j) refl, here)
  | inr later ↦
      let pass : find (has_alias name) ((j, v) ∷ m) ≡ find (has_alias name) m = rw later refl in
      let f = find-entry name n p m s.1 (sym pass ∙ h) in
      let apart : text_eq j n ≡ false = ground (arith, text_eq_iff j n, lookup-Above j n m s.0) in
      (rw apart f.0, f.1)
]

by_alias-entry :
    (name n : Text) (p : PeerConfig) (m : Map PeerConfig) (o : Option PeerConfig)
    → lookup name m ≡ o
    → IsSorted m
    → by_alias name m o ≡ some (n, p)
    → (lookup n m ≡ some p) × ((name ≡ n) ⊎ (elem name p.aliases ≡ true))
unfolding by_alias
by_alias-entry name n p m (some cfg) e s h =
    let same : (name, cfg) ≡ (n, p) = some-injective _ _ h in
    subst
      (λ (q : Text × PeerConfig).
        (lookup q.0 m ≡ some q.1) × ((name ≡ q.0) ⊎ (elem name (q.1).aliases ≡ true)))
      same (e, inl refl)
by_alias-entry name n p m none e s h = let f = find-entry name n p m s h in (f.0, inr f.1)

-- In a registry that is in order, what get_peer finds is the entry of the registry under the name
-- that it returns, and the name that was asked for is that one or an alias of the entry.
pub get_peer_lem :
    (name n : Text) (p : PeerConfig) (r : PeersRegistry)
    → IsSorted r.peers
    → get_peer name r ≡ some (n, p)
    → (lookup n r.peers ≡ some p) × ((name ≡ n) ⊎ (elem name p.aliases ≡ true))
unfolding get_peer
get_peer_lem name n p r s h = by_alias-entry name n p r.peers (lookup name r.peers) refl s h

unknown_role :
    (name role j : Text) (m : Map PeerConfig)
    → lookup name m ≡ none
    → lookup j m ≡ (if text_eq name j then Option.map (with_role role) (lookup j m) else lookup j m)
unknown_role name role j m e = elim (Bool-cases (text_eq name j)) [
  | inl same ↦
      let gone : lookup j m ≡ none =
        subst (λ (n : Text). lookup n m ≡ none) ((text_eq_iff name j).0 same) e in
      rw (same, gone) refl
  | inr other ↦ rw other refl
]

set_role_lem :
    (name role j : Text) (r : PeersRegistry) (o : Option PeerConfig)
    → lookup name r.peers ≡ o
    → (lookup j (set_role name role r o).0.peers ≡ (
        if text_eq name j
        then Option.map (with_role role) (lookup j r.peers)
        else lookup j r.peers))
      × ((set_role name role r o).1 ≡ elim o [ none ↦ some (not_found name) | some p ↦ none ])
unfolding set_role
set_role_lem name role j r none e = (unknown_role name role j r.peers e, refl)
set_role_lem name role j r (some p) e = (lookup-modify name j (with_role role) r.peers, refl)

-- update_role gives the named peer the role and leaves everything else of it and every other peer as
-- it was; for a name that is not in the registry it changes nothing and returns NotFound.
pub update_role_lem :
    (name role j : Text) (r : PeersRegistry)
    → (lookup j (update_role name role r).0.peers ≡ (
        if text_eq name j
        then Option.map (with_role role) (lookup j r.peers)
        else lookup j r.peers))
      × ((update_role name role r).1
          ≡ elim (lookup name r.peers) [ none ↦ some (not_found name) | some p ↦ none ])
unfolding update_role
update_role_lem name role j r = set_role_lem name role j r (lookup name r.peers) refl
