-- ===== src/Peers/Parser/Merge.antt =====
-- What one section of peers.conf does to the peers.
use convergio_mesh.Prelude.{
  ◌≡◌, ◌≢◌, ◌⊎◌, refl, subst, true, ◌||◌, List, [], ◌∷◌, ◌++◌, Option, none, some, arith,
}
use convergio_mesh.Prelude.Text.{Text, elem}
use convergio_mesh.Prelude.Text.Order.{text_eq_iff, text_eq_refl}
use convergio_mesh.Prelude.Map.{Map, Above, lookup, insert, modify}
use convergio_mesh.Prelude.Map.Laws.{lookup-insert, lookup-modify, IsSorted, insert-IsSorted}
use convergio_mesh.Peers.Config.{PeerConfig}
use convergio_mesh.Peers.Parser.{keep_raw, add_alias, add_aliases, with_aliases, merge_peer}

elem-append : (t : Text) (xs ys : List Text) → elem t (xs ++ ys) ≡ (elem t xs || elem t ys)
unfolding elem
elem-append t [] ys = refl
elem-append t (x ∷ xs) ys = ground (arith, elem-append t xs ys)

add_alias-keeps :
    (canon x t : Text) (ys : List Text) → elem t ys ≡ true → elem t (add_alias canon x ys) ≡ true
unfolding add_alias
add_alias-keeps canon x t ys h = ground (arith, elem-append t ys (x ∷ []))

add_alias-adds :
    (canon x : Text) (ys : List Text) → (x ≡ canon) ⊎ (elem x (add_alias canon x ys) ≡ true)
unfolding add_alias elem
add_alias-adds canon x ys =
    ground (arith, text_eq_iff x canon, text_eq_refl x, elem-append x ys (x ∷ []))

add_aliases-keeps :
    (canon t : Text) (xs ys : List Text)
    → elem t ys ≡ true
    → elem t (add_aliases canon xs ys) ≡ true
unfolding add_aliases
add_aliases-keeps canon t [] ys h = h
add_aliases-keeps canon t (x ∷ xs) ys h =
    add_aliases-keeps canon t xs (add_alias canon x ys) (add_alias-keeps canon x t ys h)

add_aliases-last :
    (canon x : Text) (xs ys : List Text)
    → (x ≡ canon) ⊎ (elem x (add_aliases canon (xs ++ x ∷ []) ys) ≡ true)
unfolding add_aliases
add_aliases-last canon x [] ys = add_alias-adds canon x ys
add_aliases-last canon x (y ∷ xs) ys = add_aliases-last canon x xs (add_alias canon y ys)

pub keep_raw-adds :
    (name canon : Text) (cfg : PeerConfig)
    → (name ≡ canon) ⊎ (elem name (keep_raw name canon cfg).aliases ≡ true)
unfolding keep_raw elem
keep_raw-adds name canon cfg =
    ground
      (arith, text_eq_iff name canon, text_eq_refl name, elem-append name cfg.aliases (name ∷ []))

-- The peer is there under its canonical name, and has the name or the alias.
pub record Known (name canon : Text) (peers : Map PeerConfig) : Type 0 where
  pub config : PeerConfig
  pub entry : lookup canon peers ≡ some config
  pub named : (name ≡ canon) ⊎ (elem name config.aliases ≡ true)

-- What a section of a peer leaves: its name is known, every other peer is as before, and a peer that
-- was there keeps all its fields but the aliases, of which none is lost.
pub record Merged (name canon : Text) (peers peers' : Map PeerConfig) : Type 0 where
  pub known : Known name canon peers'
  pub others : (j : Text) → canon ≢ j → lookup j peers' ≡ lookup j peers
  pub first :
      (old : PeerConfig)
      → lookup canon peers ≡ some old
      → (ys : List Text) × (lookup canon peers' ≡ some (record old { aliases = ys }))
        × ((t : Text) → elem t old.aliases ≡ true → elem t ys ≡ true)

pub merge_peer-Merged :
    (name canon : Text) (cfg : PeerConfig) (peers : Map PeerConfig) (o : Option PeerConfig)
    → lookup canon peers ≡ o
    → (name ≡ canon) ⊎ (elem name cfg.aliases ≡ true)
    → Merged name canon peers (merge_peer name canon cfg peers o)
unfolding merge_peer
merge_peer-Merged name canon cfg peers none e h =
    let here : lookup canon (insert canon cfg peers) ≡ some cfg =
      rw (lookup-insert canon canon cfg peers, text_eq_refl canon) refl in
    record {
      known = record { config = cfg; entry = here; named = h };
      others = λ j n. ground (arith, lookup-insert canon j cfg peers, text_eq_iff canon j);
      first = λ old k. cc;
    }
merge_peer-Merged name canon cfg peers (some old) e h =
    let f = with_aliases canon (cfg.aliases ++ name ∷ []) in
    let here : lookup canon (modify canon f peers) ≡ some (f old) =
      rw (lookup-modify canon canon f peers, text_eq_refl canon, e) refl in
    record {
      known = record {
        config = f old;
        entry = here;
        named = add_aliases-last canon name cfg.aliases old.aliases;
      };
      others = λ j n. ground (arith, lookup-modify canon j f peers, text_eq_iff canon j);
      first = λ old' k.
          let same : old ≡ old' = cc in
          subst
            (λ (o : PeerConfig).
              (ys : List Text) × (lookup canon (modify canon f peers)
                ≡ some (record o { aliases = ys }))
              × ((t : Text) → elem t o.aliases ≡ true → elem t ys ≡ true))
            same
            (
              (f old).aliases,
              here,
              λ t m. add_aliases-keeps canon t (cfg.aliases ++ name ∷ []) old.aliases m,
            );
    }

Above-modify :
    (i k : Text) (f : PeerConfig → PeerConfig) (m : Map PeerConfig)
    → Above i m
    → Above i (modify k f m)
unfolding modify
Above-modify i k f [] a = tt
Above-modify i k f ((j, v) ∷ m) a = ground (arith, Above-modify i k f m)

modify-IsSorted :
    (k : Text) (f : PeerConfig → PeerConfig) (m : Map PeerConfig)
    → IsSorted m
    → IsSorted (modify k f m)
unfolding modify
modify-IsSorted k f [] s = tt
modify-IsSorted k f ((j, v) ∷ m) s = ground (arith, Above-modify j k f m, modify-IsSorted k f m)

pub merge_peer-IsSorted :
    (name canon : Text) (cfg : PeerConfig) (peers : Map PeerConfig) (o : Option PeerConfig)
    → IsSorted peers
    → IsSorted (merge_peer name canon cfg peers o)
unfolding merge_peer
merge_peer-IsSorted name canon cfg peers none s = insert-IsSorted canon cfg peers s
merge_peer-IsSorted name canon cfg peers (some old) s =
    modify-IsSorted canon (with_aliases canon (cfg.aliases ++ name ∷ [])) peers s
