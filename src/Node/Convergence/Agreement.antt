-- ===== src/Node/Convergence/Agreement.antt =====
-- Nodes with the same statuses do not diverge.
use convergio_mesh.Prelude.{
  ℕ, ◌+◌, ◌≡◌, refl, ap, sym, ◌∙◌, subst, Bool, true, false, not, List, [], ◌∷◌, Option, none, some,
  ◌&&◌, any, All, or_else, arith, if◌then◌else◌, Bool-cases, inl, inr,
}
use convergio_mesh.Prelude.Text.{Text, codes, text_eq}
use convergio_mesh.Prelude.Text.Order.{text_eq_iff}
use convergio_mesh.Prelude.Map.{Map, lookup}
use convergio_mesh.Prelude.Map.Laws.{lookup-insert, IsSorted, insert-IsSorted}
use convergio_mesh.Prelude.Map.Entries.{All-lookup, Map-ext}
use convergio_mesh.Prelude.Reorder.{Reordered, nil, cons, swap, trans}
use convergio_mesh.Auth.Hmac.{Bytes}
use convergio_mesh.Node.Convergence.{
  Statuses, count_nulls, bump, group_by, table_text, Tables, checksum_input, compute_local_checksum,
  PeerState, Warning, diverged, Ages, next_version, upsert_state, is_diverged, warnings, report,
  check_convergence,
}

group_by-IsSorted : (s : Statuses) → IsSorted (group_by s)
unfolding group_by
group_by-IsSorted [] = tt
group_by-IsSorted (none ∷ rest) = group_by-IsSorted rest
group_by-IsSorted (some status ∷ rest) =
    insert-IsSorted status _ (group_by rest) (group_by-IsSorted rest)

lookup-bump :
    (j k : Text) (m : Map ℕ)
    → lookup j (bump k m) ≡ (if text_eq k j then some (or_else (lookup k m) 0 + 1) else lookup j m)
unfolding bump
lookup-bump j k m = lookup-insert k j _ m

bump-IsSorted : (k : Text) (m : Map ℕ) → IsSorted m → IsSorted (bump k m)
unfolding bump
bump-IsSorted k m s = insert-IsSorted k _ m s

bump_comm : (k l : Text) (m : Map ℕ) → IsSorted m → bump k (bump l m) ≡ bump l (bump k m)
bump_comm k l m s =
    Map-ext (bump k (bump l m)) (bump l (bump k m))
      (bump-IsSorted k (bump l m) (bump-IsSorted l m s))
      (bump-IsSorted l (bump k m) (bump-IsSorted k m s))
      (λ j. ground (
        arith,
        lookup-bump j k (bump l m),
        lookup-bump j l (bump k m),
        lookup-bump j k m,
        lookup-bump j l m,
        lookup-bump k l m,
        lookup-bump l k m,
        text_eq_iff k j,
        text_eq_iff l j,
        text_eq_iff k l,
        text_eq_iff l k,
      ))

-- The groups of a table, and the count of its NULLs, do not depend on the order of the rows.
group_by_same : {s t : Statuses} → Reordered s t → group_by s ≡ group_by t
unfolding group_by
group_by_same nil = refl
group_by_same (cons none r) = group_by_same r
group_by_same (cons (some k) r) = ap (bump k) (group_by_same r)
group_by_same (swap none none rest) = refl
group_by_same (swap none (some l) rest) = refl
group_by_same (swap (some k) none rest) = refl
group_by_same (swap (some k) (some l) rest) = bump_comm k l (group_by rest) (group_by-IsSorted rest)
group_by_same (trans r q) = group_by_same r ∙ group_by_same q

count_nulls_same : {s t : Statuses} → Reordered s t → count_nulls s ≡ count_nulls t
unfolding count_nulls
count_nulls_same nil = refl
count_nulls_same (cons none r) = ap (λ n. n + 1) (count_nulls_same r)
count_nulls_same (cons (some k) r) = count_nulls_same r
count_nulls_same (swap none none rest) = refl
count_nulls_same (swap none (some l) rest) = refl
count_nulls_same (swap (some k) none rest) = refl
count_nulls_same (swap (some k) (some l) rest) = refl
count_nulls_same (trans r q) = count_nulls_same r ∙ count_nulls_same q

-- Both tables are missing, or they hold the same statuses, each as often.
abbrev pub SameRows : Option Statuses → Option Statuses → Type 0
SameRows none none = Unit
SameRows (some s) (some t) = Reordered s t
SameRows _ _ = ⊥

table_text_same :
    (name : Text) (s t : Option Statuses)
    → SameRows s t
    → table_text (name, s) ≡ table_text (name, t)
unfolding table_text
table_text_same name none none h = refl
table_text_same name none (some t) h = elim h [ ]
table_text_same name (some s) none h = elim h [ ]
table_text_same name (some s) (some t) h = rw (group_by_same h, count_nulls_same h) refl

pub record SameTables (t u : Tables) : Type 0 where
  pub plans : SameRows t.plans u.plans
  pub tasks : SameRows t.tasks u.tasks
  pub waves : SameRows t.waves u.waves

checksum_same :
    (sha256 : Bytes → Bytes) (t u : Tables)
    → SameTables t u
    → compute_local_checksum sha256 t ≡ compute_local_checksum sha256 u
unfolding compute_local_checksum checksum_input
checksum_same sha256 t u h =
    rw
      (
        table_text_same (codes "plans") t.plans u.plans h.plans,
        table_text_same (codes "tasks") t.tasks u.tasks h.tasks,
        table_text_same (codes "waves") t.waves u.waves h.waves,
      )
      refl

-- Whether a warning names a peer.
abbrev names : Text → Warning → Bool
names peer (diverged d) = text_eq d.peer_id peer
names peer _ = false

abbrev pub is_warned : Text → List Warning → Bool
is_warned peer = any (names peer)

module _ (ages : Ages) (hostname checksum peer : Text) (m : Map PeerState) where
  agrees :
      (name : Text) (row : PeerState)
      → name ≡ peer
      → is_diverged ages hostname checksum (peer, row) ≡ false
      → is_diverged ages hostname checksum (name, row) ≡ false
  agrees name row e h = subst (λ n. is_diverged ages hostname checksum (n, row) ≡ false) (sym e) h

  not_warned :
      (rest : Map PeerState)
      → ((row : PeerState)
          → lookup peer m ≡ some row
          → is_diverged ages hostname checksum (peer, row) ≡ false)
      → All (λ (e : Text × PeerState). lookup e.0 m ≡ some e.1) rest
      → is_warned peer (warnings ages hostname checksum rest) ≡ false
  unfolding warnings
  not_warned [] h a = refl
  not_warned ((name, row) ∷ rest) h a =
      let later = not_warned rest h a.1 in
      elim (Bool-cases (text_eq name peer)) [
        | inl e ↦
            let same : name ≡ peer = (text_eq_iff name peer).0 e in
            rw (agrees name row same (h row (subst (λ n. lookup n m ≡ some row) same a.0))) later
        | inr e ↦ ground (arith, later)
      ]

  -- The checksum of a row is the node's own.
  same_checksum :
      (row : PeerState)
      → row.state_checksum ≡ checksum
      → is_diverged ages hostname checksum (peer, row) ≡ false
  unfolding is_diverged
  same_checksum row e = ground (arith, text_eq_iff row.state_checksum checksum)

  self_checksum :
      (row : PeerState) → hostname ≡ peer → is_diverged ages hostname checksum (peer, row) ≡ false
  unfolding is_diverged
  self_checksum row e = ground (arith, text_eq_iff peer hostname)

abbrev new_state : Text → Text → Text → Map PeerState → PeerState
new_state now hostname checksum table = record {
  state_version = next_version (lookup hostname table);
  state_checksum = checksum;
  last_seen = now;
}

lookup-upsert_state :
    (now hostname checksum j : Text) (table : Map PeerState)
    → lookup j (upsert_state now hostname checksum table) ≡ (
        if text_eq hostname j then some (new_state now hostname checksum table) else lookup j table)
unfolding upsert_state
lookup-upsert_state now hostname checksum j table = lookup-insert hostname j _ table

upsert_state-IsSorted :
    (now hostname checksum : Text) (table : Map PeerState)
    → IsSorted table
    → IsSorted (upsert_state now hostname checksum table)
unfolding upsert_state
upsert_state-IsSorted now hostname checksum table s = insert-IsSorted hostname _ table s

report-not_warned :
    (ages : Ages) (hostname checksum peer : Text) (unprepared unread : Bool) (m : Map PeerState)
    → IsSorted m
    → ((row : PeerState)
        → lookup peer m ≡ some row
        → is_diverged ages hostname checksum (peer, row) ≡ false)
    → is_warned peer (report ages hostname checksum unprepared unread m) ≡ false
unfolding report
report-not_warned ages hostname checksum peer true unread m s h = refl
report-not_warned ages hostname checksum peer false true m s h = refl
report-not_warned ages hostname checksum peer false false m s h =
    not_warned ages hostname checksum peer m m h (All-lookup m s)

module _ (sha256 : Bytes → Bytes) (ages : Ages) (hostname now : Text)
    (upsert_fails unprepared unread : Bool) where
  agreeing_row :
      (t u : Tables) (table : Map PeerState) (peer : Text) (row row' : PeerState)
      → SameTables t u
      → lookup peer table ≡ some row
      → row.state_checksum ≡ compute_local_checksum sha256 u
      → lookup peer (upsert_state now hostname (compute_local_checksum sha256 t) table) ≡ some row'
      → is_diverged ages hostname (compute_local_checksum sha256 t) (peer, row') ≡ false
  agreeing_row t u table peer row row' same e c f = ground (
    arith,
    checksum_same sha256 t u same,
    lookup-upsert_state now hostname (compute_local_checksum sha256 t) peer table,
    text_eq_iff hostname peer,
    self_checksum ages hostname (compute_local_checksum sha256 t) peer table row',
    same_checksum ages hostname (compute_local_checksum sha256 t) peer table row',
  )

  -- A check of convergence, over a table sorted by peer, warns of no peer whose recorded checksum is
  -- that of tables with the same statuses as the node's own, in whatever order their rows are. It
  -- records under the name of the node its checksum, the time and the next version, unless the upsert
  -- fails, and leaves all other rows.
  pub check_convergence-Agrees :
      (t u : Tables) (table : Map PeerState) (peer : Text) (row : PeerState)
      → IsSorted table
      → SameTables t u
      → lookup peer table ≡ some row
      → row.state_checksum ≡ compute_local_checksum sha256 u
      → (is_warned peer
            (check_convergence sha256 ages hostname now upsert_fails unprepared unread t table).1
          ≡ false)
        × ((j : Text)
            → lookup j
                (check_convergence sha256 ages hostname now upsert_fails unprepared unread t
                  table).0
              ≡ (if not upsert_fails && text_eq hostname j
                  then some (new_state now hostname (compute_local_checksum sha256 t) table)
                  else lookup j table))
  unfolding check_convergence
  check_convergence-Agrees t u table peer row s same e c = elim (Bool-cases upsert_fails) [
    | inl f ↦ rw f (refl, λ j. refl)
    | inr f ↦ rw f (
      report-not_warned ages hostname (compute_local_checksum sha256 t) peer unprepared unread _
          (upsert_state-IsSorted now hostname (compute_local_checksum sha256 t) table s)
          (λ row' g. agreeing_row t u table peer row row' same e c g),
      λ j. lookup-upsert_state now hostname (compute_local_checksum sha256 t) j table,
    )
  ]
