-- ===== src/Capabilities/Query/Tally.antt =====
-- The map of query_capable_peers against the sum over the rows of each peer.
use convergio_mesh.Prelude.{
  ℕ, ◌+◌, ◌≡◌, ◌<◌, refl, true, false, List, [], ◌∷◌, Option, none, some, not, length, is_empty,
  is_some, if◌then◌else◌, arith, ltb, Option-cases, if_cases, inl, inr,
}
use convergio_mesh.Prelude.Text.{Text, text_eq}
use convergio_mesh.Prelude.Text.Order.{text_eq_iff}
use convergio_mesh.Prelude.Map.{Map, lookup}
use convergio_mesh.Prelude.Map.Laws.{lookup-insert, IsSorted, insert-IsSorted}
use convergio_mesh.Prelude.Map.Entries.{Values, Values-insert, Values-lookup}
use convergio_mesh.Capabilities.Types.{Row, Codec}
use convergio_mesh.Capabilities.Query.{
  Entry, accepts_version, matched_tags, raised, add_match, match_row, match_rows,
}

abbrev pub score_at : Text → Map Entry → ℕ
score_at peer m = elim (lookup peer m) [ none ↦ 0 | some entry ↦ entry.score ]

-- Every entry has a match, and no peer has two.
abbrev pub IsTally : Map Entry → Type 0
IsTally m = IsSorted m × Values (λ entry. 0 < entry.score) m

module _ (codec : Codec) (required : List Text) (min_version : Option Text) where
  -- The required tags of a row, if its version is accepted, and their sum over the rows of a peer.
  abbrev pub points : Row → ℕ
  points row =
      if accepts_version min_version row.capability_version
      then length (matched_tags codec required min_version row)
      else 0

  abbrev pub total : Text → List Row → ℕ
  total peer [] = 0
  total peer (row ∷ table) =
      (if text_eq row.peer_name peer then points row else 0) + total peer table

  score_at-add_match :
      (peer : Text) (row : Row) (tags : List Text) (m : Map Entry)
      → score_at peer (add_match row tags m) ≡ (
          if text_eq row.peer_name peer
          then score_at row.peer_name m + length tags
          else score_at peer m)
  unfolding add_match
  score_at-add_match peer row tags m =
      ground (arith, lookup-insert row.peer_name peer (raised row tags (lookup row.peer_name m)) m)

  is_empty-length : (xs : List Text) → is_empty xs ≡ true → length xs ≡ 0
  is_empty-length [] h = refl
  is_empty-length (x ∷ xs) h = cc

  score_at-match_row :
      (peer : Text) (row : Row) (m : Map Entry)
      → score_at peer (match_row codec required min_version row m)
        ≡ (if text_eq row.peer_name peer then score_at peer m + points row else score_at peer m)
  unfolding match_row
  score_at-match_row peer row m = ground (
    arith,
    text_eq_iff row.peer_name peer,
    is_empty-length (matched_tags codec required min_version row),
    score_at-add_match peer row (matched_tags codec required min_version row) m,
  )

  -- What the loop adds to the score of a peer is its total.
  pub score_at-match_rows :
      (peer : Text) (table : List Row) (m : Map Entry)
      → score_at peer (match_rows codec required min_version table m)
        ≡ score_at peer m + total peer table
  unfolding match_rows
  score_at-match_rows peer [] m = omega arith
  score_at-match_rows peer (row ∷ table) m = ground (
    arith,
    score_at-match_row peer row m,
    score_at-match_rows peer table (match_row codec required min_version row m),
  )

  length-pos : (xs : List Text) → is_empty xs ≡ false → 0 < length xs
  length-pos [] h = cc
  length-pos (x ∷ xs) h = omega arith

  add_match-IsTally :
      (row : Row) (tags : List Text) (m : Map Entry)
      → 0 < length tags
      → IsTally m
      → IsTally (add_match row tags m)
  unfolding add_match
  add_match-IsTally row tags m h t = (
    insert-IsSorted row.peer_name (raised row tags (lookup row.peer_name m)) m t.0,
    Values-insert (λ entry. 0 < entry.score) row.peer_name
        (raised row tags (lookup row.peer_name m)) m (omega arith) t.1,
  )

  match_row-IsTally :
      (row : Row) (m : Map Entry) → IsTally m → IsTally (match_row codec required min_version row m)
  unfolding match_row
  match_row-IsTally row m h =
      if_cases IsTally (not (accepts_version min_version row.capability_version)) (λ _. h)
        λ _.
          if_cases IsTally (is_empty (matched_tags codec required min_version row)) (λ _. h)
            λ e.
              add_match-IsTally row (matched_tags codec required min_version row) m (length-pos _ e)
                h

  pub match_rows-IsTally :
      (table : List Row) (m : Map Entry)
      → IsTally m
      → IsTally (match_rows codec required min_version table m)
  unfolding match_rows
  match_rows-IsTally [] m h = h
  match_rows-IsTally (row ∷ table) m h =
      match_rows-IsTally table (match_row codec required min_version row m)
        (match_row-IsTally row m h)

pub is_some-lookup :
    (peer : Text) (m : Map Entry)
    → Values (λ entry. 0 < entry.score) m
    → is_some (lookup peer m) ≡ ltb 0 (score_at peer m)
is_some-lookup peer m h = elim (Option-cases (lookup peer m)) [
  | inl e ↦ ground arith
  | inr (entry, e) ↦ (ground (arith, Values-lookup (λ x. 0 < x.score) peer m h e))
]
