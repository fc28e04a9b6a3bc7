-- ===== src/Capabilities/Query/Ranking.antt =====
-- What query_capable_peers answers: who is listed, with which score, in which order.
use convergio_mesh.Prelude.{
  ℕ, ◌+◌, ◌≡◌, ◌<◌, ◌∙◌, refl, ap, Bool, false, List, [], ◌∷◌, Option, some, map, length, any, All,
  ltb, is_empty, arith, ◌||◌, ◌≤◌, ◌*◌, if_cases,
}
use convergio_mesh.Prelude.Text.{Text, text_eq}
use convergio_mesh.Prelude.Map.{Map, lookup}
use convergio_mesh.Prelude.Map.Entries.{Values, All-lookup, any-lookup}
use convergio_mesh.Prelude.Reorder.{Reordered, Reordered-any, Reordered-All}
use convergio_mesh.Node.Capability.{CapabilityTag, to_string}
use convergio_mesh.Capabilities.Types.{
  CapabilityQuery, CapabilityMatch, Score, Row, Codec, rows, below,
}
use convergio_mesh.Capabilities.Query.{
  Entry, Entries, place, sort_by_score, match_of, match_rows, ranked, query_required,
  query_capable_peers,
}
use convergio_mesh.Capabilities.Query.Tally.{
  score_at, total, IsTally, score_at-match_rows, match_rows-IsTally, is_some-lookup,
}

-- Nobody stands before one with a higher score.
abbrev pub IsRanked : List CapabilityMatch → Type 0
IsRanked [] = Unit
IsRanked (m ∷ ms) = All (λ (x : CapabilityMatch). x.score.over ≤ m.score.over) ms × IsRanked ms

-- All scores have one denominator, so that they compare as their numerators do.
abbrev Out : ℕ → List CapabilityMatch → Type 0
Out n = All (λ (x : CapabilityMatch). x.score.under ≡ n)

module _ {κ} (P : CapabilityMatch → Type κ) where
  All-place :
      (m : CapabilityMatch) (ms : List CapabilityMatch) → P m → All P ms → All P (place m ms)
  unfolding place
  All-place m [] h a = (h, tt)
  All-place m (x ∷ xs) h a =
      if_cases (All P) (below m.score x.score) (λ _. (a.0, All-place m xs h a.1)) (λ _. (h, a))

  All-sort : (ms : List CapabilityMatch) → All P ms → All P (sort_by_score ms)
  unfolding sort_by_score
  All-sort [] a = tt
  All-sort (m ∷ ms) a = All-place m (sort_by_score ms) a.0 (All-sort ms a.1)

any-place :
    (p : CapabilityMatch → Bool) (m : CapabilityMatch) (ms : List CapabilityMatch)
    → any p (place m ms) ≡ (p m || any p ms)
unfolding place
any-place p m [] = refl
any-place p m (x ∷ xs) = ground (arith, any-place p m xs)

any-sort :
    (p : CapabilityMatch → Bool) (ms : List CapabilityMatch) → any p (sort_by_score ms) ≡ any p ms
unfolding sort_by_score
any-sort p [] = refl
any-sort p (m ∷ ms) = any-place p m (sort_by_score ms) ∙ ap (λ b. p m || b) (any-sort p ms)

mul_le : (a b n : ℕ) → a ≤ b → a * n ≤ b * n
mul_le a b n h = grind arith

mul_lt : (a b n : ℕ) → a < b → 0 < n → a * n < b * n
mul_lt a b n h k = grind (arith, mul_le (a + 1) b n)

mul_ltb : (a b n : ℕ) → 0 < n → ltb (a * n) (b * n) ≡ ltb a b
mul_ltb a b n h = ground (arith, mul_le b a n, mul_lt a b n)

below_over :
    (n : ℕ) (a b : Score) → 0 < n → a.under ≡ n → b.under ≡ n → below a b ≡ ltb a.over b.over
unfolding below
below_over n a b h e f = rw (e, f) (mul_ltb a.over b.over n h)

module _ (n : ℕ) (h : 0 < n) where
  All-le :
      (k l : ℕ) (ms : List CapabilityMatch)
      → k ≤ l
      → All (λ (x : CapabilityMatch). x.score.over ≤ k) ms
      → All (λ (x : CapabilityMatch). x.score.over ≤ l) ms
  All-le k l [] e a = tt
  All-le k l (x ∷ xs) e a = (omega arith, All-le k l xs e a.1)

  place-IsRanked :
      (m : CapabilityMatch) (ms : List CapabilityMatch)
      → m.score.under ≡ n
      → Out n ms
      → IsRanked ms
      → IsRanked (place m ms)
  unfolding place
  place-IsRanked m [] e o r = (tt, tt)
  place-IsRanked m (x ∷ xs) e o r =
      if_cases IsRanked (below m.score x.score)
        (λ t. (
          All-place (λ y. y.score.over ≤ x.score.over) m xs
              (ground (arith, below_over n m.score x.score h e o.0)) r.0,
          place-IsRanked m xs e o.1 r.1,
        ))
        (λ t. (
          (
            ground (arith, below_over n m.score x.score h e o.0),
            All-le x.score.over m.score.over xs
                (ground (arith, below_over n m.score x.score h e o.0)) r.0,
          ),
          r,
        ))

  sort-IsRanked : (ms : List CapabilityMatch) → Out n ms → IsRanked (sort_by_score ms)
  unfolding sort_by_score
  sort-IsRanked [] o = tt
  sort-IsRanked (m ∷ ms) o =
      place-IsRanked m (sort_by_score ms) o.0 (All-sort (λ x. x.score.under ≡ n) ms o.1)
        (sort-IsRanked ms o.1)

All-map {κ} :
    (n : ℕ) (P : CapabilityMatch → Type κ) (es : Entries)
    → All (λ (e : Text × Entry). P (match_of n e)) es
    → All P (map (match_of n) es)
All-map n P [] a = tt
All-map n P (e ∷ es) a = (a.0, All-map n P es a.1)

Out-map : (n : ℕ) (es : Entries) → Out n (map (match_of n) es)
unfolding match_of
Out-map n [] = tt
Out-map n ((peer, entry) ∷ es) = (refl, Out-map n es)

any-map :
    (n : ℕ) (peer : Text) (es : Entries)
    → any (λ (m : CapabilityMatch). text_eq m.peer_name peer) (map (match_of n) es)
      ≡ any (λ (e : Text × Entry). text_eq e.0 peer) es
unfolding match_of
any-map n peer [] = refl
any-map n peer ((who, entry) ∷ es) = ap (λ b. text_eq who peer || b) (any-map n peer es)

module _ (codec : Codec) (into_iter : Entries → Entries) where
  -- What is said of a match: its score is the sum for its peer, which is positive, over the number
  -- of required tags.
  abbrev pub IsExact : List Text → Option Text → List Row → CapabilityMatch → Type 0
  IsExact required min_version table m =
      (m.score.over ≡ total codec required min_version m.peer_name table)
      × (0 < m.score.over)
      × (m.score.under ≡ length required)

  abbrev pub Listed : List Text → Option Text → List Row → List CapabilityMatch → Type 0
  Listed required min_version table ms =
      (peer : Text)
      → any (λ (m : CapabilityMatch). text_eq m.peer_name peer) ms
        ≡ ltb 0 (total codec required min_version peer table)

  entries-IsExact :
      (required : List Text) (min_version : Option Text) (table : List Row) (m es : Map Entry)
      → ((peer : Text) → score_at peer m ≡ total codec required min_version peer table)
      → All (λ (e : Text × Entry). lookup e.0 m ≡ some e.1) es
      → Values (λ entry. 0 < entry.score) es
      → All
          (λ (e : Text × Entry). IsExact required min_version table (match_of (length required) e))
          es
  unfolding match_of
  entries-IsExact required min_version table m [] h a p = tt
  entries-IsExact required min_version table m ((peer, entry) ∷ es) h a p = (
    (ground (arith, h peer), p.0, refl),
    entries-IsExact required min_version table m es h a.1 p.1,
  )

  tally_total :
      (required : List Text) (min_version : Option Text) (peer : Text) (table : List Row)
      → score_at peer (match_rows codec required min_version table [])
        ≡ total codec required min_version peer table
  unfolding lookup
  tally_total required min_version peer table =
      omega (arith, score_at-match_rows codec required min_version peer table [])

  module _ (required : List Text) (min_version : Option Text) (table : List Row)
      (r : (es : Entries) → Reordered es (into_iter es)) where
    matches : Map Entry
    matches = match_rows codec required min_version table []

    matches-IsTally : IsTally matches
    unfolding matches
    matches-IsTally = match_rows-IsTally codec required min_version table [] (tt, tt)

    ranked-IsExact :
        All (IsExact required min_version table) (ranked codec into_iter required min_version table)
    unfolding ranked matches
    ranked-IsExact =
        All-sort (IsExact required min_version table)
          (map (match_of (length required)) (into_iter matches))
          (All-map (length required) (IsExact required min_version table) (into_iter matches) (
            Reordered-All _ (r matches) (
              entries-IsExact required min_version table matches matches
                (λ peer. tally_total required min_version peer table)
                (All-lookup matches matches-IsTally.0) matches-IsTally.1)))

    ranked-Listed :
        Listed required min_version table (ranked codec into_iter required min_version table)
    unfolding ranked matches
    ranked-Listed peer =
        any-sort _ (map (match_of (length required)) (into_iter matches))
        ∙ any-map (length required) peer (into_iter matches)
        ∙ Reordered-any _ (r matches)
        ∙ any-lookup peer matches
        ∙ is_some-lookup peer matches matches-IsTally.1
        ∙ ap (ltb 0) (tally_total required min_version peer table)

    ranked-IsRanked :
        0 < length required → IsRanked (ranked codec into_iter required min_version table)
    unfolding ranked matches
    ranked-IsRanked h =
        sort-IsRanked (length required) h (map (match_of (length required)) (into_iter matches))
          (Out-map (length required) (into_iter matches))

  query_required_lem :
      (t : Text) (ts : List Text) (min_version : Option Text) (table : List Row)
      → query_required codec into_iter (t ∷ ts) min_version (rows table)
        ≡ some (ranked codec into_iter (t ∷ ts) min_version table)
  unfolding query_required
  query_required_lem t ts min_version table = refl

  -- A query that requires a tag, over rows that can be read, answers with a list in the order of
  -- falling scores. A peer is in the list exactly if the sum over its rows of an accepted version, of
  -- the required tags that the row has, is positive, and its score is that sum over the number of
  -- required tags. The entries of the HashMap may come in any order.
  pub query-Ranked :
      ((es : Entries) → Reordered es (into_iter es))
      → (query : CapabilityQuery) (table : List Row) → is_empty query.required_tags ≡ false
      → (ms : List CapabilityMatch) × (query_capable_peers codec into_iter query (rows table)
          ≡ some ms)
        × IsRanked ms
        × All (IsExact (map to_string query.required_tags) query.min_version table) ms
        × Listed (map to_string query.required_tags) query.min_version table ms
  unfolding query_capable_peers
  query-Ranked r query table h = go query.required_tags h
    where
      go :
          (tags : List CapabilityTag)
          → is_empty tags ≡ false
          → (ms : List CapabilityMatch) × (query_required codec into_iter
                (map to_string tags)
                query.min_version
                (rows table)
              ≡ some ms)
            × IsRanked ms
            × All (IsExact (map to_string tags) query.min_version table) ms
            × Listed (map to_string tags) query.min_version table ms
      go [] e = cc
      go (t ∷ ts) e = (
        ranked codec into_iter (map to_string (t ∷ ts)) query.min_version table,
        query_required_lem (to_string t) (map to_string ts) query.min_version table,
        ranked-IsRanked (map to_string (t ∷ ts)) query.min_version table r (omega arith),
        ranked-IsExact (map to_string (t ∷ ts)) query.min_version table r,
        ranked-Listed (map to_string (t ∷ ts)) query.min_version table r,
      )
