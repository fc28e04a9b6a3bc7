-- ===== src/Capabilities/Table/Readback.antt =====
-- What get_peer_capabilities reads after register_capabilities.
use convergio_mesh.Prelude.{
  ℕ, ◌+◌, ◌≡◌, refl, ap, List, [], ◌∷◌, Option, none, some, ◌&&◌, find, or_else, if◌then◌else◌,
  arith, Option-cases, inl, inr, ◌>>=◌, All,
}
use mathlib.Core.Option
use convergio_mesh.Prelude.Text.{Text, codes, text_eq}
use convergio_mesh.Sync.Json.{null}
use convergio_mesh.Capabilities.Types.{NodeCapability, Row, Codec, rows, IsFaithful}
use convergio_mesh.Capabilities.Table.{
  has_key, upsert, row_of, capability_of, register_from, register_capabilities,
  get_peer_capabilities,
}
use convergio_mesh.Capabilities.Table.Keys.{
  row_at, row_at-upsert, register_from_done, register_from_fails, register_from_goes,
}

abbrev named : Text → List NodeCapability → Option NodeCapability
named name = find (λ cap. text_eq cap.name name)

-- The capability of that name among those that get_peer_capabilities gives.
abbrev pub capability_at : Codec → Text → Text → List Row → Option NodeCapability
capability_at codec peer name table = get_peer_capabilities codec (rows table) peer >>= named name

-- The last capability of that name in a list.
abbrev pub last_named : Text → List NodeCapability → Option NodeCapability → Option NodeCapability
last_named name [] before = before
last_named name (c ∷ caps) before =
    last_named name caps (if text_eq c.name name then some c else before)

capability_at_lem :
    (codec : Codec) (peer name : Text) (table : List Row)
    → capability_at codec peer name table
      ≡ Option.map (capability_of codec) (row_at peer name table)
unfolding get_peer_capabilities row_at has_key capability_of
capability_at_lem codec peer name [] = refl
capability_at_lem codec peer name (row ∷ table) =
    ground (arith, capability_at_lem codec peer name table)

or_else-bind :
    {A : Type 0} (m : Option Text) (f : Text → Option A) (t : Text) (d a : A)
    → (m >>= f) ≡ some a
    → or_else (f (or_else m t)) d ≡ a
or_else-bind none f t d a h = cc
or_else-bind (some s) f t d a h = rw h

capability_of-row_of :
    (codec : Codec) (now peer : Text) (c : NodeCapability)
    → IsFaithful codec c
    → capability_of codec (row_of codec now peer c) ≡ c
unfolding capability_of row_of
capability_of-row_of codec now peer c ok = ground (
  arith,
  or_else-bind (codec.tags_to_string c.tags) codec.tags_from_str (codes "[]") [] c.tags ok.tags,
  or_else-bind (codec.metadata_to_string c.metadata) codec.metadata_from_str (codes "{}") null
      c.metadata ok.metadata,
)

capability_at-upsert :
    (codec : Codec) (now peer who name : Text) (c : NodeCapability) (table : List Row)
    → IsFaithful codec c
    → capability_at codec who name (upsert (row_of codec now peer c) table) ≡ (
        if text_eq peer who && text_eq c.name name
        then some c
        else capability_at codec who name table)
unfolding has_key row_of
capability_at-upsert codec now peer who name c table ok = ground (
  arith,
  capability_at_lem codec who name (upsert (row_of codec now peer c) table),
  capability_at_lem codec who name table,
  row_at-upsert who name (row_of codec now peer c) table,
  capability_of-row_of codec now peer c ok,
)

-- The register loop, if no statement of it fails.
register_from-capability_at :
    (codec : Codec) (clock : ℕ → Option Text) (n : ℕ) (peer who name : Text)
    (caps : List NodeCapability) (table : List Row)
    → All (IsFaithful codec) caps
    → (register_from codec clock n peer caps table).1 ≡ some tt
    → capability_at codec who name (register_from codec clock n peer caps table).0 ≡ (
        if text_eq peer who
        then last_named name caps (capability_at codec who name table)
        else capability_at codec who name table)
register_from-capability_at codec clock n peer who name [] table ok h =
    rw (register_from_done codec clock n peer table) (ground arith)
register_from-capability_at codec clock n peer who name (c ∷ caps) table ok h =
    elim (Option-cases (clock n)) [
      | inl e ↦ ground (arith, register_from_fails codec clock n peer c caps table e)
      | inr (now, e) ↦ rw (register_from_goes codec clock n peer c caps table now e) (
          ground (
            arith,
            register_from-capability_at codec clock (n + 1) peer who name caps
                (upsert (row_of codec now peer c) table) ok.1
                (rw (← ap (λ r. r.1) (register_from_goes codec clock n peer c caps table now e)) h),
            capability_at-upsert codec now peer who name c table ok.0,
          ))
    ]

-- After a registration that succeeds, of capabilities whose JSON is read back as it is printed, the
-- capability of each name that the peer has is the last of that name in the request, or else what
-- it was; the capabilities of all other peers are what they were.
pub register-get :
    (codec : Codec) (clock : ℕ → Option Text) (peer who name : Text) (caps : List NodeCapability)
    (table : List Row)
    → All (IsFaithful codec) caps
    → (register_capabilities codec clock peer caps table).1 ≡ some tt
    → capability_at codec who name (register_capabilities codec clock peer caps table).0 ≡ (
        if text_eq peer who
        then last_named name caps (capability_at codec who name table)
        else capability_at codec who name table)
unfolding register_capabilities
register-get codec clock = register_from-capability_at codec clock 0
