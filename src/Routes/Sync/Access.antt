-- ===== src/Routes/Sync/Access.antt =====
-- Who may read what, and who may change what, over the two endpoints of delta sync.
use convergio_mesh.Prelude.{
  ◌≡◌, ◌≢◌, refl, sym, subst, Bool, true, false, not, List, [], ◌∷◌, Option, none, some, arith, all,
  Bool-cases, inl, inr,
}
use convergio_mesh.Prelude.Int.{ℤ}
use convergio_mesh.Prelude.Text.{Text, codes, text_eq, elem}
use convergio_mesh.Prelude.Text.Order.{text_eq_iff}
use convergio_mesh.Auth.Hmac.{Bytes, Mac}
use convergio_mesh.Auth.Signed.{Hex, Headers, Refusal, authorize}
use convergio_mesh.Sync.Types.{SyncChange, sync_tables, sync_denylist, in_sync_tables}
use convergio_mesh.Sync.Sqlite.{Sqlite}
use convergio_mesh.Sync.Export.{Result, ok, err, export_changes_since}
use convergio_mesh.Sync.Apply.{ApplyReport, count_applied, apply_changes, apply_changes_detailed}
use convergio_mesh.Sync.Apply.Frame.{IsKept, apply_frame}
use convergio_mesh.Routes.Sync.{
  refuse, unauthorized, changes, export_reply, export_with, handle_export, import_outcome,
  import_changes, import_authorized, handle_import,
}

elem-all :
    (P : Text → Bool) (t : Text) (xs : List Text) → all P xs ≡ true → elem t xs ≡ true → P t ≡ true
unfolding elem
elem-all P t [] h e = cc
elem-all P t (x ∷ xs) h e = elim (Bool-cases (text_eq x t)) [
  | inl same ↦ rw (sym ((text_eq_iff x t).0 same)) (ground arith)
  | inr other ↦ ground (arith, elem-all P t xs)
]

abbrev shareable : Text → Bool
shareable t = not (elem t sync_denylist)

all-shareable : all shareable sync_tables ≡ true
unfolding elem text_eq
all-shareable = refl

not-true : (b : Bool) → not b ≡ true → b ≡ false
not-true true h = cc
not-true false h = refl

-- No table of the allowlist is on the denylist.
listed-shareable : (table : Text) → in_sync_tables table ≡ true → elem table sync_denylist ≡ false
unfolding in_sync_tables
listed-shareable table h =
    not-true (elem table sync_denylist) (elem-all shareable table sync_tables all-shareable h)

module _ (db : Sqlite) where
  open db use {Conn}

  export_reply-changes :
      (r : Result (List SyncChange)) (cs : List SyncChange)
      → export_reply db r ≡ changes cs
      → r ≡ ok cs
  unfolding export_reply
  export_reply-changes (ok xs) cs h = cc
  export_reply-changes (err e) cs h = cc

  export_with-changes :
      (table : Text) (since : Option Text) (pool : Option Conn) (cs : List SyncChange)
      → export_with db table since pool ≡ changes cs
      → (conn : Conn) × (pool ≡ some conn) × (export_changes_since db conn table since ≡ ok cs)
  unfolding export_with
  export_with-changes table since none cs h = cc
  export_with-changes table since (some conn) cs h =
      (conn, refl, export_reply-changes (export_changes_since db conn table since) cs h)

  -- An export that answers with changes is of a table that is on the allowlist and not on the
  -- denylist, and the changes are those that export_changes_since reads from the connection.
  pub handle_export_lem :
      (pool : Option Conn) (table : Text) (since : Option Text) (cs : List SyncChange)
      → handle_export db pool table since ≡ changes cs
      → (in_sync_tables table ≡ true)
        × (elem table sync_denylist ≡ false)
        × ((conn : Conn) × (pool ≡ some conn) × (export_changes_since db conn table since ≡ ok cs))
  unfolding handle_export in_sync_tables
  handle_export_lem pool table since cs h = elim (Bool-cases (in_sync_tables table)) [
    | inl listed ↦ (
      listed,
      listed-shareable table listed,
      export_with-changes table since pool cs (rw (listed, handle_export) at h),
    )
    | inr other ↦ cc (rw (other, handle_export) at h)
  ]

  import_outcome-database :
      (P : Conn → Type 0) (cs : List SyncChange) (s : Conn × Result ApplyReport)
      → P s.0
      → (conn : Conn) → (import_outcome db cs (count_applied db s)).database ≡ some conn
      → P conn
  unfolding import_outcome count_applied
  import_outcome-database P cs (c, ok r) p conn e = let same : c ≡ conn = cc in subst P same p
  import_outcome-database P cs (c, err x) p conn e = let same : c ≡ conn = cc in subst P same p

  import_changes-database :
      {P : Conn → Type 0} (k : IsKept db P) (pool : Option Conn)
      (payload : Option (List SyncChange))
      → ((conn : Conn) → pool ≡ some conn → P conn)
      → (conn : Conn) → (import_changes db pool payload).database ≡ some conn
      → P conn
  unfolding import_changes apply_changes
  import_changes-database k pool none h conn e = h conn e
  import_changes-database k none (some cs) h conn e = cc
  import_changes-database {P = P} k (some c) (some cs) h conn e =
      import_outcome-database P cs (apply_changes_detailed db c cs)
        (apply_frame db k c cs (h c refl)) conn e

  import_authorized-database :
      {P : Conn → Type 0} (k : IsKept db P) (pool : Option Conn)
      (payload : Option (List SyncChange)) (o : Option Refusal)
      → ((conn : Conn) → pool ≡ some conn → P conn)
      → (conn : Conn) → (import_authorized db pool payload o).database ≡ some conn
      → P conn
  unfolding import_authorized
  import_authorized-database k pool payload none h conn e =
      import_changes-database k pool payload h conn e
  import_authorized-database k pool payload (some r) h conn e = h conn e

  import_authorized-any :
      (pool : Option Conn) (payload other : Option (List SyncChange)) (o : Option Refusal)
      → ((r : Refusal) → (import_authorized db pool payload o).reply ≢ unauthorized r)
      → import_authorized db pool other o ≡ import_changes db pool other
  unfolding import_authorized
  import_authorized-any pool payload other none h = refl
  import_authorized-any pool payload other (some r) h = absurd (h r refl)

  module _ (mac : Mac) (hex : Hex) (from_slice : Bytes → Option (List SyncChange)) where
    -- A request that the check of its signature refuses leaves the database and wakes nobody, and is
    -- answered with the refusal, whatever its body is.
    pub import_refused :
        (now : ℤ) (secret : Option Bytes) (pool : Option Conn) (headers : Headers) (body : Bytes)
        (r : Refusal)
        → authorize mac hex now (codes "/api/sync/import") secret headers ≡ some r
        → handle_import db mac hex from_slice now secret pool headers body
          ≡ refuse db pool (unauthorized r)
    unfolding handle_import import_authorized
    import_refused now secret pool headers body r h = rw h refl

    -- Every request, of any sender and with any body, keeps every property of the database that
    -- survives the two PRAGMAs and the writes that name an allowlisted table and safe columns of it.
    pub import_frame :
        {P : Conn → Type 0} (k : IsKept db P) (now : ℤ) (secret : Option Bytes) (pool : Option Conn)
        (headers : Headers) (body : Bytes)
        → ((conn : Conn) → pool ≡ some conn → P conn)
        → (conn : Conn)
        → (handle_import db mac hex from_slice now secret pool headers body).database ≡ some conn
        → P conn
    unfolding handle_import import_authorized
    import_frame k now secret pool headers body h conn e =
        import_authorized-database k pool (from_slice body)
          (authorize mac hex now (codes "/api/sync/import") secret headers) h conn e

    -- The signature does not cover the body: where a request passes, the same headers with any other
    -- body pass at that time as well, and that body's changes are the ones that are imported.
    pub body_not_covered :
        (now : ℤ) (secret : Option Bytes) (pool : Option Conn) (headers : Headers)
        (body other : Bytes)
        → ((r : Refusal)
            → (handle_import db mac hex from_slice now secret pool headers body).reply
              ≢ unauthorized r)
        → handle_import db mac hex from_slice now secret pool headers other
          ≡ import_changes db pool (from_slice other)
    unfolding handle_import import_authorized
    body_not_covered now secret pool headers body other h =
        import_authorized-any pool (from_slice body) (from_slice other)
          (authorize mac hex now (codes "/api/sync/import") secret headers) h
