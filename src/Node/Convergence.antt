-- ===== src/Node/Convergence.antt =====
-- crates/convergio-mesh/src/convergence.rs: the checksum of a node's tables and the comparison with
-- the checksums of its peers. SHA-256, the dates of SQLite and its errors are parameters.
pub mod Agreement
use convergio_mesh.Prelude.{
  ℕ, ◌+◌, ◌-◌, ◌/◌, ◌%◌, Bool, true, false, List, [], ◌∷◌, ◌++◌, Option, none, some, ◌&&◌, not, ltb,
  or_else, if◌then◌else◌,
}
use convergio_mesh.Prelude.Int.{ℤ}
use convergio_mesh.Prelude.Text.{Text, codes, text_eq}
use convergio_mesh.Prelude.Text.Decimal.{to_decimal}
use convergio_mesh.Prelude.Text.Utf8.{as_bytes}
use convergio_mesh.Prelude.Map.{Map, lookup, insert}
use convergio_mesh.Auth.Hmac.{Bytes}

-- The column `status` of a table; it may be NULL.
abbrev pub Statuses : Type 0
Statuses = List (Option Text)

-- GROUP BY status ORDER BY status: the group of NULL comes first.
unfoldable pub count_nulls : Statuses → ℕ
count_nulls [] = 0
count_nulls (none ∷ rest) = count_nulls rest + 1
count_nulls (some status ∷ rest) = count_nulls rest

unfoldable pub bump : Text → Map ℕ → Map ℕ
bump status counts = insert status (or_else (lookup status counts) 0 + 1) counts

unfoldable pub group_by : Statuses → Map ℕ
unfolding bump
group_by [] = []
group_by (none ∷ rest) = group_by rest
group_by (some status ∷ rest) = bump status (group_by rest)

-- `format!("{}={};", row.0, row.1)`; an i64 has at most 19 digits, and NULL is read as "".
unfoldable pub group_text : Text → ℕ → Text
unfolding to_decimal
group_text status count = status ++ (codes "=" ++ (to_decimal 19 count ++ codes ";"))

unfoldable pub null_text : ℕ → Text
unfolding group_text
null_text count = if ltb 0 count then group_text [] count else []

unfoldable pub groups_text : Map ℕ → Text
unfolding group_text
groups_text [] = []
groups_text ((status, count) ∷ rest) = group_text status count ++ groups_text rest

-- A table is what its SELECT gives, or `none` if that fails, for one because there is no table.
unfoldable pub table_text : Text × Option Statuses → Text
unfolding null_text groups_text count_nulls group_by
table_text (name, none) = name ++ codes ":|"
table_text (name, some statuses) =
    name
    ++ (codes ":"
        ++ (null_text (count_nulls statuses) ++ (groups_text (group_by statuses) ++ codes "|")))

-- The three tables that are read.
pub record Tables : Type 0 where
  pub plans : Option Statuses
  pub tasks : Option Statuses
  pub waves : Option Statuses

unfoldable pub checksum_input : Tables → Text
unfolding table_text
checksum_input t =
    table_text (codes "plans", t.plans)
    ++ (table_text (codes "tasks", t.tasks) ++ table_text (codes "waves", t.waves))

-- `{b:02x}`
unfoldable pub hex_digit : ℕ → ℕ
hex_digit d = if ltb d 10 then b'0' + d else b'a' + (d - 10)

unfoldable pub hex_text : Bytes → Text
unfolding hex_digit
hex_text [] = []
hex_text (b ∷ bs) = hex_digit (b / 16) ∷ hex_digit (b % 16) ∷ hex_text bs

unfoldable pub compute_local_checksum : (Bytes → Bytes) → Tables → Text
unfolding checksum_input hex_text as_bytes
compute_local_checksum sha256 t = hex_text (sha256 (as_bytes (checksum_input t)))

-- A row of mesh_peer_state, by its peer_id.
pub record PeerState : Type 0 where
  pub state_version : ℕ
  pub state_checksum : Text
  pub last_seen : Text

pub record Divergence : Type 0 where
  pub peer_id : Text
  pub age_secs : ℤ
  pub theirs : Text
  pub ours : Text

-- What is logged.
pub data Warning : Type 0 where
  upsert_failed prepare_failed : Warning
  diverged : Divergence → Warning

-- What SQLite computes of the column last_seen at the time of the query: whether the age in seconds is
-- more than DRIFT_THRESHOLD_SECS, and the age cut to an integer.
pub record Ages : Type 0 where
  pub is_over : Text → Bool
  pub age_secs : Text → ℤ

unfoldable pub next_version : Option PeerState → ℕ
next_version none = 1
next_version (some row) = row.state_version + 1

-- INSERT ... ON CONFLICT(peer_id) DO UPDATE SET: a new row has version 1.
unfoldable pub upsert_state : Text → Text → Text → Map PeerState → Map PeerState
unfolding next_version
upsert_state now hostname checksum table =
    insert hostname
      (record {
        state_version = next_version (lookup hostname table);
        state_checksum = checksum;
        last_seen = now;
      })
      table

unfoldable pub is_diverged : Ages → Text → Text → Text × PeerState → Bool
unfolding text_eq
is_diverged ages hostname checksum (peer_id, row) =
    not (text_eq peer_id hostname)
    && (not (text_eq row.state_checksum checksum) && ages.is_over row.last_seen)

unfoldable pub warnings : Ages → Text → Text → Map PeerState → List Warning
warnings ages hostname checksum [] = []
warnings ages hostname checksum ((peer_id, row) ∷ rest) =
    let later = warnings ages hostname checksum rest in
    if is_diverged ages hostname checksum (peer_id, row)
    then diverged (record {
      peer_id = peer_id;
      age_secs = ages.age_secs row.last_seen;
      theirs = row.state_checksum;
      ours = checksum;
    })
      ∷ later
    else later

-- The flags say whether the upsert fails, the query cannot be prepared, and it cannot be run.
unfoldable pub report : Ages → Text → Text → Bool → Bool → Map PeerState → List Warning
unfolding warnings
report ages hostname checksum true unread table = prepare_failed ∷ []
report ages hostname checksum false true table = []
report ages hostname checksum false false table = warnings ages hostname checksum table

unfoldable pub check_convergence :
    (Bytes → Bytes)
    → Ages
    → Text
    → Text
    → Bool
    → Bool
    → Bool
    → Tables
    → Map PeerState
    → Map PeerState × List Warning
unfolding upsert_state report
check_convergence sha256 ages hostname now upsert_fails unprepared unread t table =
    let local_checksum = compute_local_checksum sha256 t in
    let table' = upsert_state now hostname local_checksum table in
    if upsert_fails
    then (table, upsert_failed ∷ [])
    else (table', report ages hostname local_checksum unprepared unread table')
