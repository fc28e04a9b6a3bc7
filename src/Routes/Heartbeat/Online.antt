-- ===== src/Routes/Heartbeat/Online.antt =====
-- What a heartbeat does to the view of the mesh.
use convergio_mesh.Prelude.{
  ℕ, ◌+◌, ◌≡◌, ◌≢◌, ◌<◌, ◌↔◌, refl, Bool, true, false, [], ◌∷◌, Option, none, some, arith,
  if◌then◌else◌,
}
use convergio_mesh.Prelude.Int.{ℤ, pos, ◌-ℤ◌, ◌+ℤ◌}
use convergio_mesh.Prelude.Text.{Text, codes, text_ltb}
use convergio_mesh.Prelude.Text.Order.{text_eq_iff, text_eq_refl, text_ltb_trans, text_ltb_irrefl}
use convergio_mesh.Prelude.Map.{Map, Above, lookup, insert}
use convergio_mesh.Prelude.Map.Laws.{lookup-insert, IsSorted, insert-IsSorted}
use convergio_mesh.Auth.Hmac.{Bytes, Mac}
use convergio_mesh.Auth.Signed.{Hex, Headers, Refusal, authorize}
use convergio_mesh.Routes.Heartbeat.{
  HeartbeatRequest, Heartbeat, upsert_heartbeat, is_online, count_online, peers_online, stored,
  store_heartbeat, heartbeat_authorized, handle_heartbeat,
}

-- A row is online for times after 1970 exactly if it was seen less than 600 seconds ago (or later
-- than now).
pub is_online_iff :
    (now : ℕ) (row : Heartbeat) (t : ℕ)
    → row.last_seen ≡ pos t
    → (is_online (pos now) row ≡ true) ↔ (now < t + 600)
unfolding is_online ◌-ℤ◌ ◌+ℤ◌
is_online_iff now row t h = rw h (ground arith)

lookup-below :
    (k j : Text) (m : Map Heartbeat) → text_ltb k j ≡ true → Above j m → lookup k m ≡ none
unfolding lookup
lookup-below k j [] h a = refl
lookup-below k j ((i, w) ∷ m) h a =
    ground (arith, text_eq_iff i k, text_ltb_trans k j i, text_ltb_irrefl k, lookup-below k j m h)

-- Whether there is a row and it is online, as a number.
abbrev one_if_online : ℤ → Option Heartbeat → ℕ
one_if_online now none = 0
one_if_online now (some row) = if is_online now row then 1 else 0

count_online-insert :
    (now : ℤ) (k : Text) (v : Heartbeat) (m : Map Heartbeat)
    → IsSorted m
    → count_online now (insert k v m) + one_if_online now (lookup k m)
      ≡ count_online now m + one_if_online now (some v)
unfolding count_online insert lookup
count_online-insert now k v [] s = ground arith
count_online-insert now k v ((j, w) ∷ m) s =
    ground (arith, text_eq_iff j k, lookup-below k j m, count_online-insert now k v m s.1)

abbrev pub row_of : ℤ → HeartbeatRequest → Heartbeat
row_of now r = record {
  last_seen = now;
  version = r.version;
  capabilities = r.capabilities;
  role = r.role;
}

-- What a heartbeat makes of a table: the peer's row is the one of the request, every other row is
-- what it was, the names stay sorted, and the count of handle_status rises by one if the peer was
-- not online and stays the same if it was.
pub record Refreshed (now : ℤ) (r : HeartbeatRequest) (table table' : Map Heartbeat) : Type 0 where
  pub seen : lookup r.peer table' ≡ some (row_of now r)
  pub others : (name : Text) → r.peer ≢ name → lookup name table' ≡ lookup name table
  pub sorted : IsSorted table'
  pub counted :
      peers_online now table' + one_if_online now (lookup r.peer table) ≡ peers_online now table + 1

upsert-Refreshed :
    (now : ℕ) (r : HeartbeatRequest) (table : Map Heartbeat)
    → IsSorted table
    → Refreshed (pos now) r table (upsert_heartbeat (pos now) r table)
unfolding upsert_heartbeat peers_online
upsert-Refreshed now r table s = record {
  seen = rw (lookup-insert r.peer r.peer (row_of (pos now) r) table, text_eq_refl r.peer) refl;
  others = λ name h.
      ground (arith, lookup-insert r.peer name (row_of (pos now) r) table, text_eq_iff r.peer name);
  sorted = insert-IsSorted r.peer (row_of (pos now) r) table s;
  counted = ground (
    arith,
    count_online-insert (pos now) r.peer (row_of (pos now) r) table s,
    is_online_iff now (row_of (pos now) r) now refl,
  );
}

heartbeat_authorized-stored :
    (now : ℕ) (fails : Bool) (table : Map Heartbeat) (table' : Option (Map Heartbeat))
    (body : Option HeartbeatRequest) (o : Option Refusal)
    → IsSorted table
    → heartbeat_authorized (pos now) fails (some table) body o ≡ (table', stored)
    → (r : HeartbeatRequest) × (t : Map Heartbeat) × (body ≡ some r)
      × (o ≡ none)
      × (table' ≡ some t)
      × Refreshed (pos now) r table t
unfolding heartbeat_authorized store_heartbeat
heartbeat_authorized-stored now fails table table' body (some r) s h = cc
heartbeat_authorized-stored now fails table table' none none s h = cc
heartbeat_authorized-stored now true table table' (some r) none s h = cc
heartbeat_authorized-stored now false table table' (some r) none s h =
    (r, upsert_heartbeat (pos now) r table, refl, refl, cc, upsert-Refreshed now r table s)

module _ (mac : Mac) (hex : Hex) (from_slice : Bytes → Option HeartbeatRequest) where
  -- A heartbeat that is answered with success, over a table sorted by name, passed the check of its
  -- signature and parsed, and the table is refreshed with it: the sender's row is the request's with
  -- the present time, the other rows are untouched, the names stay sorted, and the number of peers
  -- online goes up by one exactly if the sender was not online before.
  pub heartbeat_stored :
      (now : ℕ) (fails : Bool) (secret : Option Bytes) (table : Map Heartbeat) (headers : Headers)
      (raw_body : Bytes) (table' : Option (Map Heartbeat))
      → IsSorted table
      → handle_heartbeat mac hex from_slice (pos now) fails secret (some table) headers raw_body
        ≡ (table', stored)
      → (r : HeartbeatRequest) × (t : Map Heartbeat) × (from_slice raw_body ≡ some r)
        × (authorize mac hex (pos now) (codes "/api/heartbeat") secret headers ≡ none)
        × (table' ≡ some t)
        × Refreshed (pos now) r table t
  unfolding handle_heartbeat
  heartbeat_stored now fails secret table headers raw_body table' s h =
      heartbeat_authorized-stored now fails table table' (from_slice raw_body)
        (authorize mac hex (pos now) (codes "/api/heartbeat") secret headers) s h

heartbeat_authorized-kept :
    (now : ℤ) (fails : Bool) (pool : Option (Map Heartbeat)) (body : Option HeartbeatRequest)
    (o : Option Refusal)
    → (heartbeat_authorized now fails pool body o).1 ≢ stored
    → (heartbeat_authorized now fails pool body o).0 ≡ pool
unfolding heartbeat_authorized store_heartbeat
heartbeat_authorized-kept now fails pool body (some r) h = refl
heartbeat_authorized-kept now fails pool none none h = refl
heartbeat_authorized-kept now fails none (some r) none h = refl
heartbeat_authorized-kept now true (some t) (some r) none h = refl
heartbeat_authorized-kept now false (some t) (some r) none h = absurd (h refl)

module _ (mac : Mac) (hex : Hex) (from_slice : Bytes → Option HeartbeatRequest) where
  -- A heartbeat that is not answered with success leaves the table as it was.
  pub heartbeat_kept :
      (now : ℤ) (fails : Bool) (secret : Option Bytes) (pool : Option (Map Heartbeat))
      (headers : Headers) (raw_body : Bytes)
      → (handle_heartbeat mac hex from_slice now fails secret pool headers raw_body).1 ≢ stored
      → (handle_heartbeat mac hex from_slice now fails secret pool headers raw_body).0 ≡ pool
  unfolding handle_heartbeat
  heartbeat_kept now fails secret pool headers raw_body h =
      heartbeat_authorized-kept now fails pool (from_slice raw_body)
        (authorize mac hex now (codes "/api/heartbeat") secret headers) h
