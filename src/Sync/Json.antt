-- ===== src/Sync/Json.antt =====
-- The JSON values (serde_json::Value) that rows travel in. An object lists its members in the order
-- in which its map iterates. A number is an integer or a float, given by the bits of its f64.
use convergio_mesh.Prelude.{ℕ, ◌^◌, Bool, List, [], ◌∷◌, Option, none, some, ltb, if◌then◌else◌}
use convergio_mesh.Prelude.Text.{Text, text_eq, text_ltb}
use convergio_mesh.Prelude.Int.{ℤ, pos, negsuc}

pub data Number : Type 0 where
  int : ℤ → Number
  float : ℕ → Number

mutual
  pub data Json : Type 0 where
    null : Json
    bool : Bool → Json
    number : Number → Json
    string : Text → Json
    array : Items → Json
    object : Fields → Json

  pub data Items : Type 0 where
    nil : Items
    cons : Json → Items → Items

  pub data Fields : Type 0 where
    end : Fields
    field : Text → Json → Fields → Fields

-- `Value::as_object`, `as_str`, and `Number::as_i64`.
abbrev pub as_object : Json → Option Fields
as_object (object o) = some o
as_object _ = none

abbrev pub as_str : Json → Option Text
as_str (string s) = some s
as_str _ = none

abbrev pub as_i64 : Number → Option ℤ
as_i64 (int (pos n)) = if ltb n (2 ^ 63) then some (pos n) else none
as_i64 (int (negsuc n)) = if ltb n (2 ^ 63) then some (negsuc n) else none
as_i64 (float _) = none

-- `Map::get`, `Map::keys` and `Map::insert` (the map is a BTreeMap).
unfoldable pub get : Text → Fields → Option Json
unfolding text_eq
get k end = none
get k (field j v o) = if text_eq j k then some v else get k o

unfoldable pub keys : Fields → List Text
keys end = []
keys (field j v o) = j ∷ keys o

unfoldable pub put : Text → Json → Fields → Fields
unfolding text_eq text_ltb
put k v end = field k v end
put k v (field j w o) =
    let rest = put k v o in
    if text_eq j k
    then field k v o
    else if text_ltb k j
    then field k v (field j w o)
    else field j w rest
