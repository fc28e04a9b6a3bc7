-- ===== src/Peers/RoundTrip/Fields.antt =====
-- What the parser collects of a section: the last entry of each key.
use convergio_mesh.Prelude.{◌≡◌, refl, ap, ◌∙◌, List, [], ◌∷◌, ◌++◌, Option, some, if◌then◌else◌}
use convergio_mesh.Prelude.Text.{Text, text_eq}
use convergio_mesh.Prelude.Map.{Map, lookup, insert}
use convergio_mesh.Prelude.Map.Laws.{lookup-insert}

-- The entries are inserted one after the other.
unfoldable pub insert_all : List (Text × Text) → Map Text → Map Text
insert_all [] m = m
insert_all ((key, value) ∷ rest) m = insert_all rest (insert key value m)

unfoldable pub last_of : Text → List (Text × Text) → Option Text → Option Text
last_of k [] o = o
last_of k ((key, value) ∷ rest) o = last_of k rest (if text_eq key k then some value else o)

pub lookup-insert_all :
    (k : Text) (xs : List (Text × Text)) (m : Map Text)
    → lookup k (insert_all xs m) ≡ last_of k xs (lookup k m)
unfolding insert_all last_of
lookup-insert_all k [] m = refl
lookup-insert_all k ((key, value) ∷ rest) m =
    lookup-insert_all k rest (insert key value m)
    ∙ ap (last_of k rest) (lookup-insert key k value m)

pub last_of-append :
    (k : Text) (xs ys : List (Text × Text)) (o : Option Text)
    → last_of k (xs ++ ys) o ≡ last_of k ys (last_of k xs o)
unfolding last_of
last_of-append k [] ys o = refl
last_of-append k ((key, value) ∷ xs) ys o = last_of-append k xs ys _
