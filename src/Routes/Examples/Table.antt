-- ===== src/Routes/Examples/Table.antt =====
-- The table of routes: the tools reach their handlers, and no two routes clash.
use convergio_mesh.Prelude.{
  map, ◌≡◌, refl, Bool, true, false, ◌&&◌, List, [], ◌∷◌, Option, none, some,
}
use convergio_mesh.Prelude.Text.{Text, codes, text_eq}
use convergio_mesh.Routes.Roles.{valid_roles, handle_available_roles}
use convergio_mesh.Routes.Table.{Method, Handler, Route, routes, registered_at, method_of}

abbrev handler_at : Text → Option Method → Option Handler
handler_at p none = none
handler_at p (some m) = registered_at m p routes

-- The handlers that the tools reach, in order.
status_tool : handler_at (codes "/api/mesh") (method_of (codes "GET")) ≡ some Handler.handle_status
unfolding registered_at method_of text_eq
status_tool = refl

readiness_tool :
    handler_at (codes "/api/node/readiness") (method_of (codes "GET"))
    ≡ some Handler.handle_node_readiness
unfolding registered_at method_of text_eq
readiness_tool = refl

abbrev is_free : List Route → Route → Bool
is_free rs r = elim (registered_at r.method r.path rs) [ none ↦ true | some h ↦ false ]

abbrev disjoint : List Route → Bool
disjoint [] = true
disjoint (r ∷ rs) = is_free rs r && disjoint rs

-- The router panics on two handlers for one method of one path; there are none.
routes-disjoint : disjoint routes ≡ true
unfolding registered_at text_eq
routes-disjoint = refl

available-valid : map (λ (e : Text × Text). e.0) handle_available_roles ≡ valid_roles
available-valid = refl
