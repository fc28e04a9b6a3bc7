-- ===== src/Routes/Table.antt =====
-- The routes of routes.rs, capability_routes.rs, routes_role_config.rs and routes_cross_poll.rs, as
-- ext.rs merges them, and the tools of mcp_defs.rs, which name some of them. The router (axum) finds
-- the handler of a request by its method and path; a colon starts a parameter of a path.
use convergio_mesh.Prelude.{
  Bool, true, false, ◌&&◌, List, [], ◌∷◌, ◌++◌, Option, none, some, if◌then◌else◌,
}
use convergio_mesh.Prelude.Text.{Text, codes, text_eq}

pub data Method : Type 0 where
  get post delete : Method

pub data Handler : Type 0 where
  handle_status handle_peers handle_sync_repo handle_node_readiness handle_export handle_import
        handle_sync_status handle_heartbeat :
      Handler
  handle_query handle_register handle_get_peer handle_delete_peer handle_list_all : Handler
  handle_available_roles handle_get_role handle_set_role handle_topology : Handler
  handle_plans_summary : Handler

pub record Route : Type 0 where
  pub path : Text
  pub method : Method
  pub handler : Handler

abbrev route : Text → Method → Handler → Route
route path method handler = record { path = path; method = method; handler = handler }

abbrev pub mesh_routes : List Route
mesh_routes =
    route (codes "/api/mesh") get handle_status
    ∷ route (codes "/api/mesh/peers") get handle_peers
    ∷ route (codes "/api/mesh/sync-repo") post handle_sync_repo
    ∷ route (codes "/api/node/readiness") get handle_node_readiness
    ∷ route (codes "/api/sync/export") get handle_export
    ∷ route (codes "/api/sync/import") post handle_import
    ∷ route (codes "/api/sync/status") get handle_sync_status
    ∷ route (codes "/api/heartbeat") post handle_heartbeat
    ∷ []

abbrev pub capability_routes : List Route
capability_routes =
    route (codes "/api/mesh/capabilities/query") post handle_query
    ∷ route (codes "/api/mesh/capabilities/:peer_name") post handle_register
    ∷ route (codes "/api/mesh/capabilities/:peer_name") get handle_get_peer
    ∷ route (codes "/api/mesh/capabilities/:peer_name") delete handle_delete_peer
    ∷ route (codes "/api/mesh/capabilities") get handle_list_all
    ∷ []

abbrev pub role_config_routes : List Route
role_config_routes =
    route (codes "/api/mesh/config/roles") get handle_available_roles
    ∷ route (codes "/api/mesh/config/role") get handle_get_role
    ∷ route (codes "/api/mesh/config/role") post handle_set_role
    ∷ route (codes "/api/mesh/config/topology") get handle_topology
    ∷ []

abbrev pub cross_poll_routes : List Route
cross_poll_routes = route (codes "/api/mesh/plans/summary") get handle_plans_summary ∷ []

abbrev pub routes : List Route
routes = mesh_routes ++ (capability_routes ++ (role_config_routes ++ cross_poll_routes))

abbrev pub same_method : Method → Method → Bool
same_method get get = true
same_method post post = true
same_method delete delete = true
same_method _ _ = false

-- The route that is registered under a method and a path.
unfoldable pub registered_at : Method → Text → List Route → Option Handler
unfolding text_eq
registered_at m p [] = none
registered_at m p (r ∷ rs) =
    let rest = registered_at m p rs in
    if same_method r.method m && text_eq r.path p then some r.handler else rest

pub record McpToolDef : Type 0 where
  pub name : Text
  pub method : Text
  pub path : Text
  pub min_ring : Text

abbrev pub mesh_tools : List McpToolDef
mesh_tools =
    record {
      name = codes "cvg_mesh_status";
      method = codes "GET";
      path = codes "/api/mesh";
      min_ring = codes "community";
    }
    ∷ record {
      name = codes "cvg_node_readiness";
      method = codes "GET";
      path = codes "/api/node/readiness";
      min_ring = codes "community";
    }
    ∷ []

unfoldable pub method_of : Text → Option Method
unfolding text_eq
method_of name =
    if text_eq name (codes "GET")
    then some get
    else if text_eq name (codes "POST")
    then some post
    else if text_eq name (codes "DELETE")
    then some delete
    else none
