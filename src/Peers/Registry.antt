-- ===== src/Peers/Registry.antt =====
-- crates/convergio-mesh/src/peers_registry.rs: the registry and its operations. An operation that
-- changes the registry returns the new one with its result; reading and writing the file is the
-- caller's.
pub mod Lookup
use mathlib.Core.Option
use convergio_mesh.Prelude.{
  Bool, true, false, List, [], ◌∷◌, ◌++◌, Option, none, some, find, keep, if◌then◌else◌,
}
use convergio_mesh.Prelude.Text.{Text, codes, text_eq, elem}
use convergio_mesh.Prelude.Map.{Map, lookup, insert, remove, modify}
use convergio_mesh.Peers.Config.{
  PeersError, not_found, Outcome, ok, err, panics, and_then, PeerConfig, PeersRegistry,
}
use convergio_mesh.Peers.Ini.{parse_ini}

abbrev pub registry_of : Text × Map PeerConfig → PeersRegistry
registry_of (secret, peers) = record { shared_secret = secret; peers = peers }

-- The text is what the file holds.
unfoldable pub load : Text → Outcome PeersRegistry
unfolding parse_ini
load text = and_then (parse_ini text) (λ q. ok (registry_of q))

unfoldable pub add_peer : Text → PeerConfig → PeersRegistry → PeersRegistry
add_peer name config r = record r { peers = insert name config r.peers }

unfoldable pub remove_peer : Text → PeersRegistry → PeersRegistry × Option PeerConfig
remove_peer name r = (record r { peers = remove name r.peers }, lookup name r.peers)

abbrev pub with_role : Text → PeerConfig → PeerConfig
with_role role p = record p { role = role }

unfoldable pub set_role :
    Text → Text → PeersRegistry → Option PeerConfig → PeersRegistry × Option PeersError
set_role name role r none = (r, some (not_found name))
set_role name role r (some p) = (record r { peers = modify name (with_role role) r.peers }, none)

unfoldable pub update_role : Text → Text → PeersRegistry → PeersRegistry × Option PeersError
unfolding set_role
update_role name role r = set_role name role r (lookup name r.peers)

unfoldable pub get_coordinator : PeersRegistry → Option (Text × PeerConfig)
unfolding text_eq
get_coordinator r = find (λ e. text_eq (e.1).role (codes "coordinator")) r.peers

unfoldable pub list_active : PeersRegistry → List (Text × PeerConfig)
unfolding text_eq
list_active r = keep (λ e. text_eq (e.1).status (codes "active")) r.peers

abbrev pub has_alias : Text → Text × PeerConfig → Bool
has_alias name e = elem name (e.1).aliases

-- The name itself first, and then the first peer with that alias.
unfoldable pub by_alias : Text → Map PeerConfig → Option PeerConfig → Option (Text × PeerConfig)
by_alias name peers (some cfg) = some (name, cfg)
by_alias name peers none = find (has_alias name) peers

unfoldable pub get_peer : Text → PeersRegistry → Option (Text × PeerConfig)
unfolding by_alias
get_peer name r = by_alias name r.peers (lookup name r.peers)
