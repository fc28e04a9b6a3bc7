-- ===== src/Transport/Reach.antt =====
-- crates/convergio-mesh/src/transport.rs: resolve_best_addr. Whether a text is a socket address, and
-- whether a connection to it comes up, are parameters.
pub mod Best
use convergio_mesh.Prelude.{
  Bool, true, false, ◌&&◌, List, [], ◌∷◌, ◌++◌, Option, none, some, is_empty, cons_some,
  if◌then◌else◌,
}
use convergio_mesh.Prelude.Text.{Text, codes}
use convergio_mesh.Prelude.Map.{Map, lookup}

-- `filter(|s| !s.is_empty())`
unfoldable pub nonempty : Option Text → Option Text
nonempty none = none
nonempty (some ip) = if is_empty ip then none else some ip

-- The addresses of the transports, the best first.
unfoldable pub candidates : Map Text → List Text
unfolding nonempty lookup
candidates fields = cons_some (nonempty (lookup (codes "thunderbolt_ip") fields)) (
    cons_some (nonempty (lookup (codes "lan_ip") fields))
      (cons_some (nonempty (lookup (codes "tailscale_ip") fields)) []))

abbrev pub with_port : Text → Text
with_port ip = ip ++ codes ":8420"

module _ (is_socket_addr connects : Text → Bool) where
  unfoldable pub first_reachable : List Text → Option Text
  first_reachable [] = none
  first_reachable (ip ∷ rest) =
      let later = first_reachable rest in
      if is_socket_addr (with_port ip)
      then (if connects (with_port ip) then some (with_port ip) else later)
      else later

  unfoldable pub resolve_best_addr : Map Text → Option Text
  unfolding first_reachable candidates
  resolve_best_addr fields = first_reachable (candidates fields)
