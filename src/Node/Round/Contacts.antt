-- ===== src/Node/Round/Contacts.antt =====
-- Whom a round of the loop talks to.
use convergio_mesh.Prelude.{◌≡◌, ◌⊎◌, true, false, List, [], ◌∷◌, ◌++◌, Option, some, All}
use convergio_mesh.Prelude.Text.{Text, codes, text_eq}
use convergio_mesh.Prelude.Map.{Map}
use convergio_mesh.Peers.Config.{Outcome, ok, PeerConfig, PeersRegistry}
use convergio_mesh.Sync.Sqlite.{Sqlite}
use convergio_mesh.Transport.Reach.{resolve_best_addr}
use convergio_mesh.Node.Round.{Env, Node, is_self, peer_to_fields, with_addr}

abbrev pub Entry : Type 0
Entry = Text × PeerConfig

abbrev pub In : Entry → List Entry → Type 0
In e [] = ⊥
In e (x ∷ xs) = (x ≡ e) ⊎ In e xs

module _ (db : Sqlite) (env : Env db) (local_ts : Option Text) where
  -- The address is the best one of a peer that is registered, active and not the node itself.
  pub record IsContact (peers : Map PeerConfig) (addr : Text) : Type 0 where
    pub name : Text
    pub peer : PeerConfig
    pub registered : In (name, peer) peers
    pub active : text_eq peer.status (codes "active") ≡ true
    pub foreign : is_self local_ts peer ≡ false
    pub resolved :
        resolve_best_addr env.is_socket_addr env.connects (peer_to_fields peer) ≡ some addr

  -- What the round of some peers adds.
  pub record Contacts (peers : Map PeerConfig) (node node' : Node db) : Type 0 where
    pub sent : List Text
    pub noted : node'.heartbeats ≡ node.heartbeats ++ sent
    pub known : All (IsContact peers) sent
    pub idle : sent ≡ [] → node' ≡ node

  abbrev IsActive : Map PeerConfig → Entry → Type 0
  IsActive peers e = In e peers × (text_eq (e.1).status (codes "active") ≡ true)

  abbrev step : Option Text → Node db → Node db
  step o node = with_addr db env o node

  abbrev peers_of : Outcome PeersRegistry → Map PeerConfig
  peers_of (ok registry) = registry.peers
  peers_of _ = []
