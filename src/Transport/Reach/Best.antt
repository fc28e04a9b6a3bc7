-- ===== src/Transport/Reach/Best.antt =====
-- The address that is chosen is the best of those that answer.
use convergio_mesh.Prelude.{◌≡◌, Bool, true, false, ◌&&◌, List, ◌∷◌, ◌++◌, Option, none, some, All}
use convergio_mesh.Prelude.Text.{Text}
use convergio_mesh.Prelude.Map.{Map}
use convergio_mesh.Transport.Reach.{with_port}

module _ (is_socket_addr connects : Text → Bool) where
  abbrev pub reachable : Text → Bool
  reachable ip = is_socket_addr (with_port ip) && connects (with_port ip)

  -- The list up to and with its first reachable address.
  pub record IsBest (ips : List Text) (addr : Text) : Type 0 where
    pub worse : List Text
    pub better : List Text
    pub ip : Text
    pub position : ips ≡ better ++ ip ∷ worse
    pub address : addr ≡ with_port ip
    pub answers : reachable ip ≡ true
    pub silent : All (λ t. reachable t ≡ false) better

  abbrev pub Chosen : List Text → Option Text → Type 0
  Chosen ips none = All (λ t. reachable t ≡ false) ips
  Chosen ips (some addr) = IsBest ips addr
