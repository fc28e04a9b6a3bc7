-- ===== src/Peers/Config.antt =====
-- crates/convergio-mesh/src/peers_types.rs: the data of peers.conf.
use convergio_mesh.Prelude.{ℕ, List, Option}
use convergio_mesh.Prelude.Text.{Text}
use convergio_mesh.Prelude.Map.{Map}

-- The error `Io` is the caller's: no function of the model reads a file.
pub data PeersError : Type 0 where
  missing_field : Text → Text → PeersError
  not_found : Text → PeersError
  parse : ℕ → Text → PeersError

-- What a call comes to: a value, an error, or a panic.
pub data Outcome {ℓ} (A : Type ℓ) : Type ℓ where
  ok : A → Outcome A
  err : PeersError → Outcome A
  panics : Outcome A

abbrev pub and_then {ℓ κ} : {A : Type ℓ} {B : Type κ} → Outcome A → (A → Outcome B) → Outcome B
and_then (ok a) f = f a
and_then (err e) f = err e
and_then panics f = panics

pub record PeerConfig : Type 0 where
  pub ssh_alias : Text
  pub user : Text
  pub os : Text
  pub tailscale_ip : Text
  pub dns_name : Text
  pub capabilities : List Text
  pub role : Text
  pub status : Text
  pub thunderbolt_ip : Option Text
  pub lan_ip : Option Text
  pub mac_address : Option Text
  pub gh_account : Option Text
  pub runners : Option ℕ
  pub runner_paths : Option Text
  pub repo_path : Option Text
  pub aliases : List Text

pub record PeersRegistry : Type 0 where
  pub shared_secret : Text
  pub peers : Map PeerConfig
