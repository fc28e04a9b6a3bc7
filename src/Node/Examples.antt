-- ===== src/Node/Examples.antt =====
-- A round of the loop on a small registry.
use convergio_mesh.Prelude.{if◌then◌else◌, ◌≡◌, refl, Bool, true, false, [], ◌∷◌, ◌++◌, none, some}
use convergio_mesh.Prelude.Int.{pos, wrapping_abs}
use convergio_mesh.Prelude.Text.{Text, codes, text_eq}
use convergio_mesh.Prelude.Text.Number.{parse_i64}
use convergio_mesh.Prelude.Text.Utf8.{as_bytes}
use convergio_mesh.Prelude.Map.{Map, lookup}
use convergio_mesh.Auth.Hmac.{Bytes, compute_hmac}
use convergio_mesh.Auth.Signed.{is_expired, sign_with, received, authorize}
use convergio_mesh.Auth.Examples.{chain, plain, key}
use convergio_mesh.Peers.Config.{ok, panics}
use convergio_mesh.Peers.Registry.{registry_of}
use convergio_mesh.Peers.Examples.{parsed}
use convergio_mesh.Sync.Memory.{memory}
use convergio_mesh.Sync.Examples.{world, empty}
use convergio_mesh.Node.Round.{Env, Node, run_sync_round}
use convergio_mesh.Node.Healthy.{Rounds, start, round, rounds-ready}
use convergio_mesh.Routes.Status.{Readiness, handle_node_readiness}
use convergio_mesh.Prelude.Reorder.{swap, nil}
use convergio_mesh.Node.Convergence.{
  next_version, Tables, PeerState, Ages, compute_local_checksum, check_convergence,
}
use convergio_mesh.Node.Convergence.Agreement.{SameTables, is_warned, check_convergence-Agrees}
use convergio_mesh.Node.Round.Contacts.{Contacts}
use convergio_mesh.Node.Heartbeat.{heartbeat_headers}
use convergio_mesh.Node.Heartbeat.Accept.{heartbeat_accepted}

abbrev fields : Map Text
fields = (codes "lan_ip", codes "192.168.1.2") ∷ (codes "tailscale_ip", codes "100.0.0.5") ∷ []

-- Every text is an address, and only the one of Tailscale answers.
abbrev answers : Text → Bool
answers t = text_eq t (codes "100.0.0.5:8420")

abbrev env : Env memory
env = record {
  is_socket_addr = λ t. true;
  connects = answers;
  world = λ addr table. world;
  now = λ addr. codes "1700000000";
  latency_ms = λ addr. 5;
  stats_fail = λ addr. false;
}

abbrev node : Node memory
node = record { conn = empty; stats = []; heartbeats = [] }

abbrev digest : Bytes → Bytes
digest b = codes "h" ++ b

heartbeat_accepted_example :
    authorize chain plain
      (pos 1000)
      (codes "/api/heartbeat")
      (some (as_bytes key))
      (received (heartbeat_headers chain plain digest none key (codes "999") (1 ∷ [])))
    ≡ none
unfolding sign_with compute_hmac is_expired parse_i64 wrapping_abs
heartbeat_accepted_example =
    heartbeat_accepted chain plain digest (pos 1000) none key (codes "999")
      (codes "k999:POST:/api/heartbeat:h" ++ 1 ∷ []) (1 ∷ []) refl refl refl refl

abbrev after : Node memory
after = run_sync_round memory env (ok (registry_of parsed)) true none node

-- A round, and then one that finds no registry.
two_rounds : Rounds memory node (run_sync_round memory env panics true none after)
two_rounds = round (round start env (ok (registry_of parsed)) true none) env panics true none

rounds-ready_example :
    (r : Readiness) × (handle_node_readiness (pos 1000) true (
        some (record {
          heartbeats = none;
          stats = some (run_sync_round memory env panics true none after).stats;
        }))
      ≡ some r)
    × (r.sync_healthy ≡ true)
    × (r.ready ≡ true)
rounds-ready_example =
    rounds-ready memory two_rounds tt (pos 1000) true
      (record {
        heartbeats = none;
        stats = some (run_sync_round memory env panics true none after).stats;
      })
      refl

-- Tables with the same statuses in two orders, one of them missing.
abbrev mine : Tables
mine = record {
  plans = some (some (codes "done") ∷ none ∷ some (codes "open") ∷ []);
  tasks = none;
  waves = some [];
}

abbrev theirs : Tables
theirs = record {
  plans = some (none ∷ some (codes "done") ∷ some (codes "open") ∷ []);
  tasks = none;
  waves = some [];
}

same_tables : SameTables mine theirs
same_tables = record {
  plans = swap (some (codes "done")) none (some (codes "open") ∷ []);
  tasks = tt;
  waves = nil;
}

-- Every row is old, and a hash is the text itself.
abbrev ages : Ages
ages = record { is_over = λ t. true; age_secs = λ t. pos 400 }

abbrev sha : Bytes → Bytes
sha b = b

abbrev n2_state : PeerState
n2_state = record {
  state_version = 3;
  state_checksum = compute_local_checksum sha theirs;
  last_seen = codes "old";
}

abbrev states : Map PeerState
states = (codes "n2", n2_state) ∷ []

check_convergence-Agrees_example :
    (is_warned
        (codes "n2")
        (check_convergence sha ages (codes "n1") (codes "now") false false false mine states).1
      ≡ false)
    × ((j : Text)
        → lookup j
            (check_convergence sha ages (codes "n1") (codes "now") false false false mine states).0
          ≡ (if text_eq (codes "n1") j
              then some (record {
                state_version = 1;
                state_checksum = compute_local_checksum sha mine;
                last_seen = codes "now";
              })
              else lookup j states))
unfolding next_version text_eq lookup
check_convergence-Agrees_example =
    check_convergence-Agrees sha ages (codes "n1") (codes "now") false false false mine theirs
      states (codes "n2") n2_state (tt, tt) same_tables refl refl
