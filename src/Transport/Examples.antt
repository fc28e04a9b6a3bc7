-- ===== src/Transport/Examples.antt =====
-- Peer addresses at concrete inputs.
use convergio_mesh.Prelude.{◌≡◌, refl, true, false, none, some, if◌then◌else◌}
use convergio_mesh.Prelude.Text.{codes, text_eq}
use convergio_mesh.Prelude.Text.Trim.{is_whitespace}
use convergio_mesh.Transport.Local.{detect_local_tailscale_ip}
use convergio_mesh.Transport.Addr.{validate_peer_addr}

-- A host that is empty passes.
empty_host : validate_peer_addr (codes ":8420") ≡ none
unfolding validate_peer_addr
empty_host = refl

-- A blank variable and a program that fails are passed over.
second_program :
    detect_local_tailscale_ip (some (codes " ")) (λ cmd.
      if text_eq cmd (codes "tailscale")
      then some (record { success = false; stdout = some (codes "1.1.1.1") })
      else some (record { success = true; stdout = some (codes "100.0.0.5\n") }))
    ≡ some (codes "100.0.0.5")
unfolding detect_local_tailscale_ip text_eq is_whitespace
second_program = refl
