-- ===== src/Transport/Local.antt =====
-- crates/convergio-mesh/src/transport.rs: detect_local_tailscale_ip. The environment and what the
-- programs print are parameters.
use convergio_mesh.Prelude.{Bool, List, [], ◌∷◌, Option, none, some, ◌>>=◌, if◌then◌else◌}
use convergio_mesh.Prelude.Text.{Text, codes}
use convergio_mesh.Prelude.Text.Trim.{trim}

-- What a program that could be started leaves; the text is none if it is not UTF-8.
pub record Output : Type 0 where
  pub success : Bool
  pub stdout : Option Text

unfoldable pub non_empty : Text → Option Text
non_empty [] = none
non_empty (c ∷ cs) = some (c ∷ cs)

unfoldable pub trimmed_ip : Text → Option Text
unfolding non_empty trim
trimmed_ip t = non_empty (trim t)

unfoldable pub ip_of : Option Output → Option Text
unfolding trimmed_ip
ip_of none = none
ip_of (some o) = if o.success then o.stdout >>= trimmed_ip else none

unfoldable pub or_try : Option Text → Option Text → Option Text
or_try (some ip) later = some ip
or_try none later = later

unfoldable pub try_commands : (Text → Option Output) → List Text → Option Text
unfolding ip_of or_try
try_commands run [] = none
try_commands run (cmd ∷ cmds) = or_try (ip_of (run cmd)) (try_commands run cmds)

abbrev pub commands : List Text
commands = codes "tailscale" ∷ codes "/Applications/Tailscale.app/Contents/MacOS/Tailscale" ∷ []

-- The variable first, if it is set and not blank.
unfoldable pub detect_local_tailscale_ip : Option Text → (Text → Option Output) → Option Text
unfolding trimmed_ip try_commands or_try
detect_local_tailscale_ip override run =
    or_try (override >>= trimmed_ip) (try_commands run commands)
