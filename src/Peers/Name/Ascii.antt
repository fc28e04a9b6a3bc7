-- ===== src/Peers/Name/Ascii.antt =====
-- When a canonical name exists.
use mathlib.Core.Option
use convergio_mesh.Prelude.{◌≡◌, true, Option, all, ltb}
use convergio_mesh.Prelude.Text.{Text}

abbrev pub IsAscii : Text → Type 0
IsAscii t = all (λ c. ltb c 0x80) t ≡ true
