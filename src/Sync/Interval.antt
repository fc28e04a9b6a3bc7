-- ===== src/Sync/Interval.antt =====
-- crates/convergio-mesh/src/sync.rs: resolve_interval_secs. The environment is a parameter.
use convergio_mesh.Prelude.{ℕ, ◌^◌, ◌-◌, Option, none, some, or_else, ◌>>=◌}
use convergio_mesh.Prelude.Text.{Text}
use convergio_mesh.Prelude.Text.Number.{parse_unsigned}

abbrev pub default_interval_secs : ℕ
default_interval_secs = 30

unfoldable pub resolve_interval_secs : Option ℕ → Option Text → ℕ
unfolding parse_unsigned
resolve_interval_secs (some v) var = v
resolve_interval_secs none var = or_else (var >>= parse_unsigned (2 ^ 64 - 1)) default_interval_secs
