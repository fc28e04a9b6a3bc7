-- ===== src/Transport/Addr.antt =====
-- crates/convergio-mesh/src/transport.rs: which peer addresses a URL is built from.
pub mod Safe
use convergio_mesh.Prelude.{
  ℕ, Bool, true, false, ◌||◌, List, [], ◌∷◌, Option, none, some, ◌==◌, if◌then◌else◌,
}
use convergio_mesh.Prelude.Text.{Text, has}
use convergio_mesh.Prelude.Text.Number.{parse_unsigned}

unfoldable pub rsplit_step : ℕ → ℕ → Text → Option (Text × Text) → Option (Text × Text)
rsplit_step c x xs (some (before, behind)) = some (x ∷ before, behind)
rsplit_step c x xs none = if x == c then some ([], xs) else none

-- `rsplitn(2, c)`: what stands before and behind the last `c`.
unfoldable pub rsplit : ℕ → Text → Option (Text × Text)
unfolding rsplit_step
rsplit c [] = none
rsplit c (x ∷ xs) = rsplit_step c x xs (rsplit c xs)

pub data AddrError : Type 0 where
  missing_port invalid_port invalid_host : AddrError

unfoldable pub check_host : Text → Option AddrError
unfolding has
check_host host =
    if has b'/' host || has b'@' host || has b'?' host || has b'#' host
    then some invalid_host
    else none

unfoldable pub check_port : Text → Option ℕ → Option AddrError
unfolding check_host
check_port host none = some invalid_port
check_port host (some n) = check_host host

unfoldable pub check_parts : Option (Text × Text) → Option AddrError
unfolding check_port parse_unsigned
check_parts none = some missing_port
check_parts (some (host, port)) = check_port host (parse_unsigned 65535 port)

-- The error of an address that is refused; none for one that is used.
unfoldable pub validate_peer_addr : Text → Option AddrError
unfolding check_parts rsplit
validate_peer_addr addr = check_parts (rsplit b':' addr)
