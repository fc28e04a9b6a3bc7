-- ===== src/Auth/Secret/Usable.antt =====
-- Every secret that is loaded can sign.
use convergio_mesh.Prelude.{
  ◌≡◌, Bool, true, false, List, [], ◌∷◌, Option, none, some, arith, is_empty, if◌then◌else◌,
}
use convergio_mesh.Prelude.Text.{Text, codes, eq_ignore_case, starts_with}
use convergio_mesh.Prelude.Text.Trim.{trim, trim_idem}
use convergio_mesh.Prelude.Text.Lines.{lines, split_once}
use convergio_mesh.Auth.Secret.{secret_of, scan_secret, load_shared_secret}

abbrev pub IsUsable : Text → Type 0
IsUsable s = (is_empty s ≡ false) × (trim s ≡ s)

secret_of-IsUsable : (o : Option (Text × Text)) (s : Text) → secret_of o ≡ some s → IsUsable s
unfolding secret_of
secret_of-IsUsable none s h = cc
secret_of-IsUsable (some (key, value)) s h = ground (arith, trim_idem value)

scan_line-IsUsable :
    (a b in_mesh : Bool) (o same inside outside : Option Text) (s : Text)
    → (inside ≡ some s → IsUsable s)
    → (outside ≡ some s → IsUsable s)
    → (same ≡ some s → IsUsable s)
    → (o ≡ some s → IsUsable s)
    → (if a
        then inside
        else if b
        then outside
        else if in_mesh
        then (elim o [ none ↦ same | some secret ↦ some secret ])
        else same)
      ≡ some s
    → IsUsable s
scan_line-IsUsable true b m o same inside outside s hi ho hs hv h = hi h
scan_line-IsUsable false true m o same inside outside s hi ho hs hv h = ho h
scan_line-IsUsable false false true none same inside outside s hi ho hs hv h = hs h
scan_line-IsUsable false false true (some v) same inside outside s hi ho hs hv h = hv h
scan_line-IsUsable false false false o same inside outside s hi ho hs hv h = hs h

scan_secret-IsUsable :
    (in_mesh : Bool) (ls : List Text) (s : Text) → scan_secret in_mesh ls ≡ some s → IsUsable s
unfolding scan_secret
scan_secret-IsUsable in_mesh [] s h = cc
scan_secret-IsUsable in_mesh (raw ∷ rest) s h =
    scan_line-IsUsable (eq_ignore_case (trim raw) (codes "[mesh]"))
      (starts_with (codes "[") (trim raw)) in_mesh (secret_of (split_once b'=' (trim raw)))
      (scan_secret in_mesh rest) (scan_secret true rest) (scan_secret false rest) s
      (scan_secret-IsUsable true rest s) (scan_secret-IsUsable false rest s)
      (scan_secret-IsUsable in_mesh rest s) (secret_of-IsUsable (split_once b'=' (trim raw)) s) h

-- Every secret that load_shared_secret returns, for any text of peers.conf, is not empty and has no
-- white space at its ends.
pub load_shared_secret-IsUsable :
    (content : Option Text) (s : Text) → load_shared_secret content ≡ some s → IsUsable s
unfolding load_shared_secret
load_shared_secret-IsUsable none s h = cc
load_shared_secret-IsUsable (some content) s h = scan_secret-IsUsable false (lines content) s h
