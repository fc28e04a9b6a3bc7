-- ===== src/Transport/Addr/Safe.antt =====
-- What an accepted peer address cannot hold.
use convergio_mesh.Prelude.{
  ℕ, ◌≤◌, ◌≡◌, ap, inl, inr, refl, false, [], ◌∷◌, ◌++◌, Option, none, some, ◌==◌, ==_iff,
  Bool-cases,
}
use convergio_mesh.Prelude.Text.{Text, has}
use convergio_mesh.Prelude.Text.Number.{parse_unsigned}
use convergio_mesh.Transport.Addr.{rsplit, rsplit_step}

-- The split is at a separator that no other follows, and it fails only where there is none.
abbrev Splits : ℕ → Text → Option (Text × Text) → Type 0
Splits c t none = has c t ≡ false
Splits c t (some (before, behind)) = (t ≡ before ++ c ∷ behind) × (has c behind ≡ false)

rsplit_step-Splits :
    (c x : ℕ) (xs : Text) (o : Option (Text × Text))
    → Splits c xs o
    → Splits c (x ∷ xs) (rsplit_step c x xs o)
unfolding rsplit_step has
rsplit_step-Splits c x xs (some (before, behind)) h = (ap (◌∷◌ x) h.0, h.1)
rsplit_step-Splits c x xs none h = elim (Bool-cases (x == c)) [
  | inl at_sep ↦ rw at_sep (ap (λ y. y ∷ xs) ((==_iff x c).0 at_sep), h)
  | inr other ↦ rw other (rw other h)
]

pub rsplit-Splits : (c : ℕ) (t : Text) → Splits c t (rsplit c t)
unfolding rsplit has
rsplit-Splits c [] = refl
rsplit-Splits c (x ∷ xs) = rsplit_step-Splits c x xs (rsplit c xs) (rsplit-Splits c xs)

-- `host:port`, with nothing that adds a path, a user, a query or a fragment to a URL.
pub record IsSafe (addr : Text) : Type 0 where
  pub host : Text
  pub port : Text
  pub number : ℕ
  pub splits : addr ≡ host ++ b':' ∷ port
  pub parses : parse_unsigned 65535 port ≡ some number
  pub fits : number ≤ 65535
  pub no_slash : has b'/' addr ≡ false
  pub no_at : has b'@' addr ≡ false
  pub no_query : has b'?' addr ≡ false
  pub no_fragment : has b'#' addr ≡ false
