-- ===== src/Capabilities/Table/Failure.antt =====
-- A registration that fails in the middle.
use convergio_mesh.Prelude.{
  ℕ, zero, suc, ◌+◌, ◌≡◌, ◌<◌, refl, subst, true, List, [], ◌∷◌, Option, none, some, length, take,
  is_some, arith, Option-cases, inl, inr,
}
use convergio_mesh.Prelude.Text.{Text}
use convergio_mesh.Capabilities.Types.{NodeCapability, Row, Codec}
use convergio_mesh.Capabilities.Table.{upsert, row_of, register_from, register_capabilities}
use convergio_mesh.Capabilities.Table.Keys.{
  register_from_done, register_from_fails, register_from_goes,
}
use convergio_mesh.Capabilities.Handlers.{handle_register, failed}

module _ (codec : Codec) (clock : ℕ → Option Text) (peer : Text) where
  -- The loop over `caps` stops after the first `k` of them.
  abbrev Stops : ℕ → ℕ → List NodeCapability → List Row → Type 0
  Stops n k caps table =
      (register_from codec clock n peer caps table
        ≡ ((register_from codec clock n peer (take k caps) table).0, none))
      × ((register_from codec clock n peer (take k caps) table).1 ≡ some tt)

  Stops-first :
      (n : ℕ) (c : NodeCapability) (caps : List NodeCapability) (table : List Row)
      → clock n ≡ none
      → Stops n 0 (c ∷ caps) table
  Stops-first n c caps table e =
      rw
        (
          register_from_fails codec clock n peer c caps table e,
          register_from_done codec clock n peer table,
        )
        (refl, refl)

  Stops-later :
      (n k : ℕ) (c : NodeCapability) (caps : List NodeCapability) (table : List Row) (now : Text)
      → clock n ≡ some now
      → Stops (n + 1) k caps (upsert (row_of codec now peer c) table)
      → Stops n (suc k) (c ∷ caps) table
  Stops-later n k c caps table now e s =
      rw
        (
          register_from_goes codec clock n peer c caps table now e,
          register_from_goes codec clock n peer c (take k caps) table now e,
        )
        s

  stops :
      (n k : ℕ) (caps : List NodeCapability) (table : List Row)
      → k < length caps
      → ((i : ℕ) → i < k → is_some (clock (n + i)) ≡ true)
      → clock (n + k) ≡ none
      → Stops n k caps table
  stops n zero [] table h goes e = absurd (omega arith)
  stops n (suc k) [] table h goes e = absurd (omega arith)
  stops n zero (c ∷ caps) table h goes e =
      Stops-first n c caps table (subst (λ j. clock j ≡ none) (omega arith) e)
  stops n (suc k) (c ∷ caps) table h goes e = elim (Option-cases (clock n)) [
    | inl f ↦
        let g : is_some (clock n) ≡ true =
          subst (λ j. is_some (clock j) ≡ true) (omega arith) (goes 0 (omega arith)) in
        ground arith
    | inr (now, f) ↦ Stops-later n k c caps table now f (
        stops (n + 1) k caps _ (omega arith)
          (λ i l. subst (λ j. is_some (clock j) ≡ true) (omega arith) (goes (suc i) (omega arith)))
          (subst (λ j. clock j ≡ none) (omega arith) e))
  ]

  -- If the statement for the capability number k is the first to fail, the registration is answered
  -- with an error, and the table is what a successful registration of the first k capabilities makes
  -- of it: nothing is rolled back.
  pub handle_register-fails :
      (k : ℕ) (caps : List NodeCapability) (table : List Row)
      → k < length caps
      → ((i : ℕ) → i < k → is_some (clock i) ≡ true)
      → clock k ≡ none
      → (handle_register codec clock peer caps (some table)
          ≡ (some (register_capabilities codec clock peer (take k caps) table).0, failed))
        × ((register_capabilities codec clock peer (take k caps) table).1 ≡ some tt)
  unfolding handle_register register_capabilities
  handle_register-fails k caps table h goes e =
      let s =
        stops 0 k caps table h
          (λ i l. subst (λ j. is_some (clock j) ≡ true) (omega arith) (goes i l))
          (subst (λ j. clock j ≡ none) (omega arith) e) in
      (rw s.0 refl, s.1)
