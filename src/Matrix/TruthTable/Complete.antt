-- ===== src/Matrix/TruthTable/Complete.antt =====
-- `IsComplete` decides whether every pair of names has a value.
use k8s_service_validator.Prelude.{
  true, List, [], ◌∷◌, ◌≡◌, ◌≢◌, refl, none, arith, eq_iff, contains, eq_refl,
}
use k8s_service_validator.Text.{Text, text_eq}
use k8s_service_validator.Matrix.TruthTable.{
  TruthTable, cell, complete_row, complete_rows, is_complete,
}

module _ {B : Type 0} (table : TruthTable B) where
  complete_row_sound :
      (from : Text) (tos : List Text) (t : Text)
      → complete_row table from tos ≡ true
      → contains t tos ≡ true
      → cell table.values from t ≢ none
  unfolding complete_row contains
  complete_row_sound from [] t h k = cc
  complete_row_sound from (to ∷ tos) t h k =
      ground (arith, eq_iff to t, complete_row_sound from tos t)

  complete_rows_sound :
      (froms : List Text) (f t : Text)
      → complete_rows table froms ≡ true
      → contains f froms ≡ true
      → contains t table.tos ≡ true
      → cell table.values f t ≢ none
  unfolding complete_rows contains
  complete_rows_sound [] f t h k l = cc
  complete_rows_sound (from ∷ froms) f t h k l =
      ground
        (arith, eq_iff from f, complete_rows_sound froms f t, complete_row_sound from table.tos t)

  complete_row_intro :
      (from : Text) (tos : List Text)
      → ((t : Text) → contains t tos ≡ true → cell table.values from t ≢ none)
      → complete_row table from tos ≡ true
  unfolding complete_row contains
  complete_row_intro from [] h = refl
  complete_row_intro from (to ∷ tos) h =
      ground (arith, h to, eq_refl to, complete_row_intro from tos (λ t k. h t (ground (arith))))

  complete_rows_intro :
      (froms : List Text)
      → ((f t : Text)
          → contains f froms ≡ true
          → contains t table.tos ≡ true
          → cell table.values f t ≢ none)
      → complete_rows table froms ≡ true
  unfolding complete_rows contains
  complete_rows_intro [] h = refl
  complete_rows_intro (from ∷ froms) h = ground (
    arith,
    complete_row_intro from table.tos (λ t k. h from t (rw eq_refl) k),
    complete_rows_intro froms (λ f t k l. h f t (ground arith) l),
  )

  -- A complete table has a value at every pair of its names.
  pub is_complete_sound :
      (f t : Text)
      → is_complete table ≡ true
      → contains f table.froms ≡ true
      → contains t table.tos ≡ true
      → cell table.values f t ≢ none
  unfolding is_complete
  is_complete_sound f t h = complete_rows_sound table.froms f t h

  -- A table with a value at every pair of its names is complete.
  pub is_complete_intro :
      ((f t : Text)
        → contains f table.froms ≡ true
        → contains t table.tos ≡ true
        → cell table.values f t ≢ none)
      → is_complete table ≡ true
  unfolding is_complete
  is_complete_intro h = complete_rows_intro table.froms h
