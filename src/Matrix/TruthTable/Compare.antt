-- ===== src/Matrix/TruthTable/Compare.antt =====
-- What `Compare` holds at each cell.
use k8s_service_validator.Prelude.{
  ◌⊎◌, ◌≤◌, ◌<◌, Bool, [], ◌∷◌, ◌≡◌, refl, arith, eq_iff, length, inl, inr, Option-cases,
}
use mathlib.Core.Option
use k8s_service_validator.GoMap.{GoMap, lookup, lookup-insert, IsMap, insert-IsMap}
use k8s_service_validator.Outcome.{ok, panic, index_out_of_range}
use k8s_service_validator.Text.{Text, text_eq}
use k8s_service_validator.Matrix.TruthTable.Write.{IsGrid, insert-IsGrid}
use k8s_service_validator.Matrix.TruthTable.{
  TruthTable, cell, get, same, compare_row, compare_values, compare_tables,
}

module _ {B : Type 0} (other : TruthTable B) where
  pub lookup-compare_row :
      (from : Text) (dict : GoMap Text Bool) (t : Text)
      → lookup t (compare_row other from dict)
        ≡ Option.map (λ v. same v (get other from t)) (lookup t dict)
  unfolding compare_row lookup
  lookup-compare_row from [] t = refl
  lookup-compare_row from ((to, val) ∷ dict) t = ground (
    arith,
    eq_iff to t,
    lookup-insert t to (same val (get other from to)) (compare_row other from dict),
    lookup-compare_row from dict t,
  )

  pub lookup-compare_values :
      (values : GoMap Text (GoMap Text Bool)) (f : Text)
      → lookup f (compare_values other values)
        ≡ Option.map (λ dict. compare_row other f dict) (lookup f values)
  unfolding compare_values lookup
  lookup-compare_values [] f = refl
  lookup-compare_values ((from, dict) ∷ values) f = ground (
    arith,
    eq_iff from f,
    lookup-insert f from (compare_row other from dict) (compare_values other values),
    lookup-compare_values values f,
  )

  pub cell-compare_values :
      (values : GoMap Text (GoMap Text Bool)) (f t : Text)
      → cell (compare_values other values) f t
        ≡ Option.map (λ v. same v (get other f t)) (cell values f t)
  unfolding cell
  cell-compare_values values f t = elim (Option-cases (lookup f values)) [
    | inl absent ↦ ground (arith, lookup-compare_values values f)
    | inr (dict, present) ↦
        ground (arith, lookup-compare_values values f, lookup-compare_row f dict t)
  ]

  compare_row-IsMap : (from : Text) (dict : GoMap Text Bool) → IsMap (compare_row other from dict)
  unfolding compare_row
  compare_row-IsMap from [] = tt
  compare_row-IsMap from ((to, val) ∷ dict) =
      insert-IsMap to (same val (get other from to)) (compare_row other from dict)
        (compare_row-IsMap from dict)

  pub compare_values-IsGrid :
      (values : GoMap Text (GoMap Text Bool)) → IsGrid (compare_values other values)
  unfolding compare_values
  compare_values-IsGrid [] = tt
  compare_values-IsGrid ((from, dict) ∷ values) =
      insert-IsGrid from (compare_row other from dict) (compare_values other values)
        (compare_row-IsMap from dict) (compare_values-IsGrid values)

module _ {B : Type 0} (table other : TruthTable B) where
  -- If the other table has at least as many names, `Compare` returns a table with a cell exactly
  -- where the first table has one; the cell says whether the other table reads the same value.
  pub compare_tables_lem :
      (f t : Text)
      → length table.froms ≤ length other.froms
      → length table.tos ≤ length other.tos
      → (result : TruthTable B) × (compare_tables table other ≡ ok result)
        × (result.values ≡ compare_values other table.values)
        × (cell result.values f t
            ≡ Option.map (λ v. same v (get other f t)) (cell table.values f t))
  unfolding compare_tables
  compare_tables_lem f t hf ht = (
    record {
      froms = table.froms;
      tos = table.tos;
      to_set = table.to_set;
      values = compare_values other table.values;
      bandwidths = [];
    },
    ground arith,
    refl,
    cell-compare_values other table.values f t,
  )

  -- If the other table has fewer names, `Compare` runs past their end.
  pub compare_tables_panic :
      (length other.froms < length table.froms) ⊎ (length other.tos < length table.tos)
      → compare_tables table other ≡ panic index_out_of_range
  unfolding compare_tables
  compare_tables_panic h = ground arith

  pub compare_tables_inversion :
      {result : TruthTable B}
      → compare_tables table other ≡ ok result
      → result.values ≡ compare_values other table.values
  unfolding compare_tables
  compare_tables_inversion e = ground arith
