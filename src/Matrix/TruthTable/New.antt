-- ===== src/Matrix/TruthTable/New.antt =====
-- What a new table holds.
use k8s_service_validator.Prelude.{
  Bool, ◌&&◌, List, [], ◌∷◌, ◌≡◌, refl, Option, none, some, arith, contains, if◌then◌else◌,
}
use k8s_service_validator.GoMap.{GoMap, lookup, insert, lookup-insert, IsMap, insert-IsMap}
use k8s_service_validator.Text.{Text, text_eq}
use k8s_service_validator.Matrix.TruthTable.Write.{IsGrid, insert-IsGrid}
use k8s_service_validator.Matrix.TruthTable.{
  TruthTable, fill_row, fill_values, empty_rows, cell, new_truth_table,
}

lookup-fill_row :
    (v : Bool) (tos : List Text) (dict : GoMap Text Bool) (t : Text)
    → lookup t (fill_row (some v) tos dict) ≡ (if contains t tos then some v else lookup t dict)
unfolding fill_row contains
lookup-fill_row v [] dict t = refl
lookup-fill_row v (to ∷ tos) dict t =
    ground (arith, lookup-fill_row v tos (insert to v dict) t, lookup-insert t to v dict)

fill_row-none : (tos : List Text) (dict : GoMap Text Bool) → fill_row none tos dict ≡ dict
unfolding fill_row
fill_row-none [] dict = refl
fill_row-none (to ∷ tos) dict = fill_row-none tos dict

lookup-fill_values :
    (d : Option Bool) (tos froms : List Text) (values : GoMap Text (GoMap Text Bool)) (f : Text)
    → lookup f (fill_values d tos froms values)
      ≡ (if contains f froms then some (fill_row d tos []) else lookup f values)
unfolding fill_values contains
lookup-fill_values d tos [] values f = refl
lookup-fill_values d tos (from ∷ froms) values f = ground (
  arith,
  lookup-fill_values d tos froms (insert from (fill_row d tos []) values) f,
  lookup-insert f from (fill_row d tos []) values,
)

lookup-empty_rows {ℓ} :
    {V : Type ℓ} (froms : List Text) (m : GoMap Text (GoMap Text V)) (f : Text)
    → lookup f (empty_rows froms m) ≡ (if contains f froms then some [] else lookup f m)
unfolding empty_rows contains
lookup-empty_rows [] m f = refl
lookup-empty_rows (from ∷ froms) m f =
    ground (arith, lookup-empty_rows froms (insert from [] m) f, lookup-insert f from [] m)

module _ (B : Type 0) (froms tos : List Text) where
  abbrev blank : Option Bool → TruthTable B
  blank = new_truth_table {B = B} froms tos

  -- A new table holds the default at every pair of its names, and nothing else; with no default
  -- it holds nothing.
  pub cell-new_truth_table :
      (d : Option Bool) (f t : Text)
      → cell (blank d).values f t ≡ (if contains f froms && contains t tos then d else none)
  unfolding new_truth_table cell lookup
  cell-new_truth_table none f t =
      ground (arith, lookup-fill_values none tos froms [] f, fill_row-none tos [])
  cell-new_truth_table (some v) f t =
      ground (arith, lookup-fill_values (some v) tos froms [] f, lookup-fill_row v tos [] t)

  -- Whatever the default, each of the names has a row in both maps, so that it can be written to.
  pub lookup-new_truth_table :
      (d : Option Bool) (f : Text)
      → lookup f (blank d).values ≡ (if contains f froms then some (fill_row d tos []) else none)
  unfolding new_truth_table lookup
  lookup-new_truth_table d f = lookup-fill_values d tos froms [] f

  pub lookup-bandwidths :
      (d : Option Bool) (f : Text)
      → lookup f (blank d).bandwidths ≡ (if contains f froms then some [] else none)
  unfolding new_truth_table lookup
  lookup-bandwidths d f = lookup-empty_rows froms [] f

fill_row-IsMap :
    (d : Option Bool) (tos : List Text) (dict : GoMap Text Bool)
    → IsMap dict
    → IsMap (fill_row d tos dict)
unfolding fill_row
fill_row-IsMap d [] dict h = h
fill_row-IsMap none (to ∷ tos) dict h = fill_row-IsMap none tos dict h
fill_row-IsMap (some v) (to ∷ tos) dict h =
    fill_row-IsMap (some v) tos (insert to v dict) (insert-IsMap to v dict h)

fill_values-IsGrid :
    (d : Option Bool) (tos froms : List Text) (values : GoMap Text (GoMap Text Bool))
    → IsGrid values
    → IsGrid (fill_values d tos froms values)
unfolding fill_values
fill_values-IsGrid d tos [] values h = h
fill_values-IsGrid d tos (from ∷ froms) values h =
    fill_values-IsGrid d tos froms (insert from (fill_row d tos []) values)
      (insert-IsGrid from (fill_row d tos []) values (fill_row-IsMap d tos [] tt) h)

new_truth_table-IsGrid :
    (B : Type 0) (froms tos : List Text) (d : Option Bool)
    → IsGrid (new_truth_table {B = B} froms tos d).values
unfolding new_truth_table
new_truth_table-IsGrid B froms tos d = fill_values-IsGrid d tos froms [] tt
