-- ===== src/Matrix/TruthTable/Size.antt =====
-- How many cells a table has, and that its comparison has as many.
use k8s_service_validator.Prelude.{ℕ, ◌+◌, Bool, [], ◌∷◌, ◌≡◌, refl, none, arith, length}
use k8s_service_validator.GoMap.{GoMap, lookup, insert, IsMap}
use k8s_service_validator.Text.{Text, text_eq}
use k8s_service_validator.Matrix.TruthTable.{TruthTable, get, same, compare_row, compare_values}
use k8s_service_validator.Matrix.TruthTable.Write.{IsGrid}
use k8s_service_validator.Matrix.TruthTable.Compare.{lookup-compare_row, lookup-compare_values}

-- The cells of a table.
abbrev pub size_row : GoMap Text Bool → ℕ
size_row = length

abbrev pub size : GoMap Text (GoMap Text Bool) → ℕ
size [] = 0
size ((from, dict) ∷ values) = size_row dict + size values

length-insert :
    {V : Type 0} (k : Text) (v : V) (m : GoMap Text V)
    → lookup k m ≡ none
    → length (insert k v m) ≡ length m + 1
unfolding insert lookup
length-insert k v [] h = omega arith
length-insert k v ((j, w) ∷ m) h = ground (arith, length-insert k v m)

size-insert :
    (from : Text) (dict : GoMap Text Bool) (m : GoMap Text (GoMap Text Bool))
    → lookup from m ≡ none
    → size (insert from dict m) ≡ size_row dict + size m
unfolding insert lookup
size-insert from dict [] h = refl
size-insert from dict ((f, row) ∷ m) h = ground (arith, size-insert from dict m)

module _ {B : Type 0} (other : TruthTable B) where
  size-compare_row :
      (from : Text) (dict : GoMap Text Bool)
      → IsMap dict
      → size_row (compare_row other from dict) ≡ size_row dict
  unfolding compare_row
  size-compare_row from [] h = refl
  size-compare_row from ((to, val) ∷ dict) (fresh, h) = ground (
    arith,
    lookup-compare_row other from dict to,
    size-compare_row from dict h,
    length-insert to (same val (get other from to)) (compare_row other from dict),
  )

  pub size-compare_values :
      (values : GoMap Text (GoMap Text Bool))
      → IsGrid values
      → size (compare_values other values) ≡ size values
  unfolding compare_values
  size-compare_values [] h = refl
  size-compare_values ((from, dict) ∷ values) (fresh, hd, h) = ground (
    arith,
    lookup-compare_values other values from,
    size-compare_row from dict hd,
    size-compare_values values h,
    size-insert from (compare_row other from dict) (compare_values other values),
  )
