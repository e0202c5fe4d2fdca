-- ===== src/Matrix/TruthTable.antt =====
-- pkg/matrix/truthtable.go: a table of booleans, and of bandwidths, for ordered pairs of names.
-- Messages on standard output have no part. A nil row reads as the empty map, and a write to it
-- panics.
pub mod New
pub mod Write
pub mod Written
pub mod Compare
pub mod Complete
pub mod Size
pub mod Print
use k8s_service_validator.Prelude.{
  Bool, true, false, not, List, [], ◌∷◌, ◌≡◌, Option, none, some, ltb, length, if◌then◌else◌,
}
use k8s_service_validator.GoMap.{GoMap, lookup, insert}
use k8s_service_validator.Outcome.{Outcome, ok, panic, nil_map_write, index_out_of_range}
use k8s_service_validator.Text.{Text, text_eq}

pub record TruthTable (B : Type 0) : Type 0 where
  pub froms : List Text
  pub tos : List Text
  pub to_set : GoMap Text Bool
  pub values : GoMap Text (GoMap Text Bool)
  pub bandwidths : GoMap Text (GoMap Text (Option B))

-- The inner loop of `NewTruthTable`.
pub fill_row : Option Bool → List Text → GoMap Text Bool → GoMap Text Bool
fill_row default [] dict = dict
fill_row default (to ∷ tos) dict =
    fill_row default tos (elim default [ none ↦ dict | some v ↦ insert to v dict ])

-- The outer loop, on the values and on the bandwidths.
pub fill_values :
    Option Bool
    → List Text
    → List Text
    → GoMap Text (GoMap Text Bool)
    → GoMap Text (GoMap Text Bool)
fill_values default tos [] values = values
fill_values default tos (from ∷ froms) values =
    fill_values default tos froms (insert from (fill_row default tos []) values)

pub empty_rows {ℓ} :
    {V : Type ℓ} → List Text → GoMap Text (GoMap Text V) → GoMap Text (GoMap Text V)
empty_rows [] m = m
empty_rows (from ∷ froms) m = empty_rows froms (insert from [] m)

make_set : List Text → GoMap Text Bool → GoMap Text Bool
make_set [] m = m
make_set (to ∷ tos) m = make_set tos (insert to true m)

-- `v, ok := m[from][to]` on a map of maps.
unfoldable pub cell {ℓ} : {V : Type ℓ} → GoMap Text (GoMap Text V) → Text → Text → Option V
cell m from to = elim (lookup from m) [ none ↦ none | some dict ↦ lookup to dict ]

-- A read of a missing entry is the zero value.
abbrev or_false : Option Bool → Bool
or_false none = false
or_false (some v) = v

abbrev or_nil {ℓ} : {A : Type ℓ} → Option (Option A) → Option A
or_nil none = none
or_nil (some v) = v

-- `==` on booleans.
abbrev pub same : Bool → Bool → Bool
same true b = b
same false b = not b

-- `m[from][to] = v` through the row `dict, ok := m[from]`.
unfoldable pub write_cell {ℓ} :
    {V : Type ℓ} → Text → Text → V → GoMap Text (GoMap Text V) → Outcome (GoMap Text (GoMap Text V))
write_cell from to v m = elim (lookup from m) [
  | none ↦ panic nil_map_write
  | some dict ↦ ok (insert from (insert to v dict) m)
]

is_set : Option Bool → Bool
is_set none = false
is_set (some _) = true

module _ {B : Type 0} where
  unfoldable pub new_truth_table : List Text → List Text → Option Bool → TruthTable B
  unfolding fill_row fill_values empty_rows make_set
  new_truth_table froms tos default = record {
    froms = froms;
    tos = tos;
    to_set = make_set tos [];
    values = fill_values default tos froms [];
    bandwidths = empty_rows froms [];
  }

  unfoldable pub new_truth_table_from_items : List Text → Option Bool → TruthTable B
  unfolding new_truth_table
  new_truth_table_from_items items default = new_truth_table items items default

  unfoldable pub set : Text → Text → Bool → TruthTable B → Outcome (TruthTable B)
  set from to value tt = elim (write_cell from to value tt.values) [
    | ok values ↦ ok (record tt { values = values })
    | panic p ↦ panic p
  ]

  unfoldable pub set_bandwidth : Text → Text → Option B → TruthTable B → Outcome (TruthTable B)
  set_bandwidth from to bandwidth tt = elim (write_cell from to bandwidth tt.bandwidths) [
    | ok bandwidths ↦ ok (record tt { bandwidths = bandwidths })
    | panic p ↦ panic p
  ]

  unfoldable pub get : TruthTable B → Text → Text → Bool
  unfolding cell
  get tt from to = or_false (cell tt.values from to)

  unfoldable pub get_bandwidth : TruthTable B → Text → Text → Option B
  unfolding cell
  get_bandwidth tt from to = or_nil (cell tt.bandwidths from to)

  -- Both loops of `Compare` over `other`'s names fail only by running past their end.
  pub compare_row : TruthTable B → Text → GoMap Text Bool → GoMap Text Bool
  compare_row other from [] = []
  compare_row other from ((to, val) ∷ dict) =
      insert to (same val (get other from to)) (compare_row other from dict)

  pub compare_values : TruthTable B → GoMap Text (GoMap Text Bool) → GoMap Text (GoMap Text Bool)
  compare_values other [] = []
  compare_values other ((from, dict) ∷ values) =
      insert from (compare_row other from dict) (compare_values other values)

  unfoldable pub compare_tables : TruthTable B → TruthTable B → Outcome (TruthTable B)
  unfolding compare_row compare_values
  compare_tables tt other =
      if ltb (length other.froms) (length tt.froms)
      then panic index_out_of_range
      else if ltb (length other.tos) (length tt.tos)
      then panic index_out_of_range
      else ok (record {
        froms = tt.froms;
        tos = tt.tos;
        to_set = tt.to_set;
        values = compare_values other tt.values;
        bandwidths = [];
      })

  pub complete_row : TruthTable B → Text → List Text → Bool
  unfolding is_set
  complete_row tt from [] = true
  complete_row tt from (to ∷ tos) =
      if not (is_set (cell tt.values from to)) then false else complete_row tt from tos

  pub complete_rows : TruthTable B → List Text → Bool
  complete_rows tt [] = true
  complete_rows tt (from ∷ froms) =
      if not (complete_row tt from tt.tos) then false else complete_rows tt froms

  unfoldable pub is_complete : TruthTable B → Bool
  unfolding complete_row complete_rows
  is_complete tt = complete_rows tt tt.froms
