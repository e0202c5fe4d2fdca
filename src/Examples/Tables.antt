-- ===== src/Examples/Tables.antt =====
-- The tables and the reachability of two pods.
use k8s_service_validator.Prelude.{true, ◌≡◌, [], ◌∷◌, refl, arith, list_beq}
use mathlib.Core.Option
use k8s_service_validator.GoMap.{lookup, insert}
use k8s_service_validator.Outcome.{ok}
use k8s_service_validator.Text.{codes, text_eq, split, join}
use k8s_service_validator.Matrix.TruthTable.{
  TruthTable, cell, get, same, set, compare_tables, compare_values, is_complete, write_cell,
}
use k8s_service_validator.Matrix.TruthTable.Compare.{compare_tables_lem}
use k8s_service_validator.Matrix.TruthTable.Print.{pretty_print, newline, split-pretty_print}
use k8s_service_validator.Examples.Data.{Bandwidth, expected, unobserved, observed, name_a}

written : set name_a name_a true unobserved ≡ ok (record unobserved { values = expected.values })
unfolding set write_cell lookup list_beq insert
written = refl

compare_tables_lem_example :
    (result : TruthTable Bandwidth) × (compare_tables expected observed ≡ ok result)
    × (result.values ≡ compare_values observed expected.values)
    × (cell result.values name_a name_a
        ≡ Option.map
            (λ v. same v (get observed name_a name_a))
            (cell expected.values name_a name_a))
compare_tables_lem_example =
    compare_tables_lem expected observed name_a name_a (omega arith) (omega arith)

complete : is_complete expected ≡ true
unfolding is_complete cell lookup list_beq
complete = refl

split-pretty_print_example :
    split newline (pretty_print [] expected) ≡ codes "-\t\tn/x/a" ∷ codes "n/x/a\t.\t" ∷ []
unfolding join pretty_print split cell lookup list_beq
split-pretty_print_example = split-pretty_print expected [] tt (ground arith, tt) (ground arith, tt)
