-- ===== src/Matrix/TruthTable/Print.antt =====
-- pkg/matrix/truthtable.go, `PrettyPrint` and `PrettyPrintBandwidth`: one line for the header and
-- one for each source.
use k8s_service_validator.Prelude.{
  ℕ, Bool, true, false, List, [], ◌∷◌, ◌++◌, ◌≡◌, ◌≢◌, Option, none, some, map, arith, All,
  All-append,
}
use k8s_service_validator.Text.{Text, codes, join, split, Lacks, split-join}
use k8s_service_validator.Matrix.Bandwidth.{Floats, BandwidthResults, pretty_bandwidth}
use k8s_service_validator.Matrix.TruthTable.{TruthTable, cell, get_bandwidth}

pub mark : Option Bool → Text
mark none = codes "?"
mark (some true) = codes "."
mark (some false) = codes "X"

abbrev pub tab : Text
tab = codes "\t"

header : Text → List Text → Text
header indent tos = indent ++ join tab ((codes "-\t") ∷ tos)

module _ {B : Type 0} where
  print_line : TruthTable B → Text → Text → Text
  unfolding mark
  print_line table indent from =
      indent ++ join tab (from ∷ map (λ to. mark (cell table.values from to) ++ tab) table.tos)

  unfoldable pub pretty_print : Text → TruthTable B → Text
  unfolding print_line header
  pretty_print indent table =
      join (codes "\n") (header indent table.tos ∷ map (print_line table indent) table.froms)

module _ (fl : Floats) where
  mark_bandwidth : Option (BandwidthResults fl) → Text
  mark_bandwidth none = codes "nil"
  mark_bandwidth (some b) = pretty_bandwidth fl true b

  print_line_bandwidth : TruthTable (BandwidthResults fl) → Text → Text → Text
  unfolding mark_bandwidth
  print_line_bandwidth table indent from =
      indent
      ++ join tab (from ∷ map (λ to. mark_bandwidth (get_bandwidth table from to) ++ tab) table.tos)

  unfoldable pub pretty_print_bandwidth : Text → TruthTable (BandwidthResults fl) → Text
  unfolding print_line_bandwidth header
  pretty_print_bandwidth indent table =
      join (codes "\n")
        (header indent table.tos ∷ map (print_line_bandwidth table indent) table.froms)

abbrev pub newline : ℕ
newline = 10

Lacks-join : (ps : List Text) → All (Lacks newline) ps → Lacks newline (join tab ps)
unfolding join
Lacks-join [] h = tt
Lacks-join (p ∷ []) (hp, _) = hp
Lacks-join (p ∷ q ∷ ps) (hp, h) =
    All-append (λ c. c ≢ newline) p (tab ++ join tab (q ∷ ps)) hp
      (All-append (λ c. c ≢ newline) tab (join tab (q ∷ ps)) (ground arith) (Lacks-join (q ∷ ps) h))

Lacks-mark : (o : Option Bool) → Lacks newline (mark o ++ tab)
unfolding mark
Lacks-mark none = ground arith
Lacks-mark (some true) = ground arith
Lacks-mark (some false) = ground arith

module _ {B : Type 0} (table : TruthTable B) (indent : Text) where
  Lacks-marks :
      (from : Text) (tos : List Text)
      → All (Lacks newline) (map (λ to. mark (cell table.values from to) ++ tab) tos)
  Lacks-marks from [] = tt
  Lacks-marks from (to ∷ tos) = (Lacks-mark (cell table.values from to), Lacks-marks from tos)

  Lacks-print_lines :
      (froms : List Text)
      → Lacks newline indent
      → All (Lacks newline) froms
      → All (Lacks newline) (map (print_line table indent) froms)
  unfolding print_line
  Lacks-print_lines [] hi h = tt
  Lacks-print_lines (from ∷ froms) hi (hf, h) = (
    All-append (λ c. c ≢ newline) indent _ hi
        (Lacks-join (from ∷ _) (hf, Lacks-marks from table.tos)),
    Lacks-print_lines froms hi h,
  )

  -- If neither the indent nor a name holds a line feed, the lines of a printed table are its header
  -- and, for each source in order, the source's name and the marks of its row.
  pub split-pretty_print :
      Lacks newline indent
      → All (Lacks newline) table.froms
      → All (Lacks newline) table.tos
      → split newline (pretty_print indent table)
        ≡ (indent ++ join tab (codes "-\t" ∷ table.tos))
          ∷ map
              (λ from.
                indent
                ++ join tab (from ∷ map (λ to. mark (cell table.values from to) ++ tab) table.tos))
              table.froms
  unfolding pretty_print header print_line
  split-pretty_print hi hf ht =
      split-join newline (header indent table.tos) (map (print_line table indent) table.froms) (
        All-append (λ c. c ≢ newline) indent _ hi
            (Lacks-join (codes "-\t" ∷ table.tos) (ground arith, ht)),
        Lacks-print_lines table.froms hi hf,
      )
