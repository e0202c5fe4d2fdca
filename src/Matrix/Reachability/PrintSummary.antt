-- ===== src/Matrix/Reachability/PrintSummary.antt =====
-- pkg/matrix/reachability.go, `PrintSummary`: the lines that it logs, in their order.
use k8s_service_validator.Prelude.{
  ℕ, Bool, true, false, not, ◌&&◌, List, [], ◌∷◌, ◌++◌, ◌≡◌, refl, subst, arith, ltb, ◌==◌, nat_eq,
  if◌then◌else◌, All, All-append,
}
use k8s_service_validator.GoMap.{GoMap}
use k8s_service_validator.Outcome.{Outcome, ok, ◌>>=◌, >>=-eq-ok}
use k8s_service_validator.Text.{Text, codes, itoa, text_eq}
use k8s_service_validator.Matrix.Bandwidth.{Floats, BandwidthResults}
use k8s_service_validator.Matrix.TruthTable.{TruthTable, compare_tables}
use k8s_service_validator.Matrix.TruthTable.Print.{pretty_print, pretty_print_bandwidth}
use k8s_service_validator.Matrix.Reachability.{
  Reachability, Counts, no_counts, judge, count_row, count_rows, summary,
}

pub data LogEntry : Type 0 where
  warn info : Text → LogEntry

bool_text : Bool → Text
bool_text true = codes "true"
bool_text false = codes "false"

hairpin_warning : ℕ → Text
hairpin_warning ignored =
    codes
      "warning: this test doesn't take into consideration hairpin traffic, i.e. traffic whose source and destination is the same pod: "
    ++ (itoa ignored ++ codes " cases ignored")

results_line : ℕ → ℕ → Text
results_line right wrong =
    codes "Reachability results ("
    ++ (bool_text (wrong == 0)
        ++ (codes "): correct: " ++ (itoa right ++ (codes ", incorrect: " ++ itoa wrong))))

table_entry : Text → Text → LogEntry
table_entry title table = info (title ++ (codes ":\n\n" ++ (table ++ codes "\n\n\n")))

abbrev only_if : Bool → LogEntry → List LogEntry
only_if test entry = if test then entry ∷ [] else []

module _ (fl : Floats) where
  abbrev tables :
      Bool
      → Bool
      → Bool
      → Bool
      → Reachability (BandwidthResults fl)
      → TruthTable (BandwidthResults fl)
      → List LogEntry
  tables expected observed compared bandwidth r comparison =
      only_if expected (table_entry (codes "expected") (pretty_print [] r.expected))
      ++ (only_if (not bandwidth && observed)
            (table_entry (codes "observed") (pretty_print [] r.observed))
          ++ (only_if bandwidth
                (table_entry (codes "observed bandwidth") (pretty_print_bandwidth fl [] r.observed))
              ++ only_if compared (table_entry (codes "comparison") (pretty_print [] comparison))))

  -- Its summary ignores no loopback, whatever the test that it is called for.
  unfoldable pub print_summary :
      Bool → Bool → Bool → Bool → Reachability (BandwidthResults fl) → Outcome (List LogEntry)
  unfolding bool_text hairpin_warning results_line table_entry
  print_summary expected observed compared bandwidth r = do
    counted ← summary fl false false r
    let c = counted.0
    ok (
        only_if (ltb 0 c.ignored_obs) (warn (hairpin_warning c.ignored_obs))
        ++ (info (results_line c.true_obs c.false_obs)
            ∷ tables expected observed compared bandwidth r counted.1))

  count_row-ignored :
      (measure : Bool) (observed : TruthTable (BandwidthResults fl)) (from : Text)
      (dict : GoMap Text Bool) (c : Counts)
      → (count_row fl false measure observed from dict c).ignored_obs ≡ c.ignored_obs
  unfolding count_row judge
  count_row-ignored measure observed from [] c = refl
  count_row-ignored measure observed from ((to, val) ∷ dict) c = ground (
    arith,
    count_row-ignored measure observed from dict (judge fl false measure observed from to val c),
  )

  count_rows-ignored :
      (measure : Bool) (observed : TruthTable (BandwidthResults fl))
      (values : GoMap Text (GoMap Text Bool)) (c : Counts)
      → (count_rows fl false measure observed values c).ignored_obs ≡ c.ignored_obs
  unfolding count_rows
  count_rows-ignored measure observed [] c = refl
  count_rows-ignored measure observed ((from, dict) ∷ values) c = ground (
    arith,
    count_rows-ignored measure observed values (count_row fl false measure observed from dict c),
    count_row-ignored measure observed from dict c,
  )

  summary-ignored :
      (measure : Bool) (r : Reachability (BandwidthResults fl)) (c : Counts)
      (comparison : TruthTable (BandwidthResults fl))
      → summary fl false measure r ≡ ok (c, comparison)
      → c.ignored_obs ≡ 0
  unfolding summary
  summary-ignored measure r c comparison e =
      let (result, compared, counted) = >>=-eq-ok (compare_tables r.expected r.observed) _ e in
      ground (arith, count_rows-ignored measure r.observed result.values no_counts)

abbrev pub IsInfo : LogEntry → Type 0
IsInfo (warn _) = ⊥
IsInfo (info _) = Unit {0}

ok-injective : {A : Type 0} {a b : A} → ok a ≡ ok b → a ≡ b
ok-injective h = cc

only_if-IsInfo : (test : Bool) (line : Text) → All IsInfo (only_if test (info line))
only_if-IsInfo true line = (tt, tt)
only_if-IsInfo false line = tt

tables-IsInfo :
    (fl : Floats) (expected observed compared bandwidth : Bool)
    (r : Reachability (BandwidthResults fl)) (comparison : TruthTable (BandwidthResults fl))
    → All IsInfo (tables fl expected observed compared bandwidth r comparison)
unfolding table_entry
tables-IsInfo fl expected observed compared bandwidth r comparison =
    All-append IsInfo _ _ (only_if-IsInfo expected _) (
      All-append IsInfo _ _ (only_if-IsInfo (not bandwidth && observed) _)
        (All-append IsInfo _ _ (only_if-IsInfo bandwidth _) (only_if-IsInfo compared _)))

-- `PrintSummary` never warns of ignored loopbacks: all that it logs is information.
pub print_summary-IsInfo :
    (fl : Floats) (expected observed compared bandwidth : Bool)
    (r : Reachability (BandwidthResults fl)) (entries : List LogEntry)
    → print_summary fl expected observed compared bandwidth r ≡ ok entries
    → All IsInfo entries
unfolding print_summary
print_summary-IsInfo fl expected observed compared bandwidth r entries e =
    let (counted, summed, logged) = >>=-eq-ok (summary fl false false r) _ e in
    let none_ignored = summary-ignored fl false r counted.0 counted.1 summed in
    let no_warning : ltb 0 counted.0.ignored_obs ≡ false = ground (arith, none_ignored) in
    subst (All IsInfo) (ok-injective (rw no_warning at logged))
      (tt, tables-IsInfo fl expected observed compared bandwidth r counted.1)
