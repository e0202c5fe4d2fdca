-- ===== src/Matrix/Reachability/Summary.antt =====
-- `Summary` counts each cell of the comparison once, and counts no failure exactly if what was
-- observed agrees with what was expected.
use k8s_service_validator.Prelude.{
  ℕ, ◌+◌, Bool, true, false, not, ◌&&◌, [], ◌∷◌, ◌≡◌, refl, some, arith, eq_iff, inl, inr, eq_refl,
  if◌then◌else◌, Option-cases, Bool-cases, ◌==◌, ap, ◌∙◌,
}
use k8s_service_validator.GoMap.{GoMap, lookup, IsMap}
use k8s_service_validator.Outcome.{ok, >>=-eq-ok}
use k8s_service_validator.Text.{Text, text_eq}
use k8s_service_validator.Matrix.Bandwidth.{Floats, BandwidthResults}
use k8s_service_validator.Matrix.TruthTable.{
  TruthTable, cell, get, get_bandwidth, same, compare_tables, compare_values,
}
use k8s_service_validator.Matrix.TruthTable.Write.{IsGrid}
use k8s_service_validator.Matrix.TruthTable.Compare.{
  compare_tables_inversion, cell-compare_values, compare_values-IsGrid,
}
use k8s_service_validator.Matrix.TruthTable.Size.{size_row, size, size-compare_values}
use k8s_service_validator.Matrix.Reachability.{
  Reachability, Counts, no_counts, is_slow, judge, count_row, count_rows, summary,
}

module _ (fl : Floats) (ignore measure : Bool) (observed : TruthTable (BandwidthResults fl)) where
  -- A cell that is not on an ignored loopback fails if the comparison is false there, or if
  -- bandwidth is measured, the pair is connected and its bandwidth is below the benchmark.
  abbrev pub fails : Text → Text → Bool → Bool
  fails from to val =
      not (ignore && from == to)
      && (if val
          then measure && (get observed from to && is_slow fl (get_bandwidth observed from to))
          else true)

  abbrev failures_row : Text → GoMap Text Bool → ℕ
  failures_row from [] = 0
  failures_row from ((to, val) ∷ dict) =
      (if fails from to val then 1 else 0) + failures_row from dict

  abbrev failures : GoMap Text (GoMap Text Bool) → ℕ
  failures [] = 0
  failures ((from, dict) ∷ values) = failures_row from dict + failures values

  abbrev total : Counts → ℕ
  total c = c.true_obs + c.false_obs + c.ignored_obs

  judge_counts :
      (from to : Text) (val : Bool) (c : Counts)
      → ((judge fl ignore measure observed from to val c).false_obs
          ≡ c.false_obs + (if fails from to val then 1 else 0))
        × (total (judge fl ignore measure observed from to val c) ≡ total c + 1)
  unfolding judge
  judge_counts from to val c = ground arith

  count_row_counts :
      (from : Text) (dict : GoMap Text Bool) (c : Counts)
      → ((count_row fl ignore measure observed from dict c).false_obs
          ≡ c.false_obs + failures_row from dict)
        × (total (count_row fl ignore measure observed from dict c) ≡ total c + size_row dict)
  unfolding count_row
  count_row_counts from [] c = omega arith
  count_row_counts from ((to, val) ∷ dict) c = omega (
    arith,
    judge_counts from to val c,
    count_row_counts from dict (judge fl ignore measure observed from to val c),
  )

  count_rows_counts :
      (values : GoMap Text (GoMap Text Bool)) (c : Counts)
      → ((count_rows fl ignore measure observed values c).false_obs ≡ c.false_obs + failures values)
        × (total (count_rows fl ignore measure observed values c) ≡ total c + size values)
  unfolding count_rows
  count_rows_counts [] c = omega arith
  count_rows_counts ((from, dict) ∷ values) c = omega (
    arith,
    count_row_counts from dict c,
    count_rows_counts values (count_row fl ignore measure observed from dict c),
  )

  failures_row_sound :
      (from : Text) (dict : GoMap Text Bool) (to : Text) (val : Bool)
      → failures_row from dict ≡ 0
      → lookup to dict ≡ some val
      → fails from to val ≡ false
  unfolding lookup
  failures_row_sound from [] to val h e = cc
  failures_row_sound from ((t, v) ∷ dict) to val h e = elim (Bool-cases (t == to)) [
    | inl here ↦ ground (arith, eq_iff t to)
    | inr there ↦ failures_row_sound from dict to val (omega arith) (ground arith)
  ]

  failures_sound :
      (values : GoMap Text (GoMap Text Bool)) (from to : Text) (val : Bool)
      → failures values ≡ 0
      → cell values from to ≡ some val
      → fails from to val ≡ false
  unfolding cell lookup
  failures_sound [] from to val h e = cc
  failures_sound ((f, dict) ∷ values) from to val h e = elim (Bool-cases (f == from)) [
    | inl here ↦ ground (arith, eq_iff f from, failures_row_sound from dict to val)
    | inr there ↦ failures_sound values from to val (omega arith) (ground arith)
  ]

  failures_row_complete :
      (from : Text) (dict : GoMap Text Bool)
      → IsMap dict
      → ((to : Text) (val : Bool) → lookup to dict ≡ some val → fails from to val ≡ false)
      → failures_row from dict ≡ 0
  unfolding lookup
  failures_row_complete from [] h all = refl
  failures_row_complete from ((t, v) ∷ dict) (fresh, h) all = ground (
    arith,
    all t v (rw eq_refl),
    failures_row_complete from dict h λ to val e. all to val (ground (arith, eq_iff t to)),
  )

  failures_complete :
      (values : GoMap Text (GoMap Text Bool))
      → IsGrid values
      → ((from to : Text) (val : Bool) → cell values from to ≡ some val → fails from to val ≡ false)
      → failures values ≡ 0
  unfolding cell lookup
  failures_complete [] h all = refl
  failures_complete ((f, dict) ∷ values) (fresh, hd, h) all = ground (
    arith,
    failures_row_complete f dict hd λ to val e. all f to val (ground (arith, eq_refl f)),
    failures_complete values h λ from to val e. all from to val (ground (arith, eq_iff f from)),
  )

module _ (fl : Floats) (ignore measure : Bool) (r : Reachability (BandwidthResults fl)) where
  summary_inversion :
      {c : Counts} {comparison : TruthTable (BandwidthResults fl)}
      → summary fl ignore measure r ≡ ok (c, comparison)
      → (comparison.values ≡ compare_values r.observed r.expected.values)
        × (c.false_obs ≡ failures fl ignore measure r.observed comparison.values)
        × (c.true_obs + c.false_obs + c.ignored_obs ≡ size comparison.values)
  unfolding summary
  summary_inversion {c} {comparison} e =
      let (result, compared, counted) = >>=-eq-ok (compare_tables r.expected r.observed) _ e in
      ground (
        arith,
        compare_tables_inversion r.expected r.observed compared,
        count_rows_counts fl ignore measure r.observed result.values no_counts,
      )

  -- If `Summary` counts nothing false, each expected value of a pair that is not an ignored
  -- loopback is the value observed; and if bandwidth is measured, no connected pair is below the
  -- benchmark.
  pub summary_sound :
      (c : Counts) (comparison : TruthTable (BandwidthResults fl)) (from to : Text) (val : Bool)
      → summary fl ignore measure r ≡ ok (c, comparison)
      → c.false_obs ≡ 0
      → cell r.expected.values from to ≡ some val
      → (ignore && from == to) ≡ false
      → (get r.observed from to ≡ val)
        × ((measure && (get r.observed from to && is_slow fl (get_bandwidth r.observed from to)))
            ≡ false)
  summary_sound c comparison from to val e zero_false expected counted =
      let (values, false_obs, _) = summary_inversion e in
      ground (
        arith,
        cell-compare_values r.observed r.expected.values from to,
        failures_sound fl ignore measure r.observed comparison.values from to
            (same val (get r.observed from to)),
      )

  agrees_not_fails :
      (from to : Text) (val : Bool)
      → ((v : Bool)
          → cell r.expected.values from to ≡ some v
          → (ignore && from == to) ≡ false
          → (get r.observed from to ≡ v)
            × ((measure
                  && (get r.observed from to && is_slow fl (get_bandwidth r.observed from to)))
                ≡ false))
      → cell (compare_values r.observed r.expected.values) from to ≡ some val
      → fails fl ignore measure r.observed from to val ≡ false
  agrees_not_fails from to val agrees at = elim (Option-cases (cell r.expected.values from to)) [
    | inl absent ↦ ground (arith, cell-compare_values r.observed r.expected.values from to)
    | inr (v, present) ↦
        ground (arith, agrees v, cell-compare_values r.observed r.expected.values from to)
  ]

  -- If every expected value of a pair that is not an ignored loopback is observed, and no measured
  -- bandwidth of a connected pair is below the benchmark, `Summary` counts nothing false.
  pub summary_complete :
      (c : Counts) (comparison : TruthTable (BandwidthResults fl))
      → summary fl ignore measure r ≡ ok (c, comparison)
      → ((from to : Text) (val : Bool)
          → cell r.expected.values from to ≡ some val
          → (ignore && from == to) ≡ false
          → (get r.observed from to ≡ val)
            × ((measure
                  && (get r.observed from to && is_slow fl (get_bandwidth r.observed from to)))
                ≡ false))
      → c.false_obs ≡ 0
  summary_complete c comparison e agrees =
      let (values, false_obs, _) = summary_inversion e in
      let none_fails =
        failures_complete fl ignore measure r.observed (compare_values r.observed r.expected.values)
          (compare_values-IsGrid r.observed r.expected.values)
          (λ from to val at. agrees_not_fails from to val (λ v. agrees from to v) at) in
      rw false_obs (rw values none_fails)

  -- `Summary` counts each cell of the table of expected values once: as correct, as false or as
  -- ignored.
  pub summary_total :
      (c : Counts) (comparison : TruthTable (BandwidthResults fl))
      → IsGrid r.expected.values
      → summary fl ignore measure r ≡ ok (c, comparison)
      → c.true_obs + c.false_obs + c.ignored_obs ≡ size r.expected.values
  summary_total c comparison grid e =
      let (values, _, all_counted) = summary_inversion e in
      all_counted ∙ (ap size values ∙ size-compare_values r.observed r.expected.values grid)
