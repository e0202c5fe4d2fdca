-- ===== src/Matrix/Reachability/Observe.antt =====
-- `Observe` records one observation and its bandwidth, and nothing else.
use k8s_service_validator.Prelude.{
  Bool, [], ◌&&◌, ◌≡◌, ◌≢◌, Option, none, some, arith, ◌==◌, if◌then◌else◌,
}
use k8s_service_validator.GoMap.{lookup}
use k8s_service_validator.Outcome.{ok, >>=-eq-ok}
use k8s_service_validator.Text.{Text, text_eq}
use k8s_service_validator.Matrix.TruthTable.{TruthTable, cell, set, set_bandwidth}
use k8s_service_validator.Matrix.TruthTable.Write.{
  cell-set, set_total, lookup-set, cell-set_bandwidth, set_bandwidth_inversion, lookup-write_cell,
  set_bandwidth_total,
}
use k8s_service_validator.Matrix.Reachability.{Reachability, observe}

module _ {B : Type 0} where
  -- The table of observations has a row of this name, in both maps.
  pub record HasRow (from : Text) (table : TruthTable B) : Type 0 where
    pub values : lookup from table.values ≢ none
    pub bandwidths : lookup from table.bandwidths ≢ none

  module _ (from to : Text) (connected : Bool) (bandwidth : Option B) (r r' : Reachability B)
      (e : observe from to connected bandwidth r ≡ ok r') where
    observe_inversion :
        (o o' : TruthTable B) × (set from to connected r.observed ≡ ok o)
        × (set_bandwidth from to bandwidth o ≡ ok o')
        × (r' ≡ record r { observed = o' })
    unfolding observe
    observe_inversion =
        let (o, e1, rest) = >>=-eq-ok (set from to connected r.observed) _ e in
        let (o', e2, rest') = >>=-eq-ok (set_bandwidth from to bandwidth o) _ rest in
        (o, o', e1, e2, ground arith)

    -- After `Observe` the pair has the observed connection and bandwidth, and every other pair has
    -- what it had; what is expected, and the pods, are the same.
    pub observe_lem :
        (f t : Text)
        → (cell r'.observed.values f t
            ≡ (if from == f && to == t then some connected else cell r.observed.values f t))
          × (cell r'.observed.bandwidths f t
              ≡ (if from == f && to == t then some bandwidth else cell r.observed.bandwidths f t))
          × (r'.expected ≡ r.expected)
          × (r'.pods ≡ r.pods)
    observe_lem f t =
        let (o, o', e1, e2, e3) = observe_inversion in
        ground (
          arith,
          cell-set from to connected r.observed o f t e1,
          cell-set_bandwidth from to bandwidth o o' f t e2,
        )

    -- The names of the table of observations stay.
    pub observe_names : (r'.observed.froms ≡ r.observed.froms) × (r'.observed.tos ≡ r.observed.tos)
    observe_names =
        let (o, o', e1, e2, e3) = observe_inversion in
        ground (
          arith,
          cell-set from to connected r.observed o [] [] e1,
          cell-set_bandwidth from to bandwidth o o' [] [] e2,
        )

    pub HasRow-observe : (f : Text) → HasRow f r.observed → HasRow f r'.observed
    HasRow-observe f h =
        let (o, o', e1, e2, e3) = observe_inversion in
        let (m, written, built) = set_bandwidth_inversion from to bandwidth o o' e2 in
        let (_, _, _, same_bandwidths) = cell-set from to connected r.observed o f to e1 in
        let (_, _, _, same_values) = cell-set_bandwidth from to bandwidth o o' f to e2 in
        record {
          values =
              λ k. h.values ((lookup-set from to connected r.observed o f e1).1 (ground arith));
          bandwidths = λ k.
              h.bandwidths
                (ground (arith, lookup-write_cell from to bandwidth o.bandwidths m f written));
        }

  -- `Observe` returns if the table has the source's row.
  pub observe_total :
      (from to : Text) (connected : Bool) (bandwidth : Option B) (r : Reachability B)
      → HasRow from r.observed
      → (r' : Reachability B) × (observe from to connected bandwidth r ≡ ok r')
  unfolding observe
  observe_total from to connected bandwidth r h =
      let (o, e1) = (set_total from to connected r.observed).0 h.values in
      let (_, _, _, same_bandwidths) = cell-set from to connected r.observed o from to e1 in
      let (o', e2) = set_bandwidth_total from to bandwidth o (λ k. h.bandwidths (ground arith)) in
      (record r { observed = o' }, ground arith)
