-- ===== src/Matrix/Validate/Returns.antt =====
-- A validation that measures no bandwidth returns: each of its rounds comes to its end, and its
-- summaries do not panic.
use k8s_service_validator.Prelude.{
  ℕ, arith, ◌==◌, eq_iff, inl, inr, Bool-cases, ◌≤◌, ◌≢◌, All, Bool, false, [], ◌≡◌, refl, sym, ◌∙◌,
  subst, is_empty, length, nat_eq,
}
use k8s_service_validator.Prelude.Elem.{Elem, Elem-All}
use k8s_service_validator.Kubernetes.Exec.{Remote}
use k8s_service_validator.Entities.Pod.{pod_string}
use k8s_service_validator.Matrix.Bandwidth.{Floats, BandwidthResults}
use k8s_service_validator.Matrix.Connect.{Wrapping}
use k8s_service_validator.Matrix.TruthTable.Compare.{compare_tables_lem}
use k8s_service_validator.Matrix.Reachability.{Ref, Heap, TestCase, Counts, summary}
use k8s_service_validator.Matrix.Reachability.Observe.{HasRow, observe_names}
use k8s_service_validator.Matrix.Probe.{ProbeJob}
use k8s_service_validator.Matrix.Probe.Filled.{pod_string-OnlyContainers}
use k8s_service_validator.Matrix.Round.{
  Round, Step, Steps, send, take, finish, receive, next, start,
}
use k8s_service_validator.Matrix.Round.Invariant.{Inv-start}
use k8s_service_validator.Matrix.Round.Preserve.{Steps-Inv}
use k8s_service_validator.Matrix.Round.Finish.{IsFeasible}
use k8s_service_validator.Matrix.Round.Inevitable.{
  Inevitable, Inevitable-some, round_always_ends_unmeasured,
}
use k8s_service_validator.Matrix.Validate.{
  Pods, Probing, Counted, enough, again, Validated, jobs_on,
}
use k8s_service_validator.Matrix.Validate.OfTest.{OfTest, make_jobs-OfTest}

module _ (fl : Floats) (remote : Remote) (wrapping : Wrapping) where
  -- A round leaves the names of the table of observations as they are.
  Step-names :
      {s t : Round fl}
      → Step fl remote wrapping s t
      → (t.reachability.observed.froms ≡ s.reachability.observed.froms)
        × (t.reachability.observed.tos ≡ s.reachability.observed.tos)
  Step-names (send job rest e) = (refl, refl)
  Step-names (take job rest e free) = (refl, refl)
  Step-names (finish before after job random w w' heap res e runs) = (refl, refl)
  Step-names {s = s} (receive res rest r sent e seen) =
      observe_names (pod_string (s.heap res.job.pod_from)) (pod_string (s.heap res.job.pod_to))
        res.is_connected res.bandwidth s.reachability r seen

  Steps-names :
      {s t : Round fl}
      → Steps fl remote wrapping s t
      → (t.reachability.observed.froms ≡ s.reachability.observed.froms)
        × (t.reachability.observed.tos ≡ s.reachability.observed.tos)
  Steps-names Steps.here = (refl, refl)
  Steps-names (next steps step) =
      let (froms, tos) = Steps-names steps in
      let (froms', tos') = Step-names step in (froms' ∙ froms, tos' ∙ tos)

  module _ (pods : Pods) (reach : Bool) where
    -- What a validation needs of the pods and of its reachability.
    pub record IsPrepared (heap : Heap) (t : TestCase (BandwidthResults fl)) : Type 0 where
      pub populated : (a : Ref) → Elem a pods.refs → is_empty (heap a).containers ≡ false
      pub rows : (a : Ref) → Elem a pods.refs → HasRow (pod_string (heap a)) t.reachability.observed
      pub froms : length t.reachability.expected.froms ≤ length t.reachability.observed.froms
      pub tos : length t.reachability.expected.tos ≤ length t.reachability.observed.tos

    job-IsFeasible :
        (heap : Heap) (t : TestCase (BandwidthResults fl))
        → IsPrepared heap t
        → (job : ProbeJob) → OfTest pods reach false heap t job
        → IsFeasible heap t.reachability job
    job-IsFeasible heap t p job o = record {
      unmeasured = o.measure_bandwidth;
      populated = p.populated job.pod_from o.source;
      row = p.rows job.pod_from o.source;
    }

    -- The test case after a round.
    abbrev pub after : TestCase (BandwidthResults fl) → Round fl → TestCase (BandwidthResults fl)
    after t last = record t { reachability = last.reachability }

    feasible :
        (heap : Heap) (t : TestCase (BandwidthResults fl))
        → IsPrepared heap t
        → All (IsFeasible heap t.reachability) (jobs_on fl remote wrapping pods reach false heap t)
    feasible heap t p =
        Elem-All (IsFeasible heap t.reachability)
          (jobs_on fl remote wrapping pods reach false heap t)
          λ job at. job-IsFeasible heap t p job (make_jobs-OfTest pods reach false heap t job at)

    -- A round from a state that is prepared leaves one that is prepared.
    Steps-IsPrepared :
        (heap : Heap) (t : TestCase (BandwidthResults fl)) (last : Round fl)
        → IsPrepared heap t
        → Steps fl remote wrapping
            (start heap (jobs_on fl remote wrapping pods reach false heap t) t.reachability)
            last
        → IsPrepared last.heap (after t last)
    Steps-IsPrepared heap t last p steps =
        let jobs = jobs_on fl remote wrapping pods reach false heap t in
        let i =
          Steps-Inv fl remote wrapping heap jobs t.reachability steps
            (Inv-start fl remote wrapping heap jobs t.reachability) in
        let (froms, tos) = Steps-names steps in
        record {
          populated = λ a at. (i.same a).1 ∙ p.populated a at;
          rows = λ a at.
              subst (λ f. HasRow f last.reachability.observed)
                (sym (pod_string-OnlyContainers heap last.heap a i.same))
                (i.rows (pod_string (heap a)) (p.rows a at));
          froms = rw i.expected (rw froms p.froms);
          tos = rw i.expected (rw tos p.tos);
        }

    -- Whatever the interleaving, a call of `ProbePodToPodConnectivity` ends, in a state from which
    -- the program goes on as the property says.
    abbrev pub ProbingEnds :
        Heap
        → TestCase (BandwidthResults fl)
        → (Heap → TestCase (BandwidthResults fl) → Type 0)
        → Type 0
    ProbingEnds heap t K =
        Inevitable fl remote wrapping (λ last. K last.heap (after t last))
          (start heap (jobs_on fl remote wrapping pods reach false heap t) t.reachability)

    pub Probing-ends :
        (heap : Heap) (t : TestCase (BandwidthResults fl)) (w : remote.World)
        (K : Heap → TestCase (BandwidthResults fl) → Type 0)
        → IsPrepared heap t
        → ((heap' : Heap) (t' : TestCase (BandwidthResults fl))
            → Probing fl remote wrapping pods reach false heap t heap' t'
            → IsPrepared heap' t'
            → K heap' t')
        → ProbingEnds heap t K
    Probing-ends heap t w K p go =
        round_always_ends_unmeasured fl remote wrapping heap
          (jobs_on fl remote wrapping pods reach false heap t) t.reachability w
          (λ last. K last.heap (after t last)) (feasible heap t p)
          λ last steps done.
            go last.heap (after t last)
              (record {
                last = last;
                steps = steps;
                done = done;
                heap_after = refl;
                case_after = refl;
              })
              (Steps-IsPrepared heap t last p steps)

    pub Counted-total :
        (ignore : Bool) (heap : Heap) (t : TestCase (BandwidthResults fl))
        → IsPrepared heap t
        → (c : Counts) × Counted fl remote wrapping pods reach false ignore t c
    unfolding summary
    Counted-total ignore heap t p =
        let (result, compared, _, _) =
          compare_tables_lem t.reachability.expected t.reachability.observed [] [] p.froms p.tos in
        rw compared (_, (_, refl))

    -- The summary of a round is made, and the program goes on with its count of wrong observations.
    abbrev pub SummaryMade :
        Bool
        → (Heap → TestCase (BandwidthResults fl) → ℕ → Type 0)
        → Heap
        → TestCase (BandwidthResults fl)
        → Type 0
    SummaryMade ignore K heap t =
        (c : Counts) × Counted fl remote wrapping pods reach false ignore t c × K heap t c.false_obs

    -- A second round and its summary, if the first round was wrong.
    abbrev RetryEnds : Bool → (ℕ → Type 0) → Heap → TestCase (BandwidthResults fl) → ℕ → Type 0
    RetryEnds ignore K heap t wrong =
        (wrong ≡ 0 → K 0)
        × (wrong ≢ 0 → ProbingEnds heap t (SummaryMade ignore (λ heap' t' wrong'. K wrong')))

    -- Whatever the interleavings, a call of `ValidateOrFail` returns: the first round ends, its
    -- summary is made, and if it counts something wrong, so it is with a second round. The number
    -- returned is the last count of wrong observations.
    abbrev pub AlwaysReturns : Bool → Heap → TestCase (BandwidthResults fl) → (ℕ → Type 0) → Type 0
    AlwaysReturns ignore heap t K = ProbingEnds heap t (SummaryMade ignore (RetryEnds ignore K))

    -- If each pod has a container, each pod's name has a row for its observations, and as many names
    -- are observed as expected, a validation that measures no bandwidth returns, whatever the
    -- interleavings of its rounds: no run of it hangs or panics.
    pub validation_returns :
        (ignore : Bool) (heap : Heap) (t : TestCase (BandwidthResults fl)) (w : remote.World)
        → IsPrepared heap t
        → AlwaysReturns ignore heap t
            (λ wrong. Validated fl remote wrapping pods reach false ignore heap t wrong)
    validation_returns ignore heap t w p =
        let Result : ℕ → Type 0 =
          λ wrong. Validated fl remote wrapping pods reach false ignore heap t wrong in
        Probing-ends heap t w (SummaryMade ignore (RetryEnds ignore Result)) p λ heap1 t1 first p1.
          (let (c, counted) = Counted-total ignore heap1 t1 p1 in
            (
              c,
              counted,
              (
                λ right. record {
                  heap1 = heap1;
                  case1 = t1;
                  first = first;
                  counts1 = c;
                  counted1 = counted;
                  heap2 = heap1;
                  case2 = t1;
                  second = enough right refl refl;
                  counts2 = c;
                  counted2 = counted;
                  returned = sym right;
                },
                λ wrong.
                    Probing-ends heap1 t1 w (SummaryMade ignore (λ heap' t' wrong'. Result wrong'))
                      p1
                      λ heap2 t2 second p2.
                        (let (c', counted') = Counted-total ignore heap2 t2 p2 in
                          (
                            c',
                            counted',
                            record {
                              heap1 = heap1;
                              case1 = t1;
                              first = first;
                              counts1 = c;
                              counted1 = counted;
                              heap2 = heap2;
                              case2 = t2;
                              second = again wrong second;
                              counts2 = c';
                              counted2 = counted';
                              returned = refl;
                            },
                          )),
              ),
            ))

    -- So there is a run of it.
    pub some_validation :
        (ignore : Bool) (heap : Heap) (t : TestCase (BandwidthResults fl)) (K : ℕ → Type 0)
        → AlwaysReturns ignore heap t K
        → (wrong : ℕ) × K wrong
    some_validation ignore heap t K ends =
        let first = (Inevitable-some fl remote wrapping ends).1 in
        elim (Bool-cases (first.0.false_obs == 0)) [
          | inl right ↦ (0, first.2.0 ((eq_iff first.0.false_obs 0).0 right))
          | inr wrong ↦
              let second =
                (Inevitable-some fl remote wrapping
                  (first.2.1 (λ e. ground (arith, eq_iff first.0.false_obs 0)))).1 in
              (second.0.false_obs, second.2)
        ]
