-- ===== src/Matrix/Validate/Sound.antt =====
-- A validation that returns 0 has seen every expectation confirmed by a probe.
use k8s_service_validator.Prelude.{
  ℕ, Bool, false, ◌&&◌, ◌≡◌, sym, ap, ◌∙◌, subst, some, arith, ◌==◌,
}
use k8s_service_validator.Text.{Text, text_eq}
use k8s_service_validator.Kubernetes.Exec.{Remote}
use k8s_service_validator.Entities.Pod.{pod_string}
use k8s_service_validator.Matrix.Bandwidth.{Floats, BandwidthResults}
use k8s_service_validator.Matrix.Connect.{Wrapping}
use k8s_service_validator.Matrix.TruthTable.{cell, get}
use k8s_service_validator.Matrix.Reachability.{Ref, Heap, TestCase, Reachability}
use k8s_service_validator.Matrix.Reachability.Summary.{summary_sound}
use k8s_service_validator.Matrix.Probe.{ProbeJobResults, make_job}
use k8s_service_validator.Matrix.Probe.Filled.{
  OnlyContainers, OnlyContainers-trans, pod_string-OnlyContainers,
}
use k8s_service_validator.Matrix.Probe.Job.{Probed}
use k8s_service_validator.Matrix.Probe.Jobs.{make_jobs_complete, job_for_pods}
use k8s_service_validator.Prelude.Elem.{Elem}
use k8s_service_validator.Matrix.Round.Invariant.{name_from, name_to, Inv-start}
use k8s_service_validator.Matrix.Round.Preserve.{Steps-Inv}
use k8s_service_validator.Matrix.Round.Observed.{round_records}
use k8s_service_validator.Matrix.Validate.OfTest.{OfTest, make_jobs-OfTest, OfTest-earlier}
use k8s_service_validator.Matrix.Validate.{Pods, Probing, Retry, enough, again, Validated, jobs_on}

module _ (fl : Floats) (remote : Remote) (wrapping : Wrapping) (pods : Pods)
    (reach measure : Bool) where
  -- A probe of a pair of pod names as the test case asks for it, on a heap on which the pods have
  -- the names of the start.
  pub record Confirmed (heap : Heap) (test : TestCase (BandwidthResults fl)) (f t : Text)
      (connected : Bool) : Type 0 where
    pub result : ProbeJobResults fl
    pub of_test : OfTest pods reach measure heap test result.job
    pub from : name_from heap result.job ≡ f
    pub to : name_to heap result.job ≡ t
    pub heap' : Heap
    pub same : OnlyContainers heap heap'
    pub probed : Probed fl remote wrapping heap' result.job result
    pub connection : result.is_connected ≡ connected

  pub Probing-OnlyContainers :
      (heap heap' : Heap) (t t' : TestCase (BandwidthResults fl))
      → Probing fl remote wrapping pods reach measure heap t heap' t'
      → OnlyContainers heap heap' × (t'.reachability.expected ≡ t.reachability.expected)
  Probing-OnlyContainers heap heap' t t' p =
      let i =
        Steps-Inv fl remote wrapping heap (jobs_on fl remote wrapping pods reach measure heap t)
          t.reachability p.steps
          (Inv-start fl remote wrapping heap (jobs_on fl remote wrapping pods reach measure heap t)
            t.reachability) in
      (
        subst (OnlyContainers heap) (sym p.heap_after) i.same,
        ap (λ (c : TestCase (BandwidthResults fl)). c.reachability.expected) p.case_after
            ∙ i.expected,
      )

  -- Neither the first round nor a second one changes what is expected.
  pub Retry-expected :
      (heap heap1 heap2 : Heap) (t t1 t2 : TestCase (BandwidthResults fl)) (n : ℕ)
      → Probing fl remote wrapping pods reach measure heap t heap1 t1
      → Retry fl remote wrapping pods reach measure heap1 t1 heap2 t2 n
      → t2.reachability.expected ≡ t.reachability.expected
  Retry-expected heap heap1 heap2 t t1 t2 n p (enough zero_wrong same_heap same_case) =
      ap (λ (c : TestCase (BandwidthResults fl)). c.reachability.expected) same_case
      ∙ (Probing-OnlyContainers heap heap1 t t1 p).1
  Retry-expected heap heap1 heap2 t t1 t2 n p (again wrong1 p') =
      (Probing-OnlyContainers heap1 heap2 t1 t2 p').1 ∙ (Probing-OnlyContainers heap heap1 t t1 p).1

  pub Probing-Confirmed :
      (heap heap' : Heap) (t t' : TestCase (BandwidthResults fl)) (a b : Ref)
      → Probing fl remote wrapping pods reach measure heap t heap' t'
      → Elem a pods.refs
      → Elem b pods.refs
      → Confirmed heap t
          (pod_string (heap a))
          (pod_string (heap b))
          (get t'.reachability.observed (pod_string (heap a)) (pod_string (heap b)))
  Probing-Confirmed heap heap' t t' a b p ea eb =
      let jobs = jobs_on fl remote wrapping pods reach measure heap t in
      let job = make_job heap pods.dns_domain t reach measure a b in
      let at = make_jobs_complete heap pods.dns_domain t reach measure pods.refs a b ea eb in
      let rec =
        round_records fl remote wrapping heap jobs t.reachability p.last job p.steps p.done at in
      let (is_a, is_b) = job_for_pods heap pods.dns_domain t reach measure a b in
      let at_a = ap (λ (q : Ref). pod_string (heap q)) is_a in
      let at_b = ap (λ (q : Ref). pod_string (heap q)) is_b in
      record {
        result = rec.result;
        of_test = make_jobs-OfTest pods reach measure heap t rec.result.job rec.of_round;
        from = rec.from ∙ at_a;
        to = rec.to ∙ at_b;
        heap' = rec.heap';
        same = rec.same;
        probed = rec.probed;
        connection = unfold get in ground (arith, rec.connection, at_a, at_b, p.case_after);
      }

  -- The names of the start, seen from a later heap.
  pub Confirmed-earlier :
      (heap heap1 : Heap) (test : TestCase (BandwidthResults fl))
      (r : Reachability (BandwidthResults fl)) (f t : Text) (c : Bool)
      → OnlyContainers heap heap1
      → Confirmed heap1 (record test { reachability = r }) f t c
      → Confirmed heap test f t c
  Confirmed-earlier heap heap1 test r f t c h conf = record {
    result = conf.result;
    of_test = OfTest-earlier pods reach measure heap heap1 test r conf.result.job h conf.of_test;
    from = sym (pod_string-OnlyContainers heap heap1 conf.result.job.pod_from h) ∙ conf.from;
    to = sym (pod_string-OnlyContainers heap heap1 conf.result.job.pod_to h) ∙ conf.to;
    heap' = conf.heap';
    same = OnlyContainers-trans heap heap1 conf.heap' h conf.same;
    probed = conf.probed;
    connection = conf.connection;
  }

  -- After the last round, first or second, each pair of pods has what a probe of it found, and
  -- what is expected is as before the validation.
  pub Retry-Confirmed :
      (heap heap1 heap2 : Heap) (t t1 t2 : TestCase (BandwidthResults fl)) (n : ℕ) (a b : Ref)
      → Probing fl remote wrapping pods reach measure heap t heap1 t1
      → Retry fl remote wrapping pods reach measure heap1 t1 heap2 t2 n
      → Elem a pods.refs
      → Elem b pods.refs
      → Confirmed heap t
          (pod_string (heap a))
          (pod_string (heap b))
          (get t2.reachability.observed (pod_string (heap a)) (pod_string (heap b)))
        × (t2.reachability.expected ≡ t.reachability.expected)
  Retry-Confirmed heap heap1 heap2 t t1 t2 n a b p (enough zero_wrong same_heap same_case) ea eb =
      subst
        (λ (c : TestCase (BandwidthResults fl)).
          Confirmed heap t (pod_string (heap a)) (pod_string (heap b))
            (get c.reachability.observed (pod_string (heap a)) (pod_string (heap b)))
          × (c.reachability.expected ≡ t.reachability.expected))
        (sym same_case)
        (
          Probing-Confirmed heap heap1 t t1 a b p ea eb,
          (Probing-OnlyContainers heap heap1 t t1 p).1,
        )
  Retry-Confirmed heap heap1 heap2 t t1 t2 n a b p (again wrong1 p') ea eb =
      let (h, expected1) = Probing-OnlyContainers heap heap1 t t1 p in
      let (_, expected2) = Probing-OnlyContainers heap1 heap2 t1 t2 p' in
      let seen = get t2.reachability.observed in
      let as_before : t1 ≡ record t { reachability = p.last.reachability } = p.case_after in
      let conf =
        subst
          (λ c.
            Confirmed heap1 c (pod_string (heap1 a)) (pod_string (heap1 b))
              (seen (pod_string (heap1 a)) (pod_string (heap1 b))))
          as_before (Probing-Confirmed heap1 heap2 t1 t2 a b p' ea eb) in
      let test1 = record t { reachability = p.last.reachability } in
      let conf_a =
        subst (λ f. Confirmed heap1 test1 f (pod_string (heap1 b)) (seen f (pod_string (heap1 b))))
          (pod_string-OnlyContainers heap heap1 a h) conf in
      let conf_ab =
        subst (λ f. Confirmed heap1 test1 (pod_string (heap a)) f (seen (pod_string (heap a)) f))
          (pod_string-OnlyContainers heap heap1 b h) conf_a in
      (
        Confirmed-earlier heap heap1 t p.last.reachability (pod_string (heap a))
            (pod_string (heap b)) (seen (pod_string (heap a)) (pod_string (heap b))) h conf_ab,
        expected2 ∙ expected1,
      )

  -- If a validation returns 0, each expected value of a pair of the model's pods that is no ignored
  -- loopback is what a probe of that pair found, by the protocol, the kind of service and the port
  -- that the test case asks for.
  pub Validated-Confirmed :
      (ignore : Bool) (heap : Heap) (t : TestCase (BandwidthResults fl)) (wrong : ℕ) (a b : Ref)
      (expected : Bool)
      → Validated fl remote wrapping pods reach measure ignore heap t wrong
      → wrong ≡ 0
      → Elem a pods.refs
      → Elem b pods.refs
      → cell t.reachability.expected.values (pod_string (heap a)) (pod_string (heap b))
        ≡ some expected
      → (ignore && pod_string (heap a) == pod_string (heap b)) ≡ false
      → Confirmed heap t (pod_string (heap a)) (pod_string (heap b)) expected
  Validated-Confirmed ignore heap t wrong a b expected v zero_wrong ea eb at not_loop =
      let f = pod_string (heap a) in
      let to = pod_string (heap b) in
      let (conf, same_expected) =
        Retry-Confirmed heap v.heap1 v.heap2 t v.case1 v.case2 v.counts1.false_obs a b v.first
          v.second ea eb in
      let (comparison, summed) = v.counted2 in
      let (agrees, _) =
        summary_sound fl ignore measure v.case2.reachability v.counts2 comparison f to expected
          summed (sym v.returned ∙ zero_wrong) (rw same_expected at) not_loop in
      subst (Confirmed heap t f to) agrees conf
