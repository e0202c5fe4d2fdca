-- ===== src/Matrix/Validate/Complete.antt =====
-- A validation raises no false alarm.
use k8s_service_validator.Prelude.{ℕ, Bool, false, ◌≡◌, refl, subst, ◌∙◌, some}
use k8s_service_validator.Prelude.Elem.{Elem}
use k8s_service_validator.Text.{Text, text_eq}
use k8s_service_validator.Kubernetes.Exec.{Remote}
use k8s_service_validator.Entities.Pod.{pod_string}
use k8s_service_validator.Matrix.Bandwidth.{Floats, BandwidthResults}
use k8s_service_validator.Matrix.Connect.{Wrapping}
use k8s_service_validator.Matrix.TruthTable.{TruthTable, cell, get}
use k8s_service_validator.Matrix.Reachability.{Ref, Heap, TestCase}
use k8s_service_validator.Matrix.Reachability.Summary.{summary_complete}
use k8s_service_validator.Matrix.Validate.{Pods, Validated}
use k8s_service_validator.Matrix.Validate.Sound.{Confirmed, Retry-expected, Retry-Confirmed}

module _ (fl : Floats) (remote : Remote) (wrapping : Wrapping) (pods : Pods) (reach : Bool)
    (heap : Heap) (test : TestCase (BandwidthResults fl)) where
  -- Two pods of the model have these names.
  pub record NamesPods (f t : Text) : Type 0 where
    pub from : Ref
    pub to : Ref
    pub source : Elem from pods.refs
    pub target : Elem to pods.refs
    pub from_name : pod_string (heap from) ≡ f
    pub to_name : pod_string (heap to) ≡ t

  -- If each expected value is for two pods of the model, and whatever a probe of such a pair as the
  -- test case asks for it can find is the expected value, a validation of connectivity that returns
  -- returns 0. The probes are those of the pods as they are at the start, but that a container
  -- without a name may have got one.
  pub no_false_alarm :
      (ignore : Bool) (wrong : ℕ)
      → ((f t : Text) (v : Bool)
          → cell test.reachability.expected.values f t ≡ some v
          → NamesPods f t)
      → ((f t : Text) (v c : Bool)
          → cell test.reachability.expected.values f t ≡ some v
          → Confirmed fl remote wrapping pods reach false heap test f t c
          → c ≡ v)
      → Validated fl remote wrapping pods reach false ignore heap test wrong
      → wrong ≡ 0
  no_false_alarm ignore wrong named honest v =
      let (comparison, summed) = v.counted2 in
      v.returned
      ∙ summary_complete fl ignore false v.case2.reachability v.counts2 comparison summed
          (λ f t val expected not_loop. (agrees f t val expected, refl))
    where
      same_expected : v.case2.reachability.expected ≡ test.reachability.expected
      same_expected =
          Retry-expected fl remote wrapping pods reach false heap v.heap1 v.heap2 test v.case1
            v.case2 v.counts1.false_obs v.first v.second

      agrees :
          (f t : Text) (val : Bool)
          → cell v.case2.reachability.expected.values f t ≡ some val
          → get v.case2.reachability.observed f t ≡ val
      agrees f t val expected =
          let at : cell test.reachability.expected.values f t ≡ some val =
            subst (λ (e : TruthTable (BandwidthResults fl)). cell e.values f t ≡ some val)
              same_expected expected in
          let n = named f t val at in
          let (conf, _) =
            Retry-Confirmed fl remote wrapping pods reach false heap v.heap1 v.heap2 test v.case1
              v.case2 v.counts1.false_obs n.from n.to v.first v.second n.source n.target in
          let conf_f =
            subst
              (λ g.
                Confirmed fl remote wrapping pods reach false heap test g (pod_string (heap n.to))
                  (get v.case2.reachability.observed g (pod_string (heap n.to))))
              n.from_name conf in
          honest f t val (get v.case2.reachability.observed f t) at (
            subst
              (λ g.
                Confirmed fl remote wrapping pods reach false heap test f g
                  (get v.case2.reachability.observed f g))
              n.to_name conf_f)
