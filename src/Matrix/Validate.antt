-- ===== src/Matrix/Validate.antt =====
-- pkg/matrix/helper.go, `ValidateAndMeasureBandwidthOrFail` and `ValidateOrFail`: a round of probes,
-- a second round if the first one counted something wrong, and the count after the last round.
-- Printing the tables has no part in it.
pub mod OfTest
pub mod Sound
pub mod Complete
pub mod Returns
use k8s_service_validator.Prelude.{ℕ, Bool, false, List, ◌≡◌, ◌≢◌}
use k8s_service_validator.Outcome.{ok}
use k8s_service_validator.Text.{Text}
use k8s_service_validator.Kubernetes.Exec.{Remote}
use k8s_service_validator.Matrix.Bandwidth.{Floats, BandwidthResults}
use k8s_service_validator.Matrix.Connect.{Wrapping}
use k8s_service_validator.Matrix.TruthTable.{TruthTable}
use k8s_service_validator.Matrix.Reachability.{Ref, Heap, Reachability, TestCase, Counts, summary}
use k8s_service_validator.Matrix.Probe.{ProbeJob, make_jobs}
use k8s_service_validator.Matrix.Round.{Round, Steps, start, IsDone}

-- The model's pods and its DNS domain, which a round of probes reads.
pub record Pods : Type 0 where
  pub refs : List Ref
  pub dns_domain : Text

module _ (fl : Floats) (remote : Remote) (wrapping : Wrapping) (pods : Pods)
    (reach measure : Bool) where
  abbrev Case : Type 0
  Case = TestCase (BandwidthResults fl)

  -- The jobs of `ProbePodToPodConnectivity` on a heap.
  abbrev pub jobs_on : Heap → Case → List ProbeJob
  jobs_on heap t = make_jobs heap pods.dns_domain t reach measure pods.refs

  -- One call of `ProbePodToPodConnectivity`: some run of a round to its end. It leaves the heap
  -- and, in the test case, the reachability changed.
  pub record Probing (heap : Heap) (t : Case) (heap' : Heap) (t' : Case) : Type 0 where
    pub last : Round fl
    pub steps : Steps fl remote wrapping (start heap (jobs_on heap t) t.reachability) last
    pub done : IsDone fl remote wrapping last
    pub heap_after : heap' ≡ last.heap
    pub case_after : t' ≡ record t { reachability = last.reachability }

  abbrev pub Counted : Bool → Case → Counts → Type 0
  Counted ignore t c =
      (comparison : TruthTable (BandwidthResults fl)) × (summary fl ignore measure t.reachability
        ≡ ok (c, comparison))

  -- The second try, made if the first one was wrong.
  pub data Retry (heap : Heap) (t : Case) (heap' : Heap) (t' : Case) : ℕ → Type 0 where
    enough : {wrong : ℕ} → wrong ≡ 0 → heap' ≡ heap → t' ≡ t → Retry heap t heap' t' wrong
    again : {wrong : ℕ} → wrong ≢ 0 → Probing heap t heap' t' → Retry heap t heap' t' wrong

  -- A call of `ValidateAndMeasureBandwidthOrFail` that returns `wrong`.
  pub record Validated (ignore : Bool) (heap : Heap) (t : Case) (wrong : ℕ) : Type 0 where
    pub heap1 : Heap
    pub case1 : Case
    pub first : Probing heap t heap1 case1
    pub counts1 : Counts
    pub counted1 : Counted ignore case1 counts1
    pub heap2 : Heap
    pub case2 : Case
    pub second : Retry heap1 case1 heap2 case2 counts1.false_obs
    pub counts2 : Counts
    pub counted2 : Counted ignore case2 counts2
    pub returned : wrong ≡ counts2.false_obs

module _ (fl : Floats) (remote : Remote) (wrapping : Wrapping) (pods : Pods) (reach : Bool) where
  -- `ValidateOrFail` measures no bandwidth.
  abbrev ValidatedOrFail : Bool → Heap → TestCase (BandwidthResults fl) → ℕ → Type 0
  ValidatedOrFail = Validated fl remote wrapping pods reach false
