-- ===== src/Matrix/Round/Finish.antt =====
-- A round between pods with containers always ends, if it measures no bandwidth or can read what is
-- measured.
use k8s_service_validator.Prelude.{false, inl, inr, List, ◌≡◌, is_empty, ◌∙◌, All}
use k8s_service_validator.Prelude.Elem.{All-Elem}
use k8s_service_validator.Kubernetes.Exec.{Remote}
use k8s_service_validator.Matrix.Bandwidth.{Floats, BandwidthResults}
use k8s_service_validator.Matrix.Connect.{Wrapping}
use k8s_service_validator.Matrix.Reachability.{Heap, Reachability}
use k8s_service_validator.Matrix.Reachability.Observe.{HasRow}
use k8s_service_validator.Matrix.Probe.{ProbeJob}
use k8s_service_validator.Matrix.Probe.Total.{PrintsBandwidth, probe_job_total}
use k8s_service_validator.Matrix.Round.{Round, Steps, start, IsDone}
use k8s_service_validator.Matrix.Round.Invariant.{name_from}
use k8s_service_validator.Matrix.Round.Progress.{round_finishes}

-- A job that a worker can always do, and whose result can be recorded.
pub record IsFeasible {B : Type 0} (heap : Heap) (r : Reachability B) (job : ProbeJob)
    : Type 0 where
  pub unmeasured : job.measure_bandwidth ≡ false
  pub populated : is_empty (heap job.pod_from).containers ≡ false
  pub row : HasRow (name_from heap job) r.observed

-- From every state that a round can reach it comes to its end, if none of its jobs measures
-- bandwidth, every source has a container, and every source has a row in the table of
-- observations: no interleaving of the workers hangs or panics.
pub round_finishes_unmeasured :
    (fl : Floats) (remote : Remote) (wrapping : Wrapping) (heap : Heap) (all : List ProbeJob)
    (r : Reachability (BandwidthResults fl)) (w : remote.World) (s : Round fl)
    → All (IsFeasible heap r) all
    → Steps fl remote wrapping (start heap all r) s
    → (t : Round fl) × Steps fl remote wrapping s t × IsDone fl remote wrapping t
round_finishes_unmeasured fl remote wrapping heap all r w s feasible steps =
    round_finishes fl remote wrapping heap all r
      (λ job at. (All-Elem (IsFeasible heap r) all feasible at).row)
      (λ job h at same.
        let f = All-Elem (IsFeasible heap r) all feasible at in
        let (w', h', res, runs) =
          probe_job_total fl remote wrapping 0 job h w (inl f.unmeasured)
            ((same job.pod_from).1 ∙ f.populated) in
        (0, w, w', h', res, runs))
      s steps

-- A job whose result can be recorded.
pub record IsRecordable {B : Type 0} (heap : Heap) (r : Reachability B) (job : ProbeJob)
    : Type 0 where
  pub populated : is_empty (heap job.pod_from).containers ≡ false
  pub row : HasRow (name_from heap job) r.observed

-- From every state that a round can reach it comes to its end, whatever its jobs measure, if every
-- source has a container and a row in the table of observations, and an `iperf` client that ends
-- without an error prints nine fields.
pub round_finishes_measured :
    (fl : Floats) (remote : Remote) (wrapping : Wrapping) (heap : Heap) (all : List ProbeJob)
    (r : Reachability (BandwidthResults fl)) (w : remote.World) (s : Round fl)
    → PrintsBandwidth remote
    → All (IsRecordable heap r) all
    → Steps fl remote wrapping (start heap all r) s
    → (t : Round fl) × Steps fl remote wrapping s t × IsDone fl remote wrapping t
round_finishes_measured fl remote wrapping heap all r w s prints recordable steps =
    round_finishes fl remote wrapping heap all r
      (λ job at. (All-Elem (IsRecordable heap r) all recordable at).row)
      (λ job h at same.
        let f = All-Elem (IsRecordable heap r) all recordable at in
        let (w', h', res, runs) =
          probe_job_total fl remote wrapping 0 job h w (inr prints)
            ((same job.pod_from).1 ∙ f.populated) in
        (0, w, w', h', res, runs))
      s steps
