-- ===== src/Matrix/Round/Invariant.antt =====
-- What holds in every state of a round, whatever the order of its steps.
use k8s_service_validator.Prelude.{
  Bool, ◌&&◌, List, [], ◌∷◌, ◌≡◌, refl, map, Option, none, some, ◌==◌, All, if◌then◌else◌,
}
use k8s_service_validator.Text.{Text, text_eq}
use k8s_service_validator.Kubernetes.Exec.{Remote}
use k8s_service_validator.Entities.Pod.{pod_string}
use k8s_service_validator.Matrix.Bandwidth.{Floats, BandwidthResults}
use k8s_service_validator.Matrix.Connect.{Wrapping}
use k8s_service_validator.Matrix.TruthTable.{cell}
use k8s_service_validator.Matrix.Reachability.{Heap, Reachability}
use k8s_service_validator.Matrix.Reachability.Observe.{HasRow}
use k8s_service_validator.Matrix.Probe.{ProbeJob, ProbeJobResults}
use k8s_service_validator.Matrix.Probe.Filled.{OnlyContainers, OnlyContainers-refl}
use k8s_service_validator.Matrix.Probe.Job.{Probed}
use k8s_service_validator.Matrix.Round.{Round, start}
use k8s_service_validator.Prelude.Elem.{Elem, not-Elem-nil}

-- The pods that a job goes between, by their names at the start of the round.
abbrev pub name_from : Heap → ProbeJob → Text
name_from heap job = pod_string (heap job.pod_from)

abbrev pub name_to : Heap → ProbeJob → Text
name_to heap job = pod_string (heap job.pod_to)

module _ {fl : Floats} where
  -- The last result received for a pair of names, the list having the last one first.
  unfoldable pub latest :
      Heap → List (ProbeJobResults fl) → Text → Text → Option (ProbeJobResults fl)
  latest heap [] f t = none
  latest heap (res ∷ received) f t =
      if name_from heap res.job == f && name_to heap res.job == t
      then some res
      else latest heap received f t

  abbrev pub connection : Option (ProbeJobResults fl) → Option Bool → Option Bool
  connection none before = before
  connection (some res) before = some res.is_connected

  abbrev bandwidth_of :
      Option (ProbeJobResults fl)
      → Option (Option (BandwidthResults fl))
      → Option (Option (BandwidthResults fl))
  bandwidth_of none before = before
  bandwidth_of (some res) before = some res.bandwidth

  -- Where a job stands in a round.
  pub data Somewhere (s : Round fl) (job : ProbeJob) : Type 0 where
    unsent : Elem job s.unsent → Somewhere s job
    queued : Elem job s.jobs → Somewhere s job
    busy : Elem job s.busy → Somewhere s job
    answered : Elem job (map (λ r. r.job) s.results) → Somewhere s job
    received : Elem job (map (λ r. r.job) s.received) → Somewhere s job

module _ (fl : Floats) (remote : Remote) (wrapping : Wrapping) (heap0 : Heap) (all : List ProbeJob)
    (r0 : Reachability (BandwidthResults fl)) where
  -- A result that a job of the round was given, on a heap with the names of the start.
  pub record Valid (res : ProbeJobResults fl) : Type 0 where
    pub heap : Heap
    pub same : OnlyContainers heap0 heap
    pub probed : Probed fl remote wrapping heap res.job res
    pub job : Elem res.job all

  pub record Inv (s : Round fl) : Type 0 where
    pub same : OnlyContainers heap0 s.heap
    pub covered : (job : ProbeJob) → Elem job all → Somewhere s job
    pub known_unsent : (job : ProbeJob) → Elem job s.unsent → Elem job all
    pub known_jobs : (job : ProbeJob) → Elem job s.jobs → Elem job all
    pub known_busy : (job : ProbeJob) → Elem job s.busy → Elem job all
    pub results : All Valid s.results
    pub received : All Valid s.received
    pub connections :
        (f t : Text)
        → cell s.reachability.observed.values f t
          ≡ connection (latest heap0 s.received f t) (cell r0.observed.values f t)
    pub bandwidths :
        (f t : Text)
        → cell s.reachability.observed.bandwidths f t
          ≡ bandwidth_of (latest heap0 s.received f t) (cell r0.observed.bandwidths f t)
    pub expected : s.reachability.expected ≡ r0.expected
    pub pods : s.reachability.pods ≡ r0.pods
    pub rows : (f : Text) → HasRow f r0.observed → HasRow f s.reachability.observed

  pub Inv-start : Inv (start heap0 all r0)
  Inv-start = record {
    same = OnlyContainers-refl heap0;
    covered = λ job e. unsent e;
    known_unsent = λ job e. e;
    known_jobs = λ job e. absurd (not-Elem-nil e);
    known_busy = λ job e. absurd (not-Elem-nil e);
    results = tt;
    received = tt;
    connections = λ f t. unfold latest in refl;
    bandwidths = λ f t. unfold latest in refl;
    expected = refl;
    pods = refl;
    rows = λ f h. h;
  }
