-- ===== src/Matrix/Round.antt =====
-- pkg/matrix/probe.go, `ProbePodToPodConnectivity` as it runs: the main goroutine sends the jobs,
-- the workers take and probe them, and the main goroutine receives the results and records them.
-- Both channels have room for every job, so a send never waits. What the cluster answers to one
-- probe is a `World` of its own, so that the answers to different probes may come in any order.
pub mod Invariant
pub mod Preserve
pub mod Progress
pub mod Observed
pub mod Finish
pub mod Sequential
pub mod Inevitable
pub mod Unwritten
use k8s_service_validator.Prelude.{ℕ, ◌-◌, ◌<◌, List, [], ◌∷◌, ◌++◌, ◌≡◌, length}
use k8s_service_validator.Outcome.{ok}
use k8s_service_validator.Kubernetes.Exec.{Remote}
use k8s_service_validator.Entities.Pod.{pod_string}
use k8s_service_validator.Matrix.Bandwidth.{Floats, BandwidthResults}
use k8s_service_validator.Matrix.Connect.{Wrapping}
use k8s_service_validator.Matrix.Reachability.{Ref, Heap, Reachability, observe}
use k8s_service_validator.Matrix.Probe.{ProbeJob, ProbeJobResults, probe_job}

abbrev number_of_workers : ℕ
number_of_workers = 4

-- `for i := 1; i < numberOfWorkers; i++` starts one worker fewer.
abbrev started_workers : ℕ
started_workers = number_of_workers - 1

-- `unsent` are the jobs that the main goroutine has still to send, `jobs` and `results` the two
-- channels, `busy` the jobs that workers hold, and `received` the results read so far, the last
-- one first.
pub record Round (fl : Floats) : Type 0 where
  pub heap : Heap
  pub unsent : List ProbeJob
  pub jobs : List ProbeJob
  pub busy : List ProbeJob
  pub results : List (ProbeJobResults fl)
  pub received : List (ProbeJobResults fl)
  pub reachability : Reachability (BandwidthResults fl)

abbrev pub start :
    {fl : Floats} → Heap → List ProbeJob → Reachability (BandwidthResults fl) → Round fl
start heap jobs r = record {
  heap = heap;
  unsent = jobs;
  jobs = [];
  busy = [];
  results = [];
  received = [];
  reachability = r;
}

module _ (fl : Floats) (remote : Remote) (wrapping : Wrapping) where
  pub data Step (s : Round fl) : Round fl → Type 0 where
    send :
        (job : ProbeJob) (rest : List ProbeJob)
        → s.unsent ≡ job ∷ rest
        → Step s (record s { unsent = rest; jobs = s.jobs ++ job ∷ [] })
    take :
        (job : ProbeJob) (rest : List ProbeJob)
        → s.jobs ≡ job ∷ rest
        → length s.busy < started_workers
        → Step s (record s { jobs = rest; busy = job ∷ s.busy })
    finish :
        (before after : List ProbeJob) (job : ProbeJob) (random : ℕ) (w w' : remote.World)
        (heap : Heap) (res : ProbeJobResults fl)
        → s.busy ≡ before ++ job ∷ after
        → probe_job fl remote wrapping random job s.heap w ≡ ok (res, heap, w')
        → Step s (record s { heap = heap; busy = before ++ after; results = s.results ++ res ∷ [] })
    receive :
        (res : ProbeJobResults fl) (rest : List (ProbeJobResults fl))
        (r : Reachability (BandwidthResults fl))
        → s.unsent ≡ []
        → s.results ≡ res ∷ rest
        → observe
            (pod_string (s.heap res.job.pod_from))
            (pod_string (s.heap res.job.pod_to))
            res.is_connected
            res.bandwidth
            s.reachability
          ≡ ok r
        → Step s (record s { results = rest; received = res ∷ s.received; reachability = r })

  pub data Steps (s : Round fl) : Round fl → Type 0 where
    here : Steps s s
    next : {t u : Round fl} → Steps s t → Step t u → Steps s u

  -- The main goroutine has received a result for each job, and the workers have nothing left.
  pub record IsDone (s : Round fl) : Type 0 where
    pub unsent : s.unsent ≡ []
    pub jobs : s.jobs ≡ []
    pub busy : s.busy ≡ []
    pub results : s.results ≡ []
