-- ===== src/Matrix/Round/Inevitable.antt =====
-- What every run of a round comes to, whatever the order of its steps.
use k8s_service_validator.Prelude.{
  ◌∷◌, ◌⊎◌, sym, subst, ℕ, zero, suc, ◌≤◌, List, ◌≡◌, inl, inr, arith, ◌∙◌, All,
}
use k8s_service_validator.Prelude.Elem.{Elem, All-Elem}
use k8s_service_validator.Outcome.{ok}
use k8s_service_validator.Kubernetes.Exec.{Remote}
use k8s_service_validator.Entities.Pod.{pod_string}
use k8s_service_validator.Matrix.Bandwidth.{Floats, BandwidthResults}
use k8s_service_validator.Matrix.Connect.{Wrapping}
use k8s_service_validator.Matrix.Reachability.{Heap, Reachability, observe}
use k8s_service_validator.Matrix.Reachability.Observe.{HasRow, observe_total}
use k8s_service_validator.Matrix.Probe.{ProbeJob, ProbeJobResults, probe_job}
use k8s_service_validator.Matrix.Probe.Filled.{OnlyContainers, pod_string-OnlyContainers}
use k8s_service_validator.Matrix.Probe.Total.{probe_job_total}
use k8s_service_validator.Matrix.Round.{Round, Step, Steps, here, next, start, IsDone}
use k8s_service_validator.Matrix.Round.Invariant.{name_from, Valid, Inv-start}
use k8s_service_validator.Matrix.Round.Preserve.{Steps-Inv}
use k8s_service_validator.Matrix.Round.Finish.{IsFeasible}
use k8s_service_validator.Matrix.Round.Progress.{steps_left, Step-steps_left, round_progress}

module _ (fl : Floats) (remote : Remote) (wrapping : Wrapping) where
  -- Nothing panics in this state: no probe that a worker has taken, whatever the cluster answers,
  -- and not the recording of the first result.
  pub record NoPanic (s : Round fl) : Type 0 where
    pub probes :
        (job : ProbeJob) (random : ℕ) (w : remote.World)
        → Elem job s.busy
        → (w' : remote.World) × (h' : Heap) × (res : ProbeJobResults fl) × (probe_job fl remote
              wrapping random job s.heap w
            ≡ ok (res, h', w'))
    pub records :
        (res : ProbeJobResults fl) (rest : List (ProbeJobResults fl))
        → s.results ≡ res ∷ rest
        → (r : Reachability (BandwidthResults fl)) × (observe
              (pod_string (s.heap res.job.pod_from))
              (pod_string (s.heap res.job.pod_to))
              res.is_connected
              res.bandwidth
              s.reachability
            ≡ ok r)

  -- Whichever steps are made from here, the round comes to its end, in a state with the property:
  -- it is at its end now, or nothing panics, there is a step, and after each step that there may be
  -- it is so.
  pub data Inevitable (P : Round fl → Type 0) : Round fl → Type 0 where
    ended : {s : Round fl} → IsDone fl remote wrapping s → P s → Inevitable P s
    goes_on :
        {s : Round fl}
        → NoPanic s
        → ((t : Round fl) × Step fl remote wrapping s t)
        → ((t : Round fl) → Step fl remote wrapping s t → Inevitable P t)
        → Inevitable P s

  -- Then there is such an end.
  pub Inevitable-some :
      {P : Round fl → Type 0} {s : Round fl} → Inevitable P s → (t : Round fl) × P t
  Inevitable-some {s = s} (ended done p) = (s, p)
  Inevitable-some (goes_on safe (t, step) all) = Inevitable-some (all t step)

  module _ (heap : Heap) (all : List ProbeJob) (r : Reachability (BandwidthResults fl))
      (w0 : remote.World)
      (rows : (job : ProbeJob) → Elem job all → HasRow (name_from heap job) r.observed)
      (answers : (random : ℕ) (w : remote.World) (job : ProbeJob) (h : Heap)
        → Elem job all
        → OnlyContainers heap h
        → (w' : remote.World) × (h' : Heap) × (res : ProbeJobResults fl) × (probe_job fl remote
              wrapping random job h w
            ≡ ok (res, h', w'))) where
    Steps-NoPanic : (s : Round fl) → Steps fl remote wrapping (start heap all r) s → NoPanic s
    Steps-NoPanic s steps =
        let i =
          Steps-Inv fl remote wrapping heap all r steps (Inv-start fl remote wrapping heap all r) in
        record {
          probes = λ job random w at. answers random w job s.heap (i.known_busy job at) i.same;
          records = λ res rest e.
              (let (valid, _) = subst (All (Valid fl remote wrapping heap all r)) e i.results in
                let same = pod_string-OnlyContainers heap s.heap res.job.pod_from i.same in
                let row = i.rows (name_from heap res.job) (rows res.job valid.job) in
                observe_total (pod_string (s.heap res.job.pod_from))
                  (pod_string (s.heap res.job.pod_to)) res.is_connected res.bandwidth s.reachability
                  (subst (λ f. HasRow f s.reachability.observed) (sym same) row));
        }

    progress :
        (s : Round fl)
        → Steps fl remote wrapping (start heap all r) s
        → IsDone fl remote wrapping s ⊎ ((t : Round fl) × Step fl remote wrapping s t)
    progress s steps =
        round_progress fl remote wrapping heap all r rows
          (λ job h at same.
            let (w', h', res, runs) = answers 0 w0 job h at same in (0, w0, w', h', res, runs))
          s steps

    module _ (P : Round fl → Type 0)
        (at_end : (s : Round fl)
          → Steps fl remote wrapping (start heap all r) s
          → IsDone fl remote wrapping s
          → P s) where
      by_fuel :
          (fuel : ℕ) (s : Round fl)
          → steps_left s ≤ fuel
          → Steps fl remote wrapping (start heap all r) s
          → Inevitable P s
      by_fuel zero s enough steps = elim (progress s steps) [
        | inl done ↦ ended done (at_end s steps done)
        | inr (t, step) ↦ absurd (omega (arith, Step-steps_left fl remote wrapping step))
      ]
      by_fuel (suc fuel) s enough steps = elim (progress s steps) [
        | inl done ↦ ended done (at_end s steps done)
        | inr more ↦ goes_on (Steps-NoPanic s steps) more λ t step.
            by_fuel fuel t (omega (arith, Step-steps_left fl remote wrapping step))
              (next steps step)
      ]

      -- If each source has its row and each probe returns, every run of a round comes to its end.
      round_always_ends : Inevitable P (start heap all r)
      round_always_ends =
          by_fuel (steps_left (start heap all r)) (start heap all r) (omega arith) here

  -- So if none of its jobs measures bandwidth, and every source has a container and a row.
  pub round_always_ends_unmeasured :
      (heap : Heap) (all : List ProbeJob) (r : Reachability (BandwidthResults fl))
      (w : remote.World) (P : Round fl → Type 0)
      → All (IsFeasible heap r) all
      → ((s : Round fl)
          → Steps fl remote wrapping (start heap all r) s
          → IsDone fl remote wrapping s
          → P s)
      → Inevitable P (start heap all r)
  round_always_ends_unmeasured heap all r w P feasible at_end =
      round_always_ends heap all r w (λ job at. (All-Elem (IsFeasible heap r) all feasible at).row)
        (λ random w' job h at same.
          let f = All-Elem (IsFeasible heap r) all feasible at in
          probe_job_total fl remote wrapping random job h w' (inl f.unmeasured)
            ((same job.pod_from).1 ∙ f.populated))
        P at_end
