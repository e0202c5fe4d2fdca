-- ===== src/Matrix/Round/Progress.antt =====
-- A round never hangs: it takes a fixed number of steps, and until it is done there is a next one.
use k8s_service_validator.Prelude.{
  All, ℕ, zero, suc, ◌+◌, ◌*◌, ◌≤◌, List, [], ◌∷◌, ◌++◌, ◌≡◌, ◌⊎◌, inl, inr, refl, sym, subst,
  arith, length, length-append,
}
use k8s_service_validator.Outcome.{ok}
use k8s_service_validator.Kubernetes.Exec.{Remote}
use k8s_service_validator.Entities.Pod.{pod_string}
use k8s_service_validator.Matrix.Bandwidth.{Floats, BandwidthResults}
use k8s_service_validator.Matrix.Connect.{Wrapping}
use k8s_service_validator.Matrix.Reachability.{Heap, Reachability}
use k8s_service_validator.Matrix.Reachability.Observe.{HasRow, observe_total}
use k8s_service_validator.Matrix.Probe.{ProbeJob, ProbeJobResults, probe_job}
use k8s_service_validator.Matrix.Probe.Filled.{OnlyContainers, pod_string-OnlyContainers}
use k8s_service_validator.Matrix.Round.{
  Round, Step, send, take, finish, receive, Steps, here, next, start, IsDone,
}
use k8s_service_validator.Prelude.Elem.{Elem}
use k8s_service_validator.Matrix.Round.Invariant.{name_from, Valid, Inv, Inv-start}
use k8s_service_validator.Matrix.Round.Preserve.{Steps-Inv}

-- The steps that the jobs of a round have still before them: sent, taken, finished, received.
abbrev pub steps_left : {fl : Floats} → Round fl → ℕ
steps_left s = 4 * length s.unsent + 3 * length s.jobs + 2 * length s.busy + length s.results

module _ (fl : Floats) (remote : Remote) (wrapping : Wrapping) where
  -- Each step is one step fewer.
  pub Step-steps_left :
      {s t : Round fl} → Step fl remote wrapping s t → steps_left s ≡ suc (steps_left t)
  Step-steps_left {s = s} (send job rest e) = rw e (omega (arith, length-append s.jobs (job ∷ [])))
  Step-steps_left {s = s} (take job rest e free) = rw e (omega arith)
  Step-steps_left {s = s} (finish before after job random w w' heap res e runs) = rw e (
      omega (
        arith,
        length-append before (job ∷ after),
        length-append before after,
        length-append s.results (res ∷ []),
      ))
  Step-steps_left {s = s} (receive res rest r sent e seen) = rw e (omega arith)

  abbrev pub count : {s t : Round fl} → Steps fl remote wrapping s t → ℕ
  count here = 0
  count (next steps step) = suc (count steps)

  Steps-steps_left :
      {s t : Round fl} (steps : Steps fl remote wrapping s t)
      → steps_left s ≡ count steps + steps_left t
  Steps-steps_left here = omega arith
  Steps-steps_left (next steps step) = omega (arith, Steps-steps_left steps, Step-steps_left step)

  -- The steps that a round of n jobs has made and those that it has left are 4 n together: no run
  -- is longer, and each run to the end, where nothing is left, has exactly 4 n steps.
  pub round_steps :
      (heap : Heap) (all : List ProbeJob) (r : Reachability (BandwidthResults fl)) (s : Round fl)
      (steps : Steps fl remote wrapping (start heap all r) s)
      → count steps + steps_left s ≡ 4 * length all
  round_steps heap all r s steps = omega (arith, Steps-steps_left steps)

module _ (fl : Floats) (remote : Remote) (wrapping : Wrapping) (heap : Heap) (all : List ProbeJob)
    (r : Reachability (BandwidthResults fl))
    (rows : (job : ProbeJob) → Elem job all → HasRow (name_from heap job) r.observed)
    (answers : (job : ProbeJob) (h : Heap)
      → Elem job all
      → OnlyContainers heap h
      → (random : ℕ) × (w w' : remote.World) × (h' : Heap) × (res : ProbeJobResults fl) × (probe_job
            fl remote wrapping random job h w
          ≡ ok (res, h', w'))) where
  abbrev Next : Round fl → Type 0
  Next s = (t : Round fl) × Step fl remote wrapping s t

  finish-Next :
      (s : Round fl) (job : ProbeJob) (rest : List ProbeJob)
      → Inv fl remote wrapping heap all r s
      → s.busy ≡ job ∷ rest
      → Next s
  finish-Next s job rest i e =
      let known = i.known_busy job (rw e (Elem.here refl)) in
      let (random, w, w', h', res, runs) = answers job s.heap known i.same in
      (
        record s { heap = h'; busy = rest; results = s.results ++ res ∷ [] },
        finish [] rest job random w w' h' res e runs,
      )

  receive-Next :
      (s : Round fl) (res : ProbeJobResults fl) (rest : List (ProbeJobResults fl))
      → Inv fl remote wrapping heap all r s
      → s.unsent ≡ []
      → s.results ≡ res ∷ rest
      → Next s
  receive-Next s res rest i sent e =
      let (valid, _) = subst (All (Valid fl remote wrapping heap all r)) e i.results in
      let same = pod_string-OnlyContainers heap s.heap res.job.pod_from i.same in
      let row = i.rows (name_from heap res.job) (rows res.job valid.job) in
      let (r', seen) =
        observe_total (pod_string (s.heap res.job.pod_from)) (pod_string (s.heap res.job.pod_to))
          res.is_connected res.bandwidth s.reachability
          (subst (λ f. HasRow f s.reachability.observed) (sym same) row) in
      (
        record s { results = rest; received = res ∷ s.received; reachability = r' },
        receive res rest r' sent e seen,
      )

  by_lists :
      (s : Round fl)
      → Inv fl remote wrapping heap all r s
      → (u j b : List ProbeJob) (a : List (ProbeJobResults fl)) → s.unsent ≡ u
      → s.jobs ≡ j
      → s.busy ≡ b
      → s.results ≡ a
      → IsDone fl remote wrapping s ⊎ Next s
  by_lists s i (job ∷ u) j b a eu ej eb ea =
      inr (record s { unsent = u; jobs = s.jobs ++ job ∷ [] }, send job u eu)
  by_lists s i [] j (job ∷ b) a eu ej eb ea = inr (finish-Next s job b i eb)
  by_lists s i [] (job ∷ j) [] a eu ej eb ea =
      inr (record s { jobs = j; busy = job ∷ s.busy }, take job j ej (rw eb (omega arith)))
  by_lists s i [] [] [] (res ∷ a) eu ej eb ea = inr (receive-Next s res a i eu ea)
  by_lists s i [] [] [] [] eu ej eb ea =
      inl (record { unsent = eu; jobs = ej; busy = eb; results = ea })

  -- In every state that a round can reach it is done or has a next step, if each source has its
  -- row and each probe returns: nothing waits for ever, and recording a result does not panic.
  pub round_progress :
      (s : Round fl)
      → Steps fl remote wrapping (start heap all r) s
      → IsDone fl remote wrapping s ⊎ Next s
  round_progress s steps =
      by_lists s
        (Steps-Inv fl remote wrapping heap all r steps (Inv-start fl remote wrapping heap all r))
        s.unsent s.jobs s.busy s.results refl refl refl refl

  run_on :
      (fuel : ℕ) (s0 s : Round fl)
      → steps_left s ≤ fuel
      → Steps fl remote wrapping (start heap all r) s
      → Steps fl remote wrapping s0 s
      → (t : Round fl) × Steps fl remote wrapping s0 t × IsDone fl remote wrapping t
  run_on zero s0 s enough steps walk = elim (round_progress s steps) [
    | inl done ↦ (s, walk, done)
    | inr (t, step) ↦ absurd (omega (arith, Step-steps_left fl remote wrapping step))
  ]
  run_on (suc fuel) s0 s enough steps walk = elim (round_progress s steps) [
    | inl done ↦ (s, walk, done)
    | inr (t, step) ↦
        run_on fuel s0 t (omega (arith, Step-steps_left fl remote wrapping step)) (next steps step)
          (next walk step)
  ]

  -- If each source has its row and each probe returns, a round comes to its end from every state
  -- that it can reach.
  pub round_finishes :
      (s : Round fl)
      → Steps fl remote wrapping (start heap all r) s
      → (t : Round fl) × Steps fl remote wrapping s t × IsDone fl remote wrapping t
  round_finishes s steps = run_on (steps_left s) s s (omega arith) steps here
