-- ===== src/Matrix/Round/Preserve.antt =====
-- Each step of a round keeps the invariant.
use k8s_service_validator.Prelude.{
  ℕ, List, [], ◌∷◌, ◌++◌, ◌≡◌, inl, inr, refl, sym, ◌∙◌, subst, map, arith, All, All-append,
}
use k8s_service_validator.Outcome.{ok}
use k8s_service_validator.Text.{text_eq}
use k8s_service_validator.Kubernetes.Exec.{Remote}
use k8s_service_validator.Entities.Pod.{pod_string}
use k8s_service_validator.Matrix.Bandwidth.{Floats, BandwidthResults}
use k8s_service_validator.Matrix.Connect.{Wrapping}
use k8s_service_validator.Matrix.Reachability.{Heap, Reachability, observe}
use k8s_service_validator.Matrix.Reachability.Observe.{HasRow-observe, observe_lem}
use k8s_service_validator.Matrix.Probe.{ProbeJob, ProbeJobResults, probe_job}
use k8s_service_validator.Matrix.Probe.Filled.{OnlyContainers-trans, pod_string-OnlyContainers}
use k8s_service_validator.Matrix.Probe.Job.{Probed, job-probe_job, probe_job-OnlyContainers}
use k8s_service_validator.Matrix.Round.{Round, Step, Steps, send, take, finish, receive}
use k8s_service_validator.Matrix.Round.Invariant.{
  latest, unsent, queued, busy, answered, received, Valid, Inv,
}
use k8s_service_validator.Prelude.Elem.{
  Elem, here, there, Elem-cons, Elem-left, Elem-right, Elem-append, Elem-around, Elem-widen,
  Elem-map, Elem-map_inv,
}

module _ (fl : Floats) (remote : Remote) (wrapping : Wrapping) (heap0 : Heap) (all : List ProbeJob)
    (r0 : Reachability (BandwidthResults fl)) where
  abbrev ValidHere : ProbeJobResults fl → Type 0
  ValidHere = Valid fl remote wrapping heap0 all r0

  abbrev InvHere : Round fl → Type 0
  InvHere = Inv fl remote wrapping heap0 all r0

  Valid_of_step :
      (s : Round fl) (i : InvHere s) (job : ProbeJob) (random : ℕ) (w w' : remote.World)
      (heap : Heap) (res : ProbeJobResults fl)
      → Elem job s.busy
      → probe_job fl remote wrapping random job s.heap w ≡ ok (res, heap, w')
      → ValidHere res
  Valid_of_step s i job random w w' heap res at runs =
      let same_job = job-probe_job fl remote wrapping random job s.heap heap w w' res runs in
      record {
        heap = s.heap;
        same = i.same;
        probed =
            subst (λ j. Probed fl remote wrapping s.heap j res) (sym same_job)
              (record { random = random; world = w; heap' = heap; world' = w'; runs = runs });
        job = rw same_job (i.known_busy job at);
      }

  send-Inv :
      (s : Round fl) (job : ProbeJob) (rest : List ProbeJob)
      → s.unsent ≡ job ∷ rest
      → InvHere s
      → InvHere (record s { unsent = rest; jobs = s.jobs ++ job ∷ [] })
  send-Inv s job rest e i = record {
    same = i.same;
    covered = λ j at. elim (i.covered j at) [
      | unsent x ↦ elim (Elem-cons (subst (Elem j) e x)) [
        | inl h ↦ queued (Elem-right s.jobs (job ∷ []) (here h))
        | inr x' ↦ unsent x'
      ]
      | queued x ↦ queued (Elem-left s.jobs (job ∷ []) x)
      | busy x ↦ busy x
      | answered x ↦ answered x
      | received x ↦ received x
    ];
    known_unsent = λ j x. i.known_unsent j (rw e (there x));
    known_jobs = λ j x. elim (Elem-append s.jobs (job ∷ []) x) [
      | inl x' ↦ i.known_jobs j x'
      | inr x' ↦ i.known_unsent j (rw e (Elem-left (job ∷ []) rest x'))
    ];
    known_busy = i.known_busy;
    results = i.results;
    received = i.received;
    connections = i.connections;
    bandwidths = i.bandwidths;
    expected = i.expected;
    pods = i.pods;
    rows = i.rows;
  }

  take-Inv :
      (s : Round fl) (job : ProbeJob) (rest : List ProbeJob)
      → s.jobs ≡ job ∷ rest
      → InvHere s
      → InvHere (record s { jobs = rest; busy = job ∷ s.busy })
  take-Inv s job rest e i = record {
    same = i.same;
    covered = λ j at. elim (i.covered j at) [
      | unsent x ↦ unsent x
      | queued x ↦ elim (Elem-cons (subst (Elem j) e x)) [
        | inl h ↦ busy (here h)
        | inr x' ↦ queued x'
      ]
      | busy x ↦ busy (there x)
      | answered x ↦ answered x
      | received x ↦ received x
    ];
    known_unsent = i.known_unsent;
    known_jobs = λ j x. i.known_jobs j (rw e (there x));
    known_busy = λ j x. elim (Elem-cons x) [
      | inl h ↦ i.known_jobs j (rw e (here h))
      | inr x' ↦ i.known_busy j x'
    ];
    results = i.results;
    received = i.received;
    connections = i.connections;
    bandwidths = i.bandwidths;
    expected = i.expected;
    pods = i.pods;
    rows = i.rows;
  }

  finish-Inv :
      (s : Round fl) (before after : List ProbeJob) (job : ProbeJob) (random : ℕ)
      (w w' : remote.World) (heap : Heap) (res : ProbeJobResults fl)
      → s.busy ≡ before ++ job ∷ after
      → probe_job fl remote wrapping random job s.heap w ≡ ok (res, heap, w')
      → InvHere s
      → InvHere (record s { heap = heap; busy = before ++ after; results = s.results ++ res ∷ [] })
  finish-Inv s before after job random w w' heap res e runs i =
      let same_job = job-probe_job fl remote wrapping random job s.heap heap w w' res runs in
      let holder = subst (Elem job) (sym e) (Elem-right before (job ∷ after) (here refl)) in
      record {
        same =
            OnlyContainers-trans heap0 s.heap heap i.same
              (probe_job-OnlyContainers fl remote wrapping random job s.heap heap w w' res runs);
        covered = λ j at. elim (i.covered j at) [
          | unsent x ↦ unsent x
          | queued x ↦ queued x
          | busy x ↦ elim (Elem-around before after job (subst (Elem j) e x)) [
            | inl h ↦ answered (
                subst (λ k. Elem k (map (λ r. r.job) (s.results ++ res ∷ []))) (same_job ∙ h)
                  (Elem-map (λ r. r.job) (s.results ++ res ∷ [])
                    (Elem-right s.results (res ∷ []) (here refl))))
            | inr x' ↦ busy x'
          ]
          | answered x ↦
              let (r, r_in, h) = Elem-map_inv (λ r. r.job) s.results x in
              answered (
                subst (λ k. Elem k (map (λ r. r.job) (s.results ++ res ∷ []))) h
                  (Elem-map (λ r. r.job) (s.results ++ res ∷ [])
                    (Elem-left s.results (res ∷ []) r_in)))
          | received x ↦ received x
        ];
        known_unsent = i.known_unsent;
        known_jobs = i.known_jobs;
        known_busy = λ j x. i.known_busy j (rw e (Elem-widen before after job x));
        results =
            All-append ValidHere s.results (res ∷ []) i.results
              (Valid_of_step s i job random w w' heap res holder runs, tt);
        received = i.received;
        connections = i.connections;
        bandwidths = i.bandwidths;
        expected = i.expected;
        pods = i.pods;
        rows = i.rows;
      }

  receive-Inv :
      (s : Round fl) (res : ProbeJobResults fl) (rest : List (ProbeJobResults fl))
      (r : Reachability (BandwidthResults fl))
      → s.results ≡ res ∷ rest
      → observe
          (pod_string (s.heap res.job.pod_from))
          (pod_string (s.heap res.job.pod_to))
          res.is_connected
          res.bandwidth
          s.reachability
        ≡ ok r
      → InvHere s
      → InvHere (record s { results = rest; received = res ∷ s.received; reachability = r })
  receive-Inv s res rest r e seen i =
      let from = pod_string (s.heap res.job.pod_from) in
      let to = pod_string (s.heap res.job.pod_to) in
      let same_from = pod_string-OnlyContainers heap0 s.heap res.job.pod_from i.same in
      let same_to = pod_string-OnlyContainers heap0 s.heap res.job.pod_to i.same in
      let seen_at = observe_lem from to res.is_connected res.bandwidth s.reachability r seen in
      let (valid, valid_rest) = subst (All ValidHere) e i.results in
      record {
        same = i.same;
        covered = λ j at. elim (i.covered j at) [
          | unsent x ↦ unsent x
          | queued x ↦ queued x
          | busy x ↦ busy x
          | answered x ↦ elim (Elem-cons (subst (λ l. Elem j (map (λ r. r.job) l)) e x)) [
            | inl h ↦ received (here h)
            | inr x' ↦ answered x'
          ]
          | received x ↦ received (there x)
        ];
        known_unsent = i.known_unsent;
        known_jobs = i.known_jobs;
        known_busy = i.known_busy;
        results = valid_rest;
        received = (valid, i.received);
        connections = λ f t.
            unfold latest in ground (arith, seen_at f t, i.connections f t, same_from, same_to);
        bandwidths = λ f t.
            unfold latest in ground (arith, seen_at f t, i.bandwidths f t, same_from, same_to);
        expected = (seen_at [] []).2 ∙ i.expected;
        pods = (seen_at [] []).3 ∙ i.pods;
        rows = λ f h.
            HasRow-observe from to res.is_connected res.bandwidth s.reachability r seen f
              (i.rows f h);
      }

  Step-Inv : {s t : Round fl} → Step fl remote wrapping s t → InvHere s → InvHere t
  Step-Inv {s = s} (send job rest e) i = send-Inv s job rest e i
  Step-Inv {s = s} (take job rest e free) i = take-Inv s job rest e i
  Step-Inv {s = s} (finish before after job random w w' heap res e runs) i =
      finish-Inv s before after job random w w' heap res e runs i
  Step-Inv {s = s} (receive res rest r sent e seen) i = receive-Inv s res rest r e seen i

  pub Steps-Inv : {s t : Round fl} → Steps fl remote wrapping s t → InvHere s → InvHere t
  Steps-Inv Steps.here i = i
  Steps-Inv (Steps.next steps step) i = Step-Inv step (Steps-Inv steps i)
