-- ===== src/Matrix/Round/Sequential.antt =====
-- What a concurrent round promises: it leaves what some program would that does one job after the
-- other, each of them once.
use mathlib.Core.List.{Perm, perm_middle, map-append, reverse, reverse-cons, reverse_perm}
use mathlib.Core.List.Perm
use k8s_service_validator.Prelude.{
  ℕ, List, [], ◌∷◌, ◌++◌, ◌≡◌, refl, sym, ap, ◌∙◌, subst, map, arith, append_assoc, append-nil,
}
use k8s_service_validator.Outcome.{Outcome, ok, ◌>>=◌, >>=-eq-ok}
use k8s_service_validator.Kubernetes.Exec.{Remote}
use k8s_service_validator.Matrix.Bandwidth.{Floats, BandwidthResults}
use k8s_service_validator.Matrix.Connect.{Wrapping}
use k8s_service_validator.Matrix.Reachability.{Heap, Reachability, observe}
use k8s_service_validator.Matrix.Probe.{ProbeJob, ProbeJobResults, probe_job}
use k8s_service_validator.Matrix.Probe.Filled.{pod_string-OnlyContainers}
use k8s_service_validator.Matrix.Probe.Job.{job-probe_job}
use k8s_service_validator.Matrix.Round.{
  Round, Step, Steps, send, take, finish, receive, next, start, IsDone,
}
use k8s_service_validator.Matrix.Round.Invariant.{name_from, name_to, Inv-start}
use k8s_service_validator.Matrix.Round.Preserve.{Steps-Inv}

module _ {fl : Floats} (heap : Heap) where
  -- The results of one job after the other are recorded in this order.
  pub record_all :
      List (ProbeJobResults fl)
      → Reachability (BandwidthResults fl)
      → Outcome (Reachability (BandwidthResults fl))
  record_all [] r = ok r
  record_all (res ∷ results) r = do
    r' ← observe (name_from heap res.job) (name_to heap res.job) res.is_connected res.bandwidth r
    record_all results r'

  record_all-append :
      (xs : List (ProbeJobResults fl)) (res : ProbeJobResults fl)
      (r r' r'' : Reachability (BandwidthResults fl))
      → record_all xs r ≡ ok r'
      → observe (name_from heap res.job) (name_to heap res.job) res.is_connected res.bandwidth r'
        ≡ ok r''
      → record_all (xs ++ res ∷ []) r ≡ ok r''
  unfolding record_all
  record_all-append [] res r r' r'' h seen = ground arith
  record_all-append (x ∷ xs) res r r' r'' h seen =
      let (first, e, rest) =
        >>=-eq-ok (observe (name_from heap x.job) (name_to heap x.job) x.is_connected x.bandwidth r)
          _ h in
      rw e (record_all-append xs res first r' r'' rest seen)

abbrev jobs_of : {fl : Floats} → List (ProbeJobResults fl) → List ProbeJob
jobs_of results = map (λ r. r.job) results

-- Every job of a round, wherever it stands.
abbrev everywhere : {fl : Floats} → Round fl → List ProbeJob
everywhere s = s.unsent ++ (s.jobs ++ (s.busy ++ (jobs_of s.results ++ jobs_of s.received)))

-- Two ways to move an element out of the middle.
last_out : (xs ys : List ProbeJob) (x : ProbeJob) → Perm ((xs ++ x ∷ []) ++ ys) (x ∷ (xs ++ ys))
last_out xs ys x =
    subst (λ l. Perm l (x ∷ (xs ++ ys))) (sym (append_assoc xs (x ∷ []) ys)) (perm_middle xs ys)

-- An element that goes from the middle of one list to the end of a later one.
middle_to_last :
    (before after ys zs : List ProbeJob) (x : ProbeJob)
    → Perm ((before ++ after) ++ ((ys ++ x ∷ []) ++ zs)) ((before ++ x ∷ after) ++ (ys ++ zs))
middle_to_last before after ys zs x =
    Perm.trans (Perm.append_left (before ++ after) (last_out ys zs x)) (
      Perm.trans (perm_middle (before ++ after) (ys ++ zs))
        (Perm.symm (Perm.append_right (ys ++ zs) (perm_middle before after))))

module _ (fl : Floats) (remote : Remote) (wrapping : Wrapping) where
  Step-perm : {s t : Round fl} → Step fl remote wrapping s t → Perm (everywhere t) (everywhere s)
  Step-perm {s = s} (send job rest e) =
      let later = s.busy ++ (jobs_of s.results ++ jobs_of s.received) in
      subst (λ u. Perm (rest ++ ((s.jobs ++ job ∷ []) ++ later)) (u ++ (s.jobs ++ later))) (sym e)
        (Perm.trans (Perm.append_left rest (last_out s.jobs later job))
          (perm_middle rest (s.jobs ++ later)))
  Step-perm {s = s} (take job rest e free) =
      let later = s.busy ++ (jobs_of s.results ++ jobs_of s.received) in
      subst (λ j. Perm (s.unsent ++ (rest ++ (job ∷ later))) (s.unsent ++ (j ++ later))) (sym e)
        (Perm.append_left s.unsent (perm_middle rest later))
  Step-perm {s = s} (finish before after job random w w' heap res e runs) =
      let same_job = job-probe_job fl remote wrapping random job s.heap heap w w' res runs in
      let received = jobs_of s.received in
      let results : jobs_of (s.results ++ res ∷ []) ≡ jobs_of s.results ++ job ∷ [] =
        map-append (λ r. r.job) s.results (res ∷ [])
        ∙ ap (λ j. jobs_of s.results ++ j ∷ []) same_job in
      Perm.append_left s.unsent (
        Perm.append_left s.jobs (
          subst
            (λ m.
              Perm ((before ++ after) ++ (m ++ received))
                (s.busy ++ (jobs_of s.results ++ received)))
            (sym results)
            (subst
              (λ b.
                Perm ((before ++ after) ++ ((jobs_of s.results ++ job ∷ []) ++ received))
                  (b ++ (jobs_of s.results ++ received)))
              (sym e) (middle_to_last before after (jobs_of s.results) received job))))
  Step-perm {s = s} (receive res rest r sent e seen) = Perm.append_left s.unsent (
      Perm.append_left s.jobs (
        Perm.append_left s.busy (
          subst
            (λ m.
              Perm (jobs_of rest ++ (res.job ∷ jobs_of s.received))
                (jobs_of m ++ jobs_of s.received))
            (sym e) (perm_middle (jobs_of rest) (jobs_of s.received)))))

  -- No job is lost or made double by a round.
  Steps-perm : {s t : Round fl} → Steps fl remote wrapping s t → Perm (everywhere t) (everywhere s)
  Steps-perm {s = s} Steps.here = Perm.refl (everywhere s)
  Steps-perm (next steps step) = Perm.trans (Step-perm step) (Steps-perm steps)

  -- One probe after the other, from a heap to the heap that the last one leaves, with the results
  -- in this order.
  pub data Runs (heap : Heap) : List (ProbeJobResults fl) → Heap → Type 0 where
    no_run : Runs heap [] heap
    one_more :
        {order : List (ProbeJobResults fl)} {heap1 heap2 : Heap} {res : ProbeJobResults fl}
        → Runs heap order heap1
        → (job : ProbeJob) (random : ℕ) (w w' : remote.World)
        → probe_job fl remote wrapping random job heap1 w ≡ ok (res, heap2, w')
        → Runs heap (order ++ res ∷ []) heap2

  module _ (heap : Heap) (all : List ProbeJob) (r0 : Reachability (BandwidthResults fl)) where
    -- In each state what is recorded is what a program records that goes by what was received.
    recorded_in_order :
        {s : Round fl}
        → Steps fl remote wrapping (start heap all r0) s
        → record_all heap (reverse s.received) r0 ≡ ok s.reachability
    recorded_in_order Steps.here = unfold record_all in refl
    recorded_in_order (next steps (send job rest e)) = recorded_in_order steps
    recorded_in_order (next steps (take job rest e free)) = recorded_in_order steps
    recorded_in_order (next steps (finish before after job random w w' heap' res e runs)) =
        recorded_in_order steps
    recorded_in_order (next {t = t} steps (receive res rest r sent e seen)) =
        let i =
          Steps-Inv fl remote wrapping heap all r0 steps
            (Inv-start fl remote wrapping heap all r0) in
        let at_from = pod_string-OnlyContainers heap t.heap res.job.pod_from i.same in
        let at_to = pod_string-OnlyContainers heap t.heap res.job.pod_to i.same in
        rw (reverse-cons res t.received) (
          record_all-append heap (reverse t.received) res r0 t.reachability r
            (recorded_in_order steps) (rw (sym at_from) (rw (sym at_to) seen)))

    all_received :
        (s : Round fl)
        → IsDone fl remote wrapping s
        → Perm (everywhere s) (everywhere (start heap all r0))
        → Perm (jobs_of s.received) all
    all_received s done p =
        let nothing_else : everywhere s ≡ jobs_of s.received =
          rw (done.unsent, done.jobs, done.busy, done.results) refl in
        subst (Perm (jobs_of s.received)) (append-nil all)
          (subst (λ l. Perm l (everywhere (start heap all r0))) nothing_else p)

    -- A program that does one job after the other from the start of the round, each of them once,
    -- and records each result: what one probe wrote to the heap is there for the next one.
    pub record Sequential (heap' : Heap) (r : Reachability (BandwidthResults fl)) : Type 0 where
      pub order : List (ProbeJobResults fl)
      pub each_once : Perm (jobs_of order) all
      pub runs : Runs heap order heap'
      pub records : record_all heap order r0 ≡ ok r

    -- In each state what was sent to the channel of the results was probed in that order.
    probed_in_order :
        {s : Round fl}
        → Steps fl remote wrapping (start heap all r0) s
        → Runs heap (reverse s.received ++ s.results) s.heap
    probed_in_order Steps.here = no_run
    probed_in_order (next steps (send job rest e)) = probed_in_order steps
    probed_in_order (next steps (take job rest e free)) = probed_in_order steps
    probed_in_order (next {t = t} steps (finish before after job random w w' heap' res e runs)) =
        subst (λ order. Runs heap order heap')
          (append_assoc (reverse t.received) t.results (res ∷ []))
          (one_more (probed_in_order steps) job random w w' runs)
    probed_in_order (next {t = t} steps (receive res rest r sent e seen)) =
        let same_order : reverse t.received ++ t.results ≡ reverse (res ∷ t.received) ++ rest =
          ap (λ l. reverse t.received ++ l) e
          ∙ (sym (append_assoc (reverse t.received) (res ∷ []) rest)
              ∙ ap (λ l. l ++ rest) (sym (reverse-cons res t.received))) in
        subst (λ order. Runs heap order t.heap) same_order (probed_in_order steps)

    -- A finished round, whatever its interleaving, leaves the heap and the reachability that some
    -- sequential program leaves: it does the same jobs one after the other, each exactly once, each
    -- from the heap that the one before it left, and records their results in this order. A probe
    -- counts as one step of the round, and each has answers of the cluster of its own.
    pub round_refines :
        (s : Round fl)
        → Steps fl remote wrapping (start heap all r0) s
        → IsDone fl remote wrapping s
        → Sequential s.heap s.reachability
    round_refines s steps done =
        let all_read : reverse s.received ++ s.results ≡ reverse s.received =
          ap (λ l. reverse s.received ++ l) done.results ∙ append-nil (reverse s.received) in
        record {
          order = reverse s.received;
          each_once =
              Perm.trans (Perm.map (λ (r : ProbeJobResults fl). r.job) (reverse_perm s.received))
                (all_received s done (Steps-perm steps));
          runs = subst (λ order. Runs heap order s.heap) all_read (probed_in_order steps);
          records = recorded_in_order steps;
        }
