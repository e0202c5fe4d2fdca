-- ===== src/Matrix/Round/Observed.antt =====
-- What a finished round has recorded, whatever the order in which workers took the jobs and the
-- results came back.
use k8s_service_validator.Prelude.{
  false, ◌∙◌, ◌&&◌, List, [], ◌∷◌, ◌≡◌, inl, inr, refl, ap, subst, map, some, arith, ◌==◌, eq_iff,
  Bool-cases,
}
use k8s_service_validator.Text.{Text, text_eq}
use k8s_service_validator.Kubernetes.Exec.{Remote}
use k8s_service_validator.Matrix.Bandwidth.{Floats, BandwidthResults}
use k8s_service_validator.Matrix.Connect.{Wrapping}
use k8s_service_validator.Matrix.TruthTable.{cell}
use k8s_service_validator.Matrix.Reachability.{Heap, Reachability}
use k8s_service_validator.Matrix.Probe.{ProbeJob, ProbeJobResults}
use k8s_service_validator.Matrix.Probe.Filled.{OnlyContainers}
use k8s_service_validator.Matrix.Probe.Job.{Probed}
use k8s_service_validator.Matrix.Round.{Round, Steps, start, IsDone}
use k8s_service_validator.Prelude.Elem.{Elem, here, there, not-Elem-nil, Elem-map_inv, All-Elem}
use k8s_service_validator.Matrix.Round.Invariant.{
  name_from, name_to, latest, unsent, queued, busy, answered, received, Valid, Inv-start,
}
use k8s_service_validator.Matrix.Round.Preserve.{Steps-Inv}

module _ {fl : Floats} (heap : Heap) where
  earlier :
      (r : ProbeJobResults fl) (rs : List (ProbeJobResults fl)) (f t : Text)
      (res : ProbeJobResults fl)
      → (name_from heap r.job == f && name_to heap r.job == t) ≡ false
      → name_from heap res.job ≡ f
      → name_to heap res.job ≡ t
      → Elem res (r ∷ rs)
      → Elem res rs
  earlier r rs f t res other hf ht (here h) =
      let hf' = ap (λ (q : ProbeJobResults fl). name_from heap q.job) h ∙ hf in
      let ht' = ap (λ (q : ProbeJobResults fl). name_to heap q.job) h ∙ ht in
      absurd (ground (arith, eq_iff (name_from heap r.job) f, eq_iff (name_to heap r.job) t))
  earlier r rs f t res other hf ht (there at) = at

  -- If there is a result for a pair of names, the latest one is of such a pair.
  latest_found :
      (rs : List (ProbeJobResults fl)) (f t : Text) (res : ProbeJobResults fl)
      → Elem res rs
      → name_from heap res.job ≡ f
      → name_to heap res.job ≡ t
      → (last : ProbeJobResults fl) × (latest heap rs f t ≡ some last)
        × Elem last rs
        × (name_from heap last.job ≡ f)
        × (name_to heap last.job ≡ t)
  unfolding latest
  latest_found [] f t res e hf ht = elim e [ ]
  latest_found (r ∷ rs) f t res e hf ht =
      elim (Bool-cases (name_from heap r.job == f && name_to heap r.job == t)) [
        | inl this ↦ (
          r,
          rw this,
          here refl,
          ground (arith, eq_iff (name_from heap r.job) f),
          ground (arith, eq_iff (name_to heap r.job) t),
        )
        | inr other ↦
            let (last, found, at, lf, lt) =
              latest_found rs f t res (earlier r rs f t res other hf ht e) hf ht in
            (last, rw other found, there at, lf, lt)
      ]

module _ (fl : Floats) (remote : Remote) (wrapping : Wrapping) (heap : Heap) (all : List ProbeJob)
    (r : Reachability (BandwidthResults fl)) (s : Round fl) where
  -- What the round has recorded for a job: the result of a probe of this pair of names, run on a
  -- heap that differs from the first one in the containers' names alone.
  pub record Recorded (job : ProbeJob) : Type 0 where
    pub result : ProbeJobResults fl
    pub of_round : Elem result.job all
    pub from : name_from heap result.job ≡ name_from heap job
    pub to : name_to heap result.job ≡ name_to heap job
    pub heap' : Heap
    pub same : OnlyContainers heap heap'
    pub probed : Probed fl remote wrapping heap' result.job result
    pub connection :
        cell s.reachability.observed.values (name_from heap job) (name_to heap job)
        ≡ some result.is_connected
    pub bandwidth :
        cell s.reachability.observed.bandwidths (name_from heap job) (name_to heap job)
        ≡ some result.bandwidth

  -- When a round is done, whatever the interleaving of its workers, each of its jobs is recorded
  -- under its two pods' names, with the connection and the bandwidth of a probe of that pair.
  pub round_records :
      (job : ProbeJob)
      → Steps fl remote wrapping (start heap all r) s
      → IsDone fl remote wrapping s
      → Elem job all
      → Recorded job
  round_records job steps done e =
      let i =
        Steps-Inv fl remote wrapping heap all r steps (Inv-start fl remote wrapping heap all r) in
      elim (i.covered job e) [
        | unsent x ↦ absurd (not-Elem-nil (subst (Elem job) done.unsent x))
        | queued x ↦ absurd (not-Elem-nil (subst (Elem job) done.jobs x))
        | busy x ↦ absurd (not-Elem-nil (subst (Elem job) done.busy x))
        | answered x ↦
            absurd (not-Elem-nil (subst (λ l. Elem job (map (λ r. r.job) l)) done.results x))
        | received x ↦
            let (res, at, same_job) = Elem-map_inv (λ r. r.job) s.received x in
            let (last, found, last_at, from, to) =
              latest_found heap s.received (name_from heap job) (name_to heap job) res at
                (ap (name_from heap) same_job) (ap (name_to heap) same_job) in
            let valid =
              All-Elem (Valid fl remote wrapping heap all r) s.received i.received last_at in
            record {
              result = last;
              of_round = valid.job;
              from = from;
              to = to;
              heap' = valid.heap;
              same = valid.same;
              probed = valid.probed;
              connection = ground (arith, i.connections (name_from heap job) (name_to heap job));
              bandwidth = ground (arith, i.bandwidths (name_from heap job) (name_to heap job));
            }
      ]

  -- In no state of a round has what is expected, or the list of pods, changed.
  round_keeps_expected :
      Steps fl remote wrapping (start heap all r) s
      → (s.reachability.expected ≡ r.expected) × (s.reachability.pods ≡ r.pods)
  round_keeps_expected steps =
      let i =
        Steps-Inv fl remote wrapping heap all r steps (Inv-start fl remote wrapping heap all r) in
      (i.expected, i.pods)
