-- ===== src/Matrix/Probe/Total.antt =====
-- When a worker's probe returns: if the source has a container, and, where bandwidth is measured, if
-- `iperf` prints the fields that are read.
use k8s_service_validator.Prelude.{
  ℕ, ◌<◌, ◌⊎◌, true, false, none, length, get_elem?_below, Option-cases, List, [], ◌∷◌, ◌≡◌, refl,
  arith, is_empty, inl, inr, Bool-cases,
}
use k8s_service_validator.Outcome.{ok, Outcome-cases}
use k8s_service_validator.Text.{Text, split}
use k8s_service_validator.Kubernetes.Exec.{Remote}
use k8s_service_validator.Commands.{execute}
use k8s_service_validator.Commands.IPerf.{new_client}
use k8s_service_validator.Entities.Container.{Container}
use k8s_service_validator.Entities.Pod.{Pod}
use k8s_service_validator.Matrix.Bandwidth.{Floats, from_comma_separated_string}
use k8s_service_validator.Matrix.Connect.{Wrapping, probe_connectivity_iperf}
use k8s_service_validator.Matrix.Reachability.{Ref, Heap}
use k8s_service_validator.Matrix.Probe.{
  ProbeJob, ProbeJobResults, Reply, sent, first_container_name, first_name, run_probe, probe_job,
  address_to,
}

first_container_name_total :
    (random : ℕ) (p : Ref) (heap : Heap)
    → is_empty (heap p).containers ≡ false
    → (named : Text × Heap) × (first_container_name random p heap ≡ ok named)
unfolding first_container_name first_name
first_container_name_total random p heap h = go (heap p).containers h
  where
    go :
        (cs : List Container)
        → is_empty cs ≡ false
        → (named : Text × Heap) × (first_name random p cs heap ≡ ok named)
    go [] k = absurd (cc)
    go (c ∷ cs) k = (_, refl)

-- An `iperf` client that ends without an error prints the nine fields of a comma-separated line.
pub record PrintsBandwidth (remote : Remote) : Type 0 where
  pub fields :
      (ns pod container addr_to protocol : Text) (port : ℕ) (w : remote.World)
      → let run = execute remote (new_client ns pod container addr_to port protocol) w in
        run.0.2 ≡ none → 8 < length (split b',' run.0.0)

module _ (fl : Floats) (remote : Remote) (wrapping : Wrapping) where
  iperf_total :
      (ns pod container addr_to protocol : Text) (port : ℕ) (w : remote.World)
      → PrintsBandwidth remote
      → (answer : _) × (probe_connectivity_iperf fl remote ns pod container addr_to protocol port w
          ≡ ok answer)
  unfolding probe_connectivity_iperf from_comma_separated_string
  iperf_total ns pod container addr_to protocol port w prints =
      let run = execute remote (new_client ns pod container addr_to port protocol) w in
      elim (Outcome-cases
        (probe_connectivity_iperf fl remote ns pod container addr_to protocol port w)) [
          | inl (answer, returns) ↦ (answer, returns)
          | inr (p, panics) ↦ elim (Option-cases run.0.2) [
            | inr (err, failed) ↦ absurd (ground (arith, failed))
            | inl fine ↦
                let (field, at) =
                  get_elem?_below (split b',' run.0.0) 8
                    (prints.fields ns pod container addr_to protocol port w fine) in
                absurd (ground (arith, fine, at))
          ]
        ]

  run_probe_total :
      (job : ProbeJob) (from : Pod) (container addr_to : Text) (w : remote.World)
      → job.measure_bandwidth ≡ false
      → (answer : Reply fl remote wrapping × remote.World) × (run_probe fl remote wrapping job from
            container addr_to w
          ≡ ok answer)
  unfolding run_probe
  run_probe_total job from container addr_to w h = elim (Bool-cases job.reach_target_pod) [
    | inl reach ↦ rw h (rw reach (_, refl))
    | inr unreach ↦ rw h (rw unreach (_, refl))
  ]

  measured_total :
      (job : ProbeJob) (from : Pod) (container addr_to : Text) (w : remote.World)
      → PrintsBandwidth remote
      → job.measure_bandwidth ≡ true
      → (answer : Reply fl remote wrapping × remote.World) × (run_probe fl remote wrapping job from
            container addr_to w
          ≡ ok answer)
  unfolding run_probe
  measured_total job from container addr_to w prints h =
      let (answer, e) =
        iperf_total from.namespace from.name container addr_to job.protocol job.to_port w prints in
      rw h (rw e (_, refl))

  -- The bandwidth is not measured, or what `iperf` prints can be read.
  abbrev CanProbe : ProbeJob → Type 0
  CanProbe job = (job.measure_bandwidth ≡ false) ⊎ PrintsBandwidth remote

  run_probe_can :
      (job : ProbeJob) (from : Pod) (container addr_to : Text) (w : remote.World)
      → CanProbe job
      → (answer : Reply fl remote wrapping × remote.World) × (run_probe fl remote wrapping job from
            container addr_to w
          ≡ ok answer)
  run_probe_can job from container addr_to w (inl unmeasured) =
      run_probe_total job from container addr_to w unmeasured
  run_probe_can job from container addr_to w (inr prints) =
      elim (Bool-cases job.measure_bandwidth) [
        | inl measured ↦ measured_total job from container addr_to w prints measured
        | inr unmeasured ↦ run_probe_total job from container addr_to w unmeasured
      ]

  -- A worker that takes such a job, from a pod with a container, sends a result.
  pub probe_job_total :
      (random : ℕ) (job : ProbeJob) (heap : Heap) (w : remote.World)
      → CanProbe job
      → is_empty (heap job.pod_from).containers ≡ false
      → (w' : remote.World) × (heap' : Heap) × (res : ProbeJobResults fl) × (probe_job fl remote
            wrapping random job heap w
          ≡ ok (res, heap', w'))
  unfolding probe_job
  probe_job_total random job heap w can populated = elim (Bool-cases (heap job.pod_to).skip_probe) [
    | inl skip ↦ rw skip (_, _, _, refl)
    | inr shown ↦
        let (named, e) = first_container_name_total random job.pod_from heap populated in
        let (answer, e') =
          run_probe_can job (heap job.pod_from) named.0
            (address_to job.service_type job.protocol (heap job.pod_to)) w can in
        (
          answer.1,
          named.1,
          sent fl remote wrapping job (heap job.pod_to) answer.0,
          ground (arith, shown, e, e'),
        )
  ]
