-- ===== src/Matrix/Probe/Job.antt =====
-- What the result of one job says, on every way to probe.
use k8s_service_validator.Prelude.{
  ℕ, true, false, ◌≡◌, ap, sym, subst, nat_eq, none, arith, inl, inr, eq_iff, Bool-cases,
}
use k8s_service_validator.Outcome.{ok, Outcome-cases}
use k8s_service_validator.Text.{Text, text_eq}
use k8s_service_validator.Kubernetes.Exec.{Remote}
use k8s_service_validator.Commands.Netcat
use k8s_service_validator.Matrix.Bandwidth.{Floats}
use k8s_service_validator.Matrix.Connect.{Wrapping, max_retries}
use k8s_service_validator.Matrix.Connect.Retry.{
  FirstSuccess, nc_reply, nc_connected, agn_host_no_error, nc_no_error,
}
use k8s_service_validator.Matrix.Reachability.{Heap}
use k8s_service_validator.Matrix.Probe.{
  ProbeJob, ProbeJobResults, Reply, skipped, sent, address_to, run_probe, first_container_name,
  probe_job,
}
use k8s_service_validator.Matrix.Probe.Filled.{
  OnlyContainers, OnlyContainers-refl, first_container_name-OnlyContainers,
}

module _ (fl : Floats) (remote : Remote) (wrapping : Wrapping) where
  -- A result of a job: what some answers of the cluster make a worker send.
  pub record Probed (heap : Heap) (job : ProbeJob) (res : ProbeJobResults fl) : Type 0 where
    pub random : ℕ
    pub world : remote.World
    pub heap' : Heap
    pub world' : remote.World
    pub runs : probe_job fl remote wrapping random job heap world ≡ ok (res, heap', world')

  module _ (random : ℕ) (job : ProbeJob) (heap heap' : Heap) (w w' : remote.World)
      (res : ProbeJobResults fl)
      (runs : probe_job fl remote wrapping random job heap w ≡ ok (res, heap', w')) where
    -- Both ways through a round: the probe is skipped, or it runs from the first container.
    pub data Ways : Type 0 where
      skip :
          (heap job.pod_to).skip_probe ≡ true
          → res ≡ skipped fl remote wrapping job
          → heap' ≡ heap
          → Ways
      run :
          (container : Text) (reply : Reply fl remote wrapping)
          → (heap job.pod_to).skip_probe ≡ false
          → first_container_name random job.pod_from heap ≡ ok (container, heap')
          → run_probe fl remote wrapping job
              (heap job.pod_from)
              container
              (address_to job.service_type job.protocol (heap job.pod_to))
              w
            ≡ ok (reply, w')
          → res ≡ sent fl remote wrapping job (heap job.pod_to) reply
          → Ways

    pub probe_job_ways : Ways
    unfolding probe_job
    probe_job_ways = elim (Bool-cases (heap job.pod_to).skip_probe) [
      | inl is_skipped ↦ skip is_skipped (ground arith) (ground arith)
      | inr is_run ↦ elim (Outcome-cases (first_container_name random job.pod_from heap)) [
        | inl (named, e) ↦
            elim (Outcome-cases (
              run_probe fl remote wrapping job (heap job.pod_from) named.0
                (address_to job.service_type job.protocol (heap job.pod_to)) w)) [
                  | inl (answer, e') ↦
                      run named.0 answer.0 is_run (ground arith) (ground arith) (ground arith)
                  | inr (p, e') ↦ absurd (ground arith)
                ]
        | inr (p, e) ↦ absurd (ground arith)
      ]
    ]

    pub job-probe_job : res.job ≡ job
    job-probe_job = elim probe_job_ways [
      | skip _ e _ ↦ ap (λ r. r.job) e
      | run _ _ _ _ _ e ↦ ap (λ r. r.job) e
    ]

    pub probe_job-OnlyContainers : OnlyContainers heap heap'
    probe_job-OnlyContainers = elim probe_job_ways [
      | skip _ _ same ↦ subst (OnlyContainers heap) (sym same) (OnlyContainers-refl heap)
      | run container _ _ named _ _ ↦
          first_container_name-OnlyContainers random job.pod_from heap heap' container named
    ]

    -- Where the target pod itself is to be reached and no bandwidth is measured, a probe that is not
    -- skipped is connected only if netcat, run in the first container of the source pod at the
    -- target's address and port, succeeded within three runs, and the first run that did printed
    -- the target pod's name, spaces around it aside.
    pub reached_target :
        (heap job.pod_to).skip_probe ≡ false
        → job.reach_target_pod ≡ true
        → job.measure_bandwidth ≡ false
        → res.is_connected ≡ true
        → (container : Text) × (first_container_name random job.pod_from heap
            ≡ ok (container, heap'))
          × FirstSuccess remote
              (Netcat.new_client
                (heap job.pod_from).namespace
                (heap job.pod_from).name
                container
                (address_to job.service_type job.protocol (heap job.pod_to))
                job.to_port
                job.protocol)
              w
              max_retries
              (heap job.pod_to).name
    unfolding run_probe
    reached_target shown reach unmeasured connected = elim probe_job_ways [
      | skip is_skipped _ _ ↦ ground arith
      | run container reply _ named runs e ↦
          let from = heap job.pod_from in
          let address = address_to job.service_type job.protocol (heap job.pod_to) in
          let answered =
            nc_reply remote wrapping from.namespace from.name container address job.protocol
              job.to_port w in
          let printed : answered.1 ≡ (heap job.pod_to).name =
            ground (arith, eq_iff (heap job.pod_to).name reply.endpoint) in
          let success : answered.0 ≡ true =
            ground (arith, eq_iff (heap job.pod_to).name reply.endpoint) in
          (
            container,
            named,
            subst
                (FirstSuccess remote
                  (Netcat.new_client from.namespace from.name container address job.to_port
                    job.protocol)
                  w max_retries)
                printed
                (nc_connected remote wrapping from.namespace from.name container address
                  job.protocol job.to_port w success),
          )
    ]

    -- Only a probe that measures bandwidth reports an error.
    no_error_unless_measured : job.measure_bandwidth ≡ false → res.err ≡ none
    unfolding run_probe
    no_error_unless_measured unmeasured = elim probe_job_ways [
      | skip _ e _ ↦ ground arith
      | run container reply _ _ runs e ↦
          let address = address_to job.service_type job.protocol (heap job.pod_to) in
          let from = heap job.pod_from in
          ground (
            arith,
            agn_host_no_error remote from.namespace from.name container address job.protocol
                job.to_port w,
            nc_no_error remote wrapping from.namespace from.name container address job.protocol
                job.to_port w,
          )
    ]
