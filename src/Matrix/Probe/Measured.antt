-- ===== src/Matrix/Probe/Measured.antt =====
-- What a probe that measures bandwidth says.
use k8s_service_validator.Prelude.{
  ℕ, true, false, [], ◌≡◌, ◌≢◌, none, some, arith, get_elem?, eq_iff, inl, inr, Option-cases,
}
use k8s_service_validator.Outcome.{ok, Outcome-cases}
use k8s_service_validator.Text.{Text, split, text_eq}
use k8s_service_validator.Kubernetes.Exec.{Remote}
use k8s_service_validator.Commands.{execute}
use k8s_service_validator.Commands.IPerf.{new_client}
use k8s_service_validator.Matrix.Bandwidth.{Floats, BandwidthResults, from_comma_separated_string}
use k8s_service_validator.Matrix.Connect.{Wrapping, probe_connectivity_iperf}
use k8s_service_validator.Matrix.Reachability.{Heap}
use k8s_service_validator.Matrix.Probe.{ProbeJob, ProbeJobResults, run_probe, probe_job, address_to}
use k8s_service_validator.Matrix.Probe.Job.{probe_job_ways, skip, run}

module _ (fl : Floats) (remote : Remote) (wrapping : Wrapping) where
  -- The bandwidth is the number that was read from the ninth field of what `iperf` printed in the
  -- source pod, without an error of `iperf` or of the reading.
  pub record Measured (job : ProbeJob) (heap : Heap) (res : ProbeJobResults fl) : Type 0 where
    pub container : Text
    pub world : remote.World
    pub output : Text
    pub errors : Text
    pub world' : remote.World
    pub printed :
        execute remote
          (new_client
            (heap job.pod_from).namespace
            (heap job.pod_from).name
            container
            (address_to job.service_type job.protocol (heap job.pod_to))
            job.to_port
            job.protocol)
          world
        ≡ ((output, errors, none), world')
    pub field : Text
    pub at : get_elem? (split b',' output) 8 ≡ some field
    pub bandwidth : BandwidthResults fl
    pub parsed : fl.parse_float field ≡ (bandwidth.bandwidth, none)
    pub recorded : res.bandwidth ≡ some bandwidth

  module _ (random : ℕ) (job : ProbeJob) (heap heap' : Heap) (w w' : remote.World)
      (res : ProbeJobResults fl) (shown : (heap job.pod_to).skip_probe ≡ false)
      (measured : job.measure_bandwidth ≡ true)
      (runs : probe_job fl remote wrapping random job heap w ≡ ok (res, heap', w')) where
    -- A probe that measures bandwidth is connected only with a bandwidth that `iperf` printed.
    pub measured_lem : res.is_connected ≡ true → Measured job heap res
    unfolding run_probe probe_connectivity_iperf from_comma_separated_string
    measured_lem connected =
        elim (probe_job_ways fl remote wrapping random job heap heap' w w' res runs) [
          | skip is_skipped _ _ ↦ absurd (ground arith)
          | run container reply _ _ replies e ↦
              let client =
                new_client (heap job.pod_from).namespace (heap job.pod_from).name container
                  (address_to job.service_type job.protocol (heap job.pod_to)) job.to_port
                  job.protocol in
              let ((output, errors, err), w1) = execute remote client w in
              elim (Option-cases err) [
                | inr (e', failed) ↦ absurd (ground (arith, failed))
                | inl fine ↦ elim (Option-cases (get_elem? (split b',' output) 8)) [
                  | inl missing ↦ absurd (ground (arith, fine, missing))
                  | inr (field, at) ↦ elim (Option-cases (fl.parse_float field).1) [
                    | inr (e', unread) ↦ absurd (ground (arith, fine, at, unread))
                    | inl read ↦ record {
                      container = container;
                      world = w;
                      output = output;
                      errors = errors;
                      world' = w1;
                      printed = ground (arith, fine);
                      field = field;
                      at = at;
                      bandwidth = record { bandwidth = (fl.parse_float field).0 };
                      parsed = ground (arith, read);
                      recorded = ground (arith, fine, at, read);
                    }
                  ]
                ]
              ]
        ]

    -- Where the target itself is to be reached, a probe that measures bandwidth is never connected,
    -- since it asks for no name.
    measured_target :
        job.reach_target_pod ≡ true → (heap job.pod_to).name ≢ [] → res.is_connected ≡ false
    unfolding run_probe
    measured_target reach named =
        elim (probe_job_ways fl remote wrapping random job heap heap' w w' res runs) [
          | skip is_skipped _ _ ↦ absurd (ground arith)
          | run container reply _ _ replies e ↦
              elim (Outcome-cases (
                probe_connectivity_iperf fl remote (heap job.pod_from).namespace
                  (heap job.pod_from).name container
                  (address_to job.service_type job.protocol (heap job.pod_to)) job.protocol
                  job.to_port w)) [
                    | inr (p, panics) ↦ absurd (ground (arith, panics))
                    | inl (answer, returns) ↦
                        ground (arith, returns, eq_iff (heap job.pod_to).name [])
                  ]
        ]
