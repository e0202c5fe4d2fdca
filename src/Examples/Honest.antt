-- ===== src/Examples/Honest.antt =====
-- On the cluster in which every command succeeds each probe finds a connection.
use k8s_service_validator.Prelude.{true, false, ◌≡◌, arith}
use k8s_service_validator.Outcome.{ok}
use k8s_service_validator.Text.{Text, text_eq}
use k8s_service_validator.Kubernetes.Exec
use k8s_service_validator.Commands
use k8s_service_validator.Entities.Pod.{Pod}
use k8s_service_validator.Matrix.Reachability.{Heap}
use k8s_service_validator.Matrix.Connect.{probe_connectivity}
use k8s_service_validator.Matrix.Probe.{ProbeJob, ProbeJobResults, Reply, run_probe, address_to}
use k8s_service_validator.Matrix.Probe.Job.{Probed, skip, run, probe_job_ways}
use k8s_service_validator.Examples.Data.{whole, answering, wrapping}

reply_connected :
    (job : ProbeJob) (from : Pod) (container address : Text)
    (reply : Reply whole answering wrapping)
    → job.measure_bandwidth ≡ false
    → job.reach_target_pod ≡ false
    → run_probe whole answering wrapping job from container address tt ≡ ok (reply, tt)
    → reply.connected ≡ true
unfolding run_probe probe_connectivity Commands.execute Exec.exec_with_options Exec.execute
reply_connected job from container address reply unmeasured unreached runs = ground arith

pub always_connected :
    (h : Heap) (job : ProbeJob) (res : ProbeJobResults whole)
    → Probed whole answering wrapping h job res
    → job.measure_bandwidth ≡ false
    → job.reach_target_pod ≡ false
    → res.is_connected ≡ true
always_connected h job res p unmeasured unreached =
    elim (probe_job_ways whole answering wrapping p.random job h p.heap' p.world p.world' res
      p.runs) [
        | skip _ e _ ↦ ground (arith, e)
        | run container reply _ _ runs e ↦ ground (
          arith,
          e,
          reply_connected job (h job.pod_from) container
              (address_to job.service_type job.protocol (h job.pod_to)) reply unmeasured unreached
              runs,
        )
      ]
