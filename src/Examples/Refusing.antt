-- ===== src/Examples/Refusing.antt =====
-- Waiting for the servers of one pod, on a cluster in which every command fails.
use k8s_service_validator.Prelude.{
  ℕ, false, [], ◌≡◌, ◌≢◌, refl, sym, ap, ◌∙◌, Option, none, some, subst, arith, inl, inr,
  Option-cases,
}
use k8s_service_validator.Prelude.Elem.{Elem, here}
use k8s_service_validator.GoMap.{lookup}
use k8s_service_validator.Outcome.{ok}
use k8s_service_validator.Text.{Text, codes, text_eq}
use k8s_service_validator.Kubernetes.Exec
use k8s_service_validator.Kubernetes.Exec.{Remote}
use k8s_service_validator.Commands
use k8s_service_validator.Commands.{protocol_tcp}
use k8s_service_validator.Entities.Pod.{Pod}
use k8s_service_validator.Matrix.Connect.{probe_connectivity}
use k8s_service_validator.Matrix.Reachability.{Ref, Heap}
use k8s_service_validator.Matrix.Model.{all_pods}
use k8s_service_validator.Matrix.Probe.{ProbeJob, ProbeJobResults, Reply, run_probe, address_to}
use k8s_service_validator.Matrix.Probe.Filled.{OnlyContainers}
use k8s_service_validator.Matrix.Probe.Job.{Probed, skip, run, probe_job_ways}
use k8s_service_validator.Matrix.Servers.{ServerCase, cases_of, pods_of_model, Waited}
use k8s_service_validator.Matrix.Servers.Ready.{servers_ready}
use k8s_service_validator.Matrix.Servers.Failed.{WrongThroughout, servers_failed}
use k8s_service_validator.Matrix.Servers.Returns.{servers_run}
use k8s_service_validator.Examples.Data.{whole, wrapping, heap}
use k8s_service_validator.Examples.Waiting.{model, model', found, read, populated, what_was_read}

abbrev refusing : Remote
refusing = record {
  World = Unit;
  new_executor = λ req. none;
  stream = λ req stdin w. (([], [], some (record { message = codes "refused" })), w);
}

waiting : (result : Option ℕ) × Waited whole refusing wrapping heap model result
waiting = servers_run whole refusing wrapping tt heap model model' found read populated

reply_refused :
    (job : ProbeJob) (from : Pod) (container address : Text) (reply : Reply whole refusing wrapping)
    → job.measure_bandwidth ≡ false
    → job.reach_target_pod ≡ false
    → run_probe whole refusing wrapping job from container address tt ≡ ok (reply, tt)
    → reply.connected ≡ false
unfolding run_probe probe_connectivity Commands.execute Exec.exec_with_options Exec.execute
reply_refused job from container address reply unmeasured unreached runs = ground arith

never_skipped : (p : Ref) → (heap p).skip_probe ≡ false
never_skipped p = ground arith

never_connected :
    (h : Heap) (job : ProbeJob) (res : ProbeJobResults whole)
    → OnlyContainers heap h
    → Probed whole refusing wrapping h job res
    → job.measure_bandwidth ≡ false
    → job.reach_target_pod ≡ false
    → res.is_connected ≡ false
never_connected h job res same p unmeasured unreached =
    elim (probe_job_ways whole refusing wrapping p.random job h p.heap' p.world p.world' res
      p.runs) [
        | skip skips e _ ↦ absurd (
            ground
              (arith, ap (λ (q : Pod). q.skip_probe) (same job.pod_to).0, never_skipped job.pod_to))
        | run container reply _ _ runs e ↦ ground (
          arith,
          e,
          reply_refused job (h job.pod_from) container
              (address_to job.service_type job.protocol (h job.pod_to)) reply unmeasured unreached
              runs,
        )
      ]

as_read : (waiting.1.found ≡ found) × (waiting.1.m' ≡ model')
as_read = what_was_read (sym waiting.1.ports_protocols ∙ read)

pod_a : Elem 0 (pods_of_model waiting.1.m').refs
unfolding all_pods
pod_a = subst (λ m. Elem 0 (pods_of_model m).refs) (sym as_read.1) (here refl)

never_ready : waiting.0 ≢ none
never_ready nil =
    let conf =
      servers_ready whole refusing wrapping heap model waiting.0 waiting.1 80 protocol_tcp 0 0 nil
        (subst (λ f. Elem 80 f.0) (sym as_read.0) (here refl))
        (subst (λ f. Elem protocol_tcp f.1) (sym as_read.0) (here refl)) pod_a pod_a in
    let refused =
      never_connected conf.heap' conf.result.job conf.result conf.same conf.probed
        conf.of_test.measure_bandwidth conf.of_test.reach_target_pod in
    ground (arith, conf.connection)

ends_badly : (k : ℕ) × (waiting.0 ≡ some k)
ends_badly = elim (Option-cases waiting.0) [
  | inl nil ↦ absurd (never_ready nil)
  | inr failed ↦ failed
]

servers_failed_example :
    (ends_badly.0 ≢ 0)
    × ((name : Text) × (c : ServerCase) × (lookup name (cases_of waiting.1.found) ≡ some c)
        × WrongThroughout whole refusing wrapping (pods_of_model waiting.1.m') name waiting.1.tries)
servers_failed_example =
    servers_failed whole refusing wrapping heap model waiting.0 waiting.1 ends_badly.0 ends_badly.1
