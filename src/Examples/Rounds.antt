-- ===== src/Examples/Rounds.antt =====
-- A round of one probe, from the pod "a" to itself.
use k8s_service_validator.Prelude.{◌+◌, ◌*◌, true, false, [], ◌∷◌, ◌≡◌, refl, none, list_beq, arith}
use k8s_service_validator.Prelude.Elem.{here}
use k8s_service_validator.Outcome.{ok}
use k8s_service_validator.Text.{codes, itoa, join}
use k8s_service_validator.Commands.{protocol_tcp, debug_string}
use k8s_service_validator.Entities.Service.{pod_ip_type}
use k8s_service_validator.Matrix.Reachability.{Heap, observe}
use k8s_service_validator.Matrix.Round.Observed.{Recorded, round_records}
use k8s_service_validator.Matrix.Round.Sequential.{Sequential, round_refines}
use k8s_service_validator.Matrix.Round.Progress.{count, steps_left, round_steps}
use k8s_service_validator.Matrix.Probe.{
  ProbeJob, ProbeJobResults, probe_job, update, address_to, first_container_name,
}
use k8s_service_validator.Entities.Pod.{pod_string}
use k8s_service_validator.Matrix.Round.{
  next, send, take, finish, receive, Round, Steps, start, IsDone,
}
use k8s_service_validator.Examples.Data.{whole, answering, wrapping, pod_named, heap, before, after}
use k8s_service_validator.Commands.AgnHost.{connect_command, join_host_port, new_client}
use k8s_service_validator.Entities.PodString.{new_pod_string}
use k8s_service_validator.Kubernetes.Exec.{exec_with_options}
use k8s_service_validator.Matrix.TruthTable.{set, set_bandwidth, write_cell}
use k8s_service_validator.GoMap.{insert, lookup}
use k8s_service_validator.Matrix.Connect.{probe_connectivity}
use k8s_service_validator.Entities.Container.{get_name}

abbrev pub job : ProbeJob
job = record {
  pod_from = 0;
  pod_to = 0;
  to_port = 80;
  to_pod_dns_domain = codes "d";
  protocol = protocol_tcp;
  service_type = pod_ip_type;
  reach_target_pod = false;
  measure_bandwidth = false;
}

abbrev pub result : ProbeJobResults whole
result = record {
  job = job;
  is_connected = true;
  err = none;
  command = codes "kubectl exec a -c c -n x -- /agnhost connect 1:80 --timeout=5s --protocol=tcp";
  endpoint = [];
  bandwidth = none;
}

abbrev pub heap_after : Heap
heap_after = update heap 0 (pod_named (codes "a"))

pub probed : probe_job whole answering wrapping 7 job heap tt ≡ ok (result, heap_after, tt)
unfolding probe_job list_beq first_container_name probe_connectivity get_name
    k8s_service_validator.Commands.execute exec_with_options
    k8s_service_validator.Kubernetes.Exec.execute debug_string new_client join connect_command
    join_host_port address_to itoa
probed = refl

abbrev pub sent : Round whole
sent = record (start heap (job ∷ []) before) { unsent = []; jobs = job ∷ [] }

abbrev pub taken : Round whole
taken = record sent { jobs = []; busy = job ∷ [] }

abbrev pub finished : Round whole
finished = record taken { busy = []; heap = heap_after; results = result ∷ [] }

abbrev pub done : Round whole
done = record finished { results = []; received = result ∷ []; reachability = after }

pub first_step : Steps whole answering wrapping (start heap (job ∷ []) before) sent
first_step = next Steps.here (send job [] refl)

pub steps : Steps whole answering wrapping (start heap (job ∷ []) before) done
unfolding observe set write_cell lookup list_beq pod_string new_pod_string set_bandwidth insert
steps =
    next
      (next (next (next Steps.here (send job [] refl)) (take job [] refl (omega arith)))
        (finish [] [] job 7 tt tt heap_after result refl probed))
      (receive result [] after refl refl received_now)
  where
    received_now :
        observe (pod_string (heap_after 0)) (pod_string (heap_after 0)) true none before ≡ ok after
    received_now = refl

pub is_done : IsDone whole answering wrapping done
is_done = record { unsent = refl; jobs = refl; busy = refl; results = refl }

round_records_example : Recorded whole answering wrapping heap (job ∷ []) before done job
round_records_example =
    round_records whole answering wrapping heap (job ∷ []) before done job steps is_done (here refl)

round_steps_example : count whole answering wrapping steps + steps_left done ≡ 4 * 1
round_steps_example = round_steps whole answering wrapping heap (job ∷ []) before done steps

round_refines_example : Sequential whole answering wrapping heap (job ∷ []) before done.heap after
round_refines_example =
    round_refines whole answering wrapping heap (job ∷ []) before done steps is_done
