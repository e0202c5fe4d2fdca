-- ===== src/Examples/Measuring.antt =====
-- Probes that measure bandwidth, on a cluster whose `iperf` prints one line.
use k8s_service_validator.Prelude.{true, [], ◌∷◌, ◌≡◌, refl, none, some, arith, list_beq}
use k8s_service_validator.Outcome.{ok}
use k8s_service_validator.Text.{codes, split, trim_space, value}
use k8s_service_validator.Kubernetes.Exec.{Remote, exec_with_options}
use k8s_service_validator.Commands.{protocol_tcp, debug_string, execute}
use k8s_service_validator.Commands.IPerf.{new_client}
use k8s_service_validator.Matrix.Bandwidth.{from_comma_separated_string}
use k8s_service_validator.Matrix.Connect.{probe_connectivity_iperf}
use k8s_service_validator.Matrix.Probe.{
  ProbeJob, ProbeJobResults, probe_job, address_to, first_container_name,
}
use k8s_service_validator.Matrix.Probe.Total.{PrintsBandwidth}
use k8s_service_validator.Matrix.Probe.Measured.{Measured, measured_lem}
use k8s_service_validator.Matrix.Round.{Round, Steps, here, next, send, start, IsDone}
use k8s_service_validator.Matrix.Round.Finish.{IsRecordable, round_finishes_measured}
use k8s_service_validator.Examples.Data.{whole, wrapping, heap, before}
use k8s_service_validator.Examples.Rounds.{job, heap_after}
use k8s_service_validator.Examples.Validation.{has_row}
use k8s_service_validator.Entities.Pod.{pod_string}
use k8s_service_validator.Entities.PodString.{new_pod_string}
use k8s_service_validator.Entities.Container.{get_name}

abbrev measuring : Remote
measuring = record {
  World = Unit;
  new_executor = λ req. none;
  stream = λ req stdin w. ((codes "0,1,2,3,4,5,6,7,800", [], none), w);
}

abbrev measured : ProbeJob
measured = record job { measure_bandwidth = true }

abbrev result : ProbeJobResults whole
result = record {
  job = measured;
  is_connected = true;
  err = none;
  command =
      debug_string (new_client (codes "x") (codes "a") (codes "c") (codes "1") 80 protocol_tcp);
  endpoint = [];
  bandwidth = some (record { bandwidth = 800 });
}

probed : probe_job whole measuring wrapping 7 measured heap tt ≡ ok (result, heap_after, tt)
unfolding probe_job first_container_name probe_connectivity_iperf execute exec_with_options
    k8s_service_validator.Kubernetes.Exec.execute from_comma_separated_string split trim_space
    list_beq value get_name address_to
probed = refl

measured_lem_example : Measured whole measuring wrapping measured heap result
measured_lem_example =
    measured_lem whole measuring wrapping 7 measured heap heap_after tt tt result refl refl probed
      refl

prints : PrintsBandwidth measuring
unfolding split execute exec_with_options trim_space k8s_service_validator.Kubernetes.Exec.execute
prints = record { fields = λ ns pod container addr_to protocol port w fine. omega arith }

recordable : IsRecordable heap before measured
unfolding pod_string new_pod_string
recordable = record { populated = refl; row = has_row }

abbrev first : Round whole
first = start heap (measured ∷ []) before

abbrev second : Round whole
second = record first { unsent = []; jobs = measured ∷ [] }

round_finishes_measured_example :
    (t : Round whole) × Steps whole measuring wrapping second t × IsDone whole measuring wrapping t
round_finishes_measured_example =
    round_finishes_measured whole measuring wrapping heap (measured ∷ []) before tt second prints
      (recordable, tt) (next here (send measured [] refl))
