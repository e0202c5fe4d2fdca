-- ===== src/Examples/Probing.antt =====
-- A probe of the pod "b" by the pod "a", and one on a cluster that refuses.
use k8s_service_validator.Prelude.{true, ◌≡◌, [], refl, none, some, list_beq}
use k8s_service_validator.Outcome.{ok}
use k8s_service_validator.Text.{Text, codes, text_eq, itoa, join, trim_space}
use k8s_service_validator.Kubernetes.Exec.{Remote, Error, exec_with_options}
use k8s_service_validator.Commands.{CommandImpl, protocol_tcp, protocol_sctp, debug_string}
use k8s_service_validator.Commands.Netcat
use k8s_service_validator.Matrix.Connect.{max_retries, probe_connectivity_with_nc}
use k8s_service_validator.Matrix.Connect.Retry.{FirstSuccess, nc_reply, nc_no_error}
use k8s_service_validator.Matrix.Probe.{
  ProbeJob, ProbeJobResults, probe_job, address_to, first_container_name,
}
use k8s_service_validator.Matrix.Probe.Job.{reached_target}
use k8s_service_validator.Examples.Data.{whole, answering, wrapping, heap}
use k8s_service_validator.Examples.Rounds.{job, heap_after}
use k8s_service_validator.Entities.Container.{get_name}

-- A probe that is to reach the pod "b", whose name the netcat command prints.
abbrev to_b : ProbeJob
to_b = record job { pod_to = 1; reach_target_pod = true }

abbrev reached : ProbeJobResults whole
reached = record {
  job = to_b;
  is_connected = true;
  err = none;
  command = codes "kubectl exec a -c c -n x -- nc -w10 1 80";
  endpoint = codes "b";
  bandwidth = none;
}

probed_b : probe_job whole answering wrapping 7 to_b heap tt ≡ ok (reached, heap_after, tt)
unfolding probe_job first_container_name get_name probe_connectivity_with_nc list_beq
    k8s_service_validator.Commands.execute exec_with_options
    k8s_service_validator.Kubernetes.Exec.execute trim_space debug_string Netcat.new_client join
    Netcat.connect_command address_to itoa
probed_b = refl

reached_target_example :
    (container : Text) × (first_container_name 7 0 heap ≡ ok (container, heap_after))
    × FirstSuccess answering
        (Netcat.new_client
          (heap 0).namespace
          (heap 0).name
          container
          (address_to to_b.service_type protocol_tcp (heap 1))
          to_b.to_port
          protocol_tcp)
        tt
        max_retries
        (codes "b")
reached_target_example =
    reached_target whole answering wrapping 7 to_b heap heap_after tt tt reached probed_b refl refl
      refl refl

-- A cluster in which every command fails.
abbrev refusing : Remote
refusing = record {
  World = Unit;
  new_executor = λ req. none;
  stream = λ req stdin w. (([], [], some (record { message = codes "exit 1" })), w);
}

nc_no_error_example :
    (nc_reply refusing wrapping
      (codes "x")
      (codes "a")
      (codes "c")
      (codes "1")
      protocol_tcp
      80
      tt).3
    ≡ none
nc_no_error_example =
    nc_no_error refusing wrapping (codes "x") (codes "a") (codes "c") (codes "1") protocol_tcp 80 tt
