-- ===== src/Matrix/Probe.antt =====
-- pkg/matrix/probe.go: the jobs of a round of probes and what a worker makes of one job.
pub mod Filled
pub mod Job
pub mod Jobs
pub mod Total
pub mod Measured
use k8s_service_validator.Prelude.{
  ℕ, Bool, true, false, not, ◌&&◌, ◌++◌, List, [], ◌∷◌, ◌==◌, nat_eq, Option, none, some, map,
  if◌then◌else◌,
}
use k8s_service_validator.Outcome.{Outcome, ok, panic, index_out_of_range, ◌>>=◌}
use k8s_service_validator.Text.{Text, codes, text_eq}
use k8s_service_validator.Kubernetes.Exec.{Remote, Error}
use k8s_service_validator.Commands.{protocol_tcp, protocol_udp}
use k8s_service_validator.Entities.Container.{Container, get_name}
use k8s_service_validator.Entities.Pod.{Pod, ExternalIp, get_external_ips_by_protocol}
use k8s_service_validator.Entities.Service.{
  pod_ip_type, cluster_ip_type, node_port_type, external_name_type, load_balancer_type,
}
use k8s_service_validator.Matrix.Bandwidth.{Floats, BandwidthResults}
use k8s_service_validator.Matrix.Connect.{
  Wrapping, probe_connectivity, probe_connectivity_iperf, probe_connectivity_with_nc,
}
use k8s_service_validator.Matrix.Reachability.{Ref, Heap, TestCase}

pub record ProbeJob : Type 0 where
  pub pod_from : Ref
  pub pod_to : Ref
  pub to_port : ℕ
  pub to_pod_dns_domain : Text
  pub protocol : Text
  pub service_type : Text
  pub reach_target_pod : Bool
  pub measure_bandwidth : Bool

unfoldable set_job_service_type : Text → ProbeJob → ProbeJob
set_job_service_type service_type p = record p { service_type = service_type }

unfoldable get_job_service_type : ProbeJob → Text
get_job_service_type p = p.service_type

pub record ProbeJobResults (fl : Floats) : Type 0 where
  pub job : ProbeJob
  pub is_connected : Bool
  pub err : Option Error
  pub command : Text
  pub endpoint : Text
  pub bandwidth : Option (BandwidthResults fl)

first_ip : List ExternalIp → Text
first_ip [] = []
first_ip (ip ∷ _) = ip.ip

load_balancer_address : Text → Pod → Text
load_balancer_address protocol pod_to =
    if protocol == protocol_tcp
    then first_ip (get_external_ips_by_protocol protocol_tcp pod_to)
    else if protocol == protocol_udp
    then first_ip (get_external_ips_by_protocol protocol_udp pod_to)
    else []

-- The switch on the service type in `probeWorker`.
unfoldable pub address_to : Text → Text → Pod → Text
unfolding first_ip load_balancer_address
address_to service_type protocol pod_to =
    if service_type == pod_ip_type
    then pod_to.pod_ip
    else if service_type == cluster_ip_type
    then pod_to.cluster_ip
    else if service_type == node_port_type
    then pod_to.host_ip
    else if service_type == external_name_type
    then pod_to.service_name
    else if service_type == load_balancer_type
    then load_balancer_address protocol pod_to
    else pod_to.pod_ip

abbrev pub update : Heap → Ref → Pod → Heap
update heap p pod q = if p == q then pod else heap q

-- `podFrom.Containers[0].GetName()` panics on a pod with no container, and fills in its name.
first_name : ℕ → Ref → List Container → Heap → Outcome (Text × Heap)
first_name random p [] heap = panic index_out_of_range
first_name random p (c ∷ cs) heap =
    let (name, c') = get_name random c in
    ok (name, update heap p (record (heap p) { containers = c' ∷ cs }))

unfoldable pub first_container_name : ℕ → Ref → Heap → Outcome (Text × Heap)
unfolding first_name
first_container_name random p heap = first_name random p (heap p).containers heap

module _ (fl : Floats) (remote : Remote) (wrapping : Wrapping) where
  pub record Reply : Type 0 where
    pub connected : Bool
    pub endpoint : Text
    pub bandwidth : Option (BandwidthResults fl)
    pub command : Text
    pub err : Option Error

  -- The three ways to probe.
  unfoldable pub run_probe :
      ProbeJob → Pod → Text → Text → remote.World → Outcome (Reply × remote.World)
  run_probe job from container addr_to w =
      if job.measure_bandwidth
      then (do
        reply ←
            probe_connectivity_iperf fl remote from.namespace from.name container addr_to
              job.protocol job.to_port w
        let (connected, bandwidth, command, err) = reply.0
        ok (
          record {
            connected = connected;
            endpoint = [];
            bandwidth = bandwidth;
            command = command;
            err = err;
          },
          reply.1,
        ))
      else if job.reach_target_pod
      then (let ((connected, ep, command, err), w') =
            probe_connectivity_with_nc remote wrapping from.namespace from.name container addr_to
              job.protocol job.to_port w in
          ok (
            record {
              connected = connected;
              endpoint = ep;
              bandwidth = none;
              command = command;
              err = err;
            },
            w',
          ))
      else (let ((connected, command, err), w') =
            probe_connectivity remote from.namespace from.name container addr_to job.protocol
              job.to_port w in
          ok (
            record {
              connected = connected;
              endpoint = [];
              bandwidth = none;
              command = command;
              err = err;
            },
            w',
          ))

  -- The result for a pod that is not to be probed.
  abbrev pub skipped : ProbeJob → ProbeJobResults fl
  skipped job = record {
    job = job;
    is_connected = true;
    err = none;
    command = codes "skip";
    endpoint = [];
    bandwidth = none;
  }

  -- The result for a reply: where the target itself is to be reached, a reply that names another
  -- pod is no connection.
  abbrev pub sent : ProbeJob → Pod → Reply → ProbeJobResults fl
  sent job pod_to reply = record {
    job = job;
    is_connected =
        if job.reach_target_pod && not (pod_to.name == reply.endpoint)
        then false
        else reply.connected;
    err = reply.err;
    command = reply.command;
    endpoint = reply.endpoint;
    bandwidth = reply.bandwidth;
  }

  -- One round of `probeWorker`'s loop: the result that it sends for a job.
  unfoldable pub probe_job :
      ℕ → ProbeJob → Heap → remote.World → Outcome (ProbeJobResults fl × Heap × remote.World)
  unfolding run_probe
  probe_job random job heap w =
      if (heap job.pod_to).skip_probe then ok (skipped job, heap, w) else (do
        let addr_to = address_to job.service_type job.protocol (heap job.pod_to)
        named ← first_container_name random job.pod_from heap
        answer ← run_probe job (heap job.pod_from) named.0 addr_to w
        ok (sent job (heap job.pod_to) answer.0, named.1, answer.1))

-- `ProbePodToPodConnectivity` makes a job for each pair; a test case with no port of its own goes
-- by the target pod's.
module _ {B : Type 0} (heap : Heap) (dns_domain : Text) (test_case : TestCase B)
    (reach measure : Bool) where
  unfoldable pub make_job : Ref → Ref → ProbeJob
  make_job pod_from pod_to = record {
    pod_from = pod_from;
    pod_to = pod_to;
    to_port = if test_case.to_port == 0 then (heap pod_to).to_port else test_case.to_port;
    to_pod_dns_domain = dns_domain;
    protocol = test_case.protocol;
    service_type = test_case.service_type;
    reach_target_pod = reach;
    measure_bandwidth = measure;
  }

  pub jobs_from : List Ref → List Ref → List ProbeJob
  jobs_from to_pods [] = []
  jobs_from to_pods (p ∷ from_pods) = map (make_job p) to_pods ++ jobs_from to_pods from_pods

  unfoldable pub make_jobs : List Ref → List ProbeJob
  unfolding make_job jobs_from
  make_jobs pods = jobs_from pods pods
