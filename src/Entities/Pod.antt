-- ===== src/Entities/Pod.antt =====
-- pkg/entities/pod.go: the pod as the program sees it. A method with a pointer receiver returns the
-- changed pod. Where the
-- code calls a getter, the field is read.
pub mod Spec
use k8s_service_validator.Prelude.{
  ℕ, Bool, true, false, List, [], ◌∷◌, ◌++◌, ◌==◌, Option, none, map, if◌then◌else◌,
}
use k8s_service_validator.GoMap.{GoMap}
use k8s_service_validator.Text.{Text, codes, text_eq, contains_text}
use k8s_service_validator.Entities.Container.{Container}
use k8s_service_validator.Entities.PodString.{PodString, new_pod_string}

pub record ExternalIp : Type 0 where
  pub ip : Text
  pub protocol : Text

-- A nil map of labels and a nil slice of init containers are `none`.
pub record Pod : Type 0 where
  pub namespace : Text
  pub name : Text
  pub node_name : Text
  pub init_containers : Option (List Container)
  pub containers : List Container
  pub external_ips : List ExternalIp
  pub skip_probe : Bool
  pub service_name : Text
  pub cluster_ip : Text
  pub pod_ip : Text
  pub host_ip : Text
  pub to_port : ℕ
  pub host_network : Bool
  pub labels : Option (GoMap Text Text)

unfoldable new_external_ip : Text → Text → ExternalIp
new_external_ip ip protocol = record { ip = ip; protocol = protocol }

unfoldable new_external_ips : List Text → Text → List ExternalIp
new_external_ips ips protocol = map (λ ip. new_external_ip ip protocol) ips

unfoldable get_to_port : Pod → ℕ
get_to_port p = p.to_port

unfoldable get_host_ip : Pod → Text
get_host_ip p = p.host_ip

unfoldable get_node_name : Pod → Text
get_node_name p = p.node_name

unfoldable pub get_cluster_ip : Pod → Text
get_cluster_ip p = p.cluster_ip

unfoldable get_service_name : Pod → Text
get_service_name p = p.service_name

unfoldable get_pod_ip : Pod → Text
get_pod_ip p = p.pod_ip

unfoldable get_external_ips : Pod → List ExternalIp
get_external_ips p = p.external_ips

unfoldable set_to_port : ℕ → Pod → Pod
set_to_port to_port p = record p { to_port = to_port }

unfoldable pub set_host_ip : Text → Pod → Pod
set_host_ip host_ip p = record p { host_ip = host_ip }

unfoldable pub set_node_name : Text → Pod → Pod
set_node_name node_name p = record p { node_name = node_name }

unfoldable set_cluster_ip : Text → Pod → Pod
set_cluster_ip cluster_ip p = record p { cluster_ip = cluster_ip }

unfoldable set_service_name : Text → Pod → Pod
set_service_name service_name p = record p { service_name = service_name }

unfoldable pub set_pod_ip : Text → Pod → Pod
set_pod_ip pod_ip p = record p { pod_ip = pod_ip }

unfoldable set_external_ips : List ExternalIp → Pod → Pod
set_external_ips external_ips p = record p { external_ips = external_ips }

-- The loop of `GetExternalIPsByProtocol`.
unfoldable external_ips_of : Text → List ExternalIp → List ExternalIp
external_ips_of protocol [] = []
external_ips_of protocol (ip ∷ ips) =
    if ip.protocol == protocol
    then ip ∷ external_ips_of protocol ips
    else external_ips_of protocol ips

unfoldable pub get_external_ips_by_protocol : Text → Pod → List ExternalIp
unfolding external_ips_of
get_external_ips_by_protocol protocol p = external_ips_of protocol p.external_ips

any_iperf : List Text → Bool
any_iperf [] = false
any_iperf (cmd ∷ cmds) = if contains_text cmd (codes "iperf") then true else any_iperf cmds

any_perf : List Container → Bool
any_perf [] = false
any_perf (c ∷ cs) = if any_iperf c.command then true else any_perf cs

unfoldable is_perf : Pod → Bool
unfolding any_iperf any_perf
is_perf p = any_perf p.containers

unfoldable pub pod_string : Pod → PodString
pod_string p = new_pod_string p.node_name p.namespace p.name

unfoldable pub service_name : Pod → Text
service_name p = codes "s-" ++ (p.namespace ++ (codes "-" ++ p.name))

unfoldable qualified_service_address : Text → Pod → Text
unfolding service_name
qualified_service_address dns_domain p =
    service_name p ++ (codes "." ++ (p.namespace ++ (codes ".svc." ++ dns_domain)))

unfoldable pub reset : Pod → Pod
reset p = record p {
  external_ips = [];
  skip_probe = false;
  service_name = [];
  cluster_ip = [];
  to_port = 0;
  host_network = false;
}
