-- ===== src/Entities/Service.antt =====
-- pkg/entities/service.go: the kinds of service, and the services made from a pod or a template.
pub mod Ports
use k8s_service_validator.Prelude.{
  ℕ, suc, Bool, true, false, not, ◌&&◌, ◌≡◌, ◌↔◌, List, [], ◌∷◌, ◌++◌, map, Option, none, some,
  arith, if◌then◌else◌, ◌==◌, nat_eq, Eq, eq_iff,
}
use k8s_service_validator.GoMap.{GoMap, insert}
use k8s_service_validator.Text.{Text, codes, text_eq, itoa, to_lower}
use k8s_service_validator.Kubernetes.Service.{K8sService, ServicePort}
use k8s_service_validator.Entities.Container.{Container}
use k8s_service_validator.Entities.Pod.{Pod, service_name}
use k8s_service_validator.Entities.Pod.Spec.{label_selector}

abbrev pub pod_ip_type : Text
pod_ip_type = codes "podip"

abbrev pub cluster_ip_type : Text
cluster_ip_type = codes "clusteip"

abbrev pub node_port_type : Text
node_port_type = codes "nodeport"

abbrev pub external_name_type : Text
external_name_type = codes "externalname"

abbrev pub load_balancer_type : Text
load_balancer_type = codes "loadbalancer"

abbrev pub all_protocols : Text
all_protocols = codes "allprotocols"

pub record ProtocolPortPair : Type 0 where
  pub protocol : Text
  pub port : ℕ

pub record ServiceTemplate : Type 0 where
  pub name : Text
  pub namespace : Text
  pub selector : GoMap Text Text
  pub protocol_ports : List ProtocolPortPair
  pub session_affinity : Bool

-- The counter that `SvcID` points to; a nil pointer is `none`. Its mutex makes an increase atomic.
abbrev pub SvcId : Type 0
SvcId = Option ℕ

unfoldable pub increase_service_id : SvcId → ℕ
increase_service_id none = 1
increase_service_id (some id) = suc id

-- `==` on service ports, which are keys of a map.
unfoldable pub port_beq : ServicePort → ServicePort → Bool
port_beq a b =
    a.name == b.name
    && (a.protocol == b.protocol && (a.port == b.port && a.node_port == b.node_port))

pub port_beq_iff : (a b : ServicePort) → (port_beq a b ≡ true) ↔ (a ≡ b)
unfolding port_beq
port_beq_iff a b = ground (
  arith,
  eq_iff a.name b.name,
  eq_iff a.protocol b.protocol,
  eq_iff a.port b.port,
  eq_iff a.node_port b.node_port,
)

instance abbrev pub port_eq : Eq ServicePort
port_eq = record { equal = port_beq; equal_iff = port_beq_iff }

-- `fmt.Sprintf("service-port-%s-%d", ...)`.
unfoldable pub service_port : Text → ℕ → ServicePort
service_port protocol port = record {
  name = codes "service-port-" ++ (to_lower protocol ++ (codes "-" ++ itoa port));
  protocol = protocol;
  port = port;
  node_port = 0;
}

-- The first loop of `portFromContainer`, which fills a set.
unfoldable pub ports_set : Text → List Container → GoMap ServicePort Bool → GoMap ServicePort Bool
unfolding service_port
ports_set protocol [] set = set
ports_set protocol (c ∷ cs) set =
    if not (protocol == all_protocols) && not (protocol == c.protocol)
    then ports_set protocol cs set
    else ports_set protocol cs (insert (service_port c.protocol c.port) true set)

-- The second loop, which lists the set in some order: here in the order of the containers.
unfoldable pub port_from_container : List Container → Text → List ServicePort
unfolding ports_set
port_from_container containers protocol = map (λ entry. entry.0) (ports_set protocol containers [])

-- A new service for a pod, with the pod's labels, which making it may change, and the counter.
unfoldable pub new_service : Pod → SvcId → K8sService × Pod × ℕ
unfolding increase_service_id
new_service p id =
    let id' = increase_service_id id in
    let (selector, p') = label_selector p in
    (
      record {
        name = service_name p ++ (codes "-" ++ itoa id');
        namespace = p.namespace;
        labels = none;
        selector = selector;
        ports = [];
        service_type = [];
        cluster_ip = [];
        external_name = [];
        external_traffic_policy = [];
        session_affinity = [];
        ingress = [];
      },
      p',
      id',
    )

unfoldable cluster_ip_service : Pod → SvcId → K8sService × Pod × ℕ
unfolding new_service port_from_container
cluster_ip_service p id =
    let (s, p', id') = new_service p id in
    (
      record s {
        service_type = codes "ClusterIP";
        ports = port_from_container p'.containers all_protocols;
      },
      p',
      id',
    )

unfoldable node_port_service : Pod → SvcId → K8sService × Pod × ℕ
unfolding new_service port_from_container
node_port_service p id =
    let (s, p', id') = new_service p id in
    (
      record s {
        service_type = codes "NodePort";
        ports = port_from_container p'.containers all_protocols;
      },
      p',
      id',
    )

unfoldable external_name_service : Text → Pod → SvcId → K8sService × Pod × ℕ
unfolding new_service
external_name_service domain p id =
    let (s, p', id') = new_service p id in
    (record s { service_type = codes "ExternalName"; external_name = domain }, p', id')

unfoldable load_balancer_service_by_protocol : Text → Pod → SvcId → K8sService × Pod × ℕ
unfolding new_service port_from_container
load_balancer_service_by_protocol protocol p id =
    let (s, p', id') = new_service p id in
    (
      record s {
        service_type = codes "LoadBalancer";
        ports = port_from_container p'.containers protocol;
      },
      p',
      id',
    )

unfoldable node_port_local_service : Pod → SvcId → K8sService × Pod × ℕ
unfolding new_service port_from_container
node_port_local_service p id =
    let (s, p', id') = new_service p id in
    (
      record s {
        service_type = codes "NodePort";
        external_traffic_policy = codes "Local";
        ports = port_from_container p'.containers all_protocols;
      },
      p',
      id',
    )
