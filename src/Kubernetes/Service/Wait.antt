-- ===== src/Kubernetes/Service/Wait.antt =====
-- pkg/entities/kubernetes/service.go, the four waits. A watch fails, or delivers the events that
-- come before the first pause of 15 seconds, on which the wait gives up; that the watch is closed
-- meanwhile, and that events come for ever, has no part.
pub mod Found
use k8s_service_validator.Prelude.{
  ℕ, Bool, true, false, not, ◌&&◌, List, [], ◌∷◌, ◌++◌, Option, none, some, ltb, length,
  if◌then◌else◌, ◌==◌, nat_eq,
}
use k8s_service_validator.Outcome.{Outcome, ok, panic, nil_dereference}
use k8s_service_validator.Text.{Text, text_eq}
use k8s_service_validator.Kubernetes.Exec.{Error}
use k8s_service_validator.Kubernetes.Service.{K8sService, ServicePort}

-- A failed watch is a nil interface beside its error.
pub data Watch (E : Type 0) : Type 0 where
  watch_failed : Error → Watch E
  events : List E → Watch E

-- `v1.EndpointSubset` and `v1.Endpoints`, the fields that the program reads.
pub record EndpointSubset : Type 0 where
  pub addresses : List Text
  pub not_ready_addresses : List Text

pub record Endpoints : Type 0 where
  pub subsets : List EndpointSubset

unfoldable pub any_ready : List EndpointSubset → Bool
any_ready [] = false
any_ready (s ∷ ss) =
    if ltb 0 (length s.addresses) && (length s.not_ready_addresses == 0) then true else any_ready ss

unfoldable pub ready_endpoint : List Endpoints → Bool
unfolding any_ready
ready_endpoint [] = false
ready_endpoint (e ∷ es) = if any_ready e.subsets then true else ready_endpoint es

-- The endpoints of every service of the namespace count.
unfoldable pub wait_for_endpoint : Watch Endpoints → Bool × Option Error
unfolding ready_endpoint
wait_for_endpoint (watch_failed e) = (false, some e)
wait_for_endpoint (events es) = (ready_endpoint es, none)

unfoldable pub first_cluster_ip : Text → List K8sService → Text
first_cluster_ip name [] = []
first_cluster_ip name (svc ∷ svcs) =
    if svc.name == name && not (svc.cluster_ip == [])
    then svc.cluster_ip
    else first_cluster_ip name svcs

-- `defer serviceWatch.Stop()` stands before the test of the error: with no watch it panics.
unfoldable pub wait_for_cluster_ip : K8sService → Watch K8sService → Outcome (Text × Option Error)
unfolding first_cluster_ip
wait_for_cluster_ip s (watch_failed e) = panic nil_dereference
wait_for_cluster_ip s (events svcs) = ok (first_cluster_ip s.name svcs, none)

unfoldable first_node_port_of : List ServicePort → Option ℕ
first_node_port_of [] = none
first_node_port_of (p ∷ ps) =
    if not (p.node_port == 0) then some p.node_port else first_node_port_of ps

unfoldable first_node_port : Text → List K8sService → ℕ
unfolding first_node_port_of
first_node_port name [] = 0
first_node_port name (svc ∷ svcs) =
    if svc.name == name
    then elim (first_node_port_of svc.ports) [ some n ↦ n | none ↦ first_node_port name svcs ]
    else first_node_port name svcs

unfoldable wait_for_node_port : K8sService → Watch K8sService → Outcome (ℕ × Option Error)
unfolding first_node_port
wait_for_node_port s (watch_failed e) = panic nil_dereference
wait_for_node_port s (events svcs) = ok (first_node_port s.name svcs, none)

unfoldable pub all_ingress : Text → List K8sService → List Text
all_ingress name [] = []
all_ingress name (svc ∷ svcs) =
    if svc.name == name then svc.ingress ++ all_ingress name svcs else all_ingress name svcs

-- A failed watch is no error here, and a later event adds its addresses to those of the earlier.
unfoldable pub wait_for_external_ip : K8sService → Watch K8sService → List Text × Option Error
unfolding all_ingress
wait_for_external_ip s (watch_failed e) = ([], none)
wait_for_external_ip s (events svcs) = (all_ingress s.name svcs, none)
