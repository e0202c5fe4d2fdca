-- ===== src/Entities/Service/Ports.antt =====
-- The ports of a service, and its name.
use k8s_service_validator.Prelude.{
  ℕ, suc, Bool, true, false, ◌&&◌, ◌||◌, ◌≡◌, ◌≢◌, List, [], ◌∷◌, ◌++◌, map, ap, ◌∙◌, none, some,
  arith, eq_iff, contains, ◌==◌,
}
use mathlib.Core.List.{append_cancel_left}
use k8s_service_validator.GoMap.{GoMap, insert}
use k8s_service_validator.Text.{Text, codes, text_eq, itoa, itoa-injective}
use k8s_service_validator.Kubernetes.Service.{ServicePort}
use k8s_service_validator.Entities.Container.{Container}
use k8s_service_validator.Entities.Pod.{Pod, service_name}
use k8s_service_validator.Entities.Pod.Spec.{label_selector}
use k8s_service_validator.Entities.Service.{
  SvcId, all_protocols, port_eq, service_port, ports_set, port_from_container, new_service,
  increase_service_id,
}

-- Some container of the protocol has this service port.
abbrev offers : Text → ServicePort → List Container → Bool
offers protocol sp [] = false
offers protocol sp (c ∷ cs) =
    ((protocol == all_protocols || protocol == c.protocol) && service_port c.protocol c.port == sp)
    || offers protocol sp cs

keys : GoMap ServicePort Bool → List ServicePort
keys set = map (λ entry. entry.0) set

contains-insert :
    (sp k : ServicePort) (set : GoMap ServicePort Bool)
    → contains sp (keys (insert k true set)) ≡ (contains sp (keys set) || k == sp)
unfolding contains keys insert
contains-insert sp k [] = ground arith
contains-insert sp k ((j, v) ∷ set) =
    ground (arith, contains-insert sp k set, eq_iff j k, eq_iff k sp, eq_iff j sp)

contains-ports_set :
    (protocol : Text) (sp : ServicePort) (cs : List Container) (set : GoMap ServicePort Bool)
    → contains sp (keys (ports_set protocol cs set))
      ≡ (contains sp (keys set) || offers protocol sp cs)
unfolding ports_set
contains-ports_set protocol sp [] set = ground arith
contains-ports_set protocol sp (c ∷ cs) set = ground (
  arith,
  contains-insert sp (service_port c.protocol c.port) set,
  contains-ports_set protocol sp cs set,
  contains-ports_set protocol sp cs (insert (service_port c.protocol c.port) true set),
)

-- A service port is among those of `portFromContainer` exactly if a container of the protocol, or
-- of any protocol if all are asked for, offers it.
port_from_container_lem :
    (containers : List Container) (protocol : Text) (sp : ServicePort)
    → contains sp (port_from_container containers protocol) ≡ offers protocol sp containers
unfolding port_from_container keys contains
port_from_container_lem containers protocol sp = contains-ports_set protocol sp containers []

-- Two services that are made for pods of one namespace and name, with any two different states of
-- the counter, have different names; the state after a nil counter is that after 0.
pub new_service_names :
    (p q : Pod) (n m : ℕ)
    → p.namespace ≡ q.namespace
    → p.name ≡ q.name
    → n ≢ m
    → (new_service p (some n)).0.name ≢ (new_service q (some m)).0.name
unfolding new_service increase_service_id service_name
new_service_names p q n m same_namespace same_name other same =
    let prefix : service_name q ≡ service_name p = unfold service_name in cc in
    let whole : service_name p ++ (codes "-" ++ itoa (suc n))
        ≡ service_name p ++ (codes "-" ++ itoa (suc m)) =
      same ∙ ap (λ t. t ++ (codes "-" ++ itoa (suc m))) prefix in
    let rest : codes "-" ++ itoa (suc n) ≡ codes "-" ++ itoa (suc m) =
      append_cancel_left (service_name p) _ _ whole in
    let number : itoa (suc n) ≡ itoa (suc m) = append_cancel_left (codes "-") _ _ rest in
    other (omega (arith, itoa-injective number))

-- Each service raises the counter, so that no later one of the same pod has its name.
new_service_again :
    (p : Pod) (id : SvcId)
    → (new_service p id).0.name
      ≢ (new_service (new_service p id).1 (some (new_service p id).2)).0.name
unfolding new_service increase_service_id service_name label_selector
new_service_again p none same = absurd (
    ground (
      arith,
      itoa-injective
          (append_cancel_left (codes "-") _ _ (append_cancel_left (service_name p) _ _ same)),
    ))
new_service_again p (some n) same = absurd (
    ground (
      arith,
      itoa-injective
          (append_cancel_left (codes "-") _ _ (append_cancel_left (service_name p) _ _ same)),
    ))
