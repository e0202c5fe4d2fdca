-- ===== src/Examples/Starting.antt =====
-- The set-up of the suite on a cluster with two ready nodes, in which each pod runs at once and every
-- command succeeds.
use k8s_service_validator.Prelude.{
  ℕ, true, false, List, [], ◌∷◌, ◌≡◌, refl, sym, ◌∙◌, Option, none, some, subst, is_empty, All,
  list_beq, keep, contains,
}
use k8s_service_validator.Prelude.Elem.{Elem, here, there, All-Elem}
use k8s_service_validator.GoMap.{IsRange, IsRange-refl, lookup}
use k8s_service_validator.Outcome.{Outcome, ok, panic}
use k8s_service_validator.Text.{codes, text_eq}
use k8s_service_validator.Kubernetes.PodWait.{
  phase, pod_running_phase, wait_for_pod_running_in_namespace,
}
use k8s_service_validator.Entities.Namespace.{new_namespace_with_pods}
use k8s_service_validator.Matrix.Reachability.{Ref}
use k8s_service_validator.Matrix.Model.{
  Model, Store, Found, all_pods, all_ports_protocol, new_model,
}
use k8s_service_validator.Matrix.Manager.Keeps.{start_pods-Keeps}
use k8s_service_validator.Matrix.Manager.{
  Node, Cluster, State, ManagerError, get_ready_nodes, new_kube_manager, start_pods,
  remove_pending_pods_in_namespace,
}
use k8s_service_validator.Commands.{protocol_tcp, protocol_udp}
use k8s_service_validator.Matrix.Servers.{fresh, pods_of_model, Waited}
use k8s_service_validator.Matrix.Servers.Returns.{Populated, servers_run}
use k8s_service_validator.Matrix.Servers.Honest.{servers_honest}
use k8s_service_validator.Matrix.Validate.Sound.{Confirmed}
use k8s_service_validator.Entities.Pod.{pod_string, set_host_ip, set_node_name, set_pod_ip}
use k8s_service_validator.Setup.Reached.{suite_serves}
use k8s_service_validator.Examples.Waiting.{answering-AllConnect, what_was_read}
use k8s_service_validator.Setup.{suite_model, pod_names, SetUp}
use k8s_service_validator.Setup.Leaves.{IsLeftByAnswers, suite_pods, set_up_leaves}
use k8s_service_validator.Matrix.Manager.Left.{is_left}
use k8s_service_validator.Matrix.Model.Named.{names_at}
use k8s_service_validator.Examples.Data.{whole, answering, wrapping, pod_named}
use k8s_service_validator.Examples.Managing.{ready, cluster_seeing}
use k8s_service_validator.Entities.Pod.Spec.{containers_to_k8s_spec, pod_to_k8s_spec}
use k8s_service_validator.Entities.Container.{to_k8s_spec}

abbrev pub nodes : List Node
nodes =
    record { name = codes "n1"; conditions = ready ∷ [] }
    ∷ record { name = codes "n2"; conditions = ready ∷ [] }
    ∷ []

abbrev pub two : Cluster
two = record (cluster_seeing (phase pod_running_phase ∷ [])) {
  list_nodes = λ w. ((nodes, none), w);
}

abbrev pub store : Store
store = record { heap = λ p. pod_named (codes "none"); next = 0 }

listed : get_ready_nodes two tt ≡ ((nodes, none), tt)
unfolding get_ready_nodes list_beq
listed = refl

abbrev pub suite : Model
suite = (suite_model (codes "x") nodes store).0

abbrev pub before : State two
before = new_kube_manager two (suite_model (codes "x") nodes store).1.heap tt

abbrev default : Option ManagerError × Model × State two
default = (none, suite, before)

abbrev or_default :
    Outcome (Option ManagerError × Model × State two) → Option ManagerError × Model × State two
or_default (ok r) = r
or_default (panic p) = default

abbrev started : Option ManagerError × Model × State two
started = or_default (start_pods two suite nodes before)

starts : start_pods two suite nodes before ≡ ok (none, started.1, started.2)
unfolding start_pods suite_model new_kube_manager new_model new_namespace_with_pods all_pods
    wait_for_pod_running_in_namespace list_beq pod_to_k8s_spec lookup
starts = refl

abbrev removed : Option ManagerError × Model × State two
removed =
    or_default
      (remove_pending_pods_in_namespace two started.2.pending (codes "x") started.1 started.2)

removes :
    remove_pending_pods_in_namespace two started.2.pending (codes "x") started.1 started.2
    ≡ ok (none, removed.1, removed.2)
unfolding remove_pending_pods_in_namespace start_pods suite_model new_kube_manager new_model
    new_namespace_with_pods all_pods wait_for_pod_running_in_namespace list_beq pod_to_k8s_spec
    lookup
removes = refl

abbrev model2 : Model
model2 = removed.1

abbrev state2 : State two
state2 = removed.2

abbrev found : Found
found = (80 ∷ 81 ∷ [], protocol_tcp ∷ protocol_udp ∷ [])

abbrev model3 : Model
model3 = record model2 { ports = some found.0; protocols = some found.1 }

read : all_ports_protocol state2.heap model2 ≡ ok (found, model3)
unfolding all_ports_protocol remove_pending_pods_in_namespace start_pods suite_model
    new_kube_manager new_model new_namespace_with_pods all_pods wait_for_pod_running_in_namespace
    list_beq pod_to_k8s_spec lookup set_node_name set_host_ip set_pod_ip containers_to_k8s_spec
    to_k8s_spec contains
read = refl

refs : (pods_of_model model3).refs ≡ 0 ∷ 1 ∷ []
unfolding all_pods remove_pending_pods_in_namespace start_pods suite_model new_kube_manager
    new_model new_namespace_with_pods wait_for_pod_running_in_namespace list_beq pod_to_k8s_spec
    lookup
refs = refl

abbrev HasContainer : Ref → Type 0
HasContainer a = is_empty (state2.heap a).containers ≡ false

both_populated : All HasContainer (0 ∷ 1 ∷ [])
unfolding remove_pending_pods_in_namespace start_pods suite_model new_kube_manager new_model
    new_namespace_with_pods all_pods wait_for_pod_running_in_namespace list_beq pod_to_k8s_spec
    lookup set_node_name set_host_ip set_pod_ip containers_to_k8s_spec to_k8s_spec
both_populated = (refl, (refl, tt))

populated : Populated (pods_of_model model3) state2.heap
populated a at = All-Elem HasContainer (0 ∷ 1 ∷ []) both_populated (subst (Elem a) refs at)

waiting : (result : Option ℕ) × Waited whole answering wrapping state2.heap model2 result
waiting = servers_run whole answering wrapping tt state2.heap model2 model3 found read populated

ends_well : waiting.0 ≡ none
ends_well = servers_honest whole answering wrapping state2.heap model2 waiting.0 waiting.1 (
    answering-AllConnect (pods_of_model waiting.1.m') state2.heap waiting.1.found.0
      waiting.1.found.1)

waited : Waited whole answering wrapping state2.heap model2 none
waited = subst (Waited whole answering wrapping state2.heap model2) ends_well waiting.1

in_order : IsRange started.2.pending started.2.pending
unfolding suite_model new_model new_kube_manager
in_order =
    IsRange-refl started.2.pending
      ((start_pods-Keeps two suite started.1 nodes before started.2 refl starts).1.is_map tt)

done : SetUp two whole answering wrapping (codes "x") store tt
done = record {
  nodes = nodes;
  w1 = tt;
  listed = listed;
  m1 = started.1;
  s1 = started.2;
  started = starts;
  m2 = model2;
  s2 = state2;
  order = started.2.pending;
  is_range = in_order;
  removed = removes;
  waited = waited;
}

as_read : (waited.found ≡ found) × (waited.m' ≡ model3)
as_read = what_was_read (sym waited.ports_protocols ∙ read)

pod_at : (a : Ref) → Elem a (0 ∷ 1 ∷ []) → Elem a (pods_of_model done.waited.m').refs
unfolding done waited
pod_at a at =
    subst (λ m. Elem a (pods_of_model m).refs) (sym as_read.1) (subst (Elem a) (sym refs) at)

suite_serves_example :
    Confirmed whole answering wrapping
      (pods_of_model done.waited.m')
      false
      false
      done.s2.heap
      (fresh whole answering wrapping
        (pods_of_model done.waited.m')
        done.s2.heap
        (81, protocol_udp))
      (pod_string (done.s2.heap 0))
      (pod_string (done.s2.heap 1))
      true
unfolding done remove_pending_pods_in_namespace
suite_serves_example =
    suite_serves two whole answering wrapping (codes "x") store tt done 81 protocol_udp 0 1
      (there (here refl)) (there (here refl)) (pod_at 0 (here refl)) (pod_at 1 (there (here refl)))

set_up_leaves_example :
    (names_at done.s1.heap (suite_pods (codes "x") nodes store) ≡ pod_names 2 1)
    × ((pods_of_model done.waited.m').refs
        ≡ keep (is_left done.s1.heap done.s1.pending) (suite_pods (codes "x") nodes store))
    × IsLeftByAnswers two whole answering wrapping (codes "x") store tt done
unfolding done
set_up_leaves_example = set_up_leaves two whole answering wrapping (codes "x") store tt done
