-- ===== src/Examples/Placing.antt =====
-- The start of the pods of the suite on the cluster with two nodes.
use k8s_service_validator.Prelude.{[], ◌∷◌, ◌≡◌, ◌≢◌, refl, Option, none, some, get_elem?}
use k8s_service_validator.Outcome.{Outcome, ok, panic, nil_dereference}
use k8s_service_validator.Text.{codes, text_eq}
use k8s_service_validator.Entities.Namespace.{Namespace}
use k8s_service_validator.Matrix.Reachability.{Ref}
use k8s_service_validator.Matrix.Manager.{
  Node, State, ManagerError, new_kube_manager, start_pods_in_namespace, start_pods,
}
use k8s_service_validator.Matrix.Manager.Start.{
  CreatedOn, start_pods-ne-panic, start_pods_in_namespace-CreatedOn,
}
use k8s_service_validator.Setup.{suite_model}
use k8s_service_validator.Examples.Starting.{nodes, two, before, suite}

start_pods-ne-panic_example : start_pods two suite nodes before ≢ panic nil_dereference
start_pods-ne-panic_example = start_pods-ne-panic two nil_dereference suite nodes before

abbrev namespace : Namespace Ref
namespace = record { name = codes "x"; pods = 0 ∷ 1 ∷ [] }

abbrev placed : Outcome (Option ManagerError × State two)
placed = start_pods_in_namespace two nodes namespace before

abbrev state_of : Outcome (Option ManagerError × State two) → State two
state_of (ok r) = r.1
state_of (panic p) = before

places : placed ≡ ok (none, state_of placed)
unfolding start_pods_in_namespace suite_model new_kube_manager
places = refl

start_pods_in_namespace-CreatedOn_example :
    (node : Node) × (get_elem? nodes 1 ≡ some node)
    × CreatedOn two (before.heap 1).namespace (before.heap 1).name node
start_pods_in_namespace-CreatedOn_example =
    start_pods_in_namespace-CreatedOn two nodes namespace before (state_of placed) 1 1
      (λ h. cc, (λ h. cc, tt)) places refl
