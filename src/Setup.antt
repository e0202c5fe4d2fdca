-- ===== src/Setup.antt =====
-- tests/main_test.go, the set-up of the suite in `TestMain`: the ready nodes are listed, a model with
-- a pod for each node is made, its pods are started, those that hang are removed, and the servers
-- of the rest are waited for. An error of any of these ends the suite.
pub mod Serves
pub mod Leaves
pub mod Reached
use k8s_service_validator.Prelude.{
  ℕ, zero, suc, ◌+◌, List, [], ◌∷◌, ◌++◌, ◌≡◌, Option, none, length,
}
use k8s_service_validator.GoMap.{GoMap, IsRange}
use k8s_service_validator.Outcome.{ok}
use k8s_service_validator.Text.{Text, codes, itoa, text_eq}
use k8s_service_validator.Kubernetes.Exec.{Remote}
use k8s_service_validator.Commands.{protocol_tcp, protocol_udp}
use k8s_service_validator.Matrix.Bandwidth.{Floats}
use k8s_service_validator.Matrix.Connect.{Wrapping}
use k8s_service_validator.Matrix.Model.{Model, Store, new_model}
use k8s_service_validator.Matrix.Manager.{
  Node, Cluster, State, ManagerError, new_kube_manager, get_ready_nodes, start_pods,
  remove_pending_pods_in_namespace,
}
use k8s_service_validator.Matrix.Servers.{Waited}

abbrev pub dns_domain : Text
dns_domain = codes "cluster.local"

-- `pod-1` up to the number of nodes: `n` more names, from the number `i`.
unfoldable pub pod_names : ℕ → ℕ → List Text
pod_names zero i = []
pod_names (suc n) i = (codes "pod-" ++ itoa i) ∷ pod_names n (suc i)

-- The model of the suite, in the store in which its pods are.
unfoldable pub suite_model : Text → List Node → Store → Model × Store
unfolding pod_names
suite_model namespace nodes store =
    new_model (namespace ∷ []) (pod_names (length nodes) 1) (80 ∷ 81 ∷ [])
      (protocol_tcp ∷ protocol_udp ∷ []) dns_domain store

-- A set-up that ends without an error.
pub record SetUp (cluster : Cluster) (fl : Floats) (remote : Remote) (wrapping : Wrapping)
    (namespace : Text) (store : Store) (w : cluster.World) : Type 0 where
  pub nodes : List Node
  pub w1 : cluster.World
  pub listed : get_ready_nodes cluster w ≡ ((nodes, none), w1)
  pub m1 : Model
  pub s1 : State cluster
  pub started :
      start_pods cluster
        (suite_model namespace nodes store).0
        nodes
        (new_kube_manager cluster (suite_model namespace nodes store).1.heap w1)
      ≡ ok (none, m1, s1)
  pub m2 : Model
  pub s2 : State cluster
  pub order : GoMap Text ℕ
  pub is_range : IsRange order s1.pending
  pub removed : remove_pending_pods_in_namespace cluster order namespace m1 s1 ≡ ok (none, m2, s2)
  pub waited : Waited fl remote wrapping s2.heap m2 none
