-- ===== src/Matrix/Cluster.antt =====
-- pkg/matrix/manager.go: the API server as the manager sees it, the parameter `Cluster`, and the nodes
-- that it lists.
use k8s_service_validator.Prelude.{
  ℕ, Bool, ◌&&◌, List, [], ◌∷◌, ◌++◌, Option, if◌then◌else◌, ◌==◌, nat_eq,
}
use k8s_service_validator.Text.{Text, codes, text_eq}
use k8s_service_validator.Kubernetes.Exec.{Error}
use k8s_service_validator.Kubernetes.PodWait.{Seen, WaitError}
use k8s_service_validator.Entities.Pod.Spec.{K8sPod, Randoms}
use k8s_service_validator.Entities.Namespace.{K8sNamespace}

-- `v1.NodeCondition` and `v1.Node`, the fields that the program reads.
pub record Condition : Type 0 where
  pub condition_type : Text
  pub status : Text

pub record Node : Type 0 where
  pub name : Text
  pub conditions : List Condition

-- `answers` are the polls of one wait, up to its timeout.
pub record Cluster : Type 1 where
  pub World : Type 0
  pub create_namespace : K8sNamespace → World → Option Error × World
  pub delete_namespace : Text → World → Option Error × World
  pub create_pod : K8sPod → World → Option Error × World
  pub get_pod : Text → Text → World → (K8sPod × Option Error) × World
  pub delete_pod : Text → Text → World → Option Error × World
  pub patch_pod : Text → Text → Text → World → Option Error × World
  pub list_nodes : World → (List Node × Option Error) × World
  pub answers : Text → Text → World → List Seen × World
  pub random : World → Randoms × Randoms

-- An error of the API server that is wrapped with a message, of a wait, or of the count of nodes.
pub data ManagerError : Type 0 where
  api : Error → ManagerError
  wait : WaitError → ManagerError
  invalid_number_of_nodes : ℕ → ManagerError

abbrev pub is_ready : Condition → Bool
is_ready c = c.condition_type == codes "Ready" && c.status == codes "True"

-- The inner loop of `GetReadyNodes` adds the node for each condition that says that it is ready.
unfoldable pub add_node : Node → List Condition → List Node → List Node
add_node node [] nodes = nodes
add_node node (c ∷ cs) nodes = add_node node cs (if is_ready c then nodes ++ node ∷ [] else nodes)

unfoldable pub ready_nodes : List Node → List Node → List Node
unfolding add_node
ready_nodes [] nodes = nodes
ready_nodes (node ∷ items) nodes = ready_nodes items (add_node node node.conditions nodes)
