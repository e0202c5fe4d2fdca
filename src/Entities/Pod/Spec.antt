-- ===== src/Entities/Pod/Spec.antt =====
-- pkg/entities/pod.go: the Kubernetes specification of a pod.
use k8s_service_validator.Prelude.{
  ℕ, suc, Bool, not, List, [], ◌∷◌, ◌==◌, Option, none, some, if◌then◌else◌,
}
use k8s_service_validator.GoMap.{GoMap, insert}
use k8s_service_validator.Text.{Text, codes, text_eq}
use k8s_service_validator.Entities.Container.{Container, K8sContainer, to_k8s_spec}
use k8s_service_validator.Entities.Pod.{Pod}

pub record Toleration : Type 0 where
  pub key : Text
  pub value : Text
  pub effect : Text

-- `v1.PodSpec`, `v1.PodStatus` and `v1.Pod`, the fields that the program sets or reads.
pub record PodSpec : Type 0 where
  pub containers : List K8sContainer
  pub init_containers : List K8sContainer
  pub termination_grace_period_seconds : Option ℕ
  pub host_network : Bool
  pub tolerations : List Toleration
  pub node_selector : GoMap Text Text
  pub node_name : Text

pub record PodStatus : Type 0 where
  pub phase : Text
  pub pod_ip : Text
  pub host_ip : Text

pub record K8sPod : Type 0 where
  pub name : Text
  pub namespace : Text
  pub labels : GoMap Text Text
  pub spec : PodSpec
  pub status : PodStatus

-- Two random numbers go to each container, by its position.
abbrev pub Randoms : Type 0
Randoms = ℕ → ℕ × ℕ

unfoldable pub containers_to_k8s_spec :
    Randoms → List Container → List K8sContainer × List Container
containers_to_k8s_spec random [] = ([], [])
containers_to_k8s_spec random (c ∷ cs) =
    let (spec, c') = to_k8s_spec (random 0).0 (random 0).1 c in
    let (specs, cs') = containers_to_k8s_spec (λ i. random (suc i)) cs in (spec ∷ specs, c' ∷ cs')

-- `LabelSelector` writes the pod's own label into the pod.
unfoldable pub label_selector : Pod → GoMap Text Text × Pod
label_selector p =
    let labels : GoMap Text Text = elim p.labels [ none ↦ [] | some m ↦ m ] in
    let labels' = insert (codes "pod") p.name labels in
    (labels', record p { labels = some labels' })

unfoldable default_tolerations_for_windows_nodes : List Toleration
default_tolerations_for_windows_nodes =
    record { key = codes "os"; value = codes "windows"; effect = codes "NoSchedule" } ∷ []

init_containers_to_k8s_spec :
    Randoms → Option (List Container) → List K8sContainer × Option (List Container)
init_containers_to_k8s_spec random none = ([], none)
init_containers_to_k8s_spec random (some cs) =
    let (specs, cs') = containers_to_k8s_spec random cs in (specs, some cs')

-- The specification, and the pod with the names and the label that making it fills in. The status
-- and the spec's node name are left empty.
unfoldable pub pod_to_k8s_spec : Randoms → Randoms → Pod → K8sPod × Pod
unfolding label_selector init_containers_to_k8s_spec default_tolerations_for_windows_nodes
pod_to_k8s_spec random random' p =
    let (specs, cs) = containers_to_k8s_spec random p.containers in
    let (init_specs, init_cs) = init_containers_to_k8s_spec random' p.init_containers in
    let (labels, p') = label_selector (record p { containers = cs; init_containers = init_cs }) in
    (
      record {
        name = p'.name;
        namespace = p'.namespace;
        labels = labels;
        spec = record {
          containers = specs;
          init_containers = init_specs;
          termination_grace_period_seconds = some 0;
          host_network = p'.host_network;
          tolerations = default_tolerations_for_windows_nodes;
          node_selector =
              if not (p'.node_name == [])
              then (codes "kubernetes.io/hostname", p'.node_name) ∷ []
              else [];
          node_name = [];
        };
        status = record { phase = []; pod_ip = []; host_ip = [] };
      },
      p',
    )
