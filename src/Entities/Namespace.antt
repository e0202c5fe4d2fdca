-- ===== src/Entities/Namespace.antt =====
-- pkg/entities/namespace.go. Pods are pointers: here a namespace is made of pods by value, and
-- Matrix.Model stores them on its heap.
use k8s_service_validator.Prelude.{ℕ, false, List, [], ◌∷◌, ◌++◌, map, none}
use k8s_service_validator.GoMap.{GoMap}
use k8s_service_validator.Text.{Text, codes}
use k8s_service_validator.Commands.IPerf
use k8s_service_validator.Entities.Container.{Container, not_specified_image, agnhost_image}
use k8s_service_validator.Entities.Pod.{Pod}

abbrev pub iperf_namespace_suffix : Text
iperf_namespace_suffix = codes "-iperf"

pub record Namespace (P : Type 0) : Type 0 where
  pub name : Text
  pub pods : List P

-- `v1.Namespace`, the fields that the program sets.
pub record K8sNamespace : Type 0 where
  pub name : Text
  pub labels : GoMap Text Text

module _ {P : Type 0} where
  unfoldable pub label_selector : Namespace P → GoMap Text Text
  label_selector ns = (codes "ns", ns.name) ∷ []

  unfoldable pub spec : Namespace P → K8sNamespace
  unfolding label_selector
  spec ns = record { name = ns.name; labels = label_selector ns }

-- The two inner loops: a container for each port and protocol.
module _ (make : ℕ → Text → Container) where
  unfoldable pub containers_for_port : ℕ → List Text → List Container
  containers_for_port port protocols = map (make port) protocols

  unfoldable pub containers_for : List ℕ → List Text → List Container
  unfolding containers_for_port
  containers_for [] protocols = []
  containers_for (port ∷ ports) protocols =
      containers_for_port port protocols ++ containers_for ports protocols

-- A pod literal with three fields; the others have their zero values.
unfoldable pub new_pod : Text → Text → List Container → Pod
new_pod namespace name containers = record {
  namespace = namespace;
  name = name;
  node_name = [];
  init_containers = none;
  containers = containers;
  external_ips = [];
  skip_probe = false;
  service_name = [];
  cluster_ip = [];
  pod_ip = [];
  host_ip = [];
  to_port = 0;
  host_network = false;
  labels = none;
}

unfoldable pub new_namespace_with_pods_given_image_and_command :
    Text → List Text → List ℕ → List Text → Text → List Text → Namespace Pod
unfolding new_pod containers_for
new_namespace_with_pods_given_image_and_command name pod_names ports protocols image command =
    let make : ℕ → Text → Container = λ port protocol. record {
      name = [];
      image = image;
      command = command;
      protocol = protocol;
      port = port;
    } in
    record {
      name = name;
      pods =
          map (λ pod_name. new_pod name pod_name (containers_for make ports protocols)) pod_names;
    }

unfoldable pub new_namespace_with_iperf_pods : Text → List Text → List ℕ → List Text → Namespace Pod
unfolding new_pod containers_for
new_namespace_with_iperf_pods name pod_names ports protocols =
    let make : ℕ → Text → Container = λ port protocol. record {
      name = [];
      image = agnhost_image;
      command = IPerf.serve_command (IPerf.new_server port protocol);
      protocol = protocol;
      port = port;
    } in
    record {
      name = name;
      pods =
          map (λ pod_name. new_pod name pod_name (containers_for make ports protocols)) pod_names;
    }

unfoldable pub new_namespace_with_pods : Text → List Text → List ℕ → List Text → Namespace Pod
unfolding new_namespace_with_pods_given_image_and_command
new_namespace_with_pods name pod_names ports protocols =
    new_namespace_with_pods_given_image_and_command name pod_names ports protocols
      not_specified_image []
