-- ===== src/Matrix/Model.antt =====
-- pkg/matrix/model.go: the model of the cluster and its caches. Namespaces are kept by value, pods
-- as places on the heap; a new pod takes the next free place. A nil cache is `none`.
pub mod Remove
pub mod Removed
pub mod Removing
pub mod Keeping
pub mod Named
pub mod Twice
pub mod Cache
pub mod Resetting
pub mod Extract
pub mod Distinct
use k8s_service_validator.Prelude.{
  ℕ, zero, suc, ◌-◌, Bool, true, false, not, ◌&&◌, List, [], ◌∷◌, ◌++◌, Option, none, some, take,
  drop, length, get_elem?, ltb, if◌then◌else◌, ◌==◌, nat_eq, contains,
}
use k8s_service_validator.Outcome.{
  Outcome, ok, panic, nil_dereference, index_out_of_range, slice_out_of_range, ◌>>=◌,
}
use k8s_service_validator.Text.{Text, codes, itoa, text_eq}
use k8s_service_validator.Kubernetes.Exec.{Error}
use k8s_service_validator.Entities.Container.{Container}
use k8s_service_validator.Entities.Pod.{Pod, reset}
use k8s_service_validator.Entities.Namespace.{
  iperf_namespace_suffix, Namespace, new_namespace_with_pods,
  new_namespace_with_pods_given_image_and_command, new_namespace_with_iperf_pods,
}
use k8s_service_validator.Matrix.Reachability.{Ref, Heap}
use k8s_service_validator.Matrix.Probe.{update}

-- pkg/matrix/helper.go, the names for new namespaces; `random` stands for `rand.Intn(1e5)`.
unfoldable get_namespace : ℕ → Text
get_namespace random = codes "x-" ++ itoa random

unfoldable get_iperf_namespace : ℕ → Text
unfolding get_namespace
get_iperf_namespace random = get_namespace random ++ iperf_namespace_suffix

-- The heap and the next place that is free.
pub record Store : Type 0 where
  pub heap : Heap
  pub next : Ref

pub record Model : Type 0 where
  pub pods : Option (List Ref)
  pub ports : Option (List ℕ)
  pub protocols : Option (List Text)
  pub namespaces : List (Namespace Ref)
  pub dns_domain : Text

unfoldable pub allocate_pods : List Pod → Store → List Ref × Store
allocate_pods [] s = ([], s)
allocate_pods (p ∷ ps) s =
    let (refs, s') =
      allocate_pods ps (record { heap = update s.heap s.next p; next = suc s.next }) in
    (s.next ∷ refs, s')

unfoldable pub allocate : Namespace Pod → Store → Namespace Ref × Store
unfolding allocate_pods
allocate ns s =
    let (refs, s') = allocate_pods ns.pods s in (record { name = ns.name; pods = refs }, s')

-- The loop of `NewModel`.
unfoldable pub new_namespaces :
    List Text → List Text → List ℕ → List Text → Store → List (Namespace Ref) × Store
unfolding allocate
new_namespaces [] pod_names ports protocols s = ([], s)
new_namespaces (name ∷ names) pod_names ports protocols s =
    let (ns, s') = allocate (new_namespace_with_pods name pod_names ports protocols) s in
    let (rest, s'') = new_namespaces names pod_names ports protocols s' in (ns ∷ rest, s'')

unfoldable pub new_model : List Text → List Text → List ℕ → List Text → Text → Store → Model × Store
unfolding new_namespaces
new_model namespace_names pod_names ports protocols dns_domain s =
    let (namespaces, s') = new_namespaces namespace_names pod_names ports protocols s in
    (
      record {
        pods = none;
        ports = none;
        protocols = none;
        namespaces = namespaces;
        dns_domain = dns_domain;
      },
      s',
    )

-- This one leaves the cache of pods as it is; the two that follow reset it.
unfoldable pub add_namespace_with_image_and_commands :
    Text → List Text → List ℕ → List Text → Text → List Text → Model → Store → Model × Store
unfolding allocate
add_namespace_with_image_and_commands name pod_names ports protocols image commands m s =
    let (ns, s') =
      allocate
        (new_namespace_with_pods_given_image_and_command name pod_names ports protocols image
          commands)
        s in
    (record m { namespaces = m.namespaces ++ ns ∷ [] }, s')

unfoldable pub add_namespace : Text → List Text → List ℕ → List Text → Model → Store → Model × Store
unfolding allocate
add_namespace name pod_names ports protocols m s =
    let (ns, s') = allocate (new_namespace_with_pods name pod_names ports protocols) s in
    (record m { namespaces = m.namespaces ++ ns ∷ []; pods = none }, s')

unfoldable add_iperf_namespace :
    Text → List Text → List ℕ → List Text → Model → Store → Model × Store
unfolding allocate
add_iperf_namespace name pod_names ports protocols m s =
    let (ns, s') = allocate (new_namespace_with_iperf_pods name pod_names ports protocols) s in
    (record m { namespaces = m.namespaces ++ ns ∷ []; pods = none }, s')

-- pkg/matrix/helper.go, `intOnSlice` and `protocolOnSlice`.
unfoldable pub int_on_slice : ℕ → List ℕ → Bool
int_on_slice value slice = contains value slice

unfoldable pub protocol_on_slice : Text → List Text → Bool
protocol_on_slice value slice = contains value slice

abbrev pub Found : Type 0
Found = List ℕ × List Text

-- The three loops of `extractPortProtocols`.
unfoldable pub extract_container : Container → Found → Found
unfolding int_on_slice protocol_on_slice
extract_container c (ports, protocols) = (
  if not (c.port == 0) && not (int_on_slice c.port ports) then ports ++ c.port ∷ [] else ports,
  if not (c.protocol == []) && not (protocol_on_slice c.protocol protocols)
      then protocols ++ c.protocol ∷ []
      else protocols,
)

unfoldable pub extract_containers : List Container → Found → Found
unfolding extract_container
extract_containers [] found = found
extract_containers (c ∷ cs) found = extract_containers cs (extract_container c found)

unfoldable pub extract_pods : Heap → List Ref → Found → Found
unfolding extract_containers
extract_pods heap [] found = found
extract_pods heap (p ∷ ps) found =
    extract_pods heap ps (extract_containers (heap p).containers found)

unfoldable pub extract_namespaces : Heap → List (Namespace Ref) → Found → Found
unfolding extract_pods
extract_namespaces heap [] found = found
extract_namespaces heap (ns ∷ nss) found =
    extract_namespaces heap nss (extract_pods heap ns.pods found)

unfoldable pub extract_port_protocols : Heap → List (Namespace Ref) → Found
unfolding extract_namespaces
extract_port_protocols heap namespaces = extract_namespaces heap namespaces ([], [])

unfoldable new_model_with_namespace : Heap → List (Namespace Ref) → Text → Model
unfolding extract_port_protocols
new_model_with_namespace heap namespaces dns_domain =
    let (ports, protocols) = extract_port_protocols heap namespaces in
    record {
      pods = none;
      ports = some ports;
      protocols = some protocols;
      namespaces = namespaces;
      dns_domain = dns_domain;
    }

unfoldable pub pods_of : List (Namespace Ref) → List Ref
pods_of [] = []
pods_of (ns ∷ nss) = ns.pods ++ pods_of nss

unfoldable pub all_pods : Model → List Ref × Model
unfolding pods_of
all_pods m = elim m.pods [
  | some pods ↦ (pods, m)
  | none ↦ (pods_of m.namespaces, record m { pods = some (pods_of m.namespaces) })
]

unfoldable pub reset_each : List Ref → Heap → Heap
reset_each [] heap = heap
reset_each (p ∷ ps) heap = reset_each ps (update heap p (reset (heap p)))

unfoldable pub reset_all_pods : Model → Heap → Model × Heap
unfolding all_pods reset_each
reset_all_pods m heap = let (pods, m') = all_pods m in (m', reset_each pods heap)

-- Reading one cache that is nil beside the other that is not panics.
unfoldable pub all_ports_protocol : Heap → Model → Outcome (Found × Model)
unfolding extract_port_protocols
all_ports_protocol heap m = elim m.ports [
  | none ↦ elim m.protocols [
    | none ↦
        let (ports, protocols) = extract_port_protocols heap m.namespaces in
        ok ((ports, protocols), record m { ports = some ports; protocols = some protocols })
    | some _ ↦ panic nil_dereference
  ]
  | some ports ↦ elim m.protocols [
    | none ↦ panic nil_dereference
    | some protocols ↦ ok ((ports, protocols), m)
  ]
]

-- The loop of `AddPod`.
unfoldable pub add_to_namespaces : Ref → Text → List (Namespace Ref) → List (Namespace Ref)
add_to_namespaces p name [] = []
add_to_namespaces p name (ns ∷ nss) =
    (if ns.name == name then record ns { pods = ns.pods ++ p ∷ [] } else ns)
    ∷ add_to_namespaces p name nss

unfoldable pub add_pod : Ref → Text → Model → Outcome Model
unfolding add_to_namespaces
add_pod p namespace_name m = elim m.pods [
  | none ↦ panic nil_dereference
  | some pods ↦ ok (record m {
    pods = some (pods ++ p ∷ []);
    namespaces = add_to_namespaces p namespace_name m.namespaces;
  })
]
