-- ===== src/Matrix/Manager.antt =====
-- pkg/matrix/manager.go: namespaces, starting, waiting for and removing pods. The API server
-- is the parameter `Cluster`; each call of it is an answer and the next state of the cluster.
pub mod Nodes
pub mod Addresses
pub mod Start
pub mod Pending
pub mod Left
pub mod Keeps
pub mod Polled
pub mod Patches
use k8s_service_validator.Prelude.{
  ℕ, suc, ◌⊎◌, inl, inr, Bool, true, false, not, ◌&&◌, ◌||◌, List, [], ◌∷◌, ◌++◌, Option, none,
  some, length, leb, ltb, map, get_elem?, if◌then◌else◌, ◌==◌, nat_eq,
}
use k8s_service_validator.Outcome.{Outcome, ok, panic, index_out_of_range, ◌>>=◌}
use k8s_service_validator.GoMap.{GoMap, delete}
use k8s_service_validator.Text.{Text, codes, text_eq, itoa, to_lower}
use k8s_service_validator.Kubernetes.Exec.{Error}
use k8s_service_validator.Kubernetes.PodWait.{
  Seen, WaitError, polls, wait_for_pod_running_in_namespace, poll_times_to_determine_pending_pod,
}
use k8s_service_validator.Entities.Pod.{Pod, set_pod_ip, set_host_ip, set_node_name}
use k8s_service_validator.Entities.Pod.Spec.{K8sPod, Randoms, pod_to_k8s_spec}
use k8s_service_validator.Entities.Namespace.{Namespace, K8sNamespace, spec}
use k8s_service_validator.Matrix.Reachability.{Ref, Heap}
use k8s_service_validator.Matrix.Probe.{update}
use k8s_service_validator.Matrix.Model.{Model, all_pods}
use k8s_service_validator.Matrix.Model.Remove.{remove_pod}
use k8s_service_validator.Matrix.Cluster.{ready_nodes}
pub use k8s_service_validator.Matrix.Cluster.{
  Condition, Node, Cluster, ManagerError, api, wait, invalid_number_of_nodes,
}

module _ (cluster : Cluster) where
  -- The pods, `PendingPods` of the manager, and the cluster.
  pub record State : Type 0 where
    pub heap : Heap
    pub pending : GoMap Text ℕ
    pub world : cluster.World

  unfoldable pub new_kube_manager : Heap → cluster.World → State
  new_kube_manager heap w = record { heap = heap; pending = []; world = w }

  unfoldable pub get_ready_nodes : cluster.World → (List Node × Option ManagerError) × cluster.World
  unfolding ready_nodes
  get_ready_nodes w =
      let ((items, err), w') = cluster.list_nodes w in
      elim err [ some e ↦ (([], some (api e)), w') | none ↦ ((ready_nodes items [], none), w') ]

  unfoldable pub create_namespace :
      K8sNamespace → cluster.World → Option ManagerError × cluster.World
  create_namespace ns w =
      let (err, w') = cluster.create_namespace ns w in
      elim err [ some e ↦ (some (api e), w') | none ↦ (none, w') ]

  -- The pod that was found, or an error and nil.
  unfoldable pub get_pod : Text → Text → cluster.World → (ManagerError ⊎ K8sPod) × cluster.World
  get_pod ns name w =
      let ((found, err), w') = cluster.get_pod ns name w in
      elim err [ some e ↦ (inl (api e), w') | none ↦ (inr found, w') ]

  -- `CreatePod(pod.ToK8SSpec())`; making the specification fills in names and a label of the pod.
  unfoldable pub create_pod : Ref → State → Option ManagerError × State
  create_pod p s =
      let (random, random') = cluster.random s.world in
      let (k8s, pod) = pod_to_k8s_spec random random' (s.heap p) in
      let (err, w) = cluster.create_pod k8s s.world in
      let s' = record s { heap = update s.heap p pod; world = w } in
      elim err [ some e ↦ (some (api e), s') | none ↦ (none, s') ]

  -- The loop of `StartPodsInNamespace` from the index `i`.
  unfoldable pub start_each :
      List Node → ℕ → List Ref → State → Outcome (Option ManagerError × State)
  unfolding create_pod
  start_each nodes i [] s = ok (none, s)
  start_each nodes i (p ∷ ps) s = elim (get_elem? nodes i) [
    | none ↦ panic index_out_of_range
    | some node ↦
        let named = record s {
          heap = update s.heap p (record (s.heap p) { node_name = node.name });
        } in
        let (err, s') = create_pod p named in
        elim err [ some e ↦ ok (some e, s') | none ↦ start_each nodes (suc i) ps s' ]
  ]

  unfoldable pub start_pods_in_namespace :
      List Node → Namespace Ref → State → Outcome (Option ManagerError × State)
  unfolding start_each create_namespace
  start_pods_in_namespace nodes ns s =
      let (err, w) = create_namespace (spec ns) s.world in
      let s' = record s { world = w } in
      elim err [ some e ↦ ok (some e, s') | none ↦ start_each nodes 0 ns.pods s' ]

  -- A pod that was seen pending as often as the bound gets no addresses, and the node name of the
  -- specification made here, which has none.
  unfoldable pub wait_and_set_ips : Ref → State → Option ManagerError × State
  unfolding get_pod
  wait_and_set_ips p s =
      let (random, random') = cluster.random s.world in
      let (k8s, pod) = pod_to_k8s_spec random random' (s.heap p) in
      let (seen, w) = cluster.answers k8s.namespace k8s.name s.world in
      let (err, pending) =
        wait_for_pod_running_in_namespace k8s.status.phase k8s.name seen s.pending in
      let s' = record s { heap = update s.heap p pod; pending = pending; world = w } in
      elim err [
        | some e ↦ (some (wait e), s')
        | none ↦
            if ltb (polls pod.name pending) poll_times_to_determine_pending_pod
            then (let (answer, w') = get_pod pod.namespace pod.name w in
                elim answer [
                  | inl e ↦ (some e, record s' { world = w' })
                  | inr found ↦ (
                    none,
                    record s' {
                      heap = update s'.heap p (
                          set_node_name found.spec.node_name (
                            set_host_ip found.status.host_ip (set_pod_ip found.status.pod_ip pod)));
                      world = w';
                    },
                  )
                ])
            else (
              none,
              record s' { heap = update s'.heap p (set_node_name k8s.spec.node_name pod) },
            )
      ]

  unfoldable pub wait_each : List Ref → State → Option ManagerError × State
  unfolding wait_and_set_ips
  wait_each [] s = (none, s)
  wait_each (p ∷ ps) s =
      let (err, s') = wait_and_set_ips p s in
      elim err [ some e ↦ (some e, s') | none ↦ wait_each ps s' ]

  -- The first loop of `StartPods`.
  unfoldable pub start_namespaces :
      List Node → List (Namespace Ref) → State → Outcome (Option ManagerError × State)
  unfolding start_pods_in_namespace
  start_namespaces nodes [] s = ok (none, s)
  start_namespaces nodes (ns ∷ nss) s =
      if not (length ns.pods == length nodes) || leb (length nodes) 1
      then ok (some (invalid_number_of_nodes (length nodes)), s)
      else (do
        started ← start_pods_in_namespace nodes ns s
        elim started.0 [
          | some e ↦ ok (some e, started.1)
          | none ↦ start_namespaces nodes nss started.1
        ])

  unfoldable pub start_pods :
      Model → List Node → State → Outcome (Option ManagerError × Model × State)
  unfolding start_namespaces wait_each
  start_pods m nodes s = do
    started ← start_namespaces nodes m.namespaces s
    elim started.0 [
      | some e ↦ ok (some e, m, started.1)
      | none ↦
          let (pods, m') = all_pods m in
          let (err, s') = wait_each pods started.1 in ok (err, m', s')
    ]

  unfoldable initialize_pod : Ref → State → Option ManagerError × State
  unfolding create_pod wait_and_set_ips
  initialize_pod p s =
      let (err, s') = create_pod p s in
      elim err [ some e ↦ (some e, s') | none ↦ wait_and_set_ips p s' ]

  unfoldable pub delete_pod : Text → Text → cluster.World → Option ManagerError × cluster.World
  delete_pod pod_name namespace_name w =
      let (err, w') = cluster.delete_pod namespace_name pod_name w in
      elim err [ some e ↦ (some (api e), w') | none ↦ (none, w') ]

  -- The loop over `PendingPods`, in the order in which the entries come.
  unfoldable pub remove_pending :
      Text → GoMap Text ℕ → Model → State → Outcome (Option ManagerError × Model × State)
  unfolding delete_pod
  remove_pending namespace_name [] m s = ok (none, m, s)
  remove_pending namespace_name ((name, poll_times) ∷ rest) m s =
      if ltb poll_times_to_determine_pending_pod poll_times
      then (do
        taken ← remove_pod s.heap name namespace_name m
        let (err, w) = delete_pod name namespace_name s.world
        let s' = record s { world = w }
        elim err [
          | some e ↦ ok (some e, taken.1, s')
          | none ↦
              remove_pending namespace_name rest taken.1
                (record s' { pending = delete name s'.pending })
        ])
      else remove_pending namespace_name rest m s

  -- The first argument is the order in which `range` visits the entries of `PendingPods`.
  unfoldable pub remove_pending_pods_in_namespace :
      GoMap Text ℕ → Text → Model → State → Outcome (Option ManagerError × Model × State)
  unfolding remove_pending
  remove_pending_pods_in_namespace order namespace_name m s =
      remove_pending namespace_name order m s

  unfoldable delete_namespaces : List Text → cluster.World → Option ManagerError × cluster.World
  delete_namespaces [] w = (none, w)
  delete_namespaces (ns ∷ nss) w =
      let (err, w') = cluster.delete_namespace ns w in
      elim err [ some e ↦ (some (api e), w') | none ↦ delete_namespaces nss w' ]
