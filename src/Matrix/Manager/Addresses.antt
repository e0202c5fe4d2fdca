-- ===== src/Matrix/Manager/Addresses.antt =====
-- What `WaitAndSetIPs` writes into the pod that it waited for.
use k8s_service_validator.Prelude.{Option, ◌≤◌, ◌<◌, [], ◌≡◌, refl, none, arith, eq_iff, nat_eq}
use k8s_service_validator.Kubernetes.PodWait.{polls, poll_times_to_determine_pending_pod}
use k8s_service_validator.Entities.Pod.{Pod, set_pod_ip, set_host_ip, set_node_name}
use k8s_service_validator.Entities.Pod.Spec.{K8sPod, Randoms, pod_to_k8s_spec, label_selector}
use k8s_service_validator.Matrix.Reachability.{Ref}
use k8s_service_validator.Matrix.Manager.{Cluster, State, ManagerError, wait_and_set_ips}

-- Making the specification leaves these fields of the pod as they are.
pod_to_k8s_spec_keeps :
    (random random' : Randoms) (p : Pod)
    → ((pod_to_k8s_spec random random' p).1.name ≡ p.name)
      × ((pod_to_k8s_spec random random' p).1.namespace ≡ p.namespace)
      × ((pod_to_k8s_spec random random' p).1.pod_ip ≡ p.pod_ip)
      × ((pod_to_k8s_spec random random' p).1.host_ip ≡ p.host_ip)
      × ((pod_to_k8s_spec random random' p).0.spec.node_name ≡ [])
unfolding pod_to_k8s_spec label_selector
pod_to_k8s_spec_keeps random random' p = (refl, refl, refl, refl, refl)

-- A pod whose addresses and node are those that the API server returned for a pod.
record Filled (cluster : Cluster) (before after : Pod) : Type 0 where
  pub found : K8sPod
  pub world : cluster.World
  pub answer : (cluster.get_pod before.namespace before.name world).0 ≡ (found, none)
  pub pod_ip : after.pod_ip ≡ found.status.pod_ip
  pub host_ip : after.host_ip ≡ found.status.host_ip
  pub node_name : after.node_name ≡ found.spec.node_name

module _ (cluster : Cluster) (p : Ref) (s : State cluster) where
  abbrev pub waited : Option ManagerError × State cluster
  waited = wait_and_set_ips cluster p s

  filled :
      (found : K8sPod) (w : cluster.World)
      → waited.0 ≡ none
      → polls (s.heap p).name waited.1.pending < poll_times_to_determine_pending_pod
      → w ≡ (cluster.answers (s.heap p).namespace (s.heap p).name s.world).1
      → found ≡ (cluster.get_pod (s.heap p).namespace (s.heap p).name w).0.0
      → ((cluster.get_pod (s.heap p).namespace (s.heap p).name w).0 ≡ (found, none))
        × ((waited.1.heap p).pod_ip ≡ found.status.pod_ip)
        × ((waited.1.heap p).host_ip ≡ found.status.host_ip)
        × ((waited.1.heap p).node_name ≡ found.spec.node_name)
  unfolding wait_and_set_ips set_pod_ip set_host_ip set_node_name pod_to_k8s_spec label_selector
  filled found w h few at is_found = ground (arith, eq_iff p p)

  -- If `WaitAndSetIPs` returns no error and the pod's name was then counted as pending less often
  -- than the bound, the pod has the addresses and the node of the pod that the API server
  -- returned.
  wait_and_set_ips_lem :
      waited.0 ≡ none
      → polls (s.heap p).name waited.1.pending < poll_times_to_determine_pending_pod
      → Filled cluster (s.heap p) (waited.1.heap p)
  wait_and_set_ips_lem h few =
      let w = (cluster.answers (s.heap p).namespace (s.heap p).name s.world).1 in
      let found = (cluster.get_pod (s.heap p).namespace (s.heap p).name w).0.0 in
      let (answer, pod_ip, host_ip, node_name) = filled found w h few refl refl in
      record {
        found = found;
        world = w;
        answer = answer;
        pod_ip = pod_ip;
        host_ip = host_ip;
        node_name = node_name;
      }

  -- If `WaitAndSetIPs` returns no error and the pod's name was then counted as pending as often as
  -- the bound or more often, the pod has the addresses of before and no node name, even if it was
  -- seen running in the end.
  pub wait_and_set_ips_pending :
      waited.0 ≡ none
      → poll_times_to_determine_pending_pod ≤ polls (s.heap p).name waited.1.pending
      → ((waited.1.heap p).pod_ip ≡ (s.heap p).pod_ip)
        × ((waited.1.heap p).host_ip ≡ (s.heap p).host_ip)
        × ((waited.1.heap p).node_name ≡ [])
  unfolding wait_and_set_ips set_node_name
  wait_and_set_ips_pending h often = ground (
    arith,
    eq_iff p p,
    pod_to_k8s_spec_keeps (cluster.random s.world).0 (cluster.random s.world).1 (s.heap p),
  )
