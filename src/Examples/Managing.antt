-- ===== src/Examples/Managing.antt =====
-- The manager on a cluster with one node and a pod that was pending twice before it ran.
use k8s_service_validator.Prelude.{◌≤◌, false, List, [], ◌∷◌, ◌≡◌, refl, none, arith, list_beq}
use k8s_service_validator.GoMap.{insert, lookup}
use k8s_service_validator.Text.{codes}
use k8s_service_validator.Kubernetes.PodWait.{
  Seen, phase, polls, poll_times_to_determine_pending_pod, pod_running_phase,
  wait_for_pod_running_in_namespace,
}
use k8s_service_validator.Entities.Pod.Spec.{K8sPod, pod_to_k8s_spec}
use k8s_service_validator.Matrix.Manager.{Condition, Node, Cluster, State, wait_and_set_ips}
use k8s_service_validator.Matrix.Manager.Addresses.{waited, wait_and_set_ips_pending}
use k8s_service_validator.Examples.Data.{heap}
use k8s_service_validator.Examples.Services.{late}

abbrev pub ready : Condition
ready = record { condition_type = codes "Ready"; status = codes "True" }

abbrev nodes : List Node
nodes =
    record { name = codes "n"; conditions = ready ∷ [] }
    ∷ record { name = codes "m"; conditions = [] }
    ∷ []

abbrev pub running : K8sPod
running = record {
  name = codes "a";
  namespace = codes "x";
  labels = [];
  spec = record {
    containers = [];
    init_containers = [];
    termination_grace_period_seconds = none;
    host_network = false;
    tolerations = [];
    node_selector = [];
    node_name = codes "n";
  };
  status = record { phase = pod_running_phase; pod_ip = codes "10"; host_ip = codes "11" };
}

abbrev pub cluster_seeing : List Seen → Cluster
cluster_seeing seen = record {
  World = Unit;
  create_namespace = λ ns w. (none, w);
  delete_namespace = λ ns w. (none, w);
  create_pod = λ p w. (none, w);
  get_pod = λ ns name w. ((running, none), w);
  delete_pod = λ ns name w. (none, w);
  patch_pod = λ ns name patch w. (none, w);
  list_nodes = λ w. ((nodes, none), w);
  answers = λ ns name w. (seen, w);
  random = λ w. ((λ i. (0, 0)), (λ i. (0, 0)));
}

abbrev pub prompt : Cluster
prompt = cluster_seeing (phase pod_running_phase ∷ [])

abbrev slow : Cluster
slow = cluster_seeing late

abbrev state : (seen : List Seen) → State (cluster_seeing seen)
state seen = record { heap = heap; pending = []; world = tt }

no_error_late : (waited slow 0 (state late)).0 ≡ none
unfolding wait_and_set_ips wait_for_pod_running_in_namespace list_beq pod_to_k8s_spec lookup insert
no_error_late = refl

polled : polls (codes "a") (waited slow 0 (state late)).1.pending ≡ 2
unfolding polls lookup wait_and_set_ips wait_for_pod_running_in_namespace list_beq pod_to_k8s_spec
    insert
polled = refl

often :
    poll_times_to_determine_pending_pod ≤ polls (codes "a") (waited slow 0 (state late)).1.pending
often = omega (arith, polled)

wait_and_set_ips_pending_example :
    (((waited slow 0 (state late)).1.heap 0).pod_ip ≡ codes "1")
    × (((waited slow 0 (state late)).1.heap 0).host_ip ≡ [])
    × (((waited slow 0 (state late)).1.heap 0).node_name ≡ [])
wait_and_set_ips_pending_example = wait_and_set_ips_pending slow 0 (state late) no_error_late often
