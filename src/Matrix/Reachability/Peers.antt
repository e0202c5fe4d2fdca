-- ===== src/Matrix/Reachability/Peers.antt =====
-- `Matches` on the pod strings of pods whose names hold no slash.
use k8s_service_validator.Prelude.{Bool, ◌&&◌, ◌||◌, [], ◌≡◌, arith, ◌==◌}
use k8s_service_validator.Outcome.{ok}
use k8s_service_validator.Text.{text_eq, Lacks}
use k8s_service_validator.Entities.PodString.{
  namespace_of-new_pod_string, pod_name_of-new_pod_string,
}
use k8s_service_validator.Entities.Pod.{Pod, pod_string}
use k8s_service_validator.Matrix.Reachability.{Peer, half_matches, matches}

-- The API server admits no slash in the name of a node, a namespace or a pod.
pub record IsPlain (p : Pod) : Type 0 where
  pub node_name : Lacks b'/' p.node_name
  pub namespace : Lacks b'/' p.namespace
  pub name : Lacks b'/' p.name

-- Which pods a peer stands for: an empty part of the pattern is a wild card.
abbrev pub selects : Peer → Pod → Bool
selects peer p =
    (peer.namespace == [] || peer.namespace == p.namespace)
    && (peer.pod == [] || peer.pod == p.name)

-- `Matches` returns, and matches a pod exactly if each part of the pattern is empty or is the
-- pod's own, if no name of the pod holds a slash.
pub matches-pod_string :
    (peer : Peer) (p : Pod) → IsPlain p → matches peer (pod_string p) ≡ ok (selects peer p)
unfolding matches half_matches pod_string
matches-pod_string peer p h = ground (
  arith,
  namespace_of-new_pod_string p.node_name p.namespace p.name h.node_name h.namespace h.name,
  pod_name_of-new_pod_string p.node_name p.namespace p.name h.node_name h.namespace h.name,
)
