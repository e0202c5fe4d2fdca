-- ===== src/Matrix/Manager/Keeps.antt =====
-- What `StartPods` leaves as it was: the pods' names, and that `PendingPods` is a map.
use k8s_service_validator.Prelude.{
  map, ℕ, suc, List, [], ◌∷◌, ◌≡◌, refl, ◌∙◌, none, some, arith, eq_iff, subst, inl, inr,
  Option-cases, nat_eq,
}
use k8s_service_validator.GoMap.{GoMap, IsMap, insert, insert-IsMap}
use k8s_service_validator.Outcome.{ok, Outcome-cases}
use k8s_service_validator.Text.{Text, text_eq}
use k8s_service_validator.Kubernetes.PodWait.{
  Seen, get_error, phase, polls, pod_running, poll_immediate, wait_for_pod_running_in_namespace,
}
use k8s_service_validator.Entities.Container.{Container, get_name, to_k8s_spec}
use k8s_service_validator.Entities.Pod.{Pod, set_pod_ip, set_host_ip, set_node_name}
use k8s_service_validator.Entities.Pod.Spec.{
  Randoms, pod_to_k8s_spec, label_selector, containers_to_k8s_spec,
}
use k8s_service_validator.Entities.Namespace.{Namespace, spec}
use k8s_service_validator.Matrix.Reachability.{Ref}
use k8s_service_validator.Matrix.Model.{Model, all_pods, pods_of}
use k8s_service_validator.Matrix.Manager.{
  Node, Cluster, State, create_pod, start_each, start_pods_in_namespace, start_namespaces,
  start_pods, wait_and_set_ips, wait_each,
}
use k8s_service_validator.Matrix.Manager.Start.{
  SameNames, named_for, create_pod-SameNames, start_each_inversion,
}

poll_immediate-IsMap :
    (name : Text) (answers : List Seen) (pending : GoMap Text ℕ)
    → IsMap pending
    → IsMap (poll_immediate name answers pending).1
unfolding poll_immediate pod_running
poll_immediate-IsMap name [] pending h = h
poll_immediate-IsMap name (get_error e ∷ rest) pending h = h
poll_immediate-IsMap name (phase ph ∷ rest) pending h =
    let counted = insert name (suc (polls name pending)) pending in
    let counted-IsMap = insert-IsMap name (suc (polls name pending)) pending h in
    ground (
      arith,
      poll_immediate-IsMap name rest pending h,
      poll_immediate-IsMap name rest counted counted-IsMap,
      counted-IsMap,
    )

wait-IsMap :
    (status name : Text) (answers : List Seen) (pending : GoMap Text ℕ)
    → IsMap pending
    → IsMap (wait_for_pod_running_in_namespace status name answers pending).1
unfolding wait_for_pod_running_in_namespace
wait-IsMap status name answers pending h =
    ground (arith, poll_immediate-IsMap name answers pending h)

-- What the containers of a pod offer.
abbrev pub offers : List Container → List (ℕ × Text)
offers cs = map (λ c. (c.port, c.protocol)) cs

containers_offers :
    (random : Randoms) (cs : List Container)
    → offers (containers_to_k8s_spec random cs).1 ≡ offers cs
unfolding containers_to_k8s_spec to_k8s_spec get_name
containers_offers random [] = refl
containers_offers random (c ∷ cs) = ground (arith, containers_offers (λ i. random (suc i)) cs)

spec_offers :
    (random random' : Randoms) (p : Pod)
    → offers (pod_to_k8s_spec random random' p).1.containers ≡ offers p.containers
unfolding pod_to_k8s_spec label_selector
spec_offers random random' p = containers_offers random p.containers

pub record Keeps (cluster : Cluster) (s s' : State cluster) : Type 0 where
  pub same_names : SameNames cluster s.heap s'.heap
  pub same_offers : (q : Ref) → offers (s'.heap q).containers ≡ offers (s.heap q).containers
  pub is_map : IsMap s.pending → IsMap s'.pending

module _ (cluster : Cluster) where
  Keeps-refl : (s : State cluster) → Keeps cluster s s
  Keeps-refl s = record { same_names = λ q. (refl, refl); same_offers = λ q. refl; is_map = λ h. h }

  Keeps-trans :
      (s s1 s2 : State cluster) → Keeps cluster s s1 → Keeps cluster s1 s2 → Keeps cluster s s2
  Keeps-trans s s1 s2 k k' = record {
    same_names =
        λ q. ((k'.same_names q).0 ∙ (k.same_names q).0, (k'.same_names q).1 ∙ (k.same_names q).1);
    same_offers = λ q. k'.same_offers q ∙ k.same_offers q;
    is_map = λ h. k'.is_map (k.is_map h);
  }

  create_pod-offers :
      (node : Node) (p : Ref) (s : State cluster) (q : Ref)
      → offers ((create_pod cluster p (named_for cluster node p s)).1.heap q).containers
        ≡ offers (s.heap q).containers
  unfolding create_pod
  create_pod-offers node p s q =
      let (random, random') = cluster.random s.world in
      ground (
        arith,
        eq_iff p q,
        eq_iff p p,
        spec_offers random random' (record (s.heap p) { node_name = node.name }),
      )

  wait_and_set_ips-offers :
      (p : Ref) (s : State cluster) (q : Ref)
      → offers ((wait_and_set_ips cluster p s).1.heap q).containers ≡ offers (s.heap q).containers
  unfolding wait_and_set_ips set_pod_ip set_host_ip set_node_name
  wait_and_set_ips-offers p s q =
      let (random, random') = cluster.random s.world in
      ground (arith, eq_iff p q, spec_offers random random' (s.heap p))

  create_pod-Keeps :
      (node : Node) (p : Ref) (s : State cluster)
      → Keeps cluster s (create_pod cluster p (named_for cluster node p s)).1
  create_pod-Keeps node p s = record {
    same_names = create_pod-SameNames cluster node p s;
    same_offers = create_pod-offers node p s;
    is_map = λ h. unfold create_pod in ground arith;
  }

  wait_and_set_ips-SameNames :
      (p : Ref) (s : State cluster) → SameNames cluster s.heap (wait_and_set_ips cluster p s).1.heap
  unfolding wait_and_set_ips set_pod_ip set_host_ip set_node_name pod_to_k8s_spec label_selector
  wait_and_set_ips-SameNames p s q = ground (arith, eq_iff p q)

  wait_and_set_ips-IsMap :
      (p : Ref) (s : State cluster)
      → IsMap s.pending
      → IsMap (wait_and_set_ips cluster p s).1.pending
  unfolding wait_and_set_ips
  wait_and_set_ips-IsMap p s h =
      let (random, random') = cluster.random s.world in
      let k8s = (pod_to_k8s_spec random random' (s.heap p)).0 in
      let seen = (cluster.answers k8s.namespace k8s.name s.world).0 in
      ground (arith, wait-IsMap k8s.status.phase k8s.name seen s.pending h)

  pub wait_and_set_ips-Keeps :
      (p : Ref) (s : State cluster) → Keeps cluster s (wait_and_set_ips cluster p s).1
  wait_and_set_ips-Keeps p s = record {
    same_names = wait_and_set_ips-SameNames p s;
    same_offers = wait_and_set_ips-offers p s;
    is_map = wait_and_set_ips-IsMap p s;
  }

  pub wait_each-Keeps :
      (ps : List Ref) (s : State cluster) → Keeps cluster s (wait_each cluster ps s).1
  unfolding wait_each
  wait_each-Keeps [] s = Keeps-refl s
  wait_each-Keeps (p ∷ ps) s =
      let waited = wait_and_set_ips cluster p s in
      let later = wait_each cluster ps waited.1 in
      elim (Option-cases waited.0) [
        | inr (err, failed) ↦
            let ends : waited.1 ≡ (wait_each cluster (p ∷ ps) s).1 = ground (arith, failed) in
            subst (Keeps cluster s) ends (wait_and_set_ips-Keeps p s)
        | inl fine ↦
            let goes_on : later.1 ≡ (wait_each cluster (p ∷ ps) s).1 = ground (arith, fine) in
            subst (Keeps cluster s) goes_on (
              Keeps-trans s waited.1 later.1 (wait_and_set_ips-Keeps p s)
                (wait_each-Keeps ps waited.1))
      ]

  start_each-Keeps :
      (nodes : List Node) (i : ℕ) (ps : List Ref) (s s' : State cluster)
      → start_each cluster nodes i ps s ≡ ok (none, s')
      → Keeps cluster s s'
  unfolding start_each
  start_each-Keeps nodes i [] s s' e =
      let same : s ≡ s' = ground arith in subst (Keeps cluster s) same (Keeps-refl s)
  start_each-Keeps nodes i (p ∷ ps) s s' e =
      let (node, at, fine, rest) = start_each_inversion cluster nodes i p ps s s' e in
      let s1 = (create_pod cluster p (named_for cluster node p s)).1 in
      Keeps-trans s s1 s' (create_pod-Keeps node p s) (start_each-Keeps nodes (suc i) ps s1 s' rest)

  start_pods_in_namespace-Keeps :
      (nodes : List Node) (ns : Namespace Ref) (s s' : State cluster)
      → start_pods_in_namespace cluster nodes ns s ≡ ok (none, s')
      → Keeps cluster s s'
  unfolding start_pods_in_namespace
  start_pods_in_namespace-Keeps nodes ns s s' e =
      let s1 : State cluster = record s {
        world = (cluster.create_namespace (spec ns) s.world).1;
      } in
      let started : start_each cluster nodes 0 ns.pods s1 ≡ ok (none, s') = ground arith in
      let k = start_each-Keeps nodes 0 ns.pods s1 s' started in
      record { same_names = k.same_names; same_offers = k.same_offers; is_map = k.is_map }

  start_namespaces-Keeps :
      (nodes : List Node) (nss : List (Namespace Ref)) (s s' : State cluster)
      → start_namespaces cluster nodes nss s ≡ ok (none, s')
      → Keeps cluster s s'
  unfolding start_namespaces
  start_namespaces-Keeps nodes [] s s' e =
      let same : s ≡ s' = ground arith in subst (Keeps cluster s) same (Keeps-refl s)
  start_namespaces-Keeps nodes (ns ∷ nss) s s' e =
      elim (Outcome-cases (start_pods_in_namespace cluster nodes ns s)) [
        | inr (p, failed) ↦ absurd (ground (arith, failed))
        | inl (started, ends) ↦
            let fine : started.0 ≡ none = ground (arith, ends) in
            let rest : start_namespaces cluster nodes nss started.1 ≡ ok (none, s') =
              ground (arith, ends, fine) in
            let here : start_pods_in_namespace cluster nodes ns s ≡ ok (none, started.1) =
              ground (arith, ends, fine) in
            Keeps-trans s started.1 s' (start_pods_in_namespace-Keeps nodes ns s started.1 here)
              (start_namespaces-Keeps nodes nss started.1 s' rest)
      ]

  -- If `StartPods` returns no error, the model has its pods in the cache and is the same otherwise,
  -- no pod has another name, and `PendingPods` is a map if it was one.
  pub start_pods-Keeps :
      (m m' : Model) (nodes : List Node) (s s' : State cluster)
      → m.pods ≡ none
      → start_pods cluster m nodes s ≡ ok (none, m', s')
      → (m' ≡ record m { pods = some (pods_of m.namespaces) }) × Keeps cluster s s'
  unfolding start_pods all_pods
  start_pods-Keeps m m' nodes s s' no_cache e =
      elim (Outcome-cases (start_namespaces cluster nodes m.namespaces s)) [
        | inr (p, fails) ↦ absurd (ground (arith, fails))
        | inl (started, returns) ↦ elim (Option-cases started.0) [
          | inr (err, failed) ↦ absurd (ground (arith, returns, failed))
          | inl fine ↦
              let here : start_namespaces cluster nodes m.namespaces s ≡ ok (none, started.1) =
                ground (arith, returns, fine) in
              let waited = wait_each cluster (pods_of m.namespaces) started.1 in
              let last : waited.1 ≡ s' = ground (arith, returns, fine) in
              (
                ground (arith, returns, fine),
                subst (Keeps cluster s) last (
                    Keeps-trans s started.1 waited.1
                      (start_namespaces-Keeps nodes m.namespaces s started.1 here)
                      (wait_each-Keeps (pods_of m.namespaces) started.1)),
              )
        ]
      ]
