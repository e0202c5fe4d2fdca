-- ===== src/Matrix/Manager/Start.antt =====
-- `StartPods`: it never reads past the end of the nodes, and the pods of a namespace that was started
-- without an error were each created for the node at their own position.
use k8s_service_validator.Prelude.{
  ℕ, zero, suc, ◌+◌, ◌≤◌, List, [], ◌∷◌, ◌≡◌, ◌≢◌, refl, sym, subst, none, some, arith, length,
  get_elem?, get_elem?_below, nat_eq, eq_iff, inl, inr, Option-cases, All,
}
use k8s_service_validator.Outcome.{Panic, ok, panic, Outcome-cases}
use k8s_service_validator.Text.{Text, codes, text_eq}
use k8s_service_validator.Entities.Pod.Spec.{K8sPod, Randoms, pod_to_k8s_spec, label_selector}
use k8s_service_validator.Entities.Namespace.{Namespace, spec}
use k8s_service_validator.Matrix.Reachability.{Ref, Heap}
use k8s_service_validator.Matrix.Probe.{update}
use k8s_service_validator.Matrix.Model.{Model}
use k8s_service_validator.Matrix.Manager.{
  Node, Cluster, State, create_pod, start_each, start_pods_in_namespace, start_namespaces,
  start_pods,
}

All_get_elem? :
    {A : Type 0} (P : A → Type 0) (xs : List A) (i : ℕ) {x : A}
    → All P xs
    → get_elem? xs i ≡ some x
    → P x
All_get_elem? P [] i h e = absurd (cc)
All_get_elem? P (y ∷ xs) zero (py, h) e = subst P (cc) py
All_get_elem? P (y ∷ xs) (suc i) (py, h) e = All_get_elem? P xs i h e

module _ (cluster : Cluster) where
  start_each-ne-panic :
      (reason : Panic) (nodes : List Node) (i : ℕ) (ps : List Ref) (s : State cluster)
      → i + length ps ≤ length nodes
      → start_each cluster nodes i ps s ≢ panic reason
  unfolding start_each
  start_each-ne-panic reason nodes i [] s h e = cc
  start_each-ne-panic reason nodes i (p ∷ ps) s h e =
      let (node, at) = get_elem?_below nodes i (omega arith) in
      let named = record s {
        heap = update s.heap p (record (s.heap p) { node_name = node.name });
      } in
      elim (Option-cases (create_pod cluster p named).0) [
        | inr (err, failed) ↦ ground (arith, at, failed)
        | inl fine ↦
            start_each-ne-panic reason nodes (suc i) ps (create_pod cluster p named).1 (omega arith)
              (ground (arith, at, fine))
      ]

  start_pods_in_namespace-ne-panic :
      (reason : Panic) (nodes : List Node) (ns : Namespace Ref) (s : State cluster)
      → length ns.pods ≤ length nodes
      → start_pods_in_namespace cluster nodes ns s ≢ panic reason
  unfolding start_pods_in_namespace
  start_pods_in_namespace-ne-panic reason nodes ns s h e =
      let (err, w) = cluster.create_namespace (spec ns) s.world in
      ground (arith, start_each-ne-panic reason nodes 0 ns.pods (record s { world = w }))

  start_namespaces-ne-panic :
      (reason : Panic) (nodes : List Node) (nss : List (Namespace Ref)) (s : State cluster)
      → start_namespaces cluster nodes nss s ≢ panic reason
  unfolding start_namespaces
  start_namespaces-ne-panic reason nodes [] s e = cc
  start_namespaces-ne-panic reason nodes (ns ∷ nss) s e =
      elim (Outcome-cases (start_pods_in_namespace cluster nodes ns s)) [
        | inr (p, failed) ↦ ground (arith, failed, start_pods_in_namespace-ne-panic p nodes ns s)
        | inl (started, ends) ↦
            ground (arith, ends, start_namespaces-ne-panic reason nodes nss started.1)
      ]

  -- Whatever the numbers of nodes and of pods, `StartPods` does not panic: it never reads past the
  -- end of the nodes.
  pub start_pods-ne-panic :
      (reason : Panic) (m : Model) (nodes : List Node) (s : State cluster)
      → start_pods cluster m nodes s ≢ panic reason
  unfolding start_pods
  start_pods-ne-panic reason m nodes s e =
      elim (Outcome-cases (start_namespaces cluster nodes m.namespaces s)) [
        | inr (p, failed) ↦ start_namespaces-ne-panic p nodes m.namespaces s failed
        | inl (started, ends) ↦ ground (arith, ends)
      ]

-- A pod of this namespace and name was created without an error, by a specification that asks for
-- this node and no other.
pub record CreatedOn (cluster : Cluster) (in_namespace called : Text) (node : Node) : Type 0 where
  pub specification : K8sPod
  pub world : cluster.World
  pub accepted : (cluster.create_pod specification world).0 ≡ none
  pub namespace : specification.namespace ≡ in_namespace
  pub name : specification.name ≡ called
  pub selector : specification.spec.node_selector ≡ (codes "kubernetes.io/hostname", node.name) ∷ []

module _ (cluster : Cluster) where
  -- Starting a pod changes no pod's namespace and name.
  abbrev pub SameNames : Heap → Heap → Type 0
  SameNames heap heap' =
      (q : Ref) → ((heap' q).name ≡ (heap q).name) × ((heap' q).namespace ≡ (heap q).namespace)

  abbrev pub named_for : Node → Ref → State cluster → State cluster
  named_for node p s = record s {
    heap = update s.heap p (record (s.heap p) { node_name = node.name });
  }

  pub create_pod-SameNames :
      (node : Node) (p : Ref) (s : State cluster)
      → SameNames s.heap (create_pod cluster p (named_for node p s)).1.heap
  unfolding create_pod pod_to_k8s_spec label_selector
  create_pod-SameNames node p s q = ground (arith, eq_iff p q)

  specification_for :
      (node : Node) (p : Ref) (heap : Heap) (random random' : Randoms)
      → node.name ≢ []
      → let k8s = (pod_to_k8s_spec random random' (record (heap p) { node_name = node.name })).0 in
        (k8s.namespace ≡ (heap p).namespace)
        × (k8s.name ≡ (heap p).name)
        × (k8s.spec.node_selector ≡ (codes "kubernetes.io/hostname", node.name) ∷ [])
  unfolding pod_to_k8s_spec label_selector
  specification_for node p heap random random' has_name = ground (arith, eq_iff node.name [])

  created_with :
      (node : Node) (p : Ref) (s : State cluster) (k8s : K8sPod)
      → k8s
        ≡ (pod_to_k8s_spec
            (cluster.random s.world).0
            (cluster.random s.world).1
            (record (s.heap p) { node_name = node.name })).0
      → (create_pod cluster p (named_for node p s)).0 ≡ none
      → (cluster.create_pod k8s s.world).0 ≡ none
  unfolding create_pod
  created_with node p s k8s made fine = ground (arith, eq_iff p p)

  create_pod-CreatedOn :
      (node : Node) (p : Ref) (s : State cluster)
      → node.name ≢ []
      → (create_pod cluster p (named_for node p s)).0 ≡ none
      → CreatedOn cluster (s.heap p).namespace (s.heap p).name node
  create_pod-CreatedOn node p s has_name fine =
      let (random, random') = cluster.random s.world in
      let k8s = (pod_to_k8s_spec random random' (record (s.heap p) { node_name = node.name })).0 in
      let (namespace, name, selector) = specification_for node p s.heap random random' has_name in
      record {
        specification = k8s;
        world = s.world;
        accepted = created_with node p s k8s refl fine;
        namespace = namespace;
        name = name;
        selector = selector;
      }

  pub start_each_inversion :
      (nodes : List Node) (i : ℕ) (p : Ref) (ps : List Ref) (s s' : State cluster)
      → start_each cluster nodes i (p ∷ ps) s ≡ ok (none, s')
      → (node : Node) × (get_elem? nodes i ≡ some node)
        × ((create_pod cluster p (named_for node p s)).0 ≡ none)
        × (start_each cluster nodes (suc i) ps (create_pod cluster p (named_for node p s)).1
            ≡ ok (none, s'))
  unfolding start_each
  start_each_inversion nodes i p ps s s' e = elim (Option-cases (get_elem? nodes i)) [
    | inl beyond ↦ absurd (ground (arith, beyond))
    | inr (node, at) ↦ elim (Option-cases (create_pod cluster p (named_for node p s)).0) [
      | inl fine ↦ (node, at, fine, ground (arith, at, fine))
      | inr (err, failed) ↦ absurd (ground (arith, at, failed))
    ]
  ]

  start_each-CreatedOn :
      (nodes : List Node) (i : ℕ) (ps : List Ref) (s s' : State cluster) (k : ℕ) (p : Ref)
      → All (λ node. node.name ≢ []) nodes
      → start_each cluster nodes i ps s ≡ ok (none, s')
      → get_elem? ps k ≡ some p
      → (node : Node) × (get_elem? nodes (i + k) ≡ some node)
        × CreatedOn cluster (s.heap p).namespace (s.heap p).name node
  start_each-CreatedOn nodes i [] s s' k p names e at = absurd (cc)
  start_each-CreatedOn nodes i (q ∷ ps) s s' zero p names e at =
      let (node, found, fine, rest) = start_each_inversion nodes i q ps s s' e in
      let here : i + 0 ≡ i = omega arith in
      let same : q ≡ p = ground arith in
      (
        node,
        rw here found,
        subst (λ r. CreatedOn cluster (s.heap r).namespace (s.heap r).name node) same
            (create_pod-CreatedOn node q s
              (All_get_elem? (λ node. node.name ≢ []) nodes i names found) fine),
      )
  start_each-CreatedOn nodes i (q ∷ ps) s s' (suc k) p names e at =
      let (node, found, fine, rest) = start_each_inversion nodes i q ps s s' e in
      let s1 = (create_pod cluster q (named_for node q s)).1 in
      let (node', found', created) =
        start_each-CreatedOn nodes (suc i) ps s1 s' k p names rest at in
      let (name, namespace) = create_pod-SameNames node q s p in
      let place : i + suc k ≡ suc i + k = omega arith in
      (node', rw place found', rw (sym name, sym namespace) created)

  -- If `StartPodsInNamespace` returns no error, and every node has a name, the pod at each position
  -- of the namespace was created without an error, by a specification with its namespace and name
  -- that selects the node at the same position.
  pub start_pods_in_namespace-CreatedOn :
      (nodes : List Node) (ns : Namespace Ref) (s s' : State cluster) (k : ℕ) (p : Ref)
      → All (λ node. node.name ≢ []) nodes
      → start_pods_in_namespace cluster nodes ns s ≡ ok (none, s')
      → get_elem? ns.pods k ≡ some p
      → (node : Node) × (get_elem? nodes k ≡ some node)
        × CreatedOn cluster (s.heap p).namespace (s.heap p).name node
  unfolding start_pods_in_namespace
  start_pods_in_namespace-CreatedOn nodes ns s s' k p names e at =
      let (err, w) = cluster.create_namespace (spec ns) s.world in
      let started : start_each cluster nodes 0 ns.pods (record s { world = w }) ≡ ok (none, s') =
        ground arith in
      let place : 0 + k ≡ k = omega arith in
      rw place at
        (start_each-CreatedOn nodes 0 ns.pods (record s { world = w }) s' k p names started at)
