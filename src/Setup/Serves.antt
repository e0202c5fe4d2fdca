-- ===== src/Setup/Serves.antt =====
-- After the set-up of the suite every pod reaches every pod by each port and protocol that the
-- containers have.
use k8s_service_validator.Prelude.{
  ℕ, true, false, List, [], ◌∷◌, ◌≡◌, refl, ◌∙◌, none, arith, contains, eq_iff, ◌==◌, nat_eq,
  Bool-cases, Option-cases, inl, inr, Eq,
}
use k8s_service_validator.Prelude.Elem.{Elem, here, there}
use k8s_service_validator.GoMap.{GoMap, delete}
use k8s_service_validator.Outcome.{ok, Outcome-cases}
use k8s_service_validator.Text.{Text, text_eq}
use k8s_service_validator.Kubernetes.Exec.{Remote}
use k8s_service_validator.Entities.Pod.{pod_string}
use k8s_service_validator.Matrix.Bandwidth.{Floats}
use k8s_service_validator.Matrix.Connect.{Wrapping}
use k8s_service_validator.Matrix.Reachability.{Ref, Heap}
use k8s_service_validator.Matrix.Model.{
  Model, Store, Found, all_pods, new_model, all_ports_protocol, extract_port_protocols,
}
use k8s_service_validator.Matrix.Model.Remove.{
  Removal, remove_pod, find_last, remove_from_namespace, remove_from_cache,
}
use k8s_service_validator.Matrix.Model.Extract.{
  any_namespace, has_port, has_protocol, extract_port_protocols_lem,
}
use k8s_service_validator.Matrix.Validate.Sound.{Confirmed}
use k8s_service_validator.Matrix.Manager.{
  Node, Cluster, State, new_kube_manager, start_namespaces, start_pods, remove_pending,
  remove_pending_pods_in_namespace,
}
use k8s_service_validator.Matrix.Manager.Pending.{is_stuck, removal_inversion, skip_inversion}
use k8s_service_validator.Matrix.Servers.{fresh, pods_of_model}
use k8s_service_validator.Matrix.Servers.Ready.{servers_ready}
use k8s_service_validator.Setup.{suite_model, SetUp}

-- The ports and the protocols have not been read off the containers yet.
record Unread (m : Model) : Type 0 where
  pub ports : m.ports ≡ none
  pub protocols : m.protocols ≡ none

remove_pod-Unread :
    (heap : Heap) (name namespace_name : Text) (m : Model) (taken : Removal × Model)
    → remove_pod heap name namespace_name m ≡ ok taken
    → Unread m
    → Unread taken.1
unfolding remove_pod
remove_pod-Unread heap name namespace_name m taken e u =
    elim (Option-cases (find_last namespace_name m.namespaces)) [
      | inl nowhere ↦ ground (arith, nowhere)
      | inr (found, at) ↦ elim (Outcome-cases (remove_from_namespace heap name found.1.pods)) [
        | inr (p, fails) ↦ absurd (ground (arith, at, fails))
        | inl (pods, kept) ↦ elim (Option-cases m.pods) [
          | inl no_cache ↦ absurd (ground (arith, at, kept, no_cache))
          | inr (cache, cached) ↦ elim (Option-cases (remove_from_cache heap name cache)) [
            | inl missing ↦ ground (arith, at, kept, cached, missing)
            | inr (cache', taken_out) ↦ ground (arith, at, kept, cached, taken_out)
          ]
        ]
      ]
    ]

module _ (cluster : Cluster) where
  start_pods-Unread :
      (m m' : Model) (nodes : List Node) (s s' : State cluster)
      → start_pods cluster m nodes s ≡ ok (none, m', s')
      → Unread m
      → Unread m'
  unfolding start_pods all_pods
  start_pods-Unread m m' nodes s s' e u =
      elim (Outcome-cases (start_namespaces cluster nodes m.namespaces s)) [
        | inr (p, fails) ↦ absurd (ground (arith, fails))
        | inl (started, returns) ↦ elim (Option-cases started.0) [
          | inr (err, failed) ↦ absurd (ground (arith, returns, failed))
          | inl fine ↦ ground (arith, returns, fine)
        ]
      ]

  remove_pending-Unread :
      (namespace_name : Text) (entries : GoMap Text ℕ) (m m' : Model) (s s' : State cluster)
      → remove_pending cluster namespace_name entries m s ≡ ok (none, m', s')
      → Unread m
      → Unread m'
  remove_pending-Unread namespace_name [] m m' s s' e u = unfold remove_pending in ground arith
  remove_pending-Unread namespace_name ((name, polls) ∷ rest) m m' s s' e u =
      elim (Bool-cases (is_stuck polls)) [
        | inr few ↦
            remove_pending-Unread namespace_name rest m m' s s'
              (skip_inversion cluster namespace_name name polls rest m m' s s' few e) u
        | inl stuck ↦
            let (taken, w, returns, _, later) =
              removal_inversion cluster namespace_name name polls rest m m' s s' stuck e in
            remove_pending-Unread namespace_name rest taken.1 m'
              (record s { pending = delete name s.pending; world = w }) s' later
              (remove_pod-Unread s.heap name namespace_name m taken returns u)
      ]

contained : {A : Type 0} ⦃e : Eq A⦄ (a : A) (xs : List A) → contains a xs ≡ true → Elem a xs
unfolding contains
contained a [] h = absurd (cc)
contained a (x ∷ xs) h = elim (Bool-cases (x == a)) [
  | inl this ↦ here ((eq_iff x a).0 this)
  | inr other ↦ there (contained a xs (ground arith))
]

read_off :
    (heap : Heap) (m m' : Model) (found : Found)
    → Unread m
    → all_ports_protocol heap m ≡ ok (found, m')
    → found ≡ extract_port_protocols heap m.namespaces
unfolding all_ports_protocol
read_off heap m m' found u e = ground arith

left-Unread :
    (cluster : Cluster) (fl : Floats) (remote : Remote) (wrapping : Wrapping) (namespace : Text)
    (store : Store) (w : cluster.World) (done : SetUp cluster fl remote wrapping namespace store w)
    → Unread done.m2
unfolding remove_pending_pods_in_namespace suite_model new_model
left-Unread cluster fl remote wrapping namespace store w done =
    let (m0, store0) = suite_model namespace done.nodes store in
    remove_pending-Unread cluster namespace done.order done.m1 done.m2 done.s1 done.s2 done.removed
      (start_pods-Unread cluster m0 done.m1 done.nodes
        (new_kube_manager cluster store0.heap done.w1) done.s1 done.started
        (record { ports = refl; protocols = refl }))

-- After the set-up of the suite, by each port other than 0 and each protocol that some container of
-- the model has, between each two of the pods that are left, some probe of the one from the other,
-- at its own address, was recorded as connected. A target that is marked to be skipped is recorded
-- so without a probe.
pub set_up_serves :
    (cluster : Cluster) (fl : Floats) (remote : Remote) (wrapping : Wrapping) (namespace : Text)
    (store : Store) (w : cluster.World) (done : SetUp cluster fl remote wrapping namespace store w)
    (port : ℕ) (protocol : Text) (a b : Ref)
    → any_namespace (has_port port) done.s2.heap done.m2.namespaces ≡ true
    → any_namespace (has_protocol protocol) done.s2.heap done.m2.namespaces ≡ true
    → Elem a (pods_of_model done.waited.m').refs
    → Elem b (pods_of_model done.waited.m').refs
    → Confirmed fl remote wrapping
        (pods_of_model done.waited.m')
        false
        false
        done.s2.heap
        (fresh fl remote wrapping (pods_of_model done.waited.m') done.s2.heap (port, protocol))
        (pod_string (done.s2.heap a))
        (pod_string (done.s2.heap b))
        true
set_up_serves cluster fl remote wrapping namespace store w done port protocol a b hp ht ea eb =
    let u = left-Unread cluster fl remote wrapping namespace store w done in
    let read =
      read_off done.s2.heap done.m2 done.waited.m' done.waited.found u
        done.waited.ports_protocols in
    let (ports, protocols) =
      extract_port_protocols_lem done.s2.heap done.m2.namespaces port protocol in
    servers_ready fl remote wrapping done.s2.heap done.m2 none done.waited port protocol a b refl
      (contained port done.waited.found.0 (rw read (ports ∙ hp)))
      (contained protocol done.waited.found.1 (rw read (protocols ∙ ht))) ea eb
