-- ===== src/Setup/Leaves.antt =====
-- Which pods the set-up of the suite leaves to be probed.
use k8s_service_validator.Prelude.{
  ℕ, zero, suc, ◌<◌, List, [], ◌∷◌, ◌++◌, ◌≡◌, ◌≢◌, refl, sym, ap, ◌∙◌, map, none, some, subst,
  length, arith, All, keep, append-nil,
}
use mathlib.Core.List.{append_cancel_left}
use k8s_service_validator.Outcome.{ok}
use k8s_service_validator.Text.{Text, codes, itoa, itoa-injective}
use k8s_service_validator.Kubernetes.Exec.{Remote}
use k8s_service_validator.Commands.{protocol_tcp, protocol_udp}
use k8s_service_validator.Entities.Container.{Container}
use k8s_service_validator.Entities.Namespace.{
  Namespace, new_pod, containers_for, containers_for_port, new_namespace_with_pods,
  new_namespace_with_pods_given_image_and_command,
}
use k8s_service_validator.Matrix.Bandwidth.{Floats}
use k8s_service_validator.Matrix.Connect.{Wrapping}
use k8s_service_validator.Matrix.Reachability.{Ref, Heap}
use k8s_service_validator.Matrix.Model.{
  Model, Store, Found, all_pods, pods_of, new_model, new_namespaces, allocate, all_ports_protocol,
}
use k8s_service_validator.Matrix.Model.Keeping.{holding, UniqueNames}
use k8s_service_validator.Matrix.Model.Named.{
  names_at, names_of_new, AllDiffer, allocate_pods-names, allocate_pods-All, names_at_same,
  AllDiffer-UniqueNames,
}
use k8s_service_validator.Matrix.Manager.{Cluster, Node, State, new_kube_manager, start_namespaces}
use k8s_service_validator.Matrix.Manager.Left.{is_left, remove_pending_left}
use k8s_service_validator.Matrix.Manager.Polled.{LeftByAnswers, start_pods-LeftByAnswers}
use k8s_service_validator.Matrix.Manager.Keeps.{Keeps, offers, start_pods-Keeps}
use k8s_service_validator.Matrix.Servers.{pods_of_model}
use k8s_service_validator.Setup.{pod_names, suite_model, SetUp}

pod_name-ne : (i j : ℕ) → i < j → codes "pod-" ++ itoa j ≢ codes "pod-" ++ itoa i
pod_name-ne i j h e =
    absurd (omega (arith, itoa-injective (append_cancel_left (codes "pod-") _ _ e)))

later_names : (n i j : ℕ) → i < j → All (λ m. m ≢ codes "pod-" ++ itoa i) (pod_names n j)
unfolding pod_names
later_names zero i j h = tt
later_names (suc n) i j h = (pod_name-ne i j h, later_names n i (suc j) (omega arith))

pod_names-AllDiffer : (n i : ℕ) → AllDiffer (pod_names n i)
unfolding pod_names
pod_names-AllDiffer zero i = tt
pod_names-AllDiffer (suc n) i =
    (later_names n i (suc i) (omega arith), pod_names-AllDiffer n (suc i))

module _ (namespace : Text) (nodes : List Node) (store : Store) where
  abbrev suite_namespace : Namespace Ref × Store
  suite_namespace =
      allocate
        (new_namespace_with_pods namespace (pod_names (length nodes) 1) (80 ∷ 81 ∷ [])
          (protocol_tcp ∷ protocol_udp ∷ []))
        store

  -- The pods of the suite, one for each node.
  abbrev pub suite_pods : List Ref
  suite_pods = suite_namespace.0.pods

  suite_model_lem : (suite_model namespace nodes store).0.namespaces ≡ suite_namespace.0 ∷ []
  unfolding suite_model new_model new_namespaces
  suite_model_lem = refl

  suite_names :
      names_at (suite_model namespace nodes store).1.heap suite_pods ≡ pod_names (length nodes) 1
  unfolding suite_model new_model new_namespaces allocate new_namespace_with_pods
      new_namespace_with_pods_given_image_and_command
  suite_names = allocate_pods-names _ store ∙ names_of_new namespace _ (pod_names (length nodes) 1)

ports_protocols-pods :
    (heap : Heap) (m m' : Model) (found : Found)
    → all_ports_protocol heap m ≡ ok (found, m')
    → m'.pods ≡ m.pods
unfolding all_ports_protocol
ports_protocols-pods heap m m' found e = ground arith

-- The pods of the suite offer the two ports by the two protocols.
abbrev pub suite_offers : List (ℕ × Text)
suite_offers =
    (80, protocol_tcp) ∷ (80, protocol_udp) ∷ (81, protocol_tcp) ∷ (81, protocol_udp) ∷ []

new_pods_offer :
    (namespace : Text) (containers : List Container) (names : List Text)
    → All
        (λ p. offers p.containers ≡ offers containers)
        (map (λ name. new_pod namespace name containers) names)
unfolding new_pod
new_pods_offer namespace containers [] = tt
new_pods_offer namespace containers (n ∷ names) = (refl, new_pods_offer namespace containers names)

pub suite_pods_offer :
    (namespace : Text) (nodes : List Node) (store : Store)
    → All
        (λ r. offers ((suite_model namespace nodes store).1.heap r).containers ≡ suite_offers)
        (suite_pods namespace nodes store)
unfolding suite_model new_model new_namespaces allocate new_namespace_with_pods
    new_namespace_with_pods_given_image_and_command containers_for containers_for_port
suite_pods_offer namespace nodes store =
    allocate_pods-All (λ p. offers p.containers ≡ suite_offers) _ store
      (new_pods_offer namespace _ (pod_names (length nodes) 1))

pods_of_cached : (m : Model) (refs : List Ref) → m.pods ≡ some refs → (pods_of_model m).refs ≡ refs
unfolding all_pods
pods_of_cached m refs h = ground arith

module _ (cluster : Cluster) (fl : Floats) (remote : Remote) (wrapping : Wrapping)
    (namespace : Text) (store : Store) (w : cluster.World)
    (done : SetUp cluster fl remote wrapping namespace store w) where
  abbrev pub ns : Namespace Ref
  ns = (suite_namespace namespace done.nodes store).0

  abbrev pub pods : List Ref
  pods = suite_pods namespace done.nodes store

  abbrev pub m0 : Model
  m0 = (suite_model namespace done.nodes store).0

  pub kept :
      (done.m1 ≡ holding m0 ns pods)
      × Keeps cluster
          (new_kube_manager cluster (suite_model namespace done.nodes store).1.heap done.w1)
          done.s1
  unfolding suite_model new_model new_namespaces pods_of
  kept =
      let (models, keeps) =
        start_pods-Keeps cluster m0 done.m1 done.nodes
          (new_kube_manager cluster (suite_model namespace done.nodes store).1.heap done.w1) done.s1
          refl done.started in
      (models ∙ ap (λ l. record m0 { pods = some l }) (append-nil pods), keeps)

  names_kept : names_at done.s1.heap pods ≡ pod_names (length done.nodes) 1
  unfolding new_kube_manager
  names_kept =
      names_at_same (suite_model namespace done.nodes store).1.heap done.s1.heap pods
        (λ r. (kept.1.same_names r).0)
      ∙ suite_names namespace done.nodes store

  unique : UniqueNames done.s1.heap pods
  unique =
      AllDiffer-UniqueNames done.s1.heap pods
        (rw names_kept (pod_names-AllDiffer (length done.nodes) 1))

  pub removed :
      (done.m2 ≡ holding m0 ns (keep (is_left done.s1.heap done.s1.pending) pods))
      × (done.s2.heap ≡ done.s1.heap)
  unfolding new_kube_manager allocate new_namespace_with_pods
  removed =
      remove_pending_left cluster m0 ns pods done.m2 done.s1 done.s2 done.order unique done.is_range
        (rw (sym kept.0) done.removed)

  -- The pods are waited for from the state in which their namespace is started, and each of them
  -- is left by the answers about it.
  abbrev pub IsLeftByAnswers : Type 0
  IsLeftByAnswers =
      (started : State cluster) × (start_namespaces cluster done.nodes m0.namespaces
          (new_kube_manager cluster (suite_model namespace done.nodes store).1.heap done.w1)
        ≡ ok (none, started))
      × LeftByAnswers cluster done.s1.heap done.s1.pending pods started

  by_answers : IsLeftByAnswers
  unfolding suite_model new_model new_namespaces pods_of new_kube_manager
  by_answers =
      let all : pods_of m0.namespaces ≡ pods = append-nil pods in
      let (started, starts, left) =
        start_pods-LeftByAnswers cluster m0 done.m1 done.nodes
          (new_kube_manager cluster (suite_model namespace done.nodes store).1.heap done.w1) done.s1
          refl refl done.started (subst (UniqueNames done.s1.heap) (sym all) unique) in
      (
        started,
        starts,
        subst (λ ps. LeftByAnswers cluster done.s1.heap done.s1.pending ps started) all left,
      )

  -- After the set-up of the suite the pods are named `pod-1` up to the number of nodes, and those
  -- that are left to be probed are the ones among them, in this order, of which the API server's
  -- answers, when the pod was waited for, said at most as often as the bound that it is pending,
  -- before it ran, failed or succeeded, or an error came.
  pub set_up_leaves :
      (names_at done.s1.heap (suite_pods namespace done.nodes store)
        ≡ pod_names (length done.nodes) 1)
      × ((pods_of_model done.waited.m').refs
          ≡ keep (is_left done.s1.heap done.s1.pending) (suite_pods namespace done.nodes store))
      × IsLeftByAnswers
  set_up_leaves = (
    names_kept,
    pods_of_cached done.waited.m' (keep (is_left done.s1.heap done.s1.pending) pods) (
        ports_protocols-pods done.s2.heap done.m2 done.waited.m' done.waited.found
          done.waited.ports_protocols
        ∙ ap (λ m. m.pods) removed.0),
    by_answers,
  )
