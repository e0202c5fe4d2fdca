-- ===== src/Setup/Reached.antt =====
-- After the set-up of the suite, every pod that is left reaches every other one by the ports and the
-- protocols of the suite.
use k8s_service_validator.Prelude.{
  ℕ, Bool, true, false, not, ◌&&◌, ◌||◌, List, [], ◌∷◌, ◌≡◌, refl, sym, ap, ◌∙◌, arith, subst,
  nat_eq, keep, list_beq, inl, inr, Bool-cases, ◌==◌,
}
use k8s_service_validator.Prelude.Elem.{Elem, here, there, Elem-cons, All-Elem}
use k8s_service_validator.Text.{Text, text_eq}
use k8s_service_validator.Kubernetes.Exec.{Remote}
use k8s_service_validator.Commands.{protocol_tcp, protocol_udp}
use k8s_service_validator.Entities.Container.{Container}
use k8s_service_validator.Entities.Pod.{pod_string}
use k8s_service_validator.Matrix.Bandwidth.{Floats}
use k8s_service_validator.Matrix.Connect.{Wrapping}
use k8s_service_validator.Matrix.Reachability.{Ref, Heap}
use k8s_service_validator.Matrix.Model.{Store}
use k8s_service_validator.Matrix.Model.Extract.{
  any_container, any_pod, any_namespace, has_port, has_protocol,
}
use k8s_service_validator.Matrix.Validate.Sound.{Confirmed}
use k8s_service_validator.Matrix.Manager.{Cluster, new_kube_manager}
use k8s_service_validator.Matrix.Manager.Keeps.{offers}
use k8s_service_validator.Matrix.Manager.Left.{is_left}
use k8s_service_validator.Matrix.Servers.{fresh, pods_of_model}
use k8s_service_validator.Setup.{SetUp, suite_model}
use k8s_service_validator.Setup.Serves.{set_up_serves}
use k8s_service_validator.Setup.Leaves.{
  suite_offers, suite_pods, suite_pods_offer, kept, removed, set_up_leaves,
}

abbrev any_offer : (ℕ × Text → Bool) → List (ℕ × Text) → Bool
any_offer test [] = false
any_offer test (o ∷ os) = test o || any_offer test os

abbrev port_is : ℕ → ℕ × Text → Bool
port_is n (port, _) = not (n == 0) && port == n

abbrev protocol_is : Text → ℕ × Text → Bool
protocol_is t (_, protocol) = not (t == []) && protocol == t

port_offered :
    (n : ℕ) (cs : List Container)
    → any_container (has_port n) cs ≡ any_offer (port_is n) (offers cs)
port_offered n [] = refl
port_offered n (c ∷ cs) = ground (arith, port_offered n cs)

protocol_offered :
    (t : Text) (cs : List Container)
    → any_container (has_protocol t) cs ≡ any_offer (protocol_is t) (offers cs)
protocol_offered t [] = refl
protocol_offered t (c ∷ cs) = ground (arith, protocol_offered t cs)

any_pod_of :
    (test : Container → Bool) (heap : Heap) (ps : List Ref) (a : Ref)
    → Elem a ps
    → any_container test (heap a).containers ≡ true
    → any_pod test heap ps ≡ true
any_pod_of test heap [] a at h = elim at [ ]
any_pod_of test heap (p ∷ ps) a (here same) h =
    let first : any_container test (heap p).containers ≡ true =
      subst (λ q. any_container test (heap q).containers ≡ true) (sym same) h in
    ground arith
any_pod_of test heap (p ∷ ps) a (there at) h = ground (arith, any_pod_of test heap ps a at h)

kept-Elem : (f : Ref → Bool) (ps : List Ref) (a : Ref) → Elem a (keep f ps) → Elem a ps
kept-Elem f [] a at = at
kept-Elem f (p ∷ ps) a at = elim (Bool-cases (f p)) [
  | inr out ↦
      let later : keep f (p ∷ ps) ≡ keep f ps = ground arith in
      there (kept-Elem f ps a (subst (Elem a) later at))
  | inl stays ↦
      let first : keep f (p ∷ ps) ≡ p ∷ keep f ps = ground arith in
      elim (Elem-cons (subst (Elem a) first at)) [
        | inl same ↦ here same
        | inr later ↦ there (kept-Elem f ps a later)
      ]
]

port_of_suite : (port : ℕ) → Elem port (80 ∷ 81 ∷ []) → any_offer (port_is port) suite_offers ≡ true
port_of_suite port (here same) = subst (λ n. any_offer (port_is n) suite_offers ≡ true) same refl
port_of_suite port (there (here same)) =
    subst (λ n. any_offer (port_is n) suite_offers ≡ true) same refl
port_of_suite port (there (there at)) = elim at [ ]

protocol_of_suite :
    (protocol : Text)
    → Elem protocol (protocol_tcp ∷ protocol_udp ∷ [])
    → any_offer (protocol_is protocol) suite_offers ≡ true
unfolding list_beq
protocol_of_suite protocol (here same) =
    subst (λ t. any_offer (protocol_is t) suite_offers ≡ true) same refl
protocol_of_suite protocol (there (here same)) =
    subst (λ t. any_offer (protocol_is t) suite_offers ≡ true) same refl
protocol_of_suite protocol (there (there at)) = elim at [ ]

module _ (cluster : Cluster) (fl : Floats) (remote : Remote) (wrapping : Wrapping)
    (namespace : Text) (store : Store) (w : cluster.World)
    (done : SetUp cluster fl remote wrapping namespace store w) where
  abbrev left : List Ref
  left = keep (is_left done.s1.heap done.s1.pending) (suite_pods namespace done.nodes store)

  left-offers : (a : Ref) → Elem a left → offers (done.s2.heap a).containers ≡ suite_offers
  unfolding new_kube_manager
  left-offers a at =
      let pods = suite_pods namespace done.nodes store in
      let heap0 = (suite_model namespace done.nodes store).1.heap in
      let in_suite = kept-Elem (is_left done.s1.heap done.s1.pending) pods a at in
      let offered : offers (heap0 a).containers ≡ suite_offers =
        All-Elem (λ r. offers (heap0 r).containers ≡ suite_offers) pods
          (suite_pods_offer namespace done.nodes store) in_suite in
      let (_, keeps) = kept cluster fl remote wrapping namespace store w done in
      let (_, heaps) = removed cluster fl remote wrapping namespace store w done in
      ap (λ heap. offers (heap a).containers) heaps ∙ (keeps.same_offers a ∙ offered)

  some_container :
      (test : Container → Bool) (a : Ref)
      → Elem a left
      → any_container test (done.s2.heap a).containers ≡ true
      → any_namespace test done.s2.heap done.m2.namespaces ≡ true
  some_container test a at h =
      let (models, _) = removed cluster fl remote wrapping namespace store w done in
      let found = any_pod_of test done.s2.heap left a at h in rw models (ground (arith, found))

  -- After a set-up of the suite that ends without an error, by both ports, 80 and 81, and both
  -- protocols, TCP and UDP, between each two of the pods that are left, some probe of the one from
  -- the other, at its own address, was recorded as connected. A target that is marked to be skipped
  -- is recorded so without a probe.
  pub suite_serves :
      (port : ℕ) (protocol : Text) (a b : Ref)
      → Elem port (80 ∷ 81 ∷ [])
      → Elem protocol (protocol_tcp ∷ protocol_udp ∷ [])
      → Elem a (pods_of_model done.waited.m').refs
      → Elem b (pods_of_model done.waited.m').refs
      → Confirmed fl remote wrapping
          (pods_of_model done.waited.m')
          false
          false
          done.s2.heap
          (fresh fl remote wrapping (pods_of_model done.waited.m') done.s2.heap (port, protocol))
          (pod_string (done.s2.heap a))
          (pod_string (done.s2.heap b))
          true
  suite_serves port protocol a b hp ht ea eb =
      let refs = (set_up_leaves cluster fl remote wrapping namespace store w done).1 in
      let at = subst (Elem a) refs ea in
      let offered = left-offers a at in
      set_up_serves cluster fl remote wrapping namespace store w done port protocol a b
        (some_container (has_port port) a at (
          port_offered port (done.s2.heap a).containers
          ∙ (ap (any_offer (port_is port)) offered ∙ port_of_suite port hp)))
        (some_container (has_protocol protocol) a at (
          protocol_offered protocol (done.s2.heap a).containers
          ∙ (ap (any_offer (protocol_is protocol)) offered ∙ protocol_of_suite protocol ht)))
        ea eb
