-- ===== src/Matrix/Manager/Polled.antt =====
-- What `StartPods` writes to `PendingPods`: how often each pod was seen pending while it was waited
-- for.
use k8s_service_validator.Prelude.{
  ℕ, suc, leb, List, [], ◌∷◌, ◌≡◌, ◌≢◌, refl, sym, ◌∙◌, ap, subst, Option, none, arith, inl, inr,
  Option-cases, nat_eq, All, list_beq,
}
use k8s_service_validator.GoMap.{GoMap, lookup}
use k8s_service_validator.Outcome.{ok, Outcome-cases}
use k8s_service_validator.Text.{Text, text_eq}
use k8s_service_validator.Kubernetes.PodWait.{
  polls, poll_immediate, poll_times_to_determine_pending_pod, wait_for_pod_running_in_namespace,
}
use k8s_service_validator.Kubernetes.PodWait.Pending.{
  times_pending, above-poll_immediate, lookup-poll_immediate,
}
use k8s_service_validator.Entities.Pod.Spec.{pod_to_k8s_spec, label_selector}
use k8s_service_validator.Entities.Namespace.{Namespace, spec}
use k8s_service_validator.Matrix.Reachability.{Ref, Heap}
use k8s_service_validator.Matrix.Model.{Model, all_pods, pods_of}
use k8s_service_validator.Matrix.Model.Keeping.{UniqueNames}
use k8s_service_validator.Matrix.Model.Removed.{OtherNames}
use k8s_service_validator.Matrix.Manager.{
  Node, Cluster, State, ManagerError, create_pod, start_each, start_pods_in_namespace,
  start_namespaces, start_pods, wait_and_set_ips, wait_each,
}
use k8s_service_validator.Matrix.Manager.Start.{SameNames, named_for, start_each_inversion}
use k8s_service_validator.Matrix.Manager.Left.{is_left}
use k8s_service_validator.Matrix.Manager.Keeps.{wait_and_set_ips-Keeps, wait_each-Keeps}

module _ (cluster : Cluster) where
  -- Waiting for these pods one after the other from this state, each of them is left exactly if the
  -- answers about it, in the state of the cluster in which it is waited for, say at most as often as
  -- the bound that it is pending.
  abbrev pub LeftByAnswers : Heap → GoMap Text ℕ → List Ref → State cluster → Type 0
  LeftByAnswers heap pending [] s = Unit {0}
  LeftByAnswers heap pending (p ∷ ps) s =
      (is_left heap pending p
        ≡ leb (times_pending (cluster.answers (heap p).namespace (heap p).name s.world).0)
            poll_times_to_determine_pending_pod)
      × LeftByAnswers heap pending ps (wait_and_set_ips cluster p s).1

  start_each-pending :
      (nodes : List Node) (i : ℕ) (ps : List Ref) (s s' : State cluster)
      → start_each cluster nodes i ps s ≡ ok (none, s')
      → s'.pending ≡ s.pending
  unfolding start_each create_pod
  start_each-pending nodes i [] s s' e = ground arith
  start_each-pending nodes i (p ∷ ps) s s' e =
      let (node, at, fine, rest) = start_each_inversion cluster nodes i p ps s s' e in
      let s1 = (create_pod cluster p (named_for cluster node p s)).1 in
      start_each-pending nodes (suc i) ps s1 s' rest ∙ created node p s
    where
      created :
          (node : Node) (p : Ref) (s : State cluster)
          → (create_pod cluster p (named_for cluster node p s)).1.pending ≡ s.pending
      created node p s = ground arith

  start_namespaces-pending :
      (nodes : List Node) (nss : List (Namespace Ref)) (s s' : State cluster)
      → start_namespaces cluster nodes nss s ≡ ok (none, s')
      → s'.pending ≡ s.pending
  unfolding start_namespaces start_pods_in_namespace
  start_namespaces-pending nodes [] s s' e = ground arith
  start_namespaces-pending nodes (ns ∷ nss) s s' e =
      elim (Outcome-cases (start_pods_in_namespace cluster nodes ns s)) [
        | inr (p, failed) ↦ absurd (ground (arith, failed))
        | inl (started, ends) ↦
            let fine : started.0 ≡ none = ground (arith, ends) in
            let rest : start_namespaces cluster nodes nss started.1 ≡ ok (none, s') =
              ground (arith, ends, fine) in
            let s1 : State cluster = record s {
              world = (cluster.create_namespace (spec ns) s.world).1;
            } in
            let here : start_each cluster nodes 0 ns.pods s1 ≡ ok (none, started.1) =
              ground (arith, ends, fine) in
            start_namespaces-pending nodes nss started.1 s' rest
            ∙ start_each-pending nodes 0 ns.pods s1 started.1 here
      ]

  -- One wait goes by the answers about its own pod.
  wait_and_set_ips-polled :
      (p : Ref) (s : State cluster)
      → (wait_and_set_ips cluster p s).1.pending
        ≡ (poll_immediate
            (s.heap p).name
            (cluster.answers (s.heap p).namespace (s.heap p).name s.world).0
            s.pending).1
  unfolding wait_and_set_ips wait_for_pod_running_in_namespace pod_to_k8s_spec label_selector
      list_beq
  wait_and_set_ips-polled p s = ground arith

  module _ (heap0 : Heap) where
    abbrev Named : State cluster → Type 0
    Named s = SameNames cluster s.heap heap0

    waited-Named : (p : Ref) (s : State cluster) → Named s → Named (wait_and_set_ips cluster p s).1
    waited-Named p s same q =
        let kept = (wait_and_set_ips-Keeps cluster p s).same_names q in
        ((same q).0 ∙ sym kept.0, (same q).1 ∙ sym kept.1)

    wait-others :
        (p : Ref) (s : State cluster) (name : Text)
        → Named s
        → (heap0 p).name ≢ name
        → lookup name (wait_and_set_ips cluster p s).1.pending ≡ lookup name s.pending
    wait-others p s name same other =
        ap (lookup name) (wait_and_set_ips-polled p s)
        ∙ lookup-poll_immediate (s.heap p).name
            (cluster.answers (s.heap p).namespace (s.heap p).name s.world).0 s.pending name
            (λ e. other ((same p).0 ∙ e))

    wait_each-others :
        (name : Text) (ps : List Ref) (s : State cluster)
        → Named s
        → OtherNames heap0 name ps
        → lookup name (wait_each cluster ps s).1.pending ≡ lookup name s.pending
    unfolding wait_each
    wait_each-others name [] s same others = refl
    wait_each-others name (p ∷ ps) s same (other, others) =
        elim (Option-cases (wait_and_set_ips cluster p s).0) [
          | inr (err, failed) ↦ ground (arith, failed, wait-others p s name same other)
          | inl fine ↦ ground (
            arith,
            fine,
            wait-others p s name same other,
            wait_each-others name ps (wait_and_set_ips cluster p s).1 (waited-Named p s same)
                others,
          )
        ]

    abbrev IsNew : GoMap Text ℕ → Ref → Type 0
    IsNew pending p = lookup (heap0 p).name pending ≡ none

    still-IsNew :
        (p : Ref) (s : State cluster) (ps : List Ref)
        → Named s
        → OtherNames heap0 (heap0 p).name ps
        → All (IsNew s.pending) ps
        → All (IsNew (wait_and_set_ips cluster p s).1.pending) ps
    still-IsNew p s [] same others new = tt
    still-IsNew p s (q ∷ ps) same (other, others) (new, news) = (
      wait-others p s (heap0 q).name same (λ e. other (sym e)) ∙ new,
      still-IsNew p s ps same others news,
    )

    left_by_answers :
        (p : Ref) (s : State cluster) (pending : GoMap Text ℕ)
        → Named s
        → IsNew s.pending p
        → lookup (heap0 p).name pending
          ≡ lookup (heap0 p).name (wait_and_set_ips cluster p s).1.pending
        → is_left heap0 pending p
          ≡ leb
              (times_pending (cluster.answers (heap0 p).namespace (heap0 p).name s.world).0)
              poll_times_to_determine_pending_pod
    unfolding polls
    left_by_answers p s pending same new kept =
        let answers = (cluster.answers (heap0 p).namespace (heap0 p).name s.world).0 in
        let polled : (wait_and_set_ips cluster p s).1.pending
            ≡ (poll_immediate (heap0 p).name answers s.pending).1 =
          rw ((same p).0, (same p).1) (wait_and_set_ips-polled p s) in
        ground (arith, kept, polled, new, above-poll_immediate (heap0 p).name answers s.pending)

    wait_each-LeftByAnswers :
        (ps : List Ref) (s : State cluster)
        → Named s
        → UniqueNames heap0 ps
        → All (IsNew s.pending) ps
        → (wait_each cluster ps s).0 ≡ none
        → LeftByAnswers heap0 (wait_each cluster ps s).1.pending ps s
    unfolding wait_each
    wait_each-LeftByAnswers [] s same unique new h = tt
    wait_each-LeftByAnswers (p ∷ ps) s same (others, unique) (new, news) h =
        let waited = wait_and_set_ips cluster p s in
        elim (Option-cases waited.0) [
          | inr (err, failed) ↦ absurd (ground (arith, failed))
          | inl fine ↦
              let goes_on : wait_each cluster ps waited.1 ≡ wait_each cluster (p ∷ ps) s =
                ground (arith, fine) in
              let last = waited-Named p s same in
              (
                left_by_answers p s (wait_each cluster (p ∷ ps) s).1.pending same new (
                    ap
                      (λ (r : Option ManagerError × State cluster).
                        lookup (heap0 p).name r.1.pending)
                      (sym goes_on)
                    ∙ wait_each-others (heap0 p).name ps waited.1 last others),
                subst
                    (λ (r : Option ManagerError × State cluster).
                      LeftByAnswers heap0 r.1.pending ps waited.1)
                    goes_on
                    (wait_each-LeftByAnswers ps waited.1 last unique
                      (still-IsNew p s ps same others news) (ap (λ r. r.0) goes_on ∙ h)),
              )
        ]

  All-IsNew : (heap0 : Heap) (ps : List Ref) → All (IsNew heap0 []) ps
  unfolding lookup
  All-IsNew heap0 [] = tt
  All-IsNew heap0 (p ∷ ps) = (refl, All-IsNew heap0 ps)

  -- If `StartPods` returns no error, and its pods have names of their own, they are
  -- waited for from the state in which all namespaces are started, and each of them is left exactly
  -- if it was not seen pending more often than the bound.
  pub start_pods-LeftByAnswers :
      (m m' : Model) (nodes : List Node) (s s' : State cluster)
      → m.pods ≡ none
      → s.pending ≡ []
      → start_pods cluster m nodes s ≡ ok (none, m', s')
      → UniqueNames s'.heap (pods_of m.namespaces)
      → (started : State cluster) × (start_namespaces cluster nodes m.namespaces s
          ≡ ok (none, started))
        × LeftByAnswers s'.heap s'.pending (pods_of m.namespaces) started
  unfolding start_pods all_pods
  start_pods-LeftByAnswers m m' nodes s s' no_cache empty e unique =
      elim (Outcome-cases (start_namespaces cluster nodes m.namespaces s)) [
        | inr (p, fails) ↦ absurd (ground (arith, fails))
        | inl (started, returns) ↦ elim (Option-cases started.0) [
          | inr (err, failed) ↦ absurd (ground (arith, returns, failed))
          | inl fine ↦
              let pods = pods_of m.namespaces in
              let here : start_namespaces cluster nodes m.namespaces s ≡ ok (none, started.1) =
                ground (arith, returns, fine) in
              let waited = wait_each cluster pods started.1 in
              let last : waited.1 ≡ s' = ground (arith, returns, fine) in
              let ended : waited.0 ≡ none = ground (arith, returns, fine) in
              let none_pending : started.1.pending ≡ [] =
                start_namespaces-pending nodes m.namespaces s started.1 here ∙ empty in
              (
                started.1,
                here,
                subst (λ (t : State cluster). LeftByAnswers s'.heap t.pending pods started.1) last
                    (wait_each-LeftByAnswers s'.heap pods started.1
                      (subst (λ (t : State cluster). SameNames cluster started.1.heap t.heap) last
                        (wait_each-Keeps cluster pods started.1).same_names)
                      unique
                      (subst (λ pending. All (IsNew s'.heap pending) pods) (sym none_pending)
                        (All-IsNew s'.heap pods))
                      ended),
              )
        ]
      ]
