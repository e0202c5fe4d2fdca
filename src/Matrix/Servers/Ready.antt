-- ===== src/Matrix/Servers/Ready.antt =====
-- When `WaitForHTTPServers` returns nil, every pair of pods was connected by every port and protocol.
use k8s_service_validator.Prelude.{
  ℕ, Bool, true, false, List, [], ◌∷◌, ◌≡◌, ◌⊎◌, inl, inr, refl, subst, Option, none, some, arith,
  eq_iff, Eq, contains, Bool-cases, is_empty, ◌==◌, nat_eq,
}
use k8s_service_validator.Prelude.Elem.{Elem, here, there}
use k8s_service_validator.GoMap.{GoMap, lookup, lookup-delete}
use k8s_service_validator.Text.{Text, text_eq}
use k8s_service_validator.Kubernetes.Exec.{Remote}
use k8s_service_validator.Entities.Pod.{pod_string}
use k8s_service_validator.Matrix.Bandwidth.{Floats}
use k8s_service_validator.Matrix.Connect.{Wrapping}
use k8s_service_validator.Matrix.Reachability.{Ref, Heap}
use k8s_service_validator.Matrix.Probe.Filled.{
  OnlyContainers, OnlyContainers-refl, OnlyContainers-trans,
}
use k8s_service_validator.Matrix.Model.{Model}
use k8s_service_validator.Matrix.Validate.{Pods}
use k8s_service_validator.Matrix.Validate.Sound.{Confirmed}
use k8s_service_validator.Matrix.Servers.{
  ServerCase, case_name, fresh, Visit, Visits, Tries, pass, probe, ready, again, pods_of_model,
  cases_of, Waited,
}
use k8s_service_validator.Matrix.Servers.Cases.{lookup-server_cases, lookup-all_not_ready}
use k8s_service_validator.Matrix.Servers.Probes.{
  Connects, Visit-OnlyContainers, no_wrong-Connects, Connects-earlier,
}

contains-Elem : {A : Type 0} ⦃e : Eq A⦄ {a : A} (xs : List A) → Elem a xs → contains a xs ≡ true
unfolding contains
contains-Elem [] at = elim at [ ]
contains-Elem {a = a} (x ∷ xs) (here h) = ground (arith, eq_iff x a)
contains-Elem (x ∷ xs) (there at) = ground (arith, contains-Elem xs at)

module _ (fl : Floats) (remote : Remote) (wrapping : Wrapping) (pods : Pods)
    (cases : GoMap Text ServerCase) (heap0 : Heap) where
  -- Every pair of pods was found connected by the case.
  abbrev IsServing : ServerCase → Type 0
  IsServing c =
      (a b : Ref)
      → Elem a pods.refs
      → Elem b pods.refs
      → Connects fl remote wrapping pods c heap0 a b true

  -- A case is still not ready, or serves.
  abbrev Known : GoMap Text Bool → Type 0
  Known not_ready =
      (name : Text) (c : ServerCase)
      → lookup name cases ≡ some c
      → (lookup name not_ready ≡ some true) ⊎ IsServing c

  Visit-Known :
      {entry : Text × ServerCase} {heap heap' : Heap} {not_ready not_ready' : GoMap Text Bool}
      → lookup entry.0 cases ≡ some entry.1
      → OnlyContainers heap0 heap
      → Visit fl remote wrapping pods entry heap not_ready heap' not_ready'
      → Known not_ready
      → Known not_ready'
  Visit-Known at same (pass _ _ kept) known name c is_case = elim (known name c is_case) [
    | inl waiting ↦ inl (rw kept waiting)
    | inr serves ↦ inr serves
  ]
  Visit-Known {entry = entry} {heap = heap} {heap' = heap'} {not_ready = not_ready} at same
        (probe _ run changed) known name c is_case =
      elim (known name c is_case) [
        | inr serves ↦ inr serves
        | inl waiting ↦ elim (Bool-cases (run.counts.false_obs == 0)) [
          | inr wrong ↦ inl (ground (arith, changed))
          | inl fine ↦ elim (Bool-cases (entry.0 == name)) [
            | inr other ↦ inl (ground (arith, changed, lookup-delete name entry.0 not_ready))
            | inl this ↦
                let same_case : entry.1 ≡ c = ground (arith, eq_iff entry.0 name) in
                inr (
                  subst IsServing same_case (λ a b ea eb.
                    Connects-earlier fl remote wrapping pods entry.1 heap0 heap a b true same (
                      no_wrong-Connects fl remote wrapping pods entry.1 heap heap' run a b
                        ((eq_iff run.counts.false_obs 0).0 fine) ea eb)))
          ]
        ]
      ]

  Visits-Known :
      {order : List (Text × ServerCase)} {heap heap' : Heap}
      {not_ready not_ready' : GoMap Text Bool}
      → ((k : Text) (c : ServerCase) → Elem (k, c) order → lookup k cases ≡ some c)
      → OnlyContainers heap0 heap
      → Visits fl remote wrapping pods order heap not_ready heap' not_ready'
      → Known not_ready
      → OnlyContainers heap0 heap' × Known not_ready'
  Visits-Known sound same Visits.done known = (same, known)
  Visits-Known {heap = heap} sound same (Visits.next {entry = (k, c)} {heap1 = heap1} visit visits)
        known =
      Visits-Known (λ k' c' at. sound k' c' (there at))
        (OnlyContainers-trans heap0 heap heap1 same
          (Visit-OnlyContainers fl remote wrapping pods visit))
        visits (Visit-Known (sound k c (here refl)) same visit known)

  none_left :
      (not_ready : GoMap Text Bool)
      → is_empty not_ready ≡ true
      → Known not_ready
      → (name : Text) (c : ServerCase) → lookup name cases ≡ some c
      → IsServing c
  unfolding lookup
  none_left [] h known name c is_case = elim (known name c is_case) [
    | inl waiting ↦ absurd (cc)
    | inr serves ↦ serves
  ]
  none_left (entry ∷ not_ready) h known name c is_case = absurd (cc)

  Tries-IsServing :
      {left : ℕ} {heap : Heap} {not_ready : GoMap Text Bool} {result : Option ℕ}
      → Tries fl remote wrapping pods cases left heap not_ready result
      → result ≡ none
      → OnlyContainers heap0 heap
      → Known not_ready
      → (name : Text) (c : ServerCase) → lookup name cases ≡ some c
      → IsServing c
  Tries-IsServing Tries.exhausted h same known = absurd (cc)
  Tries-IsServing (ready {not_ready' = not_ready'} t empty) h same known =
      let (_, known') = Visits-Known t.is_range.sound same t.visits known in
      none_left not_ready' empty known'
  Tries-IsServing (again t more tries) h same known =
      let (same', known') = Visits-Known t.is_range.sound same t.visits known in
      Tries-IsServing tries h same' known'

-- If `WaitForHTTPServers` returns nil, then for each of the ports and each of the protocols of the
-- model, and for each two of its pods, some probe of the one from the other, at its own address and
-- by this port and protocol, was recorded as connected. A target that is marked to be skipped is
-- recorded so without a probe.
pub servers_ready :
    (fl : Floats) (remote : Remote) (wrapping : Wrapping) (heap : Heap) (m : Model)
    (result : Option ℕ) (waited : Waited fl remote wrapping heap m result) (port : ℕ)
    (protocol : Text) (a b : Ref)
    → result ≡ none
    → Elem port waited.found.0
    → Elem protocol waited.found.1
    → Elem a (pods_of_model waited.m').refs
    → Elem b (pods_of_model waited.m').refs
    → Confirmed fl remote wrapping
        (pods_of_model waited.m')
        false
        false
        heap
        (fresh fl remote wrapping (pods_of_model waited.m') heap (port, protocol))
        (pod_string (heap a))
        (pod_string (heap b))
        true
unfolding lookup
servers_ready fl remote wrapping heap m result waited port protocol a b nil ep et ea eb =
    let cases = cases_of waited.found in
    let at : lookup (case_name port protocol) cases ≡ some (port, protocol) = ground (
      arith,
      lookup-server_cases waited.found.0 waited.found.1 [] port protocol,
      contains-Elem waited.found.0 ep,
      contains-Elem waited.found.1 et,
    ) in
    Tries-IsServing fl remote wrapping (pods_of_model waited.m') cases heap waited.tries nil
      (OnlyContainers-refl heap)
      (λ name c is_case. inl (ground (arith, lookup-all_not_ready name cases [])))
      (case_name port protocol) (port, protocol) at a b ea eb
