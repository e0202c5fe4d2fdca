-- ===== src/Matrix/Servers/Honest.antt =====
-- `WaitForHTTPServers` on a cluster whose servers all answer needs no second try.
use k8s_service_validator.Prelude.{
  ℕ, suc, Bool, true, false, List, [], ap, ◌≡◌, ◌≢◌, refl, sym, subst, Option, none, some, arith,
  eq_refl, inl, inr, is_empty, nat_eq,
}
use k8s_service_validator.Prelude.Elem.{Elem, Elem-cons}
use k8s_service_validator.GoMap.{GoMap, lookup, lookup-delete}
use k8s_service_validator.Text.{Text, text_eq}
use k8s_service_validator.Kubernetes.Exec.{Remote}
use k8s_service_validator.Matrix.Bandwidth.{Floats}
use k8s_service_validator.Matrix.Connect.{Wrapping}
use k8s_service_validator.Matrix.Reachability.{Ref, Heap}
use k8s_service_validator.Matrix.Probe.Filled.{
  OnlyContainers, OnlyContainers-refl, OnlyContainers-trans,
}
use k8s_service_validator.Matrix.Model.{Model}
use k8s_service_validator.Matrix.Validate.{Pods}
use k8s_service_validator.Matrix.Servers.{
  ServerCase, Visit, Visits, Try, Tries, pass, probe, ready, again, pods_of_model, cases_of, Waited,
}
use k8s_service_validator.Matrix.Servers.Cases.{server_cases-known}
use k8s_service_validator.Matrix.Servers.Probes.{
  Connects, Connects-no_wrong, Connects-earlier, Visit-OnlyContainers,
}
use k8s_service_validator.Matrix.Servers.Failed.{
  Marks, first_waiting, Marks-all_not_ready, Visits-waiting,
}

module _ (fl : Floats) (remote : Remote) (wrapping : Wrapping) (pods : Pods) (heap0 : Heap) where
  -- Whatever a probe of one of the pods by another can record, by one of the ports and one of the
  -- protocols, is a connection. The probe goes to the target's own address, and the pods are those
  -- of the heap, but that containers may have got names since.
  abbrev pub AllConnect : List ℕ → List Text → Type 0
  AllConnect ports protocols =
      (port : ℕ) (protocol : Text) (a b : Ref) (connected : Bool)
      → Elem port ports
      → Elem protocol protocols
      → Elem a pods.refs
      → Elem b pods.refs
      → Connects fl remote wrapping pods (port, protocol) heap0 a b connected
      → connected ≡ true

  -- The same for one case.
  abbrev IsHonest : ServerCase → Type 0
  IsHonest c =
      (a b : Ref) (connected : Bool)
      → Elem a pods.refs
      → Elem b pods.refs
      → Connects fl remote wrapping pods c heap0 a b connected
      → connected ≡ true

  -- After its visit a case is no longer marked.
  Visit-ready :
      {entry : Text × ServerCase} {heap heap' : Heap} {not_ready not_ready' : GoMap Text Bool}
      → IsHonest entry.1
      → OnlyContainers heap0 heap
      → Visit fl remote wrapping pods entry heap not_ready heap' not_ready'
      → lookup entry.0 not_ready' ≢ some true
  Visit-ready honest same (pass ready_before _ kept) h = ready_before (rw (sym kept) h)
  Visit-ready {entry} {heap} {heap'} {not_ready} honest same (probe _ run changed) h =
      let fine =
        Connects-no_wrong fl remote wrapping pods entry.1 heap heap' run
          λ a b connected ea eb found. honest a b connected ea eb (
            Connects-earlier fl remote wrapping pods entry.1 heap0 heap a b connected same found) in
      ground (arith, changed, fine, lookup-delete entry.0 entry.0 not_ready, eq_refl entry.0)

  Visits-ready :
      {c : ServerCase} {order : List (Text × ServerCase)} {heap heap' : Heap}
      {not_ready not_ready' : GoMap Text Bool} (name : Text)
      → IsHonest c
      → OnlyContainers heap0 heap
      → Elem (name, c) order
      → Visits fl remote wrapping pods order heap not_ready heap' not_ready'
      → lookup name not_ready' ≢ some true
  Visits-ready name honest same at Visits.done h = elim at [ ]
  Visits-ready name honest same at
        (Visits.next {entry = entry} {heap = h0} {heap1 = h1} {not_ready1 = nr1} visit visits) h =
      elim (Elem-cons at) [
        | inl this ↦ Visit-ready (subst IsHonest (ap (λ e. e.1) (sym this)) honest) same visit (
            subst (λ k. lookup k nr1 ≡ some true) (ap (λ e. e.0) (sym this))
              (Visits-waiting fl remote wrapping pods name visits h))
        | inr later ↦
            Visits-ready name honest
              (OnlyContainers-trans heap0 h0 h1 same
                (Visit-OnlyContainers fl remote wrapping pods visit))
              later visits h
      ]

  Try-ready :
      (cases : GoMap Text ServerCase) {heap heap' : Heap} {not_ready not_ready' : GoMap Text Bool}
      → ((name : Text) (c : ServerCase) → lookup name cases ≡ some c → IsHonest c)
      → OnlyContainers heap0 heap
      → Marks cases not_ready
      → Try fl remote wrapping pods cases heap not_ready heap' not_ready'
      → is_empty not_ready' ≢ false
  Try-ready cases {not_ready' = not_ready'} honest same marks t more =
      let (name, c, waiting, is_case) =
        first_waiting fl remote wrapping pods cases not_ready' more
          (λ name v at. marks name v (Visits-waiting fl remote wrapping pods name t.visits at)) in
      Visits-ready name (honest name c is_case) same (t.is_range.complete name c is_case) t.visits
        waiting

  first_try :
      (cases : GoMap Text ServerCase) {left : ℕ} {not_ready : GoMap Text Bool} {result : Option ℕ}
      → ((name : Text) (c : ServerCase) → lookup name cases ≡ some c → IsHonest c)
      → Marks cases not_ready
      → Tries fl remote wrapping pods cases (suc left) heap0 not_ready result
      → result ≡ none
  first_try cases honest marks (ready t empty) = refl
  first_try cases honest marks (again t more tries) =
      absurd (Try-ready cases honest (OnlyContainers-refl heap0) marks t more)

-- If every probe that one pod of the model can make of another, at its own address and by one of
-- the model's ports and protocols, finds a connection, `WaitForHTTPServers` returns nil. The pods are
-- as they are at the call, but that a container without a name may have got one.
pub servers_honest :
    (fl : Floats) (remote : Remote) (wrapping : Wrapping) (heap : Heap) (m : Model)
    (result : Option ℕ) (waited : Waited fl remote wrapping heap m result)
    → AllConnect fl remote wrapping (pods_of_model waited.m') heap waited.found.0 waited.found.1
    → result ≡ none
unfolding lookup
servers_honest fl remote wrapping heap m result waited honest =
    first_try fl remote wrapping (pods_of_model waited.m') heap (cases_of waited.found)
      (λ name c is_case. elim (server_cases-known waited.found.0 waited.found.1 [] name c is_case) [
        | inl (at, at') ↦ λ a b connected. honest c.0 c.1 a b connected at at'
        | inr before ↦ absurd (cc)
      ])
      (Marks-all_not_ready (cases_of waited.found)) waited.tries
