-- ===== src/Matrix/Servers/Failed.antt =====
-- When `WaitForHTTPServers` returns an error, some case had a wrong result in each of its tries.
use k8s_service_validator.Prelude.{
  ℕ, ◌⊎◌, Bool, true, false, List, [], ◌∷◌, ◌≡◌, ◌≢◌, refl, sym, ap, Option, some, arith, eq_refl,
  eq_iff, Bool-cases, Option-cases, inl, inr, is_empty, length, ◌==◌, nat_eq,
}
use k8s_service_validator.Prelude.Elem.{Elem, Elem-cons}
use k8s_service_validator.GoMap.{GoMap, lookup, lookup-delete}
use k8s_service_validator.Text.{Text, text_eq}
use k8s_service_validator.Kubernetes.Exec.{Remote}
use k8s_service_validator.Matrix.Bandwidth.{Floats}
use k8s_service_validator.Matrix.Connect.{Wrapping}
use k8s_service_validator.Matrix.Reachability.{Heap}
use k8s_service_validator.Matrix.Model.{Model}
use k8s_service_validator.Matrix.Validate.{Pods}
use k8s_service_validator.Matrix.Servers.{
  ServerCase, all_not_ready, Visit, Visits, Tries, pass, probe, ready, again, pods_of_model,
  cases_of, Waited,
}
use k8s_service_validator.Matrix.Servers.Cases.{lookup-all_not_ready}

-- Only cases are marked, and only as not ready.
abbrev pub Marks : GoMap Text ServerCase → GoMap Text Bool → Type 0
Marks cases not_ready =
    (name : Text) (v : Bool)
    → lookup name not_ready ≡ some v
    → (v ≡ true) × ((c : ServerCase) × (lookup name cases ≡ some c))

module _ (fl : Floats) (remote : Remote) (wrapping : Wrapping) (pods : Pods) where
  -- In this visit the case of the name was probed, and the round counted something wrong.
  abbrev pub WrongVisit :
      Text
      → {entry : Text × ServerCase} {heap heap' : Heap} {not_ready not_ready' : GoMap Text Bool}
      → Visit fl remote wrapping pods entry heap not_ready heap' not_ready'
      → Type 0
  WrongVisit name (pass _ _ _) = ⊥
  WrongVisit name {entry = entry} (probe _ run _) = (entry.0 ≡ name) × (run.counts.false_obs ≢ 0)

  -- So in one of the visits of a try.
  abbrev pub WrongIn :
      Text
      → {order : List (Text × ServerCase)} {heap heap' : Heap}
        {not_ready not_ready' : GoMap Text Bool}
      → Visits fl remote wrapping pods order heap not_ready heap' not_ready'
      → Type 0
  WrongIn name Visits.done = ⊥
  WrongIn name (Visits.next visit visits) = WrongVisit name visit ⊎ WrongIn name visits

  -- So in each try, up to the last one that there may be.
  abbrev pub WrongThroughout :
      Text
      → {cases : GoMap Text ServerCase} {left : ℕ} {heap : Heap} {not_ready : GoMap Text Bool}
        {result : Option ℕ}
      → Tries fl remote wrapping pods cases left heap not_ready result
      → Type 0
  WrongThroughout name Tries.exhausted = Unit {0}
  WrongThroughout name (ready t _) = ⊥
  WrongThroughout name (again t _ tries) = WrongIn name t.visits × WrongThroughout name tries

  -- What is still not ready was so before.
  Visit-waiting :
      {entry : Text × ServerCase} {heap heap' : Heap} {not_ready not_ready' : GoMap Text Bool}
      (name : Text) {v : Bool}
      → Visit fl remote wrapping pods entry heap not_ready heap' not_ready'
      → lookup name not_ready' ≡ some v
      → lookup name not_ready ≡ some v
  Visit-waiting name (pass _ _ kept) h = rw (sym kept) h
  Visit-waiting {entry = entry} {not_ready = not_ready} name (probe _ run changed) h =
      elim (Bool-cases (run.counts.false_obs == 0)) [
        | inr wrong ↦ ground (arith, changed)
        | inl fine ↦ ground (arith, changed, lookup-delete name entry.0 not_ready)
      ]

  pub Visits-waiting :
      {order : List (Text × ServerCase)} {heap heap' : Heap}
      {not_ready not_ready' : GoMap Text Bool} (name : Text) {v : Bool}
      → Visits fl remote wrapping pods order heap not_ready heap' not_ready'
      → lookup name not_ready' ≡ some v
      → lookup name not_ready ≡ some v
  Visits-waiting name Visits.done h = h
  Visits-waiting name (Visits.next visit visits) h =
      Visit-waiting name visit (Visits-waiting name visits h)

  -- A case that is not ready after its visit had a wrong result in it.
  Visit-WrongVisit :
      {entry : Text × ServerCase} {heap heap' : Heap} {not_ready not_ready' : GoMap Text Bool}
      (name : Text)
      → entry.0 ≡ name
      → (visit : Visit fl remote wrapping pods entry heap not_ready heap' not_ready')
      → lookup name not_ready' ≡ some true
      → WrongVisit name visit
  Visit-WrongVisit name this (pass ready_before _ kept) h =
      absurd (ready_before (rw this (rw (sym kept) h)))
  Visit-WrongVisit {entry = entry} {not_ready = not_ready} name this (probe _ run changed) h = (
    this,
    λ fine.
        ground (arith, fine, changed, lookup-delete name entry.0 not_ready, eq_iff entry.0 name),
  )

  Visits-WrongIn :
      {c : ServerCase} {order : List (Text × ServerCase)} {heap heap' : Heap}
      {not_ready not_ready' : GoMap Text Bool} (name : Text)
      → Elem (name, c) order
      → (visits : Visits fl remote wrapping pods order heap not_ready heap' not_ready')
      → lookup name not_ready' ≡ some true
      → WrongIn name visits
  Visits-WrongIn name at Visits.done h = elim at [ ]
  Visits-WrongIn name at (Visits.next visit visits) h = elim (Elem-cons at) [
    | inl this ↦
        inl (Visit-WrongVisit name (ap (λ e. e.0) this) visit (Visits-waiting name visits h))
    | inr later ↦ inr (Visits-WrongIn name later visits h)
  ]

  module _ (cases : GoMap Text ServerCase) where
    not_none_left :
        (not_ready : GoMap Text Bool) → is_empty not_ready ≡ false → length not_ready ≢ 0
    not_none_left [] h e = cc
    not_none_left (entry ∷ not_ready) h e = omega (arith, e)

    pub first_waiting :
        (not_ready : GoMap Text Bool)
        → is_empty not_ready ≡ false
        → Marks cases not_ready
        → (name : Text) × (c : ServerCase) × (lookup name not_ready ≡ some true)
          × (lookup name cases ≡ some c)
    first_waiting [] h marks = absurd (cc)
    first_waiting ((name, v) ∷ not_ready) h marks =
        let found : lookup name ((name, v) ∷ not_ready) ≡ some v =
          unfold lookup in rw (eq_refl name) refl in
        let (is_true, (c, is_case)) = marks name v found in
        (name, c, rw found (ap some is_true), is_case)

    -- A case that has failed in each of the tries, and that is not ready at their start.
    record Stuck {left : ℕ} {heap : Heap} {not_ready : GoMap Text Bool} {result : Option ℕ}
        (tries : Tries fl remote wrapping pods cases left heap not_ready result) : Type 0 where
      pub name : Text
      pub c : ServerCase
      pub waiting : lookup name not_ready ≡ some true
      pub is_case : lookup name cases ≡ some c
      pub wrong : WrongThroughout name tries

    Tries-Stuck :
        {left k : ℕ} {heap : Heap} {not_ready : GoMap Text Bool} {result : Option ℕ}
        (tries : Tries fl remote wrapping pods cases left heap not_ready result)
        → result ≡ some k
        → (left ≡ 0 → is_empty not_ready ≡ false)
        → Marks cases not_ready
        → Stuck tries × (k ≢ 0)
    Tries-Stuck (Tries.exhausted {not_ready = not_ready}) h more marks =
        let (name, c, waiting, is_case) = first_waiting not_ready (more refl) marks in
        (
          record { name = name; c = c; waiting = waiting; is_case = is_case; wrong = tt },
          λ e. not_none_left not_ready (more refl) (ground (arith, e)),
        )
    Tries-Stuck (ready t empty) h more marks = absurd (cc)
    Tries-Stuck (again t more' tries) h more marks =
        let (s, some_left) =
          Tries-Stuck tries h (λ e. more')
            (λ name v at. marks name v (Visits-waiting name t.visits at)) in
        (
          record {
            name = s.name;
            c = s.c;
            waiting = Visits-waiting s.name t.visits s.waiting;
            is_case = s.is_case;
            wrong = (
              Visits-WrongIn s.name (t.is_range.complete s.name s.c s.is_case) t.visits s.waiting,
              s.wrong,
            );
          },
          some_left,
        )

pub Marks-all_not_ready : (cases : GoMap Text ServerCase) → Marks cases (all_not_ready cases [])
unfolding lookup
Marks-all_not_ready cases name v at = elim (Option-cases (lookup name cases)) [
  | inl absent ↦ absurd (ground (arith, lookup-all_not_ready name cases []))
  | inr (c, present) ↦ (ground (arith, lookup-all_not_ready name cases []), (c, present))
]

-- If `WaitForHTTPServers` returns an error, the number of cases in it is not 0, and there is one
-- case of the model that was probed in each of the tries of this call, each time with a round that
-- counted something wrong.
pub servers_failed :
    (fl : Floats) (remote : Remote) (wrapping : Wrapping) (heap : Heap) (m : Model)
    (result : Option ℕ) (waited : Waited fl remote wrapping heap m result) (k : ℕ)
    → result ≡ some k
    → (k ≢ 0)
      × ((name : Text) × (c : ServerCase) × (lookup name (cases_of waited.found) ≡ some c)
          × WrongThroughout fl remote wrapping (pods_of_model waited.m') name waited.tries)
servers_failed fl remote wrapping heap m result waited k h =
    let cases = cases_of waited.found in
    let (s, some_left) =
      Tries-Stuck fl remote wrapping (pods_of_model waited.m') cases waited.tries h
        (λ e. absurd (omega (arith, e))) (Marks-all_not_ready cases) in
    (some_left, (s.name, s.c, s.is_case, s.wrong))
