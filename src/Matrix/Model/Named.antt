-- ===== src/Matrix/Model/Named.antt =====
-- The names of the pods that a new namespace has in the store, and when they are all different.
use k8s_service_validator.Prelude.{
  subst, suc, ◌<◌, List, [], ◌∷◌, ◌≡◌, ◌≢◌, refl, ap, map, arith, nat_eq, eq_iff, All,
}
use k8s_service_validator.Text.{Text}
use k8s_service_validator.Entities.Container.{Container}
use k8s_service_validator.Entities.Namespace.{new_pod}
use k8s_service_validator.Entities.Pod.{Pod}
use k8s_service_validator.Matrix.Reachability.{Ref, Heap}
use k8s_service_validator.Matrix.Probe.{update}
use k8s_service_validator.Matrix.Model.{Store, allocate_pods}
use k8s_service_validator.Matrix.Model.Keeping.{UniqueNames}

abbrev pub names_at : Heap → List Ref → List Text
names_at heap refs = map (λ r. (heap r).name) refs

abbrev pub AllDiffer : List Text → Type 0
AllDiffer [] = Unit {0}
AllDiffer (n ∷ ns) = All (λ m. m ≢ n) ns × AllDiffer ns

-- A place that is taken stays as it is.
untouched :
    (ps : List Pod) (s : Store) (r : Ref) → r < s.next → (allocate_pods ps s).1.heap r ≡ s.heap r
unfolding allocate_pods
untouched [] s r h = refl
untouched (p ∷ ps) s r h =
    let s1 : Store = record { heap = update s.heap s.next p; next = suc s.next } in
    ground (arith, untouched ps s1 r (omega arith), eq_iff s.next r)

-- The pods of the store have the names of the pods that were put there, in their order.
pub allocate_pods-names :
    (ps : List Pod) (s : Store)
    → names_at (allocate_pods ps s).1.heap (allocate_pods ps s).0 ≡ map (λ p. p.name) ps
unfolding allocate_pods
allocate_pods-names [] s = refl
allocate_pods-names (p ∷ ps) s =
    let s1 : Store = record { heap = update s.heap s.next p; next = suc s.next } in
    ground
      (arith, untouched ps s1 s.next (omega arith), eq_iff s.next s.next, allocate_pods-names ps s1)

-- New pods have the names that they are made with.
pub names_of_new :
    (namespace : Text) (containers : List Container) (names : List Text)
    → map (λ p. p.name) (map (λ name. new_pod namespace name containers) names) ≡ names
unfolding new_pod
names_of_new namespace containers [] = refl
names_of_new namespace containers (n ∷ names) =
    ap (λ l. n ∷ l) (names_of_new namespace containers names)

-- What holds of all pods that were put there holds at their places.
pub allocate_pods-All :
    (P : Pod → Type 0) (ps : List Pod) (s : Store)
    → All P ps
    → All (λ r. P ((allocate_pods ps s).1.heap r)) (allocate_pods ps s).0
unfolding allocate_pods
allocate_pods-All P [] s h = tt
allocate_pods-All P (p ∷ ps) s (hp, h) =
    let s1 : Store = record { heap = update s.heap s.next p; next = suc s.next } in
    let there : p ≡ (allocate_pods ps s1).1.heap s.next =
      ground (arith, untouched ps s1 s.next (omega arith), eq_iff s.next s.next) in
    (subst P there hp, allocate_pods-All P ps s1 h)

-- Heaps with the same names name the places in the same way.
pub names_at_same :
    (heap heap' : Heap) (refs : List Ref)
    → ((r : Ref) → (heap' r).name ≡ (heap r).name)
    → names_at heap' refs ≡ names_at heap refs
names_at_same heap heap' [] h = refl
names_at_same heap heap' (r ∷ refs) h = ground (arith, h r, names_at_same heap heap' refs h)

others_by_names :
    (heap : Heap) (name : Text) (refs : List Ref)
    → All (λ m. m ≢ name) (names_at heap refs)
    → All (λ p. (heap p).name ≢ name) refs
others_by_names heap name [] h = tt
others_by_names heap name (r ∷ refs) (hr, h) = (hr, others_by_names heap name refs h)

pub AllDiffer-UniqueNames :
    (heap : Heap) (refs : List Ref) → AllDiffer (names_at heap refs) → UniqueNames heap refs
AllDiffer-UniqueNames heap [] h = tt
AllDiffer-UniqueNames heap (r ∷ refs) (others, h) =
    (others_by_names heap (heap r).name refs others, AllDiffer-UniqueNames heap refs h)
