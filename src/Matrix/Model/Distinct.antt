-- ===== src/Matrix/Model/Distinct.antt =====
-- `extractPortProtocols` returns each port and each protocol once.
use k8s_service_validator.Prelude.{
  Bool, true, false, not, ◌&&◌, List, [], ◌∷◌, ◌++◌, ◌≡◌, refl, arith, Eq, contains, ◌==◌, eq_iff,
  nat_eq, Bool-cases, inl, inr, if◌then◌else◌,
}
use k8s_service_validator.Text.{text_eq}
use k8s_service_validator.Entities.Container.{Container}
use k8s_service_validator.Entities.Namespace.{Namespace}
use k8s_service_validator.Matrix.Reachability.{Ref, Heap}
use k8s_service_validator.Matrix.Model.{
  Found, int_on_slice, protocol_on_slice, extract_container, extract_containers, extract_pods,
  extract_namespaces, extract_port_protocols,
}
use k8s_service_validator.Matrix.Model.Extract.{contains-append}

-- No element stands twice.
abbrev pub Distinct : {A : Type 0} ⦃e : Eq A⦄ → List A → Type 0
Distinct [] = Unit {0}
Distinct (x ∷ xs) = (contains x xs ≡ false) × Distinct xs

Distinct-append :
    {A : Type 0} ⦃e : Eq A⦄ (xs : List A) (x : A)
    → contains x xs ≡ false
    → Distinct xs
    → Distinct (xs ++ x ∷ [])
unfolding contains
Distinct-append [] x h d = (refl, tt)
Distinct-append (y ∷ xs) x h (fresh, d) = (
  ground (arith, contains-append y x xs, eq_iff x y, eq_iff y x),
  Distinct-append xs x (ground arith) d,
)

abbrev BothDistinct : Found → Type 0
BothDistinct found = Distinct found.0 × Distinct found.1

add_new :
    {A : Type 0} ⦃e : Eq A⦄ (named : Bool) (x : A) (xs : List A)
    → Distinct xs
    → Distinct (if named && not (contains x xs) then xs ++ x ∷ [] else xs)
add_new false x xs d = d
add_new true x xs d = elim (Bool-cases (contains x xs)) [
  | inl old ↦ rw old d
  | inr new ↦ rw new (Distinct-append xs x new d)
]

container-BothDistinct :
    (c : Container) (found : Found) → BothDistinct found → BothDistinct (extract_container c found)
unfolding extract_container int_on_slice protocol_on_slice
container-BothDistinct c (ports, protocols) (dp, dt) = (
  add_new (not (c.port == 0)) c.port ports dp,
  add_new (not (c.protocol == [])) c.protocol protocols dt,
)

containers-BothDistinct :
    (cs : List Container) (found : Found)
    → BothDistinct found
    → BothDistinct (extract_containers cs found)
unfolding extract_containers
containers-BothDistinct [] found d = d
containers-BothDistinct (c ∷ cs) found d =
    containers-BothDistinct cs (extract_container c found) (container-BothDistinct c found d)

pods-BothDistinct :
    (heap : Heap) (ps : List Ref) (found : Found)
    → BothDistinct found
    → BothDistinct (extract_pods heap ps found)
unfolding extract_pods
pods-BothDistinct heap [] found d = d
pods-BothDistinct heap (p ∷ ps) found d =
    pods-BothDistinct heap ps (extract_containers (heap p).containers found)
      (containers-BothDistinct (heap p).containers found d)

namespaces-BothDistinct :
    (heap : Heap) (nss : List (Namespace Ref)) (found : Found)
    → BothDistinct found
    → BothDistinct (extract_namespaces heap nss found)
unfolding extract_namespaces
namespaces-BothDistinct heap [] found d = d
namespaces-BothDistinct heap (ns ∷ nss) found d =
    namespaces-BothDistinct heap nss (extract_pods heap ns.pods found)
      (pods-BothDistinct heap ns.pods found d)

-- The ports that `extractPortProtocols` returns are distinct, and so are the protocols.
extract_port_protocols-Distinct :
    (heap : Heap) (namespaces : List (Namespace Ref))
    → Distinct (extract_port_protocols heap namespaces).0
      × Distinct (extract_port_protocols heap namespaces).1
unfolding extract_port_protocols
extract_port_protocols-Distinct heap namespaces =
    namespaces-BothDistinct heap namespaces ([], []) (tt, tt)
