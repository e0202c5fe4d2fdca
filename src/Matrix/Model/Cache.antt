-- ===== src/Matrix/Model/Cache.antt =====
-- The cache of pods holds the pods of the namespaces, and what breaks it.
use k8s_service_validator.Prelude.{
  ℕ, Bool, true, false, ◌&&◌, ◌||◌, List, [], ◌∷◌, ◌++◌, ◌≡◌, inl, inr, refl, some, arith, contains,
  ◌==◌, nat_eq, Option-cases, Eq, ap, ◌∙◌, sym, subst, append-nil, append_assoc,
}
use k8s_service_validator.Outcome.{ok}
use k8s_service_validator.Text.{Text, text_eq}
use k8s_service_validator.Entities.Namespace.{
  Namespace, new_namespace_with_pods, new_namespace_with_pods_given_image_and_command,
}
use k8s_service_validator.Matrix.Reachability.{Ref}
use k8s_service_validator.Matrix.Model.{
  Model, Store, pods_of, all_pods, add_to_namespaces, add_pod, add_namespace, allocate,
  allocate_pods, add_namespace_with_image_and_commands,
}
use k8s_service_validator.Matrix.Model.Named.{names_at, names_of_new, allocate_pods-names}

-- A cache that is there holds the pods of the namespaces and no other.
abbrev pub Coherent : Model → Type 0
Coherent m =
    (cache : List Ref) (p : Ref)
    → m.pods ≡ some cache
    → contains p cache ≡ contains p (pods_of m.namespaces)

-- `AllPods` returns the pods of the namespaces, and leaves the model with a cache of them.
pub all_pods_lem :
    (m : Model) (p : Ref)
    → Coherent m
    → (contains p (all_pods m).0 ≡ contains p (pods_of m.namespaces))
      × ((all_pods m).1.pods ≡ some (all_pods m).0)
      × ((all_pods m).1.namespaces ≡ m.namespaces)
unfolding all_pods
all_pods_lem m p h = elim (Option-cases m.pods) [
  | inl e ↦ rw e (refl, refl, refl)
  | inr (cache, e) ↦ rw e (h cache p e, refl, refl)
]

-- A second call of `AllPods` returns what the first one did and changes nothing.
all_pods-all_pods : (m : Model) → all_pods (all_pods m).1 ≡ all_pods m
unfolding all_pods
all_pods-all_pods m = ground arith

pub contains-append {ℓ} :
    {A : Type ℓ} ⦃e : Eq A⦄ (a : A) (xs ys : List A)
    → contains a (xs ++ ys) ≡ (contains a xs || contains a ys)
unfolding contains
contains-append a [] ys = refl
contains-append a (x ∷ xs) ys = ground (arith, contains-append a xs ys)

-- A namespace of this name is in the list.
abbrev has_namespace : Text → List (Namespace Ref) → Bool
has_namespace name [] = false
has_namespace name (ns ∷ nss) = ns.name == name || has_namespace name nss

contains-add_to_namespaces :
    (p q : Ref) (name : Text) (nss : List (Namespace Ref))
    → contains q (pods_of (add_to_namespaces p name nss))
      ≡ (contains q (pods_of nss) || (has_namespace name nss && p == q))
unfolding pods_of add_to_namespaces contains
contains-add_to_namespaces p q name [] = refl
contains-add_to_namespaces p q name (ns ∷ nss) = ground (
  arith,
  contains-append q ns.pods (pods_of nss),
  contains-append q ns.pods (pods_of (add_to_namespaces p name nss)),
  contains-append q (ns.pods ++ p ∷ []) (pods_of (add_to_namespaces p name nss)),
  contains-append q ns.pods (p ∷ []),
  contains-add_to_namespaces p q name nss,
)

-- `AddPod` to a namespace that the model has keeps the cache coherent: both have the new pod then.
pub add_pod-Coherent :
    (p : Ref) (name : Text) (m m' : Model)
    → Coherent m
    → has_namespace name m.namespaces ≡ true
    → add_pod p name m ≡ ok m'
    → Coherent m'
unfolding add_pod contains
add_pod-Coherent p name m m' h known e cache q at = elim (Option-cases m.pods) [
  | inl absent ↦ ground arith
  | inr (before, present) ↦ ground (
    arith,
    h before q present,
    contains-append q before (p ∷ []),
    contains-add_to_namespaces p q name m.namespaces,
  )
]

-- `AddPod` with a name that no namespace of the model has puts the pod into the cache alone: the
-- cache of a model that was coherent then has a pod that no namespace has, if it is a new one.
pub add_pod_unknown :
    (p : Ref) (name : Text) (m m' : Model)
    → has_namespace name m.namespaces ≡ false
    → contains p (pods_of m.namespaces) ≡ false
    → add_pod p name m ≡ ok m'
    → (contains p (all_pods m').0 ≡ true) × (contains p (pods_of m'.namespaces) ≡ false)
unfolding add_pod all_pods contains
add_pod_unknown p name m m' unknown fresh e = elim (Option-cases m.pods) [
  | inl absent ↦ ground arith
  | inr (before, present) ↦
      ground
        (arith, contains-append p before (p ∷ []), contains-add_to_namespaces p p name m.namespaces)
]

contains-pods_of :
    (p : Ref) (nss : List (Namespace Ref)) (ns : Namespace Ref)
    → contains p (pods_of (nss ++ ns ∷ [])) ≡ (contains p (pods_of nss) || contains p ns.pods)
unfolding pods_of contains
contains-pods_of p [] ns = ground (arith, contains-append p ns.pods [])
contains-pods_of p (n ∷ nss) ns = ground (
  arith,
  contains-append p n.pods (pods_of (nss ++ ns ∷ [])),
  contains-append p n.pods (pods_of nss),
  contains-pods_of p nss ns,
)

-- `AddNamespace` empties the cache, so that `AllPods` returns the pods of all the namespaces, the
-- new one's behind the others.
add_namespace-all_pods :
    (name : Text) (pod_names : List Text) (ports : List ℕ) (protocols : List Text) (m : Model)
    (s : Store) (p : Ref)
    → contains p (all_pods (add_namespace name pod_names ports protocols m s).0).0 ≡ (
        contains p (pods_of m.namespaces)
        || contains p (allocate (new_namespace_with_pods name pod_names ports protocols) s).0.pods)
unfolding add_namespace all_pods
add_namespace-all_pods name pod_names ports protocols m s p =
    contains-pods_of p m.namespaces
      (allocate (new_namespace_with_pods name pod_names ports protocols) s).0

pods_of-last :
    (nss : List (Namespace Ref)) (ns : Namespace Ref)
    → pods_of (nss ++ ns ∷ []) ≡ pods_of nss ++ ns.pods
unfolding pods_of
pods_of-last [] ns = append-nil ns.pods
pods_of-last (n ∷ nss) ns =
    ap (λ l. n.pods ++ l) (pods_of-last nss ns) ∙ sym (append_assoc n.pods (pods_of nss) ns.pods)

-- `AddNamespaceWithImageAndCommands` puts pods of the given names behind those of the namespaces of
-- the model, but leaves a cache that is filled as it is, and this cache is what `AllPods` returns.
pub add_namespace_with_image_stale :
    (name : Text) (pod_names : List Text) (ports : List ℕ) (protocols : List Text) (image : Text)
    (commands : List Text) (m m' : Model) (s s' : Store) (cache : List Ref)
    → m.pods ≡ some cache
    → add_namespace_with_image_and_commands name pod_names ports protocols image commands m s
      ≡ (m', s')
    → ((all_pods m').0 ≡ cache)
      × ((refs : List Ref) × (pods_of m'.namespaces ≡ pods_of m.namespaces ++ refs)
          × (names_at s'.heap refs ≡ pod_names))
unfolding add_namespace_with_image_and_commands all_pods allocate
    new_namespace_with_pods_given_image_and_command
add_namespace_with_image_stale name pod_names ports protocols image commands m m' s s' cache filled
      added =
    let ns =
      new_namespace_with_pods_given_image_and_command name pod_names ports protocols image
        commands in
    let refs = (allocate_pods ns.pods s).0 in
    let model : record m { namespaces = m.namespaces ++ record { name = name; pods = refs } ∷ [] }
        ≡ m' =
      ap (λ a. a.0) added in
    let store : (allocate_pods ns.pods s).1 ≡ s' = ap (λ a. a.1) added in
    (
      ground (arith, model),
      (
        refs,
        ap (λ (n : Model). pods_of n.namespaces) (sym model)
            ∙ pods_of-last m.namespaces (record { name = name; pods = refs }),
        subst (λ (t : Store). names_at t.heap refs ≡ pod_names) store
            (allocate_pods-names ns.pods s ∙ names_of_new name _ pod_names),
      ),
    )
