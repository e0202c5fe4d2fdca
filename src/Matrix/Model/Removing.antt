-- ===== src/Matrix/Model/Removing.antt =====
-- The whole of `RemovePod`, on a namespace and a cache that each have one pod of the name.
use k8s_service_validator.Prelude.{
  List, [], ◌∷◌, ◌++◌, ◌≡◌, ◌≢◌, refl, none, some, arith, eq_iff, All,
}
use k8s_service_validator.Outcome.{ok, panic, nil_dereference}
use k8s_service_validator.Text.{Text, text_eq}
use k8s_service_validator.Entities.Namespace.{Namespace}
use k8s_service_validator.Matrix.Reachability.{Ref, Heap}
use k8s_service_validator.Matrix.Model.{Model}
use k8s_service_validator.Matrix.Model.Remove.{
  find_last, remove_pod, removed, failed, remove_from_namespace, remove_from_cache,
}
use k8s_service_validator.Matrix.Model.Removed.{
  OtherNames, remove_from_namespace-one, remove_from_cache-first,
}

abbrev pub Unnamed : Text → List (Namespace Ref) → Type 0
Unnamed name = All (λ ns. ns.name ≢ name)

find_last-none :
    (name : Text) (nss : List (Namespace Ref)) → Unnamed name nss → find_last name nss ≡ none
unfolding find_last
find_last-none name [] h = refl
find_last-none name (ns ∷ nss) (hn, h) =
    ground (arith, eq_iff ns.name name, find_last-none name nss h)

pub find_last-some :
    (name : Text) (before after : List (Namespace Ref)) (ns : Namespace Ref)
    → ns.name ≡ name
    → Unnamed name after
    → find_last name (before ++ (ns ∷ after)) ≡ some (before, ns, after)
unfolding find_last
find_last-some name [] after ns named h =
    ground (arith, eq_iff ns.name name, find_last-none name after h)
find_last-some name (b ∷ before) after ns named h =
    rw (find_last-some name before after ns named h) refl

remove_pod_found :
    (heap : Heap) (name namespace_name : Text) (m : Model) {before after : List (Namespace Ref)}
    {ns : Namespace Ref} {pods cache cache' : List Ref}
    → find_last namespace_name m.namespaces ≡ some (before, ns, after)
    → remove_from_namespace heap name ns.pods ≡ ok pods
    → m.pods ≡ some cache
    → remove_from_cache heap name cache ≡ some cache'
    → remove_pod heap name namespace_name m
      ≡ ok (
        removed,
        record m { namespaces = before ++ (record ns { pods = pods }) ∷ after; pods = some cache' },
      )
unfolding remove_pod
remove_pod_found heap name namespace_name m found kept cached found_in_cache =
    ground (arith, found, kept, cached, found_in_cache)

module _ (heap : Heap) (name namespace_name : Text) (m : Model)
    (before after : List (Namespace Ref)) (ns : Namespace Ref) (xs ys cs ds : List Ref)
    (p q : Ref) where
  -- If the last namespace of its name has the one pod p called so, and q is the first pod called so
  -- in the cache, `RemovePod` takes p out of the namespace and q out of the cache, and leaves
  -- everything else in its order. That q is p is not asked, and not seen to.
  pub remove_pod_lem :
      m.namespaces ≡ before ++ (ns ∷ after)
      → ns.name ≡ namespace_name
      → Unnamed namespace_name after
      → ns.pods ≡ xs ++ (p ∷ ys)
      → (heap p).name ≡ name
      → OtherNames heap name xs
      → OtherNames heap name ys
      → m.pods ≡ some (cs ++ (q ∷ ds))
      → (heap q).name ≡ name
      → OtherNames heap name cs
      → remove_pod heap name namespace_name m
        ≡ ok (
          removed,
          record m {
            namespaces = before ++ (record ns { pods = xs ++ ys }) ∷ after;
            pods = some (cs ++ ds);
          },
        )
  remove_pod_lem at named last pods p_named hx hy cache q_named hc =
      let found : find_last namespace_name m.namespaces ≡ some (before, ns, after) =
        rw at (find_last-some namespace_name before after ns named last) in
      let kept : remove_from_namespace heap name ns.pods ≡ ok (xs ++ ys) =
        rw pods (remove_from_namespace-one heap name xs ys p p_named hx hy) in
      let cached = remove_from_cache-first heap name cs ds q q_named hc in
      remove_pod_found heap name namespace_name m found kept cache cached

module _ (heap : Heap) (name namespace_name : Text) (m : Model) where
  -- If no namespace has the name, `RemovePod` fails and changes nothing.
  remove_pod_unknown :
      Unnamed namespace_name m.namespaces → remove_pod heap name namespace_name m ≡ ok (failed, m)
  unfolding remove_pod
  remove_pod_unknown h = ground (arith, find_last-none namespace_name m.namespaces h)

  -- If the cache of pods is not filled, `RemovePod` on a namespace that is there panics, by the
  -- nil cache if the loop over the namespace returns.
  remove_pod_no_cache :
      (before after : List (Namespace Ref)) (ns : Namespace Ref) (pods : List Ref)
      → m.namespaces ≡ before ++ (ns ∷ after)
      → ns.name ≡ namespace_name
      → Unnamed namespace_name after
      → remove_from_namespace heap name ns.pods ≡ ok pods
      → m.pods ≡ none
      → remove_pod heap name namespace_name m ≡ panic nil_dereference
  unfolding remove_pod
  remove_pod_no_cache before after ns pods at named last returns no_cache =
      let found : find_last namespace_name m.namespaces ≡ some (before, ns, after) =
        rw at (find_last-some namespace_name before after ns named last) in
      ground (arith, found)
