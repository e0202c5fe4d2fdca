-- ===== src/Matrix/Model/Remove.antt =====
-- pkg/matrix/model.go, `RemovePod`. A slice is its backing array and its length:
-- `append(s[:i], s[i+1:]...)` moves the tail down within the array, which the loop goes on reading
-- at the length that the slice had at first.
use k8s_service_validator.Prelude.{
  ℕ, zero, suc, ◌-◌, List, [], ◌∷◌, ◌++◌, Option, none, some, take, drop, length, get_elem?, ltb,
  if◌then◌else◌, ◌==◌,
}
use k8s_service_validator.Outcome.{
  Outcome, ok, panic, nil_dereference, index_out_of_range, slice_out_of_range, ◌>>=◌,
}
use k8s_service_validator.Text.{Text, text_eq}
use k8s_service_validator.Entities.Namespace.{Namespace}
use k8s_service_validator.Matrix.Reachability.{Ref, Heap}
use k8s_service_validator.Matrix.Model.{Model}

pub record Slice : Type 0 where
  pub array : List Ref
  pub len : ℕ

unfoldable pub elements : Slice → List Ref
elements s = take s.len s.array

-- `append(s[:i], s[i+1:]...)` for an `i` within the array; `s[i+1:]` panics if `i+1` is beyond the
-- length.
unfoldable pub remove_at : ℕ → Slice → Outcome Slice
remove_at i s =
    if ltb s.len (suc i)
    then panic slice_out_of_range
    else ok (record {
      array = take i s.array ++ (drop (suc i) (take s.len s.array) ++ drop (s.len - 1) s.array);
      len = s.len - 1;
    })

module _ (heap : Heap) (name : Text) where
  -- The loop over the namespace's pods: `n` more rounds, from the index `i`.
  unfoldable pub remove_each : ℕ → ℕ → Slice → Outcome Slice
  unfolding remove_at
  remove_each zero i s = ok s
  remove_each (suc n) i s = elim (get_elem? s.array i) [
    | none ↦ panic index_out_of_range
    | some p ↦
        if (heap p).name == name
        then remove_at i s >>= (λ s'. remove_each n (suc i) s')
        else remove_each n (suc i) s
  ]

  unfoldable pub remove_from_namespace : List Ref → Outcome (List Ref)
  unfolding remove_each elements
  remove_from_namespace pods = do
    s ← remove_each (length pods) 0 (record { array = pods; len = length pods })
    ok (elements s)

  -- The loop over the cache of pods stops at the first pod of that name, whatever its namespace.
  unfoldable pub remove_from_cache : List Ref → Option (List Ref)
  remove_from_cache [] = none
  remove_from_cache (p ∷ ps) =
      if (heap p).name == name
      then some ps
      else elim (remove_from_cache ps) [ none ↦ none | some ps' ↦ some (p ∷ ps') ]

-- The last namespace of that name, with the namespaces before and after it.
unfoldable pub find_last :
    Text
    → List (Namespace Ref)
    → Option (List (Namespace Ref) × Namespace Ref × List (Namespace Ref))
find_last name [] = none
find_last name (ns ∷ nss) = elim (find_last name nss) [
  | some (before, found, after) ↦ some (ns ∷ before, found, after)
  | none ↦ if ns.name == name then some ([], ns, nss) else none
]

pub data Removal : Type 0 where
  removed failed : Removal

-- On failure, of a name that no pod of the cache has, the namespace may have changed all the same.
unfoldable pub remove_pod : Heap → Text → Text → Model → Outcome (Removal × Model)
unfolding remove_from_namespace remove_from_cache find_last
remove_pod heap pod_name namespace_name m = elim (find_last namespace_name m.namespaces) [
  | none ↦ ok (failed, m)
  | some (before, ns, after) ↦ do
    pods ← remove_from_namespace heap pod_name ns.pods
    let m' = record m { namespaces = before ++ (record ns { pods = pods }) ∷ after }
    elim m.pods [
      | none ↦ panic nil_dereference
      | some cache ↦ elim (remove_from_cache heap pod_name cache) [
        | none ↦ ok (failed, m')
        | some cache' ↦ ok (removed, record m' { pods = some cache' })
      ]
    ]
]
