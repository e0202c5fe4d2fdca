-- ===== src/Matrix/Model/Twice.antt =====
-- `RemovePod` on a namespace with two pods of the name: the loop goes on over the slice as it was,
-- and deletes within the one that has become shorter.
use k8s_service_validator.Prelude.{
  suc, ◌+◌, ◌-◌, List, [], ◌∷◌, ◌++◌, ◌≡◌, refl, sym, some, arith, eq_iff, append_assoc, length,
  length-append, get_elem?, get_elem?-append, drop-append, nat_eq,
}
use k8s_service_validator.Outcome.{panic, slice_out_of_range}
use k8s_service_validator.Text.{Text, text_eq}
use k8s_service_validator.Entities.Namespace.{Namespace}
use k8s_service_validator.Matrix.Reachability.{Ref, Heap}
use k8s_service_validator.Matrix.Model.{Model}
use k8s_service_validator.Matrix.Model.Remove.{
  find_last, remove_at, remove_each, remove_from_namespace, remove_pod,
}
use k8s_service_validator.Matrix.Model.Removed.{
  OtherNames, slice, stale, skip_others, remove_at_pod,
}
use k8s_service_validator.Matrix.Model.Removing.{Unnamed, find_last-some}

module _ (heap : Heap) (name : Text) (xs : List Ref) (p q : Ref) where
  abbrev pods : List Ref
  pods = xs ++ (p ∷ q ∷ [])

  -- The second deletion is one place beyond the shortened slice.
  second_round :
      (heap q).name ≡ name
      → remove_each heap name 1
          (suc (length xs))
          (slice (xs ++ (q ∷ stale heap name pods (length pods))) (length pods - 1))
        ≡ panic slice_out_of_range
  unfolding remove_each remove_at
  second_round named =
      let measured : length pods - 1 ≡ suc (length xs) =
        omega (arith, length-append xs (p ∷ q ∷ [])) in
      let one : suc (length xs) ≡ length xs + 1 = omega arith in
      let last : stale heap name pods (length pods) ≡ q ∷ [] =
        rw measured (rw one (drop-append xs (p ∷ q ∷ []) 1)) in
      let place : suc (length xs) ≡ length (xs ++ q ∷ []) =
        omega (arith, length-append xs (q ∷ [])) in
      let split_up : xs ++ (q ∷ q ∷ []) ≡ (xs ++ q ∷ []) ++ (q ∷ []) =
        sym (append_assoc xs (q ∷ []) (q ∷ [])) in
      let at : get_elem? (xs ++ (q ∷ q ∷ [])) (suc (length xs)) ≡ some q =
        rw split_up (rw place (get_elem?-append (xs ++ q ∷ []) (q ∷ []))) in
      ground (arith, measured, last, at, eq_iff (heap q).name name)

  namespace_twice :
      OtherNames heap name xs
      → (heap p).name ≡ name
      → (heap q).name ≡ name
      → remove_from_namespace heap name pods ≡ panic slice_out_of_range
  unfolding remove_from_namespace remove_each
  namespace_twice others p_named q_named =
      let skipped =
        skip_others heap name xs 0 2 (length pods) pods [] (p ∷ q ∷ []) refl refl others in
      let at : get_elem? pods (length xs) ≡ some p = get_elem?-append xs (p ∷ q ∷ []) in
      let zero_place : 0 + length xs ≡ length xs = omega arith in
      ground (
        arith,
        skipped,
        at,
        zero_place,
        length-append xs (p ∷ q ∷ []),
        eq_iff (heap p).name name,
        remove_at_pod heap name xs (q ∷ []) p,
        second_round q_named,
      )

  -- If the last two pods of a namespace both have the name, the pods before them have other names,
  -- and no later namespace has the namespace's name, `RemovePod` panics.
  pub remove_pod_twice :
      (m : Model) (before after : List (Namespace Ref)) (ns : Namespace Ref)
      → m.namespaces ≡ before ++ (ns ∷ after)
      → Unnamed ns.name after
      → ns.pods ≡ xs ++ (p ∷ q ∷ [])
      → OtherNames heap name xs
      → (heap p).name ≡ name
      → (heap q).name ≡ name
      → remove_pod heap name ns.name m ≡ panic slice_out_of_range
  unfolding remove_pod
  remove_pod_twice m before after ns at last holds others p_named q_named =
      let found : find_last ns.name m.namespaces ≡ some (before, ns, after) =
        rw at (find_last-some ns.name before after ns refl last) in
      let panics : remove_from_namespace heap name ns.pods ≡ panic slice_out_of_range =
        rw holds (namespace_twice others p_named q_named) in
      ground (arith, found, panics)
