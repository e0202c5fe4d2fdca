-- ===== src/Matrix/Manager/Left.antt =====
-- Which pods `RemovePendingPodsInNamespace` leaves of a namespace whose pods have names of their own.
use k8s_service_validator.Prelude.{
  ℕ, Bool, true, false, not, List, [], ◌∷◌, ◌≡◌, refl, sym, none, some, arith, eq_iff, inl, inr,
  Bool-cases, Option-cases, keep,
}
use k8s_service_validator.GoMap.{GoMap, IsRange, lookup, delete}
use k8s_service_validator.Outcome.{ok}
use k8s_service_validator.Text.{Text, text_eq}
use k8s_service_validator.Entities.Namespace.{Namespace}
use k8s_service_validator.Matrix.Reachability.{Ref, Heap}
use k8s_service_validator.Matrix.Model.{Model}
use k8s_service_validator.Matrix.Model.Keeping.{
  holding, UniqueNames, UniqueNames-keep, has_other_name, remove_pod-keep,
}
use k8s_service_validator.Matrix.Manager.{
  Cluster, State, remove_pending, remove_pending_pods_in_namespace,
}
use k8s_service_validator.Matrix.Manager.Pending.{
  is_stuck, stuck_in, stuck_by_lookup, removal_inversion, skip_inversion,
}

abbrev not_stuck : Heap → GoMap Text ℕ → Ref → Bool
not_stuck heap entries p = not (stuck_in (heap p).name entries)

-- The pod has no entry, or one that is not above the bound.
abbrev pub is_left : Heap → GoMap Text ℕ → Ref → Bool
is_left heap pending p = elim (lookup (heap p).name pending) [
  | none ↦ true
  | some polls ↦ not (is_stuck polls)
]

module _ (heap : Heap) where
  keep_stuck :
      (name : Text) (polls : ℕ) (rest : GoMap Text ℕ) (ps : List Ref)
      → is_stuck polls ≡ true
      → keep (not_stuck heap rest) (keep (has_other_name heap name) ps)
        ≡ keep (not_stuck heap ((name, polls) ∷ rest)) ps
  keep_stuck name polls rest [] h = refl
  keep_stuck name polls rest (p ∷ ps) h =
      ground (
        arith,
        keep_stuck name polls rest ps h,
        eq_iff (heap p).name name,
        eq_iff name (heap p).name,
      )

  keep_few :
      (name : Text) (polls : ℕ) (rest : GoMap Text ℕ) (ps : List Ref)
      → is_stuck polls ≡ false
      → keep (not_stuck heap rest) ps ≡ keep (not_stuck heap ((name, polls) ∷ rest)) ps
  keep_few name polls rest [] h = refl
  keep_few name polls rest (p ∷ ps) h = ground (arith, keep_few name polls rest ps h)

  keep_by_lookup :
      (order pending : GoMap Text ℕ) (ps : List Ref)
      → IsRange order pending
      → keep (not_stuck heap order) ps ≡ keep (is_left heap pending) ps
  keep_by_lookup order pending [] range = refl
  keep_by_lookup order pending (p ∷ ps) range =
      let stuck = stuck_by_lookup (heap p).name order pending range in
      elim (Option-cases (lookup (heap p).name pending)) [
        | inl absent ↦ ground (arith, stuck, absent, keep_by_lookup order pending ps range)
        | inr (polls, present) ↦
            ground (arith, stuck, present, keep_by_lookup order pending ps range)
      ]

module _ (cluster : Cluster) (m : Model) (ns : Namespace Ref) where
  remove_pending-holding :
      (entries : GoMap Text ℕ) (ps : List Ref) (m' : Model) (s s' : State cluster)
      → UniqueNames s.heap ps
      → remove_pending cluster ns.name entries (holding m ns ps) s ≡ ok (none, m', s')
      → (m' ≡ holding m ns (keep (not_stuck s.heap entries) ps)) × (s'.heap ≡ s.heap)
  remove_pending-holding [] ps m' s s' u e =
      unfold remove_pending in (ground (arith, keep_all ps), ground arith)
    where
      keep_all : (ps : List Ref) → keep (not_stuck s.heap []) ps ≡ ps
      keep_all [] = refl
      keep_all (p ∷ ps) = ground (arith, keep_all ps)
  remove_pending-holding ((name, polls) ∷ rest) ps m' s s' u e =
      elim (Bool-cases (is_stuck polls)) [
        | inr few ↦
            let (models, heaps) =
              remove_pending-holding rest ps m' s s' u
                (skip_inversion cluster ns.name name polls rest (holding m ns ps) m' s s' few e) in
            (rw (sym (keep_few s.heap name polls rest ps few)) models, heaps)
        | inl stuck ↦
            let (taken, w, returns, _, later) =
              removal_inversion cluster ns.name name polls rest (holding m ns ps) m' s s' stuck e in
            let others = keep (has_other_name s.heap name) ps in
            let (r, filtered) = remove_pod-keep s.heap name m ns ps u in
            let left : taken.1 ≡ holding m ns others = ground arith in
            let (models, heaps) =
              remove_pending-holding rest others m'
                (record s { pending = delete name s.pending; world = w }) s'
                (UniqueNames-keep s.heap (has_other_name s.heap name) ps u) (rw (sym left) later) in
            (rw (sym (keep_stuck s.heap name polls rest ps stuck)) models, heaps)
      ]

  -- If `RemovePendingPodsInNamespace` returns no error for the one namespace of a model whose cache
  -- is filled and whose pods have different names, then, in whatever order the entries are visited,
  -- exactly the pods without an entry above the bound are left, in their order, in the namespace and
  -- in the cache, and no pod is changed.
  pub remove_pending_left :
      (ps : List Ref) (m' : Model) (s s' : State cluster) (order : GoMap Text ℕ)
      → UniqueNames s.heap ps
      → IsRange order s.pending
      → remove_pending_pods_in_namespace cluster order ns.name (holding m ns ps) s
        ≡ ok (none, m', s')
      → (m' ≡ holding m ns (keep (is_left s.heap s.pending) ps)) × (s'.heap ≡ s.heap)
  unfolding remove_pending_pods_in_namespace
  remove_pending_left ps m' s s' order u range returns =
      let (models, heaps) = remove_pending-holding order ps m' s s' u returns in
      (rw (sym (keep_by_lookup s.heap order s.pending ps range)) models, heaps)
