-- ===== src/Matrix/Manager/Pending.antt =====
-- `RemovePendingPodsInNamespace`: which entries of `PendingPods` it leaves, and what it deletes.
use k8s_service_validator.Prelude.{
  ℕ, Bool, true, false, ◌&&◌, ◌||◌, [], ◌∷◌, ◌≡◌, ap, Option, none, some, arith, ltb, ◌==◌, eq_iff,
  inl, inr, Bool-cases, Option-cases, if◌then◌else◌, subst, nat_eq,
}
use k8s_service_validator.Prelude.Elem.{Elem, here, there, Elem-cons}
use k8s_service_validator.GoMap.{GoMap, IsRange, lookup, delete, lookup-delete}
use k8s_service_validator.Outcome.{ok, Outcome-cases}
use k8s_service_validator.Text.{Text, text_eq}
use k8s_service_validator.Kubernetes.PodWait.{poll_times_to_determine_pending_pod}
use k8s_service_validator.Matrix.Model.{Model}
use k8s_service_validator.Matrix.Model.Remove.{Removal, remove_pod}
use k8s_service_validator.Matrix.Manager.{
  Cluster, State, delete_pod, remove_pending, remove_pending_pods_in_namespace,
}

-- A pod that was seen pending more often than the bound.
abbrev pub is_stuck : ℕ → Bool
is_stuck polls = ltb poll_times_to_determine_pending_pod polls

abbrev pub stuck_in : Text → GoMap Text ℕ → Bool
stuck_in name [] = false
stuck_in name ((k, polls) ∷ entries) = (k == name && is_stuck polls) || stuck_in name entries

-- The entry that is left of an entry.
abbrev unless_stuck : Option ℕ → Option ℕ
unless_stuck none = none
unless_stuck (some polls) = if is_stuck polls then none else some polls

-- The API server deleted a pod of this namespace and name without an error.
pub record Deleted (cluster : Cluster) (namespace_name name : Text) : Type 0 where
  pub world : cluster.World
  pub accepted : (cluster.delete_pod namespace_name name world).0 ≡ none

module _ (cluster : Cluster) (namespace_name : Text) where
  pub removal_inversion :
      (name : Text) (polls : ℕ) (rest : GoMap Text ℕ) (m m' : Model) (s s' : State cluster)
      → is_stuck polls ≡ true
      → remove_pending cluster namespace_name ((name, polls) ∷ rest) m s ≡ ok (none, m', s')
      → (taken : Removal × Model) × (w : cluster.World) × (remove_pod s.heap name namespace_name m
          ≡ ok taken)
        × Deleted cluster namespace_name name
        × (remove_pending cluster namespace_name rest taken.1
              (record s { pending = delete name s.pending; world = w })
            ≡ ok (none, m', s'))
  unfolding remove_pending delete_pod
  removal_inversion name polls rest m m' s s' stuck e =
      elim (Outcome-cases (remove_pod s.heap name namespace_name m)) [
        | inr (p, fails) ↦ absurd (ground (arith, fails))
        | inl (taken, returns) ↦
            elim (Option-cases (cluster.delete_pod namespace_name name s.world).0) [
              | inr (err, failed) ↦ absurd (ground (arith, returns, failed))
              | inl fine ↦ (
                taken,
                (cluster.delete_pod namespace_name name s.world).1,
                returns,
                record { world = s.world; accepted = fine },
                ground (arith, returns, fine),
              )
            ]
      ]

  pub skip_inversion :
      (name : Text) (polls : ℕ) (rest : GoMap Text ℕ) (m m' : Model) (s s' : State cluster)
      → is_stuck polls ≡ false
      → remove_pending cluster namespace_name ((name, polls) ∷ rest) m s ≡ ok (none, m', s')
      → remove_pending cluster namespace_name rest m s ≡ ok (none, m', s')
  unfolding remove_pending
  skip_inversion name polls rest m m' s s' few e = ground arith

  remove_pending-lookup :
      (name : Text) (entries : GoMap Text ℕ) (m m' : Model) (s s' : State cluster)
      → remove_pending cluster namespace_name entries m s ≡ ok (none, m', s')
      → lookup name s'.pending ≡ (if stuck_in name entries then none else lookup name s.pending)
  remove_pending-lookup name [] m m' s s' e = unfold remove_pending in ground arith
  remove_pending-lookup name ((k, polls) ∷ rest) m m' s s' e = elim (Bool-cases (is_stuck polls)) [
    | inl stuck ↦
        let (taken, w, _, _, later) = removal_inversion k polls rest m m' s s' stuck e in
        let s1 : State cluster = record s { pending = delete k s.pending; world = w } in
        ground (
          arith,
          remove_pending-lookup name rest taken.1 m' s1 s' later,
          lookup-delete name k s.pending,
        )
    | inr few ↦ ground (
      arith,
      remove_pending-lookup name rest m m' s s' (skip_inversion k polls rest m m' s s' few e),
    )
  ]

  remove_pending-Deleted :
      (name : Text) (entries : GoMap Text ℕ) (m m' : Model) (s s' : State cluster)
      → remove_pending cluster namespace_name entries m s ≡ ok (none, m', s')
      → stuck_in name entries ≡ true
      → Deleted cluster namespace_name name
  remove_pending-Deleted name [] m m' s s' e h = absurd (cc)
  remove_pending-Deleted name ((k, polls) ∷ rest) m m' s s' e h =
      elim (Bool-cases (is_stuck polls)) [
        | inr few ↦
            remove_pending-Deleted name rest m m' s s' (skip_inversion k polls rest m m' s s' few e)
              (ground arith)
        | inl stuck ↦
            let (taken, w, _, deleted, later) = removal_inversion k polls rest m m' s s' stuck e in
            elim (Bool-cases (k == name)) [
              | inl this ↦ subst (Deleted cluster namespace_name) ((eq_iff k name).0 this) deleted
              | inr other ↦
                  remove_pending-Deleted name rest taken.1 m'
                    (record s { pending = delete k s.pending; world = w }) s' later (ground arith)
            ]
      ]

stuck-Elem :
    (name : Text) (order : GoMap Text ℕ)
    → stuck_in name order ≡ true
    → (polls : ℕ) × Elem (name, polls) order × (is_stuck polls ≡ true)
stuck-Elem name [] h = absurd (cc)
stuck-Elem name ((k, polls) ∷ order) h = elim (Bool-cases (k == name && is_stuck polls)) [
  | inl this ↦
      let same : k ≡ name = ground (arith, eq_iff k name) in
      (polls, here (ap (λ n. (n, polls)) same), ground arith)
  | inr other ↦
      let (polls', at, stuck) = stuck-Elem name order (ground arith) in (polls', there at, stuck)
]

Elem-stuck :
    (name : Text) (polls : ℕ) (order : GoMap Text ℕ)
    → Elem (name, polls) order
    → is_stuck polls ≡ true
    → stuck_in name order ≡ true
Elem-stuck name polls [] at h = elim at [ ]
Elem-stuck name polls ((k, n) ∷ order) at h = elim (Elem-cons at) [
  | inl this ↦
      let same_name : k ≡ name = ap (λ e. e.0) this in
      let same_polls : n ≡ polls = ap (λ e. e.1) this in
      ground (arith, same_name, same_polls, eq_iff k name)
  | inr later ↦ ground (arith, Elem-stuck name polls order later h)
]

abbrev stuck_entry : Option ℕ → Bool
stuck_entry none = false
stuck_entry (some polls) = is_stuck polls

-- In whatever order the entries are visited, what counts is the entry of the name.
pub stuck_by_lookup :
    (name : Text) (order pending : GoMap Text ℕ)
    → IsRange order pending
    → stuck_in name order ≡ stuck_entry (lookup name pending)
stuck_by_lookup name order pending range = elim (Bool-cases (stuck_in name order)) [
  | inl stuck ↦
      let (polls, at, above) = stuck-Elem name order stuck in
      let found = range.sound name polls at in ground (arith, found)
  | inr fine ↦ elim (Option-cases (lookup name pending)) [
    | inl absent ↦ ground (arith, absent)
    | inr (polls, present) ↦ elim (Bool-cases (is_stuck polls)) [
      | inr few ↦ ground (arith, present, few)
      | inl above ↦
          let found = Elem-stuck name polls order (range.complete name polls present) above in
          ground (arith, found)
    ]
  ]
]

module _ (cluster : Cluster) (namespace_name : Text) (m m' : Model) (s s' : State cluster)
    (order : GoMap Text ℕ) (name : Text) (range : IsRange order s.pending)
    (returns : remove_pending_pods_in_namespace cluster order namespace_name m s
      ≡ ok (none, m', s')) where
  -- If `RemovePendingPodsInNamespace` returns no error, the entries of `PendingPods` above the bound
  -- are gone, and the others are as before.
  remove_pending_lem : lookup name s'.pending ≡ unless_stuck (lookup name s.pending)
  unfolding remove_pending_pods_in_namespace
  remove_pending_lem =
      let now = remove_pending-lookup cluster namespace_name name order m m' s s' returns in
      let stuck = stuck_by_lookup name order s.pending range in
      elim (Option-cases (lookup name s.pending)) [
        | inl absent ↦ ground (arith, now, stuck, absent)
        | inr (polls, present) ↦ ground (arith, now, stuck, present)
      ]

  -- If `RemovePendingPodsInNamespace` returns no error, then, in whatever order the entries are
  -- visited, for each entry above the bound the API server deleted a pod of that name from the given
  -- namespace, whichever namespace the pending pod was of.
  pub remove_pending_deletes :
      (polls : ℕ)
      → lookup name s.pending ≡ some polls
      → is_stuck polls ≡ true
      → Deleted cluster namespace_name name
  unfolding remove_pending_pods_in_namespace
  remove_pending_deletes polls at stuck =
      remove_pending-Deleted cluster namespace_name name order m m' s s' returns
        (ground (arith, stuck_by_lookup name order s.pending range))
