-- ===== src/Examples/Hanging.antt =====
-- The manager with a pod that hangs and one that does not.
use k8s_service_validator.Prelude.{
  ℕ, inl, inr, subst, [], ◌∷◌, ◌≡◌, refl, none, some, arith, list_beq, nat_eq, keep,
}
use k8s_service_validator.GoMap.{GoMap, lookup, delete, IsRange, lookup-Elem}
use k8s_service_validator.Prelude.Elem.{Elem, here, there, Elem-cons, not-Elem-nil}
use k8s_service_validator.Outcome.{ok}
use k8s_service_validator.Text.{Text, codes, text_eq}
use k8s_service_validator.Matrix.Model.{Model}
use k8s_service_validator.Matrix.Manager.{State, remove_pending_pods_in_namespace}
use k8s_service_validator.Matrix.Manager.Pending.{Deleted, remove_pending_deletes}
use k8s_service_validator.Entities.Namespace.{Namespace}
use k8s_service_validator.Matrix.Reachability.{Ref}
use k8s_service_validator.Matrix.Model.Keeping.{UniqueNames, holding}
use k8s_service_validator.Matrix.Manager.Left.{is_left, remove_pending_left}
use k8s_service_validator.Examples.Data.{heap}
use k8s_service_validator.Examples.Managing.{prompt}
use k8s_service_validator.Matrix.Model.Remove.{remove_pod}

abbrev namespace : Namespace Ref
namespace = record { name = codes "x"; pods = 0 ∷ 1 ∷ [] }

abbrev model : Model
model = record {
  pods = some (0 ∷ 1 ∷ []);
  ports = none;
  protocols = none;
  namespaces = namespace ∷ [];
  dns_domain = codes "d";
}

-- The pod "a" was seen pending three times, the pod "b" once.
abbrev hanging : State prompt
hanging = record { heap = heap; pending = (codes "a", 3) ∷ (codes "b", 1) ∷ []; world = tt }

abbrev model' : Model
model' = record model {
  pods = some (1 ∷ []);
  namespaces = record { name = codes "x"; pods = 1 ∷ [] } ∷ [];
}

abbrev hanging' : State prompt
hanging' = record hanging { pending = (codes "b", 1) ∷ [] }

-- The entries the other way round.
abbrev any_order : GoMap Text ℕ
any_order = (codes "b", 1) ∷ (codes "a", 3) ∷ []

abbrev Kept : Text × ℕ → Type 0
Kept entry = lookup entry.0 hanging.pending ≡ some entry.1

removes :
    remove_pending_pods_in_namespace prompt any_order (codes "x") model hanging
    ≡ ok (none, model', hanging')
unfolding remove_pending_pods_in_namespace remove_pod list_beq delete
removes = refl

is_range : IsRange any_order hanging.pending
unfolding lookup list_beq
is_range = record {
  sound = λ k v at. elim (Elem-cons at) [
    | inl this ↦ subst Kept this refl
    | inr later ↦ elim (Elem-cons later) [
      | inl this ↦ subst Kept this refl
      | inr none_left ↦ absurd (not-Elem-nil none_left)
    ]
  ];
  complete = λ k v found. Elem-swap (lookup-Elem k v hanging.pending found);
  once = refl;
}
  where
    Elem-swap :
        {e : Text × ℕ}
        → Elem e ((codes "a", 3) ∷ (codes "b", 1) ∷ [])
        → Elem e ((codes "b", 1) ∷ (codes "a", 3) ∷ [])
    Elem-swap at = elim (Elem-cons at) [
      | inl this ↦ there (here this)
      | inr later ↦ elim (Elem-cons later) [
        | inl this ↦ here this
        | inr none_left ↦ absurd (not-Elem-nil none_left)
      ]
    ]

at : lookup (codes "a") hanging.pending ≡ some 3
unfolding lookup list_beq
at = refl

remove_pending_deletes_example : Deleted prompt (codes "x") (codes "a")
remove_pending_deletes_example =
    remove_pending_deletes prompt (codes "x") model model' hanging hanging' any_order (codes "a")
      is_range removes 3 at refl

different : UniqueNames heap (0 ∷ 1 ∷ [])
different = ((λ h. ground arith, tt), (tt, tt))

remove_pending_left_example :
    (model' ≡ holding model namespace (keep (is_left heap hanging.pending) (0 ∷ 1 ∷ [])))
    × (hanging'.heap ≡ heap)
remove_pending_left_example =
    remove_pending_left prompt model namespace (0 ∷ 1 ∷ []) model' hanging hanging' any_order
      different is_range removes

one_left : keep (is_left heap hanging.pending) (0 ∷ 1 ∷ []) ≡ 1 ∷ []
unfolding lookup list_beq
one_left = refl
