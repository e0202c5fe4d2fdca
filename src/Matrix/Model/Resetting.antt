-- ===== src/Matrix/Model/Resetting.antt =====
-- `ResetAllPods`: which pods it resets.
use k8s_service_validator.Prelude.{
  List, [], ◌∷◌, ◌≡◌, refl, arith, contains, nat_eq, eq_iff, if◌then◌else◌,
}
use k8s_service_validator.Entities.Pod.{Pod, reset}
use k8s_service_validator.Matrix.Reachability.{Ref, Heap}
use k8s_service_validator.Matrix.Probe.{update}
use k8s_service_validator.Matrix.Model.{Model, pods_of, all_pods, reset_each, reset_all_pods}
use k8s_service_validator.Matrix.Model.Cache.{Coherent, all_pods_lem}

reset-reset : (p : Pod) → reset (reset p) ≡ reset p
unfolding reset
reset-reset p = refl

reset_each_lem :
    (ps : List Ref) (heap : Heap) (q : Ref)
    → reset_each ps heap q ≡ (if contains q ps then reset (heap q) else heap q)
unfolding reset_each contains
reset_each_lem [] heap q = refl
reset_each_lem (p ∷ ps) heap q =
    ground (
      arith,
      reset_each_lem ps (update heap p (reset (heap p))) q,
      eq_iff p q,
      reset-reset (heap p),
    )

-- If the cache is coherent, `ResetAllPods` resets the pods of the namespaces, each as one call of
-- `Reset` does, and no other pod.
reset_all_pods_lem :
    (m : Model) (heap : Heap) (q : Ref)
    → Coherent m
    → (reset_all_pods m heap).1 q
      ≡ (if contains q (pods_of m.namespaces) then reset (heap q) else heap q)
unfolding reset_all_pods
reset_all_pods_lem m heap q h =
    ground (arith, reset_each_lem (all_pods m).0 heap q, all_pods_lem m q h)
