-- ===== src/Tools.antt =====
-- pkg/tools/helpers.go, with `RunCmd` in its child, and the results that pkg/matrix/analyzer.go
-- collects.
pub mod RunCmd
use k8s_service_validator.Prelude.{
  subst, ℕ, Bool, List, [], ◌∷◌, ◌++◌, ◌≡◌, Option, none, some, arith, ltb, inl, inr, Option-cases,
}
use k8s_service_validator.Text.{Text}
use k8s_service_validator.Kubernetes.Service.{
  K8sService, ServiceError, Api, delete_service, delete_services,
}
use k8s_service_validator.Matrix.Reachability.{Heap}
use k8s_service_validator.Matrix.Model.{Model, reset_all_pods}

record Label : Type 0 where
  pub key : Text
  pub value : Text

record Result : Type 0 where
  pub name : Text
  pub label : Label
  pub result : Bool
  pub wrong_num : ℕ

record Results : Type 0 where
  pub results : List Result

unfoldable collect : Result → Results → Results
collect result r = record { results = r.results ++ result ∷ [] }

-- `t.Errorf` is called.
unfoldable must_no_wrong : ℕ → Bool
must_no_wrong wrong_num = ltb 0 wrong_num

module _ (api : Api) where
  -- `t.Fatal` ends the test with the error before the pods are reset.
  unfoldable reset_test_board :
      List (Option K8sService)
      → Model
      → Heap
      → api.World
      → Option ServiceError × Model × Heap × api.World
  reset_test_board services m heap w =
      let (err, w') = delete_services api services w in
      elim err [
        | some e ↦ (some e, m, heap, w')
        | none ↦ let (m', heap') = reset_all_pods m heap in (none, m', heap', w')
      ]

  -- The services that there are.
  abbrev pub present : List (Option K8sService) → List K8sService
  present [] = []
  present (none ∷ services) = present services
  present (some s ∷ services) = s ∷ present services

  -- Every service is deleted, in order and without an error, from the one state to the other.
  data AllDeleted : List K8sService → api.World → api.World → Type 0 where
    nothing : {w : api.World} → AllDeleted [] w w
    one_more :
        {s : K8sService} {services : List K8sService} {w w' : api.World}
        → (delete_service api s w).0 ≡ none
        → AllDeleted services (delete_service api s w).1 w'
        → AllDeleted (s ∷ services) w w'

  delete_services_all :
      (services : List (Option K8sService)) (w : api.World)
      → (delete_services api services w).0 ≡ none
      → AllDeleted (present services) w (delete_services api services w).1
  unfolding delete_services
  delete_services_all [] w h = nothing
  delete_services_all (none ∷ services) w h = delete_services_all services w h
  delete_services_all (some s ∷ services) w h = elim (Option-cases (delete_service api s w).0) [
    | inl fine ↦
        let rest : delete_services api services (delete_service api s w).1
            ≡ delete_services api (some s ∷ services) w =
          unfold delete_services in ground (arith, fine) in
        one_more fine (
          subst (λ r. AllDeleted (present services) (delete_service api s w).1 r.1) rest
            (delete_services_all services (delete_service api s w).1 (ground (arith, fine, rest))))
    | inr (e, failed) ↦ absurd (ground (arith, failed))
  ]

  reset_test_board_state :
      (services : List (Option K8sService)) (m : Model) (heap : Heap) (w : api.World)
      → (reset_test_board services m heap w).0 ≡ none
      → ((delete_services api services w).0 ≡ none)
        × ((delete_services api services w).1 ≡ (reset_test_board services m heap w).3)
        × ((reset_test_board services m heap w).2 ≡ (reset_all_pods m heap).1)
  unfolding reset_test_board
  reset_test_board_state services m heap w h =
      elim (Option-cases (delete_services api services w).0) [
        | inl fine ↦ (fine, ground (arith, fine), ground (arith, fine))
        | inr (e, failed) ↦ absurd (ground (arith, failed))
      ]

  -- If `ResetTestBoard` returns, which is without an error, every service of the list that is not
  -- nil was deleted, one after the other, and the model's pods were reset.
  reset_test_board_lem :
      (services : List (Option K8sService)) (m : Model) (heap : Heap) (w : api.World)
      → (reset_test_board services m heap w).0 ≡ none
      → AllDeleted (present services) w (reset_test_board services m heap w).3
        × ((reset_test_board services m heap w).2 ≡ (reset_all_pods m heap).1)
  reset_test_board_lem services m heap w h =
      let (fine, world, reset) = reset_test_board_state services m heap w h in
      (subst (AllDeleted (present services) w) world (delete_services_all services w fine), reset)
