-- ===== src/Matrix/Template.antt =====
-- pkg/matrix/manager.go, `CreateServiceFromTemplate`.
use k8s_service_validator.Prelude.{
  ◌⊎◌, inl, inr, refl, ℕ, [], ◌++◌, ◌≡◌, Option, none, some, map, arith, if◌then◌else◌, ◌==◌,
}
use k8s_service_validator.Outcome.{Outcome, ok, panic, nil_dereference, ◌>>=◌}
use k8s_service_validator.Text.{Text, codes, text_eq, itoa}
use k8s_service_validator.Kubernetes.Exec.{Error}
use k8s_service_validator.Kubernetes.Service.{K8sService, ServiceError, Api, create}
use k8s_service_validator.Kubernetes.Service.Wait.{
  Watch, watch_failed, events, wait_for_cluster_ip, first_cluster_ip,
}
use k8s_service_validator.Entities.Service.{
  ServiceTemplate, SvcId, increase_service_id, service_port,
}
use k8s_service_validator.Matrix.Connect.{Wrapping}

-- How it fails: by the creation, or by the error of the wait, wrapped.
pub data TemplateError : Type 0 where
  not_created : ServiceError → TemplateError
  no_cluster_ip : Error → TemplateError

pub record Created : Type 0 where
  pub name : Text
  pub service : Option K8sService
  pub cluster_ip : Text
  pub err : Option TemplateError

unfoldable pub template_service : ServiceTemplate → ℕ → K8sService
unfolding service_port
template_service t id = record {
  name = t.name ++ (codes "-" ++ itoa id);
  namespace = t.namespace;
  labels = none;
  selector = t.selector;
  ports = map (λ sp. service_port sp.protocol sp.port) t.protocol_ports;
  service_type = [];
  cluster_ip = [];
  external_name = [];
  external_traffic_policy = [];
  session_affinity = if t.session_affinity then codes "ClientIP" else [];
  ingress = [];
}

abbrev pub nothing : Option TemplateError → Created
nothing err = record { name = []; service = none; cluster_ip = []; err = err }

-- Without a cluster IP the error of the wait is wrapped, which may be nil.
unfoldable pub create_service_from_template :
    Wrapping
    → (api : Api) → (K8sService → api.World → Watch K8sService)
    → ServiceTemplate
    → SvcId
    → api.World
    → Outcome (Created × ℕ × api.World)
unfolding increase_service_id template_service
create_service_from_template wrapping api watch t id w =
    let id' = increase_service_id id in
    let s = template_service t id' in
    let ((created, err), w') = create api s w in
    elim err [
      | some e ↦ ok (nothing (some (not_created e)), id', w')
      | none ↦ do
        waited ← wait_for_cluster_ip s (watch s w')
        let failure : Created = elim (wrapping.wrapf waited.1 (codes "no cluster IP available")) [
          | none ↦ nothing none
          | some e ↦ nothing (some (no_cluster_ip e))
        ]
        let result : Created = elim waited.1 [
          | some _ ↦ failure
          | none ↦
              if waited.0 == []
              then failure
              else record { name = s.name; service = some s; cluster_ip = waited.0; err = none }
        ]
        ok (result, id', w')
    ]

wait_no_error :
    (s : K8sService) (watched : Watch K8sService)
    → (wait_for_cluster_ip s watched ≡ panic nil_dereference)
      ⊎ ((ip : Text) × (wait_for_cluster_ip s watched ≡ ok (ip, none)))
unfolding wait_for_cluster_ip
wait_no_error s (watch_failed e) = inl refl
wait_no_error s (events svcs) = inr (first_cluster_ip s.name svcs, refl)

module _ (wrapping : Wrapping) (api : Api) (watch : K8sService → api.World → Watch K8sService)
    (t : ServiceTemplate) (id : SvcId) (w w' : api.World) (id' : ℕ) (result : Created) where
  -- If a call returns and its service was created, it returns no error, whether there is a service
  -- with a cluster IP or, when the wait ended without one, none at all.
  pub template_no_error :
      create_service_from_template wrapping api watch t id w ≡ ok (result, id', w')
      → (create api (template_service t (increase_service_id id)) w).0.1 ≡ none
      → result.err ≡ none
  unfolding create_service_from_template
  template_no_error e made =
      let s = template_service t (increase_service_id id) in
      elim (wait_no_error s (watch s (create api s w).1)) [
        | inl panics ↦ ground arith
        | inr (ip, waited) ↦ ground (arith, wrapping.wrapf_nil (codes "no cluster IP available"))
      ]
