-- ===== src/Kubernetes/Service/Labels.antt =====
-- Setting and removing a label of a service on an API server that keeps what it is given.
use k8s_service_validator.Prelude.{[], ◌≡◌, none, some, arith, eq_iff, inl, inr, Option-cases}
use k8s_service_validator.GoMap.{lookup-insert, lookup-delete}
use k8s_service_validator.Text.{Text, text_eq}
use k8s_service_validator.Kubernetes.Service.{
  K8sService, Api, label_not_found, get_label, set_label, remove_label,
}

module _ (api : Api) (key : Text) (s : K8sService) (w : api.World) where
  -- After a `SetLabel` that returns no error the service has the value at the key, whatever labels
  -- the API server had for it.
  pub get_label-set_label :
      (value : Text)
      → (set_label api key value s w).0 ≡ none
      → get_label key (set_label api key value s w).1 ≡ (value, none)
  unfolding set_label get_label
  get_label-set_label value h = elim (Option-cases (api.get s.namespace s.name w).0.1) [
    | inl read ↦ elim (Option-cases (api.get s.namespace s.name w).0.0.labels) [
      | inl nil_labels ↦ ground (arith, lookup-insert key key value [], eq_iff key key)
      | inr (labels, there) ↦ ground (arith, lookup-insert key key value labels, eq_iff key key)
    ]
    | inr (e, failed) ↦ ground arith
  ]

  -- After a `RemoveLabel` that returns no error the service has no label of the key.
  get_label-remove_label :
      (remove_label api key s w).0 ≡ none
      → get_label key (remove_label api key s w).1 ≡ ([], some label_not_found)
  unfolding remove_label get_label
  get_label-remove_label h = elim (Option-cases (api.get s.namespace s.name w).0.1) [
    | inl read ↦ elim (Option-cases (api.get s.namespace s.name w).0.0.labels) [
      | inl nil_labels ↦ ground arith
      | inr (labels, there) ↦ ground (arith, lookup-delete key key labels, eq_iff key key)
    ]
    | inr (e, failed) ↦ ground arith
  ]

  -- `RemoveLabel` of a label that the service of the API server has not fails with
  -- `ErrLabelNotFound`, and updates nothing there.
  remove_label_missing :
      (read : K8sService) (w' : api.World)
      → api.get s.namespace s.name w ≡ ((read, none), w')
      → get_label key read ≡ ([], some label_not_found)
      → remove_label api key s w ≡ (some label_not_found, read, w')
  unfolding remove_label get_label
  remove_label_missing read w' answer missing = elim (Option-cases read.labels) [
    | inl nil_labels ↦ ground arith
    | inr (labels, there) ↦ ground arith
  ]
