-- ===== src/Kubernetes/Service.antt =====
-- pkg/entities/kubernetes/service.go and error.go: a service of the cluster. The API server is the
-- parameter `Api`: its answers come with the state of the cluster, and a failed `Get` returns an
-- object beside its error too.
pub mod Wait
pub mod Labels
use k8s_service_validator.Prelude.{
  ℕ, Bool, true, false, not, ◌&&◌, List, [], ◌∷◌, ◌++◌, map, Option, none, some, ltb, length,
  if◌then◌else◌, ◌==◌, nat_eq, is_empty,
}
use k8s_service_validator.Outcome.{Outcome, ok, panic, nil_dereference}
use k8s_service_validator.GoMap.{GoMap, lookup, insert, delete}
use k8s_service_validator.Text.{Text, text_eq}
use k8s_service_validator.Kubernetes.Exec.{Error}

-- `v1.ServicePort` and `v1.Service`, the fields that the program sets or reads.
pub record ServicePort : Type 0 where
  pub name : Text
  pub protocol : Text
  pub port : ℕ
  pub node_port : ℕ

pub record K8sService : Type 0 where
  pub name : Text
  pub namespace : Text
  pub labels : Option (GoMap Text Text)
  pub selector : GoMap Text Text
  pub ports : List ServicePort
  pub service_type : Text
  pub cluster_ip : Text
  pub external_name : Text
  pub external_traffic_policy : Text
  pub session_affinity : Text
  pub ingress : List Text

pub record Api : Type 1 where
  pub World : Type 0
  pub create : K8sService → World → (K8sService × Option Error) × World
  pub delete : Text → Text → World → Option Error × World
  pub get : Text → Text → World → (K8sService × Option Error) × World
  pub update : K8sService → World → (K8sService × Option Error) × World

-- `ErrLabelNotFound`, or an error of the API server that is wrapped with a message.
pub data ServiceError : Type 0 where
  label_not_found : ServiceError
  wrapped : Error → ServiceError

unfoldable is_label_not_found : Option ServiceError → Bool
is_label_not_found (some label_not_found) = true
is_label_not_found _ = false

unfoldable pub get_cluster_ip : K8sService → Text
get_cluster_ip s = s.cluster_ip

-- A read of a label.
unfoldable pub get_label : Text → K8sService → Text × Option ServiceError
get_label key s = elim s.labels [
  | none ↦ ([], some label_not_found)
  | some labels ↦ elim (lookup key labels) [
    | none ↦ ([], some label_not_found)
    | some value ↦ (value, none)
  ]
]

module _ (api : Api) where
  unfoldable pub create :
      K8sService → api.World → (Option K8sService × Option ServiceError) × api.World
  create s w =
      let ((created, err), w') = api.create s w in
      elim err [ some e ↦ ((none, some (wrapped e)), w') | none ↦ ((some created, none), w') ]

  unfoldable pub delete_service : K8sService → api.World → Option ServiceError × api.World
  delete_service s w =
      let (err, w') = api.delete s.namespace s.name w in
      elim err [ some e ↦ (some (wrapped e), w') | none ↦ (none, w') ]

  -- `Services.Delete`: nil entries are passed over, and the first error ends the loop.
  unfoldable pub delete_services :
      List (Option K8sService) → api.World → Option ServiceError × api.World
  unfolding delete_service
  delete_services [] w = (none, w)
  delete_services (none ∷ rest) w = delete_services rest w
  delete_services (some s ∷ rest) w =
      let (err, w') = delete_service s w in
      elim err [ some e ↦ (some e, w') | none ↦ delete_services rest w' ]

  -- The service that was read takes the place of the receiver's, also when the read failed.
  unfoldable pub set_label :
      Text → Text → K8sService → api.World → Option ServiceError × K8sService × api.World
  set_label key value s w =
      let ((read, err), w') = api.get s.namespace s.name w in
      elim err [
        | some e ↦ (some (wrapped e), read, w')
        | none ↦
            let labels : GoMap Text Text = elim read.labels [ none ↦ [] | some m ↦ m ] in
            let s' = record read { labels = some (insert key value labels) } in
            let ((_, err'), w'') = api.update s' w' in
            elim err' [ some e ↦ (some (wrapped e), s', w'') | none ↦ (none, s', w'') ]
      ]

  unfoldable pub remove_label :
      Text → K8sService → api.World → Option ServiceError × K8sService × api.World
  remove_label key s w =
      let ((read, err), w') = api.get s.namespace s.name w in
      elim err [
        | some e ↦ (some (wrapped e), read, w')
        | none ↦ elim read.labels [
          | none ↦ (some label_not_found, read, w')
          | some labels ↦ elim (lookup key labels) [
            | none ↦ (some label_not_found, read, w')
            | some _ ↦
                let s' = record read { labels = some (delete key labels) } in
                let ((_, err'), w'') = api.update s' w' in
                elim err' [ some e ↦ (some (wrapped e), s', w'') | none ↦ (none, s', w'') ]
          ]
        ]
      ]
