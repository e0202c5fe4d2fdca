-- ===== src/Examples/Cluster.antt =====
-- The model of the cluster: adding and removing pods, and its caches.
use k8s_service_validator.Prelude.{
  true, false, ◌≡◌, ◌≢◌, List, [], ◌++◌, ◌∷◌, refl, none, some, arith, list_beq, contains, nat_eq,
}
use k8s_service_validator.Outcome.{ok, panic, slice_out_of_range}
use k8s_service_validator.Text.{codes, text_eq}
use k8s_service_validator.Entities.Namespace.{Namespace}
use k8s_service_validator.Matrix.Reachability.{Ref}
use k8s_service_validator.Matrix.Model.{
  Model, Store, pods_of, all_pods, add_pod, add_namespace_with_image_and_commands,
}
use k8s_service_validator.Matrix.Model.Remove.{remove_pod, removed}
use k8s_service_validator.Matrix.Model.Named.{names_at}
use k8s_service_validator.Matrix.Model.Removing.{remove_pod_lem}
use k8s_service_validator.Matrix.Model.Twice.{remove_pod_twice}
use k8s_service_validator.Matrix.Model.Cache.{
  Coherent, add_pod-Coherent, add_pod_unknown, add_namespace_with_image_stale,
}
use k8s_service_validator.Commands.{protocol_tcp}
use k8s_service_validator.Examples.Data.{heap}

abbrev namespace_x : Namespace Ref
namespace_x = record { name = codes "x"; pods = 0 ∷ 1 ∷ [] }

abbrev pub model : Model
model = record {
  pods = some (0 ∷ 1 ∷ []);
  ports = none;
  protocols = none;
  namespaces = namespace_x ∷ [];
  dns_domain = codes "d";
}

abbrev store : Store
store = record { heap = heap; next = 2 }

coherent : Coherent model
unfolding pods_of contains
coherent cache p e = ground arith

other_name : (heap 0).name ≢ codes "b"
other_name = ground arith

remove_pod_lem_example :
    remove_pod heap (codes "b") (codes "x") model
    ≡ ok (
      removed,
      record model {
        namespaces = record { name = codes "x"; pods = 0 ∷ [] } ∷ [];
        pods = some (0 ∷ []);
      },
    )
remove_pod_lem_example =
    remove_pod_lem heap (codes "b") (codes "x") model [] [] namespace_x (0 ∷ []) [] (0 ∷ []) [] 1 1
      refl refl tt refl refl (other_name, tt) tt refl refl (other_name, tt)

-- The second pod of the name is at the end of the namespace.
abbrev twice : Namespace Ref
twice = record { name = codes "x"; pods = 0 ∷ 1 ∷ 1 ∷ [] }

remove_pod_twice_example :
    remove_pod heap (codes "b") (codes "x") (record model { namespaces = twice ∷ [] })
    ≡ panic slice_out_of_range
remove_pod_twice_example =
    remove_pod_twice heap (codes "b") (0 ∷ []) 1 1 (record model { namespaces = twice ∷ [] }) [] []
      twice refl tt refl (other_name, tt) refl refl

abbrev larger : Model
larger = record model {
  namespaces = record { name = codes "x"; pods = 0 ∷ 1 ∷ 2 ∷ [] } ∷ [];
  pods = some (0 ∷ 1 ∷ 2 ∷ []);
}

added : add_pod 2 (codes "x") model ≡ ok larger
unfolding add_pod list_beq
added = refl

add_pod-Coherent_example : Coherent larger
unfolding list_beq
add_pod-Coherent_example = add_pod-Coherent 2 (codes "x") model larger coherent refl added

abbrev stray : Model
stray = record model { pods = some (0 ∷ 1 ∷ 2 ∷ []) }

added_stray : add_pod 2 (codes "y") model ≡ ok stray
unfolding add_pod list_beq
added_stray = refl

add_pod_unknown_example :
    (contains 2 (all_pods stray).0 ≡ true) × (contains 2 (pods_of stray.namespaces) ≡ false)
unfolding list_beq contains pods_of
add_pod_unknown_example = add_pod_unknown 2 (codes "y") model stray refl refl added_stray

abbrev added_image : Model × Store
added_image =
    add_namespace_with_image_and_commands (codes "y") (codes "c" ∷ []) (80 ∷ []) (protocol_tcp ∷ [])
      (codes "i") [] model store

add_namespace_with_image_stale_example :
    ((all_pods added_image.0).0 ≡ 0 ∷ 1 ∷ [])
    × ((refs : List Ref) × (pods_of added_image.0.namespaces ≡ pods_of model.namespaces ++ refs)
        × (names_at added_image.1.heap refs ≡ codes "c" ∷ []))
add_namespace_with_image_stale_example =
    add_namespace_with_image_stale (codes "y") (codes "c" ∷ []) (80 ∷ []) (protocol_tcp ∷ [])
      (codes "i") [] model added_image.0 store added_image.1 (0 ∷ 1 ∷ []) refl refl
