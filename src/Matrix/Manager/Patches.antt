-- ===== src/Matrix/Manager/Patches.antt =====
-- pkg/matrix/manager.go, `AddLabelToPod` and `RemoveLabelFromPod`: a JSON patch that names the label
-- by its path. The key goes into the path as it is.
use k8s_service_validator.Prelude.{
  List, [], ◌∷◌, ◌++◌, ◌≡◌, ◌≢◌, refl, sym, ap, ◌∙◌, Option, none, some,
}
use k8s_service_validator.Text.{Text, codes, Lacks, split, split-append, split_whole, split-ne-nil}
use k8s_service_validator.Entities.Pod.{Pod}
use k8s_service_validator.Matrix.Manager.{Cluster, ManagerError, api}

abbrev label_path : Text → Text
label_path key = codes "/metadata/labels/" ++ key

unfoldable add_patch : Text → Text → Text
add_patch key value =
    codes "[{\"op\": \"add\", \"path\": \""
    ++ (label_path key ++ (codes "\", \"value\": \"" ++ (value ++ codes "\"}]")))

unfoldable remove_patch : Text → Text
remove_patch key = codes "[{\"op\": \"remove\", \"path\": \"" ++ (label_path key ++ codes "\"}]")

module _ (cluster : Cluster) where
  unfoldable add_label_to_pod :
      Pod → Text → Text → cluster.World → Option ManagerError × cluster.World
  unfolding add_patch
  add_label_to_pod p key value w =
      let (err, w') = cluster.patch_pod p.namespace p.name (add_patch key value) w in
      elim err [ some e ↦ (some (api e), w') | none ↦ (none, w') ]

  unfoldable remove_label_from_pod :
      Pod → Text → cluster.World → Option ManagerError × cluster.World
  unfolding remove_patch
  remove_label_from_pod p key w =
      let (err, w') = cluster.patch_pod p.namespace p.name (remove_patch key) w in
      elim err [ some e ↦ (some (api e), w') | none ↦ (none, w') ]

-- The parts of a path, between its slashes.
abbrev path_parts : Text → List Text
path_parts path = split b'/' path

path_parts_lem :
    (key : Text)
    → path_parts (label_path key) ≡ [] ∷ codes "metadata" ∷ codes "labels" ∷ split b'/' key
unfolding split
path_parts_lem key = refl

abbrev in_labels : List Text → List Text
in_labels parts = [] ∷ codes "metadata" ∷ codes "labels" ∷ parts

-- If a key has no slash, the path in its patch leads to the label of that key.
path_parts_plain :
    (key : Text) → Lacks b'/' key → path_parts (label_path key) ≡ in_labels (key ∷ [])
path_parts_plain key h = path_parts_lem key ∙ ap in_labels (split_whole b'/' key h)

-- If a key has a prefix before a slash, the path in its patch leads to something below the prefix,
-- and to no label of that key.
path_parts_prefixed :
    (prefix name key : Text)
    → Lacks b'/' prefix
    → key ≡ prefix ++ b'/' ∷ name
    → (path_parts (label_path key) ≡ in_labels (prefix ∷ split b'/' name))
      × (path_parts (label_path key) ≢ in_labels (key ∷ []))
path_parts_prefixed prefix name key h e =
    let parts =
      path_parts_lem key ∙ ap in_labels (ap (split b'/') e ∙ split-append b'/' prefix name h) in
    (parts, λ same. two_parts prefix key name (sym parts ∙ same))
  where
    two_parts : (a b s : Text) → in_labels (a ∷ split b'/' s) ≢ in_labels (b ∷ [])
    two_parts a b s e' = split-ne-nil b'/' s (cc)
