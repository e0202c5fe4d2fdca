-- ===== src/Entities/PodString.antt =====
-- pkg/entities/pod.go, the type `PodString`: a pod's name in a truth table, node/namespace/name.
use k8s_service_validator.Prelude.{◌≡◌, List, ◌∷◌, ◌++◌, ap, ◌∙◌}
use k8s_service_validator.Text.{Text, codes, split, Lacks, split-append, split_whole}
use k8s_service_validator.Outcome.{Outcome, ok, panic, index_out_of_range, ◌>>=◌}

abbrev pub PodString : Type 0
PodString = Text

unfoldable pub new_pod_string : Text → Text → Text → PodString
new_pod_string node_name namespace pod_name =
    node_name ++ (codes "/" ++ (namespace ++ (codes "/" ++ pod_name)))

-- `pieces[0], pieces[1], pieces[2]`: the wrong number of pieces is logged, and too few panic.
first_three : List Text → Outcome (Text × Text × Text)
first_three (a ∷ b ∷ c ∷ _) = ok (a, b, c)
first_three _ = panic index_out_of_range

unfoldable pub split_pod_string : PodString → Outcome (Text × Text × Text)
unfolding first_three
split_pod_string pod = first_three (split b'/' pod)

unfoldable string_of : PodString → Text
string_of pod = pod

unfoldable pub namespace_of : PodString → Outcome Text
namespace_of pod = do pieces ← split_pod_string pod; ok pieces.1

unfoldable pub pod_name_of : PodString → Outcome Text
pod_name_of pod = do pieces ← split_pod_string pod; ok pieces.2

unfoldable node_name_of : PodString → Outcome Text
node_name_of pod = do pieces ← split_pod_string pod; ok pieces.0

module _ (node ns name : Text) (node_plain : Lacks b'/' node) (ns_plain : Lacks b'/' ns)
    (name_plain : Lacks b'/' name) where
  -- A pod string of parts with no slash is taken apart into these parts.
  split_pod_string-new_pod_string :
      split_pod_string (new_pod_string node ns name) ≡ ok (node, ns, name)
  unfolding split_pod_string new_pod_string
  split_pod_string-new_pod_string = ap first_three (
      split-append b'/' node (ns ++ (codes "/" ++ name)) node_plain
      ∙ ap (λ l. node ∷ l)
          (split-append b'/' ns name ns_plain
            ∙ ap (λ l. ns ∷ l) (split_whole b'/' name name_plain)))

  pub namespace_of-new_pod_string : namespace_of (new_pod_string node ns name) ≡ ok ns
  unfolding namespace_of
  namespace_of-new_pod_string = rw split_pod_string-new_pod_string

  pub pod_name_of-new_pod_string : pod_name_of (new_pod_string node ns name) ≡ ok name
  unfolding pod_name_of
  pod_name_of-new_pod_string = rw split_pod_string-new_pod_string

  node_name_of-new_pod_string : node_name_of (new_pod_string node ns name) ≡ ok node
  unfolding node_name_of
  node_name_of-new_pod_string = rw split_pod_string-new_pod_string
