-- ===== src/Matrix/Reachability.antt =====
-- pkg/matrix/reachability.go: what is expected of each pair of pods and what was observed. Pods
-- are pointers, which stand here for places on a heap, so that a pod's name is read when it is
-- used.
pub mod Peers
pub mod Expect
pub mod Summary
pub mod Observe
pub mod PrintSummary
use k8s_service_validator.Prelude.{
  ℕ, suc, ◌+◌, Bool, true, false, not, ◌&&◌, ◌||◌, List, [], ◌∷◌, ◌≡◌, Option, none, some, map,
  if◌then◌else◌, ◌==◌,
}
use k8s_service_validator.GoMap.{GoMap}
use k8s_service_validator.Outcome.{Outcome, ok, ◌>>=◌}
use k8s_service_validator.Text.{Text, text_eq}
use k8s_service_validator.Entities.PodString.{PodString, namespace_of, pod_name_of}
use k8s_service_validator.Entities.Pod.{Pod, pod_string}
use k8s_service_validator.Matrix.Bandwidth.{
  Floats, BandwidthResults, bandwidth_to_mega_bytes, bench_mark_megabytes_per_second,
}
use k8s_service_validator.Matrix.TruthTable.{
  TruthTable, new_truth_table_from_items, set, set_bandwidth, get, get_bandwidth, compare_tables,
}

-- A pointer to a pod, and the pods that pointers lead to.
abbrev pub Ref : Type 0
Ref = ℕ

abbrev pub Heap : Type 0
Heap = Ref → Pod

pub record Reachability (B : Type 0) : Type 0 where
  pub expected : TruthTable B
  pub observed : TruthTable B
  pub pods : List Ref

pub record TestCase (B : Type 0) : Type 0 where
  pub to_port : ℕ
  pub protocol : Text
  pub reachability : Reachability B
  pub service_type : Text

pub record Peer : Type 0 where
  pub namespace : Text
  pub pod : Text

unfoldable pub names : Heap → List Ref → List PodString
names heap pods = map (λ p. pod_string (heap p)) pods

-- One half of `Matches`: an empty pattern matches without looking at the pod string.
pub half_matches : Text → Outcome Text → Outcome Bool
half_matches pattern part =
    if pattern == [] then ok true else (do name ← part; ok (pattern == name))

unfoldable pub matches : Peer → PodString → Outcome Bool
unfolding half_matches
matches p pod = do
  in_namespace ← half_matches p.namespace (namespace_of pod)
  if in_namespace then half_matches p.pod (pod_name_of pod) else ok false

module _ {B : Type 0} where
  unfoldable set_service_type : Text → TestCase B → TestCase B
  set_service_type service_type t = record t { service_type = service_type }

  unfoldable get_service_type : TestCase B → Text
  get_service_type t = t.service_type

  unfoldable pub new_reachability : Heap → List Ref → Bool → Reachability B
  unfolding names
  new_reachability heap pods default_expectation =
      let pod_names = names heap pods in
      record {
        expected = new_truth_table_from_items pod_names (some default_expectation);
        observed = new_truth_table_from_items pod_names none;
        pods = pods;
      }

  -- The inner loop of `ExpectPeer`, for one source pod.
  pub expect_row : Heap → Peer → Bool → PodString → List Ref → TruthTable B → Outcome (TruthTable B)
  expect_row heap to connected from_pod [] table = ok table
  expect_row heap to connected from_pod (to_pod ∷ pods) table = do
    matched ← matches to (pod_string (heap to_pod))
    table' ← (if matched then set from_pod (pod_string (heap to_pod)) connected table else ok table)
    expect_row heap to connected from_pod pods table'

  -- The outer loop: `all` are the pods that the inner loop goes through.
  pub expect_rows :
      Heap → Peer → Peer → Bool → List Ref → List Ref → TruthTable B → Outcome (TruthTable B)
  expect_rows heap from to connected all [] table = ok table
  expect_rows heap from to connected all (from_pod ∷ pods) table = do
    matched ← matches from (pod_string (heap from_pod))
    table' ←
        (if matched
          then expect_row heap to connected (pod_string (heap from_pod)) all table
          else ok table)
    expect_rows heap from to connected all pods table'

  unfoldable pub expect_peer : Heap → Peer → Peer → Bool → Reachability B → Outcome (Reachability B)
  unfolding expect_row expect_rows
  expect_peer heap from to connected r = do
    expected ← expect_rows heap from to connected r.pods r.pods r.expected
    ok (record r { expected = expected })

  unfoldable pub observe :
      PodString → PodString → Bool → Option B → Reachability B → Outcome (Reachability B)
  observe from_pod to_pod is_connected bandwidth r = do
    observed ← set from_pod to_pod is_connected r.observed
    observed' ← set_bandwidth from_pod to_pod bandwidth observed
    ok (record r { observed = observed' })

pub record Counts : Type 0 where
  pub true_obs : ℕ
  pub false_obs : ℕ
  pub ignored_obs : ℕ

abbrev pub no_counts : Counts
no_counts = record { true_obs = 0; false_obs = 0; ignored_obs = 0 }

abbrev add_true : Counts → Counts
add_true c = record c { true_obs = c.true_obs + 1 }

abbrev add_false : Counts → Counts
add_false c = record c { false_obs = c.false_obs + 1 }

abbrev add_ignored : Counts → Counts
add_ignored c = record c { ignored_obs = c.ignored_obs + 1 }

module _ (fl : Floats) where
  -- A measured bandwidth below the benchmark.
  unfoldable pub is_slow : Option (BandwidthResults fl) → Bool
  is_slow none = false
  is_slow (some b) = fl.less_than (bandwidth_to_mega_bytes fl b) bench_mark_megabytes_per_second

  -- The body of `Summary`'s loops.
  pub judge : Bool → Bool → TruthTable (BandwidthResults fl) → Text → Text → Bool → Counts → Counts
  judge ignore_loopback measure_bandwidth observed from to val c =
      if ignore_loopback && from == to
      then add_ignored c
      else if val
      then if not measure_bandwidth
        then add_true c
        else if get observed from to && is_slow (get_bandwidth observed from to)
        then add_false c
        else add_true c
      else add_false c

  pub count_row :
      Bool → Bool → TruthTable (BandwidthResults fl) → Text → GoMap Text Bool → Counts → Counts
  count_row ignore measure observed from [] c = c
  count_row ignore measure observed from ((to, val) ∷ dict) c =
      count_row ignore measure observed from dict (judge ignore measure observed from to val c)

  pub count_rows :
      Bool
      → Bool
      → TruthTable (BandwidthResults fl)
      → GoMap Text (GoMap Text Bool)
      → Counts
      → Counts
  count_rows ignore measure observed [] c = c
  count_rows ignore measure observed ((from, dict) ∷ values) c =
      count_rows ignore measure observed values (count_row ignore measure observed from dict c)

  unfoldable pub summary :
      Bool
      → Bool
      → Reachability (BandwidthResults fl)
      → Outcome (Counts × TruthTable (BandwidthResults fl))
  unfolding judge count_row count_rows
  summary ignore_loopback measure_bandwidth r = do
    comparison ← compare_tables r.expected r.observed
    ok (
      count_rows ignore_loopback measure_bandwidth r.observed comparison.values no_counts,
      comparison,
    )
