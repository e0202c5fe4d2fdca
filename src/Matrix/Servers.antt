-- ===== src/Matrix/Servers.antt =====
-- pkg/matrix/manager.go, `WaitForHTTPServers`: each port with each protocol is a case, whose pods
-- are probed again and again until every case was without a wrong result, ten times at most. The
-- cases of one try come in any order. Waiting between two tries and logging have no part.
pub mod Cases
pub mod Probes
pub mod Ready
pub mod Failed
pub mod Honest
pub mod Returns
use k8s_service_validator.Prelude.{
  ℕ, zero, suc, Bool, true, false, List, [], ◌∷◌, ◌++◌, ◌≡◌, ◌≢◌, Option, none, some, length,
  is_empty, if◌then◌else◌, ◌==◌, nat_eq,
}
use k8s_service_validator.GoMap.{GoMap, lookup, insert, delete, IsRange}
use k8s_service_validator.Outcome.{ok}
use k8s_service_validator.Text.{Text, codes, text_eq, itoa}
use k8s_service_validator.Kubernetes.Exec.{Remote}
use k8s_service_validator.Entities.Service.{pod_ip_type}
use k8s_service_validator.Matrix.Bandwidth.{Floats, BandwidthResults}
use k8s_service_validator.Matrix.Connect.{Wrapping}
use k8s_service_validator.Matrix.Reachability.{
  Heap, Reachability, TestCase, Counts, new_reachability,
}
use k8s_service_validator.Matrix.Model.{Model, Found, all_pods, all_ports_protocol}
use k8s_service_validator.Matrix.Validate.{Pods, Probing, Counted}

-- The port and the protocol of a case; the kind of service is always the pod's own address.
abbrev pub ServerCase : Type 0
ServerCase = ℕ × Text

abbrev pub from_port : ℕ
from_port = 81

abbrev pub max_tries : ℕ
max_tries = 10

unfoldable pub case_name : ℕ → Text → Text
case_name port protocol = itoa from_port ++ (codes "->" ++ (itoa port ++ (codes "," ++ protocol)))

unfoldable pub cases_of_port : ℕ → List Text → GoMap Text ServerCase → GoMap Text ServerCase
cases_of_port port [] cases = cases
cases_of_port port (protocol ∷ protocols) cases =
    cases_of_port port protocols (insert (case_name port protocol) (port, protocol) cases)

unfoldable pub server_cases : List ℕ → List Text → GoMap Text ServerCase → GoMap Text ServerCase
unfolding cases_of_port
server_cases [] protocols cases = cases
server_cases (port ∷ ports) protocols cases =
    server_cases ports protocols (cases_of_port port protocols cases)

unfoldable pub all_not_ready : List (Text × ServerCase) → GoMap Text Bool → GoMap Text Bool
all_not_ready [] not_ready = not_ready
all_not_ready ((name, _) ∷ entries) not_ready = all_not_ready entries (insert name true not_ready)

-- The test case of a server with the reachability that it is given.
abbrev server_test : {B : Type 0} → ServerCase → Reachability B → TestCase B
server_test c r = record {
  to_port = c.0;
  protocol = c.1;
  reachability = r;
  service_type = pod_ip_type;
}

module _ (fl : Floats) (remote : Remote) (wrapping : Wrapping) (pods : Pods) where
  -- A new reachability, on which every pair of the pods is expected to be connected.
  abbrev pub fresh : Heap → ServerCase → TestCase (BandwidthResults fl)
  fresh heap c = server_test c (new_reachability heap pods.refs true)

  -- One round of probes for a case, and how many results were wrong.
  pub record CaseRun (c : ServerCase) (heap heap' : Heap) : Type 0 where
    pub case' : TestCase (BandwidthResults fl)
    pub probing : Probing fl remote wrapping pods false false heap (fresh heap c) heap' case'
    pub counts : Counts
    pub counted : Counted fl remote wrapping pods false false false case' counts

  -- The body of the inner loop, for one case.
  pub data Visit (entry : Text × ServerCase) (heap : Heap) (not_ready : GoMap Text Bool)
      (heap' : Heap) (not_ready' : GoMap Text Bool) : Type 0 where
    pass :
        lookup entry.0 not_ready ≢ some true
        → heap' ≡ heap
        → not_ready' ≡ not_ready
        → Visit entry heap not_ready heap' not_ready'
    probe :
        lookup entry.0 not_ready ≡ some true
        → (r : CaseRun entry.1 heap heap')
        → not_ready' ≡ (if r.counts.false_obs == 0 then delete entry.0 not_ready else not_ready)
        → Visit entry heap not_ready heap' not_ready'

  -- The inner loop over the cases in their order.
  pub data Visits
      : List (Text × ServerCase) → Heap → GoMap Text Bool → Heap → GoMap Text Bool → Type 0 where
    done : {heap : Heap} {not_ready : GoMap Text Bool} → Visits [] heap not_ready heap not_ready
    next :
        {entry : Text × ServerCase} {entries : List (Text × ServerCase)} {heap heap1 heap2 : Heap}
        {not_ready not_ready1 not_ready2 : GoMap Text Bool}
        → Visit entry heap not_ready heap1 not_ready1
        → Visits entries heap1 not_ready1 heap2 not_ready2
        → Visits (entry ∷ entries) heap not_ready heap2 not_ready2

  module _ (cases : GoMap Text ServerCase) where
    -- One round of the outer loop.
    pub record Try (heap : Heap) (not_ready : GoMap Text Bool) (heap' : Heap)
        (not_ready' : GoMap Text Bool) : Type 0 where
      pub order : List (Text × ServerCase)
      pub is_range : IsRange order cases
      pub visits : Visits order heap not_ready heap' not_ready'

    -- The outer loop with a number of tries left. It returns nil, or an error with the number of
    -- cases that are not ready.
    pub data Tries : ℕ → Heap → GoMap Text Bool → Option ℕ → Type 0 where
      exhausted :
          {heap : Heap} {not_ready : GoMap Text Bool}
          → Tries zero heap not_ready (some (length not_ready))
      ready :
          {left : ℕ} {heap heap' : Heap} {not_ready not_ready' : GoMap Text Bool}
          → Try heap not_ready heap' not_ready'
          → is_empty not_ready' ≡ true
          → Tries (suc left) heap not_ready none
      again :
          {left : ℕ} {heap heap' : Heap} {not_ready not_ready' : GoMap Text Bool}
          {result : Option ℕ}
          → Try heap not_ready heap' not_ready'
          → is_empty not_ready' ≡ false
          → Tries left heap' not_ready' result
          → Tries (suc left) heap not_ready result

-- The pods of a model as a round of probes reads them.
abbrev pub pods_of_model : Model → Pods
pods_of_model m = record { refs = (all_pods m).0; dns_domain = m.dns_domain }

abbrev pub cases_of : Found → GoMap Text ServerCase
cases_of found = server_cases found.0 found.1 []

-- A call of `WaitForHTTPServers` that returns nil, or an error with a number of cases.
pub record Waited (fl : Floats) (remote : Remote) (wrapping : Wrapping) (heap : Heap) (m : Model)
    (result : Option ℕ) : Type 0 where
  pub found : Found
  pub m' : Model
  pub ports_protocols : all_ports_protocol heap m ≡ ok (found, m')
  pub tries :
      Tries fl remote wrapping
        (pods_of_model m')
        (cases_of found)
        max_tries
        heap
        (all_not_ready (cases_of found) [])
        result
