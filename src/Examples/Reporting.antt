-- ===== src/Examples/Reporting.antt =====
-- The report on a workflow, the summary that is printed, and the wait for an address.
use k8s_service_validator.Prelude.{
  Bool, true, false, List, [], ◌∷◌, ◌≡◌, ◌==◌, if◌then◌else◌, ◌↔◌, refl, none, some, list_beq, All,
}
use k8s_service_validator.Prelude.Elem.{Elem}
use k8s_service_validator.Outcome.{Outcome, ok, panic}
use k8s_service_validator.Text.{Text, codes, text_eq, split, index}
use k8s_service_validator.Kubernetes.Service.{K8sService}
use k8s_service_validator.Kubernetes.Service.Wait.{events, wait_for_cluster_ip}
use k8s_service_validator.Matrix.Reachability.PrintSummary.{
  LogEntry, IsInfo, print_summary, print_summary-IsInfo,
}
use k8s_service_validator.Tools.RunCmd.{Programs, run_cmd}
use k8s_service_validator.Report.{Workflow, result_of, log_lines, run_id}
use k8s_service_validator.Report.Lines.{SaysFailed}
use k8s_service_validator.Report.Main.{
  gh, view, before_view, printed_log, process_workflow, result_of_processed, unfetched_log,
}
use k8s_service_validator.Examples.Data.{whole, after}
use k8s_service_validator.Matrix.TruthTable.{compare_tables}
use k8s_service_validator.GoMap.{insert}

abbrev is_view : List Text → Bool
is_view (a ∷ b ∷ rest) = b == codes "view"
is_view other = false

-- A `gh` whose commands succeed, but for those that fetch a log.
abbrev no_logs : Programs
no_logs = record {
  World = Unit;
  shown = λ name args. name;
  output = λ name args w.
      if is_view args
      then (([], some (record { message = codes "no log" })), w)
      else ((codes "a\t77\tb\tc", none), w);
  wrap = λ e message. e;
}

abbrev query : Text → Text → Text
query q answer = codes "1"

abbrev workflow : Workflow
workflow = record {
  name = codes "calico";
  status = codes "active";
  id = codes "5";
  last_run_id = [];
  last_job_id = [];
  last_job_completed_at = [];
  passed_tests = [];
  failed_tests = [];
}

abbrev workflow' : Workflow
workflow' = record workflow {
  last_run_id = codes "77";
  last_job_id = codes "1";
  last_job_completed_at = codes "1";
}

processed : process_workflow no_logs query (codes "5") workflow tt ≡ ok (workflow', tt)
unfolding process_workflow run_id split run_cmd list_beq log_lines index
processed = refl

-- A `gh` whose log reports a failed test.
abbrev failing : Programs
failing = record no_logs {
  output = λ name args w.
      if is_view args
      then ((codes "FAIL: tests/TestX", none), w)
      else ((codes "a\t77\tb\tc", none), w);
}

abbrev failed : Workflow
failed = record workflow' { failed_tests = (codes "TestX", true) ∷ [] }

processed_failing : process_workflow failing query (codes "5") workflow tt ≡ ok (failed, tt)
unfolding process_workflow run_id split run_cmd list_beq log_lines index insert
processed_failing = refl

result_of_processed_example : (result_of failed ≡ codes "PASSED") ↔ (
    (line t : Text)
    → Elem line (
        split b'\n' (printed_log failing query (codes "5") workflow failed tt tt processed_failing))
    → ¬ (SaysFailed line t))
result_of_processed_example =
    result_of_processed failing query (codes "5") workflow failed tt tt processed_failing

unfetched :
    (no_logs.output gh
      (view workflow'.last_job_id)
      (before_view no_logs (codes "5") workflow'.last_run_id tt)).0.1
    ≡ some (record { message = codes "no log" })
unfolding list_beq
unfetched = refl

unfetched_log_example : result_of workflow' ≡ codes "PASSED"
unfetched_log_example =
    unfetched_log no_logs query (codes "5") workflow tt workflow' tt
      (record { message = codes "no log" }) unfetched processed

abbrev logged_or_none : Outcome (List LogEntry) → List LogEntry
logged_or_none (ok entries) = entries
logged_or_none (panic p) = []

abbrev logged : List LogEntry
logged = logged_or_none (print_summary whole true true true false after)

prints : print_summary whole true true true false after ≡ ok logged
unfolding print_summary k8s_service_validator.Matrix.Reachability.summary compare_tables
prints = refl

print_summary-IsInfo_example : All IsInfo logged
print_summary-IsInfo_example = print_summary-IsInfo whole true true true false after logged prints

abbrev service : K8sService
service = record {
  name = codes "s";
  namespace = codes "x";
  labels = none;
  selector = [];
  ports = [];
  service_type = [];
  cluster_ip = [];
  external_name = [];
  external_traffic_policy = [];
  session_affinity = [];
  ingress = [];
}

abbrev other_and_own : List K8sService
other_and_own =
    record service { name = codes "t"; cluster_ip = codes "9" }
    ∷ record service { cluster_ip = codes "7" }
    ∷ []

waits : wait_for_cluster_ip service (events other_and_own) ≡ ok (codes "7", none)
unfolding wait_for_cluster_ip list_beq
waits = refl
