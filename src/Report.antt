-- ===== src/Report.antt =====
-- cmd/report/main.go: the lists of workflows and runs that `gh` prints, the lines of a log, and the
-- report. `main`, which runs the commands, is in the child Main.
pub mod Lines
pub mod Main
use k8s_service_validator.Prelude.{
  ℕ, ◌+◌, ◌-◌, Bool, true, false, List, [], ◌∷◌, ◌++◌, Option, none, some, map, length, get_elem?,
  drop, is_empty, ltb, if◌then◌else◌, ◌==◌, nat_eq,
}
use k8s_service_validator.Outcome.{Outcome, ok, panic, index_out_of_range, ◌>>=◌}
use k8s_service_validator.GoMap.{GoMap, insert}
use k8s_service_validator.Text.{Text, codes, text_eq, split, join, index, trim_space}

pub record Workflow : Type 0 where
  pub name : Text
  pub status : Text
  pub id : Text
  pub last_run_id : Text
  pub last_job_id : Text
  pub last_job_completed_at : Text
  pub passed_tests : GoMap Text Bool
  pub failed_tests : GoMap Text Bool

abbrev pub key_pass_in_log : Text
key_pass_in_log = codes "PASS tests"

abbrev pub key_fail_in_log : Text
key_fail_in_log = codes "FAIL: tests"

-- `ss[i]`.
at : List Text → ℕ → Outcome Text
at ss i = elim (get_elem? ss i) [ none ↦ panic index_out_of_range | some s ↦ ok s ]

-- The loop over the lines of `gh workflow list`.
unfoldable pub list_workflows : List Text → GoMap Text Workflow → Outcome (GoMap Text Workflow)
unfolding at
list_workflows [] wfmap = ok wfmap
list_workflows (line ∷ lines) wfmap = if line == [] then list_workflows lines wfmap else (do
  name ← at (split b'\t' line) 0
  status ← at (split b'\t' line) 1
  id ← at (split b'\t' line) 2
  let wf : Workflow = record {
    name = trim_space name;
    status = trim_space status;
    id = trim_space id;
    last_run_id = [];
    last_job_id = [];
    last_job_completed_at = [];
    passed_tests = [];
    failed_tests = [];
  }
  list_workflows lines (insert wf.id wf wfmap))

-- `ss[len(ss)-3]` of the output of `gh run list`.
unfoldable pub run_id : Text → Outcome Text
unfolding at
run_id printed =
    let ss = split b'\t' printed in
    if ltb (length ss) 3 then panic index_out_of_range else at ss (length ss - 3)

unfoldable pub process_line : Text → ℕ → Text
process_line l index =
    if ltb (index + 11) (length l)
    then (let ll = split b'/' (drop (index + 11) l) in
        if length ll == 2 then elim (get_elem? ll 1) [ none ↦ [] | some s ↦ s ] else [])
    else []

-- The passed and the failed tests.
abbrev pub Tests : Type 0
Tests = GoMap Text Bool × GoMap Text Bool

abbrev pub add_test : Text → GoMap Text Bool → GoMap Text Bool
add_test l tests = if l == [] then tests else insert l true tests

unfoldable pub log_line : Text → Tests → Tests
unfolding process_line
log_line line (passed, failed) = elim (index line key_pass_in_log) [
  | some i ↦ (add_test (process_line line i) passed, failed)
  | none ↦ elim (index line key_fail_in_log) [
    | some i ↦ (passed, add_test (process_line line i) failed)
    | none ↦ (passed, failed)
  ]
]

unfoldable pub log_lines : List Text → Tests → Tests
unfolding log_line
log_lines [] tests = tests
log_lines (line ∷ lines) tests = log_lines lines (log_line line tests)

abbrev pub result_of : Workflow → Text
result_of wf = if length wf.failed_tests == 0 then codes "PASSED" else codes "FAILED"

-- One of the two lists of tests, in the order in which the map gives them.
tests_section : Text → GoMap Text Bool → List Text
tests_section title tests =
    if length tests == 0
    then (title ++ codes " TESTS: NONE") ∷ []
    else (title ++ codes " TESTS:") ∷ map (λ t. codes "- " ++ t.0) tests

unfoldable workflow_section : Workflow → List Text
unfolding tests_section
workflow_section wf =
    codes "\n======================"
    ∷ (codes "[ " ++ (result_of wf ++ (codes " ] - " ++ wf.name)))
    ∷ (codes "* status: "
        ++ (wf.status
            ++ (codes ", action run ID: "
                ++ (wf.last_run_id ++ (codes ", completed at: " ++ wf.last_job_completed_at)))))
    ∷ (tests_section (codes "PASSED") wf.passed_tests
        ++ tests_section (codes "FAILED") wf.failed_tests)

unfoldable all_sections : List Workflow → List Text
unfolding workflow_section
all_sections [] = []
all_sections (wf ∷ wfs) = workflow_section wf ++ all_sections wfs

unfoldable pub generate_report : List Workflow → Text
unfolding all_sections
generate_report wfs = join (codes "\n") (
    codes "Aggregated testing report from CIs running with various CNIs and proxies:"
    ∷ all_sections wfs)
