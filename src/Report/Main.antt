-- ===== src/Report/Main.antt =====
-- cmd/report/main.go, `main`: the workflows are listed, the log of the last job of each is read, and
-- the report is printed. An error of a later command is only printed, and `main` goes on without
-- its output. The queries of the JSON library are the parameter `query`.
use k8s_service_validator.Prelude.{
  Bool, false, List, [], ◌∷◌, ◌++◌, ◌≡◌, ◌↔◌, inl, inr, Bool-cases, sym, subst, ap, ◌∙◌, refl,
  Option, none, some, arith, map, length, nat_eq, eq_iff,
}
use k8s_service_validator.Prelude.Elem.{Elem, Elem-cons, not-Elem-nil}
use k8s_service_validator.GoMap.{GoMap, lookup}
use k8s_service_validator.Outcome.{Outcome, ok, panic, index_out_of_range, ◌>>=◌, >>=-eq-ok}
use k8s_service_validator.Text.{Text, codes, text_eq, split, index}
use k8s_service_validator.Kubernetes.Exec.{Error}
use k8s_service_validator.Tools.RunCmd.{Programs, run_cmd}
use k8s_service_validator.Report.{
  Workflow, list_workflows, run_id, log_lines, result_of, generate_report,
}
use k8s_service_validator.Report.Lines.{SaysFailed, failed_tests_lem, is_member}

abbrev pub gh : Text
gh = codes "/usr/local/bin/gh"

abbrev jobs_url : Text → Text
jobs_url run =
    codes "https://api.github.com/repos/K8sbykeshed/k8s-service-validator/actions/runs/"
    ++ (run ++ codes "/jobs")

module _ (programs : Programs) (query : Text → Text → Text) where
  -- The loop's body for one workflow.
  unfoldable pub process_workflow :
      Text → Workflow → programs.World → Outcome (Workflow × programs.World)
  process_workflow id wf w = do
    let ((runs, _), w1) =
        run_cmd programs gh
          (codes "run" ∷ codes "list" ∷ codes "--workflow" ∷ id ∷ codes "--limit" ∷ codes "1" ∷ [])
          w
    run ← run_id runs
    let ((answer, _), w2) = run_cmd programs gh (codes "api" ∷ jobs_url run ∷ []) w1
    let job = query (codes ".jobs.[0].id") answer
    let completed = query (codes ".jobs.[0].completed_at") answer
    let ((log, _), w3) =
        run_cmd programs gh (codes "run" ∷ codes "view" ∷ codes "--job" ∷ job ∷ codes "--log" ∷ [])
          w2
    let tests = log_lines (split b'\n' log) ([], [])
    ok (
      record wf {
        last_run_id = run;
        last_job_id = job;
        last_job_completed_at = completed;
        passed_tests = tests.0;
        failed_tests = tests.1;
      },
      w3,
    )

  -- The loop over the workflows, in the order in which the entries come.
  unfoldable process_workflows :
      List (Text × Workflow) → programs.World → Outcome (List (Text × Workflow) × programs.World)
  unfolding process_workflow
  process_workflows [] w = ok ([], w)
  process_workflows ((id, wf) ∷ entries) w = do
    processed ← process_workflow id wf w
    rest ← process_workflows entries processed.1
    ok ((id, processed.0) ∷ rest.0, rest.1)

  -- The report that is printed, or none if the workflows are not listed, which ends the program.
  -- `order` and `order'` are the orders of the two loops over the map.
  unfoldable pub main :
      (order order' : List (Text × Workflow) → List (Text × Workflow))
      → programs.World
      → Outcome (Option Text × programs.World)
  unfolding process_workflows
  main order order' w =
      let ((printed, err), w1) = run_cmd programs gh (codes "workflow" ∷ codes "list" ∷ []) w in
      elim err [
        | some e ↦ ok (none, w1)
        | none ↦ do
          wfmap ← list_workflows (split b'\n' printed) []
          processed ← process_workflows (order wfmap) w1
          ok (some (generate_report (map (λ entry. entry.1) (order' processed.0))), processed.1)
      ]

abbrev pub view : Text → List Text
view job = codes "run" ∷ codes "view" ∷ codes "--job" ∷ job ∷ codes "--log" ∷ []

-- The log of a job, as far as it is printed.
abbrev log_of :
    (programs : Programs) → Text → programs.World → (Text × Option Error) × programs.World
log_of programs job w = run_cmd programs gh (view job) w

empty-lookup :
    (tests : GoMap Text Bool)
    → (length tests ≡ 0) ↔ ((t : Text) → is_member (lookup t tests) ≡ false)
unfolding lookup
empty-lookup [] = (λ h t. refl, λ h. refl)
empty-lookup ((k, v) ∷ tests) =
    (λ h. absurd (omega arith), λ h. absurd (ground (arith, h k, eq_iff k k)))

result_of-passed : (wf : Workflow) → (result_of wf ≡ codes "PASSED") ↔ (length wf.failed_tests ≡ 0)
result_of-passed wf = ground (arith, eq_iff (length wf.failed_tests) 0)

-- The state after the runs of a workflow and the jobs of a run were asked for.
abbrev pub before_view : (programs : Programs) → Text → Text → programs.World → programs.World
before_view programs id run w =
    let runs =
      run_cmd programs gh
        (codes "run" ∷ codes "list" ∷ codes "--workflow" ∷ id ∷ codes "--limit" ∷ codes "1" ∷ [])
        w in
    (run_cmd programs gh (codes "api" ∷ jobs_url run ∷ []) runs.1).1

module _ (programs : Programs) (query : Text → Text → Text) (id : Text) (wf wf' : Workflow)
    (w w' : programs.World)
    (processed : process_workflow programs query id wf w ≡ ok (wf', w')) where
  -- What the log of the workflow's job prints.
  abbrev pub printed_log : Text
  printed_log = (log_of programs wf'.last_job_id (before_view programs id wf'.last_run_id w)).0.0

  processed_inversion : wf'.failed_tests ≡ (log_lines (split b'\n' printed_log) ([], [])).1
  unfolding process_workflow
  processed_inversion =
      let runs =
        run_cmd programs gh
          (codes "run" ∷ codes "list" ∷ codes "--workflow" ∷ id ∷ codes "--limit" ∷ codes "1" ∷ [])
          w in
      let (run, found, rest) = >>=-eq-ok (run_id runs.0.0) _ processed in ground arith

  -- A workflow that was processed is reported as passed exactly if no line of its job's log, as
  -- printed after its runs and its jobs were asked for, says that a test failed. A line says so if
  -- it has no "PASS tests" and its first "FAIL: tests" is followed by a text with exactly one slash
  -- and with something, the name of the test, behind the slash.
  pub result_of_processed :
      (result_of wf' ≡ codes "PASSED")
      ↔ ((line t : Text) → Elem line (split b'\n' printed_log) → ¬ (SaysFailed line t))
  result_of_processed =
      let lines = split b'\n' printed_log in
      let failed = processed_inversion in
      (
        λ passed line t at said. ground (
          arith,
          failed,
          (failed_tests_lem t lines).1 (line, at, said),
          (empty-lookup wf'.failed_tests).0 ((result_of-passed wf').0 passed) t,
        ),
        λ clean. (result_of-passed wf').1 (
            (empty-lookup wf'.failed_tests).1 λ t.
              elim (Bool-cases (is_member (lookup t wf'.failed_tests))) [
                | inr absent ↦ absent
                | inl present ↦
                    let (line, at, said) =
                      (failed_tests_lem t lines).0
                        (ap (λ tests. is_member (lookup t tests)) (sym failed) ∙ present) in
                    absurd (clean line t at said)
              ]),
      )

module _ (programs : Programs) (query : Text → Text → Text) (id : Text) (wf : Workflow)
    (w : programs.World) where
  -- If the runs of a workflow cannot be listed, the program panics, although it means to go on.
  unlisted_runs :
      (e : Error)
      → (programs.output gh
          (codes "run" ∷ codes "list" ∷ codes "--workflow" ∷ id ∷ codes "--limit" ∷ codes "1" ∷ [])
          w).0.1
        ≡ some e
      → process_workflow programs query id wf w ≡ panic index_out_of_range
  unfolding process_workflow run_cmd run_id split
  unlisted_runs e failed = ground arith

  no_output :
      (job : Text) (w2 : programs.World) (e : Error)
      → (programs.output gh (view job) w2).0.1 ≡ some e
      → (log_of programs job w2).0.0 ≡ []
  unfolding run_cmd
  no_output job w2 e failed = ground arith

  -- If the log of its job cannot be fetched, a workflow that is processed is reported as passed.
  pub unfetched_log :
      (wf' : Workflow) (w' : programs.World) (e : Error)
      → (programs.output gh (view wf'.last_job_id) (before_view programs id wf'.last_run_id w)).0.1
        ≡ some e
      → process_workflow programs query id wf w ≡ ok (wf', w')
      → result_of wf' ≡ codes "PASSED"
  unfolding split index
  unfetched_log wf' w' e failed processed =
      let passes = result_of_processed programs query id wf wf' w w' processed in
      let no_text =
        no_output wf'.last_job_id (before_view programs id wf'.last_run_id w) e failed in
      let no_lines : split b'\n' (printed_log programs query id wf wf' w w' processed) ≡ [] ∷ [] =
        ap (split b'\n') no_text in
      passes.1 λ line t at said. elim (Elem-cons (subst (Elem line) no_lines at)) [
        | inl is_empty ↦
            let first : index [] (codes "FAIL: tests") ≡ some (length said.before) =
              ap (λ l. index l (codes "FAIL: tests")) is_empty ∙ said.first in
            absurd (cc)
        | inr later ↦ absurd (not-Elem-nil later)
      ]
