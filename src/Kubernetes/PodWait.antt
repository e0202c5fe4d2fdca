-- ===== src/Kubernetes/PodWait.antt =====
-- pkg/entities/kubernetes/exec.go, `WaitForPodRunningInNamespace` and `podRunning`, and the bound
-- of pkg/consts/consts.go. The API server's answers to the `Get` calls of one wait come as a list;
-- `wait.PollImmediate` polls at once and then each interval, 2 minutes / 10 seconds = 12 times more
-- at most, and its own error tells the end of them from the condition's errors.
pub mod Pending
use k8s_service_validator.Prelude.{
  ℕ, zero, suc, ◌+◌, Bool, true, false, List, [], ◌∷◌, Option, none, some, ltb, if◌then◌else◌, ◌==◌,
}
use k8s_service_validator.GoMap.{GoMap, lookup, insert}
use k8s_service_validator.Text.{Text, codes, text_eq}
use k8s_service_validator.Kubernetes.Exec.{Error}

abbrev pub poll_times_to_determine_pending_pod : ℕ
poll_times_to_determine_pending_pod = 2

abbrev pub pod_running_phase : Text
pod_running_phase = codes "Running"

abbrev pub pod_failed_phase : Text
pod_failed_phase = codes "Failed"

abbrev pub pod_succeeded_phase : Text
pod_succeeded_phase = codes "Succeeded"

abbrev pub pod_pending_phase : Text
pod_pending_phase = codes "Pending"

-- How a wait can fail: by the error of a `Get`, by `errPodCompleted`, by the end of the polls.
pub data WaitError : Type 0 where
  get_failed : Error → WaitError
  pod_completed timed_out : WaitError

-- A `Get` fails, or finds the pod in a phase.
pub data Seen : Type 0 where
  get_error : Error → Seen
  phase : Text → Seen

-- `m[key]` on a map of numbers.
abbrev or_zero : Option ℕ → ℕ
or_zero none = 0
or_zero (some n) = n

unfoldable pub polls : Text → GoMap Text ℕ → ℕ
polls name pending = or_zero (lookup name pending)

-- What one poll decides: to stop with an error or without one, or to go on.
pub data Verdict : Type 0 where
  stop : Option WaitError → Verdict
  go_on : Verdict

unfoldable pub pod_running : Text → Seen → GoMap Text ℕ → Verdict × GoMap Text ℕ
unfolding polls
pod_running name (get_error e) pending = (stop (some (get_failed e)), pending)
pod_running name (phase ph) pending =
    if ph == pod_running_phase
    then (stop none, pending)
    else if ph == pod_failed_phase
    then (stop (some pod_completed), pending)
    else if ph == pod_succeeded_phase
    then (stop (some pod_completed), pending)
    else if ph == pod_pending_phase
    then (let pending' = insert name (suc (polls name pending)) pending in
        (
          if ltb poll_times_to_determine_pending_pod (polls name pending')
              then stop none
              else go_on,
          pending',
        ))
    else (go_on, pending)

-- `PollImmediate` on the answers that come before the timeout.
unfoldable pub poll_immediate : Text → List Seen → GoMap Text ℕ → Option WaitError × GoMap Text ℕ
unfolding pod_running
poll_immediate name [] pending = (some timed_out, pending)
poll_immediate name (seen ∷ rest) pending =
    let (verdict, pending') = pod_running name seen pending in
    elim verdict [ stop err ↦ (err, pending') | go_on ↦ poll_immediate name rest pending' ]

-- The pod's own status, which is not read again here, decides first.
unfoldable pub wait_for_pod_running_in_namespace :
    Text → Text → List Seen → GoMap Text ℕ → Option WaitError × GoMap Text ℕ
unfolding poll_immediate
wait_for_pod_running_in_namespace status name answers pending =
    if status == pod_running_phase then (none, pending) else poll_immediate name answers pending
