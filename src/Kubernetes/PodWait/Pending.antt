-- ===== src/Kubernetes/PodWait/Pending.antt =====
-- What the end of a wait says about the pod, and how often it was seen pending.
use k8s_service_validator.Prelude.{
  ℕ, suc, ◌+◌, ltb, if◌then◌else◌, ◌≤◌, ◌<◌, Bool, true, false, List, [], ◌∷◌, ◌≡◌, ◌≢◌, ◌⊎◌, ◌||◌,
  refl, none, arith, eq_iff, ◌==◌,
}
use k8s_service_validator.GoMap.{GoMap, lookup, insert, lookup-insert}
use k8s_service_validator.Text.{Text, text_eq}
use k8s_service_validator.Kubernetes.PodWait.{
  Seen, get_error, phase, polls, pod_running, poll_immediate, pod_running_phase, pod_failed_phase,
  pod_succeeded_phase, pod_pending_phase, poll_times_to_determine_pending_pod,
}

-- The pod was seen running.
abbrev pub seen_running : List Seen → Bool
seen_running [] = false
seen_running (get_error e ∷ rest) = seen_running rest
seen_running (phase ph ∷ rest) = ph == pod_running_phase || seen_running rest

-- How often the pod was seen pending before an error, or a phase that ends the wait, was seen.
abbrev pub times_pending : List Seen → ℕ
times_pending [] = 0
times_pending (get_error e ∷ rest) = 0
times_pending (phase ph ∷ rest) =
    if ph == pod_running_phase || (ph == pod_failed_phase || ph == pod_succeeded_phase)
    then 0
    else if ph == pod_pending_phase
    then suc (times_pending rest)
    else times_pending rest

polls-insert :
    (name : Text) (n : ℕ) (pending : GoMap Text ℕ) → polls name (insert name n pending) ≡ n
unfolding polls
polls-insert name n pending = ground (arith, lookup-insert name name n pending, eq_iff name name)

module _ (name : Text) where
  -- A wait that ends without an error has seen the pod running, or has seen it pending more often
  -- than the bound, over all the waits for a pod of this name.
  pub poll_immediate_sound :
      (answers : List Seen) (pending : GoMap Text ℕ)
      → (poll_immediate name answers pending).0 ≡ none
      → (seen_running answers ≡ true)
        ⊎ (poll_times_to_determine_pending_pod < polls name (poll_immediate name answers pending).1)
  unfolding poll_immediate pod_running
  poll_immediate_sound [] pending h = ground arith
  poll_immediate_sound (get_error e ∷ rest) pending h = ground arith
  poll_immediate_sound (phase ph ∷ rest) pending h = ground (
    arith,
    poll_immediate_sound rest pending,
    poll_immediate_sound rest (insert name (suc (polls name pending)) pending),
  )

  -- A wait for a pod whose count was within the bound lets it pass the bound by one at most, and
  -- does not take the count back.
  polls-poll_immediate :
      (answers : List Seen) (pending : GoMap Text ℕ)
      → polls name pending ≤ poll_times_to_determine_pending_pod
      → (polls name (poll_immediate name answers pending).1
          ≤ suc poll_times_to_determine_pending_pod)
        × (polls name pending ≤ polls name (poll_immediate name answers pending).1)
  unfolding poll_immediate pod_running
  polls-poll_immediate [] pending h = ground arith
  polls-poll_immediate (get_error e ∷ rest) pending h = ground arith
  polls-poll_immediate (phase ph ∷ rest) pending h = ground (
    arith,
    polls-insert name (suc (polls name pending)) pending,
    polls-poll_immediate rest pending,
    polls-poll_immediate rest (insert name (suc (polls name pending)) pending),
  )

  -- A wait takes the count above the bound exactly if the answers do, with the count at its start.
  pub above-poll_immediate :
      (answers : List Seen) (pending : GoMap Text ℕ)
      → polls name pending ≤ poll_times_to_determine_pending_pod
      → ltb poll_times_to_determine_pending_pod (polls name (poll_immediate name answers pending).1)
        ≡ ltb poll_times_to_determine_pending_pod (polls name pending + times_pending answers)
  unfolding poll_immediate pod_running
  above-poll_immediate [] pending h = ground arith
  above-poll_immediate (get_error e ∷ rest) pending h = ground arith
  above-poll_immediate (phase ph ∷ rest) pending h = ground (
    arith,
    polls-insert name (suc (polls name pending)) pending,
    above-poll_immediate rest pending,
    above-poll_immediate rest (insert name (suc (polls name pending)) pending),
  )

  -- A wait counts the polls of its own pod's name alone.
  pub lookup-poll_immediate :
      (answers : List Seen) (pending : GoMap Text ℕ) (other : Text)
      → name ≢ other
      → lookup other (poll_immediate name answers pending).1 ≡ lookup other pending
  unfolding poll_immediate pod_running
  lookup-poll_immediate [] pending other h = refl
  lookup-poll_immediate (get_error e ∷ rest) pending other h = ground arith
  lookup-poll_immediate (phase ph ∷ rest) pending other h = ground (
    arith,
    lookup-insert other name (suc (polls name pending)) pending,
    eq_iff name other,
    lookup-poll_immediate rest pending other h,
    lookup-poll_immediate rest (insert name (suc (polls name pending)) pending) other h,
  )
