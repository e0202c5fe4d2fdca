-- ===== src/Examples/Validation.antt =====
-- A validation of one pod against the expectation that it reaches itself, which returns 0.
use k8s_service_validator.Prelude.{
  list_beq, inl, inr, subst, is_empty, arith, true, false, [], ◌∷◌, ◌≡◌, refl,
}
use k8s_service_validator.Prelude.Elem.{here, Elem-cons, not-Elem-nil}
use k8s_service_validator.Outcome.{ok}
use k8s_service_validator.Text.{codes}
use k8s_service_validator.Matrix.TruthTable.{TruthTable, cell, compare_tables, get}
use k8s_service_validator.Matrix.Reachability.{Counts, summary}
use k8s_service_validator.GoMap.{lookup, insert}
use k8s_service_validator.Matrix.Reachability.Observe.{HasRow}
use k8s_service_validator.Matrix.Validate.{Pods, Probing, Validated, enough}
use k8s_service_validator.Matrix.Validate.Sound.{Confirmed, Validated-Confirmed}
use k8s_service_validator.Matrix.Validate.Returns.{IsPrepared, AlwaysReturns, validation_returns}
use k8s_service_validator.Entities.Pod.{pod_string}
use k8s_service_validator.Entities.PodString.{new_pod_string}
use k8s_service_validator.Matrix.Round.Finish.{IsFeasible, round_finishes_unmeasured}
use k8s_service_validator.Matrix.Round.{Round, Steps, IsDone}
use k8s_service_validator.Examples.Data.{
  whole, answering, wrapping, heap, before, after, test_case, Bandwidth, name_a, expected,
}
use k8s_service_validator.Examples.Rounds.{job, heap_after, done, steps, sent, is_done, first_step}
use k8s_service_validator.Matrix.Probe.{make_jobs}

abbrev pub pods : Pods
pods = record { refs = 0 ∷ []; dns_domain = codes "d" }

abbrev counts : Counts
counts = record { true_obs = 1; false_obs = 0; ignored_obs = 0 }

abbrev compared : TruthTable Bandwidth
compared = record expected { bandwidths = [] }

probing :
    Probing whole answering wrapping pods false false heap
      (test_case before)
      heap_after
      (test_case after)
unfolding make_jobs
probing = record {
  last = done;
  steps = steps;
  done = is_done;
  heap_after = refl;
  case_after = refl;
}

counted : summary whole false false after ≡ ok (counts, compared)
unfolding summary compare_tables insert get lookup list_beq
counted = refl

validated : Validated whole answering wrapping pods false false false heap (test_case before) 0
validated = record {
  heap1 = heap_after;
  case1 = test_case after;
  first = probing;
  counts1 = counts;
  counted1 = (compared, counted);
  heap2 = heap_after;
  case2 = test_case after;
  second = enough refl refl refl;
  counts2 = counts;
  counted2 = (compared, counted);
  returned = refl;
}

Validated-Confirmed_example :
    Confirmed whole answering wrapping pods false false heap (test_case before) name_a name_a true
unfolding cell lookup list_beq pod_string new_pod_string
Validated-Confirmed_example =
    Validated-Confirmed whole answering wrapping pods false false false heap (test_case before) 0 0
      0 true validated refl (here refl) (here refl) refl refl

pub has_row : HasRow name_a before.observed
unfolding lookup list_beq
has_row = record { values = λ h. cc; bandwidths = λ h. cc }

feasible : IsFeasible heap before job
unfolding pod_string new_pod_string
feasible = record { unmeasured = refl; populated = refl; row = has_row }

-- The round that has sent its only job.
round_finishes_unmeasured_example :
    (t : Round whole) × Steps whole answering wrapping sent t × IsDone whole answering wrapping t
round_finishes_unmeasured_example =
    round_finishes_unmeasured whole answering wrapping heap (job ∷ []) before tt sent (feasible, tt)
      first_step

prepared : IsPrepared whole answering wrapping pods false heap (test_case before)
unfolding pod_string new_pod_string
prepared = record {
  populated = λ a at. elim (Elem-cons at) [
    | inl this ↦ subst (λ p. is_empty (heap p).containers ≡ false) this refl
    | inr other ↦ absurd (not-Elem-nil other)
  ];
  rows = λ a at. elim (Elem-cons at) [
    | inl this ↦ subst (λ p. HasRow (pod_string (heap p)) before.observed) this has_row
    | inr other ↦ absurd (not-Elem-nil other)
  ];
  froms = omega arith;
  tos = omega arith;
}

validation_returns_example :
    AlwaysReturns whole answering wrapping pods false false heap (test_case before) (λ wrong.
      Validated whole answering wrapping pods false false false heap (test_case before) wrong)
validation_returns_example =
    validation_returns whole answering wrapping pods false false heap (test_case before) tt prepared
