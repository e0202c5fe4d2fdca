-- ===== src/Examples/Careful.antt =====
-- A validation on a cluster that runs a command only in the containers that there are: it cannot but
-- return 0.
use k8s_service_validator.Prelude.{
  ℕ, Bool, true, false, List, [], ◌∷◌, ◌≡◌, refl, sym, ◌∙◌, subst, some, none, arith, eq_iff, inl,
  inr, is_empty, ◌==◌, nat_eq, if◌then◌else◌,
}
use k8s_service_validator.Prelude.Elem.{here, Elem-cons, not-Elem-nil}
use k8s_service_validator.Outcome.{ok}
use k8s_service_validator.GoMap.{lookup}
use k8s_service_validator.Text.{Text, codes, text_eq}
use k8s_service_validator.Kubernetes.Exec
use k8s_service_validator.Kubernetes.Exec.{Remote}
use k8s_service_validator.Commands
use k8s_service_validator.Commands.AgnHost
use k8s_service_validator.Entities.Container.{Container, get_name}
use k8s_service_validator.Entities.Pod.{Pod, pod_string}
use k8s_service_validator.Entities.PodString.{new_pod_string}
use k8s_service_validator.Matrix.TruthTable.{cell}
use k8s_service_validator.Matrix.Reachability.{Ref, Heap}
use k8s_service_validator.Matrix.Reachability.Observe.{HasRow}
use k8s_service_validator.Matrix.Connect.{probe_connectivity}
use k8s_service_validator.Matrix.Probe.{
  ProbeJob, ProbeJobResults, Reply, run_probe, address_to, first_container_name,
}
use k8s_service_validator.Matrix.Probe.Filled.{OnlyContainers, NamesFilled}
use k8s_service_validator.Matrix.Probe.Job.{Probed, skip, run, probe_job_ways}
use k8s_service_validator.Matrix.Validate.{Validated}
use k8s_service_validator.Matrix.Validate.Sound.{Confirmed}
use k8s_service_validator.Matrix.Validate.Complete.{NamesPods, no_false_alarm}
use k8s_service_validator.Matrix.Validate.Returns.{IsPrepared, validation_returns, some_validation}
use k8s_service_validator.Examples.Data.{
  whole, wrapping, container, heap, before, test_case, expected, name_a,
}
use k8s_service_validator.Examples.Validation.{pods, has_row}

-- There are containers "c" alone.
abbrev careful : Remote
careful = record {
  World = Unit;
  new_executor = λ req. none;
  stream = λ req stdin w.
      if req.container == codes "c"
      then ((codes "b", [], none), w)
      else (([], [], some (record { message = codes "container not found" })), w);
}

all_c : (p : Ref) → (heap p).containers ≡ container ∷ []
all_c p = ground arith

first_is_c :
    (random : ℕ) (from : Ref) (h h' : Heap) (name : Text)
    → OnlyContainers heap h
    → first_container_name random from h ≡ ok (name, h')
    → name ≡ codes "c"
unfolding first_container_name get_name
first_is_c random from h h' name same named =
    go (h from).containers refl
      (subst (λ cs. NamesFilled cs (h from).containers) (all_c from) (same from).2)
  where
    go :
        (cs : List Container)
        → (h from).containers ≡ cs
        → NamesFilled (container ∷ []) cs
        → name ≡ codes "c"
    go [] has filled = absurd filled
    go (d ∷ cs) has (_, kept, _) =
        let is_c : d.name ≡ codes "c" = kept (λ e. cc) in
        ground (arith, has, is_c, named, eq_iff d.name [])

reply_connected :
    (job : ProbeJob) (from : Pod) (name address : Text) (reply : Reply whole careful wrapping)
    → name ≡ codes "c"
    → job.measure_bandwidth ≡ false
    → job.reach_target_pod ≡ false
    → run_probe whole careful wrapping job from name address tt ≡ ok (reply, tt)
    → reply.connected ≡ true
unfolding run_probe probe_connectivity Commands.execute Exec.exec_with_options Exec.execute
    AgnHost.new_client
reply_connected job from name address reply is_c unmeasured unreached runs =
    ground (arith, eq_iff name (codes "c"))

always_connected :
    (h : Heap) (job : ProbeJob) (res : ProbeJobResults whole)
    → OnlyContainers heap h
    → Probed whole careful wrapping h job res
    → job.measure_bandwidth ≡ false
    → job.reach_target_pod ≡ false
    → res.is_connected ≡ true
always_connected h job res same p unmeasured unreached =
    elim (probe_job_ways whole careful wrapping p.random job h p.heap' p.world p.world' res
      p.runs) [
        | skip _ e _ ↦ ground (arith, e)
        | run name reply _ named runs e ↦ ground (
          arith,
          e,
          reply_connected job (h job.pod_from) name
              (address_to job.service_type job.protocol (h job.pod_to)) reply
              (first_is_c p.random job.pod_from h p.heap' name same named) unmeasured unreached
              runs,
        )
      ]

prepared : IsPrepared whole careful wrapping pods false heap (test_case before)
unfolding pod_string new_pod_string
prepared = record {
  populated = λ a at. elim (Elem-cons at) [
    | inl this ↦ subst (λ p. is_empty (heap p).containers ≡ false) this refl
    | inr other ↦ absurd (not-Elem-nil other)
  ];
  rows = λ a at. elim (Elem-cons at) [
    | inl this ↦ subst (λ p. HasRow (pod_string (heap p)) before.observed) this has_row
    | inr other ↦ absurd (not-Elem-nil other)
  ];
  froms = omega arith;
  tos = omega arith;
}

only_a :
    (f t : Text) (v : Bool)
    → cell expected.values f t ≡ some v
    → (name_a ≡ f) × (name_a ≡ t) × (v ≡ true)
unfolding cell lookup
only_a f t v e = ground (arith, eq_iff name_a f, eq_iff name_a t)

named :
    (f t : Text) (v : Bool)
    → cell expected.values f t ≡ some v
    → NamesPods whole careful wrapping pods false heap (test_case before) f t
unfolding pod_string new_pod_string
named f t v e =
    let (at_f, at_t, _) = only_a f t v e in
    record {
      from = 0;
      to = 0;
      source = here refl;
      target = here refl;
      from_name = at_f;
      to_name = at_t;
    }

honest :
    (f t : Text) (v c : Bool)
    → cell expected.values f t ≡ some v
    → Confirmed whole careful wrapping pods false false heap (test_case before) f t c
    → c ≡ v
honest f t v c e conf =
    let (_, _, is_true) = only_a f t v e in
    sym conf.connection
    ∙ (always_connected conf.heap' conf.result.job conf.result conf.same conf.probed
          conf.of_test.measure_bandwidth conf.of_test.reach_target_pod
        ∙ sym is_true)

-- Some run of the validation, which returns by what its rounds find.
found :
    (wrong : ℕ) × Validated whole careful wrapping pods false false false heap
      (test_case before)
      wrong
found =
    some_validation whole careful wrapping pods false false heap (test_case before)
      (λ wrong.
        Validated whole careful wrapping pods false false false heap (test_case before) wrong)
      (validation_returns whole careful wrapping pods false false heap (test_case before) tt
        prepared)

no_false_alarm_example : found.0 ≡ 0
no_false_alarm_example =
    no_false_alarm whole careful wrapping pods false heap (test_case before) false found.0 named
      honest found.1
