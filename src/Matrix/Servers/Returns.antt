-- ===== src/Matrix/Servers/Returns.antt =====
-- `WaitForHTTPServers` returns: the rounds of probes that it makes come to their end.
use k8s_service_validator.Prelude.{
  ℕ, zero, suc, Bool, true, false, List, [], ◌∷◌, ◌≡◌, ◌≢◌, ◌⊎◌, refl, Option, none, some, arith,
  is_empty, inl, inr, Bool-cases, nat_eq, length, ◌==◌, if◌then◌else◌,
}
use k8s_service_validator.Prelude.Elem.{Elem}
use k8s_service_validator.GoMap.{GoMap, lookup, delete, IsMap, IsRange, IsRange-refl}
use k8s_service_validator.Outcome.{ok}
use k8s_service_validator.Text.{Text, text_eq}
use k8s_service_validator.Kubernetes.Exec.{Remote}
use k8s_service_validator.Entities.Pod.{pod_string}
use k8s_service_validator.Matrix.Bandwidth.{Floats, BandwidthResults}
use k8s_service_validator.Matrix.Connect.{Wrapping}
use k8s_service_validator.Matrix.TruthTable.{new_truth_table, new_truth_table_from_items}
use k8s_service_validator.Matrix.TruthTable.New.{lookup-new_truth_table, lookup-bandwidths}
use k8s_service_validator.Matrix.Reachability.{Ref, Heap, names, new_reachability}
use k8s_service_validator.Matrix.Reachability.Observe.{HasRow}
use k8s_service_validator.Matrix.Model.{Model, Found, all_ports_protocol}
use k8s_service_validator.Matrix.Validate.{Pods}
use k8s_service_validator.Matrix.Validate.Returns.{
  IsPrepared, ProbingEnds, SummaryMade, Probing-ends, Counted-total,
}
use k8s_service_validator.Matrix.Round.Inevitable.{Inevitable-some}
use k8s_service_validator.Matrix.Servers.{
  ServerCase, max_tries, all_not_ready, fresh, CaseRun, Visits, Try, Tries, pass, probe, ready,
  again, pods_of_model, cases_of, Waited,
}
use k8s_service_validator.Matrix.Servers.Cases.{server_cases-IsMap}
use k8s_service_validator.Matrix.Servers.Probes.{contains-names}

-- Every pod has a container.
abbrev pub Populated : Pods → Heap → Type 0
Populated pods heap = (a : Ref) → Elem a pods.refs → is_empty (heap a).containers ≡ false

waiting : (o : Option Bool) → (o ≢ some true) ⊎ (o ≡ some true)
waiting none = inl (λ h. cc)
waiting (some false) = inl (λ h. cc)
waiting (some true) = inr refl

module _ (fl : Floats) (remote : Remote) (wrapping : Wrapping) (pods : Pods)
    (w : remote.World) where
  fresh-HasRow :
      (heap : Heap) (c : ServerCase) (a : Ref)
      → Elem a pods.refs
      → HasRow (pod_string (heap a)) (fresh fl remote wrapping pods heap c).reachability.observed
  unfolding new_reachability new_truth_table_from_items
  fresh-HasRow heap c a at =
      let all = names heap pods.refs in
      record {
        values = λ h. ground (
          arith,
          lookup-new_truth_table (BandwidthResults fl) all all none (pod_string (heap a)),
          contains-names heap pods.refs at,
        );
        bandwidths = λ h. ground (
          arith,
          lookup-bandwidths (BandwidthResults fl) all all none (pod_string (heap a)),
          contains-names heap pods.refs at,
        );
      }

  fresh-IsPrepared :
      (heap : Heap) (c : ServerCase)
      → Populated pods heap
      → IsPrepared fl remote wrapping pods false heap (fresh fl remote wrapping pods heap c)
  unfolding new_reachability new_truth_table_from_items new_truth_table
  fresh-IsPrepared heap c p = record {
    populated = p;
    rows = fresh-HasRow heap c;
    froms = omega arith;
    tos = omega arith;
  }

  -- Whatever the interleaving, the round of probes for a case ends, its summary is made, and the
  -- program goes on as the property says.
  abbrev CaseEnds : Heap → ServerCase → (Heap → ℕ → Type 0) → Type 0
  CaseEnds heap c K =
      ProbingEnds fl remote wrapping pods false heap (fresh fl remote wrapping pods heap c)
        (SummaryMade fl remote wrapping pods false false (λ heap' t' wrong. K heap' wrong))

  -- So for the cases of a try in this order, of which those that are ready are passed over.
  abbrev VisitsEnd :
      List (Text × ServerCase) → Heap → GoMap Text Bool → (Heap → GoMap Text Bool → Type 0) → Type 0
  VisitsEnd [] heap not_ready K = K heap not_ready
  VisitsEnd (entry ∷ order) heap not_ready K =
      (lookup entry.0 not_ready ≢ some true → VisitsEnd order heap not_ready K)
      × (lookup entry.0 not_ready ≡ some true
          → CaseEnds heap entry.1 λ heap' wrong.
            VisitsEnd order heap' (if wrong == 0 then delete entry.0 not_ready else not_ready) K)

  -- So for the tries that are left, whatever order each of them takes the cases in.
  abbrev pub TriesEnd :
      GoMap Text ServerCase → ℕ → Heap → GoMap Text Bool → (Option ℕ → Type 0) → Type 0
  TriesEnd cases zero heap not_ready K = K (some (length not_ready))
  TriesEnd cases (suc left) heap not_ready K =
      (order : List (Text × ServerCase))
      → IsRange order cases
      → VisitsEnd order heap not_ready (λ heap' not_ready'.
        ((is_empty not_ready' ≡ true → K none)
          × (is_empty not_ready' ≡ false → TriesEnd cases left heap' not_ready' K)))

  CaseRun-ends :
      (heap : Heap) (c : ServerCase) (K : Heap → ℕ → Type 0)
      → Populated pods heap
      → ((heap' : Heap) (run : CaseRun fl remote wrapping pods c heap heap')
          → Populated pods heap'
          → K heap' run.counts.false_obs)
      → CaseEnds heap c K
  CaseRun-ends heap c K p go =
      Probing-ends fl remote wrapping pods false heap (fresh fl remote wrapping pods heap c) w
        (SummaryMade fl remote wrapping pods false false (λ heap' t' wrong. K heap' wrong))
        (fresh-IsPrepared heap c p)
        λ heap' t' probing p'.
          (let (counts, counted) = Counted-total fl remote wrapping pods false false heap' t' p' in
            (
              counts,
              counted,
              go heap'
                  (record { case' = t'; probing = probing; counts = counts; counted = counted })
                  p'.populated,
            ))

  Visits-end :
      (order : List (Text × ServerCase)) (heap : Heap) (not_ready : GoMap Text Bool)
      (K : Heap → GoMap Text Bool → Type 0)
      → Populated pods heap
      → ((heap' : Heap) (not_ready' : GoMap Text Bool)
          → Visits fl remote wrapping pods order heap not_ready heap' not_ready'
          → Populated pods heap'
          → K heap' not_ready')
      → VisitsEnd order heap not_ready K
  Visits-end [] heap not_ready K p go = go heap not_ready Visits.done p
  Visits-end (entry ∷ order) heap not_ready K p go = (
    λ unmarked. Visits-end order heap not_ready K p λ heap' not_ready' visits p'.
        go heap' not_ready' (Visits.next (pass unmarked refl refl) visits) p',
    λ marked. CaseRun-ends heap entry.1 _ p λ heap1 run p1.
        Visits-end order heap1 _ K p1 λ heap' not_ready' visits p'.
          go heap' not_ready' (Visits.next (probe marked run refl) visits) p',
  )

  Tries-end :
      (cases : GoMap Text ServerCase) (left : ℕ) (heap : Heap) (not_ready : GoMap Text Bool)
      (K : Option ℕ → Type 0)
      → Populated pods heap
      → ((result : Option ℕ)
          → Tries fl remote wrapping pods cases left heap not_ready result
          → K result)
      → TriesEnd cases left heap not_ready K
  Tries-end cases zero heap not_ready K p go = go _ Tries.exhausted
  Tries-end cases (suc left) heap not_ready K p go = λ order range.
      Visits-end order heap not_ready
        (λ heap' not_ready'.
          ((is_empty not_ready' ≡ true → K none)
            × (is_empty not_ready' ≡ false → TriesEnd cases left heap' not_ready' K)))
        p
        λ heap' not_ready' visits p'.
          (let t : Try fl remote wrapping pods cases heap not_ready heap' not_ready' = record {
            order = order;
            is_range = range;
            visits = visits;
          } in
            (
              λ empty. go none (ready t empty),
              λ more.
                  Tries-end cases left heap' not_ready' K p'
                    λ result tries. go result (again t more tries),
            ))

  some_visits :
      (order : List (Text × ServerCase)) (heap : Heap) (not_ready : GoMap Text Bool)
      (K : Heap → GoMap Text Bool → Type 0)
      → VisitsEnd order heap not_ready K
      → (heap' : Heap) × (not_ready' : GoMap Text Bool) × K heap' not_ready'
  some_visits [] heap not_ready K k = (heap, not_ready, k)
  some_visits (entry ∷ order) heap not_ready K (passes, probes) =
      elim (waiting (lookup entry.0 not_ready)) [
        | inl unmarked ↦ some_visits order heap not_ready K (passes unmarked)
        | inr marked ↦
            let end = Inevitable-some fl remote wrapping (probes marked) in
            some_visits order end.0.heap _ K end.1.2
      ]

  some_result :
      (cases : GoMap Text ServerCase) (left : ℕ) (heap : Heap) (not_ready : GoMap Text Bool)
      (K : Option ℕ → Type 0)
      → IsMap cases
      → TriesEnd cases left heap not_ready K
      → (result : Option ℕ) × K result
  some_result cases zero heap not_ready K h k = (_, k)
  some_result cases (suc left) heap not_ready K h k =
      let (heap', not_ready', (empty, more)) =
        some_visits cases heap not_ready _ (k cases (IsRange-refl cases h)) in
      elim (Bool-cases (is_empty not_ready')) [
        | inl none_left ↦ (none, empty none_left)
        | inr is_more ↦ some_result cases left heap' not_ready' K h (more is_more)
      ]

-- If the ports and the protocols of the model are read without a panic, and each of its pods has a
-- container, `WaitForHTTPServers` returns: whatever the order of the cases in each try and the
-- interleaving of each round, no run of it hangs or panics, and it ends within ten tries.
pub servers_return :
    (fl : Floats) (remote : Remote) (wrapping : Wrapping) (w : remote.World) (heap : Heap)
    (m m' : Model) (found : Found)
    → all_ports_protocol heap m ≡ ok (found, m')
    → Populated (pods_of_model m') heap
    → TriesEnd fl remote wrapping
        (pods_of_model m')
        w
        (cases_of found)
        max_tries
        heap
        (all_not_ready (cases_of found) [])
        (Waited fl remote wrapping heap m)
servers_return fl remote wrapping w heap m m' found read p =
    Tries-end fl remote wrapping (pods_of_model m') w (cases_of found) max_tries heap
      (all_not_ready (cases_of found) []) (Waited fl remote wrapping heap m) p
      λ result tries. record { found = found; m' = m'; ports_protocols = read; tries = tries }

-- So there is a run of it.
pub servers_run :
    (fl : Floats) (remote : Remote) (wrapping : Wrapping) (w : remote.World) (heap : Heap)
    (m m' : Model) (found : Found)
    → all_ports_protocol heap m ≡ ok (found, m')
    → Populated (pods_of_model m') heap
    → (result : Option ℕ) × Waited fl remote wrapping heap m result
servers_run fl remote wrapping w heap m m' found read p =
    some_result fl remote wrapping (pods_of_model m') w (cases_of found) max_tries heap
      (all_not_ready (cases_of found) []) (Waited fl remote wrapping heap m)
      (server_cases-IsMap found.0 found.1 [] tt)
      (servers_return fl remote wrapping w heap m m' found read p)
