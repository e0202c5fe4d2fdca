-- ===== src/Matrix/Servers/Probes.antt =====
-- One round of probes for one case of `WaitForHTTPServers`: it counts nothing wrong exactly if every
-- pair of pods is connected.
use k8s_service_validator.Prelude.{
  Bool, true, false, ◌&&◌, List, [], ◌∷◌, ◌≡◌, refl, sym, subst, some, arith, eq_iff, eq_refl,
  contains, Bool-cases, inl, inr, ◌==◌, none, if◌then◌else◌,
}
use k8s_service_validator.Prelude.Elem.{Elem, here, there}
use k8s_service_validator.GoMap.{GoMap}
use k8s_service_validator.Text.{Text, text_eq}
use k8s_service_validator.Kubernetes.Exec.{Remote}
use k8s_service_validator.Entities.Pod.{pod_string}
use k8s_service_validator.Matrix.Bandwidth.{Floats, BandwidthResults}
use k8s_service_validator.Matrix.Connect.{Wrapping}
use k8s_service_validator.Matrix.TruthTable.{TruthTable, cell, get, new_truth_table_from_items}
use k8s_service_validator.Matrix.TruthTable.New.{cell-new_truth_table}
use k8s_service_validator.Matrix.Reachability.{Ref, Heap, names, new_reachability}
use k8s_service_validator.Matrix.Reachability.Summary.{summary_sound, summary_complete}
use k8s_service_validator.Matrix.Probe.Filled.{
  OnlyContainers, OnlyContainers-refl, pod_string-OnlyContainers,
}
use k8s_service_validator.Matrix.Validate.{Pods}
use k8s_service_validator.Matrix.Validate.Sound.{
  Confirmed, Probing-OnlyContainers, Probing-Confirmed, Confirmed-earlier,
}
use k8s_service_validator.Matrix.Servers.{ServerCase, fresh, CaseRun, Visit, pass, probe}

pub contains-names :
    (heap : Heap) (refs : List Ref) {a : Ref}
    → Elem a refs
    → contains (pod_string (heap a)) (names heap refs) ≡ true
unfolding contains names
contains-names heap [] e = elim e [ ]
contains-names heap (p ∷ refs) {a} (here h) = rw h (rw (eq_refl (pod_string (heap a))) refl)
contains-names heap (p ∷ refs) {a} (there e) = ground (arith, contains-names heap refs e)

named :
    (heap : Heap) (refs : List Ref) (f : Text)
    → contains f (names heap refs) ≡ true
    → (a : Ref) × Elem a refs × (pod_string (heap a) ≡ f)
unfolding contains names
named heap [] f h = absurd (cc)
named heap (p ∷ refs) f h = elim (Bool-cases (pod_string (heap p) == f)) [
  | inl this ↦ (p, here refl, (eq_iff (pod_string (heap p)) f).0 this)
  | inr other ↦ let (a, at, e) = named heap refs f (ground arith) in (a, there at, e)
]

module _ (fl : Floats) (remote : Remote) (wrapping : Wrapping) (pods : Pods) (c : ServerCase) where
  cell-fresh :
      (heap : Heap) (f t : Text)
      → cell (fresh fl remote wrapping pods heap c).reachability.expected.values f t ≡ (
          if contains f (names heap pods.refs) && contains t (names heap pods.refs)
          then some true
          else none)
  unfolding new_reachability new_truth_table_from_items
  cell-fresh heap f t =
      cell-new_truth_table (BandwidthResults fl) (names heap pods.refs) (names heap pods.refs)
        (some true) f t

  -- A probe of this case between two pods found them connected.
  abbrev pub Connects : Heap → Ref → Ref → Bool → Type 0
  Connects heap a b =
      Confirmed fl remote wrapping pods false false heap (fresh fl remote wrapping pods heap c)
        (pod_string (heap a)) (pod_string (heap b))

  module _ (heap heap' : Heap) (run : CaseRun fl remote wrapping pods c heap heap') where
    CaseRun-OnlyContainers : OnlyContainers heap heap'
    CaseRun-OnlyContainers =
        (Probing-OnlyContainers fl remote wrapping pods false false heap heap' _ run.case'
          run.probing).0

    same_expected :
        run.case'.reachability.expected
        ≡ (fresh fl remote wrapping pods heap c).reachability.expected
    same_expected =
        (Probing-OnlyContainers fl remote wrapping pods false false heap heap' _ run.case'
          run.probing).1

    probed_pair :
        (a b : Ref)
        → Elem a pods.refs
        → Elem b pods.refs
        → Connects heap a b
            (get run.case'.reachability.observed (pod_string (heap a)) (pod_string (heap b)))
    probed_pair a b ea eb =
        Probing-Confirmed fl remote wrapping pods false false heap heap' _ run.case' a b run.probing
          ea eb

    pub no_wrong-Connects :
        (a b : Ref)
        → run.counts.false_obs ≡ 0
        → Elem a pods.refs
        → Elem b pods.refs
        → Connects heap a b true
    no_wrong-Connects a b zero_wrong ea eb =
        let f = pod_string (heap a) in
        let t = pod_string (heap b) in
        let (comparison, summed) = run.counted in
        let expected : cell run.case'.reachability.expected.values f t ≡ some true =
          rw same_expected (
            ground (
              arith,
              cell-fresh heap f t,
              contains-names heap pods.refs ea,
              contains-names heap pods.refs eb,
            )) in
        let (agrees, _) =
          summary_sound fl false false run.case'.reachability run.counts comparison f t true summed
            zero_wrong expected refl in
        subst (Connects heap a b) agrees (probed_pair a b ea eb)

    pub Connects-no_wrong :
        ((a b : Ref) (connected : Bool)
          → Elem a pods.refs
          → Elem b pods.refs
          → Connects heap a b connected
          → connected ≡ true)
        → run.counts.false_obs ≡ 0
    Connects-no_wrong honest =
        let (comparison, summed) = run.counted in
        summary_complete fl false false run.case'.reachability run.counts comparison summed
          (λ f t val at not_loop. (agrees f t val at, refl))
      where
        agrees :
            (f t : Text) (val : Bool)
            → cell run.case'.reachability.expected.values f t ≡ some val
            → get run.case'.reachability.observed f t ≡ val
        agrees f t val at =
            let at_fresh =
              subst (λ (e : TruthTable (BandwidthResults fl)). cell e.values f t ≡ some val)
                same_expected at in
            let (a, ea, is_f) = named heap pods.refs f (ground (arith, cell-fresh heap f t)) in
            let (b, eb, is_t) = named heap pods.refs t (ground (arith, cell-fresh heap f t)) in
            let found = honest a b _ ea eb (probed_pair a b ea eb) in
            ground (arith, cell-fresh heap f t, found)

  pub Connects-earlier :
      (heap0 heap : Heap) (a b : Ref) (connected : Bool)
      → OnlyContainers heap0 heap
      → Connects heap a b connected
      → Connects heap0 a b connected
  Connects-earlier heap0 heap a b connected h conf =
      let test = fresh fl remote wrapping pods heap0 c in
      let r = new_reachability heap pods.refs true in
      let conf_a =
        subst
          (λ f.
            Confirmed fl remote wrapping pods false false heap (record test { reachability = r }) f
              (pod_string (heap b)) connected)
          (pod_string-OnlyContainers heap0 heap a h) conf in
      let conf_ab =
        subst
          (λ t.
            Confirmed fl remote wrapping pods false false heap (record test { reachability = r })
              (pod_string (heap0 a)) t connected)
          (pod_string-OnlyContainers heap0 heap b h) conf_a in
      Confirmed-earlier fl remote wrapping pods false false heap0 heap test r (pod_string (heap0 a))
        (pod_string (heap0 b)) connected h conf_ab

-- A visit only gives names to containers.
pub Visit-OnlyContainers :
    (fl : Floats) (remote : Remote) (wrapping : Wrapping) (pods : Pods) {entry : Text × ServerCase}
    {heap heap' : Heap} {not_ready not_ready' : GoMap Text Bool}
    → Visit fl remote wrapping pods entry heap not_ready heap' not_ready'
    → OnlyContainers heap heap'
Visit-OnlyContainers fl remote wrapping pods {heap = heap} (pass _ same _) =
    subst (OnlyContainers heap) (sym same) (OnlyContainers-refl heap)
Visit-OnlyContainers fl remote wrapping pods {entry = entry} {heap = heap} {heap' = heap'}
      (probe _ run _) =
    CaseRun-OnlyContainers fl remote wrapping pods entry.1 heap heap' run
