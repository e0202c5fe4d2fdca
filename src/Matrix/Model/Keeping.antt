-- ===== src/Matrix/Model/Keeping.antt =====
-- `RemovePod` on a model of one namespace whose pods have names of their own, and whose cache has
-- the same pods: it is a filter.
use k8s_service_validator.Prelude.{
  Bool, not, List, [], ◌∷◌, ◌++◌, ◌≡◌, ◌≢◌, ◌⊎◌, inl, inr, refl, subst, some, arith, eq_iff,
  Bool-cases, ◌==◌, keep,
}
use k8s_service_validator.Outcome.{ok}
use k8s_service_validator.Text.{Text, text_eq}
use k8s_service_validator.Entities.Namespace.{Namespace}
use k8s_service_validator.Matrix.Reachability.{Ref, Heap}
use k8s_service_validator.Matrix.Model.{Model}
use k8s_service_validator.Matrix.Model.Remove.{Removal, removed, failed, remove_pod, find_last}
use k8s_service_validator.Matrix.Model.Removed.{
  OtherNames, remove_from_namespace-others, remove_from_cache-others,
}
use k8s_service_validator.Matrix.Model.Removing.{remove_pod_lem}

-- The one namespace of a model, with these pods, which are in the cache too.
abbrev pub holding : Model → Namespace Ref → List Ref → Model
holding m ns pods = record m { namespaces = (record ns { pods = pods }) ∷ []; pods = some pods }

module _ (heap : Heap) where
  abbrev pub UniqueNames : List Ref → Type 0
  UniqueNames [] = Unit {0}
  UniqueNames (p ∷ ps) = OtherNames heap (heap p).name ps × UniqueNames ps

  abbrev pub has_other_name : Text → Ref → Bool
  has_other_name name p = not ((heap p).name == name)

  record Around (name : Text) (ps : List Ref) : Type 0 where
    pub before : List Ref
    pub after : List Ref
    pub pod : Ref
    pub whole : ps ≡ before ++ (pod ∷ after)
    pub named : (heap pod).name ≡ name
    pub others_before : OtherNames heap name before
    pub others_after : OtherNames heap name after

  named_or_others :
      (name : Text) (ps : List Ref) → UniqueNames ps → OtherNames heap name ps ⊎ Around name ps
  named_or_others name [] u = inl tt
  named_or_others name (p ∷ ps) (others, u) = elim (Bool-cases ((heap p).name == name)) [
    | inl this ↦
        let same = (eq_iff (heap p).name name).0 this in
        inr (record {
          before = [];
          after = ps;
          pod = p;
          whole = refl;
          named = same;
          others_before = tt;
          others_after = subst (λ n. OtherNames heap n ps) same others;
        })
    | inr other ↦
        let differs : (heap p).name ≢ name = λ e. ground (arith, eq_iff (heap p).name name) in
        elim (named_or_others name ps u) [
          | inl none_named ↦ inl (differs, none_named)
          | inr found ↦ inr (record {
            before = p ∷ found.before;
            after = found.after;
            pod = found.pod;
            whole = rw found.whole refl;
            named = found.named;
            others_before = (differs, found.others_before);
            others_after = found.others_after;
          })
        ]
  ]

  keep-others :
      (name : Text) (ps : List Ref) → OtherNames heap name ps → keep (has_other_name name) ps ≡ ps
  keep-others name [] h = refl
  keep-others name (p ∷ ps) (hp, h) =
      ground (arith, eq_iff (heap p).name name, keep-others name ps h)

  keep_around :
      (name : Text) (xs ys : List Ref) (p : Ref)
      → (heap p).name ≡ name
      → OtherNames heap name xs
      → OtherNames heap name ys
      → keep (has_other_name name) (xs ++ (p ∷ ys)) ≡ xs ++ ys
  keep_around name [] ys p named hx hy =
      ground (arith, eq_iff (heap p).name name, keep-others name ys hy)
  keep_around name (x ∷ xs) ys p named (hd, hx) hy =
      ground (arith, eq_iff (heap x).name name, keep_around name xs ys p named hx hy)

  OtherNames-keep :
      (f : Ref → Bool) (name : Text) (ps : List Ref)
      → OtherNames heap name ps
      → OtherNames heap name (keep f ps)
  OtherNames-keep f name [] h = tt
  OtherNames-keep f name (p ∷ ps) (hp, h) = elim (Bool-cases (f p)) [
    | inl kept ↦ rw (kept, keep) (hp, OtherNames-keep f name ps h)
    | inr left ↦ rw (left, keep) (OtherNames-keep f name ps h)
  ]

  pub UniqueNames-keep : (f : Ref → Bool) (ps : List Ref) → UniqueNames ps → UniqueNames (keep f ps)
  UniqueNames-keep f [] u = tt
  UniqueNames-keep f (p ∷ ps) (others, u) = elim (Bool-cases (f p)) [
    | inl kept ↦
        rw (kept, keep, UniqueNames)
          (OtherNames-keep f (heap p).name ps others, UniqueNames-keep f ps u)
    | inr left ↦ rw (left, keep, UniqueNames) (UniqueNames-keep f ps u)
  ]

  remove_pod-others :
      (name : Text) (m : Model) (ns : Namespace Ref) (ps : List Ref)
      → OtherNames heap name ps
      → remove_pod heap name ns.name (holding m ns ps) ≡ ok (failed, holding m ns ps)
  unfolding remove_pod find_last
  remove_pod-others name m ns ps h = ground (
    arith,
    eq_iff ns.name ns.name,
    remove_from_namespace-others heap name ps h,
    remove_from_cache-others heap name ps h,
  )

  -- If the pods have different names, `RemovePod` keeps those of other names, in the namespace and
  -- in the cache.
  pub remove_pod-keep :
      (name : Text) (m : Model) (ns : Namespace Ref) (ps : List Ref)
      → UniqueNames ps
      → (r : Removal) × (remove_pod heap name ns.name (holding m ns ps)
          ≡ ok (r, holding m ns (keep (has_other_name name) ps)))
  remove_pod-keep name m ns ps u = elim (named_or_others name ps u) [
    | inl others ↦ (failed, rw (keep-others name ps others) (remove_pod-others name m ns ps others))
    | inr a ↦ (
      removed,
      rw a.whole (
          rw (keep_around name a.before a.after a.pod a.named a.others_before a.others_after) (
            remove_pod_lem heap name ns.name (holding m ns (a.before ++ (a.pod ∷ a.after))) [] []
              (record ns { pods = a.before ++ (a.pod ∷ a.after) }) a.before a.after a.before a.after
              a.pod a.pod refl refl tt refl a.named a.others_before a.others_after refl a.named
              a.others_before)),
    )
  ]
