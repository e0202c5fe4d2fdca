-- ===== src/Matrix/Probe/Filled.antt =====
-- What a probe can change: a container of the source pod that has no name gets one.
use k8s_service_validator.Prelude.{
  ◌≢◌, ℕ, List, is_empty, false, [], ◌∷◌, ◌≡◌, refl, ap, ◌∙◌, sym, subst, nat_eq, arith, inl, inr,
  eq_iff, Bool-cases, ◌==◌,
}
use k8s_service_validator.Outcome.{ok}
use k8s_service_validator.Text.{Text, text_eq}
use k8s_service_validator.Entities.Container.{Container, get_name}
use k8s_service_validator.Entities.Pod.{Pod, pod_string}
use k8s_service_validator.Matrix.Reachability.{Ref, Heap}
use k8s_service_validator.Matrix.Probe.{first_name, update, first_container_name}

-- The containers are the same, but that those without a name may have got one.
abbrev pub NamesFilled : List Container → List Container → Type 0
NamesFilled [] [] = Unit {0}
NamesFilled [] (_ ∷ _) = ⊥
NamesFilled (_ ∷ _) [] = ⊥
NamesFilled (c ∷ cs) (d ∷ ds) =
    (d ≡ record c { name = d.name }) × (c.name ≢ [] → d.name ≡ c.name) × NamesFilled cs ds

NamesFilled-refl : (cs : List Container) → NamesFilled cs cs
NamesFilled-refl [] = tt
NamesFilled-refl (c ∷ cs) = (refl, λ named. refl, NamesFilled-refl cs)

NamesFilled-trans :
    (xs ys zs : List Container) → NamesFilled xs ys → NamesFilled ys zs → NamesFilled xs zs
NamesFilled-trans [] [] [] h k = tt
NamesFilled-trans [] [] (_ ∷ _) h k = absurd k
NamesFilled-trans [] (_ ∷ _) zs h k = absurd h
NamesFilled-trans (_ ∷ _) [] zs h k = absurd h
NamesFilled-trans (_ ∷ _) (_ ∷ _) [] h k = absurd k
NamesFilled-trans (a ∷ xs) (b ∷ ys) (c ∷ zs) (hb, hn, h) (kc, kn, k) = (
  kc ∙ ap (λ (d : Container). record d { name = c.name }) hb,
  λ named. (let same = hn named in kn (λ e. named (sym same ∙ e)) ∙ same),
  NamesFilled-trans xs ys zs h k,
)

-- What a probe does to the heap: it may give a name to a container that has none, and nothing else.
abbrev pub OnlyContainers : Heap → Heap → Type 0
OnlyContainers heap heap' =
    (p : Ref)
    → (heap' p ≡ record (heap p) { containers = (heap' p).containers })
      × (is_empty (heap' p).containers ≡ is_empty (heap p).containers)
      × NamesFilled (heap p).containers (heap' p).containers

pub OnlyContainers-refl : (heap : Heap) → OnlyContainers heap heap
OnlyContainers-refl heap p = (refl, refl, NamesFilled-refl (heap p).containers)

pub OnlyContainers-trans :
    (a b c : Heap) → OnlyContainers a b → OnlyContainers b c → OnlyContainers a c
OnlyContainers-trans a b c h k p = (
  (k p).0 ∙ ap (λ (q : Pod). record q { containers = (c p).containers }) (h p).0,
  (k p).1 ∙ (h p).1,
  NamesFilled-trans (a p).containers (b p).containers (c p).containers (h p).2 (k p).2,
)

-- So each pod keeps its name in the tables.
pub pod_string-OnlyContainers :
    (heap heap' : Heap) (p : Ref)
    → OnlyContainers heap heap'
    → pod_string (heap' p) ≡ pod_string (heap p)
unfolding pod_string
pod_string-OnlyContainers heap heap' p h = ap pod_string (h p).0

get_name-NamesFilled :
    (random : ℕ) (c : Container) (cs : List Container)
    → NamesFilled (c ∷ cs) ((get_name random c).1 ∷ cs)
unfolding get_name
get_name-NamesFilled random c cs = (
  ground (arith, eq_iff c.name []),
  λ named. ground (arith, eq_iff c.name []),
  NamesFilled-refl cs,
)

update-OnlyContainers :
    (heap : Heap) (from : Ref) (c : Container) (cs : List Container)
    → NamesFilled (heap from).containers (c ∷ cs)
    → is_empty (heap from).containers ≡ false
    → OnlyContainers heap (update heap from (record (heap from) { containers = c ∷ cs }))
update-OnlyContainers heap from c cs filled populated p = elim (Bool-cases (from == p)) [
  | inl here ↦
      let same : from ≡ p = (eq_iff from p).0 here in
      rw here (
        ap (λ (q : Ref). record (heap q) { containers = c ∷ cs }) same,
        sym (ap (λ (q : Ref). is_empty (heap q).containers) (sym same) ∙ populated),
        subst (λ q. NamesFilled (heap q).containers (c ∷ cs)) same filled,
      )
  | inr there ↦ rw there (refl, refl, NamesFilled-refl (heap p).containers)
]

pub first_container_name-OnlyContainers :
    (random : ℕ) (from : Ref) (heap heap' : Heap) (name : Text)
    → first_container_name random from heap ≡ ok (name, heap')
    → OnlyContainers heap heap'
unfolding first_container_name
first_container_name-OnlyContainers random from heap heap' name e = go (heap from).containers refl e
  where
    go :
        (cs : List Container)
        → (heap from).containers ≡ cs
        → first_name random from cs heap ≡ ok (name, heap')
        → OnlyContainers heap heap'
    go [] _ e' = absurd (cc)
    go (c ∷ cs) has e' =
        let changed : update heap from
              (record (heap from) { containers = (get_name random c).1 ∷ cs })
            ≡ heap' =
          cc in
        subst (OnlyContainers heap) changed (
          update-OnlyContainers heap from (get_name random c).1 cs
            (subst (λ l. NamesFilled l ((get_name random c).1 ∷ cs)) (sym has)
              (get_name-NamesFilled random c cs))
            (rw has))
