-- ===== src/Text/Search.antt =====
-- `strings.Index`, `strings.Contains`, `strings.ToLower` and `strings.TrimSpace` on bytes.
use k8s_service_validator.Prelude.{
  ℕ, suc, ◌+◌, ◌≡◌, refl, ap, ◌∙◌, ◌++◌, eq_iff, length, Bool-cases, Option-cases, inl, inr, arith,
  Bool, true, false, ◌&&◌, ◌||◌, Option, none, some, [], ◌∷◌, ◌==◌, nat_eq, leb, map, if◌then◌else◌,
}
use mathlib.Core.List.{reverse}
use mathlib.Core.Option
use k8s_service_validator.Text.Split.{Text, codes}

unfoldable starts_with : Text → Text → Bool
starts_with s [] = true
starts_with [] (p ∷ ps) = false
starts_with (c ∷ s) (p ∷ ps) = c == p && starts_with s ps

-- The first position at which `sub` stands in `s`; Go's -1 is `none`.
unfoldable pub index : Text → Text → Option ℕ
unfolding starts_with
index [] sub = if starts_with [] sub then some 0 else none
index (c ∷ s) sub = if starts_with (c ∷ s) sub then some 0 else Option.map suc (index s sub)

starts_with-true : (s sub : Text) → starts_with s sub ≡ true → (rest : Text) × (s ≡ sub ++ rest)
unfolding starts_with
starts_with-true s [] h = (s, refl)
starts_with-true [] (p ∷ ps) h = absurd (cc)
starts_with-true (c ∷ s) (p ∷ ps) h =
    let (rest, e) = starts_with-true s ps (ground arith) in
    let same : c ≡ p = ground (arith, eq_iff c p) in
    (rest, ap (λ t. c ∷ t) e ∙ ap (λ d. d ∷ (ps ++ rest)) same)

-- What is found stands at its place.
pub index-some :
    (s sub : Text) (i : ℕ)
    → index s sub ≡ some i
    → (before : Text) × (rest : Text) × (s ≡ before ++ (sub ++ rest)) × (length before ≡ i)
unfolding index
index-some [] sub i h = elim (Bool-cases (starts_with [] sub)) [
  | inl here ↦ let (rest, e) = starts_with-true [] sub here in ([], rest, e, ground arith)
  | inr there ↦ absurd (ground arith)
]
index-some (c ∷ s) sub i h = elim (Bool-cases (starts_with (c ∷ s) sub)) [
  | inl here ↦ let (rest, e) = starts_with-true (c ∷ s) sub here in ([], rest, e, ground arith)
  | inr there ↦ elim (Option-cases (index s sub)) [
    | inl absent ↦ absurd (ground arith)
    | inr (j, found) ↦
        let (before, rest, e, at) = index-some s sub j found in
        (c ∷ before, rest, ap (λ t. c ∷ t) e, ground arith)
  ]
]

unfoldable pub contains_text : Text → Text → Bool
unfolding index
contains_text s sub = elim (index s sub) [ none ↦ false | some _ ↦ true ]

lower : ℕ → ℕ
lower c = if leb b'A' c && leb c b'Z' then c + 32 else c

unfoldable pub to_lower : Text → Text
unfolding lower
to_lower s = map lower s

-- ASCII white space: tab, line feed, vertical tab, form feed, carriage return, space.
is_space : ℕ → Bool
is_space c = c == 32 || (leb 9 c && leb c 13)

trim_left : Text → Text
trim_left [] = []
trim_left (c ∷ s) = if is_space c then trim_left s else c ∷ s

unfoldable pub trim_space : Text → Text
unfolding trim_left is_space
trim_space s = reverse (trim_left (reverse (trim_left s)))

trim_example : trim_space (codes " pod-1\n") ≡ codes "pod-1"
unfolding trim_space
trim_example = refl

index_example : index (codes "a PASS tests") (codes "PASS") ≡ some 2
unfolding index
index_example = refl

to_lower_example : to_lower (codes "TCP") ≡ codes "tcp"
unfolding to_lower
to_lower_example = refl
