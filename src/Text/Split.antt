-- ===== src/Text/Split.antt =====
-- Literals, `strings.Split` at a separator of one byte, and `strings.Join`.
use Prim.Native.Char.{code}
use Prim.Native.String.{String}
use k8s_service_validator.Prelude.{
  ℕ, ◌≡◌, ◌≢◌, refl, ap, ◌∙◌, List, [], ◌∷◌, ◌++◌, arith, ◌==◌, nat_eq, list_eq, Eq, All,
  Bool-cases, inl, inr, eq_iff, sym, if◌then◌else◌,
}

abbrev pub Text : Type 0
Text = List ℕ

-- The bytes of an ASCII literal.
abbrev pub codes : String → Text
codes String.[] = []
codes (String.◌∷◌ c s) = code c ∷ codes s

instance abbrev pub text_eq : Eq Text
text_eq = list_eq

abbrev pub Lacks : ℕ → Text → Type 0
Lacks b = All (λ c. c ≢ b)

-- One more byte in front of the first part.
abbrev push : ℕ → List Text → List Text
push c [] = (c ∷ []) ∷ []
push c (part ∷ parts) = (c ∷ part) ∷ parts

unfoldable pub split : ℕ → Text → List Text
split sep [] = [] ∷ []
split sep (c ∷ s) = if c == sep then [] ∷ split sep s else push c (split sep s)

unfoldable pub join : Text → List Text → Text
join sep [] = []
join sep (p ∷ []) = p
join sep (p ∷ q ∷ ps) = p ++ (sep ++ join sep (q ∷ ps))

pub split-ne-nil : (sep : ℕ) (s : Text) → split sep s ≢ []
unfolding split
split-ne-nil sep [] e = cc
split-ne-nil sep (c ∷ s) e =
    elim (split sep s) as (λ parts. (if c == sep then [] ∷ parts else push c parts) ≢ []) [
      | [] ↦ λ h. ground arith
      | p ∷ ps ↦ λ h. ground arith
    ]
      e

-- The text up to a separator is the first part.
pub split-append : (sep : ℕ) (a b : Text) → Lacks sep a → split sep (a ++ sep ∷ b) ≡ a ∷ split sep b
unfolding split
split-append sep [] b h = ground arith
split-append sep (c ∷ a) b (hc, ha) = ground (arith, split-append sep a b ha)

-- A text with no separator is one part.
pub split_whole : (sep : ℕ) (a : Text) → Lacks sep a → split sep a ≡ a ∷ []
unfolding split
split_whole sep [] h = refl
split_whole sep (c ∷ a) (hc, ha) = ground (arith, split_whole sep a ha)

-- Splitting what was joined by one byte gives the parts back, unless one of them holds it.
pub split-join :
    (sep : ℕ) (p : Text) (ps : List Text)
    → All (Lacks sep) (p ∷ ps)
    → split sep (join (sep ∷ []) (p ∷ ps)) ≡ p ∷ ps
unfolding join
split-join sep p [] (hp, _) = split_whole sep p hp
split-join sep p (q ∷ ps) (hp, h) =
    split-append sep p (join (sep ∷ []) (q ∷ ps)) hp ∙ ap (λ l. p ∷ l) (split-join sep q ps h)

join-push :
    (sep c : ℕ) (parts : List Text)
    → parts ≢ []
    → join (sep ∷ []) (push c parts) ≡ c ∷ join (sep ∷ []) parts
unfolding join
join-push sep c [] h = absurd (h refl)
join-push sep c (p ∷ []) h = refl
join-push sep c (p ∷ q ∷ ps) h = refl

-- Joining the parts of a text gives it back.
pub join-split : (sep : ℕ) (s : Text) → join (sep ∷ []) (split sep s) ≡ s
unfolding split join
join-split sep [] = refl
join-split sep (c ∷ s) = elim (Bool-cases (c == sep)) [
  | inl here ↦ rw here (
      join-cons sep (split sep s) (split-ne-nil sep s)
      ∙ (ap (λ t. sep ∷ t) (join-split sep s) ∙ ap (λ b. b ∷ s) (sym ((eq_iff c sep).0 here))))
  | inr there ↦
      rw there
        (join-push sep c (split sep s) (split-ne-nil sep s) ∙ ap (λ t. c ∷ t) (join-split sep s))
]
  where
    join-cons :
        (sep : ℕ) (parts : List Text)
        → parts ≢ []
        → join (sep ∷ []) ([] ∷ parts) ≡ sep ∷ join (sep ∷ []) parts
    join-cons sep [] h = absurd (h refl)
    join-cons sep (p ∷ ps) h = refl

push-Lacks :
    (sep c : ℕ) (parts : List Text)
    → c ≢ sep
    → All (Lacks sep) parts
    → All (Lacks sep) (push c parts)
push-Lacks sep c [] h parts = ((h, tt), tt)
push-Lacks sep c (p ∷ ps) h (hp, hps) = ((h, hp), hps)

-- No part of a text holds the separator.
pub split-Lacks : (sep : ℕ) (s : Text) → All (Lacks sep) (split sep s)
unfolding split
split-Lacks sep [] = (tt, tt)
split-Lacks sep (c ∷ s) = elim (Bool-cases (c == sep)) [
  | inl here ↦ rw here (tt, split-Lacks sep s)
  | inr there ↦
      rw there
        (push-Lacks sep c (split sep s) (λ e. ground (arith, eq_iff c sep)) (split-Lacks sep s))
]
