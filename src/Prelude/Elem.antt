-- ===== src/Prelude/Elem.antt =====
-- Membership in a list, with its place.
use mathlib.Core.Path.{◌≡◌, refl, subst, ap}
use mathlib.Core.Logic.{◌⊎◌, inl, inr}
use mathlib.Core.List.{List, [], ◌∷◌, ◌++◌, map}
use k8s_service_validator.Prelude.Lists.{All}

pub data Elem {A : Type 0} (a : A) : List A → Type 0 where
  here : {x : A} {xs : List A} → x ≡ a → Elem a (x ∷ xs)
  there : {x : A} {xs : List A} → Elem a xs → Elem a (x ∷ xs)

module _ {A : Type 0} where
  pub Elem-left : {a : A} (xs ys : List A) → Elem a xs → Elem a (xs ++ ys)
  Elem-left [] ys e = elim e [ ]
  Elem-left (x ∷ xs) ys (here h) = here h
  Elem-left (x ∷ xs) ys (there e) = there (Elem-left xs ys e)

  pub Elem-right : {a : A} (xs ys : List A) → Elem a ys → Elem a (xs ++ ys)
  Elem-right [] ys e = e
  Elem-right (x ∷ xs) ys e = there (Elem-right xs ys e)

  pub Elem-append : {a : A} (xs ys : List A) → Elem a (xs ++ ys) → Elem a xs ⊎ Elem a ys
  Elem-append [] ys e = inr e
  Elem-append (x ∷ xs) ys (here h) = inl (here h)
  Elem-append (x ∷ xs) ys (there e) = elim (Elem-append xs ys e) [
    | inl l ↦ inl (there l)
    | inr r ↦ inr r
  ]

  pub Elem-cons : {a x : A} {xs : List A} → Elem a (x ∷ xs) → (x ≡ a) ⊎ Elem a xs
  Elem-cons (here h) = inl h
  Elem-cons (there e) = inr e

  pub not-Elem-nil : {a : A} → ¬ Elem a []
  not-Elem-nil e = elim e [ ]

  -- An element of a list with a gap filled is the filling or stands around the gap.
  pub Elem-around :
      {a : A} (xs ys : List A) (x : A) → Elem a (xs ++ x ∷ ys) → (x ≡ a) ⊎ Elem a (xs ++ ys)
  Elem-around [] ys x e = Elem-cons e
  Elem-around (y ∷ xs) ys x (here h) = inr (here h)
  Elem-around (y ∷ xs) ys x (there e) = elim (Elem-around xs ys x e) [
    | inl h ↦ inl h
    | inr r ↦ inr (there r)
  ]

  pub Elem-widen : {a : A} (xs ys : List A) (x : A) → Elem a (xs ++ ys) → Elem a (xs ++ x ∷ ys)
  Elem-widen [] ys x e = there e
  Elem-widen (y ∷ xs) ys x (here h) = here h
  Elem-widen (y ∷ xs) ys x (there e) = there (Elem-widen xs ys x e)

  pub All-Elem {κ} : (P : A → Type κ) {a : A} (xs : List A) → All P xs → Elem a xs → P a
  All-Elem P [] h e = elim e [ ]
  All-Elem P (x ∷ xs) (p, h) (here e) = subst P e p
  All-Elem P (x ∷ xs) (p, h) (there e) = All-Elem P xs h e

  pub Elem-All {κ} : (P : A → Type κ) (xs : List A) → ((a : A) → Elem a xs → P a) → All P xs
  Elem-All P [] h = tt
  Elem-All P (x ∷ xs) h = (h x (here refl), Elem-All P xs (λ a at. h a (there at)))

module _ {A B : Type 0} (f : A → B) where
  pub Elem-map : {a : A} (xs : List A) → Elem a xs → Elem (f a) (map f xs)
  Elem-map [] e = elim e [ ]
  Elem-map (x ∷ xs) (here e) = here (ap f e)
  Elem-map (x ∷ xs) (there e) = there (Elem-map xs e)

  -- What a map holds comes from an element.
  pub Elem-map_inv : {b : B} (xs : List A) → Elem b (map f xs) → (a : A) × Elem a xs × (f a ≡ b)
  Elem-map_inv [] e = elim e [ ]
  Elem-map_inv (x ∷ xs) (here e) = (x, here refl, e)
  Elem-map_inv (x ∷ xs) (there e) = let (a, at, h) = Elem-map_inv xs e in (a, there at, h)
