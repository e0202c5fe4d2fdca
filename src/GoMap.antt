-- ===== src/GoMap.antt =====
-- Go's built-in maps: a list of entries. `insert` is `m[k] = v`, `lookup` is `v, ok := m[k]`.
-- `range` visits the entries in an order that Go leaves open.
use k8s_service_validator.Prelude.{
  ◌≡◌, refl, Option, none, some, List, [], ◌∷◌, arith, Eq, ◌==◌, eq_iff, if◌then◌else◌, length, ap,
  inl, inr, Bool-cases,
}
use k8s_service_validator.Prelude.Elem.{Elem, here, there}

abbrev pub GoMap {ℓ κ} : Type ℓ → Type κ → Type (ℓ ⊔ κ)
GoMap K V = List (K × V)

module _ {ℓ κ} {K : Type ℓ} {V : Type κ} ⦃e : Eq K⦄ where
  unfoldable pub lookup : K → GoMap K V → Option V
  lookup k [] = none
  lookup k ((i, w) ∷ m) = if i == k then some w else lookup k m

  unfoldable pub insert : K → V → GoMap K V → GoMap K V
  insert k v [] = (k, v) ∷ []
  insert k v (entry ∷ m) = if entry.0 == k then (k, v) ∷ m else entry ∷ insert k v m

  unfoldable pub delete : K → GoMap K V → GoMap K V
  delete k [] = []
  delete k (entry ∷ m) = if entry.0 == k then delete k m else entry ∷ delete k m

  -- No key stands twice.
  abbrev pub IsMap : GoMap K V → Type κ
  IsMap [] = Unit
  IsMap ((k, v) ∷ m) = (lookup k m ≡ none) × IsMap m

  pub lookup-insert :
      (i k : K) (v : V) (m : GoMap K V)
      → lookup i (insert k v m) ≡ (if k == i then some v else lookup i m)
  unfolding lookup insert
  lookup-insert i k v [] = refl
  lookup-insert i k v ((j, w) ∷ m) =
      ground (arith, eq_iff k i, eq_iff j k, eq_iff j i, lookup-insert i k v m)

  pub lookup-delete :
      (i k : K) (m : GoMap K V) → lookup i (delete k m) ≡ (if k == i then none else lookup i m)
  unfolding lookup delete
  lookup-delete i k [] = ground arith
  lookup-delete i k ((j, w) ∷ m) =
      ground (arith, eq_iff k i, eq_iff j k, eq_iff j i, lookup-delete i k m)

  pub insert-IsMap : (k : K) (v : V) (m : GoMap K V) → IsMap m → IsMap (insert k v m)
  unfolding insert
  insert-IsMap k v [] h = (unfold lookup in refl, tt)
  insert-IsMap k v ((j, w) ∷ m) (fresh, h) =
      ground (arith, eq_iff j k, eq_iff k j, lookup-insert j k v m, insert-IsMap k v m h)

  pub delete-IsMap : (k : K) (m : GoMap K V) → IsMap m → IsMap (delete k m)
  unfolding delete
  delete-IsMap k [] h = tt
  delete-IsMap k ((j, w) ∷ m) (fresh, h) =
      ground (arith, eq_iff j k, eq_iff k j, lookup-delete j k m, delete-IsMap k m h)

module _ {K V : Type 0} ⦃e : Eq K⦄ where
  -- The entries that a `range` visits, in one of the orders that Go leaves open.
  pub record IsRange (order m : GoMap K V) : Type 0 where
    pub sound : (k : K) (v : V) → Elem (k, v) order → lookup k m ≡ some v
    pub complete : (k : K) (v : V) → lookup k m ≡ some v → Elem (k, v) order
    pub once : length order ≡ length m

  -- The entries in the order in which they are kept.
  pub lookup-Elem : (k : K) (v : V) (m : GoMap K V) → lookup k m ≡ some v → Elem (k, v) m
  unfolding lookup
  lookup-Elem k v [] h = absurd (cc)
  lookup-Elem k v ((j, w) ∷ m) h = elim (Bool-cases (j == k)) [
    | inl same ↦ here (ground (arith, eq_iff j k))
    | inr other ↦ there (lookup-Elem k v m (ground arith))
  ]

  Elem-lookup : (k : K) (v : V) (m : GoMap K V) → IsMap m → Elem (k, v) m → lookup k m ≡ some v
  unfolding lookup
  Elem-lookup k v [] h at = elim at [ ]
  Elem-lookup k v ((j, w) ∷ m) (fresh, h) (here at) =
      ground (arith, eq_iff j k, ap (λ (p : K × V). p.0) at, ap (λ (p : K × V). p.1) at)
  Elem-lookup k v ((j, w) ∷ m) (fresh, h) (there at) =
      ground (arith, eq_iff j k, Elem-lookup k v m h at)

  pub IsRange-refl : (m : GoMap K V) → IsMap m → IsRange m m
  IsRange-refl m h = record {
    sound = λ k v at. Elem-lookup k v m h at;
    complete = λ k v at. lookup-Elem k v m at;
    once = refl;
  }
