-- ===== src/Prelude/Classes.antt =====
-- Go's `==` on comparable types, as an interface, and membership by it.
use Prim.Native.Nat.{ℕ}
use mathlib.Core.Path.{◌≡◌, refl}
use mathlib.Core.Logic.{◌↔◌}
use mathlib.Core.Bool.{Bool, true, false, ◌&&◌, ◌||◌}
use mathlib.Core.List.{List, [], ◌∷◌}
use native.Mathlib.Omega.{arith}
use k8s_service_validator.Prelude.Tests.{nat_beq, nat_beq_iff}

pub record Eq {ℓ} (T : Type ℓ) : Type ℓ where
  pub equal : T → T → Bool
  pub equal_iff : (a b : T) → (equal a b ≡ true) ↔ (a ≡ b)

infix 45 ◌==◌
abbrev pub ◌==◌ {ℓ} : {T : Type ℓ} ⦃e : Eq T⦄ → T → T → Bool
◌==◌ ⦃e⦄ = e.equal

pub eq_iff {ℓ} : {T : Type ℓ} ⦃e : Eq T⦄ (a b : T) → ((a == b) ≡ true) ↔ (a ≡ b)
eq_iff ⦃e⦄ = e.equal_iff

pub eq_refl {ℓ} : {T : Type ℓ} ⦃e : Eq T⦄ (a : T) → (a == a) ≡ true
eq_refl a = (eq_iff a a).1 refl

instance abbrev pub nat_eq : Eq ℕ
nat_eq = record { equal = nat_beq; equal_iff = nat_beq_iff }

module _ {ℓ} {T : Type ℓ} ⦃e : Eq T⦄ where
  unfoldable pub list_beq : List T → List T → Bool
  list_beq [] [] = true
  list_beq (a ∷ as') (b ∷ bs) = a == b && list_beq as' bs
  list_beq _ _ = false

  pub list_beq_iff : (xs ys : List T) → (list_beq xs ys ≡ true) ↔ (xs ≡ ys)
  unfolding list_beq
  list_beq_iff [] [] = ground arith
  list_beq_iff [] (y ∷ ys) = ground arith
  list_beq_iff (x ∷ xs) [] = ground arith
  list_beq_iff (x ∷ xs) (y ∷ ys) = ground (arith, e.equal_iff x y, list_beq_iff xs ys)

  -- `item == value` for some item of the slice.
  unfoldable pub contains : T → List T → Bool
  contains a [] = false
  contains a (x ∷ xs) = x == a || contains a xs

instance abbrev pub list_eq {ℓ} : {T : Type ℓ} ⦃e : Eq T⦄ → Eq (List T)
list_eq = record { equal = list_beq; equal_iff = list_beq_iff }
