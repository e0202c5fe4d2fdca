-- ===== src/Outcome.antt =====
-- What a call in Go can do besides returning: the run-time panics that the program can meet, and
-- those that it raises itself.
use k8s_service_validator.Prelude.{ℕ, List, ◌≡◌, refl, ◌⊎◌, inl, inr}

pub data Panic : Type 0 where
  nil_map_write nil_dereference index_out_of_range slice_out_of_range : Panic
  -- `panic` with a message.
  raised : List ℕ → Panic

pub data Outcome {ℓ} (R : Type ℓ) : Type ℓ where
  ok : R → Outcome R
  panic : Panic → Outcome R

infixl 5 ◌>>=◌ ◌>>◌
abbrev pub ◌>>=◌ {ℓ κ} : {R : Type ℓ} {S : Type κ} → Outcome R → (R → Outcome S) → Outcome S
ok result >>= next = next result
panic reason >>= next = panic reason

abbrev ◌>>◌ {ℓ κ} : {R : Type ℓ} {S : Type κ} → Outcome R → Outcome S → Outcome S
call >> n = call >>= λ _. n

pub >>=-eq-ok {ℓ κ} :
    {R : Type ℓ} {S : Type κ} (call : Outcome R) (next : R → Outcome S) {b : S}
    → (call >>= next) ≡ ok b
    → (a : R) × (call ≡ ok a) × (next a ≡ ok b)
>>=-eq-ok (ok a) next h = (a, refl, h)
>>=-eq-ok (panic p) next h = cc

pub Outcome-cases {ℓ} :
    {R : Type ℓ} (call : Outcome R) → ((a : R) × (call ≡ ok a)) ⊎ ((p : Panic) × (call ≡ panic p))
Outcome-cases (ok a) = inl (a, refl)
Outcome-cases (panic p) = inr (p, refl)
