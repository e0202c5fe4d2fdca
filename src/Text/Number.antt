-- ===== src/Text/Number.antt =====
-- `strconv.Itoa` and `%d` on numbers that are not negative, and their inverse.
use k8s_service_validator.Prelude.{
  ℕ, zero, suc, ◌+◌, ◌-◌, ◌*◌, ◌/◌, ◌%◌, ◌≤◌, ◌<◌, ◌≡◌, refl, sym, ap, ◌∙◌, [], ◌∷◌, ◌++◌, arith,
  ltb, if◌then◌else◌, All, All-append,
}
use mathlib.Core.List.{foldl, foldl-append}
use k8s_service_validator.Text.Split.{Text, codes}

-- The digits of `n`, the last one last; a number below 10 is its own digit.
unfoldable digits : ℕ → ℕ → Text
digits zero n = []
digits (suc fuel) n =
    let front = digits fuel (n / 10) in
    if ltb n 10 then (b'0' + n) ∷ [] else front ++ ((b'0' + n % 10) ∷ [])

-- Each digit divides the number by ten, so `n + 1` rounds are enough.
unfoldable pub itoa : ℕ → Text
unfolding digits
itoa n = digits (suc n) n

abbrev shift : ℕ → ℕ → ℕ
shift n c = n * 10 + (c - b'0')

-- The number that decimal digits spell.
unfoldable pub value : Text → ℕ
value s = foldl shift 0 s

value_digits : (fuel n : ℕ) → n < fuel → foldl shift 0 (digits fuel n) ≡ n
unfolding digits
value_digits zero n h = elim h [ ]
value_digits (suc fuel) n h = ground (
  arith,
  value_digits fuel (n / 10),
  foldl-append shift 0 (digits fuel (n / 10)) ((b'0' + n % 10) ∷ []),
)

-- A printed number is read back.
value-itoa : (n : ℕ) → value (itoa n) ≡ n
unfolding value itoa
value-itoa n = value_digits (suc n) n (omega arith)

-- Two numbers with one print are equal.
pub itoa-injective : {a b : ℕ} → itoa a ≡ itoa b → a ≡ b
itoa-injective {a} {b} h = sym (value-itoa a) ∙ (ap value h ∙ value-itoa b)

abbrev pub IsDigit : ℕ → Type 0
IsDigit c = (b'0' ≤ c) × (c ≤ b'9')

digits-IsDigit : (fuel n : ℕ) → All IsDigit (digits fuel n)
unfolding digits
digits-IsDigit zero n = tt
digits-IsDigit (suc fuel) n = ground (
  arith,
  digits-IsDigit fuel (n / 10),
  All-append IsDigit (digits fuel (n / 10)) ((b'0' + n % 10) ∷ []),
)

pub itoa-IsDigit : (n : ℕ) → All IsDigit (itoa n)
unfolding itoa
itoa-IsDigit n = digits-IsDigit (suc n) n

itoa_port : itoa 8080 ≡ codes "8080"
unfolding itoa
itoa_port = refl
