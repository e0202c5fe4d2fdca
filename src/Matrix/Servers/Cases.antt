-- ===== src/Matrix/Servers/Cases.antt =====
-- The cases of `WaitForHTTPServers`: one for each port and protocol, since the names differ.
use k8s_service_validator.Prelude.{
  ℕ, ◌&&◌, ◌⊎◌, inl, inr, Bool-cases, Bool, true, List, [], ◌∷◌, ◌++◌, ◌≡◌, refl, sym, ap, ◌∙◌,
  Option, none, some, arith, ◌==◌, eq_iff, nat_eq, contains, if◌then◌else◌, append_assoc, All,
  All-append,
}
use mathlib.Core.List.{append_cancel_left}
use k8s_service_validator.Prelude.Elem.{Elem, here, there}
use k8s_service_validator.GoMap.{GoMap, lookup, insert, lookup-insert, IsMap, insert-IsMap}
use k8s_service_validator.Text.{
  Text, codes, text_eq, itoa, itoa-injective, itoa-IsDigit, IsDigit, Lacks, split, split-append,
}
use k8s_service_validator.Matrix.Servers.{
  ServerCase, from_port, case_name, cases_of_port, server_cases, all_not_ready,
}

digits-Lacks : (s : Text) → All IsDigit s → Lacks b',' s
digits-Lacks [] h = tt
digits-Lacks (c ∷ s) (hc, h) = (λ e. omega (arith, e), digits-Lacks s h)

abbrev front : ℕ → Text
front port = itoa from_port ++ (codes "->" ++ itoa port)

front-Lacks : (port : ℕ) → Lacks b',' (front port)
front-Lacks port =
    All-append _ (itoa from_port) (codes "->" ++ itoa port)
      (digits-Lacks (itoa from_port) (itoa-IsDigit from_port))
      (λ e. omega (arith, e), (λ e. omega (arith, e), digits-Lacks (itoa port) (itoa-IsDigit port)))

case_name_parts : (port : ℕ) (t : Text) → case_name port t ≡ front port ++ b',' ∷ t
unfolding case_name
case_name_parts port t = simp append_assoc

tail_cancel : {c : ℕ} {a b : Text} → c ∷ a ≡ c ∷ b → a ≡ b
tail_cancel h = cc

abbrev head_of : List Text → Text
head_of [] = []
head_of (p ∷ ps) = p

-- Two cases with one name are the same case.
case_name-injective : {p q : ℕ} {t u : Text} → case_name p t ≡ case_name q u → (p ≡ q) × (t ≡ u)
case_name-injective {p} {q} {t} {u} h =
    let whole = sym (case_name_parts p t) ∙ (h ∙ case_name_parts q u) in
    let fronts : front p ≡ front q = ap head_of (
      sym (split-append b',' (front p) t (front-Lacks p))
      ∙ (ap (split b',') whole ∙ split-append b',' (front q) u (front-Lacks q))) in
    let ports : p ≡ q =
      itoa-injective
        (append_cancel_left (codes "->") _ _ (append_cancel_left (itoa from_port) _ _ fronts)) in
    (
      ports,
      tail_cancel (append_cancel_left (front q) _ _ (ap (λ f. f ++ b',' ∷ t) (sym fronts) ∙ whole)),
    )

module _ (port p : ℕ) (t : Text) where
  lookup-cases_of_port :
      (protocols : List Text) (cases : GoMap Text ServerCase)
      → lookup (case_name p t) (cases_of_port port protocols cases)
        ≡ (if port == p && contains t protocols then some (p, t) else lookup (case_name p t) cases)
  unfolding cases_of_port contains
  lookup-cases_of_port [] cases = ground arith
  lookup-cases_of_port (protocol ∷ protocols) cases = ground (
    arith,
    lookup-cases_of_port protocols (insert (case_name port protocol) (port, protocol) cases),
    lookup-insert (case_name p t) (case_name port protocol) (port, protocol) cases,
    eq_iff (case_name port protocol) (case_name p t),
    case_name-injective {p = port} {q = p} {t = protocol} {u = t},
    eq_iff protocol t,
    ap (λ q. case_name q t),
  )

pub lookup-server_cases :
    (ports : List ℕ) (protocols : List Text) (cases : GoMap Text ServerCase) (p : ℕ) (t : Text)
    → lookup (case_name p t) (server_cases ports protocols cases) ≡ (
        if contains p ports && contains t protocols
        then some (p, t)
        else lookup (case_name p t) cases)
unfolding server_cases contains
lookup-server_cases [] protocols cases p t = refl
lookup-server_cases (port ∷ ports) protocols cases p t = ground (
  arith,
  lookup-server_cases ports protocols (cases_of_port port protocols cases) p t,
  lookup-cases_of_port port p t protocols cases,
)

cases_of_port-known :
    (port : ℕ) (protocols : List Text) (cases : GoMap Text ServerCase) (name : Text)
    (c : ServerCase)
    → lookup name (cases_of_port port protocols cases) ≡ some c
    → ((port ≡ c.0) × Elem c.1 protocols) ⊎ (lookup name cases ≡ some c)
unfolding cases_of_port
cases_of_port-known port [] cases name c h = inr h
cases_of_port-known port (protocol ∷ protocols) cases name c h =
    let before = insert (case_name port protocol) (port, protocol) cases in
    elim (cases_of_port-known port protocols before name c h) [
      | inl (same, at) ↦ inl (same, there at)
      | inr known ↦ elim (Bool-cases (case_name port protocol == name)) [
        | inl this ↦
            let is_new : (port, protocol) ≡ c =
              ground (arith, lookup-insert name (case_name port protocol) (port, protocol) cases) in
            inl (ap (λ d. d.0) is_new, here (ap (λ d. d.1) is_new))
        | inr other ↦
            inr
              (ground (arith, lookup-insert name (case_name port protocol) (port, protocol) cases))
      ]
    ]

-- A case is one of the ports with one of the protocols.
pub server_cases-known :
    (ports : List ℕ) (protocols : List Text) (cases : GoMap Text ServerCase) (name : Text)
    (c : ServerCase)
    → lookup name (server_cases ports protocols cases) ≡ some c
    → (Elem c.0 ports × Elem c.1 protocols) ⊎ (lookup name cases ≡ some c)
unfolding server_cases
server_cases-known [] protocols cases name c h = inr h
server_cases-known (port ∷ ports) protocols cases name c h =
    elim (server_cases-known ports protocols (cases_of_port port protocols cases) name c h) [
      | inl (at, at') ↦ inl (there at, at')
      | inr known ↦ elim (cases_of_port-known port protocols cases name c known) [
        | inl (same, at) ↦ inl (here same, at)
        | inr before ↦ inr before
      ]
    ]

pub server_cases-IsMap :
    (ports : List ℕ) (protocols : List Text) (cases : GoMap Text ServerCase)
    → IsMap cases
    → IsMap (server_cases ports protocols cases)
unfolding server_cases
server_cases-IsMap [] protocols cases h = h
server_cases-IsMap (port ∷ ports) protocols cases h =
    server_cases-IsMap ports protocols (cases_of_port port protocols cases) (row protocols cases h)
  where
    row :
        (protocols : List Text) (cases : GoMap Text ServerCase)
        → IsMap cases
        → IsMap (cases_of_port port protocols cases)
    row [] cases h = h
    row (protocol ∷ protocols) cases h =
        row protocols (insert (case_name port protocol) (port, protocol) cases)
          (insert-IsMap (case_name port protocol) (port, protocol) cases h)

abbrev marked : Option ServerCase → Option Bool → Option Bool
marked none before = before
marked (some c) before = some true

-- At first no case is ready, and nothing else is in the map.
pub lookup-all_not_ready :
    (name : Text) (entries : List (Text × ServerCase)) (not_ready : GoMap Text Bool)
    → lookup name (all_not_ready entries not_ready)
      ≡ marked (lookup name entries) (lookup name not_ready)
unfolding all_not_ready lookup
lookup-all_not_ready name [] not_ready = refl
lookup-all_not_ready name ((k, c) ∷ entries) not_ready = ground (
  arith,
  lookup-all_not_ready name entries (insert k true not_ready),
  lookup-insert name k true not_ready,
)
