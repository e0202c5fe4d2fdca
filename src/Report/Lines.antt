-- ===== src/Report/Lines.antt =====
-- What the lines of a log make of the two sets of tests.
use k8s_service_validator.Prelude.{
  Option-cases, inl, inr, ℕ, ◌+◌, Bool, true, false, not, ◌&&◌, ◌||◌, List, [], ◌∷◌, ◌++◌, ◌≡◌, ap,
  ◌∙◌, ◌≢◌, ◌↔◌, refl, sym, subst, get_elem?, if◌then◌else◌, All, eq_iff, Bool-cases, Option, none,
  some, arith, length, length-append, drop, drop-append, ◌==◌, nat_eq,
}
use k8s_service_validator.Prelude.Elem.{Elem, here, there, Elem-cons}
use k8s_service_validator.GoMap.{GoMap, lookup, lookup-insert}
use k8s_service_validator.Text.{
  Text, text_eq, index, codes, split, join, Lacks, split-append, split_whole, split-Lacks,
  join-split, index-some,
}
use k8s_service_validator.Report.{
  Tests, key_pass_in_log, key_fail_in_log, process_line, log_line, log_lines, add_test,
}

-- The test that a line of the log reports as passed, and as failed: the key for passing has
-- precedence, and an empty name is none.
abbrev reports_pass : Text → Text → Bool
reports_pass t line = elim (index line key_pass_in_log) [
  | some i ↦ not (process_line line i == []) && process_line line i == t
  | none ↦ false
]

abbrev reports_fail : Text → Text → Bool
reports_fail t line = elim (index line key_pass_in_log) [
  | some i ↦ false
  | none ↦ elim (index line key_fail_in_log) [
    | some i ↦ not (process_line line i == []) && process_line line i == t
    | none ↦ false
  ]
]

abbrev any_line : (Text → Bool) → List Text → Bool
any_line test [] = false
any_line test (line ∷ lines) = test line || any_line test lines

-- Membership in a set that is a map to booleans.
abbrev pub is_member : Option Bool → Bool
is_member none = false
is_member (some _) = true

lookup-add_test :
    (t l : Text) (tests : GoMap Text Bool)
    → is_member (lookup t (add_test l tests))
      ≡ (is_member (lookup t tests) || (not (l == []) && l == t))
lookup-add_test t l tests = ground (arith, lookup-insert t l true tests)

log_line_lem :
    (t line : Text) (tests : Tests)
    → (is_member (lookup t (log_line line tests).0)
        ≡ (is_member (lookup t tests.0) || reports_pass t line))
      × (is_member (lookup t (log_line line tests).1)
          ≡ (is_member (lookup t tests.1) || reports_fail t line))
unfolding log_line
log_line_lem t line (passed, failed) = elim (Option-cases (index line key_pass_in_log)) [
  | inr (i, e) ↦ ground (arith, lookup-add_test t (process_line line i) passed)
  | inl e ↦ elim (Option-cases (index line key_fail_in_log)) [
    | inr (i, e') ↦ ground (arith, lookup-add_test t (process_line line i) failed)
    | inl e' ↦ ground arith
  ]
]

-- A test is in the set of passed tests exactly if it was there or a line reports it as passed, and
-- likewise for the failed tests. One test can be in both.
log_lines_lem :
    (t : Text) (lines : List Text) (tests : Tests)
    → (is_member (lookup t (log_lines lines tests).0)
        ≡ (is_member (lookup t tests.0) || any_line (reports_pass t) lines))
      × (is_member (lookup t (log_lines lines tests).1)
          ≡ (is_member (lookup t tests.1) || any_line (reports_fail t) lines))
unfolding log_lines
log_lines_lem t [] tests = ground arith
log_lines_lem t (line ∷ lines) tests =
    ground (arith, log_line_lem t line tests, log_lines_lem t lines (log_line line tests))

-- If the 11 bytes from the position of the key are followed by a directory and a name with one
-- slash between them and no other, the name is read off the line.
process_line_lem :
    (before key directory name : Text)
    → length key ≡ 11
    → Lacks b'/' directory
    → Lacks b'/' name
    → process_line (before ++ (key ++ (directory ++ b'/' ∷ name))) (length before) ≡ name
unfolding process_line
process_line_lem before key directory name eleven hd hn =
    let width : 11 ≡ length key + 0 = omega (arith, eleven) in
    let rest = directory ++ b'/' ∷ name in
    let behind : drop (length before + 11) (before ++ (key ++ rest)) ≡ rest =
      drop-append before (key ++ rest) 11
      ∙ (ap (λ k. drop k (key ++ rest)) width ∙ drop-append key rest 0) in
    let parts : split b'/' rest ≡ directory ∷ name ∷ [] =
      split-append b'/' directory name hd ∙ ap (λ l. directory ∷ l) (split_whole b'/' name hn) in
    ground (
      arith,
      behind,
      parts,
      length-append before (key ++ rest),
      length-append key rest,
      length-append directory (b'/' ∷ name),
    )

two_parts :
    (parts : List Text) (t : Text)
    → (if length parts == 2 then elim (get_elem? parts 1) [ none ↦ [] | some s ↦ s ] else []) ≡ t
    → t ≢ []
    → (first : Text) × (parts ≡ first ∷ t ∷ [])
two_parts [] t h k = absurd (k (sym h))
two_parts (a ∷ []) t h k = absurd (k (sym h))
two_parts (a ∷ b ∷ []) t h k = (a, ap (λ u. a ∷ u ∷ []) h)
two_parts (a ∷ b ∷ c ∷ rest) t h k = absurd (k (sym h ∙ ground arith))

-- The line says that the test `t` failed: it has no "PASS tests", and behind the first
-- "FAIL: tests" of it there is one slash, and the name of the test behind the slash.
pub record SaysFailed (line t : Text) : Type 0 where
  pub before : Text
  pub directory : Text
  pub spelled : line ≡ before ++ (codes "FAIL: tests" ++ (directory ++ b'/' ∷ t))
  pub first : index line (codes "FAIL: tests") ≡ some (length before)
  pub not_passed : index line (codes "PASS tests") ≡ none
  pub one_slash : Lacks b'/' directory × Lacks b'/' t
  pub named : t ≢ []

read_off :
    (line t before rest : Text) (i : ℕ)
    → index line key_pass_in_log ≡ none
    → index line key_fail_in_log ≡ some i
    → line ≡ before ++ (key_fail_in_log ++ rest)
    → length before ≡ i
    → process_line line i ≡ t
    → t ≢ []
    → SaysFailed line t
unfolding process_line join
read_off line t before rest i not_passed fails spelled at name some_name =
    let behind : drop (i + 11) line ≡ rest =
      ap (λ n. drop (n + 11) line) (sym at)
      ∙ (ap (drop (length before + 11)) spelled
          ∙ (drop-append before (key_fail_in_log ++ rest) 11
              ∙ drop-append key_fail_in_log rest 0)) in
    let (directory, parts) = two_parts (split b'/' rest) t (ground (arith, behind)) some_name in
    let lacking : All (Lacks b'/') (directory ∷ t ∷ []) =
      subst (All (Lacks b'/')) parts (split-Lacks b'/' rest) in
    let whole : directory ++ b'/' ∷ t ≡ rest =
      ap (join (b'/' ∷ [])) (sym parts) ∙ join-split b'/' rest in
    record {
      before = before;
      directory = directory;
      spelled = spelled ∙ ap (λ r. before ++ (key_fail_in_log ++ r)) (sym whole);
      first = fails ∙ ap some (sym at);
      not_passed = not_passed;
      one_slash = (lacking.0, lacking.1.0);
      named = some_name;
    }

reports_fail-SaysFailed : (t line : Text) → reports_fail t line ≡ true → SaysFailed line t
reports_fail-SaysFailed t line h = elim (Option-cases (index line key_pass_in_log)) [
  | inr (i, passes) ↦ absurd (ground arith)
  | inl not_passed ↦ elim (Option-cases (index line key_fail_in_log)) [
    | inl not_failed ↦ absurd (ground arith)
    | inr (i, fails) ↦
        let (before, rest, spelled, at) = index-some line key_fail_in_log i fails in
        let name : process_line line i ≡ t = ground (arith, eq_iff (process_line line i) t) in
        let some_name : t ≢ [] =
          λ e. ground (arith, eq_iff (process_line line i) [], eq_iff (process_line line i) t) in
        read_off line t before rest i not_passed fails spelled at name some_name
  ]
]

SaysFailed-reports_fail : (t line : Text) → SaysFailed line t → reports_fail t line ≡ true
SaysFailed-reports_fail t line h =
    let name : process_line line (length h.before) ≡ t =
      ap (λ l. process_line l (length h.before)) h.spelled
      ∙ process_line_lem h.before key_fail_in_log h.directory t refl h.one_slash.0 h.one_slash.1 in
    let not_empty = h.named in
    ground (
      arith,
      h.first,
      h.not_passed,
      name,
      eq_iff (process_line line (length h.before)) [],
      eq_iff (process_line line (length h.before)) t,
    )

any_line-Elem :
    (test : Text → Bool) (lines : List Text)
    → any_line test lines ≡ true
    → (line : Text) × Elem line lines × (test line ≡ true)
any_line-Elem test [] h = absurd (cc)
any_line-Elem test (l ∷ lines) h = elim (Bool-cases (test l)) [
  | inl this ↦ (l, here refl, this)
  | inr other ↦ let (line, at, e) = any_line-Elem test lines (ground arith) in (line, there at, e)
]

Elem-any_line :
    (test : Text → Bool) (lines : List Text) (line : Text)
    → Elem line lines
    → test line ≡ true
    → any_line test lines ≡ true
Elem-any_line test [] line at h = elim at [ ]
Elem-any_line test (l ∷ lines) line at h = elim (Elem-cons at) [
  | inl this ↦ rw this (rw h refl)
  | inr later ↦ ground (arith, Elem-any_line test lines line later h)
]

-- A test is in the set of the failed tests of a log exactly if some line says that it failed.
pub failed_tests_lem :
    (t : Text) (lines : List Text)
    → (is_member (lookup t (log_lines lines ([], [])).1) ≡ true)
      ↔ ((line : Text) × Elem line lines × SaysFailed line t)
unfolding lookup
failed_tests_lem t lines = (
  λ h.
      (let (line, at, e) =
          any_line-Elem (reports_fail t) lines (ground (arith, log_lines_lem t lines ([], []))) in
        (line, at, reports_fail-SaysFailed t line e)),
  λ (line, at, said).
      (let found =
          Elem-any_line (reports_fail t) lines line at (SaysFailed-reports_fail t line said) in
        ground (arith, found, log_lines_lem t lines ([], []))),
)
