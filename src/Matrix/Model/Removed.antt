-- ===== src/Matrix/Model/Removed.antt =====
-- What `RemovePod` leaves of a namespace that has one pod of the name, and of the cache.
use k8s_service_validator.Prelude.{
  ℕ, suc, ◌+◌, ◌-◌, List, [], ◌∷◌, ◌++◌, ◌≡◌, ◌≢◌, refl, ap, sym, ◌∙◌, some, arith, eq_iff, All,
  All-append, All-drop, append_assoc, append-nil, length, length-append, get_elem?,
  get_elem?-append, none, take, drop, take-append, take_all, drop-append, ltb, false,
}
use k8s_service_validator.Outcome.{ok}
use k8s_service_validator.Text.{Text, text_eq}
use k8s_service_validator.Matrix.Reachability.{Ref, Heap}
use k8s_service_validator.Matrix.Model.Remove.{
  Slice, elements, remove_at, remove_each, remove_from_namespace, remove_from_cache,
}

abbrev pub slice : List Ref → ℕ → Slice
slice array len = record { array = array; len = len }

module _ (heap : Heap) (name : Text) where
  abbrev pub OtherNames : List Ref → Type 0
  OtherNames = All (λ p. (heap p).name ≢ name)

  -- Rounds over pods of other names change nothing.
  pub skip_others :
      (xs : List Ref) (i n len : ℕ) (array pre more : List Ref)
      → array ≡ pre ++ (xs ++ more)
      → i ≡ length pre
      → OtherNames xs
      → remove_each heap name (length xs + n) i (slice array len)
        ≡ remove_each heap name n (i + length xs) (slice array len)
  unfolding remove_each
  skip_others [] i n len array pre more e at h =
      let sum : 0 + n ≡ n = omega arith in
      let place : i + 0 ≡ i = omega arith in rw sum (rw place refl)
  skip_others (x ∷ xs) i n len array pre more e at (hx, h) =
      let sum : suc (length xs) + n ≡ suc (length xs + n) = omega arith in
      let place : i + suc (length xs) ≡ suc i + length xs = omega arith in
      let here : get_elem? array i ≡ some x =
        rw e (rw at (get_elem?-append pre (x ∷ (xs ++ more)))) in
      let rest =
        skip_others xs (suc i) n len array (pre ++ x ∷ []) more
          (e ∙ sym (append_assoc pre (x ∷ []) (xs ++ more)))
          (omega (arith, length-append pre (x ∷ []))) h in
      rw sum (ground (arith, here, rest, place, eq_iff (heap x).name name))

  -- The tail that `append` leaves behind the shortened slice.
  abbrev pub stale : List Ref → ℕ → List Ref
  stale array len = drop (len - 1) array

  after_removal :
      (xs ys tail : List Ref) (len : ℕ)
      → OtherNames ys
      → OtherNames tail
      → length tail ≡ 1
      → remove_each heap name (length ys) (suc (length xs)) (slice (xs ++ (ys ++ tail)) len)
        ≡ ok (slice (xs ++ (ys ++ tail)) len)
  after_removal xs [] tail len hy ht one = unfold remove_each in refl
  after_removal xs (y ∷ ys) tail len (_, hy) ht one =
      let rounds : suc (length ys) ≡ length (ys ++ tail) + 0 =
        omega (arith, length-append ys tail) in
      let place : suc (length xs) ≡ length (xs ++ y ∷ []) =
        omega (arith, length-append xs (y ∷ [])) in
      let array : xs ++ (y ∷ (ys ++ tail)) ≡ (xs ++ y ∷ []) ++ ((ys ++ tail) ++ []) =
        ap (λ l. xs ++ (y ∷ l)) (sym (append-nil (ys ++ tail)))
        ∙ sym (append_assoc xs (y ∷ []) ((ys ++ tail) ++ [])) in
      rw rounds (
        skip_others (ys ++ tail) (suc (length xs)) 0 len (xs ++ (y ∷ (ys ++ tail))) (xs ++ y ∷ [])
          [] array place (All-append (λ p. (heap p).name ≢ name) ys tail hy ht)
        ∙ unfold remove_each in refl)

  last_one : (y : Ref) (ys : List Ref) → length (drop (length ys) (y ∷ ys)) ≡ 1
  last_one y [] = refl
  last_one y (z ∷ zs) = last_one z zs

  pub remove_at_pod :
      (xs ys : List Ref) (p : Ref)
      → remove_at (length xs) (slice (xs ++ (p ∷ ys)) (length (xs ++ (p ∷ ys))))
        ≡ ok (
            slice
              (xs ++ (ys ++ stale (xs ++ (p ∷ ys)) (length (xs ++ (p ∷ ys)))))
              (length (xs ++ (p ∷ ys)) - 1))
  unfolding remove_at
  remove_at_pod xs ys p =
      let array = xs ++ (p ∷ ys) in
      let one : suc (length xs) ≡ length xs + 1 = omega arith in
      let behind : drop (suc (length xs)) array ≡ ys = rw one (drop-append xs (p ∷ ys) 1) in
      let guard : ltb (length array) (suc (length xs)) ≡ false =
        ground (arith, length-append xs (p ∷ ys)) in
      rw guard (rw (take_all array) (rw (take-append xs (p ∷ ys)) (rw behind refl)))

  rounds_left :
      (xs ys : List Ref) (p : Ref)
      → OtherNames ys
      → remove_each heap name (length ys) (suc (length xs)) (
          slice
            (xs ++ (ys ++ stale (xs ++ (p ∷ ys)) (length (xs ++ (p ∷ ys)))))
            (length (xs ++ (p ∷ ys)) - 1))
        ≡ ok (
            slice
              (xs ++ (ys ++ stale (xs ++ (p ∷ ys)) (length (xs ++ (p ∷ ys)))))
              (length (xs ++ (p ∷ ys)) - 1))
  rounds_left xs [] p h = unfold remove_each in refl
  rounds_left xs (y ∷ ys) p h =
      let last : length (xs ++ (p ∷ y ∷ ys)) - 1 ≡ length xs + suc (length ys) =
        omega (arith, length-append xs (p ∷ y ∷ ys)) in
      let tail : stale (xs ++ (p ∷ y ∷ ys)) (length (xs ++ (p ∷ y ∷ ys)))
          ≡ drop (length ys) (y ∷ ys) =
        rw last (drop-append xs (p ∷ y ∷ ys) (suc (length ys))) in
      rw tail (
        after_removal xs (y ∷ ys) (drop (length ys) (y ∷ ys)) (length (xs ++ (p ∷ y ∷ ys)) - 1) h
          (All-drop (λ q. (heap q).name ≢ name) (length ys) (y ∷ ys) h) (last_one y ys))

  -- If one pod of a namespace has the name, the loop of `RemovePod` returns, and takes that pod out
  -- of the namespace and leaves the others in their order.
  pub remove_from_namespace-one :
      (xs ys : List Ref) (p : Ref)
      → (heap p).name ≡ name
      → OtherNames xs
      → OtherNames ys
      → remove_from_namespace heap name (xs ++ (p ∷ ys)) ≡ ok (xs ++ ys)
  unfolding remove_from_namespace remove_each elements
  remove_from_namespace-one xs ys p named hx hy =
      let array = xs ++ (p ∷ ys) in
      let skipped =
        skip_others xs 0 (suc (length ys)) (length array) array [] (p ∷ ys) refl refl hx in
      let at : get_elem? array (length xs) ≡ some p = get_elem?-append xs (p ∷ ys) in
      let zero_place : 0 + length xs ≡ length xs = omega arith in
      let short : length array - 1 ≡ length (xs ++ ys) =
        omega (arith, length-append xs (p ∷ ys), length-append xs ys) in
      let seen : take (length (xs ++ ys)) (xs ++ (ys ++ stale array (length array))) ≡ xs ++ ys =
        rw (sym (append_assoc xs ys (stale array (length array))))
          (take-append (xs ++ ys) (stale array (length array))) in
      ground (
        arith,
        skipped,
        at,
        zero_place,
        length-append xs (p ∷ ys),
        eq_iff (heap p).name name,
        remove_at_pod xs ys p,
        rounds_left xs ys p hy,
        short,
        seen,
      )

  -- The cache loses the first pod of the name.
  pub remove_from_cache-first :
      (xs ys : List Ref) (p : Ref)
      → (heap p).name ≡ name
      → OtherNames xs
      → remove_from_cache heap name (xs ++ (p ∷ ys)) ≡ some (xs ++ ys)
  unfolding remove_from_cache
  remove_from_cache-first [] ys p named hx = ground (arith, eq_iff (heap p).name name)
  remove_from_cache-first (x ∷ xs) ys p named (hx, h) =
      ground (arith, eq_iff (heap x).name name, remove_from_cache-first xs ys p named h)

  -- Without a pod of the name the namespace stays as it is.
  pub remove_from_namespace-others :
      (ps : List Ref) → OtherNames ps → remove_from_namespace heap name ps ≡ ok ps
  unfolding remove_from_namespace remove_each elements
  remove_from_namespace-others ps h =
      let all_rounds : length ps + 0 ≡ length ps = omega arith in
      let skipped = skip_others ps 0 0 (length ps) ps [] [] (sym (append-nil ps)) refl h in
      ground (arith, all_rounds, skipped, take_all ps)

  pub remove_from_cache-others :
      (ps : List Ref) → OtherNames ps → remove_from_cache heap name ps ≡ none
  unfolding remove_from_cache
  remove_from_cache-others [] h = refl
  remove_from_cache-others (p ∷ ps) (hp, h) =
      ground (arith, eq_iff (heap p).name name, remove_from_cache-others ps h)
