-- ===== src/Matrix/TruthTable/Write.antt =====
-- Writing one cell: what it changes, and when it panics.
use k8s_service_validator.Prelude.{
  ◌↔◌, ◌≢◌, Bool, ◌&&◌, ◌≡◌, refl, Option, none, some, arith, eq_iff, ◌==◌, inl, inr, if◌then◌else◌,
  Option-cases, Bool-cases, subst, [], ◌∷◌,
}
use k8s_service_validator.GoMap.{GoMap, lookup, insert, lookup-insert, IsMap, insert-IsMap}
use k8s_service_validator.Outcome.{Outcome-cases, ok, panic, nil_map_write}
use k8s_service_validator.Text.{Text, text_eq}
use k8s_service_validator.Matrix.TruthTable.{TruthTable, cell, write_cell, set, set_bandwidth}

module _ {ℓ} {V : Type ℓ} where
  -- No name stands twice, among the rows and within each row.
  abbrev pub IsGrid : GoMap Text (GoMap Text V) → Type ℓ
  IsGrid [] = Unit
  IsGrid ((from, dict) ∷ m) = (lookup from m ≡ none) × IsMap dict × IsGrid m

  pub insert-IsGrid :
      (from : Text) (dict : GoMap Text V) (m : GoMap Text (GoMap Text V))
      → IsMap dict
      → IsGrid m
      → IsGrid (insert from dict m)
  unfolding insert
  insert-IsGrid from dict [] hd h = (unfold lookup in refl, hd, tt)
  insert-IsGrid from dict ((f, row) ∷ m) hd (fresh, hrow, h) = ground (
    arith,
    eq_iff f from,
    eq_iff from f,
    lookup-insert f from dict m,
    insert-IsGrid from dict m hd h,
  )

  pub lookup-IsMap :
      (from : Text) (dict : GoMap Text V) (m : GoMap Text (GoMap Text V))
      → lookup from m ≡ some dict
      → IsGrid m
      → IsMap dict
  unfolding lookup
  lookup-IsMap from dict [] e h = cc
  lookup-IsMap from dict ((f, row) ∷ m) e (_, hrow, h) = elim (Bool-cases (f == from)) [
    | inl here ↦ let same_row : row ≡ dict = ground arith in subst IsMap same_row hrow
    | inr there ↦ lookup-IsMap from dict m (ground arith) h
  ]

  pub cell-write_cell :
      (from to : Text) (v : V) (m m' : GoMap Text (GoMap Text V)) (f t : Text)
      → write_cell from to v m ≡ ok m'
      → cell m' f t ≡ (if from == f && to == t then some v else cell m f t)
  unfolding write_cell cell
  cell-write_cell from to v m m' f t e = elim (Option-cases (lookup from m)) [
    | inl absent ↦ ground (arith)
    | inr (dict, present) ↦
        ground (
          arith,
          lookup-insert f from (insert to v dict) m,
          lookup-insert t to v dict,
          eq_iff from f,
        )
  ]

  -- The row that was written to stays, and so do the others.
  pub lookup-write_cell :
      (from to : Text) (v : V) (m m' : GoMap Text (GoMap Text V)) (f : Text)
      → write_cell from to v m ≡ ok m'
      → (lookup f m ≡ none) ↔ (lookup f m' ≡ none)
  unfolding write_cell
  lookup-write_cell from to v m m' f e = elim (Option-cases (lookup from m)) [
    | inl absent ↦ ground arith
    | inr (dict, present) ↦ ground (arith, lookup-insert f from (insert to v dict) m, eq_iff from f)
  ]

  pub write_cell-IsGrid :
      (from to : Text) (v : V) (m m' : GoMap Text (GoMap Text V))
      → IsGrid m
      → write_cell from to v m ≡ ok m'
      → IsGrid m'
  unfolding write_cell
  write_cell-IsGrid from to v m m' h e = elim (Option-cases (lookup from m)) [
    | inl absent ↦ ground arith
    | inr (dict, present) ↦
        let grid =
          insert-IsGrid from (insert to v dict) m
            (insert-IsMap to v dict (lookup-IsMap from dict m present h)) h in
        let written : insert from (insert to v dict) m ≡ m' = ground arith in
        subst IsGrid written grid
  ]

  -- A write succeeds if the row is there, and panics if it is not.
  pub write_cell_total :
      (from to : Text) (v : V) (m : GoMap Text (GoMap Text V))
      → lookup from m ≢ none
      → (m' : GoMap Text (GoMap Text V)) × (write_cell from to v m ≡ ok m')
  unfolding write_cell
  write_cell_total from to v m h = elim (Option-cases (lookup from m)) [
    | inl absent ↦ absurd (h absent)
    | inr (dict, present) ↦ (insert from (insert to v dict) m, ground arith)
  ]

module _ {B : Type 0} where
  pub set_inversion :
      (from to : Text) (value : Bool) (tt tt' : TruthTable B)
      → set from to value tt ≡ ok tt'
      → (m : GoMap Text (GoMap Text Bool)) × (write_cell from to value tt.values ≡ ok m)
        × (tt' ≡ record tt { values = m })
  unfolding set
  set_inversion from to value tt tt' e = elim (Outcome-cases (write_cell from to value tt.values)) [
    | inl (m, written) ↦ (m, written, ground arith)
    | inr (p, panicked) ↦ ground arith
  ]

  -- After `Set(from, to, value)` the cell from→to holds the value, every other cell is as it was,
  -- and the names and the bandwidths are the same.
  pub cell-set :
      (from to : Text) (value : Bool) (tt tt' : TruthTable B) (f t : Text)
      → set from to value tt ≡ ok tt'
      → (cell tt'.values f t ≡ (if from == f && to == t then some value else cell tt.values f t))
        × (tt'.froms ≡ tt.froms)
        × (tt'.tos ≡ tt.tos)
        × (tt'.bandwidths ≡ tt.bandwidths)
  cell-set from to value tt tt' f t e =
      let (m, written, built) = set_inversion from to value tt tt' e in
      ground (arith, cell-write_cell from to value tt.values m f t written)

  -- `Set` returns exactly where the table has a row of that name; elsewhere it panics on the nil
  -- map.
  pub set_total :
      (from to : Text) (value : Bool) (tt : TruthTable B)
      → (lookup from tt.values ≢ none → (tt' : TruthTable B) × (set from to value tt ≡ ok tt'))
        × (lookup from tt.values ≡ none → set from to value tt ≡ panic nil_map_write)
  unfolding set
  set_total from to value tt = (
    λ h.
        let (m, written) = write_cell_total from to value tt.values h in
        (record tt { values = m }, ground arith),
    λ h. unfold write_cell in ground arith,
  )

  pub set-IsGrid :
      (from to : Text) (value : Bool) (tt tt' : TruthTable B)
      → IsGrid tt.values
      → set from to value tt ≡ ok tt'
      → IsGrid tt'.values
  set-IsGrid from to value tt tt' h e =
      let (m, written, built) = set_inversion from to value tt tt' e in
      rw built (write_cell-IsGrid from to value tt.values m h written)

  pub lookup-set :
      (from to : Text) (value : Bool) (tt tt' : TruthTable B) (f : Text)
      → set from to value tt ≡ ok tt'
      → (lookup f tt.values ≡ none) ↔ (lookup f tt'.values ≡ none)
  lookup-set from to value tt tt' f e =
      let (m, written, built) = set_inversion from to value tt tt' e in
      rw built (lookup-write_cell from to value tt.values m f written)

  pub set_bandwidth_inversion :
      (from to : Text) (b : Option B) (tt tt' : TruthTable B)
      → set_bandwidth from to b tt ≡ ok tt'
      → (m : GoMap Text (GoMap Text (Option B))) × (write_cell from to b tt.bandwidths ≡ ok m)
        × (tt' ≡ record tt { bandwidths = m })
  unfolding set_bandwidth
  set_bandwidth_inversion from to b tt tt' e =
      elim (Outcome-cases (write_cell from to b tt.bandwidths)) [
        | inl (m, written) ↦ (m, written, ground arith)
        | inr (p, panicked) ↦ ground arith
      ]

  pub cell-set_bandwidth :
      (from to : Text) (b : Option B) (tt tt' : TruthTable B) (f t : Text)
      → set_bandwidth from to b tt ≡ ok tt'
      → (cell tt'.bandwidths f t
          ≡ (if from == f && to == t then some b else cell tt.bandwidths f t))
        × (tt'.froms ≡ tt.froms)
        × (tt'.tos ≡ tt.tos)
        × (tt'.values ≡ tt.values)
  cell-set_bandwidth from to b tt tt' f t e =
      let (m, written, built) = set_bandwidth_inversion from to b tt tt' e in
      ground (arith, cell-write_cell from to b tt.bandwidths m f t written)

  pub set_bandwidth_total :
      (from to : Text) (b : Option B) (tt : TruthTable B)
      → lookup from tt.bandwidths ≢ none
      → (tt' : TruthTable B) × (set_bandwidth from to b tt ≡ ok tt')
  unfolding set_bandwidth
  set_bandwidth_total from to b tt h =
      let (m, written) = write_cell_total from to b tt.bandwidths h in
      (record tt { bandwidths = m }, ground arith)
