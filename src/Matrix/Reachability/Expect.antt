-- ===== src/Matrix/Reachability/Expect.antt =====
-- `ExpectPeer` writes the value at each pair of selected pods and nowhere else.
use k8s_service_validator.Prelude.{
  Bool, false, ◌&&◌, ◌||◌, List, [], ◌∷◌, ◌≡◌, ◌≢◌, refl, none, some, arith, inl, inr, Bool-cases,
  ◌==◌, if◌then◌else◌, All,
}
use k8s_service_validator.GoMap.{GoMap, lookup}
use k8s_service_validator.Outcome.{ok}
use k8s_service_validator.Text.{Text, text_eq}
use k8s_service_validator.Entities.Pod.{pod_string}
use k8s_service_validator.Matrix.TruthTable.{TruthTable, cell}
use k8s_service_validator.Matrix.TruthTable.Write.{set_total}
use k8s_service_validator.Matrix.TruthTable.Written.{
  Written, Written-refl, Written-trans, Written-cast, Written-set,
}
use k8s_service_validator.Matrix.Reachability.{
  Ref, Heap, Peer, Reachability, expect_row, expect_rows, expect_peer,
}
use k8s_service_validator.Matrix.Reachability.Peers.{IsPlain, selects, matches-pod_string}

module _ (heap : Heap) where
  -- Some selected pod has this pod string.
  pub selects_name : Peer → List Ref → Text → Bool
  selects_name peer [] s = false
  selects_name peer (p ∷ pods) s =
      (selects peer (heap p) && pod_string (heap p) == s) || selects_name peer pods s

  -- Each pod has a row of its name, so that a write does not panic.
  abbrev pub HasRows : {V : Type 0} → List Ref → GoMap Text (GoMap Text V) → Type 0
  HasRows [] m = Unit
  HasRows (p ∷ pods) m = (lookup (pod_string (heap p)) m ≢ none) × HasRows pods m

module _ {B : Type 0} (heap : Heap) where
  expect_row_lem :
      (to : Peer) (v : Bool) (from : Text) (pods : List Ref) (table : TruthTable B)
      → All (λ p. IsPlain (heap p)) pods
      → lookup from table.values ≢ none
      → (table' : TruthTable B) × (expect_row heap to v from pods table ≡ ok table')
        × Written (λ f t. from == f && selects_name heap to pods t) v table table'
  unfolding expect_row selects_name
  expect_row_lem to v from [] table h row =
      (table, refl, Written-cast _ _ v table table (λ f t. ground arith) (Written-refl v table))
  expect_row_lem to v from (p ∷ pods) table (hp, h) row = elim (Bool-cases (selects to (heap p))) [
    | inl sel ↦
        let (table1, e1) = (set_total from (pod_string (heap p)) v table).0 row in
        let w1 = Written-set from (pod_string (heap p)) v table table1 e1 in
        let (table2, e2, w2) = expect_row_lem to v from pods table1 h (w1.rows from row) in
        (
          table2,
          ground (arith, matches-pod_string to (heap p) hp),
          Written-cast _ _ v table table2 (λ f t. ground arith)
              (Written-trans _ _ v table table1 table2 w1 w2),
        )
    | inr unsel ↦
        let (table2, e2, w2) = expect_row_lem to v from pods table h row in
        (
          table2,
          ground (arith, matches-pod_string to (heap p) hp),
          Written-cast _ _ v table table2 (λ f t. ground arith) w2,
        )
  ]

  HasRows-Written :
      (hit : Text → Text → Bool) (v : Bool) (pods : List Ref) (table table' : TruthTable B)
      → Written hit v table table'
      → HasRows heap pods table.values
      → HasRows heap pods table'.values
  HasRows-Written hit v [] table table' w h = tt
  HasRows-Written hit v (p ∷ pods) table table' w (row, h) =
      (w.rows (pod_string (heap p)) row, HasRows-Written hit v pods table table' w h)

  expect_rows_lem :
      (from to : Peer) (v : Bool) (all pods : List Ref) (table : TruthTable B)
      → All (λ p. IsPlain (heap p)) all
      → All (λ p. IsPlain (heap p)) pods
      → HasRows heap pods table.values
      → (table' : TruthTable B) × (expect_rows heap from to v all pods table ≡ ok table')
        × Written
            (λ f t. selects_name heap from pods f && selects_name heap to all t)
            v
            table
            table'
  unfolding expect_rows selects_name
  expect_rows_lem from to v all [] table plain h rows = (table, refl, Written-refl v table)
  expect_rows_lem from to v all (p ∷ pods) table plain (hp, h) (row, rows) =
      elim (Bool-cases (selects from (heap p))) [
        | inl sel ↦
            let (table1, e1, w1) = expect_row_lem to v (pod_string (heap p)) all table plain row in
            let (table2, e2, w2) =
              expect_rows_lem from to v all pods table1 plain h
                (HasRows-Written _ v pods table table1 w1 rows) in
            (
              table2,
              ground (arith, matches-pod_string from (heap p) hp),
              Written-cast _ _ v table table2 (λ f t. ground arith)
                  (Written-trans _ _ v table table1 table2 w1 w2),
            )
        | inr unsel ↦
            let (table2, e2, w2) = expect_rows_lem from to v all pods table plain h rows in
            (
              table2,
              ground (arith, matches-pod_string from (heap p) hp),
              Written-cast _ _ v table table2 (λ f t. ground arith) w2,
            )
      ]

  -- If no pod's name holds a slash and each pod has its row, `ExpectPeer` returns. The expected
  -- value of a pair is then the new value if the peers select two pods with these pod strings,
  -- and the former value otherwise; what was observed and the pods are as before.
  pub expect_peer_lem :
      (from to : Peer) (v : Bool) (r : Reachability B) (f t : Text)
      → All (λ p. IsPlain (heap p)) r.pods
      → HasRows heap r.pods r.expected.values
      → (r' : Reachability B) × (expect_peer heap from to v r ≡ ok r')
        × (cell r'.expected.values f t ≡ (
            if selects_name heap from r.pods f && selects_name heap to r.pods t
            then some v
            else cell r.expected.values f t))
        × HasRows heap r.pods r'.expected.values
        × (r'.observed ≡ r.observed)
        × (r'.pods ≡ r.pods)
  unfolding expect_peer
  expect_peer_lem from to v r f t plain rows =
      let (table, e, w) = expect_rows_lem from to v r.pods r.pods r.expected plain plain rows in
      (
        record r { expected = table },
        ground arith,
        w.cells f t,
        HasRows-Written _ v r.pods r.expected table w rows,
        refl,
        refl,
      )
