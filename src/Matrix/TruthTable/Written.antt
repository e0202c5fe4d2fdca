-- ===== src/Matrix/TruthTable/Written.antt =====
-- What a run of writes of one value leaves of a table.
use k8s_service_validator.Prelude.{
  Bool, false, ◌&&◌, ◌||◌, [], ◌≡◌, ◌≢◌, refl, none, some, arith, ◌==◌, if◌then◌else◌,
}
use k8s_service_validator.GoMap.{lookup}
use k8s_service_validator.Outcome.{ok}
use k8s_service_validator.Text.{Text, text_eq}
use k8s_service_validator.Matrix.TruthTable.{TruthTable, cell, set}
use k8s_service_validator.Matrix.TruthTable.Write.{IsGrid, cell-set, set-IsGrid, lookup-set}

module _ {B : Type 0} where
  -- The cells that `hit` names hold `v` and the others are as before; so are the names, the rows
  -- and the bandwidths.
  pub record Written (hit : Text → Text → Bool) (v : Bool) (table table' : TruthTable B)
      : Type 0 where
    pub cells :
        (f t : Text) → cell table'.values f t ≡ (if hit f t then some v else cell table.values f t)
    pub froms : table'.froms ≡ table.froms
    pub tos : table'.tos ≡ table.tos
    pub bandwidths : table'.bandwidths ≡ table.bandwidths
    pub grid : IsGrid table.values → IsGrid table'.values
    pub rows : (f : Text) → lookup f table.values ≢ none → lookup f table'.values ≢ none

  pub Written-refl : (v : Bool) (table : TruthTable B) → Written (λ f t. false) v table table
  Written-refl v table = record {
    cells = λ f t. refl;
    froms = refl;
    tos = refl;
    bandwidths = refl;
    grid = λ h. h;
    rows = λ f h. h;
  }

  pub Written-trans :
      (hit hit' : Text → Text → Bool) (v : Bool) (a b c : TruthTable B)
      → Written hit v a b
      → Written hit' v b c
      → Written (λ f t. hit f t || hit' f t) v a c
  Written-trans hit hit' v a b c w w' = record {
    cells = λ f t. ground (arith, w.cells f t, w'.cells f t);
    froms = cc (w.froms, w'.froms);
    tos = cc (w.tos, w'.tos);
    bandwidths = cc (w.bandwidths, w'.bandwidths);
    grid = λ h. w'.grid (w.grid h);
    rows = λ f h. w'.rows f (w.rows f h);
  }

  pub Written-cast :
      (hit hit' : Text → Text → Bool) (v : Bool) (a b : TruthTable B)
      → ((f t : Text) → hit f t ≡ hit' f t)
      → Written hit v a b
      → Written hit' v a b
  Written-cast hit hit' v a b e w = record {
    cells = λ f t. cc (w.cells f t, e f t);
    froms = w.froms;
    tos = w.tos;
    bandwidths = w.bandwidths;
    grid = w.grid;
    rows = w.rows;
  }

  pub Written-set :
      (from to : Text) (v : Bool) (table table' : TruthTable B)
      → set from to v table ≡ ok table'
      → Written (λ f t. from == f && to == t) v table table'
  Written-set from to v table table' e =
      let (_, froms, tos, bandwidths) = cell-set from to v table table' [] [] e in
      record {
        cells = λ f t. (cell-set from to v table table' f t e).0;
        froms = froms;
        tos = tos;
        bandwidths = bandwidths;
        grid = λ h. set-IsGrid from to v table table' h e;
        rows = λ f h k. h ((lookup-set from to v table table' f e).1 k);
      }
