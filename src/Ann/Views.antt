-- ===== src/Ann/Views.antt =====
-- Two indexes of internal/brain/ann/ann.go that answer alike: the same cells, and the same answer of
-- the map of ids at every id.
use dph.Base.{
  ℕ, suc, ◌≡◌, refl, sym, ap, ◌∙◌, inl, inr, Bool, true, false, List, [], ◌∷◌, ◌++◌, Bool-cases,
}
use dph.Base.Text.{Bytes}
use dph.Base.Dict.{bytes_eq, lookup, lookup-upsert}
use dph.Ann.{
  Vec, Row, Index, row_eligible, is_indexed, is_some, first_centroids, nearest_cell, insert_row,
  replay_row, replay,
}

pub record SameView (ix jx : Index) : Type 0 where
  pub params : ix.params ≡ jx.params
  pub centroids : ix.centroids ≡ jx.centroids
  pub lists : ix.lists ≡ jx.lists
  pub cells : (id : Bytes) → lookup id ix.id_cell ≡ lookup id jx.id_cell

pub SameView-refl : (ix : Index) → SameView ix ix
SameView-refl ix = record { params = refl; centroids = refl; lists = refl; cells = λ id. refl }

pub SameView-trans : {ix jx kx : Index} → SameView ix jx → SameView jx kx → SameView ix kx
SameView-trans p q = record {
  params = p.params ∙ q.params;
  centroids = p.centroids ∙ q.centroids;
  lists = p.lists ∙ q.lists;
  cells = λ id. p.cells id ∙ q.cells id;
}

pub SameView-sym : {ix jx : Index} → SameView ix jx → SameView jx ix
SameView-sym p = record {
  params = sym p.params;
  centroids = sym p.centroids;
  lists = sym p.lists;
  cells = λ id. sym (p.cells id);
}

module _ {F : Type 0} (cosine : Vec → Vec → F) (gt : F → F → Bool) (low : F) where
  insert_row-SameView :
      (r : Row) {ix jx : Index}
      → SameView ix jx
      → SameView (insert_row cosine gt low r ix) (insert_row cosine gt low r jx)
  insert_row-SameView r {ix} {jx} p = record {
    params = p.params;
    centroids = ap (first_centroids r.vec) p.centroids;
    lists = rw (p.centroids, p.lists) refl;
    cells = λ id.
        rw
          (
            lookup-upsert r.id id (λ old. cell ix) ix.id_cell,
            lookup-upsert r.id id (λ old. cell jx) jx.id_cell,
            p.cells id,
            p.centroids,
          )
          refl;
  }
    where
      cell : Index → ℕ
      cell kx = nearest_cell cosine gt low r.vec (first_centroids r.vec kx.centroids)

  pub replay_row-SameView :
      (r : Row) {ix jx : Index}
      → SameView ix jx
      → SameView (replay_row cosine gt low r ix) (replay_row cosine gt low r jx)
  unfolding replay_row
  replay_row-SameView r {ix} {jx} p = elim (Bool-cases (row_eligible ix r)) [
    | inr f ↦
        rw (f, same_eligible ∙ f)
          (record { params = p.params; centroids = p.centroids; lists = p.lists; cells = p.cells })
    | inl t ↦ elim (Bool-cases (is_indexed ix r.id)) [
      | inl k ↦ rw (t, same_eligible ∙ t, k, same_indexed ∙ k) p
      | inr k ↦ rw (t, same_eligible ∙ t, k, same_indexed ∙ k) (insert_row-SameView r p)
    ]
  ]
    where
      same_eligible : row_eligible jx r ≡ row_eligible ix r
      same_eligible = rw p.params refl

      same_indexed : is_indexed jx r.id ≡ is_indexed ix r.id
      same_indexed = ap is_some (sym (p.cells r.id))

  pub replay-SameView :
      (rs : List Row) {ix jx : Index}
      → SameView ix jx
      → SameView (replay cosine gt low rs ix) (replay cosine gt low rs jx)
  unfolding replay
  replay-SameView [] p = p
  replay-SameView (r ∷ rs) p = replay-SameView rs (replay_row-SameView r p)

  pub replay-append :
      (rs : List Row) (r : Row) (ix : Index)
      → replay cosine gt low (rs ++ r ∷ []) ix
        ≡ replay_row cosine gt low r (replay cosine gt low rs ix)
  unfolding replay
  replay-append [] r ix = refl
  replay-append (q ∷ rs) r ix = replay-append rs r (replay_row cosine gt low q ix)

  pub replay_row-new :
      (r : Row) (ix : Index)
      → row_eligible ix r ≡ true
      → is_indexed ix r.id ≡ false
      → replay_row cosine gt low r ix ≡ insert_row cosine gt low r ix
  unfolding replay_row
  replay_row-new r ix t k = rw (t, k) refl

-- A count of skipped rows and an open log are not looked at.
pub SameView-skipped :
    {ix jx : Index} → SameView ix jx → SameView ix (record jx { skipped = suc jx.skipped })
SameView-skipped p = record {
  params = p.params;
  centroids = p.centroids;
  lists = p.lists;
  cells = p.cells;
}

pub SameView-open :
    {ix jx : Index} (b : Bool) → SameView ix jx → SameView ix (record jx { wal_open = b })
SameView-open b p = record {
  params = p.params;
  centroids = p.centroids;
  lists = p.lists;
  cells = p.cells;
}

pub SameView-dirty : {ix jx : Index} → SameView ix jx → SameView ix (record jx { dirty = 0 })
SameView-dirty p = record {
  params = p.params;
  centroids = p.centroids;
  lists = p.lists;
  cells = p.cells;
}
