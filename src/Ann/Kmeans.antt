-- ===== src/Ann/Kmeans.antt =====
-- The k-means of Build in internal/brain/ann/ann.go: `sample` and `kmeans`. The shuffle and the
-- random numbers are given, and the mean of some float32 numbers, `mean`, from how many vectors there
-- are and the numbers, in order.
use dph.Base.{
  ℕ, zero, suc, ◌≡◌, refl, ap, ◌∙◌, Bool, List, [], ◌∷◌, ◌==◌, length, take, keep, map, min,
}
use dph.Ann.{Vec, Row, nearest_cell}

-- `sample`: at most `max_n` of the shuffled rows.
abbrev pub sample : (List Row → List Row) → List Row → ℕ → List Row
sample shuffle rows max_n = take max_n (shuffle rows)

-- `copy` into a new vector of the dimension.
abbrev pub copied : ℕ → Vec → Vec
copied zero v = []
copied (suc dim) [] = 0 ∷ copied dim []
copied (suc dim) (f ∷ v) = f ∷ copied dim v

-- The vector of a row; the index is in range.
abbrev pub vec_at : ℕ → List Row → Vec
vec_at i [] = []
vec_at zero (r ∷ rs) = r.vec
vec_at (suc i) (r ∷ rs) = vec_at i rs

abbrev pub dim_of : List Row → ℕ
dim_of [] = 0
dim_of (r ∷ rs) = length r.vec

-- The numbers that a loop over the vectors adds at their first place, and the rest of the vectors.
abbrev pub heads : List Vec → List ℕ
heads [] = []
heads ([] ∷ vs) = heads vs
heads ((f ∷ v) ∷ vs) = f ∷ heads vs

abbrev pub tails : List Vec → List Vec
tails [] = []
tails ([] ∷ vs) = [] ∷ tails vs
tails ((f ∷ v) ∷ vs) = v ∷ tails vs

module _ (mean : ℕ → List ℕ → ℕ) where
  -- `sum[c][j] / cnt[c]` for every `j`.
  abbrev pub mean_vec : ℕ → ℕ → List Vec → Vec
  mean_vec zero cnt vs = []
  mean_vec (suc dim) cnt vs = mean cnt (heads vs) ∷ mean_vec dim cnt (tails vs)

  -- The new centroid of a cell; without rows it stays.
  abbrev pub moved : ℕ → Vec → List Vec → Vec
  moved dim c [] = c
  moved dim c (v ∷ vs) = mean_vec dim (length (v ∷ vs)) (v ∷ vs)

  module _ {F : Type 0} (cosine : Vec → Vec → F) (gt : F → F → Bool) (low : F) where
    -- The vectors whose nearest centroid is the one at `c`.
    abbrev pub members : ℕ → List Row → List Vec → List Vec
    members c rows cent =
        map (λ r. r.vec) (keep (λ r. nearest_cell cosine gt low r.vec cent == c) rows)

    -- The centroids from the one at `c` on after a round, of which `cent` are those before it.
    unfoldable pub move_all : List Row → List Vec → ℕ → List Vec → List Vec
    move_all rows cent c [] = []
    move_all rows cent c (v ∷ vs) =
        moved (dim_of rows) v (members c rows cent) ∷ move_all rows cent (suc c) vs

    -- The rounds: assignment and new means.
    unfoldable pub rounds : ℕ → List Row → List Vec → List Vec
    rounds zero rows cent = cent
    rounds (suc iters) rows cent = rounds iters rows (move_all rows cent 0 cent)

    module _ (pick : ℕ → ℕ → ℕ) where
      -- The first centroids from the one at `i` on: copies of rows, the one at `pick i n` of `n`.
      unfoldable pub seeded : List Row → ℕ → ℕ → List Vec
      seeded rows i zero = []
      seeded rows i (suc k) =
          copied (dim_of rows) (vec_at (pick i (length rows)) rows) ∷ seeded rows (suc i) k

      -- `kmeans`.
      unfoldable pub kmeans : List Row → ℕ → ℕ → List Vec
      kmeans rows k iters = rounds iters rows (seeded rows 0 (min k (length rows)))

      length-move_all :
          (rows : List Row) (cent : List Vec) (c : ℕ) (vs : List Vec)
          → length (move_all rows cent c vs) ≡ length vs
      unfolding move_all
      length-move_all rows cent c [] = refl
      length-move_all rows cent c (v ∷ vs) = ap suc (length-move_all rows cent (suc c) vs)

      length-rounds :
          (iters : ℕ) (rows : List Row) (cent : List Vec)
          → length (rounds iters rows cent) ≡ length cent
      unfolding rounds
      length-rounds zero rows cent = refl
      length-rounds (suc iters) rows cent =
          length-rounds iters rows (move_all rows cent 0 cent) ∙ length-move_all rows cent 0 cent

      length-seeded : (rows : List Row) (i k : ℕ) → length (seeded rows i k) ≡ k
      unfolding seeded
      length-seeded rows i zero = refl
      length-seeded rows i (suc k) = ap suc (length-seeded rows (suc i) k)

      -- There are as many centroids as asked for, or as rows where there are fewer.
      pub length-kmeans :
          (rows : List Row) (k iters : ℕ) → length (kmeans rows k iters) ≡ min k (length rows)
      unfolding kmeans
      length-kmeans rows k iters =
          length-rounds iters rows (seeded rows 0 (min k (length rows)))
          ∙ length-seeded rows 0 (min k (length rows))
