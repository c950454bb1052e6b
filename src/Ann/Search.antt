-- ===== src/Ann/Search.antt =====
-- Search of internal/brain/ann/ann.go for one query: the cosine of the query and a vector, and the
-- two sorts, which are not stable, are given.
pub mod Ranking
use dph.Base.{
  ℕ, zero, suc, ◌+◌, ◌≡◌, Bool, true, false, not, ◌||◌, Option, none, some, List, [], ◌∷◌, ◌++◌,
  if◌then◌else◌, leb, ltb, ◌==◌, length, take, get_elem?, map,
}
use dph.Base.Number.{ℤ, pos, negsuc}
use dph.Base.Text.{Bytes, str_lt}
use dph.Ann.{Vec, Row, Index}

-- `cs`: a cell and its similarity.
pub record Scored (F : Type 0) : Type 0 where
  pub idx : ℕ
  pub sim : F

-- `cand`.
pub record Cand (F : Type 0) : Type 0 where
  pub row : Row
  pub sim : F

-- `Result`.
pub record Hit (G : Type 0) : Type 0 where
  pub id : Bytes
  pub score : G

-- `k <= 0`.
abbrev pub not_positive : ℤ → Bool
not_positive (pos n) = n == 0
not_positive (negsuc n) = true

-- A positive int as a size.
abbrev pub size_of : ℤ → ℕ
size_of (pos n) = n
size_of (negsuc n) = 0

abbrev pub is_none : List Vec → Bool
is_none [] = true
is_none (c ∷ cs) = false

-- `lists[i]`; the cells are as many as the centroids.
abbrev pub cell_at : List (List Row) → ℕ → List Row
cell_at [] i = []
cell_at (cell ∷ cells) zero = cell
cell_at (cell ∷ cells) (suc i) = cell_at cells i

abbrev pub gather {ℓ κ} : {A : Type ℓ} {B : Type κ} → (A → List B) → List A → List B
gather f [] = []
gather f (x ∷ xs) = f x ++ gather f xs

module _ {F G : Type 0} (cosine_to : Vec → F) (gt eq : F → F → Bool) (to_float32 : F → G) where
  -- The order of the candidates: the higher similarity first, and by id where they are the same.
  abbrev pub better : Cand F → Cand F → Bool
  better a b = if not (eq a.sim b.sim) then gt a.sim b.sim else str_lt a.row.id b.row.id

  -- The order of the cells.
  abbrev pub closer : Scored F → Scored F → Bool
  closer a b = gt a.sim b.sim

  -- The similarity of every cell, the first of which has number `i`.
  abbrev pub score_cells : ℕ → List Vec → List (Scored F)
  score_cells i [] = []
  score_cells i (c ∷ cs) = record { idx = i; sim = cosine_to c } ∷ score_cells (suc i) cs

  abbrev pub score_row : Row → Cand F
  score_row r = record { row = r; sim = cosine_to r.vec }

  -- The candidates of one cell that is probed.
  abbrev pub probe : List (List Row) → Scored F → List (Cand F)
  probe lists c = map score_row (cell_at lists c.idx)

  abbrev pub hit_of : Cand F → Hit G
  hit_of c = record { id = c.row.id; score = to_float32 c.sim }

  module _ (sort_cells : List (Scored F) → List (Scored F))
      (sort_cands : List (Cand F) → List (Cand F)) where
    -- `nprobe` and the loop over the cells that are probed: `take` stops at the last cell.
    abbrev pub candidates : Index → List (Cand F)
    candidates ix =
        gather (probe ix.lists) (take ix.params.nprobe (sort_cells (score_cells 0 ix.centroids)))

    -- `search`; `no_direction` says that the query is all zeros.
    unfoldable pub search : Index → Bool → ℤ → List (Hit G)
    search ix no_direction k =
        if not_positive k || (is_none ix.centroids || no_direction)
        then []
        else map hit_of (take (size_of k) (sort_cands (candidates ix)))
