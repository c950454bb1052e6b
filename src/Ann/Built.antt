-- ===== src/Ann/Built.antt =====
-- What Build of internal/brain/ann/ann.go makes.
use dph.Base.{
  ℕ, zero, suc, ◌≤◌, ◌<◌, ◌≡◌, refl, ap, ◌∙◌, Bool, List, [], ◌∷◌, ◌++◌, length, take, length-take,
  min, arith, append_assoc, append-nil,
}
use dph.Ann.{Vec, Row, Index, all_rows, append_at, nearest_cell}
use dph.Ann.Insert.{length-append_at, nearest_from-lt}
use dph.Ann.Kmeans.{length-kmeans}
use dph.Base.Sort.{length-Perm}
use dph.Ann.Files.{
  found_centroids, no_cells, fill_cells, eligible_rows, rebuilt, rebuilt_from, cell_count, cleared,
}
use mathlib.Core.List.{Perm, perm_middle}
use mathlib.Core.List.Perm

append_at-perm :
    (c : ℕ) (r : Row) (cells : List (List Row))
    → c < length cells
    → Perm (all_rows (append_at c r cells)) (r ∷ all_rows cells)
unfolding append_at
append_at-perm c r [] h = absurd (omega arith)
append_at-perm zero r (cell ∷ cells) h =
    rw (append_assoc cell (r ∷ []) (all_rows cells)) (perm_middle cell (all_rows cells))
append_at-perm (suc c) r (cell ∷ cells) h =
    Perm.trans (Perm.append_left cell (append_at-perm c r cells (omega arith)))
      (perm_middle cell (all_rows cells))

all_rows-no_cells : (n : ℕ) → all_rows (no_cells n) ≡ []
all_rows-no_cells zero = refl
all_rows-no_cells (suc n) = all_rows-no_cells n

length-no_cells : (n : ℕ) → length (no_cells n) ≡ n
length-no_cells zero = refl
length-no_cells (suc n) = ap suc (length-no_cells n)

-- The number of centroids for `n` rows: as many as the cells that Build chooses, or as the rows of
-- the sample where these are fewer.
abbrev pub centroid_count : ℕ → ℕ → ℕ
centroid_count nlist n = min (cell_count nlist n) (min 50000 n)

cell_count-positive : (nlist n : ℕ) → 1 ≤ nlist → 1 ≤ cell_count nlist n
unfolding cell_count
cell_count-positive nlist n h = ground arith

module _ {F : Type 0} (cosine : Vec → Vec → F) (gt : F → F → Bool) (low : F) where
  abbrev fill : List Vec → List Row → List (List Row) → List (List Row)
  fill = fill_cells cosine gt low

  fill_cells-perm :
      (cs : List Vec) (rs : List Row) (cells : List (List Row))
      → 1 ≤ length cs
      → length cells ≡ length cs
      → Perm (all_rows (fill cs rs cells)) (rs ++ all_rows cells)
        × (length (fill cs rs cells) ≡ length cs)
  unfolding fill_cells
  fill_cells-perm cs [] cells one e = (Perm.refl _, e)
  fill_cells-perm cs (r ∷ rs) cells one e =
      let h = fill_cells-perm cs rs (append_at c r cells) one (length-append_at c r cells ∙ e) in
      (
        Perm.trans h.0 (
            Perm.trans (Perm.append_left rs (append_at-perm c r cells in_range))
              (perm_middle rs (all_rows cells))),
        h.1,
      )
    where
      c : ℕ
      c = nearest_cell cosine gt low r.vec cs

      in_range : c < length cells
      in_range = rw e (nearest_from-lt cosine gt low r.vec 0 low 0 (length cs) cs one (omega arith))

  module _ (mean : ℕ → List ℕ → ℕ) (pick : ℕ → ℕ → ℕ) (shuffle arrival : List Row → List Row)
      (any_shuffle : (rs : List Row) → Perm (shuffle rs) rs)
      (any_order : (rs : List Row) → Perm (arrival rs) rs) where
    abbrev remade : List Row → Index → Index
    remade = rebuilt_from cosine gt low mean pick shuffle arrival

    length-found_centroids :
        (rs : List Row) (nlist : ℕ)
        → length (found_centroids cosine gt low mean pick shuffle arrival rs nlist)
          ≡ centroid_count nlist (length rs)
    length-found_centroids rs nlist =
        length-kmeans mean cosine gt low pick (take 50000 (shuffle rs))
          (cell_count nlist (length rs)) 10
        ∙ ap (min (cell_count nlist (length rs)))
            (length-take 50000 (shuffle rs) ∙ ap (min 50000) (length-Perm (any_shuffle rs)))

    -- The cells of Build: every row once, and their number.
    abbrev Filled : List Row → ℕ → Index → Type 0
    Filled rs nlist ix =
        Perm (all_rows ix.lists) rs
        × (length ix.lists ≡ length ix.centroids)
        × (length ix.centroids ≡ centroid_count nlist (length rs))

    remade-Filled :
        (rs : List Row) (ix : Index)
        → 1 ≤ ix.params.nlist
        → ix.lists ≡ []
        → ix.centroids ≡ []
        → Filled rs ix.params.nlist (remade rs ix)
    remade-Filled [] ix l e f = rw (e, f) (Perm.refl [], refl, omega arith)
    remade-Filled (r ∷ rs) ix l e f = (
      Perm.trans h.0
          (rw (all_rows-no_cells (length cs), append-nil (arrival (r ∷ rs))) (any_order (r ∷ rs))),
      h.1,
      count,
    )
      where
        cs : List Vec
        cs = found_centroids cosine gt low mean pick shuffle arrival (r ∷ rs) ix.params.nlist

        count : length cs ≡ centroid_count ix.params.nlist (length (r ∷ rs))
        count = length-found_centroids (r ∷ rs) ix.params.nlist

        h :
            Perm
              (all_rows (fill cs (arrival (r ∷ rs)) (no_cells (length cs))))
              (arrival (r ∷ rs) ++ all_rows (no_cells (length cs)))
            × (length (fill cs (arrival (r ∷ rs)) (no_cells (length cs))) ≡ length cs)
        h =
            fill_cells-perm cs (arrival (r ∷ rs)) (no_cells (length cs))
              (omega (arith, count, cell_count-positive ix.params.nlist (length (r ∷ rs)) l))
              (length-no_cells (length cs))

    -- Where an index asks for some cells, Build puts every eligible row into a cell and no other row,
    -- each as often as it is given, also rows of one id; there are as many cells as centroids, and
    -- these are as many as `cell_count` says, or as the rows of the sample if those are fewer. The
    -- shuffle of the sample and the workers give some order of the rows.
    pub build-perm :
        (rows : List Row) (ix : Index)
        → 1 ≤ ix.params.nlist
        → Perm
            (all_rows (rebuilt cosine gt low mean pick shuffle arrival rows ix).lists)
            (eligible_rows ix rows)
          × (length (rebuilt cosine gt low mean pick shuffle arrival rows ix).lists
              ≡ length (rebuilt cosine gt low mean pick shuffle arrival rows ix).centroids)
          × (length (rebuilt cosine gt low mean pick shuffle arrival rows ix).centroids
              ≡ centroid_count ix.params.nlist (length (eligible_rows ix rows)))
    unfolding rebuilt
    build-perm rows ix l =
        remade-Filled (eligible_rows ix rows)
          (cleared cosine gt low mean pick shuffle arrival rows ix) l refl refl
