-- ===== src/Ann/Search/Ranking.antt =====
-- What Search of internal/brain/ann/ann.go finds.
use dph.Base.{
  ℕ, suc, ◌≤◌, ◌≡◌, refl, sym, ap, ◌∙◌, Bool, false, List, [], ◌∷◌, ◌++◌, length, take, take_all,
  map, arith, append_assoc,
}
use dph.Base.Number.{ℤ}
use dph.Base.Sort.{IsSorted, length-Perm}
use dph.Ann.{Vec, Row, Index, all_rows}
use dph.Ann.Search.{
  Scored, Cand, not_positive, size_of, is_none, cell_at, gather, better, closer, score_cells,
  score_row, probe, hit_of, candidates, search,
}
use mathlib.Core.List.{Perm, Permᴰ, perm_append_comm, Perm-prop}
use mathlib.Core.List.Perm
use mathlib.Core.Logic.{∥∥₁_elim}

module _ {A B : Type 0} (f : A → List B) where
  swap_front : (xs ys zs : List B) → Perm (xs ++ (ys ++ zs)) (ys ++ (xs ++ zs))
  swap_front xs ys zs =
      rw (sym (append_assoc xs ys zs), sym (append_assoc ys xs zs))
        (Perm.append_right zs (perm_append_comm xs ys))

  gather-Permᴰ : {xs ys : List A} → Permᴰ xs ys → Perm (gather f xs) (gather f ys)
  gather-Permᴰ Permᴰ.nil = Perm.refl []
  gather-Permᴰ (Permᴰ.cons {a = a} {b = b} e d) = rw e (Perm.append_left (f b) (gather-Permᴰ d))
  gather-Permᴰ (Permᴰ.swap {a' = c} {b' = d} {l = l} e g) =
      rw (e, g) (swap_front (f d) (f c) (gather f l))
  gather-Permᴰ (Permᴰ.trans d e) = Perm.trans (gather-Permᴰ d) (gather-Permᴰ e)

  gather-Perm : {xs ys : List A} → Perm xs ys → Perm (gather f xs) (gather f ys)
  gather-Perm p = ∥∥₁_elim p Perm-prop gather-Permᴰ

-- `out` is sorted by the test and holds what `xs` holds: what sort.Slice promises.
abbrev pub Sorts : {A : Type 0} → (A → A → Bool) → (List A → List A) → Type 0
Sorts less sort = (xs : List _) → Perm (sort xs) xs × IsSorted less (sort xs)

module _ {F G : Type 0} (cosine_to : Vec → F) (gt eq : F → F → Bool) (to_float32 : F → G) where
  abbrev scores : ℕ → List Vec → List (Scored F)
  scores = score_cells cosine_to gt eq to_float32

  abbrev cand_of : Row → Cand F
  cand_of = score_row cosine_to gt eq to_float32

  abbrev probed : List (List Row) → Scored F → List (Cand F)
  probed = probe cosine_to gt eq to_float32

  map-append : (xs ys : List Row) → map cand_of (xs ++ ys) ≡ map cand_of xs ++ map cand_of ys
  map-append [] ys = refl
  map-append (x ∷ xs) ys = ap (λ zs. cand_of x ∷ zs) (map-append xs ys)

  cell_at-drop :
      (front : List (List Row)) (cell : List Row) (cells : List (List Row))
      → cell_at (front ++ cell ∷ cells) (length front) ≡ cell
  cell_at-drop [] cell cells = refl
  cell_at-drop (x ∷ front) cell cells = cell_at-drop front cell cells

  length-snoc :
      (front : List (List Row)) (cell : List Row) → length (front ++ cell ∷ []) ≡ suc (length front)
  length-snoc [] cell = refl
  length-snoc (x ∷ front) cell = ap suc (length-snoc front cell)

  gather_all :
      (front cells : List (List Row)) (cs : List Vec)
      → length cells ≡ length cs
      → gather (probed (front ++ cells)) (scores (length front) cs) ≡ map cand_of (all_rows cells)
  gather_all front [] [] e = refl
  gather_all front [] (c ∷ cs) e = absurd (omega (arith, e))
  gather_all front (cell ∷ cells) [] e = absurd (omega (arith, e))
  gather_all front (cell ∷ cells) (c ∷ cs) e =
      ap
        (λ l.
          map cand_of l ++ gather (probed (front ++ cell ∷ cells)) (scores (suc (length front)) cs))
        (cell_at-drop front cell cells)
      ∙ (ap (λ z. map cand_of cell ++ z)
            (ap (λ l. gather (probed l) (scores (suc (length front)) cs))
                (sym (append_assoc front (cell ∷ []) cells))
              ∙ (ap (λ n. gather (probed ((front ++ cell ∷ []) ++ cells)) (scores n cs))
                    (sym (length-snoc front cell))
                  ∙ gather_all (front ++ cell ∷ []) cells cs (omega (arith, e))))
          ∙ sym (map-append cell (all_rows cells)))

  length-scores : (i : ℕ) (cs : List Vec) → length (scores i cs) ≡ length cs
  length-scores i [] = refl
  length-scores i (c ∷ cs) = ap suc (length-scores (suc i) cs)

  -- Where as many cells are probed as there are, Search answers the first k of all rows of the index,
  -- by the higher similarity and then by id: what a scan of all rows gives.
  pub search_all :
      (sort_cells : List (Scored F) → List (Scored F)) (sort_cands : List (Cand F) → List (Cand F))
      → Sorts (closer cosine_to gt eq to_float32) sort_cells
      → Sorts (better cosine_to gt eq to_float32) sort_cands
      → (ix : Index) (k : ℤ) → length ix.lists ≡ length ix.centroids
      → length ix.centroids ≤ ix.params.nprobe
      → not_positive k ≡ false
      → is_none ix.centroids ≡ false
      → (ranked : List (Cand F)) × Perm ranked (map cand_of (all_rows ix.lists))
        × IsSorted (better cosine_to gt eq to_float32) ranked
        × (search cosine_to gt eq to_float32 sort_cells sort_cands ix false k
            ≡ map (hit_of cosine_to gt eq to_float32) (take (size_of k) ranked))
  unfolding search
  search_all sort_cells sort_cands cells cands ix k e n p q =
      (sort_cands found, Perm.trans (cands found).0 all_found, (cands found).1, rw (p, q) refl)
    where
      found : List (Cand F)
      found = candidates cosine_to gt eq to_float32 sort_cells sort_cands ix

      enough : length (sort_cells (scores 0 ix.centroids)) ≤ ix.params.nprobe
      enough =
          omega
            (arith, n, length-Perm (cells (scores 0 ix.centroids)).0, length-scores 0 ix.centroids)

      all_found : Perm found (map cand_of (all_rows ix.lists))
      all_found = rw (take_all ix.params.nprobe (sort_cells (scores 0 ix.centroids)) enough) (
          rw⁻¹ (gather_all [] ix.lists ix.centroids e)
            (gather-Perm (probed ix.lists) (cells (scores 0 ix.centroids)).0))
