-- ===== src/Rank/Order.antt =====
-- The order of the list of `Hybrid` in internal/brain/rank/rank.go.
use dph.Base.{
  ◌≡◌, refl, ◌⊎◌, inl, inr, true, false, Option, none, some, List, [], ◌∷◌, In, All, Bool-cases,
}
use dph.Base.Text.{Bytes, str_lt}
use dph.Base.Sort.{sort_by, IsSorted, IsOrder, In-sort_by, sort_by-IsSorted}
use dph.Base.Dict.{bytes_eq, lookup, In-lookup}
use dph.Rank.{Float, Hit, Fused, fuse, better, hit_of, hits_of, hybrid}
use dph.Rank.Fusion.{fuse-Distinct, fuse-AllKeyed, hybrid_sorted}

module _ (fl : Float) (fts vec : List (Hit fl)) where
  abbrev score_in : Option (Fused fl) → fl.F
  score_in none = fl.zero_f
  score_in (some f) = f.rrf

  -- The fused score of an id.
  abbrev pub fused_score : Bytes → fl.F
  fused_score i = score_in (lookup i (fuse fl fts vec))

  -- `h` may stand before `k`: the score of `k` is not greater, or is the same, and then its id is not
  -- smaller.
  abbrev pub MayPrecede : Hit fl → Hit fl → Type 0
  MayPrecede h k =
      ((fl.eq_f (fused_score k.id) (fused_score h.id) ≡ false)
        × (fl.gt_f (fused_score k.id) (fused_score h.id) ≡ false))
      ⊎ ((fl.eq_f (fused_score k.id) (fused_score h.id) ≡ true) × (str_lt k.id h.id ≡ false))

  abbrev pub InRankOrder : List (Hit fl) → Type 0
  InRankOrder [] = Unit
  InRankOrder (h ∷ hs) = All (MayPrecede h) hs × InRankOrder hs

  -- The entry is of the tables, under the id of its hit.
  abbrev IsFused : Bytes × Fused fl → Type 0
  IsFused e = (lookup e.0 (fuse fl fts vec) ≡ some e.1) × ((hit_of fl e).id ≡ e.0)

  score-IsFused : (i : Bytes) (f : Fused fl) → IsFused (i, f) → fused_score f.hit.id ≡ f.rrf
  score-IsFused i f h = rw (h.1, h.0) refl

  not_better-MayPrecede :
      (d e : Bytes × Fused fl)
      → IsFused d
      → IsFused e
      → better fl e d ≡ false
      → MayPrecede (hit_of fl d) (hit_of fl e)
  unfolding better
  not_better-MayPrecede (i, f) (j, g) p q b =
      rw (score-IsFused i f p, score-IsFused j g q, p.1, q.1)
        (elim (Bool-cases (fl.eq_f g.rrf f.rrf)) [
          | inl t ↦ inr (t, rw t at b)
          | inr t ↦ inl (t, rw t at b)
        ])

  All-MayPrecede :
      (d : Bytes × Fused fl) (es : List (Bytes × Fused fl))
      → IsFused d
      → All IsFused es
      → All (λ e. better fl e d ≡ false) es
      → All (MayPrecede (hit_of fl d)) (hits_of fl es)
  unfolding hits_of
  All-MayPrecede d [] p q b = tt
  All-MayPrecede d (e ∷ es) p q b =
      (not_better-MayPrecede d e p q.0 b.0, All-MayPrecede d es p q.1 b.1)

  hits_of-InRankOrder :
      (es : List (Bytes × Fused fl))
      → All IsFused es
      → IsSorted (better fl) es
      → InRankOrder (hits_of fl es)
  unfolding hits_of
  hits_of-InRankOrder [] p s = tt
  hits_of-InRankOrder (e ∷ es) p s =
      (All-MayPrecede e es p.0 p.1 s.0, hits_of-InRankOrder es p.1 s.1)

  All-of_In : {A : Type 0} (P : A → Type 0) (xs : List A) → ((x : A) → In x xs → P x) → All P xs
  All-of_In P [] h = tt
  All-of_In P (x ∷ xs) h = (h x (inl refl), All-of_In P xs (λ y m. h y (inr m)))

  sorted-IsFused : All IsFused (sort_by (better fl) (fuse fl fts vec))
  sorted-IsFused = All-of_In IsFused _ (λ e m. (
    In-lookup e.0 e.1 _ (fuse-Distinct fl fts vec) ((In-sort_by (better fl) e _).0 m),
    fuse-AllKeyed fl fts vec e m,
  ))

  -- Where the comparison of Hybrid is an order, the fused list without a limit goes from the higher
  -- fused scores to the lower ones, and where they are the same from the smaller ids to the larger.
  pub hybrid-InRankOrder : IsOrder (better fl) → InRankOrder (hybrid fl fts vec 0)
  hybrid-InRankOrder o = rw (hybrid_sorted fl fts vec) (
      hits_of-InRankOrder (sort_by (better fl) (fuse fl fts vec)) sorted-IsFused
        (sort_by-IsSorted (better fl) o (fuse fl fts vec)))
