-- ===== src/Ann/Again.antt =====
-- Rows that an index of internal/brain/ann/ann.go has already, inserted once more.
use dph.Base.{
  suc, ◌≡◌, refl, sym, ap, ◌∙◌, ◌⊎◌, inl, inr, Bool, true, false, List, [], ◌∷◌, arith, All,
  Bool-cases,
}
use dph.Base.Text.{Bytes, str_eq_iff}
use dph.Base.Dict.{bytes_eq, lookup-upsert}
use dph.Ann.{
  Vec, Row, Index, row_eligible, is_indexed, is_some, first_centroids, nearest_cell, insert_row,
  replay_row, replay,
}
use dph.Ann.Views.{SameView, SameView-refl, SameView-trans, SameView-skipped}

-- The row is in the index, or is refused.
abbrev pub IsKnown : Index → Row → Type 0
IsKnown ix r = (row_eligible ix r ≡ false) ⊎ (is_indexed ix r.id ≡ true)

pub IsKnown-SameView : {ix jx : Index} (r : Row) → SameView ix jx → IsKnown ix r → IsKnown jx r
IsKnown-SameView r p (inl e) = inl (rw⁻¹ p.params e)
IsKnown-SameView r p (inr e) = inr (ap is_some (sym (p.cells r.id)) ∙ e)

module _ {F : Type 0} (cosine : Vec → Vec → F) (gt : F → F → Bool) (low : F) where
  insert_row-has :
      (r : Row) (ix : Index) (id : Bytes)
      → (is_indexed ix id ≡ true) ⊎ (r.id ≡ id)
      → is_indexed (insert_row cosine gt low r ix) id ≡ true
  insert_row-has r ix id h = ground (
    arith,
    lookup-upsert r.id id
        (λ old. nearest_cell cosine gt low r.vec (first_centroids r.vec ix.centroids)) ix.id_cell,
    str_eq_iff r.id id,
  )

  -- A row is known after it was replayed, and what was known before is known still.
  replay_row-IsKnown :
      (q r : Row) (ix : Index) → (q ≡ r) ⊎ IsKnown ix r → IsKnown (replay_row cosine gt low q ix) r
  unfolding replay_row
  replay_row-IsKnown q r ix h = elim (Bool-cases (row_eligible ix q)) [
    | inr f ↦ rw f (refused f h)
    | inl t ↦ elim (Bool-cases (is_indexed ix q.id)) [
      | inl k ↦ rw (t, k) (indexed k h)
      | inr k ↦ rw (t, k) (inserted h)
    ]
  ]
    where
      refused :
          row_eligible ix q ≡ false
          → (q ≡ r) ⊎ IsKnown ix r
          → IsKnown (record ix { skipped = suc ix.skipped }) r
      refused f (inl e) = inl (rw⁻¹ e f)
      refused f (inr k) = k

      indexed : is_indexed ix q.id ≡ true → (q ≡ r) ⊎ IsKnown ix r → IsKnown ix r
      indexed k (inl e) = inr (rw⁻¹ e k)
      indexed k (inr m) = m

      inserted : (q ≡ r) ⊎ IsKnown ix r → IsKnown (insert_row cosine gt low q ix) r
      inserted (inl e) = inr (insert_row-has q ix r.id (inr (ap (λ x. x.id) e)))
      inserted (inr (inl e)) = inl e
      inserted (inr (inr e)) = inr (insert_row-has q ix r.id (inl e))

  replay-keeps_IsKnown :
      (rs : List Row) (r : Row) (ix : Index) → IsKnown ix r → IsKnown (replay cosine gt low rs ix) r
  unfolding replay
  replay-keeps_IsKnown [] r ix h = h
  replay-keeps_IsKnown (q ∷ rs) r ix h =
      replay-keeps_IsKnown rs r (replay_row cosine gt low q ix) (replay_row-IsKnown q r ix (inr h))

  pub replay-IsKnown : (rs : List Row) (ix : Index) → All (IsKnown (replay cosine gt low rs ix)) rs
  unfolding replay
  replay-IsKnown [] ix = tt
  replay-IsKnown (r ∷ rs) ix = (
    replay-keeps_IsKnown rs r (replay_row cosine gt low r ix)
        (replay_row-IsKnown r r ix (inl refl)),
    replay-IsKnown rs (replay_row cosine gt low r ix),
  )

  replay_row_known :
      (r : Row) (ix : Index) → IsKnown ix r → SameView ix (replay_row cosine gt low r ix)
  unfolding replay_row
  replay_row_known r ix h = elim (Bool-cases (row_eligible ix r)) [
    | inr f ↦ rw f (SameView-skipped (SameView-refl ix))
    | inl t ↦ rw (t, indexed t h) (SameView-refl ix)
  ]
    where
      indexed : row_eligible ix r ≡ true → IsKnown ix r → is_indexed ix r.id ≡ true
      indexed t (inl f) = absurd (ground arith)
      indexed t (inr k) = k

  -- To replay rows that are known changes no cell.
  pub replay_known :
      (rs : List Row) (ix : Index) → All (IsKnown ix) rs → SameView ix (replay cosine gt low rs ix)
  unfolding replay
  replay_known [] ix h = SameView-refl ix
  replay_known (r ∷ rs) ix h =
      let p = replay_row_known r ix h.0 in
      SameView-trans p (replay_known rs (replay_row cosine gt low r ix) (all_known rs p h.1))
    where
      all_known :
          (rs : List Row) {jx : Index} → SameView ix jx → All (IsKnown ix) rs → All (IsKnown jx) rs
      all_known [] p h = tt
      all_known (r ∷ rs) p h = (IsKnown-SameView r p h.0, all_known rs p h.1)
