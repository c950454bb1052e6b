-- ===== src/Facts/Contradict/Keys.antt =====
-- The sources that `independent` of internal/facts/contradict.go counts.
use dph.Base.{
  ℕ, suc, ◌+◌, ◌≡◌, inl, inr, true, false, List, [], ◌∷◌, ◌++◌, arith, length, In, if◌then◌else◌,
}
use dph.Base.Text.{Bytes, str_eq_refl, has, is_empty}
use dph.Facts.Contradict.{Source, source_key, collect_keys, independent}

module _ (itoa : ℕ → Bytes) where
  collect_keys-append :
      (i : ℕ) (seen : List Bytes) (ss ts : List Source)
      → collect_keys itoa i seen (ss ++ ts)
        ≡ collect_keys itoa (i + length ss) (collect_keys itoa i seen ss) ts
  unfolding collect_keys
  collect_keys-append i seen [] ts = let e : i + 0 ≡ i = omega arith in rw e
  collect_keys-append i seen (s ∷ ss) ts =
      let e : i + suc (length ss) ≡ suc i + length ss = omega arith in
      rw e (collect_keys-append (suc i) _ ss ts)

  -- A key that was seen stays seen.
  has-collect_keys :
      (i : ℕ) (seen : List Bytes) (ss : List Source) (k : Bytes)
      → has seen k ≡ true
      → has (collect_keys itoa i seen ss) k ≡ true
  unfolding collect_keys has
  has-collect_keys i seen [] k h = h
  has-collect_keys i seen (s ∷ ss) k h = has-collect_keys (suc i) _ ss k (ground arith)

  has_first :
      (i : ℕ) (seen : List Bytes) (s x : Source)
      → is_empty s.id ≡ false
      → s ≡ x
      → has (if has seen (source_key itoa i x) then seen else source_key itoa i x ∷ seen) s.id
        ≡ true
  unfolding has source_key
  has_first i seen s x ne e = ground (arith, str_eq_refl s.id)

  has_source :
      (i : ℕ) (seen : List Bytes) (ss : List Source) (s : Source)
      → is_empty s.id ≡ false
      → In s ss
      → has (collect_keys itoa i seen ss) s.id ≡ true
  unfolding collect_keys
  has_source i seen [] s ne m = absurd m
  has_source i seen (x ∷ ss) s ne (inr m) = has_source (suc i) _ ss s ne m
  has_source i seen (x ∷ ss) s ne (inl e) =
      has-collect_keys (suc i) _ ss s.id (has_first i seen s x ne e)

  -- Listing a source again, under the same id, adds no independent source.
  pub independent_again :
      (ss : List Source) (s : Source)
      → is_empty s.id ≡ false
      → In s ss
      → independent itoa (ss ++ s ∷ []) ≡ independent itoa ss
  unfolding independent collect_keys source_key
  independent_again ss s ne m =
      ground (arith, collect_keys-append 0 [] ss (s ∷ []), has_source 0 [] ss s ne m)
