-- ===== src/Corpus/Pool/Batches.antt =====
-- The batches of chunkBounds in internal/brain/corpus_pool.go.
use dph.Base.{
  ℕ, zero, suc, ◌+◌, ◌-◌, ◌≤◌, ◌<◌, ◌≡◌, ap, sym, ◌∙◌, inl, inr, List, [], ◌∷◌, ◌++◌, arith, ltb,
  ltb→lt, Bool-cases, length, take, drop, drop_all, take-append-drop_between, All,
}
use dph.Base.Number.{ℤ, pos, negsuc}
use dph.Corpus.Pool.{batch_size, batch_end, bounds, chunk_bounds, batch}

-- The batches of a list, joined.
abbrev pub joined {ℓ} : {A : Type ℓ} → List A → List (ℕ × ℕ) → List A
joined xs [] = []
joined xs (b ∷ bs) = batch xs b ++ joined xs bs

-- A batch of one element at least and `m` at most, inside the list.
abbrev pub IsBatch : ℕ → ℕ → ℕ × ℕ → Type 0
IsBatch n m (s, e) = (s < e) × (e ≤ n) × (e ≤ s + m)

batch_end_lem : (n m s : ℕ) → s < n → 1 ≤ m → IsBatch n m (s, batch_end n m s)
batch_end_lem n m s h k = ground arith

module _ {ℓ} {A : Type ℓ} where
  batch-append :
      (xs : List A) (m s : ℕ)
      → s < length xs
      → 1 ≤ m
      → batch xs (s, batch_end (length xs) m s) ++ drop (s + m) xs ≡ drop s xs
  batch-append xs m s h k = elim (Bool-cases (ltb (length xs) (s + m))) [
    | inl t ↦ rw t (
        ap (λ ys. take (length xs - s) (drop s xs) ++ ys)
          (drop_all (s + m) xs (omega (arith, ltb→lt (length xs) (s + m) t))
            ∙ sym (drop_all (length xs) xs (omega arith)))
        ∙ take-append-drop_between s (length xs) xs (omega arith))
    | inr f ↦ rw f (take-append-drop_between s (s + m) xs (omega arith))
  ]

  bounds-joined :
      (fuel m s : ℕ) (xs : List A)
      → 1 ≤ m
      → length xs ≤ s + fuel
      → joined xs (bounds fuel (length xs) m s) ≡ drop s xs
  unfolding bounds
  bounds-joined zero m s xs k h = sym (drop_all s xs (omega arith))
  bounds-joined (suc fuel) m s xs k h = elim (Bool-cases (ltb s (length xs))) [
    | inl t ↦ rw t (
        ap (λ ys. batch xs (s, batch_end (length xs) m s) ++ ys)
          (bounds-joined fuel m (s + m) xs k (omega arith))
        ∙ batch-append xs m s (ltb→lt s (length xs) t) k)
    | inr f ↦ rw f (sym (drop_all s xs (ground arith)))
  ]

bounds-IsBatch : (fuel n m s : ℕ) → 1 ≤ m → All (IsBatch n m) (bounds fuel n m s)
unfolding bounds
bounds-IsBatch zero n m s k = tt
bounds-IsBatch (suc fuel) n m s k = elim (Bool-cases (ltb s n)) [
  | inl t ↦ rw t (batch_end_lem n m s (ltb→lt s n t) k, bounds-IsBatch fuel n m (s + m) k)
  | inr f ↦ rw f tt
]

batch_size-pos : (n : ℕ) (size : ℤ) → 1 ≤ n → 1 ≤ batch_size n size
batch_size-pos n (pos zero) h = h
batch_size-pos n (pos (suc k)) h = omega arith
batch_size-pos n (negsuc k) h = h

chunk_bounds-eq-bounds :
    (n : ℕ) (size : ℤ) → 1 ≤ n → chunk_bounds n size ≡ bounds n n (batch_size n size) 0
unfolding chunk_bounds
chunk_bounds-eq-bounds n size h = ground (arith, batch_size-pos n size h)

-- The batches of chunkBounds, for the length of a list and any size, joined are the list, in order;
-- each has an element and at most as many as the size, or as the list where the size is not
-- positive.
pub chunk_bounds_lem :
    {A : Type 0} (xs : List A) (size : ℤ)
    → (joined xs (chunk_bounds (length xs) size) ≡ xs)
      × All (IsBatch (length xs) (batch_size (length xs) size)) (chunk_bounds (length xs) size)
unfolding chunk_bounds
chunk_bounds_lem [] size = (ground arith, ground arith)
chunk_bounds_lem (x ∷ xs) size = rw (chunk_bounds-eq-bounds (suc (length xs)) size (omega arith)) (
  bounds-joined (suc (length xs)) (batch_size (suc (length xs)) size) 0 (x ∷ xs)
      (batch_size-pos (suc (length xs)) size (omega arith)) (omega arith),
  bounds-IsBatch (suc (length xs)) (suc (length xs)) (batch_size (suc (length xs)) size) 0
      (batch_size-pos (suc (length xs)) size (omega arith)),
)
