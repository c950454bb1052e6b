-- ===== src/Corpus/Pool.antt =====
-- The batching helpers of the corpus writer: chunkBounds and filterExistingLeafs of
-- internal/brain/corpus_pool.go.
pub mod Batches
pub mod Resume
use dph.Base.{
  ℕ, zero, suc, ◌+◌, ◌-◌, Bool, List, [], ◌∷◌, ◌||◌, if◌then◌else◌, leb, ltb, take, drop,
}
use dph.Base.Number.{ℤ, pos, negsuc}
use dph.Base.Text.{Bytes}
use dph.Contract.{Leaf, content_hash, normalize_text}

-- `size <= 0` is a single batch.
abbrev pub batch_size : ℕ → ℤ → ℕ
batch_size n (pos zero) = n
batch_size n (pos (suc k)) = suc k
batch_size n (negsuc k) = n

-- The end of a batch.
abbrev pub batch_end : ℕ → ℕ → ℕ → ℕ
batch_end n size s = let e = s + size in if ltb n e then n else e

-- The loop of `chunkBounds` from `s`, on fuel.
unfoldable pub bounds : ℕ → ℕ → ℕ → ℕ → List (ℕ × ℕ)
bounds zero n size s = []
bounds (suc fuel) n size s =
    let rest = bounds fuel n size (s + size) in
    if ltb s n then (s, batch_end n size s) ∷ rest else []

-- `chunkBounds`, for the length of a list: each round takes one element at least, so that `n` rounds
-- are enough.
unfoldable pub chunk_bounds : ℕ → ℤ → List (ℕ × ℕ)
chunk_bounds n size = let m = batch_size n size in if leb n 0 || leb m 0 then [] else bounds n n m 0

-- `leafs[b[0]:b[1]]`.
abbrev pub batch {ℓ} : {A : Type ℓ} → List A → ℕ × ℕ → List A
batch xs (s, e) = take (e - s) (drop s xs)

module _ (to_valid_utf8 : Bytes → Bytes) (sha256_hex : Bytes → Bytes) where
  -- A leaf with its text normalized.
  abbrev pub normalized : Leaf → Leaf
  normalized l = record l { text = normalize_text to_valid_utf8 sha256_hex l.text }

  -- `filterExistingLeafs`.
  unfoldable pub filter_existing_leafs : (Bytes → Bool) → List Leaf → List Leaf
  filter_existing_leafs existing [] = []
  filter_existing_leafs existing (l ∷ ls) =
      let rest = filter_existing_leafs existing ls in
      if existing (content_hash to_valid_utf8 sha256_hex (normalized l))
      then rest
      else normalized l ∷ rest
