-- ===== src/Corpus/Chunked/First.antt =====
-- The leafs that are first of their keys, for internal/brain/corpus_chunk.go.
use dph.Base.{◌≡◌, ◌⊎◌, inl, inr, true, false, List, [], ◌∷◌, arith, In, map}
use dph.Base.Text.{Bytes, has, str_eq_refl}
use dph.Contract.{Leaf}
use dph.Corpus.Chunked.{first_of_key}

module _ (key : Leaf → Bytes) where
  -- No leaf has a key in `seen` or the key of an earlier leaf.
  abbrev pub NoRepeat : List Bytes → List Leaf → Type 0
  NoRepeat seen [] = Unit
  NoRepeat seen (l ∷ ls) = (has seen (key l) ≡ false) × NoRepeat (key l ∷ seen) ls

  first_of_key-NoRepeat :
      (ls : List Leaf) (seen : List Bytes) → NoRepeat seen (first_of_key key seen ls)
  unfolding first_of_key
  first_of_key-NoRepeat [] seen = tt
  first_of_key-NoRepeat (l ∷ ls) seen =
      ground (arith, first_of_key-NoRepeat ls seen, first_of_key-NoRepeat ls (key l ∷ seen))

  first_of_key-covers :
      (ls : List Leaf) (seen : List Bytes) (l : Leaf)
      → In l ls
      → (has seen (key l) ≡ true) ⊎ (has (map key (first_of_key key seen ls)) (key l) ≡ true)
  unfolding first_of_key has
  first_of_key-covers [] seen l m = absurd m
  first_of_key-covers (x ∷ ls) seen l (inl e) = ground (arith, str_eq_refl (key l))
  first_of_key-covers (x ∷ ls) seen l (inr m) =
      ground (arith, first_of_key-covers ls seen l m, first_of_key-covers ls (key x ∷ seen) l m)

  -- The leafs that are first of their keys have different keys, and every leaf has its key among
  -- theirs.
  pub first_of_key_lem :
      (ls : List Leaf)
      → NoRepeat [] (first_of_key key [] ls)
        × ((l : Leaf) → In l ls → has (map key (first_of_key key [] ls)) (key l) ≡ true)
  unfolding has
  first_of_key_lem ls =
      (first_of_key-NoRepeat ls [], λ l m. not_seen l (first_of_key-covers ls [] l m))
    where
      not_seen :
          (l : Leaf)
          → (has [] (key l) ≡ true) ⊎ (has (map key (first_of_key key [] ls)) (key l) ≡ true)
          → has (map key (first_of_key key [] ls)) (key l) ≡ true
      not_seen l (inl e) = cc
      not_seen l (inr e) = e
