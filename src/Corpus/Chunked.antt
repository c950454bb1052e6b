-- ===== src/Corpus/Chunked.antt =====
-- What the two passes over the corpus do: the specification of the leafs that count.
pub mod Streams
pub mod Counting
pub mod Writing
pub mod First
use dph.Base.{
  ℕ, ◌≤◌, ◌<◌, ◌≡◌, ◌⊎◌, ◌≢◌, Bool, Option, none, some, List, [], ◌∷◌, ◌++◌, if◌then◌else◌, length,
  ◌==◌, take, All,
}
use dph.Base.Text.{Bytes, has}
use dph.Contract.{Leaf}
use dph.Corpus.{CorpusSource}

-- Every leaf that the sources emit, in order.
abbrev pub all_leafs : List CorpusSource → List Leaf
all_leafs [] = []
all_leafs (s ∷ ss) = s.leafs ++ all_leafs ss

-- The leafs before the limit; 0 is no limit.
abbrev pub within : ℕ → List Leaf → List Leaf
within limit ls = if limit == 0 then ls else take limit ls

-- The first leaf of each key that was not seen before.
unfoldable pub first_of_key : (Leaf → Bytes) → List Bytes → List Leaf → List Leaf
first_of_key key seen [] = []
first_of_key key seen (l ∷ ls) =
    let old = first_of_key key seen ls in
    let new = first_of_key key (key l ∷ seen) ls in if has seen (key l) then old else l ∷ new

-- The keys seen after the leafs.
unfoldable pub seen_after : (Leaf → Bytes) → List Bytes → List Leaf → List Bytes
seen_after key seen [] = seen
seen_after key seen (l ∷ ls) = seen_after key (if has seen (key l) then seen else key l ∷ seen) ls

-- No source ends with an error.
abbrev pub NoErrors : List CorpusSource → Type 0
NoErrors ss = All (λ (s : CorpusSource). s.ends ≡ none) ss
