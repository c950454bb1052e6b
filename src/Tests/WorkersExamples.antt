-- ===== src/Tests/WorkersExamples.antt =====
-- Examples on the worker pool: two items, and the later one ends first.
use dph.Base.{
  ℕ, ◌≡◌, ◌<◌, ◌≤◌, ◌⊎◌, refl, Option, none, some, List, [], ◌∷◌, get_elem?, length, arith,
}
use dph.Base.Text.{Bytes, codes}
use dph.Corpus.Workers.{
  Job, Pool, no_result, result_of, start_pool, fed_with, finished_with, feed, finish, Reaches,
  start, move,
}
use dph.Corpus.Workers.Slots.{parallel_embed_lem}

-- The length of the text as its embedding; the empty text is an error.
abbrev measure : Bytes → ℕ × Option ℕ
measure [] = (0, some 1)
measure (c ∷ s) = (length (c ∷ s), none)

abbrev two_texts : List Bytes
two_texts = codes "ab" ∷ [] ∷ []

abbrev job : ℕ → Bytes → Job
job i text = record { i = i; text = text }

abbrev both_busy : Pool ℕ
both_busy =
    fed_with 0 measure two_texts 2 []
      (fed_with 0 measure two_texts 2 (codes "ab") (start_pool 0 measure two_texts 2))

abbrev all_done : Pool ℕ
all_done =
    finished_with 0 measure two_texts 2 (job 0 (codes "ab")) []
      (finished_with 0 measure two_texts 2 (job 1 []) (job 0 (codes "ab") ∷ []) both_busy)

all_done-Reaches : Reaches 0 measure two_texts 2 all_done
all_done-Reaches =
    move
      (move
        (move (move start (feed (start_pool 0 measure two_texts 2) (codes "ab") refl (omega arith)))
          (feed (fed_with 0 measure two_texts 2 (codes "ab") (start_pool 0 measure two_texts 2)) []
            refl (omega arith)))
        (finish both_busy [] (job 1 []) (job 0 (codes "ab") ∷ []) refl))
      (finish (finished_with 0 measure two_texts 2 (job 1 []) (job 0 (codes "ab") ∷ []) both_busy)
        [] (job 0 (codes "ab")) [] refl)

parallel_embed_lem_example :
    (all_done.done ≡ all_done.fed)
    × ((i : ℕ) (text : Bytes)
        → get_elem? two_texts i ≡ some text
        → ((i < all_done.fed)
            × (get_elem? all_done.results i ≡ some (result_of 0 measure two_texts 2 (job i text))))
          ⊎ ((all_done.fed ≤ i)
              × (get_elem? all_done.results i ≡ some (no_result 0 measure two_texts 2))))
parallel_embed_lem_example = parallel_embed_lem 0 measure two_texts 2 all_done all_done-Reaches refl
