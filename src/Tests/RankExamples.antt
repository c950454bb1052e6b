-- ===== src/Tests/RankExamples.antt =====
-- Examples on the ranking.
use dph.Base.{ℕ, ◌+◌, ◌≡◌, refl, ◌↔◌, true, false, ◌||◌, List, [], ◌∷◌, length, In, ltb, ◌==◌}
use dph.Base.Text.{Bytes, codes, has}
use dph.Rank.{Float, Hit, hybrid, rank_and_filter_sort}
use dph.Rank.Fusion.{ids, NoDouble, hybrid_lem}
use dph.Rank.Filters.{Passes, rank_and_filter_sort-Passes}

-- Scores that count in millionths.
abbrev counts : Float
counts = record {
  F = ℕ;
  zero_f = 0;
  add_f = λ a b. a + b;
  reciprocal = λ n. 1;
  gt_f = λ a b. ltb b a;
  eq_f = λ a b. a == b;
}

abbrev hit : Bytes → Bytes → Hit counts
hit id day = record {
  id = id;
  text = codes "t";
  root = codes "info";
  confidence = codes "inferred";
  source = codes "git/repo";
  score = 0;
  snippet = [];
  valid_from = day;
  valid_to = [];
  hops = [];
}

abbrev by_text : List (Hit counts)
by_text = hit (codes "a") (codes "2025-02-01") ∷ hit (codes "b") [] ∷ []

abbrev by_vector : List (Hit counts)
by_vector = hit (codes "c") (codes "2025-01-01") ∷ hit (codes "a") (codes "2025-02-01") ∷ []

hybrid_lem_example :
    ((i : Bytes)
      → has (ids counts (hybrid counts by_text by_vector 0)) i
        ≡ (has (ids counts by_text) i || has (ids counts by_vector) i))
    × NoDouble counts (hybrid counts by_text by_vector 0)
hybrid_lem_example = hybrid_lem counts by_text by_vector

-- Found twice is the higher score, and of the others the smaller id is first.
hybrid_test :
    ids counts (hybrid counts by_text by_vector 0) ≡ codes "a" ∷ codes "b" ∷ codes "c" ∷ []
unfolding hybrid dph.Rank.hits_of dph.Rank.cut dph.Rank.fuse dph.Rank.fuse_all dph.Rank.fuse_fts
    dph.Rank.fuse_vec dph.Rank.better dph.Base.Sort.sort_by dph.Base.Sort.insert_by
    dph.Base.Dict.upsert dph.Base.Text.str_eq dph.Base.Text.str_lt
hybrid_test = refl

rank_and_filter_sort-Passes_example :
    In (hit (codes "b") []) (
      rank_and_filter_sort counts by_text by_vector []
        (codes "repo")
        (codes "2025-01-15")
        0
        true
        false)
    ↔ (In (hit (codes "b") []) (hybrid counts by_text by_vector 0)
        × Passes counts [] (codes "repo") (codes "2025-01-15") (hit (codes "b") []))
rank_and_filter_sort-Passes_example =
    rank_and_filter_sort-Passes counts by_text by_vector [] (codes "repo") (codes "2025-01-15") true
      false (hit (codes "b") [])

abbrev answer : Bytes → ℕ
answer query = length query
