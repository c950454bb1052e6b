-- ===== src/Tests/SearchExamples.antt =====
-- Examples on the search in the nearest-neighbour index.
use dph.Base.{
  ℕ, zero, suc, ◌≡◌, ◌≤◌, ◌∙◌, refl, ap, inl, inr, Bool, true, false, not, List, [], ◌∷◌, arith,
  ltb, ◌==◌, length, map, take, if◌then◌else◌,
}
use dph.Base.Number.{pos}
use dph.Base.Text.{Bytes, codes, str_lt, str_lt_asymm, not_lt_trans}
use dph.Base.Sort.{IsSorted, sort_by, sort_by-perm, sort_by-IsSorted, IsOrder}
use dph.Ann.{Vec, Row, Index, all_rows}
use dph.Ann.Files.{eligible_rows, rebuilt}
use dph.Ann.Built.{build-perm, centroid_count}
use dph.Ann.Search.{Scored, Cand, closer, better, hit_of, score_row, size_of, search}
use dph.Ann.Search.Ranking.{Sorts, search_all}
use mathlib.Core.List.{Perm}
use mathlib.Core.List.Perm

-- The first number of a vector as its similarity.
abbrev first_number : Vec → ℕ
first_number [] = 0
first_number (f ∷ v) = f

abbrev above : ℕ → ℕ → Bool
above a b = ltb b a

abbrev same : ℕ → ℕ → Bool
same a b = a == b

abbrev as_it_is : ℕ → ℕ
as_it_is n = n

abbrev nearer : Scored ℕ → Scored ℕ → Bool
nearer = closer first_number above same as_it_is

abbrev first : Cand ℕ → Cand ℕ → Bool
first = better first_number above same as_it_is

nearer-IsOrder : IsOrder nearer
nearer-IsOrder = record {
  asymm = λ a b h. ground arith;
  not_less_trans = λ a b c h k. ground arith;
}

first-IsOrder : IsOrder first
first-IsOrder = record {
  asymm = λ a b h. ground (arith, str_lt_asymm a.row.id b.row.id);
  not_less_trans = λ a b c h k. ground (arith, not_lt_trans a.row.id b.row.id c.row.id);
}

nearer-Sorts : Sorts nearer (sort_by nearer)
nearer-Sorts xs = (sort_by-perm nearer xs, sort_by-IsSorted nearer nearer-IsOrder xs)

first-Sorts : Sorts first (sort_by first)
first-Sorts xs = (sort_by-perm first xs, sort_by-IsSorted first first-IsOrder xs)

abbrev row_of : Bytes → ℕ → Row
row_of id f = record { id = id; vec = f ∷ [] }

-- Two cells, with three rows of which two are equally similar.
abbrev index : Index
index = record {
  params = record { dim = 1; nlist = 2; nprobe = 2 };
  centroids = (5 ∷ []) ∷ (9 ∷ []) ∷ [];
  lists = (row_of (codes "b") 5 ∷ row_of (codes "c") 6 ∷ []) ∷ (row_of (codes "a") 6 ∷ []) ∷ [];
  id_cell = (codes "b", 0) ∷ (codes "c", 0) ∷ (codes "a", 1) ∷ [];
  is_stored = false;
  wal_open = false;
  dirty = 3;
  skipped = 0;
}

search_test :
    search first_number above same as_it_is (sort_by nearer) (sort_by first) index false (pos 2)
    ≡ record { id = codes "a"; score = 6 } ∷ record { id = codes "c"; score = 6 } ∷ []
unfolding search sort_by dph.Base.Sort.insert_by str_lt
search_test = refl

search_all_example :
    (ranked : List (Cand ℕ)) × Perm ranked
      (map (score_row first_number above same as_it_is) (all_rows index.lists))
    × IsSorted first ranked
    × (search first_number above same as_it_is (sort_by nearer) (sort_by first) index false (pos 2)
        ≡ map (hit_of first_number above same as_it_is) (take (size_of (pos 2)) ranked))
search_all_example =
    search_all first_number above same as_it_is (sort_by nearer) (sort_by first) nearer-Sorts
      first-Sorts index (pos 2) refl (omega arith) refl refl

-- The first number, and the first row.
abbrev first_of : ℕ → List ℕ → ℕ
first_of cnt [] = 0
first_of cnt (f ∷ fs) = f

abbrev pick_first : ℕ → ℕ → ℕ
pick_first i n = 0

abbrev in_order : List Row → List Row
in_order rs = rs

abbrev cosine : Vec → Vec → ℕ
cosine v c = first_number v

-- One id twice, and a row of another dimension.
abbrev given_rows : List Row
given_rows = row_of (codes "a") 3 ∷ row_of (codes "a") 3 ∷ record { id = codes "b"; vec = [] } ∷ []

build-perm_example :
    Perm
      (all_rows
        (rebuilt cosine above 0 first_of pick_first in_order in_order given_rows index).lists)
      (eligible_rows index given_rows)
    × (length (rebuilt cosine above 0 first_of pick_first in_order in_order given_rows index).lists
        ≡ length
            (rebuilt cosine above 0 first_of pick_first in_order in_order given_rows
              index).centroids)
    × (length
          (rebuilt cosine above 0 first_of pick_first in_order in_order given_rows index).centroids
        ≡ centroid_count 2 (length (eligible_rows index given_rows)))
build-perm_example =
    build-perm cosine above 0 first_of pick_first in_order in_order (λ rs. Perm.refl rs)
      (λ rs. Perm.refl rs) given_rows index (omega arith)

-- The id that is given twice stands in the cell twice, and once in the map of ids.
build_twice_test :
    (all_rows (rebuilt cosine above 0 first_of pick_first in_order in_order given_rows index).lists
      ≡ row_of (codes "a") 3 ∷ row_of (codes "a") 3 ∷ [])
    × ((rebuilt cosine above 0 first_of pick_first in_order in_order given_rows index).id_cell
        ≡ (codes "a", 0) ∷ [])
unfolding rebuilt eligible_rows dph.Ann.Files.fill_cells dph.Ann.Files.cell_count
    dph.Ann.Kmeans.kmeans dph.Ann.Kmeans.seeded dph.Ann.Kmeans.rounds dph.Ann.Kmeans.move_all
    dph.Ann.append_at dph.Ann.nearest_from dph.Ann.zero_norm dph.Ann.Snapshot.place_cells
    dph.Ann.Snapshot.place_rows dph.Base.Dict.upsert dph.Base.Text.str_eq
build_twice_test = (refl, refl)
