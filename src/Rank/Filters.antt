-- ===== src/Rank/Filters.antt =====
-- The filters, the sorting by date and the cut of internal/brain/rank/rank.go.
use dph.Base.{
  ℕ, suc, ◌≡◌, ◌↔◌, refl, ◌∙◌, Bool, true, false, not, List, [], ◌∷◌, if◌then◌else◌, arith, In,
  In-keep, keep-In, keep, All, take, take_all, ltb,
}
use dph.Base.Text.{
  Bytes, str_eq, str_eq_iff, str_lt, str_lt_irrefl, str_lt_asymm, not_lt_trans, contains, is_empty,
}
use dph.Base.Sort.{In-sort_by, IsSorted, IsOrder, sort_by-IsSorted, sort_by-perm}
use mathlib.Core.List.{Perm}
use dph.Facts.Interval.{active_at}
use dph.Rank.{
  Float, Hit, cut, hybrid, filter_root, filter_repo, filter_as_of, earlier, sort_by_date,
  rank_and_filter_sort,
}

module _ (fl : Float) where
  -- An empty filter lets every hit pass.
  abbrev pub Passes : Bytes → Bytes → Bytes → Hit fl → Type 0
  Passes root repo as_of h =
      (is_empty root ≡ false → h.root ≡ root)
      × (is_empty repo ≡ false → contains h.source repo ≡ true)
      × (is_empty as_of ≡ false → active_at h.valid_from h.valid_to as_of ≡ true)

  -- A filter that is left out for the empty text.
  filter_if :
      (skip : Bool) (p : Hit fl → Bool) (hits : List (Hit fl)) (h : Hit fl)
      → In h (if not skip then keep p hits else hits) ↔ (In h hits × (skip ≡ false → p h ≡ true))
  filter_if true p hits h = (λ m. (m, λ e. cc), λ r. r.0)
  filter_if false p hits h = (
    λ m. ((keep-In p h hits m).0, λ e. (keep-In p h hits m).1),
    λ r. In-keep p h hits r.0 (r.1 refl),
  )

  sort_if :
      (test desc : Bool) (hits : List (Hit fl)) (h : Hit fl)
      → In h (if test then sort_by_date fl hits desc else hits) ↔ In h hits
  unfolding sort_by_date
  sort_if true desc hits h = In-sort_by (earlier fl desc) h hits
  sort_if false desc hits h = (λ m. m, λ m. m)

  -- The cut at no limit is none, and at a limit it takes that many from the front.
  pub cut_lem :
      {A : Type 0} (limit : ℕ) (xs : List A)
      → cut fl limit xs ≡ (if ltb 0 limit then take limit xs else xs)
  unfolding cut
  cut_lem limit xs = ground (arith, take_all limit xs)

  In-filter_root :
      (hits : List (Hit fl)) (root : Bytes) (h : Hit fl)
      → In h (if not (is_empty root) then filter_root fl hits root else hits)
        ↔ (In h hits × (is_empty root ≡ false → h.root ≡ root))
  unfolding filter_root
  In-filter_root hits root h =
      let r = filter_if (is_empty root) (λ k. str_eq k.root root) hits h in
      (
        λ m. ((r.0 m).0, λ e. (str_eq_iff h.root root).0 ((r.0 m).1 e)),
        λ q. r.1 (q.0, λ e. (str_eq_iff h.root root).1 (q.1 e)),
      )

  In-filter_repo :
      (hits : List (Hit fl)) (repo : Bytes) (h : Hit fl)
      → In h (if not (is_empty repo) then filter_repo fl hits repo else hits)
        ↔ (In h hits × (is_empty repo ≡ false → contains h.source repo ≡ true))
  unfolding filter_repo
  In-filter_repo hits repo h = filter_if (is_empty repo) (λ k. contains k.source repo) hits h

  In-filter_as_of :
      (hits : List (Hit fl)) (as_of : Bytes) (h : Hit fl)
      → In h (if not (is_empty as_of) then filter_as_of fl hits as_of else hits)
        ↔ (In h hits × (is_empty as_of ≡ false → active_at h.valid_from h.valid_to as_of ≡ true))
  unfolding filter_as_of
  In-filter_as_of hits [] h = filter_if true (λ k. active_at k.valid_from k.valid_to []) hits h
  In-filter_as_of hits (x ∷ xs) h =
      filter_if false (λ k. active_at k.valid_from k.valid_to (x ∷ xs)) hits h

  cut_none : (hits : List (Hit fl)) → cut fl 0 hits ≡ hits
  cut_none hits = cut_lem 0 hits

  -- The answer before the cut.
  rank_and_filter_sort-cut_of :
      (fts vec : List (Hit fl)) (root repo as_of : Bytes) (limit : ℕ) (sort_date desc : Bool)
      → rank_and_filter_sort fl fts vec root repo as_of limit sort_date desc
        ≡ cut fl limit (rank_and_filter_sort fl fts vec root repo as_of 0 sort_date desc)
  unfolding rank_and_filter_sort
  rank_and_filter_sort-cut_of fts vec root repo as_of limit sort_date desc = rw cut_none

  -- Without a limit a hit is in the answer exactly if it is one of the fused hits and passes
  -- every filter.
  pub rank_and_filter_sort-Passes :
      (fts vec : List (Hit fl)) (root repo as_of : Bytes) (sort_date desc : Bool) (h : Hit fl)
      → In h (rank_and_filter_sort fl fts vec root repo as_of 0 sort_date desc)
        ↔ (In h (hybrid fl fts vec 0) × Passes root repo as_of h)
  unfolding rank_and_filter_sort
  rank_and_filter_sort-Passes fts vec root repo as_of sort_date desc h =
      let a = In-filter_root (hybrid fl fts vec 0) root h in
      let b = In-filter_repo _ repo h in
      let c = In-filter_as_of _ as_of h in
      let d = sort_if sort_date desc _ h in
      rw cut_none (
        (
          λ m. let q = c.0 (d.0 m) in let r = b.0 q.0 in let s = a.0 r.0 in (s.0, (s.1, r.1, q.1)),
          λ p. d.1 (c.1 (b.1 (a.1 (p.0, p.1.0), p.1.1), p.1.2)),
        ))

  -- With a limit the answer is the front of the answer without one: the limit is applied after
  -- the filters and the sorting.
  pub rank_and_filter_sort-take :
      (fts vec : List (Hit fl)) (root repo as_of : Bytes) (limit : ℕ) (sort_date desc : Bool)
      → rank_and_filter_sort fl fts vec root repo as_of (suc limit) sort_date desc
        ≡ take (suc limit) (rank_and_filter_sort fl fts vec root repo as_of 0 sort_date desc)
  rank_and_filter_sort-take fts vec root repo as_of limit sort_date desc =
      let e : ltb 0 (suc limit) ≡ true = ground arith in
      rank_and_filter_sort-cut_of fts vec root repo as_of (suc limit) sort_date desc
      ∙ rw e at
          (cut_lem (suc limit) (rank_and_filter_sort fl fts vec root repo as_of 0 sort_date desc))

  earlier-asymm :
      (desc : Bool) (p q : Hit fl) → earlier fl desc p q ≡ true → earlier fl desc q p ≡ false
  unfolding earlier
  earlier-asymm desc p q h = ground (
    arith,
    str_lt_asymm p.valid_from q.valid_from,
    str_lt_asymm q.valid_from p.valid_from,
    str_eq_iff p.valid_from q.valid_from,
    str_eq_iff q.valid_from p.valid_from,
  )

  empty_not_lt : (a b : Bytes) → is_empty b ≡ true → str_lt a b ≡ false
  unfolding str_lt
  empty_not_lt [] [] e = refl
  empty_not_lt (x ∷ a) [] e = refl
  empty_not_lt a (y ∷ b) e = cc

  earlier-not_less_trans :
      (desc : Bool) (p q r : Hit fl)
      → earlier fl desc p q ≡ false
      → earlier fl desc q r ≡ false
      → earlier fl desc p r ≡ false
  unfolding earlier
  earlier-not_less_trans true p q r h k = ground (
    arith,
    str_eq_iff p.valid_from q.valid_from,
    str_eq_iff q.valid_from r.valid_from,
    str_eq_iff p.valid_from r.valid_from,
    not_lt_trans r.valid_from q.valid_from p.valid_from,
  )
  earlier-not_less_trans false p q r h k = ground (
    arith,
    str_eq_iff p.valid_from q.valid_from,
    str_eq_iff q.valid_from r.valid_from,
    str_eq_iff p.valid_from r.valid_from,
    not_lt_trans p.valid_from q.valid_from r.valid_from,
  )

  earlier-IsOrder : (desc : Bool) → IsOrder (earlier fl desc)
  earlier-IsOrder desc = record {
    asymm = earlier-asymm desc;
    not_less_trans = earlier-not_less_trans desc;
  }

  -- `p` may stand before `q`: hits without a date come last, and dates do not fall, or do not
  -- rise when the order is descending.
  abbrev pub MayPrecede : Bool → Hit fl → Hit fl → Type 0
  MayPrecede desc p q =
      (is_empty p.valid_from ≡ true → is_empty q.valid_from ≡ true)
      × (is_empty q.valid_from ≡ false
          → (if desc then str_lt p.valid_from q.valid_from else str_lt q.valid_from p.valid_from)
            ≡ false)

  abbrev pub InDateOrder : Bool → List (Hit fl) → Type 0
  InDateOrder desc [] = Unit
  InDateOrder desc (p ∷ hits) = All (MayPrecede desc p) hits × InDateOrder desc hits

  not_earlier : (desc : Bool) (p q : Hit fl) → earlier fl desc q p ≡ false → MayPrecede desc p q
  unfolding earlier
  not_earlier desc p q e = (
    ground (arith, str_eq_iff q.valid_from p.valid_from),
    ground (arith, str_eq_iff q.valid_from p.valid_from, str_lt_irrefl p.valid_from),
  )

  All-not_earlier :
      (desc : Bool) (p : Hit fl) (hits : List (Hit fl))
      → All (λ q. earlier fl desc q p ≡ false) hits
      → All (MayPrecede desc p) hits
  All-not_earlier desc p [] h = tt
  All-not_earlier desc p (q ∷ hits) h = (not_earlier desc p q h.0, All-not_earlier desc p hits h.1)

  IsSorted-InDateOrder :
      (desc : Bool) (hits : List (Hit fl)) → IsSorted (earlier fl desc) hits → InDateOrder desc hits
  IsSorted-InDateOrder desc [] h = tt
  IsSorted-InDateOrder desc (p ∷ hits) h =
      (All-not_earlier desc p hits h.0, IsSorted-InDateOrder desc hits h.1)

  -- Sorting by date gives the same hits in date order, undated ones last, in both directions.
  pub sort_by_date-InDateOrder :
      (hits : List (Hit fl)) (desc : Bool)
      → InDateOrder desc (sort_by_date fl hits desc) × Perm (sort_by_date fl hits desc) hits
  unfolding sort_by_date
  sort_by_date-InDateOrder hits desc = (
    IsSorted-InDateOrder desc _ (sort_by-IsSorted (earlier fl desc) (earlier-IsOrder desc) hits),
    sort_by-perm (earlier fl desc) hits,
  )
