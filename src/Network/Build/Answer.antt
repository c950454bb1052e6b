-- ===== src/Network/Build/Answer.antt =====
-- The answer of BuildLinks of internal/network/network.go: which links it holds, and their order.
use dph.Base.{
  ℕ, ◌<◌, ◌≡◌, sym, ap, ◌∙◌, ◌⊎◌, inl, inr, Bool, true, false, Option, none, some, List, [], ◌∷◌,
  if◌then◌else◌, arith, Option-cases, In, All, All-In,
}
use dph.Base.Text.{Bytes, str_eq, str_lt, is_empty, trim_space}
use dph.Base.Dict.{bytes_eq, lookup, In-lookup, lookup-In}
use dph.Base.Sort.{
  sort_by, In-sort_by, IsOrder, sort_by-IsSorted, Pairwise, sort_by-Pairwise, Pairwise-map,
}
use dph.Network.{CommitRow, Rows, Filter, Link}
use dph.Network.Links.{Acc, Accs, names_from}
use dph.Network.Build.{links_of, gathered, build_links}
use dph.Network.Build.Letters.{msgs_of, letters}
use dph.Network.Build.Counts.{gathered-msgs}
use dph.Network.Build.Grounds.{Grounded, Sound, Accounted}
use dph.Network.Build.Ledger.{gathered-Sound}
use dph.Network.Build.Order.{
  Differ, Differ-sym, less, less-IsOrder, made, linked, FromEntry, links_of-In, links_of-Differ,
  strict,
}

-- `l` stands before `k`: a greater weight, or the same and a smaller address.
abbrev pub StandsBefore : Link → Link → Type 0
StandsBefore l k =
    (k.weight < l.weight) ⊎ ((l.weight ≡ k.weight) × (str_lt l.person k.person ≡ true))

module _ (lower : Bytes → Bytes) (fold_eq : Bytes → Bytes → Bool) (parse : Bytes → Option ℕ)
    (classify : Bytes → Bytes → Bytes)
    (repo_order : List (Bytes × List CommitRow) → List (Bytes × List CommitRow)) (rows : Rows)
    (f : Filter) where
  -- The person that the answer is about.
  abbrev pub asked : Bytes
  asked = lower (trim_space f.person)

  abbrev all_names : List (Bytes × Bytes)
  all_names = names_from [] rows.persons

  abbrev answer : List Link
  answer = build_links lower fold_eq parse classify repo_order rows f

  abbrev in_progress : Accs
  in_progress = gathered lower fold_eq parse all_names f asked classify repo_order rows

  abbrev order_less : Link → Link → Bool
  order_less = less lower fold_eq parse all_names f asked classify

  abbrev made_links : List Link
  made_links = linked lower fold_eq parse all_names f asked classify in_progress

  -- The repositories that are gone through are those of the map.
  abbrev pub GoesOver : Type 0
  GoesOver =
      (r : Bytes × List CommitRow) (rs : List (Bytes × List CommitRow))
      → In r (repo_order rs)
      → In r rs

  accounted : GoesOver → Accounted lower fold_eq parse all_names f asked rows in_progress
  accounted g = gathered-Sound lower fold_eq parse all_names f asked rows classify repo_order g

  answer-FromEntry :
      (l : Link)
      → In l answer
      → FromEntry lower fold_eq parse all_names f asked classify l in_progress
  unfolding build_links
  answer-FromEntry l = sorted (is_empty asked)
    where
      sorted :
          (t : Bool)
          → In l (if t then [] else sort_by order_less made_links)
          → FromEntry lower fold_eq parse all_names f asked classify l in_progress
      sorted true i = absurd i
      sorted false i =
          links_of-In lower fold_eq parse all_names f asked classify l in_progress
            ((In-sort_by order_less l made_links).0 i)

  entry :
      GoesOver
      → (e : Bytes) (a : Acc) → In (e, a) in_progress
      → Sound lower fold_eq parse all_names f asked rows (e, a)
  entry g e a j = All-In _ (e, a) in_progress (accounted g).0 j

  order : IsOrder order_less
  order = less-IsOrder lower fold_eq parse all_names f asked classify

  before : (l k : Link) → order_less l k ≡ true → StandsBefore l k
  before l k t = ground (arith, t)

  -- Every link of the answer is with somebody else than the person asked for, and each of its premises
  -- names a letter or a commit of the rows, of the period of the filter, that involves the person of
  -- the link, and has its day; where Go's loop over the map of repositories goes over its entries.
  pub build_links-Grounded :
      GoesOver
      → (l : Link) → In l answer
      → (str_eq l.person asked ≡ false)
        × All (Grounded lower fold_eq parse all_names f asked rows l.person) l.premises
  build_links-Grounded g l i = of_entry (answer-FromEntry l i)
    where
      of_entry :
          FromEntry lower fold_eq parse all_names f asked classify l in_progress
          → (str_eq l.person asked ≡ false)
            × All (Grounded lower fold_eq parse all_names f asked rows l.person) l.premises
      of_entry (e, a, j, q) =
          rw (q, (entry g e a j).person) ((entry g e a j).other, (entry g e a j).grounds)

  -- The letters that a link counts are those of the period that one of the two sent to the other,
  -- each letter once, where Go's loop over the map of repositories goes over its entries.
  pub build_links-msgs :
      GoesOver
      → (l : Link) → In l answer
      → l.msgs ≡ letters lower fold_eq parse f asked l.person rows.msgs
  build_links-msgs g l i = of_entry (answer-FromEntry l i)
    where
      of_entry :
          FromEntry lower fold_eq parse all_names f asked classify l in_progress
          → l.msgs ≡ letters lower fold_eq parse f asked l.person rows.msgs
      of_entry (e, a, j, q) =
          ap (λ x. x.msgs) q
          ∙ (sym (ap msgs_of (In-lookup e a in_progress (accounted g).1 j))
              ∙ (gathered-msgs all_names lower fold_eq parse f asked classify repo_order e rows
                  ∙ ap (λ x. letters lower fold_eq parse f asked x rows.msgs)
                      (sym (ap (λ x. x.person) q ∙ (entry g e a j).person))))

  -- Each link of the answer stands before all later ones: its weight is greater, or the same and its
  -- address is smaller, so that no person has two links; where Go's loop over the map of repositories
  -- goes over its entries.
  pub build_links-Ranked : GoesOver → Pairwise StandsBefore answer
  unfolding build_links
  build_links-Ranked g = sorted (is_empty asked)
    where
      sorted : (t : Bool) → Pairwise StandsBefore (if t then [] else sort_by order_less made_links)
      sorted true = tt
      sorted false = Pairwise-map before _ (
          strict lower fold_eq parse all_names f asked classify _
            (sort_by-IsSorted order_less order made_links)
            (sort_by-Pairwise order_less Differ Differ-sym made_links (
              links_of-Differ lower fold_eq parse all_names f asked classify rows in_progress
                (accounted g))))

  linked-made :
      is_empty f.project ≡ true
      → (e : Bytes) (a : Acc) (accs : Accs) → In (e, a) accs
      → In
          (made lower fold_eq parse all_names f asked classify a)
          (linked lower fold_eq parse all_names f asked classify accs)
  unfolding links_of
  linked-made n e a [] i = absurd i
  linked-made n e a ((d, b) ∷ accs) (inl p) =
      rw n (inl (ap (λ x. made lower fold_eq parse all_names f asked classify x.1) p))
  linked-made n e a ((d, b) ∷ accs) (inr i) = rw n (inr (linked-made n e a accs i))

  -- Whoever wrote to the person asked for, or got a letter from them, in the period, has a link in the
  -- answer when no project is asked for; where Go's loop over the map of repositories goes over its
  -- entries.
  pub build_links_reaches :
      GoesOver
      → is_empty asked ≡ false
      → is_empty f.project ≡ true
      → (k : Bytes) → 0 < letters lower fold_eq parse f asked k rows.msgs
      → (l : Link) × In l answer × (l.person ≡ k)
  unfolding build_links
  build_links_reaches g s n k h = found (Option-cases (lookup k in_progress))
    where
      found :
          (lookup k in_progress ≡ none) ⊎ ((a : Acc) × (lookup k in_progress ≡ some a))
          → (l : Link) × In l answer × (l.person ≡ k)
      found (inl q) = absurd (
          omega (
            arith,
            h,
            sym (gathered-msgs all_names lower fold_eq parse f asked classify repo_order k rows)
                ∙ ap msgs_of q,
          ))
      found (inr (a, q)) = rw s (
        made lower fold_eq parse all_names f asked classify a,
        (In-sort_by order_less _ made_links).1
            (linked-made n k a in_progress (lookup-In k a in_progress q)),
        (entry g k a (lookup-In k a in_progress q)).person,
      )
