-- ===== src/Network/Build/Order.antt =====
-- The links that BuildLinks of internal/network/network.go makes of those in progress, and their order.
use dph.Base.{
  ℕ, ◌≡◌, refl, ap, ◌∙◌, inl, inr, Bool, true, false, not, ◌&&◌, Option, none, List, [], ◌∷◌,
  if◌then◌else◌, arith, Bool-cases, In, All, All-In, All-of_In,
}
use dph.Base.Text.{Bytes, str_eq, str_eq_iff, str_lt_total, not_lt_trans, str_lt_asymm, is_empty}
use dph.Base.Dict.{bytes_eq, lookup, Distinct, In-lookup}
use dph.Base.Sort.{IsOrder, IsSorted, Pairwise}
use dph.Network.{Rows, Filter, Link}
use dph.Network.Links.{Acc, Accs}
use dph.Network.Build.{sorted_link, finished, has_project, links_of, stronger}
use dph.Network.Build.Grounds.{Sound, Accounted}

-- Both links are of different persons.
abbrev pub Differ : Link → Link → Type 0
Differ l k = str_eq l.person k.person ≡ false

pub Differ-sym : (l k : Link) → Differ l k → Differ k l
Differ-sym l k d = ground (arith, d, str_eq_iff l.person k.person, str_eq_iff k.person l.person)

module _ (lower : Bytes → Bytes) (fold_eq : Bytes → Bytes → Bool) (parse : Bytes → Option ℕ)
    (names : List (Bytes × Bytes)) (f : Filter) (target : Bytes)
    (classify : Bytes → Bytes → Bytes) where
  abbrev pub less : Link → Link → Bool
  less = stronger lower fold_eq parse names f target classify

  pub less-IsOrder : IsOrder less
  less-IsOrder = record {
    asymm = λ l k h. ground (arith, h, str_lt_asymm l.person k.person);
    not_less_trans = λ a b c h g. ground (arith, h, g, not_lt_trans a.person b.person c.person);
  }

  abbrev pub made : Acc → Link
  made a =
      finished lower fold_eq parse names f target classify
        (sorted_link lower fold_eq parse names f target classify a)

  abbrev is_cut : Acc → Bool
  is_cut a =
      not (is_empty f.project)
      && not (
          has_project lower fold_eq parse names f target f.project
            (sorted_link lower fold_eq parse names f target classify a).projects)

  abbrev pub linked : Accs → List Link
  linked accs = links_of lower fold_eq parse names f target classify accs

  -- A link of the answer is one in progress.
  abbrev pub FromEntry : Link → Accs → Type 0
  FromEntry l accs = (e : Bytes) × (a : Acc) × In (e, a) accs × (l ≡ made a)

  pub links_of-In : (l : Link) (accs : Accs) → In l (linked accs) → FromEntry l accs
  unfolding links_of
  links_of-In l [] h = absurd h
  links_of-In l ((e, a) ∷ accs) h = taken (λ i. links_of-In l accs i) (is_cut a) h
    where
      later_entry : FromEntry l accs → FromEntry l ((e, a) ∷ accs)
      later_entry (d, b, i, q) = (d, b, inr i, q)

      taken :
          (In l (linked accs) → FromEntry l accs)
          → (t : Bool) → In l (if t then linked accs else made a ∷ linked accs)
          → FromEntry l ((e, a) ∷ accs)
      taken k true i = later_entry (k i)
      taken k false (inl q) = (e, a, inl refl, q)
      taken k false (inr i) = later_entry (k i)

  module _ (rows : Rows) where
    abbrev SoundEntry : Bytes × Acc → Type 0
    SoundEntry = Sound lower fold_eq parse names f target rows

    -- A person who has no entry has no link.
    linked-new :
        (e : Bytes) (l : Link) (accs : Accs)
        → All SoundEntry accs
        → Distinct accs
        → lookup e accs ≡ none
        → In l (linked accs)
        → str_eq e l.person ≡ false
    linked-new e l accs s d n i = elim (Bool-cases (str_eq e l.person)) [
      | inr t ↦ t
      | inl t ↦ absurd (clash (links_of-In l accs i) ((str_eq_iff e l.person).0 t))
    ]
      where
        clash : FromEntry l accs → e ≡ l.person → ⊥
        clash (d', a, j, q) p = cc (
          n,
          In-lookup d' a accs d j,
          ap (λ x. lookup x accs)
              (p ∙ (ap (λ x. x.person) q ∙ (All-In SoundEntry (d', a) accs s j).person)),
        )

    pub links_of-Differ :
        (accs : Accs)
        → Accounted lower fold_eq parse names f target rows accs
        → Pairwise Differ (linked accs)
    unfolding links_of lookup
    links_of-Differ [] h = tt
    links_of-Differ ((e, a) ∷ accs) h = taken (links_of-Differ accs (h.0.1, h.1.1)) (is_cut a)
      where
        first : All (Differ (made a)) (linked accs)
        first = All-of_In _ _ (λ l i.
            ap (λ x. str_eq x l.person) h.0.0.person ∙ linked-new e l accs h.0.1 h.1.1 h.1.0 i)

        taken :
            Pairwise Differ (linked accs)
            → (t : Bool) → Pairwise Differ (if t then linked accs else made a ∷ linked accs)
        taken rest true = rest
        taken rest false = (first, rest)

  -- Sorted links of different persons are in strict order.
  pub strict :
      (ls : List Link)
      → IsSorted less ls
      → Pairwise Differ ls
      → Pairwise (λ l k. less l k ≡ true) ls
  strict [] s d = tt
  strict (l ∷ ls) s d = (
    All-of_In _ ls
        (λ k i. first k (All-In (λ k. less k l ≡ false) k ls s.0 i) (All-In (Differ l) k ls d.0 i)),
    strict ls s.1 d.1,
  )
    where
      first : (k : Link) → less k l ≡ false → Differ l k → less l k ≡ true
      first k n q = elim (Bool-cases (less l k)) [
        | inl t ↦ t
        | inr m ↦
            absurd (
              ground (arith, n, q, m, str_lt_total l.person k.person, str_eq_iff l.person k.person))
      ]
