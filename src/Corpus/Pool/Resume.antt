-- ===== src/Corpus/Pool/Resume.antt =====
-- What filterExistingLeafs of internal/brain/corpus_pool.go leaves to be written.
use dph.Base.{
  ◌≡◌, refl, ap, sym, ◌∙◌, inl, inr, Bool, true, false, ◌||◌, ◌↔◌, List, [], ◌∷◌, arith, Bool-cases,
  In, map,
}
use dph.Base.Text.{Bytes, has, str_eq_refl}
use dph.Contract.{Leaf, content_hash}
use dph.Corpus.Pool.{normalized, filter_existing_leafs}

module _ (to_valid_utf8 : Bytes → Bytes) (sha256_hex : Bytes → Bytes) where
  abbrev id_of : Leaf → Bytes
  id_of l = content_hash to_valid_utf8 sha256_hex l

  abbrev norm : Leaf → Leaf
  norm l = normalized to_valid_utf8 sha256_hex l

  abbrev filtered : (Bytes → Bool) → List Leaf → List Leaf
  filtered existing ls = filter_existing_leafs to_valid_utf8 sha256_hex existing ls

  -- The ids that stand in the database after the leafs are written.
  abbrev pub after_write : (Bytes → Bool) → List Leaf → Bytes → Bool
  after_write existing ls h = existing h || has (map id_of ls) h

  filtered-covers :
      (existing : Bytes → Bool) (ls : List Leaf) (l : Leaf)
      → In l ls
      → after_write existing (filtered existing ls) (id_of (norm l)) ≡ true
  unfolding filter_existing_leafs has
  filtered-covers existing [] l m = absurd m
  filtered-covers existing (x ∷ ls) l (inl e) = ground (arith, str_eq_refl (id_of (norm l)))
  filtered-covers existing (x ∷ ls) l (inr m) = ground (arith, filtered-covers existing ls l m)

  filtered_none :
      (existing : Bytes → Bool) (ls : List Leaf)
      → ((l : Leaf) → In l ls → existing (id_of (norm l)) ≡ true)
      → filtered existing ls ≡ []
  unfolding filter_existing_leafs
  filtered_none existing [] h = refl
  filtered_none existing (x ∷ ls) h =
      rw (h x (inl refl)) (filtered_none existing ls (λ l m. h l (inr m)))

  -- Once the leafs that filterExistingLeafs left are written, a second run on the same leafs has
  -- nothing to write, whatever stood in the database before.
  pub filter_existing_leafs-again :
      (existing : Bytes → Bool) (ls : List Leaf)
      → filtered (after_write existing (filtered existing ls)) ls ≡ []
  filter_existing_leafs-again existing ls =
      filtered_none (after_write existing (filtered existing ls)) ls (filtered-covers existing ls)

  -- A leaf of the list, normalized, whose id is not in the database.
  abbrev pub IsNew : (Bytes → Bool) → List Leaf → Leaf → Type 0
  IsNew existing ls n = (l : Leaf) × In l ls × (n ≡ norm l) × (existing (id_of n) ≡ false)

  filtered-IsNew :
      (existing : Bytes → Bool) (ls : List Leaf) (n : Leaf)
      → In n (filtered existing ls)
      → IsNew existing ls n
  unfolding filter_existing_leafs
  filtered-IsNew existing [] n = λ m. absurd m
  filtered-IsNew existing (x ∷ ls) n = elim (Bool-cases (existing (id_of (norm x)))) [
    | inl t ↦ rw t (λ m. later (filtered-IsNew existing ls n m))
    | inr f ↦ rw f (λ m. elim m [
      | inl e ↦ (x, inl refl, e, rw e f)
      | inr m ↦ later (filtered-IsNew existing ls n m)
    ])
  ]
    where
      later : IsNew existing ls n → IsNew existing (x ∷ ls) n
      later (l, m, e, h) = (l, inr m, e, h)

  IsNew-filtered :
      (existing : Bytes → Bool) (ls : List Leaf) (n l : Leaf)
      → In l ls
      → n ≡ norm l
      → existing (id_of n) ≡ false
      → In n (filtered existing ls)
  unfolding filter_existing_leafs
  IsNew-filtered existing [] n l m e h = absurd m
  IsNew-filtered existing (x ∷ ls) n l (inl i) e h =
      rw (sym (ap (λ y. existing (id_of y)) (e ∙ ap norm i)) ∙ h) (inl (e ∙ ap norm i))
  IsNew-filtered existing (x ∷ ls) n l (inr m) e h =
      ground (arith, IsNew-filtered existing ls n l m e h)

  -- filterExistingLeafs leaves exactly the leafs, with their texts normalized, whose ids are not in
  -- the database.
  pub In-filter_existing_leafs :
      (existing : Bytes → Bool) (ls : List Leaf) (n : Leaf)
      → In n (filtered existing ls) ↔ IsNew existing ls n
  In-filter_existing_leafs existing ls n =
      (filtered-IsNew existing ls n, λ (l, m, e, h). IsNew-filtered existing ls n l m e h)
