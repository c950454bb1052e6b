-- ===== src/Rank/Fusion.antt =====
-- The fused list of `Hybrid` in internal/brain/rank/rank.go.
use dph.Base.{
  ℕ, suc, ◌≡◌, ◌↔◌, refl, sym, ap, ◌∙◌, inl, inr, Bool, true, false, ◌||◌, Option, none, some, List,
  [], ◌∷◌, arith, In, Bool-cases, Option-cases,
}
use dph.Base.Text.{Bytes, str_eq, str_eq_iff, str_eq_refl, has}
use dph.Base.Sort.{sort_by, In-sort_by}
use dph.Base.Dict.{
  bytes_eq, upsert, lookup, Distinct, lookup-upsert, upsert-Distinct, lookup-In, In-lookup,
  sort_by-Distinct,
}
use dph.Rank.{
  Float, Hit, Fused, Table, fuse_fts, fuse_vec, fuse_all, fuse, better, hit_of, hits_of, cut,
  hybrid,
}

module _ (fl : Float) where
  abbrev pub ids : List (Hit fl) → List Bytes
  ids [] = []
  ids (h ∷ hs) = h.id ∷ ids hs

  has_ids_iff :
      (hs : List (Hit fl)) (i : Bytes)
      → (has (ids hs) i ≡ true) ↔ ((h : Hit fl) × In h hs × (h.id ≡ i))
  unfolding has
  has_ids_iff [] i = (λ e. cc, λ r. absurd r.1)
  has_ids_iff (h ∷ hs) i = (
    λ e. elim (Bool-cases (str_eq h.id i)) [
      | inl s ↦ (h, inl refl, (str_eq_iff h.id i).0 s)
      | inr s ↦ let r = (has_ids_iff hs i).0 (ground arith) in (r.0, inr r.1, r.2)
    ],
    λ r. elim r.1 [
      | inl s ↦ let q : h.id ≡ i = ap (λ (k : Hit fl). k.id) (sym s) ∙ r.2 in rw (q, str_eq_refl i)
      | inr s ↦ let q = (has_ids_iff hs i).1 (r.0, s, r.2) in ground arith
    ],
  )

  abbrev is_some : Option (Fused fl) → Bool
  is_some none = false
  is_some (some f) = true

  -- The loops enter exactly the ids of the hits.
  present-fuse_all :
      (step : ℕ → Hit fl → Option (Fused fl) → Fused fl) (hs : List (Hit fl)) (i : ℕ) (m : Table fl)
      (j : Bytes)
      → is_some (lookup j (fuse_all fl step i m hs)) ≡ (is_some (lookup j m) || has (ids hs) j)
  unfolding fuse_all has
  present-fuse_all step [] i m j = ground arith
  present-fuse_all step (h ∷ hs) i m j = ground (
    arith,
    present-fuse_all step hs (suc i) (upsert h.id (step i h) m) j,
    lookup-upsert h.id j (step i h) m,
  )

  fuse_all-Distinct :
      (step : ℕ → Hit fl → Option (Fused fl) → Fused fl) (hs : List (Hit fl)) (i : ℕ) (m : Table fl)
      → Distinct m
      → Distinct (fuse_all fl step i m hs)
  unfolding fuse_all
  fuse_all-Distinct step [] i m d = d
  fuse_all-Distinct step (h ∷ hs) i m d =
      fuse_all-Distinct step hs (suc i) (upsert h.id (step i h) m)
        (upsert-Distinct h.id (step i h) m d)

  pub fuse-Distinct : (fts vec : List (Hit fl)) → Distinct (fuse fl fts vec)
  unfolding fuse
  fuse-Distinct fts vec = fuse_all-Distinct _ vec 1 _ (fuse_all-Distinct _ fts 1 [] tt)

  present-fuse :
      (fts vec : List (Hit fl)) (j : Bytes)
      → is_some (lookup j (fuse fl fts vec)) ≡ (has (ids fts) j || has (ids vec) j)
  unfolding fuse lookup
  present-fuse fts vec j = ground (
    arith,
    present-fuse_all (fuse_vec fl) vec 1 (fuse_all fl (fuse_fts fl) 1 [] fts) j,
    present-fuse_all (fuse_fts fl) fts 1 [] j,
  )

  -- Each entry holds a hit with its key for an id.
  abbrev IsKeyed : Table fl → Type 0
  IsKeyed m = (j : Bytes) (f : Fused fl) → lookup j m ≡ some f → f.hit.id ≡ j

  -- A step that keeps the id of the hit.
  abbrev KeepsId : (ℕ → Hit fl → Option (Fused fl) → Fused fl) → Type 0
  KeepsId step =
      (i : ℕ) (h : Hit fl) (old : Option (Fused fl))
      → ((f : Fused fl) → old ≡ some f → f.hit.id ≡ h.id)
      → (step i h old).hit.id ≡ h.id

  fuse_fts-KeepsId : KeepsId (fuse_fts fl)
  unfolding fuse_fts
  fuse_fts-KeepsId i h old same = refl

  fuse_vec-KeepsId : KeepsId (fuse_vec fl)
  unfolding fuse_vec
  fuse_vec-KeepsId i h none same = refl
  fuse_vec-KeepsId i h (some f) same = let e = same f refl in ground arith

  upsert-IsKeyed :
      (step : ℕ → Hit fl → Option (Fused fl) → Fused fl)
      → KeepsId step
      → (h : Hit fl) (i : ℕ) (m : Table fl) → IsKeyed m
      → IsKeyed (upsert h.id (step i h) m)
  upsert-IsKeyed step keep h i m k j f e = elim (Bool-cases (str_eq h.id j)) [
    | inl s ↦
        let q : some (step i h (lookup h.id m)) ≡ some f =
          rw s at (sym (lookup-upsert h.id j (step i h) m) ∙ e) in
        let r = keep i h (lookup h.id m) (k h.id) in let t = (str_eq_iff h.id j).0 s in ground arith
    | inr s ↦ k j f (rw s at (sym (lookup-upsert h.id j (step i h) m) ∙ e))
  ]

  fuse_all-IsKeyed :
      (step : ℕ → Hit fl → Option (Fused fl) → Fused fl)
      → KeepsId step
      → (hs : List (Hit fl)) (i : ℕ) (m : Table fl) → IsKeyed m
      → IsKeyed (fuse_all fl step i m hs)
  unfolding fuse_all
  fuse_all-IsKeyed step keep [] i m k = k
  fuse_all-IsKeyed step keep (h ∷ hs) i m k =
      fuse_all-IsKeyed step keep hs (suc i) (upsert h.id (step i h) m)
        (upsert-IsKeyed step keep h i m k)

  fuse-IsKeyed : (fts vec : List (Hit fl)) → IsKeyed (fuse fl fts vec)
  unfolding fuse lookup
  fuse-IsKeyed fts vec =
      fuse_all-IsKeyed (fuse_vec fl) fuse_vec-KeepsId vec 1 _
        (fuse_all-IsKeyed (fuse_fts fl) fuse_fts-KeepsId fts 1 [] (λ j f e. cc))

  In-hits_of :
      (h : Hit fl) (m : Table fl)
      → In h (hits_of fl m) ↔ ((e : Bytes × Fused fl) × In e m × (h ≡ hit_of fl e))
  unfolding hits_of
  In-hits_of h [] = (λ m. absurd m, λ r. absurd r.1)
  In-hits_of h (e ∷ m) = (
    λ d. elim d [
      | inl s ↦ (e, inl refl, s)
      | inr s ↦ let r = (In-hits_of h m).0 s in (r.0, inr r.1, r.2)
    ],
    λ r. elim r.1 [
      | inl s ↦ inl (r.2 ∙ ap (hit_of fl) s)
      | inr s ↦ inr ((In-hits_of h m).1 (r.0, s, r.2))
    ],
  )

  pub hybrid_sorted :
      (fts vec : List (Hit fl))
      → hybrid fl fts vec 0 ≡ hits_of fl (sort_by (better fl) (fuse fl fts vec))
  unfolding hybrid cut
  hybrid_sorted fts vec = refl

  hit_of_id :
      (fts vec : List (Hit fl)) (i : Bytes) (f : Fused fl)
      → lookup i (fuse fl fts vec) ≡ some f
      → has (ids (hybrid fl fts vec 0)) i ≡ true
  hit_of_id fts vec i f e = rw hybrid_sorted (
      (has_ids_iff _ i).1 (
        f.hit,
        (In-hits_of f.hit _).1
            ((i, f), (In-sort_by (better fl) (i, f) _).1 (lookup-In i f _ e), refl),
        fuse-IsKeyed fts vec i f e,
      ))

  id_of_hit :
      (fts vec : List (Hit fl)) (i : Bytes)
      → has (ids (hybrid fl fts vec 0)) i ≡ true
      → is_some (lookup i (fuse fl fts vec)) ≡ true
  id_of_hit fts vec i e =
      let r = (has_ids_iff _ i).0 (rw hybrid_sorted at e) in
      let t = (In-hits_of r.0 _).0 r.1 in
      let found =
        In-lookup t.0.0 t.0.1 _ (fuse-Distinct fts vec) ((In-sort_by (better fl) t.0 _).0 t.1) in
      let same : t.0.0 ≡ i =
        sym (fuse-IsKeyed fts vec t.0.0 t.0.1 found) ∙ ap (λ (h : Hit fl). h.id) (sym t.2) ∙ r.2 in
      rw (← same, found)

  -- The ids of the fused list are those of the two lists.
  pub hybrid_ids :
      (fts vec : List (Hit fl)) (i : Bytes)
      → has (ids (hybrid fl fts vec 0)) i ≡ (has (ids fts) i || has (ids vec) i)
  hybrid_ids fts vec i = elim (Option-cases (lookup i (fuse fl fts vec))) [
    | inr (f, e) ↦ hit_of_id fts vec i f e ∙ rw e at (present-fuse fts vec i)
    | inl e ↦ elim (Bool-cases (has (ids (hybrid fl fts vec 0)) i)) [
      | inl h ↦ cc (id_of_hit fts vec i h)
      | inr h ↦ h ∙ rw e at (present-fuse fts vec i)
    ]
  ]

  -- No id stands twice.
  abbrev pub NoDouble : List (Hit fl) → Type 0
  NoDouble [] = Unit
  NoDouble (h ∷ hs) = (has (ids hs) h.id ≡ false) × NoDouble hs

  -- Each entry that stands in the list holds a hit with its key for an id.
  abbrev pub AllKeyed : Table fl → Type 0
  AllKeyed m = (e : Bytes × Fused fl) → In e m → (hit_of fl e).id ≡ e.0

  has-hits_of :
      (m : Table fl) (i : Bytes)
      → AllKeyed m
      → lookup i m ≡ none
      → has (ids (hits_of fl m)) i ≡ false
  unfolding has hits_of lookup
  has-hits_of [] i k e = refl
  has-hits_of ((j, f) ∷ m) i k e =
      ground (arith, k (j, f) (inl refl), has-hits_of m i (λ d n. k d (inr n)))

  hits_of-NoDouble : (m : Table fl) → AllKeyed m → Distinct m → NoDouble (hits_of fl m)
  unfolding hits_of
  hits_of-NoDouble [] k d = tt
  hits_of-NoDouble ((j, f) ∷ m) k d = (
    has-hits_of m f.hit.id (λ e n. k e (inr n)) (rw (k (j, f) (inl refl)) d.0),
    hits_of-NoDouble m (λ e n. k e (inr n)) d.1,
  )

  pub fuse-AllKeyed : (fts vec : List (Hit fl)) → AllKeyed (sort_by (better fl) (fuse fl fts vec))
  fuse-AllKeyed fts vec (j, f) m =
      fuse-IsKeyed fts vec j f
        (In-lookup j f _ (fuse-Distinct fts vec) ((In-sort_by (better fl) (j, f) _).0 m))

  -- The fused list holds each id once.
  pub hybrid-NoDouble : (fts vec : List (Hit fl)) → NoDouble (hybrid fl fts vec 0)
  hybrid-NoDouble fts vec = rw hybrid_sorted (
      hits_of-NoDouble (sort_by (better fl) (fuse fl fts vec)) (fuse-AllKeyed fts vec)
        (sort_by-Distinct (better fl) _ (fuse-Distinct fts vec)))

  -- The fused list holds exactly the ids of the two lists, each once.
  pub hybrid_lem :
      (fts vec : List (Hit fl))
      → ((i : Bytes) → has (ids (hybrid fl fts vec 0)) i ≡ (has (ids fts) i || has (ids vec) i))
        × NoDouble (hybrid fl fts vec 0)
  hybrid_lem fts vec = (hybrid_ids fts vec, hybrid-NoDouble fts vec)
