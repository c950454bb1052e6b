-- ===== src/Ann/Insert.antt =====
-- The insertions of internal/brain/ann/ann.go, and the cells and the map of ids.
use dph.Base.{
  ℕ, zero, suc, ◌+◌, ◌≤◌, ◌<◌, ◌≡◌, refl, sym, ap, ◌∙◌, ◌⊎◌, inl, inr, Bool, true, false, none,
  some, List, [], ◌∷◌, ◌++◌, length, arith, In, All, Bool-cases, Option-cases, In-append_left,
  In-append_right,
}
use dph.Base.Text.{Bytes, str_eq, str_eq_iff}
use dph.Base.Dict.{bytes_eq, lookup, upsert, lookup-upsert}
use dph.Ann.{
  Vec, Row, Index, Params, row_eligible, append_at, is_indexed, bootstrapped, nearest_from,
  nearest_cell, put_row, insert_row, first_lists, first_centroids, replay_row, zero_norm,
}

-- A row with the id stands in cell `c`.
abbrev pub Stands : Bytes → ℕ → List (List Row) → Type 0
Stands id c [] = ⊥
Stands id zero (cell ∷ cells) = (r : Row) × In r cell × (r.id ≡ id)
Stands id (suc c) (cell ∷ cells) = Stands id c cells

-- No id stands twice in a cell.
abbrev pub NoTwice : List Row → Type 0
NoTwice [] = Unit
NoTwice (r ∷ rs) = All (λ s. str_eq s.id r.id ≡ false) rs × NoTwice rs

-- Every row of the cells, the first of which has number `i`, is found at its cell.
module _ (p : Params) (m : List (Bytes × ℕ)) where
  abbrev pub IsPlaced : ℕ → Row → Type 0
  IsPlaced i r = (lookup r.id m ≡ some i) × (length r.vec ≡ p.dim) × (zero_norm r.vec ≡ false)

  abbrev pub ArePlaced : ℕ → List (List Row) → Type 0
  ArePlaced i [] = Unit
  ArePlaced i (cell ∷ cells) = All (IsPlaced i) cell × NoTwice cell × ArePlaced (suc i) cells

-- The cells and the map of ids agree.
pub record IsConsistent (ix : Index) : Type 0 where
  pub sizes : length ix.lists ≡ length ix.centroids
  pub placed : ArePlaced ix.params ix.id_cell 0 ix.lists
  pub found : (id : Bytes) (c : ℕ) → lookup id ix.id_cell ≡ some c → Stands id c ix.lists

pub length-append_at :
    (c : ℕ) (r : Row) (cells : List (List Row)) → length (append_at c r cells) ≡ length cells
unfolding append_at
length-append_at c r [] = refl
length-append_at zero r (cell ∷ cells) = refl
length-append_at (suc c) r (cell ∷ cells) = ap suc (length-append_at c r cells)

Stands-append_at :
    (id : Bytes) (c b : ℕ) (r : Row) (cells : List (List Row))
    → Stands id c cells
    → Stands id c (append_at b r cells)
unfolding append_at
Stands-append_at id c b r [] h = h
Stands-append_at id zero zero r (cell ∷ cells) (s, m, q) = (s, In-append_left s cell (r ∷ []) m, q)
Stands-append_at id (suc c) zero r (cell ∷ cells) h = h
Stands-append_at id zero (suc b) r (cell ∷ cells) h = h
Stands-append_at id (suc c) (suc b) r (cell ∷ cells) h = Stands-append_at id c b r cells h

Stands-own :
    (c : ℕ) (r : Row) (cells : List (List Row))
    → c < length cells
    → Stands r.id c (append_at c r cells)
unfolding append_at
Stands-own c r [] h = absurd (omega arith)
Stands-own zero r (cell ∷ cells) h = (r, In-append_right r cell (r ∷ []) (inl refl), refl)
Stands-own (suc c) r (cell ∷ cells) h = Stands-own c r cells (omega arith)

module _ (p : Params) (m : List (Bytes × ℕ)) (r : Row) (c : ℕ) (fresh : lookup r.id m ≡ none) where
  abbrev grown : List (Bytes × ℕ)
  grown = upsert r.id (λ old. c) m

  lookup-grown : (id : Bytes) (i : ℕ) → lookup id m ≡ some i → lookup id grown ≡ some i
  lookup-grown id i h = ground (arith, lookup-upsert r.id id (λ old. c) m, str_eq_iff r.id id)

  lookup_own : lookup r.id grown ≡ some c
  lookup_own = ground (arith, lookup-upsert r.id r.id (λ old. c) m, str_eq_iff r.id r.id)

  grown-lookup :
      (id : Bytes) (i : ℕ)
      → lookup id grown ≡ some i
      → ((r.id ≡ id) × (c ≡ i)) ⊎ (lookup id m ≡ some i)
  grown-lookup id i h = ground (arith, lookup-upsert r.id id (λ old. c) m, str_eq_iff r.id id)

  IsPlaced-grown :
      (i : ℕ) (cell : List Row) → All (IsPlaced p m i) cell → All (IsPlaced p grown i) cell
  IsPlaced-grown i [] h = tt
  IsPlaced-grown i (s ∷ cell) h =
      ((lookup-grown s.id i h.0.0, h.0.1, h.0.2), IsPlaced-grown i cell h.1)

  IsPlaced-append :
      (i : ℕ) (cell : List Row)
      → IsPlaced p grown i r
      → All (IsPlaced p m i) cell
      → All (IsPlaced p grown i) (cell ++ r ∷ [])
  IsPlaced-append i [] q h = (q, tt)
  IsPlaced-append i (s ∷ cell) q h =
      ((lookup-grown s.id i h.0.0, h.0.1, h.0.2), IsPlaced-append i cell q h.1)

  not_same : (i : ℕ) (s : Row) → lookup s.id m ≡ some i → str_eq r.id s.id ≡ false
  not_same i s h = ground (arith, str_eq_iff r.id s.id)

  All-NoTwice :
      (s : Row) (cell : List Row)
      → str_eq r.id s.id ≡ false
      → All (λ t. str_eq t.id s.id ≡ false) cell
      → All (λ t. str_eq t.id s.id ≡ false) (cell ++ r ∷ [])
  All-NoTwice s [] q h = (q, tt)
  All-NoTwice s (t ∷ cell) q h = (h.0, All-NoTwice s cell q h.1)

  NoTwice-append :
      (i : ℕ) (cell : List Row)
      → All (IsPlaced p m i) cell
      → NoTwice cell
      → NoTwice (cell ++ r ∷ [])
  NoTwice-append i [] h n = (tt, tt)
  NoTwice-append i (s ∷ cell) h n =
      (All-NoTwice s cell (not_same i s h.0.0) n.0, NoTwice-append i cell h.1 n.1)

  -- The cells that do not get the row.
  ArePlaced-grown :
      (i : ℕ) (cells : List (List Row)) → ArePlaced p m i cells → ArePlaced p grown i cells
  ArePlaced-grown i [] h = tt
  ArePlaced-grown i (cell ∷ cells) (h, n, k) =
      (IsPlaced-grown i cell h, n, ArePlaced-grown (suc i) cells k)

  ArePlaced-append_at :
      (i b : ℕ) (cells : List (List Row))
      → i + b ≡ c
      → length r.vec ≡ p.dim
      → zero_norm r.vec ≡ false
      → ArePlaced p m i cells
      → ArePlaced p grown i (append_at b r cells)
  unfolding append_at
  ArePlaced-append_at i b [] e l z h = tt
  ArePlaced-append_at i zero (cell ∷ cells) e l z (h, n, k) = (
    IsPlaced-append i cell (lookup_own ∙ ap some (omega arith), l, z) h,
    NoTwice-append i cell h n,
    ArePlaced-grown (suc i) cells k,
  )
  ArePlaced-append_at i (suc b) (cell ∷ cells) e l z (h, n, k) =
      (IsPlaced-grown i cell h, n, ArePlaced-append_at (suc i) b cells (omega arith) l z k)

module _ {F : Type 0} (cosine : Vec → Vec → F) (gt : F → F → Bool) (low : F) where
  pub nearest_from-lt :
      (v : Vec) (best : ℕ) (s : F) (i n : ℕ) (cs : List Vec)
      → best < n
      → i + length cs ≤ n
      → nearest_from cosine gt low v best s i cs < n
  unfolding nearest_from
  nearest_from-lt v best s i n [] h k = h
  nearest_from-lt v best s i n (c ∷ cs) h k = elim (Bool-cases (gt (cosine v c) s)) [
    | inl t ↦ rw t (nearest_from-lt v i (cosine v c) (suc i) n cs (omega arith) (omega arith))
    | inr f ↦ rw f (nearest_from-lt v best s (suc i) n cs h (omega arith))
  ]

  abbrev put : Row → Index → Index
  put r ix = put_row cosine gt low r ix

  put_row-IsConsistent :
      (r : Row) (ix : Index)
      → 1 ≤ length ix.centroids
      → length r.vec ≡ ix.params.dim
      → zero_norm r.vec ≡ false
      → lookup r.id ix.id_cell ≡ none
      → IsConsistent ix
      → IsConsistent (put r ix)
  put_row-IsConsistent r ix one l z fresh h = record {
    sizes = length-append_at cell r ix.lists ∙ h.sizes;
    placed =
        ArePlaced-append_at ix.params ix.id_cell r cell fresh 0 cell ix.lists (omega arith) l z
          h.placed;
    found = λ id c e. elim (grown-lookup ix.params ix.id_cell r cell fresh id c e) [
      | inl (q, t) ↦ stands q t
      | inr k ↦ Stands-append_at id c cell r ix.lists (h.found id c k)
    ];
  }
    where
      cell : ℕ
      cell = nearest_cell cosine gt low r.vec ix.centroids

      in_range : cell < length ix.lists
      in_range = rw h.sizes (
          nearest_from-lt r.vec 0 low 0 (length ix.centroids) ix.centroids (omega arith)
            (omega arith))

      stands : {id : Bytes} {c : ℕ} → r.id ≡ id → cell ≡ c → Stands id c (append_at cell r ix.lists)
      stands q t = rw (sym q, sym t) (Stands-own cell r ix.lists in_range)

  no_stand :
      (id : Bytes) (c : ℕ) (cells : List (List Row)) → length cells ≡ 0 → Stands id c cells → ⊥
  no_stand id c [] e s = s
  no_stand id c (x ∷ xs) e s = absurd (omega (arith, e))

  length-first :
      (v : Vec) (cs : List Vec) (cells : List (List Row))
      → length cells ≡ length cs
      → length (first_lists cs cells) ≡ length (first_centroids v cs)
  length-first v [] cells e = refl
  length-first v (c ∷ cs) cells e = e

  ArePlaced-first :
      (p : Params) (m : List (Bytes × ℕ)) (cs : List Vec) (cells : List (List Row))
      → ArePlaced p m 0 cells
      → ArePlaced p m 0 (first_lists cs cells)
  ArePlaced-first p m [] cells h = (tt, tt, tt)
  ArePlaced-first p m (c ∷ cs) cells h = h

  Stands-first :
      (id : Bytes) (c : ℕ) (cs : List Vec) (cells : List (List Row))
      → length cells ≡ length cs
      → Stands id c cells
      → Stands id c (first_lists cs cells)
  Stands-first id c [] cells e h = absurd (no_stand id c cells e h)
  Stands-first id c (x ∷ cs) cells e h = h

  length-first_centroids : (v : Vec) (cs : List Vec) → 1 ≤ length (first_centroids v cs)
  length-first_centroids v [] = omega arith
  length-first_centroids v (c ∷ cs) = omega arith

  bootstrapped-IsConsistent :
      (r : Row) (ix : Index) → IsConsistent ix → IsConsistent (bootstrapped r ix)
  bootstrapped-IsConsistent r ix h = record {
    sizes = length-first r.vec ix.centroids ix.lists h.sizes;
    placed = ArePlaced-first ix.params ix.id_cell ix.centroids ix.lists h.placed;
    found = λ id c e. Stands-first id c ix.centroids ix.lists h.sizes (h.found id c e);
  }

  insert_row-IsConsistent :
      (r : Row) (ix : Index)
      → length r.vec ≡ ix.params.dim
      → zero_norm r.vec ≡ false
      → lookup r.id ix.id_cell ≡ none
      → IsConsistent ix
      → IsConsistent (insert_row cosine gt low r ix)
  insert_row-IsConsistent r ix l z fresh h =
      put_row-IsConsistent r (bootstrapped r ix) (length-first_centroids r.vec ix.centroids) l z
        fresh (bootstrapped-IsConsistent r ix h)

  not_indexed : (ix : Index) (id : Bytes) → is_indexed ix id ≡ false → lookup id ix.id_cell ≡ none
  not_indexed ix id h = elim (Option-cases (lookup id ix.id_cell)) [
    | inl e ↦ e
    | inr (c, e) ↦ absurd (ground arith)
  ]

  eligible-split :
      (ix : Index) (r : Row)
      → row_eligible ix r ≡ true
      → (length r.vec ≡ ix.params.dim) × (zero_norm r.vec ≡ false)
  eligible-split ix r h = ground arith

  pub replay_row-IsConsistent :
      (r : Row) (ix : Index) → IsConsistent ix → IsConsistent (replay_row cosine gt low r ix)
  unfolding replay_row
  replay_row-IsConsistent r ix h = elim (Bool-cases (row_eligible ix r)) [
    | inr f ↦ rw f record { sizes = h.sizes; placed = h.placed; found = h.found }
    | inl t ↦ elim (Bool-cases (is_indexed ix r.id)) [
      | inl k ↦ rw (t, k) h
      | inr k ↦
          let e = eligible-split ix r t in
          rw (t, k) (insert_row-IsConsistent r ix e.0 e.1 (not_indexed ix r.id k) h)
    ]
  ]
