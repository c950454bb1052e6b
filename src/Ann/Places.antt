-- ===== src/Ann/Places.antt =====
-- The map of ids that readSnapshot of internal/brain/ann/ann.go makes again from the cells.
use dph.Base.{
  ℕ, zero, suc, ◌≡◌, sym, ap, ◌∙◌, ◌⊎◌, inl, inr, true, some, List, [], ◌∷◌, arith, In, All,
  Option-cases,
}
use dph.Base.Text.{Bytes, str_eq_iff}
use dph.Base.Dict.{bytes_eq, lookup, upsert, lookup-upsert}
use dph.Ann.{Row, Index, Params, is_some}
use dph.Ann.Insert.{IsConsistent, IsPlaced, ArePlaced, Stands}
use dph.Ann.Snapshot.{place_rows, place_cells}

abbrev Map : Type 0
Map = List (Bytes × ℕ)

-- What the first map finds the second one finds too.
abbrev IsPart : Map → Map → Type 0
IsPart m t = (id : Bytes) (c : ℕ) → lookup id m ≡ some c → lookup id t ≡ some c

upsert-IsPart :
    (m t : Map) (id : Bytes) (c : ℕ)
    → lookup id t ≡ some c
    → IsPart m t
    → IsPart (upsert id (λ old. c) m) t
upsert-IsPart m t id c e h jd b q =
    ground (arith, lookup-upsert id jd (λ old. c) m, str_eq_iff id jd, h jd b)

place_rows-IsPart :
    (p : Params) (t : Map) (c : ℕ) (rs : List Row) (m : Map)
    → All (IsPlaced p t c) rs
    → IsPart m t
    → IsPart (place_rows c rs m) t
unfolding place_rows
place_rows-IsPart p t c [] m a h = h
place_rows-IsPart p t c (r ∷ rs) m a h =
    place_rows-IsPart p t c rs (upsert r.id (λ old. c) m) a.1 (upsert-IsPart m t r.id c a.0.0 h)

place_cells-IsPart :
    (p : Params) (t : Map) (c : ℕ) (cells : List (List Row)) (m : Map)
    → ArePlaced p t c cells
    → IsPart m t
    → IsPart (place_cells c cells m) t
unfolding place_cells
place_cells-IsPart p t c [] m a h = h
place_cells-IsPart p t c (cell ∷ cells) m (a, n, k) h =
    place_cells-IsPart p t (suc c) cells (place_rows c cell m) k
      (place_rows-IsPart p t c cell m a h)

abbrev HasId : Bytes → Map → Type 0
HasId id m = is_some (lookup id m) ≡ true

upsert-HasId :
    (m : Map) (jd id : Bytes) (c : ℕ) → (jd ≡ id) ⊎ HasId id m → HasId id (upsert jd (λ old. c) m)
upsert-HasId m jd id c h = ground (arith, lookup-upsert jd id (λ old. c) m, str_eq_iff jd id)

place_rows-keeps_id :
    (id : Bytes) (c : ℕ) (rs : List Row) (m : Map) → HasId id m → HasId id (place_rows c rs m)
unfolding place_rows
place_rows-keeps_id id c [] m h = h
place_rows-keeps_id id c (r ∷ rs) m h =
    place_rows-keeps_id id c rs (upsert r.id (λ old. c) m) (upsert-HasId m r.id id c (inr h))

place_rows-HasId :
    (c : ℕ) (rs : List Row) (m : Map) (r : Row) → In r rs → HasId r.id (place_rows c rs m)
unfolding place_rows
place_rows-HasId c [] m r h = absurd h
place_rows-HasId c (q ∷ rs) m r (inl e) =
    place_rows-keeps_id r.id c rs (upsert q.id (λ old. c) m)
      (upsert-HasId m q.id r.id c (inl (ap (λ x. x.id) (sym e))))
place_rows-HasId c (q ∷ rs) m r (inr h) = place_rows-HasId c rs (upsert q.id (λ old. c) m) r h

place_cells-keeps_id :
    (id : Bytes) (c : ℕ) (cells : List (List Row)) (m : Map)
    → HasId id m
    → HasId id (place_cells c cells m)
unfolding place_cells
place_cells-keeps_id id c [] m h = h
place_cells-keeps_id id c (cell ∷ cells) m h =
    place_cells-keeps_id id (suc c) cells (place_rows c cell m) (place_rows-keeps_id id c cell m h)

place_cells-HasId :
    (id : Bytes) (b c : ℕ) (cells : List (List Row)) (m : Map)
    → Stands id b cells
    → HasId id (place_cells c cells m)
unfolding place_cells
place_cells-HasId id b c [] m h = absurd h
place_cells-HasId id zero c (cell ∷ cells) m (r, i, e) =
    place_cells-keeps_id id (suc c) cells (place_rows c cell m)
      (rw⁻¹ e (place_rows-HasId c cell m r i))
place_cells-HasId id (suc b) c (cell ∷ cells) m h =
    place_cells-HasId id b (suc c) cells (place_rows c cell m) h

same_answer :
    (m t : Map) (id : Bytes)
    → IsPart m t
    → ((c : ℕ) → lookup id t ≡ some c → HasId id m)
    → lookup id m ≡ lookup id t
same_answer m t id h k = elim (Option-cases (lookup id m)) [
  | inr (c, e) ↦ e ∙ sym (h id c e)
  | inl e ↦ elim (Option-cases (lookup id t)) [
    | inl q ↦ e ∙ sym q
    | inr (c, q) ↦ absurd (ground (arith, k c q))
  ]
]

-- The map made again from the cells of a consistent index answers as its own does.
pub place_cells-lookup :
    (ix : Index) (id : Bytes)
    → IsConsistent ix
    → lookup id (place_cells 0 ix.lists []) ≡ lookup id ix.id_cell
unfolding lookup
place_cells-lookup ix id h =
    same_answer (place_cells 0 ix.lists []) ix.id_cell id
      (place_cells-IsPart ix.params ix.id_cell 0 ix.lists [] h.placed
        (λ id c e. absurd (ground arith)))
      (λ c e. place_cells-HasId id c 0 ix.lists [] (h.found id c e))
