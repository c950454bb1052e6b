-- ===== src/Ann/Upserts.antt =====
-- Upsert of internal/brain/ann/ann.go, and the cells and the map of ids.
use dph.Base.{
  ℕ, ◌≡◌, refl, inl, inr, Bool, true, false, Option, none, some, List, [], ◌∷◌, if◌then◌else◌,
  if_both, Bool-cases,
}
use dph.Base.Text.{Bytes}
use dph.Ann.{Vec, Row, Index, insert_row, is_indexed, row_eligible, replay_row}
use dph.Ann.Insert.{IsConsistent, replay_row-IsConsistent}
use dph.Ann.Wal.{
  Disk, State, WalError, Write, append_line, logged, go_on, upsert_row, upsert_rows, open_wal,
  ensure_wal, upsert,
}

module _ {F : Type 0} (cosine : Vec → Vec → F) (gt : F → F → Bool) (low : F)
    (marshal : Row → Option Bytes) (writes : Row → Write) where
  abbrev Answer : Type 0
  Answer = State × Option WalError

  -- In memory a round of Upsert is a round of the replay.
  upsert_row-eq-replay_row :
      (r : Row) (ix : Index) (d : Disk)
      → (upsert_row cosine gt low marshal writes r (ix, d)).0.0 ≡ replay_row cosine gt low r ix
  unfolding upsert_row replay_row
  upsert_row-eq-replay_row r ix d = elim (Bool-cases (row_eligible ix r)) [
    | inr f ↦ rw f refl
    | inl t ↦ elim (Bool-cases (is_indexed ix r.id)) [
      | inl k ↦ rw (t, k) refl
      | inr k ↦ rw (t, k) (added ix.is_stored)
    ]
  ]
    where
      added :
          (b : Bool)
          → (if b
              then logged cosine gt low marshal writes
                  (insert_row cosine gt low r ix)
                  (append_line (marshal r) d (writes r))
              else ((insert_row cosine gt low r ix, d), none)).0.0
            ≡ insert_row cosine gt low r ix
      added true = refl
      added false = refl

  abbrev Good : Answer → Type 0
  Good a = IsConsistent a.0.0

  upsert_row-IsConsistent :
      (r : Row) (s : State) → IsConsistent s.0 → Good (upsert_row cosine gt low marshal writes r s)
  upsert_row-IsConsistent r (ix, d) h =
      rw (upsert_row-eq-replay_row r ix d) (replay_row-IsConsistent cosine gt low r ix h)

  go_on-Good :
      (a : Answer) (k : State → Answer)
      → Good a
      → ((s : State) → IsConsistent s.0 → Good (k s))
      → Good (go_on cosine gt low marshal writes a k)
  go_on-Good (s, none) k h f = f s h
  go_on-Good (s, some e) k h f = h

  upsert_rows-IsConsistent :
      (rs : List Row) (s : State)
      → IsConsistent s.0
      → Good (upsert_rows cosine gt low marshal writes rs s)
  unfolding upsert_rows
  upsert_rows-IsConsistent [] s h = h
  upsert_rows-IsConsistent (r ∷ rs) s h =
      go_on-Good (upsert_row cosine gt low marshal writes r s)
        (upsert_rows cosine gt low marshal writes rs) (upsert_row-IsConsistent r s h)
        (upsert_rows-IsConsistent rs)

  ensure_wal-IsConsistent :
      (opens : Option ℕ) (s : State)
      → IsConsistent s.0
      → Good (ensure_wal cosine gt low marshal writes opens s)
  ensure_wal-IsConsistent opens (ix, d) h =
      if_both Good ix.wal_open ((ix, d), none) (opened opens) (λ t. h) (λ f. opened-Good opens)
    where
      opened : Option ℕ → Answer
      opened opens = open_wal cosine gt low marshal writes opens (ix, d)

      opened-Good : (opens : Option ℕ) → Good (opened opens)
      opened-Good none = record { sizes = h.sizes; placed = h.placed; found = h.found }
      opened-Good (some e) = h

  -- Upsert keeps the cells and the map of ids in agreement, also when the log cannot be opened or a
  -- write to it fails on the way.
  pub upsert-IsConsistent :
      (opens : Option ℕ) (rs : List Row) (s : State)
      → IsConsistent s.0
      → IsConsistent (upsert cosine gt low marshal writes opens rs s).0.0
  unfolding upsert
  upsert-IsConsistent opens [] s h = h
  upsert-IsConsistent opens (r ∷ rs) (ix, d) h =
      if_both Good ix.is_stored
        (go_on cosine gt low marshal writes (ensure_wal cosine gt low marshal writes opens (ix, d))
          (upsert_rows cosine gt low marshal writes (r ∷ rs)))
        (upsert_rows cosine gt low marshal writes (r ∷ rs) (ix, d))
        (λ t.
          go_on-Good (ensure_wal cosine gt low marshal writes opens (ix, d))
            (upsert_rows cosine gt low marshal writes (r ∷ rs))
            (ensure_wal-IsConsistent opens (ix, d) h) (upsert_rows-IsConsistent (r ∷ rs)))
        (λ f. upsert_rows-IsConsistent (r ∷ rs) (ix, d) h)
