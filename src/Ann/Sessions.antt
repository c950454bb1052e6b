-- ===== src/Ann/Sessions.antt =====
-- The life of an index of internal/brain/ann/ann.go and of its files: Upsert, Save, Close and Open, in
-- any order.
use dph.Base.{
  ℕ, suc, ◌≡◌, refl, sym, ap, ◌∙◌, ◌⊎◌, inl, inr, Bool, true, false, not, ◌||◌, Option, none, some,
  List, [], ◌∷◌, All, if_both, ◌==◌, ◌^◌,
}
use mathlib.Core.Path.{subst}
use dph.Base.Text.{Bytes, str_eq}
use dph.Base.Dict.{bytes_eq, lookup}
use dph.Ann.{
  Vec, Row, Index, Params, RawParams, with_defaults, new_index, replay, replay_row, row_eligible,
  is_indexed,
}
use dph.Ann.Insert.{IsConsistent, ArePlaced, IsPlaced}
use dph.Ann.Wal.{Disk, State, whole, upsert}
use dph.Ann.Snapshot.{
  SnapshotError, Read, and_then, read_snapshot, read_centroids, read_cells, read_bytes, read32,
  is_over, is_negative32, magic,
}
use dph.Ann.Snapshot.RoundTrip.{Fits}
use dph.Ann.Files.{
  SaveStep, SaveError, save_snapshot, remove_wal, reset_wal, after_snapshot, save, close, load,
  open_index,
}
use dph.Ann.Views.{SameView, SameView-refl, SameView-open, SameView-dirty, SameView-sym}
use dph.Ann.Recovery.{
  IsCodable, IsDurable, open_index-replays, open_index-SameView, upsert-IsDurable,
}
use dph.Ann.Saves.{save-IsDurable, closed-IsDurable}
use dph.Ann.Upserts.{upsert-IsConsistent}

-- Save changes nothing that Search or Lookup reads.
remove_wal-SameView :
    (removes : Option ℕ) (ix jx : Index) (d : Disk)
    → SameView ix jx
    → SameView ix (remove_wal removes jx d).0.0
remove_wal-SameView none ix jx d v = SameView-dirty v
remove_wal-SameView (some e) ix jx d v = v

reset_wal-SameView :
    (closes removes : Option ℕ) (ix : Index) (d : Disk)
    → SameView ix (reset_wal closes removes ix d).0.0
unfolding reset_wal
reset_wal-SameView none removes ix d =
    if_both (λ (r : State × Option SaveError). SameView ix r.0.0) ix.wal_open _ _
      (λ t.
        remove_wal-SameView removes ix (record ix { wal_open = false }) d
          (SameView-open false (SameView-refl ix)))
      (λ f. remove_wal-SameView removes ix ix d (SameView-refl ix))
reset_wal-SameView (some e) removes ix d =
    if_both (λ (r : State × Option SaveError). SameView ix r.0.0) ix.wal_open _ _
      (λ t. SameView-refl ix) (λ f. remove_wal-SameView removes ix ix d (SameView-refl ix))

after_snapshot-SameView :
    (closes removes : Option ℕ) (ix : Index) (x : Disk × Option SaveStep)
    → SameView ix (after_snapshot closes removes ix x).0.0
after_snapshot-SameView closes removes ix (d, none) = reset_wal-SameView closes removes ix d
after_snapshot-SameView closes removes ix (d, some e) = SameView-refl ix

save-SameView :
    (step : Option SaveStep) (closes removes : Option ℕ) (ix : Index) (d : Disk)
    → SameView ix (save step closes removes ix d).0.0
unfolding save
save-SameView step closes removes ix d =
    if_both (λ (r : State × Option SaveError). SameView ix r.0.0) (not ix.is_stored) _ _
      (λ t. SameView-refl ix)
      (λ f. after_snapshot-SameView closes removes ix (save_snapshot step ix d))

-- An index that answers like a consistent one is consistent.
module _ (p : Params) (m n : List (Bytes × ℕ)) (h : (id : Bytes) → lookup id m ≡ lookup id n) where
  All-IsPlaced : (i : ℕ) (cell : List Row) → All (IsPlaced p m i) cell → All (IsPlaced p n i) cell
  All-IsPlaced i [] a = tt
  All-IsPlaced i (r ∷ cell) a = ((sym (h r.id) ∙ a.0.0, a.0.1, a.0.2), All-IsPlaced i cell a.1)

  ArePlaced-lookup :
      (i : ℕ) (cells : List (List Row)) → ArePlaced p m i cells → ArePlaced p n i cells
  ArePlaced-lookup i [] a = tt
  ArePlaced-lookup i (cell ∷ cells) a =
      (All-IsPlaced i cell a.0, a.1, ArePlaced-lookup (suc i) cells a.2)

IsConsistent-SameView : (ix jx : Index) → SameView ix jx → IsConsistent ix → IsConsistent jx
IsConsistent-SameView ix jx v h = record {
  sizes = rw (sym v.lists, sym v.centroids) h.sizes;
  placed =
      rw (sym v.params, sym v.lists)
        (ArePlaced-lookup ix.params ix.id_cell jx.id_cell v.cells 0 ix.lists h.placed);
  found = λ id c e. rw (sym v.lists) (h.found id c (v.cells id ∙ e));
}

-- What an index that was loaded for some parameters keeps of a new one.
module _ (p : Params) where
  abbrev IsOf : Index → Type 0
  IsOf ix = (ix.params ≡ p) × (ix.is_stored ≡ true)

  abbrev AnswersOf : SnapshotError ⊎ Index → Type 0
  AnswersOf (inl e) = Unit
  AnswersOf (inr ix) = IsOf ix

  and_then-AnswersOf :
      {A : Type 0} (x : Read A) (k : A → Bytes → SnapshotError ⊎ Index)
      → ((a : A) (s : Bytes) → AnswersOf (k a s))
      → AnswersOf (and_then x k)
  and_then-AnswersOf (inl e) k h = tt
  and_then-AnswersOf (inr (a, s)) k h = h a s

  read_snapshot-AnswersOf : (ix : Index) (s : Bytes) → IsOf ix → AnswersOf (read_snapshot ix s)
  unfolding read_snapshot
  read_snapshot-AnswersOf ix s h = and_then-AnswersOf (read_bytes 8 s) _ (λ m s.
      if_both AnswersOf (not (str_eq m magic)) _ _ (λ e. tt)
        (λ e. and_then-AnswersOf (read32 s) _ (λ dim s. and_then-AnswersOf (read32 s) _ (λ n s.
          and_then-AnswersOf (read32 s) _ (λ nprobe s.
            if_both AnswersOf (is_negative32 dim || not (dim == ix.params.dim)) _ _ (λ e. tt)
              (λ e.
                if_both AnswersOf (is_over (2 ^ 20) n || n == 0) _ _ (λ e. tt)
                  (λ e. and_then-AnswersOf (read_centroids ix.params.dim n s) _ (λ cs s.
                    and_then-AnswersOf (read_cells ix.params.dim n s) _ (λ cells s. h)))))))))

  load-AnswersOf : (s : Option Bytes) (ix : Index) → IsOf ix → AnswersOf (load ix s)
  load-AnswersOf none ix h = h
  load-AnswersOf (some s) ix h = read_snapshot-AnswersOf ix s h

module _ (marshal : Row → Option Bytes) (unmarshal : Bytes → Option Row) {F : Type 0}
    (cosine : Vec → Vec → F) (gt : F → F → Bool) (low : F) (raw : RawParams) where
  abbrev fresh : Index
  fresh = new_index true (with_defaults raw)

  abbrev Durable : State → Type 0
  Durable s = IsDurable marshal unmarshal cosine gt low raw s

  abbrev IsRaw : Index → Type 0
  IsRaw ix = IsOf (with_defaults raw) ix

  replay_row-IsRaw : (r : Row) (ix : Index) → IsRaw ix → IsRaw (replay_row cosine gt low r ix)
  unfolding replay_row
  replay_row-IsRaw r ix h =
      if_both IsRaw (not (row_eligible ix r)) _ _ (λ e. h)
        (λ e. if_both IsRaw (is_indexed ix r.id) _ _ (λ k. h) (λ k. h))

  replay-IsRaw : (rs : List Row) (ix : Index) → IsRaw ix → IsRaw (replay cosine gt low rs ix)
  unfolding replay
  replay-IsRaw [] ix h = h
  replay-IsRaw (r ∷ rs) ix h =
      replay-IsRaw rs (replay_row cosine gt low r ix) (replay_row-IsRaw r ix h)

  -- The index that Open makes of durable files.
  abbrev reopened_of : (s : State) → Durable s → Index
  reopened_of s h = replay cosine gt low h.rows h.base

  base-IsRaw : (s : State) (h : Durable s) → IsRaw h.base
  base-IsRaw s h =
      subst (AnswersOf (with_defaults raw)) h.loads
        (load-AnswersOf (with_defaults raw) s.1.snapshot fresh (refl, refl))

  reopened-IsRaw : (s : State) (h : Durable s) → IsRaw (reopened_of s h)
  reopened-IsRaw s h = replay-IsRaw h.rows h.base (base-IsRaw s h)

  reopened-Durable : (s : State) (h : Durable s) → Durable (reopened_of s h, s.1)
  reopened-Durable s h = record {
    base = h.base;
    rows = h.rows;
    loads = h.loads;
    logs = h.logs;
    codable = h.codable;
    same = SameView-refl (reopened_of s h);
    stored = (reopened-IsRaw s h).1;
  }

  -- The states that an index and its files go through, from no files on: rows are inserted, where the
  -- log can be opened and takes every write; the index is saved, with an error at any step or none;
  -- it is closed; and it is opened again from the files, and the one in memory is lost.
  pub data Session : State → Type 0 where
    started : Session (fresh, record { snapshot = none; wal = none; tmp = none })
    upserted :
        {s : State} (rs : List Row)
        → Session s
        → All (IsCodable marshal unmarshal) rs
        → Session (upsert cosine gt low marshal (λ r. whole) none rs s).0
    saved :
        {s : State} (step : Option SaveStep) (closes removes : Option ℕ)
        → Session s
        → Fits s.0
        → Session (save step closes removes s.0 s.1).0
    closed : {s : State} → Session s → Session (close s.0, s.1)
    reopened :
        {s : State} {jx : Index}
        → Session s
        → open_index cosine gt low unmarshal raw s.1 ≡ inr jx
        → Session (jx, s.1)

  abbrev Holds : State → Type 0
  Holds s = Durable s × IsConsistent s.0

  params_of : (s : State) → Durable s → s.0.params ≡ with_defaults raw
  params_of s h = sym h.same.params ∙ (reopened-IsRaw s h).0

  upserted-Holds :
      (rs : List Row) (s : State)
      → All (IsCodable marshal unmarshal) rs
      → Holds s
      → Holds (upsert cosine gt low marshal (λ r. whole) none rs s).0
  upserted-Holds rs s c h =
      let q = upsert-IsDurable marshal unmarshal cosine gt low raw rs s c h.0 in
      (
        subst Durable (sym (ap (λ a. a.0) q.1)) q.2,
        upsert-IsConsistent cosine gt low marshal (λ r. whole) none rs s h.1,
      )

  saved-Holds :
      (step : Option SaveStep) (closes removes : Option ℕ) (s : State)
      → Fits s.0
      → Holds s
      → Holds (save step closes removes s.0 s.1).0
  saved-Holds step closes removes (ix, d) f h = (
    save-IsDurable marshal unmarshal cosine gt low raw step closes removes ix d
        (record { consistent = h.1; fits = f; params = params_of (ix, d) h.0 }) h.0,
    IsConsistent-SameView ix (save step closes removes ix d).0.0
        (save-SameView step closes removes ix d) h.1,
  )

  closed-Holds : (s : State) → Holds s → Holds (close s.0, s.1)
  closed-Holds (ix, d) h = (
    closed-IsDurable marshal unmarshal cosine gt low raw ix d h.0,
    IsConsistent-SameView ix (close ix) (SameView-open false (SameView-refl ix)) h.1,
  )

  reopened-Holds :
      (s : State) (jx : Index)
      → open_index cosine gt low unmarshal raw s.1 ≡ inr jx
      → Holds s
      → Holds (jx, s.1)
  reopened-Holds s jx e h =
      subst (λ kx. Holds (kx, s.1)) same
        (
          reopened-Durable s h.0,
          IsConsistent-SameView s.0 (reopened_of s h.0) (SameView-sym h.0.same) h.1,
        )
    where
      same : reopened_of s h.0 ≡ jx
      same = cc (open_index-replays marshal unmarshal cosine gt low raw s h.0, e)

  Session-Holds : (s : State) → Session s → Holds s
  unfolding replay lookup
  Session-Holds _ started = (
    record {
      base = fresh;
      rows = [];
      loads = refl;
      logs = refl;
      codable = tt;
      same = SameView-refl fresh;
      stored = refl;
    },
    record { sizes = refl; placed = tt; found = λ id c e. absurd (cc (e)) },
  )
  Session-Holds _ (upserted {s} rs p c) = upserted-Holds rs s c (Session-Holds s p)
  Session-Holds _ (saved {s} step closes removes p f) =
      saved-Holds step closes removes s f (Session-Holds s p)
  Session-Holds _ (closed {s} p) = closed-Holds s (Session-Holds s p)
  Session-Holds _ (reopened {s} {jx} p e) = reopened-Holds s jx e (Session-Holds s p)

  -- After any inserts, saves, with or without errors, closes and earlier openings for the same
  -- parameters, from no files on, Open finds the index that is in memory: the same cells, with the
  -- same rows in the same order, and the same ids, where every row that was inserted has a text of
  -- one line from which it is read back, the log can be opened and takes every write, and the index
  -- fits the format whenever it is saved.
  pub open_index-Session :
      (s : State)
      → Session s
      → (jx : Index) × (open_index cosine gt low unmarshal raw s.1 ≡ inr jx) × SameView jx s.0
  open_index-Session s p =
      open_index-SameView marshal unmarshal cosine gt low raw s (Session-Holds s p).0
