-- ===== src/Ann/Saves.antt =====
-- Save of internal/brain/ann/ann.go, and the files that it leaves.
use dph.Base.{
  ℕ, ◌≡◌, refl, sym, ap, inr, Bool, true, false, not, Option, none, some, List, [], ◌∷◌,
  if◌then◌else◌, All, if_both,
}
use dph.Base.Text.{Bytes}
use dph.Base.Dict.{bytes_eq}
use dph.Ann.{Vec, Row, Index, RawParams, with_defaults, new_index, replay}
use dph.Ann.Wal.{Disk, State}
use dph.Ann.Insert.{IsConsistent}
use dph.Ann.Snapshot.{write_snapshot, loaded}
use dph.Ann.Snapshot.RoundTrip.{Fits, write_snapshot-read_snapshot}
use dph.Ann.Files.{
  load, SaveStep, mkdir, open_tmp, write_tmp, flush_tmp, sync_tmp, close_tmp, rename_tmp,
  save_snapshot, SaveError, no_close, remove_wal, reset_wal, after_snapshot, save,
}
use dph.Ann.Views.{
  SameView, SameView-refl, SameView-trans, SameView-sym, SameView-open, SameView-dirty,
}
use dph.Ann.Again.{IsKnown, IsKnown-SameView, replay-IsKnown, replay_known}
use dph.Ann.Places.{place_cells-lookup}
use dph.Ann.Recovery.{IsDurable}

module _ (marshal : Row → Option Bytes) (unmarshal : Bytes → Option Row) {F : Type 0}
    (cosine : Vec → Vec → F) (gt : F → F → Bool) (low : F) (raw : RawParams) where
  abbrev Durable : State → Type 0
  Durable s = IsDurable marshal unmarshal cosine gt low raw s

  -- What Save asks of the index: it is consistent, it fits the format, and its parameters are those
  -- it is opened with.
  pub record CanSave (ix : Index) : Type 0 where
    pub consistent : IsConsistent ix
    pub fits : Fits ix
    pub params : ix.params ≡ with_defaults raw

  abbrev fresh : Index
  fresh = new_index true (with_defaults raw)

  abbrev reloaded : Index → Index
  reloaded ix = loaded fresh ix.centroids ix.lists

  reloaded-SameView : (ix : Index) → CanSave ix → SameView (reloaded ix) ix
  reloaded-SameView ix h = record {
    params = sym h.params;
    centroids = refl;
    lists = refl;
    cells = λ id. place_cells-lookup ix id h.consistent;
  }

  loads_written :
      (ix : Index) → CanSave ix → load fresh (some (write_snapshot ix)) ≡ inr (reloaded ix)
  loads_written ix h = write_snapshot-read_snapshot ix fresh h.fits (ap (λ p. p.dim) (sym h.params))

  -- With the new snapshot and the old log: the rows of the log are known.
  renamed-IsDurable :
      (ix : Index) (d : Disk)
      → CanSave ix
      → Durable (ix, d)
      → Durable (ix, record d { snapshot = some (write_snapshot ix); tmp = none })
  renamed-IsDurable ix d c h = record {
    base = reloaded ix;
    rows = h.rows;
    loads = loads_written ix c;
    logs = h.logs;
    codable = h.codable;
    same =
        SameView-trans
          (SameView-sym (
            replay_known cosine gt low h.rows (reloaded ix)
              (known h.rows (replay-IsKnown cosine gt low h.rows h.base))))
          (reloaded-SameView ix c);
    stored = h.stored;
  }
    where
      view : SameView (replay cosine gt low h.rows h.base) (reloaded ix)
      view = SameView-trans h.same (SameView-sym (reloaded-SameView ix c))

      known :
          (rs : List Row)
          → All (IsKnown (replay cosine gt low h.rows h.base)) rs
          → All (IsKnown (reloaded ix)) rs
      known [] k = tt
      known (r ∷ rs) k = (IsKnown-SameView r view k.0, known rs k.1)

  -- With the new snapshot and no log.
  removed-IsDurable :
      (ix jx : Index) (d : Disk)
      → CanSave ix
      → SameView ix jx
      → jx.is_stored ≡ true
      → Durable (jx, record d { snapshot = some (write_snapshot ix); wal = none; tmp = none })
  unfolding replay
  removed-IsDurable ix jx d c v t = record {
    base = reloaded ix;
    rows = [];
    loads = loads_written ix c;
    logs = refl;
    codable = tt;
    same = SameView-trans (reloaded-SameView ix c) v;
    stored = t;
  }

  abbrev renamed : Index → Disk → Disk
  renamed ix d = record d { snapshot = some (write_snapshot ix); tmp = none }

  remove_wal-IsDurable :
      (removes : Option ℕ) (ix jx : Index) (d : Disk)
      → CanSave ix
      → SameView ix jx
      → Durable (jx, renamed ix d)
      → Durable (remove_wal removes jx (renamed ix d)).0
  remove_wal-IsDurable none ix jx d c v h =
      removed-IsDurable ix (record jx { dirty = 0 }) d c (SameView-dirty v) h.stored
  remove_wal-IsDurable (some e) ix jx d c v h = h

  pub closed-IsDurable :
      (ix : Index) (d : Disk) → Durable (ix, d) → Durable (record ix { wal_open = false }, d)
  closed-IsDurable ix d h = record {
    base = h.base;
    rows = h.rows;
    loads = h.loads;
    logs = h.logs;
    codable = h.codable;
    same = SameView-open false h.same;
    stored = h.stored;
  }

  reset_wal-IsDurable :
      (closes removes : Option ℕ) (ix : Index) (d : Disk)
      → CanSave ix
      → Durable (ix, renamed ix d)
      → Durable (reset_wal closes removes ix (renamed ix d)).0
  unfolding reset_wal
  reset_wal-IsDurable closes removes ix d c h =
      if_both (λ (r : State × Option SaveError). Durable r.0) ix.wal_open (closed closes)
        (remove_wal removes ix (renamed ix d)) (λ t. closed-Durable closes)
        (λ f. remove_wal-IsDurable removes ix ix d c (SameView-refl ix) h)
    where
      closed : Option ℕ → State × Option SaveError
      closed none = remove_wal removes (record ix { wal_open = false }) (renamed ix d)
      closed (some e) = ((ix, renamed ix d), some (no_close e))

      closed-Durable : (closes : Option ℕ) → Durable (closed closes).0
      closed-Durable none =
          remove_wal-IsDurable removes ix (record ix { wal_open = false }) d c
            (SameView-open false (SameView-refl ix)) (closed-IsDurable ix (renamed ix d) h)
      closed-Durable (some e) = h

  tmp-IsDurable :
      (ix : Index) (d : Disk) (t : Option Bytes)
      → Durable (ix, d)
      → Durable (ix, record d { tmp = t })
  tmp-IsDurable ix d t h = record {
    base = h.base;
    rows = h.rows;
    loads = h.loads;
    logs = h.logs;
    codable = h.codable;
    same = h.same;
    stored = h.stored;
  }

  save-eq-after_snapshot :
      (step : Option SaveStep) (closes removes : Option ℕ) (ix : Index) (d : Disk)
      → ix.is_stored ≡ true
      → save step closes removes ix d ≡ after_snapshot closes removes ix (save_snapshot step ix d)
  unfolding save
  save-eq-after_snapshot step closes removes ix d e =
      ap
        (λ b.
          if not b
          then ((ix, d), none)
          else after_snapshot closes removes ix (save_snapshot step ix d))
        e

  after_snapshot-IsDurable :
      (step : Option SaveStep) (closes removes : Option ℕ) (ix : Index) (d : Disk)
      → CanSave ix
      → Durable (ix, d)
      → Durable (after_snapshot closes removes ix (save_snapshot step ix d)).0
  unfolding save_snapshot
  after_snapshot-IsDurable none closes removes ix d c h =
      reset_wal-IsDurable closes removes ix d c (renamed-IsDurable ix d c h)
  after_snapshot-IsDurable (some mkdir) closes removes ix d c h = h
  after_snapshot-IsDurable (some open_tmp) closes removes ix d c h = h
  after_snapshot-IsDurable (some rename_tmp) closes removes ix d c h =
      tmp-IsDurable ix d (some (write_snapshot ix)) h
  after_snapshot-IsDurable (some write_tmp) closes removes ix d c h = tmp-IsDurable ix d none h
  after_snapshot-IsDurable (some flush_tmp) closes removes ix d c h = tmp-IsDurable ix d none h
  after_snapshot-IsDurable (some sync_tmp) closes removes ix d c h = tmp-IsDurable ix d none h
  after_snapshot-IsDurable (some close_tmp) closes removes ix d c h = tmp-IsDurable ix d none h

  -- After Save of an index that is consistent, fits the format and has the parameters that it is
  -- opened with, with or without an error, and at whatever step the error came, the files still
  -- hold a snapshot that can be loaded and a log of exactly whole lines of rows that are read back,
  -- whose replay on the snapshot gives the index that is in memory, if they did before.
  pub save-IsDurable :
      (step : Option SaveStep) (closes removes : Option ℕ) (ix : Index) (d : Disk)
      → CanSave ix
      → Durable (ix, d)
      → Durable (save step closes removes ix d).0
  save-IsDurable step closes removes ix d c h =
      rw (save-eq-after_snapshot step closes removes ix d h.stored)
        (after_snapshot-IsDurable step closes removes ix d c h)
