-- ===== src/Ann/Files.antt =====
-- The operations of internal/brain/ann/ann.go on the files of an index: Open, Save, SaveTo and
-- Build. The order in which the workers of `assign` end is given. That a snapshot or a log that is
-- there cannot be read at all, an error of Open, is left out.
use dph.Base.{
  ℕ, zero, suc, ◌/◌, ◌⊎◌, inl, inr, Bool, true, false, not, Option, none, some, List, [], ◌∷◌,
  if◌then◌else◌, ltb, length,
}
use dph.Base.Text.{Bytes}
use dph.Ann.{
  Vec, Row, Index, RawParams, with_defaults, new_index, row_eligible, append_at, nearest_cell,
  replay,
}
use dph.Ann.Kmeans.{sample, kmeans}
use dph.Ann.Wal.{Disk, wal_text, decode_wal}
use dph.Ann.Snapshot.{SnapshotError, write_snapshot, read_snapshot, place_cells}

-- The step at which saveSnapshot fails.
pub data SaveStep : Type 0 where
  mkdir open_tmp write_tmp flush_tmp sync_tmp close_tmp rename_tmp : SaveStep

-- `saveSnapshot`: the new snapshot is written aside and renamed; only the rename changes the old
-- one.
unfoldable pub save_snapshot : Option SaveStep → Index → Disk → Disk × Option SaveStep
save_snapshot none ix d = (record d { snapshot = some (write_snapshot ix); tmp = none }, none)
save_snapshot (some mkdir) ix d = (d, some mkdir)
save_snapshot (some open_tmp) ix d = (d, some open_tmp)
save_snapshot (some write_tmp) ix d = (record d { tmp = none }, some write_tmp)
save_snapshot (some flush_tmp) ix d = (record d { tmp = none }, some flush_tmp)
save_snapshot (some sync_tmp) ix d = (record d { tmp = none }, some sync_tmp)
save_snapshot (some close_tmp) ix d = (record d { tmp = none }, some close_tmp)
save_snapshot (some rename_tmp) ix d =
    (record d { tmp = some (write_snapshot ix) }, some rename_tmp)

pub data SaveError : Type 0 where
  no_snapshot : SaveStep → SaveError
  no_close no_remove : ℕ → SaveError

-- The end of `resetWAL`: the log is removed, unless that fails.
abbrev pub remove_wal : Option ℕ → Index → Disk → (Index × Disk) × Option SaveError
remove_wal none ix d = ((record ix { dirty = 0 }, record d { wal = none }), none)
remove_wal (some e) ix d = ((ix, d), some (no_remove e))

-- `resetWAL`, with the errors of closing and of removing the log.
unfoldable pub reset_wal : Option ℕ → Option ℕ → Index → Disk → (Index × Disk) × Option SaveError
reset_wal closes removes ix d =
    if ix.wal_open
    then elim closes [
      | none ↦ remove_wal removes (record ix { wal_open = false }) d
      | some e ↦ ((ix, d), some (no_close e))
    ]
    else remove_wal removes ix d

abbrev pub after_snapshot :
    Option ℕ → Option ℕ → Index → Disk × Option SaveStep → (Index × Disk) × Option SaveError
after_snapshot closes removes ix (d, none) = reset_wal closes removes ix d
after_snapshot closes removes ix (d, some e) = ((ix, d), some (no_snapshot e))

-- `Save`.
unfoldable pub save :
    Option SaveStep → Option ℕ → Option ℕ → Index → Disk → (Index × Disk) × Option SaveError
save step closes removes ix d =
    if not ix.is_stored
    then ((ix, d), none)
    else after_snapshot closes removes ix (save_snapshot step ix d)

-- `SaveTo`, on the files of the new path.
unfoldable pub save_to :
    Option SaveStep → Option ℕ → Option ℕ → Index → Disk → (Index × Disk) × Option SaveError
save_to step closes removes ix d =
    after_snapshot closes removes (record ix { is_stored = true })
      (save_snapshot step (record ix { is_stored = true }) d)

-- `Close`.
abbrev pub close : Index → Index
close ix = record ix { wal_open = false }

-- The number of cells of `Build` for `n` rows.
unfoldable pub cell_count : ℕ → ℕ → ℕ
cell_count nlist n =
    let cap = n / 4 in if ltb cap nlist then if ltb cap 32 then 32 else cap else nlist

-- `make([][]Row, n)`.
abbrev pub no_cells : ℕ → List (List Row)
no_cells zero = []
no_cells (suc n) = [] ∷ no_cells n

-- `loadSnapshot`: no file is no error.
abbrev pub load : Index → Option Bytes → SnapshotError ⊎ Index
load ix none = inr ix
load ix (some s) = read_snapshot ix s

-- The first loop of `Build`: the rows that are eligible, and the number of the others.
unfoldable pub eligible_rows : Index → List Row → List Row
eligible_rows ix [] = []
eligible_rows ix (r ∷ rs) =
    let rest = eligible_rows ix rs in if row_eligible ix r then r ∷ rest else rest

unfoldable pub count_skipped : Index → List Row → ℕ
count_skipped ix [] = 0
count_skipped ix (r ∷ rs) =
    let rest = count_skipped ix rs in if row_eligible ix r then rest else suc rest

abbrev pub saved : Option SaveStep → Index → Disk → (Index × Disk) × Option SaveStep
saved step ix d =
    if ix.is_stored
    then ((ix, (save_snapshot step ix d).0), (save_snapshot step ix d).1)
    else ((ix, d), none)

module _ {F : Type 0} (cosine : Vec → Vec → F) (gt : F → F → Bool) (low : F) where
  -- The rows into their nearest cells, in the order in which the workers end.
  unfoldable pub fill_cells : List Vec → List Row → List (List Row) → List (List Row)
  fill_cells cs [] cells = cells
  fill_cells cs (r ∷ rs) cells =
      fill_cells cs rs (append_at (nearest_cell cosine gt low r.vec cs) r cells)

  -- `assign`.
  abbrev pub assign : List Row → Index → Index
  assign rs ix =
      let cells = fill_cells ix.centroids rs (no_cells (length ix.centroids)) in
      record ix { lists = cells; id_cell = place_cells 0 cells [] }

  module _ (mean : ℕ → List ℕ → ℕ) (pick : ℕ → ℕ → ℕ) (shuffle arrival : List Row → List Row) where
    abbrev pub cleared : List Row → Index → Index
    cleared rows ix = record ix {
      centroids = [];
      lists = [];
      id_cell = [];
      dirty = 0;
      skipped = count_skipped ix rows;
    }

    -- The k-means of `Build`, for the eligible rows.
    abbrev pub found_centroids : List Row → ℕ → List Vec
    found_centroids rows nlist =
        kmeans mean cosine gt low pick (sample shuffle rows 50000) (cell_count nlist (length rows))
          10

    -- The cells for the eligible rows, in an index that was cleared.
    abbrev pub rebuilt_from : List Row → Index → Index
    rebuilt_from [] ix = ix
    rebuilt_from (r ∷ rs) ix =
        assign (arrival (r ∷ rs))
          (record ix { centroids = found_centroids (r ∷ rs) ix.params.nlist })

    -- `Build` in memory.
    unfoldable pub rebuilt : List Row → Index → Index
    rebuilt rows ix = rebuilt_from (eligible_rows ix rows) (cleared rows ix)

    -- `Build`.
    unfoldable pub build :
        Option SaveStep → List Row → Index → Disk → (Index × Disk) × Option SaveStep
    build step rows ix d = saved step (rebuilt rows ix) d

  module _ (unmarshal : Bytes → Option Row) where
    abbrev pub replayed : Option Bytes → SnapshotError ⊎ Index → SnapshotError ⊎ Index
    replayed wal (inl e) = inl e
    replayed wal (inr ix) = inr (replay cosine gt low (decode_wal unmarshal (wal_text wal)) ix)

    -- `Open`.
    unfoldable pub open_index : RawParams → Disk → SnapshotError ⊎ Index
    open_index p d = replayed d.wal (load (new_index true (with_defaults p)) d.snapshot)
