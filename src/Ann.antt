-- ===== src/Ann.antt =====
-- The nearest-neighbour index: internal/brain/ann/ann.go and internal/brain/ann/wal.go. A float32 is
-- its bit pattern; the cosine of two vectors and the JSON text of a row are given.
pub mod Insert
pub mod Wal
pub mod Snapshot
pub mod Kmeans
pub mod Files
pub mod Views
pub mod Recovery
pub mod Again
pub mod Places
pub mod Saves
pub mod Torn
pub mod Upserts
pub mod Sessions
pub mod Built
pub mod Search
use dph.Base.{
  ℕ, zero, suc, ◌+◌, ◌%◌, ◌^◌, ◌≡◌, Bool, true, false, not, ◌&&◌, Option, none, some, List, [], ◌∷◌,
  ◌++◌, if◌then◌else◌, leb, ltb, ◌==◌, length,
}
use dph.Base.Number.{ℤ, pos, negsuc}
use dph.Base.Text.{Bytes}
use dph.Base.Dict.{bytes_eq, lookup, upsert}

-- A vector of float32 bit patterns.
abbrev pub Vec : Type 0
Vec = List ℕ

-- `Row`.
pub record Row : Type 0 where
  pub id : Bytes
  pub vec : Vec

-- `Params` as they are given; the seed is that of the random numbers that are given.
pub record RawParams : Type 0 where
  pub dim : ℤ
  pub nlist : ℤ
  pub nprobe : ℤ

-- `Params` with their defaults.
pub record Params : Type 0 where
  pub dim : ℕ
  pub nlist : ℕ
  pub nprobe : ℕ

abbrev pub positive_or : ℤ → ℕ → ℕ
positive_or (pos zero) d = d
positive_or (pos (suc n)) d = suc n
positive_or (negsuc n) d = d

-- `withDefaults`, and `Defaults` in it.
abbrev pub with_defaults : RawParams → Params
with_defaults p = record {
  dim = positive_or p.dim 256;
  nlist = positive_or p.nlist 2000;
  nprobe = positive_or p.nprobe 128;
}

-- `f == 0`: both zeros.
abbrev pub is_zero : ℕ → Bool
is_zero f = f % 2 ^ 31 == 0

-- `zeroNorm`.
unfoldable pub zero_norm : Vec → Bool
zero_norm [] = true
zero_norm (f ∷ v) = let rest = zero_norm v in if is_zero f then rest else false

-- `Index` in memory; `is_stored` says that its path is set, `wal_open` that the log is open.
pub record Index : Type 0 where
  pub params : Params
  pub centroids : List Vec
  pub lists : List (List Row)
  pub id_cell : List (Bytes × ℕ)
  pub is_stored : Bool
  pub wal_open : Bool
  pub dirty : ℕ
  pub skipped : ℕ

-- The rows of all cells.
abbrev pub all_rows : List (List Row) → List Row
all_rows [] = []
all_rows (cell ∷ cells) = cell ++ all_rows cells

-- `newIndex`.
abbrev pub new_index : Bool → Params → Index
new_index stored p = record {
  params = p;
  centroids = [];
  lists = [];
  id_cell = [];
  is_stored = stored;
  wal_open = false;
  dirty = 0;
  skipped = 0;
}

-- `rowEligible`.
abbrev pub row_eligible : Index → Row → Bool
row_eligible ix r = if not (length r.vec == ix.params.dim) then false else not (zero_norm r.vec)

-- `lists[c] = append(lists[c], r)`.
unfoldable pub append_at : ℕ → Row → List (List Row) → List (List Row)
append_at c r [] = []
append_at zero r (cell ∷ cells) = (cell ++ r ∷ []) ∷ cells
append_at (suc c) r (cell ∷ cells) = cell ∷ append_at c r cells

abbrev pub is_some : Option ℕ → Bool
is_some none = false
is_some (some c) = true

-- `Lookup`.
abbrev pub is_indexed : Index → Bytes → Bool
is_indexed ix id = is_some (lookup id ix.id_cell)

-- An index without cells gets a cell at the row.
abbrev pub first_centroids : Vec → List Vec → List Vec
first_centroids v [] = v ∷ []
first_centroids v (c ∷ cs) = c ∷ cs

abbrev pub first_lists : List Vec → List (List Row) → List (List Row)
first_lists [] cells = [] ∷ []
first_lists (c ∷ cs) cells = cells

abbrev pub bootstrapped : Row → Index → Index
bootstrapped r ix = record ix {
  centroids = first_centroids r.vec ix.centroids;
  lists = first_lists ix.centroids ix.lists;
}

module _ {F : Type 0} (cosine : Vec → Vec → F) (gt : F → F → Bool) (low : F) where
  -- The loop of `nearestCell`, at centroid `i`.
  unfoldable pub nearest_from : Vec → ℕ → F → ℕ → List Vec → ℕ
  nearest_from v best best_sim i [] = best
  nearest_from v best best_sim i (c ∷ cs) =
      let closer = nearest_from v i (cosine v c) (suc i) cs in
      let same = nearest_from v best best_sim (suc i) cs in
      if gt (cosine v c) best_sim then closer else same

  -- `nearestCell`; `low` is -2.0.
  abbrev pub nearest_cell : Vec → List Vec → ℕ
  nearest_cell v cs = nearest_from v 0 low 0 cs

  -- A row into the cell of an index that has cells.
  abbrev pub put_row : Row → Index → Index
  put_row r ix = record ix {
    lists = append_at (nearest_cell r.vec ix.centroids) r ix.lists;
    id_cell = upsert r.id (λ old. nearest_cell r.vec ix.centroids) ix.id_cell;
    dirty = suc ix.dirty;
  }

  -- A new row, the same in `upsertLocked` and in `replayWAL`.
  abbrev pub insert_row : Row → Index → Index
  insert_row r ix = put_row r (bootstrapped r ix)

  -- What `replayWAL` does with a row.
  unfoldable pub replay_row : Row → Index → Index
  replay_row r ix =
      if not (row_eligible ix r)
      then record ix { skipped = suc ix.skipped }
      else if is_indexed ix r.id
      then ix
      else insert_row r ix

  -- The loop of `replayWAL` over the rows of the log.
  unfoldable pub replay : List Row → Index → Index
  replay [] ix = ix
  replay (r ∷ rs) ix = replay rs (replay_row r ix)
