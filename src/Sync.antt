-- ===== src/Sync.antt =====
-- The synchronisation driver: internal/source/sync.go, checkpoint.go and source.go. The source, the
-- handler, the context and the file system are given by `Env`, on a state of the world; the hash of
-- an id by `hash_id`.
pub mod Seen
pub mod Once
pub mod Ends
pub mod Complete
use dph.Base.{
  ℕ, zero, suc, ◌+◌, ◌≡◌, ◌⊎◌, inl, inr, Bool, true, false, Option, none, some, List, [], ◌∷◌, ◌++◌,
  if◌then◌else◌, length,
}
use dph.Base.Text.{Bytes, str_eq, str_lt, has, is_empty}
use dph.Base.Sort.{sort_by}

pub record Blob : Type 0 where
  pub id : Bytes
  pub kind : Bytes
  pub path : Bytes
  pub content : Bytes

-- `checkpoint`.
pub record Checkpoint : Type 0 where
  pub cursor : Bytes
  pub seen : List Bytes

-- The checkpoint file: absent, not readable (with the error), or a checkpoint.
pub data File : Type 0 where
  absent : File
  unreadable : ℕ → File
  saved : Checkpoint → File

-- `Stats`.
pub record Stats : Type 0 where
  pub fetched : ℕ
  pub fresh : ℕ
  pub skipped : ℕ

-- How a run ends. `no_fuel` is no outcome of the code: the loop goes on.
pub data End : Type 0 where
  finished : End
  no_state_path : End
  load_failed : ℕ → End
  stopped : ℕ → End
  fetch_failed : ℕ → End
  handle_failed : ℕ → End
  handle_and_save_failed : ℕ → ℕ → End
  save_failed : ℕ → End
  no_fuel : End

-- What the driver calls: the error of the context, if any; a batch and the next cursor, or an
-- error; the handler; and the writing of the checkpoint file, which on an error leaves the file as
-- it was.
pub record Env : Type 1 where
  pub W : Type 0
  pub ctx_err : W → Option ℕ
  pub fetch : W → Bytes → W × (ℕ ⊎ (List Blob × Bytes))
  pub handle : W → Blob → W × Option ℕ
  pub write_file : W → W × Option ℕ

module _ (env : Env) where
  open env use {W, ctx_err, fetch, handle, write_file}

  -- The world and the checkpoint file, with the blobs of all batches and those that the handler
  -- took, in order: the two lists are a record of the calls and are not read.
  pub record Machine : Type 0 where
    pub world : W
    pub file : File
    pub got : List Blob
    pub handled : List Blob

  abbrev pub Run : Type 0
  Run = Machine × Stats × End

  abbrev pub written : Checkpoint → Machine → W × Option ℕ → Machine × Option ℕ
  written cp m (w, none) = (record m { world = w; file = saved cp }, none)
  written cp m (w, some e) = (record m { world = w }, some e)

  -- `saveCheckpoint`: the seen-set is stored in order.
  unfoldable pub save_checkpoint : Machine → Bytes → List Bytes → Machine × Option ℕ
  save_checkpoint m cursor seen =
      written (record { cursor = cursor; seen = sort_by str_lt seen }) m (write_file m.world)

  -- The loop over one batch: where it leaves the machine, the seen-set and the statistics, and the
  -- error of the handler that ended it.
  pub record Batch : Type 0 where
    pub machine : Machine
    pub seen : List Bytes
    pub stats : Stats
    pub error : Option ℕ

  abbrev handled_or : Option ℕ → Machine → List Bytes → Stats → Batch → Batch
  handled_or none m seen stats rest = rest
  handled_or (some e) m seen stats rest = record {
    machine = m;
    seen = seen;
    stats = stats;
    error = some e;
  }

  module _ (hash_id : Bytes → Bytes) where
    unfoldable pub handle_batch : List Blob → Machine → List Bytes → Stats → Batch
    handle_batch [] m seen stats = record { machine = m; seen = seen; stats = stats; error = none }
    handle_batch (b ∷ bs) m seen stats =
        let key = hash_id b.id in
        let skip = handle_batch bs m seen (record stats { skipped = suc stats.skipped }) in
        let r = handle m.world b in
        let rest =
          handle_batch bs (record m { world = r.0; handled = m.handled ++ b ∷ [] }) (key ∷ seen)
            (record stats { fresh = suc stats.fresh }) in
        if has seen key then skip else handled_or r.1 (record m { world = r.0 }) seen stats rest

    abbrev pub Loop : Type 0
    Loop = Machine → Bytes → List Bytes → Stats → Run

    -- The last lines of a round: the checkpoint was saved, or not.
    abbrev pub next_round : Loop → Bytes → Bytes → List Bytes → Stats → Machine × Option ℕ → Run
    next_round loop prev next seen stats (m, some e) = (m, stats, save_failed e)
    next_round loop prev next seen stats (m, none) =
        if str_eq next prev then (m, stats, finished) else loop m next seen stats

    -- The end of a run after a save with no error of the handler.
    abbrev pub end_run : Stats → Machine × Option ℕ → Run
    end_run stats (m, none) = (m, stats, finished)
    end_run stats (m, some e) = (m, stats, save_failed e)

    -- The end of a run after an error of the handler and a save.
    abbrev pub end_failed : ℕ → Stats → Machine × Option ℕ → Run
    end_failed e stats (m, none) = (m, stats, handle_failed e)
    end_failed e stats (m, some s) = (m, stats, handle_and_save_failed e s)

    abbrev pub after_batch : Loop → Bytes → Bytes → Machine → List Bytes → Stats → Option ℕ → Run
    after_batch loop prev next m seen stats (some e) =
        end_failed e stats (save_checkpoint m prev seen)
    after_batch loop prev next m seen stats none =
        next_round loop prev next seen stats (save_checkpoint m next seen)

    abbrev pub batch_run : Loop → Bytes → Bytes → Batch → Run
    batch_run loop prev next b = after_batch loop prev next b.machine b.seen b.stats b.error

    abbrev pub fetched : Stats → List Blob → Stats
    fetched stats bs = record stats { fetched = stats.fetched + length bs }

    abbrev pub after_fetch :
        Loop → Machine → Bytes → List Bytes → Stats → W × (ℕ ⊎ (List Blob × Bytes)) → Run
    after_fetch loop m cursor seen stats (w, inl e) =
        (record m { world = w }, stats, fetch_failed e)
    after_fetch loop m cursor seen stats (w, inr ([], next)) =
        end_run stats (save_checkpoint (record m { world = w }) cursor seen)
    after_fetch loop m cursor seen stats (w, inr (b ∷ bs, next)) = batch_run loop cursor next (
        handle_batch (b ∷ bs) (record m { world = w; got = m.got ++ b ∷ bs }) seen
          (fetched stats (b ∷ bs)))

    abbrev pub unless_stopped : Option ℕ → Machine → Stats → Run → Run
    unless_stopped none m stats run = run
    unless_stopped (some e) m stats run = (m, stats, stopped e)

    -- One round of the loop of `Sync`; `loop` is what follows it.
    unfoldable pub round : Loop → Machine → Bytes → List Bytes → Stats → Run
    round loop m cursor seen stats =
        unless_stopped (ctx_err m.world) m stats
          (after_fetch loop m cursor seen stats (fetch m.world cursor))

    unfoldable pub sync_loop : ℕ → Machine → Bytes → List Bytes → Stats → Run
    sync_loop zero m cursor seen stats = (m, stats, no_fuel)
    sync_loop (suc n) m cursor seen stats = round (sync_loop n) m cursor seen stats

    abbrev pub no_stats : Stats
    no_stats = record { fetched = 0; fresh = 0; skipped = 0 }

    -- `loadCheckpoint`, and the loop from there.
    abbrev pub sync_from : ℕ → Machine → File → Run
    sync_from n m absent = sync_loop n m [] [] no_stats
    sync_from n m (unreadable e) = (m, no_stats, load_failed e)
    sync_from n m (saved cp) = sync_loop n m cp.cursor cp.seen no_stats

    -- `Sync`.
    unfoldable pub sync : ℕ → Bytes → Machine → Run
    sync n state_path m =
        if is_empty state_path then (m, no_stats, no_state_path) else sync_from n m m.file
