-- ===== src/Sync/Once.antt =====
-- The blobs that reach the handler over the runs of `Sync`, internal/source/sync.go.
use dph.Base.{
  ℕ, zero, suc, ◌≡◌, refl, ◌⊎◌, inl, inr, Option, none, some, List, [], ◌∷◌, ◌++◌, Bool-cases,
  Option-cases,
}
use dph.Base.Text.{Bytes, has, str_eq, str_lt}
use dph.Base.Sort.{sort_by}
use dph.Sync.Seen.{seen_of, AllDiffer, AllSeen, AllDiffer-concat, AllSeen-concat, has-sort_by}
use dph.Sync.{
  Blob, Checkpoint, File, absent, unreadable, saved, Stats, Env, Machine, Run, Loop,
  save_checkpoint, handle_batch, written, next_round, end_run, end_failed, after_batch, fetched,
  after_fetch, unless_stopped, round, sync_loop, sync_from, no_stats, sync,
}

module _ (env : Env) where
  -- Writing the checkpoint file never fails.
  abbrev pub SavesAll : Type 0
  SavesAll = (w : env.W) → (env.write_file w).1 ≡ none

module _ (env : Env) (hash_id : Bytes → Bytes) where
  -- The blobs that were handled differ, and are all in the seen-set.
  abbrev Fresh : Machine env → List Bytes → Type 0
  Fresh m seen = AllDiffer hash_id m.handled × AllSeen hash_id seen m.handled

  -- The blobs that were handled differ, and are all in the checkpoint file.
  abbrev pub IsSafe : Machine env → Type 0
  IsSafe m = Fresh m (seen_of m.file)

  handle_batch-Fresh :
      (bs : List Blob) (m : Machine env) (seen : List Bytes) (stats : Stats)
      → Fresh m seen
      → Fresh
          (handle_batch env hash_id bs m seen stats).machine
          (handle_batch env hash_id bs m seen stats).seen
  unfolding handle_batch
  handle_batch-Fresh [] m seen stats f = f
  handle_batch-Fresh (b ∷ bs) m seen stats f = elim (Bool-cases (has seen (hash_id b.id))) [
    | inl old ↦
        rw old (handle_batch-Fresh bs m seen (record stats { skipped = suc stats.skipped }) f)
    | inr new ↦ elim (Option-cases (env.handle m.world b).1) [
      | inr (e, q) ↦ rw (new, q) f
      | inl q ↦
          rw (new, q)
            (handle_batch-Fresh bs
              (record m { world = (env.handle m.world b).0; handled = m.handled ++ b ∷ [] })
              (hash_id b.id ∷ seen) (record stats { fresh = suc stats.fresh })
              (
                AllDiffer-concat hash_id m.handled seen b f.0 f.1 new,
                AllSeen-concat hash_id m.handled seen b f.1,
              ))
    ]
  ]

  written-IsSafe :
      (cp : Checkpoint) (m : Machine env) (r : env.W × Option ℕ)
      → r.1 ≡ none
      → Fresh m cp.seen
      → IsSafe (written env cp m r).0
  written-IsSafe cp m (w, none) q f = f
  written-IsSafe cp m (w, some e) q f = cc

  written-Fresh :
      (cp : Checkpoint) (m : Machine env) (seen : List Bytes) (r : env.W × Option ℕ)
      → Fresh m seen
      → Fresh (written env cp m r).0 seen
  written-Fresh cp m seen (w, none) f = f
  written-Fresh cp m seen (w, some e) f = f

  save-Fresh :
      (m : Machine env) (cursor : Bytes) (seen : List Bytes)
      → Fresh m seen
      → Fresh (save_checkpoint env m cursor seen).0 seen
  unfolding save_checkpoint
  save-Fresh m cursor seen f =
      written-Fresh (record { cursor = cursor; seen = sort_by str_lt seen }) m seen
        (env.write_file m.world) f

  end_run-IsSafe :
      (stats : Stats) (r : Machine env × Option ℕ)
      → IsSafe r.0
      → IsSafe (end_run env hash_id stats r).0
  end_run-IsSafe stats (m, none) s = s
  end_run-IsSafe stats (m, some e) s = s

  end_failed-IsSafe :
      (e : ℕ) (stats : Stats) (r : Machine env × Option ℕ)
      → IsSafe r.0
      → IsSafe (end_failed env hash_id e stats r).0
  end_failed-IsSafe e stats (m, none) s = s
  end_failed-IsSafe e stats (m, some x) s = s

  module _ (saves : SavesAll env) where
    save-IsSafe :
        (m : Machine env) (cursor : Bytes) (seen : List Bytes)
        → Fresh m seen
        → IsSafe (save_checkpoint env m cursor seen).0
    unfolding save_checkpoint
    save-IsSafe m cursor seen f =
        written-IsSafe (record { cursor = cursor; seen = sort_by str_lt seen }) m
          (env.write_file m.world) (saves m.world)
          (f.0, λ b n. has-sort_by seen (hash_id b.id) (f.1 b n))

    -- A loop that keeps the machine safe.
    abbrev KeepsSafe : Loop env hash_id → Type 0
    KeepsSafe loop =
        (m : Machine env) (cursor : Bytes) (seen : List Bytes) (stats : Stats)
        → IsSafe m
        → Fresh m seen
        → IsSafe (loop m cursor seen stats).0

    module _ (loop : Loop env hash_id) (keep : KeepsSafe loop) where
      next_round-IsSafe :
          (prev next : Bytes) (seen : List Bytes) (stats : Stats) (r : Machine env × Option ℕ)
          → IsSafe r.0
          → Fresh r.0 seen
          → IsSafe (next_round env hash_id loop prev next seen stats r).0
      next_round-IsSafe prev next seen stats (m, some e) s f = s
      next_round-IsSafe prev next seen stats (m, none) s f = elim (Bool-cases (str_eq next prev)) [
        | inl q ↦ rw q s
        | inr q ↦ rw q (keep m next seen stats s f)
      ]

      after_batch-IsSafe :
          (prev next : Bytes) (m : Machine env) (seen : List Bytes) (stats : Stats) (e : Option ℕ)
          → Fresh m seen
          → IsSafe (after_batch env hash_id loop prev next m seen stats e).0
      after_batch-IsSafe prev next m seen stats (some e) f =
          end_failed-IsSafe e stats _ (save-IsSafe m prev seen f)
      after_batch-IsSafe prev next m seen stats none f =
          next_round-IsSafe prev next seen stats _ (save-IsSafe m next seen f)
            (save-Fresh m next seen f)

      after_fetch-IsSafe :
          (m : Machine env) (cursor : Bytes) (seen : List Bytes) (stats : Stats)
          (r : env.W × (ℕ ⊎ (List Blob × Bytes)))
          → IsSafe m
          → Fresh m seen
          → IsSafe (after_fetch env hash_id loop m cursor seen stats r).0
      after_fetch-IsSafe m cursor seen stats (w, inl e) s f = s
      after_fetch-IsSafe m cursor seen stats (w, inr ([], next)) s f =
          end_run-IsSafe stats _ (save-IsSafe (record m { world = w }) cursor seen f)
      after_fetch-IsSafe m cursor seen stats (w, inr (b ∷ bs, next)) s f =
          after_batch-IsSafe cursor next _ _ _ _ (
            handle_batch-Fresh (b ∷ bs) (record m { world = w; got = m.got ++ b ∷ bs }) seen
              (fetched env hash_id stats (b ∷ bs)) f)

      unless_stopped-IsSafe :
          (e : Option ℕ) (m : Machine env) (stats : Stats) (run : Run env)
          → IsSafe m
          → IsSafe run.0
          → IsSafe (unless_stopped env hash_id e m stats run).0
      unless_stopped-IsSafe none m stats run s t = t
      unless_stopped-IsSafe (some e) m stats run s t = s

      round-KeepsSafe : KeepsSafe (round env hash_id loop)
      unfolding round
      round-KeepsSafe m cursor seen stats s f =
          unless_stopped-IsSafe (env.ctx_err m.world) m stats _ s
            (after_fetch-IsSafe m cursor seen stats (env.fetch m.world cursor) s f)

    sync_loop-KeepsSafe : (n : ℕ) → KeepsSafe (sync_loop env hash_id n)
    unfolding sync_loop
    sync_loop-KeepsSafe zero m cursor seen stats s f = s
    sync_loop-KeepsSafe (suc n) m cursor seen stats s f =
        round-KeepsSafe (sync_loop env hash_id n) (sync_loop-KeepsSafe n) m cursor seen stats s f

    sync_from-IsSafe :
        (n : ℕ) (m : Machine env) (file : File)
        → m.file ≡ file
        → IsSafe m
        → IsSafe (sync_from env hash_id n m file).0
    sync_from-IsSafe n m absent q s =
        sync_loop-KeepsSafe n m [] [] (no_stats env hash_id) s (rw q at s)
    sync_from-IsSafe n m (unreadable e) q s = s
    sync_from-IsSafe n m (saved cp) q s =
        sync_loop-KeepsSafe n m cp.cursor cp.seen (no_stats env hash_id) s (rw q at s)

    sync-IsSafe :
        (n : ℕ) (path : Bytes) (m : Machine env) → IsSafe m → IsSafe (sync env hash_id n path m).0
    unfolding sync
    sync-IsSafe n [] m s = s
    sync-IsSafe n (c ∷ path) m s = sync_from-IsSafe n m m.file refl s

    -- Machines after any number of runs, each in any world and of any length, from a first run
    -- without a checkpoint file.
    pub data Reachable : Machine env → Type 0 where
      start : (w : env.W) → Reachable (record { world = w; file = absent; got = []; handled = [] })
      again :
          {m : Machine env} (w : env.W) (n : ℕ) (path : Bytes)
          → Reachable m
          → Reachable (sync env hash_id n path (record m { world = w })).0

    Reachable-IsSafe : {m : Machine env} → Reachable m → IsSafe m
    Reachable-IsSafe (start w) = (tt, λ b n. absurd n)
    Reachable-IsSafe (again {m} w n path r) =
        sync-IsSafe n path (record m { world = w }) (Reachable-IsSafe r)

    -- Over any number of runs, whatever ends them, no two blobs that the handler took have ids of
    -- the same hash, and the checkpoint file holds the keys of all of them, if saving never fails.
    pub handled_once :
        {m : Machine env}
        → Reachable m
        → AllDiffer hash_id m.handled × AllSeen hash_id (seen_of m.file) m.handled
    handled_once r = Reachable-IsSafe r
