-- ===== src/Sync/Ends.antt =====
-- The end of a run of `Sync`, internal/source/sync.go.
use dph.Base.{
  ℕ, zero, suc, ◌<◌, ◌≡◌, ◌≢◌, refl, ◌⊎◌, inl, inr, Option, none, some, List, [], ◌∷◌, arith,
  Bool-cases,
}
use dph.Base.Text.{Bytes, str_eq, str_eq_refl}
use dph.Sync.{
  Blob, File, absent, unreadable, saved, Stats, no_fuel, Env, Machine, Run, Loop, next_round,
  end_run, end_failed, after_batch, after_fetch, unless_stopped, round, sync_loop, sync_from,
  no_stats, sync,
}

-- The cursor at which a run starts.
abbrev pub start_of : File → Bytes
start_of absent = []
start_of (unreadable e) = []
start_of (saved cp) = cp.cursor

module _ (env : Env) where
  -- The source comes to an end: there is a measure of what is left after a cursor, and a batch that
  -- is not empty moves to a cursor with less left, or to the same cursor.
  abbrev pub Advances : (Bytes → ℕ) → Type 0
  Advances left =
      (w : env.W) (cursor : Bytes) (b : Blob) (bs : List Blob) (next : Bytes)
      → (env.fetch w cursor).1 ≡ inr (b ∷ bs, next)
      → (next ≡ cursor) ⊎ (left next < left cursor)

module _ (env : Env) (hash_id : Bytes → Bytes) where
  module _ (left : Bytes → ℕ) (advances : Advances env left) where
    -- A loop that ends from each cursor with less than `n` left.
    abbrev EndsBelow : ℕ → Loop env hash_id → Type 0
    EndsBelow n loop =
        (m : Machine env) (cursor : Bytes) (seen : List Bytes) (stats : Stats)
        → left cursor < n
        → (loop m cursor seen stats).2 ≢ no_fuel

    module _ (n : ℕ) (loop : Loop env hash_id) (ends : EndsBelow n loop) where
      next_round_ends :
          (prev next : Bytes) (seen : List Bytes) (stats : Stats) (r : Machine env × Option ℕ)
          → (next ≡ prev) ⊎ (left next < n)
          → (next_round env hash_id loop prev next seen stats r).2 ≢ no_fuel
      next_round_ends prev next seen stats (m, some e) l = λ q. cc
      next_round_ends prev next seen stats (m, none) (inl q) = rw (q, str_eq_refl prev) (λ x. cc)
      next_round_ends prev next seen stats (m, none) (inr l) =
          elim (Bool-cases (str_eq next prev)) [
            | inl q ↦ rw q (λ x. cc)
            | inr q ↦ rw q (ends m next seen stats l)
          ]

      end_run_ends :
          (stats : Stats) (r : Machine env × Option ℕ) → (end_run env hash_id stats r).2 ≢ no_fuel
      end_run_ends stats (m, none) = λ q. cc
      end_run_ends stats (m, some e) = λ q. cc

      end_failed_ends :
          (e : ℕ) (stats : Stats) (r : Machine env × Option ℕ)
          → (end_failed env hash_id e stats r).2 ≢ no_fuel
      end_failed_ends e stats (m, none) = λ q. cc
      end_failed_ends e stats (m, some x) = λ q. cc

      after_batch_ends :
          (prev next : Bytes) (m : Machine env) (seen : List Bytes) (stats : Stats) (e : Option ℕ)
          → (next ≡ prev) ⊎ (left next < n)
          → (after_batch env hash_id loop prev next m seen stats e).2 ≢ no_fuel
      after_batch_ends prev next m seen stats (some e) l = end_failed_ends e stats _
      after_batch_ends prev next m seen stats none l = next_round_ends prev next seen stats _ l

      after_fetch_ends :
          (m : Machine env) (cursor : Bytes) (seen : List Bytes) (stats : Stats)
          (r : env.W × (ℕ ⊎ (List Blob × Bytes)))
          → ((b : Blob) (bs : List Blob) (next : Bytes)
              → r.1 ≡ inr (b ∷ bs, next)
              → (next ≡ cursor) ⊎ (left next < n))
          → (after_fetch env hash_id loop m cursor seen stats r).2 ≢ no_fuel
      after_fetch_ends m cursor seen stats (w, inl e) l = λ q. cc
      after_fetch_ends m cursor seen stats (w, inr ([], next)) l = end_run_ends stats _
      after_fetch_ends m cursor seen stats (w, inr (b ∷ bs, next)) l =
          after_batch_ends cursor next _ _ _ _ (l b bs next refl)

      unless_stopped_ends :
          (e : Option ℕ) (m : Machine env) (stats : Stats) (run : Run env)
          → run.2 ≢ no_fuel
          → (unless_stopped env hash_id e m stats run).2 ≢ no_fuel
      unless_stopped_ends none m stats run h = h
      unless_stopped_ends (some e) m stats run h = λ q. cc

    sync_loop_ends : (n : ℕ) → EndsBelow n (sync_loop env hash_id n)
    unfolding sync_loop round
    sync_loop_ends zero m cursor seen stats l = absurd (omega (arith, l))
    sync_loop_ends (suc n) m cursor seen stats l =
        let loop = sync_loop env hash_id n in
        unless_stopped_ends n loop (sync_loop_ends n) (env.ctx_err m.world) m stats _ (
          after_fetch_ends n loop (sync_loop_ends n) m cursor seen stats (env.fetch m.world cursor)
            (λ b bs next q. elim (advances m.world cursor b bs next q) [
              | inl same ↦ inl same
              | inr less ↦ inr (omega (arith, less, l))
            ]))

    sync_from_ends :
        (n : ℕ) (m : Machine env) (file : File)
        → left (start_of file) < n
        → (sync_from env hash_id n m file).2 ≢ no_fuel
    sync_from_ends n m absent l = sync_loop_ends n m [] [] (no_stats env hash_id) l
    sync_from_ends n m (unreadable e) l = λ q. cc
    sync_from_ends n m (saved cp) l = sync_loop_ends n m cp.cursor cp.seen (no_stats env hash_id) l

    -- A run over a source that comes to an end ends itself, in more rounds than what is left after
    -- the cursor of the checkpoint.
    pub sync_ends :
        (n : ℕ) (path : Bytes) (m : Machine env)
        → left (start_of m.file) < n
        → (sync env hash_id n path m).2 ≢ no_fuel
    unfolding sync
    sync_ends n [] m l = λ q. cc
    sync_ends n (c ∷ path) m l = sync_from_ends n m m.file l
