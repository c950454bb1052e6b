-- ===== src/Sync/Complete.antt =====
-- What is left when a run of `Sync`, internal/source/sync.go, ends.
use dph.Base.{
  ℕ, zero, suc, ◌≡◌, refl, ◌⊎◌, inl, inr, true, Option, none, some, List, [], ◌∷◌, ◌++◌, arith, In,
  In-append, In-append_left, In-append_right, Bool-cases, Option-cases,
}
use dph.Base.Text.{Bytes, has, str_eq, str_eq_refl, str_eq_iff, str_lt}
use dph.Base.Sort.{sort_by}
use dph.Sync.Seen.{seen_of, AllSeen, has-sort_by}
use dph.Sync.{
  Blob, Checkpoint, File, absent, unreadable, saved, Stats, finished, Env, Machine, Run, Batch,
  Loop, save_checkpoint, handle_batch, written, next_round, end_run, end_failed, after_batch,
  fetched, after_fetch, unless_stopped, round, sync_loop, sync_from, no_stats, sync,
}

module _ (env : Env) (hash_id : Bytes → Bytes) (before : List Bytes) where
  -- A key that was seen before the run, or is that of a blob that the handler took.
  abbrev pub IsAccounted : List Blob → Bytes → Type 0
  IsAccounted handled k = (has before k ≡ true) ⊎ ((c : Blob) × In c handled × (hash_id c.id ≡ k))

  -- The seen-set holds nothing else.
  abbrev Honest : List Blob → List Bytes → Type 0
  Honest handled seen = (k : Bytes) → has seen k ≡ true → IsAccounted handled k

  Honest-concat :
      (handled : List Blob) (seen : List Bytes) (b : Blob)
      → Honest handled seen
      → Honest (handled ++ b ∷ []) (hash_id b.id ∷ seen)
  unfolding has
  Honest-concat handled seen b h k e = elim (Bool-cases (str_eq (hash_id b.id) k)) [
    | inl q ↦
        inr (b, In-append_right b handled (b ∷ []) (inl refl), (str_eq_iff (hash_id b.id) k).0 q)
    | inr q ↦ elim (h k (ground arith)) [
      | inl old ↦ inl old
      | inr (c, m, p) ↦ inr (c, In-append_left c handled (b ∷ []) m, p)
    ]
  ]

  -- What a batch without an error of the handler does: `b` is where it leaves off.
  record Took (bs : List Blob) (m : Machine env) (seen : List Bytes) (b : Batch env) : Type 0 where
    same_got : b.machine.got ≡ m.got
    honest : Honest b.machine.handled b.seen
    grows : (k : Bytes) → has seen k ≡ true → has b.seen k ≡ true
    all : AllSeen hash_id b.seen bs

  handle_batch-Took :
      (bs : List Blob) (m : Machine env) (seen : List Bytes) (stats : Stats)
      → Honest m.handled seen
      → (handle_batch env hash_id bs m seen stats).error ≡ none
      → Took bs m seen (handle_batch env hash_id bs m seen stats)
  unfolding handle_batch has
  handle_batch-Took [] m seen stats h e = record {
    same_got = refl;
    honest = h;
    grows = λ k q. q;
    all = λ b n. absurd n;
  }
  handle_batch-Took (b ∷ bs) m seen stats h e = elim (Bool-cases (has seen (hash_id b.id))) [
    | inl old ↦
        let t =
          handle_batch-Took bs m seen (record stats { skipped = suc stats.skipped }) h
            (rw old at e) in
        rw old (record {
          same_got = t.same_got;
          honest = t.honest;
          grows = t.grows;
          all = λ c n. elim n [ inl q ↦ rw q (t.grows (hash_id b.id) old) | inr r ↦ t.all c r ];
        })
    | inr new ↦ elim (Option-cases (env.handle m.world b).1) [
      | inr (x, q) ↦ cc (rw (new, q) at e)
      | inl q ↦
          let t =
            handle_batch-Took bs
              (record m { world = (env.handle m.world b).0; handled = m.handled ++ b ∷ [] })
              (hash_id b.id ∷ seen) (record stats { fresh = suc stats.fresh })
              (Honest-concat m.handled seen b h) (rw (new, q) at e) in
          rw (new, q)
            (record {
              same_got = t.same_got;
              honest = t.honest;
              grows = λ k p. t.grows k (ground arith);
              all = λ c n. elim n [
                | inl p ↦
                    rw p
                      (t.grows (hash_id b.id) (let r = str_eq_refl (hash_id b.id) in ground arith))
                | inr r ↦ t.all c r
              ];
            })
    ]
  ]

  -- Every blob of the batches has its key in the checkpoint file, and was handled, or was seen
  -- before the run.
  abbrev pub IsComplete : Machine env → Type 0
  IsComplete m =
      (b : Blob)
      → In b m.got
      → (has (seen_of m.file) (hash_id b.id) ≡ true) × IsAccounted m.handled (hash_id b.id)

  -- The seen-set holds every blob so far, and nothing that was not handled or seen before.
  abbrev Counts : Machine env → List Bytes → Type 0
  Counts m seen = Honest m.handled seen × AllSeen hash_id seen m.got

  written-IsComplete :
      (cp : Checkpoint) (m : Machine env) (seen : List Bytes) (r : env.W × Option ℕ)
      → Counts m seen
      → AllSeen hash_id cp.seen m.got
      → (written env cp m r).1 ≡ none
      → IsComplete (written env cp m r).0 × Counts (written env cp m r).0 seen
  written-IsComplete cp m seen (w, none) c a e = ((λ b n. (a b n, c.0 (hash_id b.id) (c.1 b n))), c)
  written-IsComplete cp m seen (w, some x) c a e = cc

  save-IsComplete :
      (m : Machine env) (cursor : Bytes) (seen : List Bytes)
      → Counts m seen
      → (save_checkpoint env m cursor seen).1 ≡ none
      → IsComplete (save_checkpoint env m cursor seen).0
        × Counts (save_checkpoint env m cursor seen).0 seen
  unfolding save_checkpoint
  save-IsComplete m cursor seen c e =
      written-IsComplete (record { cursor = cursor; seen = sort_by str_lt seen }) m seen
        (env.write_file m.world) c (λ b n. has-sort_by seen (hash_id b.id) (c.1 b n)) e

  end_run-IsComplete :
      (stats : Stats) (r : Machine env × Option ℕ)
      → (r.1 ≡ none → IsComplete r.0)
      → (end_run env hash_id stats r).2 ≡ finished
      → IsComplete (end_run env hash_id stats r).0
  end_run-IsComplete stats (m, none) s e = s refl
  end_run-IsComplete stats (m, some x) s e = cc

  -- A loop that leaves nothing out when it finishes.
  abbrev Completes : Loop env hash_id → Type 0
  Completes loop =
      (m : Machine env) (cursor : Bytes) (seen : List Bytes) (stats : Stats)
      → Counts m seen
      → (loop m cursor seen stats).2 ≡ finished
      → IsComplete (loop m cursor seen stats).0

  module _ (loop : Loop env hash_id) (complete : Completes loop) where
    next_round-IsComplete :
        (prev next : Bytes) (seen : List Bytes) (stats : Stats) (r : Machine env × Option ℕ)
        → (r.1 ≡ none → IsComplete r.0 × Counts r.0 seen)
        → (next_round env hash_id loop prev next seen stats r).2 ≡ finished
        → IsComplete (next_round env hash_id loop prev next seen stats r).0
    next_round-IsComplete prev next seen stats (m, some x) s e = cc
    next_round-IsComplete prev next seen stats (m, none) s e =
        elim (Bool-cases (str_eq next prev)) [
          | inl q ↦ rw q (s refl).0
          | inr q ↦ rw q (complete m next seen stats (s refl).1 (rw q at e))
        ]

    end_failed-IsComplete :
        (x : ℕ) (stats : Stats) (r : Machine env × Option ℕ)
        → (end_failed env hash_id x stats r).2 ≡ finished
        → IsComplete (end_failed env hash_id x stats r).0
    end_failed-IsComplete x stats (m, none) e = cc
    end_failed-IsComplete x stats (m, some y) e = cc

    after_batch-IsComplete :
        (prev next : Bytes) (m : Machine env) (seen : List Bytes) (stats : Stats) (x : Option ℕ)
        → (x ≡ none → Counts m seen)
        → (after_batch env hash_id loop prev next m seen stats x).2 ≡ finished
        → IsComplete (after_batch env hash_id loop prev next m seen stats x).0
    after_batch-IsComplete prev next m seen stats (some x) c e = end_failed-IsComplete x stats _ e
    after_batch-IsComplete prev next m seen stats none c e =
        next_round-IsComplete prev next seen stats _ (λ q. save-IsComplete m next seen (c refl) q) e

    batch-Counts :
        (bs : List Blob) (w : env.W) (m : Machine env) (seen : List Bytes) (stats : Stats)
        → Counts m seen
        → (handle_batch env hash_id bs (record m { world = w; got = m.got ++ bs }) seen stats).error
          ≡ none
        → Counts
            (handle_batch env hash_id bs
              (record m { world = w; got = m.got ++ bs })
              seen
              stats).machine
            (handle_batch env hash_id bs
              (record m { world = w; got = m.got ++ bs })
              seen
              stats).seen
    batch-Counts bs w m seen stats c e =
        let t = handle_batch-Took bs (record m { world = w; got = m.got ++ bs }) seen stats c.0 e in
        (
          t.honest,
          λ b n. elim (In-append b m.got bs (rw t.same_got at n)) [
            | inl l ↦ t.grows (hash_id b.id) (c.1 b l)
            | inr r ↦ t.all b r
          ],
        )

    after_fetch-IsComplete :
        (m : Machine env) (cursor : Bytes) (seen : List Bytes) (stats : Stats)
        (r : env.W × (ℕ ⊎ (List Blob × Bytes)))
        → Counts m seen
        → (after_fetch env hash_id loop m cursor seen stats r).2 ≡ finished
        → IsComplete (after_fetch env hash_id loop m cursor seen stats r).0
    after_fetch-IsComplete m cursor seen stats (w, inl x) c e = cc
    after_fetch-IsComplete m cursor seen stats (w, inr ([], next)) c e =
        end_run-IsComplete stats _
          (λ q. (save-IsComplete (record m { world = w }) cursor seen c q).0) e
    after_fetch-IsComplete m cursor seen stats (w, inr (b ∷ bs, next)) c e =
        after_batch-IsComplete cursor next _ _ _ _
          (batch-Counts (b ∷ bs) w m seen (fetched env hash_id stats (b ∷ bs)) c) e

    unless_stopped-IsComplete :
        (x : Option ℕ) (m : Machine env) (stats : Stats) (run : Run env)
        → (run.2 ≡ finished → IsComplete run.0)
        → (unless_stopped env hash_id x m stats run).2 ≡ finished
        → IsComplete (unless_stopped env hash_id x m stats run).0
    unless_stopped-IsComplete none m stats run h e = h e
    unless_stopped-IsComplete (some x) m stats run h e = cc

  sync_loop-Completes : (n : ℕ) → Completes (sync_loop env hash_id n)
  unfolding sync_loop round
  sync_loop-Completes zero m cursor seen stats c e = cc
  sync_loop-Completes (suc n) m cursor seen stats c e =
      let loop = sync_loop env hash_id n in
      unless_stopped-IsComplete loop (sync_loop-Completes n) (env.ctx_err m.world) m stats _
        (after_fetch-IsComplete loop (sync_loop-Completes n) m cursor seen stats
          (env.fetch m.world cursor) c)
        e

module _ (env : Env) (hash_id : Bytes → Bytes) where
  sync_from-IsComplete :
      (n : ℕ) (m : Machine env) (file : File)
      → m.got ≡ []
      → (sync_from env hash_id n m file).2 ≡ finished
      → IsComplete env hash_id (seen_of file) (sync_from env hash_id n m file).0
  sync_from-IsComplete n m absent q e =
      sync_loop-Completes env hash_id [] n m [] [] (no_stats env hash_id)
        (λ k h. inl h, λ b i. absurd (rw q at i)) e
  sync_from-IsComplete n m (unreadable x) q e = cc
  sync_from-IsComplete n m (saved cp) q e =
      sync_loop-Completes env hash_id cp.seen n m cp.cursor cp.seen (no_stats env hash_id)
        (λ k h. inl h, λ b i. absurd (rw q at i)) e

  -- When a run finishes in order, each blob of its batches was handed to the handler with success
  -- or was in the checkpoint file before, and is in the checkpoint file now.
  pub sync-IsComplete :
      (n : ℕ) (path : Bytes) (m : Machine env)
      → m.got ≡ []
      → (sync env hash_id n path m).2 ≡ finished
      → IsComplete env hash_id (seen_of m.file) (sync env hash_id n path m).0
  unfolding sync
  sync-IsComplete n [] m q e = cc
  sync-IsComplete n (c ∷ path) m q e = sync_from-IsComplete n m m.file q e
