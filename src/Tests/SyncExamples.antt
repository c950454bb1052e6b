-- ===== src/Tests/SyncExamples.antt =====
-- Examples on the synchronisation driver.
use dph.Base.{ℕ, suc, ◌<◌, ◌≡◌, ◌≢◌, ◌⊎◌, inl, inr, refl, Option, none, some, List, [], ◌∷◌, arith}
use dph.Base.Text.{Bytes, codes}
use dph.Sync.{Blob, File, absent, Env, Machine, finished, no_fuel, sync}
use dph.Sync.Seen.{seen_of, AllDiffer, AllSeen}
use dph.Sync.Once.{SavesAll, Reachable, start, again, handled_once}
use dph.Sync.Ends.{Advances, sync_ends}
use dph.Sync.Complete.{IsComplete, sync-IsComplete}

abbrev blob : Bytes → Blob
blob id = record { id = id; kind = codes "mail"; path = []; content = [] }

-- A feed of one batch, whose second blob repeats the first; the world counts the calls of the
-- handler.
abbrev feed : ℕ → Bytes → ℕ × (ℕ ⊎ (List Blob × Bytes))
feed w [] = (w, inr (blob (codes "a") ∷ blob (codes "a") ∷ blob (codes "b") ∷ [], codes "1"))
feed w (c ∷ cursor) = (w, inr ([], c ∷ cursor))

abbrev one_feed : Env
one_feed = record {
  W = ℕ;
  ctx_err = λ w. none;
  fetch = feed;
  handle = λ w b. (suc w, none);
  write_file = λ w. (w, none);
}

-- The id in place of its hash.
abbrev same_id : Bytes → Bytes
same_id i = i

abbrev fresh_machine : Machine one_feed
fresh_machine = record { world = 0; file = absent; got = []; handled = [] }

abbrev state_path : Bytes
state_path = codes "var/state/disk.json"

abbrev second_run : Machine one_feed
second_run =
    (sync one_feed same_id 3 state_path
      (record (sync one_feed same_id 3 state_path fresh_machine).0 { world = 7 })).0

saves_all : SavesAll one_feed
saves_all w = refl

two_runs-Reachable : Reachable one_feed same_id saves_all second_run
two_runs-Reachable = again 7 3 state_path (again 0 3 state_path (start 0))

handled_once_example :
    AllDiffer same_id second_run.handled
    × AllSeen same_id (seen_of second_run.file) second_run.handled
handled_once_example = handled_once one_feed same_id saves_all two_runs-Reachable

abbrev one_left : Bytes → ℕ
one_left [] = 1
one_left (c ∷ cursor) = 0

one_feed-Advances : Advances one_feed one_left
one_feed-Advances w [] b bs next e = inr (ground arith)
one_feed-Advances w (c ∷ cursor) b bs next e = ground arith

one_less_two : 1 < 2
one_less_two = omega arith

sync_ends_example : (sync one_feed same_id 2 state_path fresh_machine).2 ≢ no_fuel
sync_ends_example =
    sync_ends one_feed same_id one_left one_feed-Advances 2 state_path fresh_machine one_less_two

run_finishes : (sync one_feed same_id 3 state_path fresh_machine).2 ≡ finished
unfolding sync dph.Sync.sync_loop dph.Sync.round dph.Sync.handle_batch dph.Sync.save_checkpoint
    dph.Base.Text.has dph.Base.Text.str_eq
run_finishes = refl

sync-IsComplete_example :
    IsComplete one_feed same_id [] (sync one_feed same_id 3 state_path fresh_machine).0
sync-IsComplete_example =
    sync-IsComplete one_feed same_id 3 state_path fresh_machine refl run_finishes
