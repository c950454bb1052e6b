-- ===== src/Tests/RunnerExamples.antt =====
-- Examples on the pipeline and the registry: one blob, one worker, channels of one place.
use dph.Base.{
  ◌+◌, ◌*◌, ◌≤◌, ◌≡◌, ◌↔◌, ◌⊎◌, refl, Bool, true, false, none, some, [], ◌∷◌, length, All, arith,
  if◌then◌else◌,
}
use dph.Base.Text.{codes, str_eq}
use dph.Base.Dict.{lookup, upsert, bytes_eq}
use dph.Sync.{Blob}
use dph.Runner.{Handler, register}
use dph.Runner.Pipeline.{
  Config, Pipe, item_of, Reaches, start, move, feed, end_source, take_item, send, end_worker,
  shut_out, load_item, end_load, IsOver, start_pipe,
}
use dph.Runner.Steady.{IsLoaded}
use dph.Runner.Loads.{tally, tally_items, run_loads_every_blob}
use dph.Runner.Ends.{left_to_do, run_ends}
use dph.Runner.Progress.{CanMove, run_goes_on}
use dph.Runner.Handlers.{IsOpen, register_lem}

abbrev mail_blob : Blob
mail_blob = record { id = codes "1"; kind = codes "mail"; path = codes "a"; content = [] }

abbrev mail_handler : Handler
mail_handler = record { name = codes "mail"; handle = λ path. none }

abbrev small : Config
small = record {
  registry = (codes "mail", mail_handler) ∷ [];
  workers = 1;
  buffer = 1;
  transform = none;
  on_load = none;
  blobs = mail_blob ∷ [];
  source_err = none;
}

abbrev last : Pipe
last = record {
  todo = [];
  in_closed = true;
  in_queue = [];
  idle = 0;
  held = [];
  gone = 1;
  out_queue = [];
  out_closed = true;
  stored = item_of mail_blob ∷ [];
  load_done = true;
  err = none;
  is_cancelled = false;
  stats = (codes "mail", (1, 0)) ∷ [];
}

example_run : Reaches small 8 last
unfolding lookup upsert str_eq
example_run =
    move
      (move
        (move
          (move
            (move
              (move
                (move (move start (feed mail_blob [] refl refl (omega arith)))
                  (take_item (item_of mail_blob) [] 0 refl refl))
                (end_source refl refl))
              (send [] (item_of mail_blob) [] refl (omega arith)))
            (load_item (item_of mail_blob) [] refl refl))
          (end_worker 0 refl refl refl))
        (shut_out refl refl))
      (end_load refl refl refl)

run_loads_every_blob_example :
    ((t : Blob → Bool) → tally_items t last.stored ≡ tally t small.blobs)
    × All (IsLoaded small) last.stored
    × (small.source_err ≡ none)
run_loads_every_blob_example =
    run_loads_every_blob small example_run (omega arith) (refl, refl, refl, refl) refl

run_ends_example : 8 + left_to_do last ≤ 4 * length small.blobs + small.workers + 4
run_ends_example = run_ends small example_run

run_goes_on_example : IsOver small (start_pipe small) ⊎ CanMove small (start_pipe small)
run_goes_on_example = run_goes_on small start (omega arith) (omega arith)

register_lem_example :
    (((register [] mail_handler).1 ≡ none) ↔ IsOpen [] mail_handler)
    × (IsOpen [] mail_handler
        → lookup (codes "mail") (register [] mail_handler).0 ≡ (
            if str_eq (codes "mail") (codes "mail")
            then some mail_handler
            else lookup (codes "mail") []))
    × ((IsOpen [] mail_handler → ⊥) → (register [] mail_handler).0 ≡ [])
register_lem_example = register_lem [] mail_handler (codes "mail")
