-- ===== src/Runner/Pipeline.antt =====
-- The stages of Run in internal/runner/pipeline.go as a step relation: the source, the workers and the
-- load stage, joined by two channels. Where a channel is ready and the context is cancelled, Go takes
-- either, and so do the steps. The source is the blobs that source.Sync hands on, and its error.
use dph.Base.{
  ℕ, suc, ◌≡◌, ◌<◌, Bool, true, false, ◌⊎◌, inl, inr, Option, none, some, List, [], ◌∷◌, ◌++◌,
  if◌then◌else◌, length,
}
use dph.Base.Text.{Bytes, is_empty, codes}
use dph.Base.Dict.{bytes_eq, lookup}
use dph.Sync.{Blob}
use dph.Runner.{Item, Handler, Registry, Stats, count_ok, count_failed}

-- The errors of the stages.
pub data StageError : Type 0 where
  no_handler : Bytes → Bytes → StageError
  decode_failed : Bytes → ℕ → StageError
  transform_failed : Bytes → ℕ → StageError
  load_failed : ℕ → StageError
  source_failed : ℕ → StageError
  was_cancelled : StageError

-- What the stages have, and the first error of the group.
pub record Pipe : Type 0 where
  pub todo : List Blob
  pub in_closed : Bool
  pub in_queue : List Item
  pub idle : ℕ
  pub held : List Item
  pub gone : ℕ
  pub out_queue : List Item
  pub out_closed : Bool
  pub stored : List Item
  pub load_done : Bool
  pub err : Option StageError
  pub is_cancelled : Bool
  pub stats : Stats

abbrev pub first_error : Option StageError → StageError → Option StageError
first_error none e = some e
first_error (some f) e = some f

-- A stage ends with an error: the group keeps the first one and cancels its context.
abbrev pub fail : StageError → Pipe → Pipe
fail e p = record p { err = first_error p.err e; is_cancelled = true }

-- The parts of `Config` that the stages use, and the source.
pub record Config : Type 0 where
  pub registry : Registry
  pub workers : ℕ
  pub buffer : ℕ
  pub transform : Option (Item → ℕ ⊎ Bytes)
  pub on_load : Option (Item → Option ℕ)
  pub blobs : List Blob
  pub source_err : Option ℕ

abbrev pub item_of : Blob → Item
item_of b = record { blob = b; kind = b.kind; out = [] }

module _ (cfg : Config) where
  -- `decode`.
  abbrev pub decode_key : Item → Bytes
  decode_key it = if is_empty it.kind then codes "default" else it.kind

  abbrev pub decode_error : Item → Option ℕ → Option StageError
  decode_error it none = none
  decode_error it (some e) = some (decode_failed it.blob.id e)

  abbrev pub handled_by : Item → Option Handler → Option StageError
  handled_by it none = some (no_handler it.blob.id (decode_key it))
  handled_by it (some h) = decode_error it (h.handle it.blob.path)

  abbrev pub decode : Item → Option StageError
  decode it = handled_by it (lookup (decode_key it) cfg.registry)

  abbrev pub run_transform : Option (Item → ℕ ⊎ Bytes) → Item → ℕ ⊎ Bytes
  run_transform none it = inr it.out
  run_transform (some f) it = f it

  -- The end of a round of `processStage`: the item is to be sent, or the worker is gone.
  abbrev pub transformed : Item → ℕ ⊎ Bytes → Pipe → Pipe
  transformed it (inl e) p =
      fail (transform_failed it.blob.id e)
        (record p { gone = suc p.gone; stats = count_failed it.kind p.stats })
  transformed it (inr out) p = record p { held = record it { out = out } ∷ p.held }

  abbrev pub decoded : Item → Option StageError → Pipe → Pipe
  decoded it (some e) p =
      fail e (record p { gone = suc p.gone; stats = count_failed it.kind p.stats })
  decoded it none p =
      transformed it (run_transform cfg.transform it)
        (record p { stats = count_ok it.kind p.stats })

  -- A worker takes an item and works on it.
  abbrev pub taken : Item → List Item → ℕ → Pipe → Pipe
  taken it rest idle p = decoded it (decode it) (record p { in_queue = rest; idle = idle })

  -- The source puts a blob into the channel.
  abbrev pub fed : Blob → List Blob → Pipe → Pipe
  fed b bs p = record p { todo = bs; in_queue = p.in_queue ++ item_of b ∷ [] }

  -- The source is at its end, and closes the channel.
  abbrev pub source_ended : Option ℕ → Pipe → Pipe
  source_ended none p = record p { in_closed = true }
  source_ended (some e) p = fail (source_failed e) (record p { in_closed = true })

  abbrev pub source_stopped : Pipe → Pipe
  source_stopped p = fail was_cancelled (record p { in_closed = true })

  -- A worker sends its item on.
  abbrev pub sent : List Item → Item → List Item → Pipe → Pipe
  sent before it after p = record p {
    held = before ++ after;
    idle = suc p.idle;
    out_queue = p.out_queue ++ it ∷ [];
  }

  abbrev pub worker_ended : ℕ → Pipe → Pipe
  worker_ended idle p = record p { idle = idle; gone = suc p.gone }

  abbrev pub worker_stopped : ℕ → Pipe → Pipe
  worker_stopped idle p = fail was_cancelled (worker_ended idle p)

  abbrev pub holder_stopped : List Item → List Item → Pipe → Pipe
  holder_stopped before after p =
      fail was_cancelled (record p { held = before ++ after; gone = suc p.gone })

  abbrev pub out_shut : Pipe → Pipe
  out_shut p = record p { out_closed = true }

  abbrev pub run_load : Option (Item → Option ℕ) → Item → Option ℕ
  run_load none it = none
  run_load (some f) it = f it

  -- A round of `loadStage`.
  abbrev pub loaded_with : Item → List Item → Option ℕ → Pipe → Pipe
  loaded_with it rest none p = record p { out_queue = rest; stored = it ∷ p.stored }
  loaded_with it rest (some e) p =
      fail (load_failed e) (record p { out_queue = rest; load_done = true })

  abbrev pub load_ended : Pipe → Pipe
  load_ended p = record p { load_done = true }

  abbrev pub load_stopped : Pipe → Pipe
  load_stopped p = fail was_cancelled (record p { load_done = true })

  abbrev pub interrupted : Pipe → Pipe
  interrupted p = record p { is_cancelled = true }

  -- The steps of the stages.
  pub data Move (p : Pipe) : Pipe → Type 0 where
    feed :
        (b : Blob) (bs : List Blob)
        → p.todo ≡ b ∷ bs
        → p.in_closed ≡ false
        → length p.in_queue < cfg.buffer
        → Move p (fed b bs p)
    end_source : p.todo ≡ [] → p.in_closed ≡ false → Move p (source_ended cfg.source_err p)
    stop_source : p.is_cancelled ≡ true → p.in_closed ≡ false → Move p (source_stopped p)
    take_item :
        (it : Item) (rest : List Item) (idle : ℕ)
        → p.in_queue ≡ it ∷ rest
        → p.idle ≡ suc idle
        → Move p (taken it rest idle p)
    send :
        (before : List Item) (it : Item) (after : List Item)
        → p.held ≡ before ++ it ∷ after
        → length p.out_queue < cfg.buffer
        → Move p (sent before it after p)
    end_worker :
        (idle : ℕ)
        → p.in_queue ≡ []
        → p.in_closed ≡ true
        → p.idle ≡ suc idle
        → Move p (worker_ended idle p)
    stop_worker :
        (idle : ℕ) → p.is_cancelled ≡ true → p.idle ≡ suc idle → Move p (worker_stopped idle p)
    stop_holder :
        (before : List Item) (it : Item) (after : List Item)
        → p.is_cancelled ≡ true
        → p.held ≡ before ++ it ∷ after
        → Move p (holder_stopped before after p)
    shut_out : p.gone ≡ cfg.workers → p.out_closed ≡ false → Move p (out_shut p)
    load_item :
        (it : Item) (rest : List Item)
        → p.load_done ≡ false
        → p.out_queue ≡ it ∷ rest
        → Move p (loaded_with it rest (run_load cfg.on_load it) p)
    end_load : p.load_done ≡ false → p.out_queue ≡ [] → p.out_closed ≡ true → Move p (load_ended p)
    stop_load : p.load_done ≡ false → p.is_cancelled ≡ true → Move p (load_stopped p)

  abbrev pub start_pipe : Pipe
  start_pipe = record {
    todo = cfg.blobs;
    in_closed = false;
    in_queue = [];
    idle = cfg.workers;
    held = [];
    gone = 0;
    out_queue = [];
    out_closed = false;
    stored = [];
    load_done = false;
    err = none;
    is_cancelled = false;
    stats = [];
  }

  -- The states that the pipeline can get to, in so many steps: its stages move, and the caller may
  -- cancel the context from outside.
  pub data Reaches : ℕ → Pipe → Type 0 where
    start : Reaches 0 start_pipe
    move : {n : ℕ} {p q : Pipe} → Reaches n p → Move p q → Reaches (suc n) q
    interrupt :
        {n : ℕ} {p : Pipe} → Reaches n p → p.is_cancelled ≡ false → Reaches (suc n) (interrupted p)

  -- All stages have come to their end, so that `g.Wait` returns.
  abbrev pub IsOver : Pipe → Type 0
  IsOver p =
      (p.in_closed ≡ true) × (p.gone ≡ cfg.workers) × (p.out_closed ≡ true) × (p.load_done ≡ true)
