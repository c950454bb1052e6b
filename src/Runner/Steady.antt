-- ===== src/Runner/Steady.antt =====
-- What holds of the pipeline of internal/runner/pipeline.go in every state, with errors too.
use dph.Base.{
  ℕ, suc, ◌+◌, ◌≤◌, ◌<◌, ◌≡◌, refl, sym, ap, ◌∙◌, Bool, true, ◌⊎◌, inl, inr, Option, none, some,
  List, [], ◌∷◌, ◌++◌, length, length-append, arith, All, All-append,
}
use dph.Sync.{Blob}
use mathlib.Core.Path.{transport}
use dph.Base.Text.{Bytes}
use dph.Runner.{Item, count_ok, Stats}
use dph.Runner.Pipeline.{
  Pipe, Config, StageError, fail, item_of, decode, run_transform, run_load, transformed, decoded,
  taken, fed, source_ended, sent, holder_stopped, worker_ended, loaded_with, Move, feed, end_source,
  stop_source, take_item, send, end_worker, stop_worker, stop_holder, shut_out, load_item, end_load,
  stop_load, interrupt, Reaches, start, move,
}

pub length-middle :
    {A : Type 0} (xs : List A) (x : A) (ys : List A)
    → length (xs ++ x ∷ ys) ≡ suc (length (xs ++ ys))
length-middle [] x ys = refl
length-middle (z ∷ xs) x ys = ap suc (length-middle xs x ys)

module _ {A : Type 0} (P : A → Type 0) where
  pub All-middle :
      (xs : List A) (x : A) (ys : List A) → All P (xs ++ x ∷ ys) → P x × All P (xs ++ ys)
  All-middle [] x ys h = h
  All-middle (z ∷ xs) x ys (p, h) = let r = All-middle xs x ys h in (r.0, (p, r.1))

module _ (cfg : Config) where
  -- The handler of the item's kind took it, and its output is the transform's.
  pub record IsProcessed (it : Item) : Type 0 where
    pub kind_is : it.kind ≡ it.blob.kind
    pub decodes : decode cfg it ≡ none
    pub transforms : run_transform cfg cfg.transform (item_of it.blob) ≡ inr it.out

  -- The load took it.
  abbrev pub IsLoaded : Item → Type 0
  IsLoaded it = IsProcessed it × (run_load cfg cfg.on_load it ≡ none)

  abbrev pub IsFresh : Item → Type 0
  IsFresh it = it ≡ item_of it.blob

  pub record IsSteady (p : Pipe) : Type 0 where
    pub all_workers : p.idle + length p.held + p.gone ≡ cfg.workers
    pub in_bound : length p.in_queue ≤ cfg.buffer
    pub out_bound : length p.out_queue ≤ cfg.buffer
    pub all_gone : p.out_closed ≡ true → p.gone ≡ cfg.workers
    pub in_fresh : All IsFresh p.in_queue
    pub held_processed : All IsProcessed p.held
    pub out_processed : All IsProcessed p.out_queue
    pub loaded_all : All IsLoaded p.stored

  fed-IsSteady :
      (b : Blob) (bs : List Blob) (p : Pipe)
      → length p.in_queue < cfg.buffer
      → IsSteady p
      → IsSteady (fed cfg b bs p)
  fed-IsSteady b bs p l s = record {
    all_workers = s.all_workers;
    in_bound = omega (arith, length-append p.in_queue (item_of b ∷ []), l);
    out_bound = s.out_bound;
    all_gone = s.all_gone;
    in_fresh = All-append IsFresh p.in_queue (item_of b ∷ []) s.in_fresh (refl, tt);
    held_processed = s.held_processed;
    out_processed = s.out_processed;
    loaded_all = s.loaded_all;
  }

  -- The queue without its first item.
  queue-first :
      (P : Item → Type 0) (p : Pipe) (it : Item) (rest : List Item)
      → p.in_queue ≡ it ∷ rest
      → All P p.in_queue
      → P it × All P rest
  queue-first P p it rest q h = transport (ap (All P) q) h

  taken-IsSteady :
      (it : Item) (rest : List Item) (idle : ℕ) (p : Pipe)
      → p.in_queue ≡ it ∷ rest
      → p.idle ≡ suc idle
      → IsSteady p
      → IsSteady (taken cfg it rest idle p)
  taken-IsSteady it rest idle p q i s = by_decode (decode cfg it) refl
    where
      fresh : (it ≡ item_of it.blob) × All IsFresh rest
      fresh = queue-first IsFresh p it rest q s.in_fresh

      bound : length rest ≤ cfg.buffer
      bound = omega (arith, s.in_bound, ap length q)

      -- The worker is gone with its item.
      lost :
          (e : StageError) (counts : Stats)
          → IsSteady (
              fail e (record p { in_queue = rest; idle = idle; gone = suc p.gone; stats = counts }))
      lost e counts = record {
        all_workers = omega (arith, s.all_workers, i);
        in_bound = bound;
        out_bound = s.out_bound;
        all_gone = λ o. absurd (omega (arith, s.all_gone o, s.all_workers, i));
        in_fresh = fresh.1;
        held_processed = s.held_processed;
        out_processed = s.out_processed;
        loaded_all = s.loaded_all;
      }

      by_transform :
          decode cfg it ≡ none
          → (t : ℕ ⊎ Bytes) → run_transform cfg cfg.transform it ≡ t
          → IsSteady (
              transformed cfg it t
                (record p { in_queue = rest; idle = idle; stats = count_ok it.kind p.stats }))
      by_transform d (inl e) t = lost _ _
      by_transform d (inr out) t = record {
        all_workers = omega (arith, s.all_workers, i);
        in_bound = bound;
        out_bound = s.out_bound;
        all_gone = s.all_gone;
        in_fresh = fresh.1;
        held_processed = (
          record {
            kind_is = ap (λ x. x.kind) fresh.0;
            decodes = d;
            transforms = ap (run_transform cfg cfg.transform) (sym fresh.0) ∙ t;
          },
          s.held_processed,
        );
        out_processed = s.out_processed;
        loaded_all = s.loaded_all;
      }

      by_decode :
          (d : Option StageError)
          → decode cfg it ≡ d
          → IsSteady (decoded cfg it d (record p { in_queue = rest; idle = idle }))
      by_decode (some e) d = lost _ _
      by_decode none d = by_transform d (run_transform cfg cfg.transform it) refl

  sent-IsSteady :
      (before : List Item) (it : Item) (after : List Item) (p : Pipe)
      → p.held ≡ before ++ it ∷ after
      → length p.out_queue < cfg.buffer
      → IsSteady p
      → IsSteady (sent cfg before it after p)
  sent-IsSteady before it after p q l s = record {
    all_workers = omega (arith, s.all_workers, ap length q ∙ length-middle before it after);
    in_bound = s.in_bound;
    out_bound = omega (arith, length-append p.out_queue (it ∷ []), l);
    all_gone = λ o.
        absurd
          (omega (arith, s.all_gone o, s.all_workers, ap length q ∙ length-middle before it after));
    in_fresh = s.in_fresh;
    held_processed = split.1;
    out_processed = All-append IsProcessed p.out_queue (it ∷ []) s.out_processed (split.0, tt);
    loaded_all = s.loaded_all;
  }
    where
      split : IsProcessed it × All IsProcessed (before ++ after)
      split =
          All-middle IsProcessed before it after
            (transport (ap (All IsProcessed) q) s.held_processed)

  holder_stopped-IsSteady :
      (before : List Item) (it : Item) (after : List Item) (p : Pipe)
      → p.held ≡ before ++ it ∷ after
      → IsSteady p
      → IsSteady (holder_stopped cfg before after p)
  holder_stopped-IsSteady before it after p q s = record {
    all_workers = omega (arith, s.all_workers, ap length q ∙ length-middle before it after);
    in_bound = s.in_bound;
    out_bound = s.out_bound;
    all_gone = λ o.
        absurd
          (omega (arith, s.all_gone o, s.all_workers, ap length q ∙ length-middle before it after));
    in_fresh = s.in_fresh;
    held_processed =
        (All-middle IsProcessed before it after
          (transport (ap (All IsProcessed) q) s.held_processed)).1;
    out_processed = s.out_processed;
    loaded_all = s.loaded_all;
  }

  -- An idle worker that goes.
  worker_ended-IsSteady :
      (idle : ℕ) (p : Pipe) → p.idle ≡ suc idle → IsSteady p → IsSteady (worker_ended cfg idle p)
  worker_ended-IsSteady idle p i s = record {
    all_workers = omega (arith, s.all_workers, i);
    in_bound = s.in_bound;
    out_bound = s.out_bound;
    all_gone = λ o. absurd (omega (arith, s.all_gone o, s.all_workers, i));
    in_fresh = s.in_fresh;
    held_processed = s.held_processed;
    out_processed = s.out_processed;
    loaded_all = s.loaded_all;
  }

  loaded-IsSteady :
      (it : Item) (rest : List Item) (p : Pipe)
      → p.out_queue ≡ it ∷ rest
      → IsSteady p
      → IsSteady (loaded_with cfg it rest (run_load cfg cfg.on_load it) p)
  loaded-IsSteady it rest p q s = by_load (run_load cfg cfg.on_load it) refl
    where
      split : IsProcessed it × All IsProcessed rest
      split = transport (ap (All IsProcessed) q) s.out_processed

      out_rest : length rest ≤ cfg.buffer
      out_rest = omega (arith, s.out_bound, ap length q)

      by_load :
          (o : Option ℕ) → run_load cfg cfg.on_load it ≡ o → IsSteady (loaded_with cfg it rest o p)
      by_load none l = record {
        all_workers = s.all_workers;
        in_bound = s.in_bound;
        out_bound = out_rest;
        all_gone = s.all_gone;
        in_fresh = s.in_fresh;
        held_processed = s.held_processed;
        out_processed = split.1;
        loaded_all = ((split.0, l), s.loaded_all);
      }
      by_load (some e) l = record {
        all_workers = s.all_workers;
        in_bound = s.in_bound;
        out_bound = out_rest;
        all_gone = s.all_gone;
        in_fresh = s.in_fresh;
        held_processed = s.held_processed;
        out_processed = split.1;
        loaded_all = s.loaded_all;
      }

  -- A change of the flags that the rest of the state does not see.
  flags-IsSteady :
      (in_closed out_closed load_done is_cancelled : Bool) (err : Option StageError) (p : Pipe)
      → (out_closed ≡ true → p.gone ≡ cfg.workers)
      → IsSteady p
      → IsSteady (record p {
        in_closed = in_closed;
        out_closed = out_closed;
        load_done = load_done;
        is_cancelled = is_cancelled;
        err = err;
      })
  flags-IsSteady c o l x e p g s = record {
    all_workers = s.all_workers;
    in_bound = s.in_bound;
    out_bound = s.out_bound;
    all_gone = g;
    in_fresh = s.in_fresh;
    held_processed = s.held_processed;
    out_processed = s.out_processed;
    loaded_all = s.loaded_all;
  }

  ended-IsSteady : (o : Option ℕ) (p : Pipe) → IsSteady p → IsSteady (source_ended cfg o p)
  ended-IsSteady none p s = flags-IsSteady _ _ _ _ _ p s.all_gone s
  ended-IsSteady (some e) p s = flags-IsSteady _ _ _ _ _ p s.all_gone s

  move-IsSteady : {p q : Pipe} → Move cfg p q → IsSteady p → IsSteady q
  move-IsSteady {p = p} (feed b bs t c l) s = fed-IsSteady b bs p l s
  move-IsSteady {p = p} (end_source t c) s = ended-IsSteady cfg.source_err p s
  move-IsSteady {p = p} (stop_source x c) s = flags-IsSteady _ _ _ _ _ p s.all_gone s
  move-IsSteady {p = p} (take_item it rest idle q i) s = taken-IsSteady it rest idle p q i s
  move-IsSteady {p = p} (send before it after q l) s = sent-IsSteady before it after p q l s
  move-IsSteady {p = p} (end_worker idle q c i) s = worker_ended-IsSteady idle p i s
  move-IsSteady {p = p} (stop_worker idle x i) s =
      flags-IsSteady _ _ _ _ _ _ (worker_ended-IsSteady idle p i s).all_gone
        (worker_ended-IsSteady idle p i s)
  move-IsSteady {p = p} (stop_holder before it after x q) s =
      holder_stopped-IsSteady before it after p q s
  move-IsSteady {p = p} (shut_out g c) s = flags-IsSteady _ _ _ _ _ p (λ o. g) s
  move-IsSteady {p = p} (load_item it rest d q) s = loaded-IsSteady it rest p q s
  move-IsSteady {p = p} (end_load d q c) s = flags-IsSteady _ _ _ _ _ p s.all_gone s
  move-IsSteady {p = p} (stop_load d x) s = flags-IsSteady _ _ _ _ _ p s.all_gone s

  -- Every state that the pipeline gets to is steady.
  pub Reaches-IsSteady : {n : ℕ} {p : Pipe} → Reaches cfg n p → IsSteady p
  Reaches-IsSteady start = record {
    all_workers = omega arith;
    in_bound = omega arith;
    out_bound = omega arith;
    all_gone = λ o. cc;
    in_fresh = tt;
    held_processed = tt;
    out_processed = tt;
    loaded_all = tt;
  }
  Reaches-IsSteady (move r m) = move-IsSteady m (Reaches-IsSteady r)
  Reaches-IsSteady (interrupt {p = p} r x) =
      flags-IsSteady _ _ _ _ _ p (Reaches-IsSteady r).all_gone (Reaches-IsSteady r)
