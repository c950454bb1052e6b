-- ===== src/Runner/Loads.antt =====
-- What the pipeline of internal/runner/pipeline.go has loaded when a run is over.
use dph.Base.{
  ℕ, suc, ◌+◌, ◌<◌, ◌≡◌, refl, ap, ◌∙◌, Bool, true, false, ◌⊎◌, inl, inr, Option, none, some, List,
  [], ◌∷◌, ◌++◌, if◌then◌else◌, length, arith, All, List-cases,
}
use dph.Base.Text.{Bytes}
use dph.Sync.{Blob}
use dph.Runner.{Item, count_ok}
use dph.Runner.Pipeline.{
  Pipe, Config, StageError, first_error, fail, item_of, decode, run_transform, run_load,
  transformed, decoded, taken, fed, source_ended, sent, worker_ended, loaded_with, Move, feed,
  end_source, stop_source, take_item, send, end_worker, stop_worker, stop_holder, shut_out,
  load_item, end_load, stop_load, interrupt, Reaches, start, move, IsOver,
}
use dph.Runner.Steady.{IsSteady, IsLoaded, Reaches-IsSteady, length-middle}

-- How many elements pass a test.
abbrev pub tally : {A : Type 0} → (A → Bool) → List A → ℕ
tally t [] = 0
tally t (x ∷ xs) = let n = tally t xs in if t x then suc n else n

module _ {A : Type 0} (t : A → Bool) where
  tally-append : (xs ys : List A) → tally t (xs ++ ys) ≡ tally t xs + tally t ys
  tally-append [] ys = omega arith
  tally-append (x ∷ xs) ys = ground (arith, tally-append xs ys)

  tally-middle :
      (xs : List A) (x : A) (ys : List A) → tally t (xs ++ x ∷ ys) ≡ tally t (x ∷ (xs ++ ys))
  tally-middle [] x ys = refl
  tally-middle (z ∷ xs) x ys = ground (arith, tally-middle xs x ys)

-- The items whose blob passes a test.
abbrev pub tally_items : (Blob → Bool) → List Item → ℕ
tally_items t its = tally (λ it. t it.blob) its

-- All blobs that are somewhere in the pipeline.
abbrev pub all_blobs : (Blob → Bool) → Pipe → ℕ
all_blobs t p =
    tally_items t p.stored
    + tally_items t p.out_queue
    + tally_items t p.held
    + tally_items t p.in_queue
    + tally t p.todo

first_error-some : (o : Option StageError) (e : StageError) → first_error o e ≡ none → ⊥
first_error-some none e h = cc
first_error-some (some f) e h = cc

module _ (cfg : Config) where
  -- What holds while no stage has failed.
  pub record IsIntact (p : Pipe) : Type 0 where
    pub no_loss : (t : Blob → Bool) → all_blobs t p ≡ tally t cfg.blobs
    pub source_end : p.in_closed ≡ true → (p.todo ≡ []) × (cfg.source_err ≡ none)
    pub worker_end : 0 < p.gone → (p.in_queue ≡ []) × (p.in_closed ≡ true)
    pub load_end : p.load_done ≡ true → (p.out_queue ≡ []) × (p.out_closed ≡ true)

  abbrev IsIntactUnlessFailed : Pipe → Type 0
  IsIntactUnlessFailed p = p.err ≡ none → IsIntact p

  failed-IsIntact : (e : StageError) (p : Pipe) → IsIntactUnlessFailed (fail e p)
  failed-IsIntact e p h = absurd (first_error-some p.err e h)

  fed-IsIntact :
      (b : Blob) (bs : List Blob) (p : Pipe)
      → p.todo ≡ b ∷ bs
      → p.in_closed ≡ false
      → IsIntact p
      → IsIntact (fed cfg b bs p)
  fed-IsIntact b bs p q c s = record {
    no_loss = λ t. ground (
      arith,
      s.no_loss t,
      ap (tally t) q,
      tally-append (λ it. t it.blob) p.in_queue (item_of b ∷ []),
    );
    source_end = λ o. cc;
    worker_end = λ g. absurd (cc (c, (s.worker_end g).1));
    load_end = s.load_end;
  }

  taken-IsIntact :
      (it : Item) (rest : List Item) (idle : ℕ) (p : Pipe)
      → p.in_queue ≡ it ∷ rest
      → IsIntactUnlessFailed p
      → IsIntactUnlessFailed (taken cfg it rest idle p)
  taken-IsIntact it rest idle p q s = by_decode (decode cfg it)
    where
      base : Pipe
      base = record p { in_queue = rest; idle = idle; stats = count_ok it.kind p.stats }

      by_transform : (t : ℕ ⊎ Bytes) → IsIntactUnlessFailed (transformed cfg it t base)
      by_transform (inl e) h = absurd (first_error-some p.err _ h)
      by_transform (inr out) h = record {
        no_loss = λ t. ground (arith, (s h).no_loss t, ap (tally_items t) q);
        source_end = (s h).source_end;
        worker_end = λ g. absurd (cc (q, ((s h).worker_end g).0));
        load_end = (s h).load_end;
      }

      by_decode :
          (d : Option StageError)
          → IsIntactUnlessFailed (decoded cfg it d (record p { in_queue = rest; idle = idle }))
      by_decode (some e) h = absurd (first_error-some p.err _ h)
      by_decode none h = by_transform (run_transform cfg cfg.transform it) h

  sent-IsIntact :
      (before : List Item) (it : Item) (after : List Item) (p : Pipe)
      → p.held ≡ before ++ it ∷ after
      → IsSteady cfg p
      → IsIntact p
      → IsIntact (sent cfg before it after p)
  sent-IsIntact before it after p q y s = record {
    no_loss = λ t. ground (
      arith,
      s.no_loss t,
      ap (tally_items t) q ∙ tally-middle (λ it. t it.blob) before it after,
      tally-append (λ it. t it.blob) p.out_queue (it ∷ []),
    );
    source_end = s.source_end;
    worker_end = s.worker_end;
    load_end = λ d. absurd (
        omega (
          arith,
          y.all_gone (s.load_end d).1,
          y.all_workers,
          ap length q ∙ length-middle before it after,
        ));
  }

  loaded-IsIntact :
      (it : Item) (rest : List Item) (o : Option ℕ) (p : Pipe)
      → p.load_done ≡ false
      → p.out_queue ≡ it ∷ rest
      → IsIntactUnlessFailed p
      → IsIntactUnlessFailed (loaded_with cfg it rest o p)
  loaded-IsIntact it rest (some e) p d q s h = absurd (first_error-some p.err _ h)
  loaded-IsIntact it rest none p d q s h = record {
    no_loss = λ t. ground (arith, (s h).no_loss t, ap (tally_items t) q);
    source_end = (s h).source_end;
    worker_end = (s h).worker_end;
    load_end = λ c. absurd (cc (c, d));
  }

  ended-IsIntact :
      (o : Option ℕ) (p : Pipe)
      → cfg.source_err ≡ o
      → p.todo ≡ []
      → IsIntactUnlessFailed p
      → IsIntactUnlessFailed (source_ended cfg o p)
  ended-IsIntact (some e) p c q s h = absurd (first_error-some p.err _ h)
  ended-IsIntact none p c q s h = record {
    no_loss = (s h).no_loss;
    source_end = λ o. (q, c);
    worker_end = λ g. (((s h).worker_end g).0, refl);
    load_end = (s h).load_end;
  }

  move-IsIntact :
      {p q : Pipe} → Move cfg p q → IsSteady cfg p → IsIntactUnlessFailed p → IsIntactUnlessFailed q
  move-IsIntact {p = p} (feed b bs t c l) y s = λ h. fed-IsIntact b bs p t c (s h)
  move-IsIntact {p = p} (end_source t c) y s = ended-IsIntact cfg.source_err p refl t s
  move-IsIntact {p = p} (stop_source x c) y s = failed-IsIntact _ (record p { in_closed = true })
  move-IsIntact {p = p} (take_item it rest idle q i) y s = taken-IsIntact it rest idle p q s
  move-IsIntact {p = p} (send before it after q l) y s =
      λ h. sent-IsIntact before it after p q y (s h)
  move-IsIntact {p = p} (end_worker idle q c i) y s = λ h. record {
    no_loss = (s h).no_loss;
    source_end = (s h).source_end;
    worker_end = λ g. (q, c);
    load_end = (s h).load_end;
  }
  move-IsIntact {p = p} (stop_worker idle x i) y s = failed-IsIntact _ (worker_ended cfg idle p)
  move-IsIntact {p = p} (stop_holder before it after x q) y s =
      failed-IsIntact _ (record p { held = before ++ after; gone = suc p.gone })
  move-IsIntact {p = p} (shut_out g c) y s = λ h. record {
    no_loss = (s h).no_loss;
    source_end = (s h).source_end;
    worker_end = (s h).worker_end;
    load_end = λ d. (((s h).load_end d).0, refl);
  }
  move-IsIntact {p = p} (load_item it rest d q) y s =
      loaded-IsIntact it rest (run_load cfg cfg.on_load it) p d q s
  move-IsIntact {p = p} (end_load d q c) y s = λ h. record {
    no_loss = (s h).no_loss;
    source_end = (s h).source_end;
    worker_end = (s h).worker_end;
    load_end = λ l. (q, c);
  }
  move-IsIntact {p = p} (stop_load d x) y s = failed-IsIntact _ (record p { load_done = true })

  Reaches-IsIntact : {n : ℕ} {p : Pipe} → Reaches cfg n p → IsIntactUnlessFailed p
  Reaches-IsIntact start = λ h. record {
    no_loss = λ t. omega arith;
    source_end = λ o. cc;
    worker_end = λ g. absurd (omega (arith, g));
    load_end = λ d. cc;
  }
  Reaches-IsIntact (move r m) = move-IsIntact m (Reaches-IsSteady cfg r) (Reaches-IsIntact r)
  Reaches-IsIntact (interrupt r x) = λ h. record {
    no_loss = (Reaches-IsIntact r h).no_loss;
    source_end = (Reaches-IsIntact r h).source_end;
    worker_end = (Reaches-IsIntact r h).worker_end;
    load_end = (Reaches-IsIntact r h).load_end;
  }

  -- With at least one worker, a run that is over without an error has loaded every blob of the source,
  -- each as often as it came, and no other, though in any order: of whatever blobs, as many are loaded as
  -- came; every loaded item was taken by its handler, has the output of the transform, and the load took
  -- it; and the source had no error.
  pub run_loads_every_blob :
      {n : ℕ} {p : Pipe}
      → Reaches cfg n p
      → 0 < cfg.workers
      → IsOver cfg p
      → p.err ≡ none
      → ((t : Blob → Bool) → tally_items t p.stored ≡ tally t cfg.blobs)
        × All (IsLoaded cfg) p.stored
        × (cfg.source_err ≡ none)
  run_loads_every_blob {p = p} r w (c, g, o, d) h = (
    λ t. omega (
      arith,
      s.no_loss t,
      ap (tally_items t) (s.load_end d).0,
      ap (tally_items t) (s.worker_end (omega (arith, w, g))).0,
      ap (tally t) (s.source_end c).0,
      ap (tally_items t) none_held,
    ),
    (Reaches-IsSteady cfg r).loaded_all,
    (s.source_end c).1,
  )
    where
      s : IsIntact p
      s = Reaches-IsIntact r h

      none_held : p.held ≡ []
      none_held = elim (List-cases p.held) [
        | inl e ↦ e
        | inr (x, xs, e) ↦
            absurd (omega (arith, (Reaches-IsSteady cfg r).all_workers, g, ap length e))
      ]
