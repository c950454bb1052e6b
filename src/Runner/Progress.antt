-- ===== src/Runner/Progress.antt =====
-- The next steps of a run of internal/runner/pipeline.go.
use dph.Base.{
  ℕ, zero, suc, ◌<◌, ◌≡◌, refl, ap, true, false, ◌⊎◌, inl, inr, Option, none, some, List, [],
  length, arith, Bool-cases, List-cases,
}
use dph.Base.Text.{Bytes}
use dph.Runner.{Item, count_ok}
use dph.Runner.Pipeline.{
  Pipe, Config, StageError, fail, decode, run_transform, run_load, transformed, decoded, taken,
  source_ended, loaded_with, Move, feed, end_source, stop_source, take_item, send, end_worker,
  stop_worker, stop_holder, shut_out, load_item, end_load, stop_load, interrupt, Reaches, start,
  move, IsOver,
}
use dph.Runner.Steady.{IsSteady, Reaches-IsSteady}

module _ (cfg : Config) where
  -- Who waits for a stage that is gone is told so by the context.
  record IsTold (p : Pipe) : Type 0 where
    load_told : p.load_done ≡ true → (p.out_closed ≡ true) ⊎ (p.is_cancelled ≡ true)
    worker_told : 0 < p.gone → (p.in_closed ≡ true) ⊎ (p.is_cancelled ≡ true)

  failed-IsTold : (e : StageError) (p : Pipe) → IsTold (fail e p)
  failed-IsTold e p = record { load_told = λ d. inr refl; worker_told = λ g. inr refl }

  taken-IsTold :
      (it : Item) (rest : List Item) (idle : ℕ) (p : Pipe)
      → IsTold p
      → IsTold (taken cfg it rest idle p)
  taken-IsTold it rest idle p s = by_decode (decode cfg it)
    where
      by_transform :
          (t : ℕ ⊎ Bytes)
          → IsTold (
              transformed cfg it t
                (record p { in_queue = rest; idle = idle; stats = count_ok it.kind p.stats }))
      by_transform (inl e) = record { load_told = λ d. inr refl; worker_told = λ g. inr refl }
      by_transform (inr out) = record { load_told = s.load_told; worker_told = s.worker_told }

      by_decode :
          (d : Option StageError)
          → IsTold (decoded cfg it d (record p { in_queue = rest; idle = idle }))
      by_decode (some e) = record { load_told = λ d. inr refl; worker_told = λ g. inr refl }
      by_decode none = by_transform (run_transform cfg cfg.transform it)

  ended-IsTold : (o : Option ℕ) (p : Pipe) → IsTold p → IsTold (source_ended cfg o p)
  ended-IsTold none p s = record { load_told = s.load_told; worker_told = λ g. inl refl }
  ended-IsTold (some e) p s = record { load_told = λ d. inr refl; worker_told = λ g. inr refl }

  loaded-IsTold :
      (it : Item) (rest : List Item) (o : Option ℕ) (p : Pipe)
      → IsTold p
      → IsTold (loaded_with cfg it rest o p)
  loaded-IsTold it rest none p s = record { load_told = s.load_told; worker_told = s.worker_told }
  loaded-IsTold it rest (some e) p s = record {
    load_told = λ d. inr refl;
    worker_told = λ g. inr refl;
  }

  move-IsTold : {p q : Pipe} → Move cfg p q → IsTold p → IsTold q
  move-IsTold {p = p} (feed b bs t c l) s = record {
    load_told = s.load_told;
    worker_told = s.worker_told;
  }
  move-IsTold {p = p} (end_source t c) s = ended-IsTold cfg.source_err p s
  move-IsTold {p = p} (stop_source x c) s = record {
    load_told = λ d. inr refl;
    worker_told = λ g. inr refl;
  }
  move-IsTold {p = p} (take_item it rest idle q i) s = taken-IsTold it rest idle p s
  move-IsTold {p = p} (send before it after q l) s = record {
    load_told = s.load_told;
    worker_told = s.worker_told;
  }
  move-IsTold {p = p} (end_worker idle q c i) s = record {
    load_told = s.load_told;
    worker_told = λ g. inl c;
  }
  move-IsTold {p = p} (stop_worker idle x i) s = record {
    load_told = λ d. inr refl;
    worker_told = λ g. inr refl;
  }
  move-IsTold {p = p} (stop_holder before it after x q) s = record {
    load_told = λ d. inr refl;
    worker_told = λ g. inr refl;
  }
  move-IsTold {p = p} (shut_out g c) s = record {
    load_told = λ d. inl refl;
    worker_told = s.worker_told;
  }
  move-IsTold {p = p} (load_item it rest d q) s =
      loaded-IsTold it rest (run_load cfg cfg.on_load it) p s
  move-IsTold {p = p} (end_load d q c) s = record {
    load_told = λ d. inl c;
    worker_told = s.worker_told;
  }
  move-IsTold {p = p} (stop_load d x) s = record {
    load_told = λ d. inr refl;
    worker_told = λ g. inr refl;
  }

  Reaches-IsTold : {n : ℕ} {p : Pipe} → Reaches cfg n p → IsTold p
  Reaches-IsTold start = record {
    load_told = λ d. cc;
    worker_told = λ g. absurd (omega (arith, g));
  }
  Reaches-IsTold (move r m) = move-IsTold m (Reaches-IsTold r)
  Reaches-IsTold (interrupt r x) = record { load_told = λ d. inr refl; worker_told = λ g. inr refl }

  -- A stage has a next step.
  abbrev pub CanMove : Pipe → Type 0
  CanMove p = (q : Pipe) × Move cfg p q

  idle-cases : (n : ℕ) → (n ≡ 0) ⊎ ((m : ℕ) × (n ≡ suc m))
  idle-cases zero = inl refl
  idle-cases (suc m) = inr (m, refl)

  -- After all workers are gone, the channel to the load stage is closed.
  shut : (p : Pipe) → p.gone ≡ cfg.workers → (p.out_closed ≡ true) ⊎ CanMove p
  shut p g = elim (Bool-cases p.out_closed) [ inl o ↦ inl o | inr o ↦ inr (_, shut_out g o) ]

  -- A cancelled context ends the stages one after the other.
  cancelled_moves : (p : Pipe) → IsSteady cfg p → p.is_cancelled ≡ true → IsOver cfg p ⊎ CanMove p
  cancelled_moves p y x = elim (Bool-cases p.in_closed) [
    | inr c ↦ inr (_, stop_source x c)
    | inl c ↦ elim (Bool-cases p.load_done) [
      | inr d ↦ inr (_, stop_load d x)
      | inl d ↦ elim (idle-cases p.idle) [
        | inr (m, i) ↦ inr (_, stop_worker m x i)
        | inl i ↦ elim (List-cases p.held) [
          | inr (it, rest, q) ↦ inr (_, stop_holder [] it rest x q)
          | inl q ↦ closed c d (shut p (omega (arith, y.all_workers, i, ap length q)))
        ]
      ]
    ]
  ]
    where
      closed :
          p.in_closed ≡ true
          → p.load_done ≡ true
          → (p.out_closed ≡ true) ⊎ CanMove p
          → IsOver cfg p ⊎ CanMove p
      closed c d (inl o) = inl (c, y.all_gone o, o, d)
      closed c d (inr m) = inr m

  -- Without a word from the context, an open channel has somebody at work on it.
  working :
      (p : Pipe)
      → IsSteady cfg p
      → 0 < cfg.buffer
      → p.out_queue ≡ []
      → p.out_closed ≡ false
      → CanMove p
  working p y b e o = elim (List-cases p.held) [
    | inr (it, rest, q) ↦ (_, send [] it rest q (omega (arith, ap length e, b)))
    | inl q ↦ elim (idle-cases p.idle) [
      | inl i ↦ (_, shut_out (omega (arith, y.all_workers, i, ap length q)) o)
      | inr (m, i) ↦ elim (List-cases p.in_queue) [
        | inr (it, rest, z) ↦ (_, take_item it rest m z i)
        | inl z ↦ elim (Bool-cases p.in_closed) [
          | inl c ↦ (_, end_worker m z c i)
          | inr c ↦ elim (List-cases p.todo) [
            | inl t ↦ (_, end_source t c)
            | inr (x, xs, t) ↦ (_, feed x xs t c (omega (arith, ap length z, b)))
          ]
        ]
      ]
    ]
  ]

  -- With at least one worker and one place in a channel, some stage of a run that is not over has a next
  -- step, without any help of the caller, also after errors and after the context was cancelled.
  pub run_goes_on :
      {n : ℕ} {p : Pipe}
      → Reaches cfg n p
      → 0 < cfg.workers
      → 0 < cfg.buffer
      → IsOver cfg p ⊎ CanMove p
  run_goes_on {p = p} r w b = elim (Bool-cases p.is_cancelled) [
    | inl x ↦ cancelled_moves p y x
    | inr x ↦ elim (Bool-cases p.load_done) [
      | inl d ↦ over x d (s.load_told d)
      | inr d ↦ elim (List-cases p.out_queue) [
        | inr (it, rest, q) ↦ inr (_, load_item it rest d q)
        | inl e ↦ elim (Bool-cases p.out_closed) [
          | inl o ↦ inr (_, end_load d e o)
          | inr o ↦ inr (working p y b e o)
        ]
      ]
    ]
  ]
    where
      y : IsSteady cfg p
      y = Reaches-IsSteady cfg r

      s : IsTold p
      s = Reaches-IsTold r

      over :
          p.is_cancelled ≡ false
          → p.load_done ≡ true
          → (p.out_closed ≡ true) ⊎ (p.is_cancelled ≡ true)
          → IsOver cfg p ⊎ CanMove p
      over x d (inr t) = absurd (cc (x, t))
      over x d (inl o) = elim (s.worker_told (omega (arith, y.all_gone o, w))) [
        | inl c ↦ inl (c, y.all_gone o, o, d)
        | inr t ↦ absurd (cc (x, t))
      ]
