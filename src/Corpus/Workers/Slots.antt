-- ===== src/Corpus/Workers/Slots.antt =====
-- The results of parallelEmbed in internal/brain/corpus_pool.go.
use dph.Base.{
  ℕ, zero, suc, ◌+◌, ◌≤◌, ◌<◌, ◌≡◌, refl, sym, ap, ◌∙◌, ◌⊎◌, inl, inr, Option, some, List, [], ◌∷◌,
  ◌++◌, length, get_elem?, arith, All, Bool-cases, ◌==◌,
}
use dph.Base.Text.{Bytes}
use dph.Corpus.Workers.{
  Job, EmbedResult, set, pool_size, Pool, no_result, blank_results, result_of, fed_with,
  finished_with, Move, feed, finish, Reaches, start, move,
}

get_elem?-set :
    {A : Type 0} (i : ℕ) (r y : A) (xs : List A)
    → get_elem? xs i ≡ some y
    → get_elem? (set i r xs) i ≡ some r
get_elem?-set i r y [] h = absurd (ground arith)
get_elem?-set zero r y (x ∷ xs) h = refl
get_elem?-set (suc i) r y (x ∷ xs) h = get_elem?-set i r y xs h

get_elem?-set_other :
    {A : Type 0} (i j : ℕ) (r : A) (xs : List A)
    → ((i ≡ j) → ⊥)
    → get_elem? (set j r xs) i ≡ get_elem? xs i
get_elem?-set_other i j r [] n = refl
get_elem?-set_other zero zero r (x ∷ xs) n = absurd (n refl)
get_elem?-set_other (suc i) zero r (x ∷ xs) n = refl
get_elem?-set_other zero (suc j) r (x ∷ xs) n = refl
get_elem?-set_other (suc i) (suc j) r (x ∷ xs) n = get_elem?-set_other i j r xs (λ e. n (ap suc e))

-- Some worker has item `i`.
abbrev Busy : ℕ → List Job → Type 0
Busy i [] = ⊥
Busy i (j ∷ js) = (i ≡ j.i) ⊎ Busy i js

Busy-remove :
    (i : ℕ) (before : List Job) (j : Job) (after : List Job)
    → Busy i (before ++ (j ∷ after))
    → (i ≡ j.i) ⊎ Busy i (before ++ after)
Busy-remove i [] j after b = b
Busy-remove i (x ∷ before) j after (inl e) = inr (inl e)
Busy-remove i (x ∷ before) j after (inr b) = elim (Busy-remove i before j after b) [
  | inl e ↦ inl e
  | inr b ↦ inr (inr b)
]

length-remove :
    (before : List Job) (j : Job) (after : List Job)
    → length (before ++ (j ∷ after)) ≡ suc (length (before ++ after))
length-remove [] j after = refl
length-remove (x ∷ before) j after = ap suc (length-remove before j after)

module _ {κ} (P : Job → Type κ) where
  All-remove :
      (before : List Job) (j : Job) (after : List Job)
      → All P (before ++ (j ∷ after))
      → P j × All P (before ++ after)
  All-remove [] j after h = h
  All-remove (x ∷ before) j after (p, h) = let r = All-remove before j after h in (r.0, (p, r.1))

module _ {V : Type 0} (nil_emb : V) (embed : Bytes → V × Option ℕ) (texts : List Bytes)
    (workers : ℕ) where
  abbrev slot : EmbedResult V
  slot = no_result nil_emb embed texts workers

  abbrev outcome : Job → EmbedResult V
  outcome j = result_of nil_emb embed texts workers j

  abbrev IsJob : ℕ → Job → Type 0
  IsJob fed j = (j.i < fed) × (get_elem? texts j.i ≡ some j.text)

  -- What slot `i` holds while its item waits, is with a worker, or is done.
  abbrev SlotOk : Pool V → ℕ → Bytes → Type 0
  SlotOk p i text =
      ((p.fed ≤ i) × (get_elem? p.results i ≡ some slot))
      ⊎ ((i < p.fed) × Busy i p.busy × (get_elem? p.results i ≡ some slot))
      ⊎ ((i < p.fed) × (get_elem? p.results i ≡ some (outcome (record { i = i; text = text }))))

  abbrev IsConsistent : Pool V → Type 0
  IsConsistent p =
      All (IsJob p.fed) p.busy
      × ((i : ℕ) (text : Bytes) → get_elem? texts i ≡ some text → SlotOk p i text)
      × (p.done + length p.busy ≡ p.fed)

  get_elem?-blank :
      (ts : List Bytes) (i : ℕ) (text : Bytes)
      → get_elem? ts i ≡ some text
      → get_elem? (blank_results nil_emb embed texts workers ts) i ≡ some slot
  get_elem?-blank [] i text h = absurd (ground arith)
  get_elem?-blank (t ∷ ts) zero text h = refl
  get_elem?-blank (t ∷ ts) (suc i) text h = get_elem?-blank ts i text h

  All-IsJob-suc : (fed : ℕ) (js : List Job) → All (IsJob fed) js → All (IsJob (suc fed)) js
  All-IsJob-suc fed [] h = tt
  All-IsJob-suc fed (j ∷ js) h = ((omega arith, h.0.1), All-IsJob-suc fed js h.1)

  feed-IsConsistent :
      (p : Pool V) (text : Bytes)
      → get_elem? texts p.fed ≡ some text
      → IsConsistent p
      → IsConsistent (fed_with nil_emb embed texts workers text p)
  feed-IsConsistent p text e (js, slots, n) = (
    ((omega arith, e), All-IsJob-suc p.fed p.busy js),
    λ i t h. fed_slot i t (slots i t h),
    omega arith,
  )
    where
      fed_slot :
          (i : ℕ) (t : Bytes)
          → SlotOk p i t
          → SlotOk (fed_with nil_emb embed texts workers text p) i t
      fed_slot i t (inl (l, r)) = elim (Bool-cases (i == p.fed)) [
        | inl q ↦ inr (inl (ground arith, inl (ground arith), r))
        | inr f ↦ inl (ground arith, r)
      ]
      fed_slot i t (inr (inl (l, b, r))) = inr (inl (omega arith, inr b, r))
      fed_slot i t (inr (inr (l, r))) = inr (inr (omega arith, r))

  SlotOk-filled :
      (p : Pool V) (i : ℕ) (t : Bytes)
      → SlotOk p i t
      → (y : EmbedResult V) × (get_elem? p.results i ≡ some y)
  SlotOk-filled p i t (inl (l, r)) = (slot, r)
  SlotOk-filled p i t (inr (inl (l, b, r))) = (slot, r)
  SlotOk-filled p i t (inr (inr (l, r))) = (outcome (record { i = i; text = t }), r)

  outcome_at :
      (j : Job) (i : ℕ) (t : Bytes)
      → i ≡ j.i
      → get_elem? texts j.i ≡ some j.text
      → get_elem? texts i ≡ some t
      → outcome j ≡ outcome (record { i = i; text = t })
  outcome_at j i t q e h = cc

  -- A slot that the worker does not write.
  other_slot :
      (p : Pool V) (before : List Job) (j : Job) (after : List Job) (i : ℕ) (t : Bytes)
      → p.busy ≡ before ++ (j ∷ after)
      → ((i ≡ j.i) → ⊥)
      → SlotOk p i t
      → SlotOk (finished_with nil_emb embed texts workers j (before ++ after) p) i t
  other_slot p before j after i t e n (inl (l, r)) =
      inl (l, get_elem?-set_other i j.i (outcome j) p.results n ∙ r)
  other_slot p before j after i t e n (inr (inl (l, b, r))) =
      elim (Busy-remove i before j after (rw (sym e) b)) [
        | inl q ↦ absurd (n q)
        | inr b ↦ inr (inl (l, b, get_elem?-set_other i j.i (outcome j) p.results n ∙ r))
      ]
  other_slot p before j after i t e n (inr (inr (l, r))) =
      inr (inr (l, get_elem?-set_other i j.i (outcome j) p.results n ∙ r))

  finish-SlotOk :
      (p : Pool V) (before : List Job) (j : Job) (after : List Job) (i : ℕ) (t : Bytes)
      → p.busy ≡ before ++ (j ∷ after)
      → IsJob p.fed j
      → get_elem? texts i ≡ some t
      → SlotOk p i t
      → SlotOk (finished_with nil_emb embed texts workers j (before ++ after) p) i t
  finish-SlotOk p before j after i t e js h s = elim (Bool-cases (i == j.i)) [
    | inl q ↦ own_slot (ground arith) (SlotOk-filled p i t s)
    | inr f ↦ other_slot p before j after i t e (λ q. ground arith) s
  ]
    where
      own_slot :
          i ≡ j.i
          → (y : EmbedResult V) × (get_elem? p.results i ≡ some y)
          → SlotOk (finished_with nil_emb embed texts workers j (before ++ after) p) i t
      own_slot q (y, r) = inr (
          inr (
            omega (arith, js.0),
            ap (λ k. get_elem? (set k (outcome j) p.results) i) (sym q)
                ∙ get_elem?-set i (outcome j) y p.results r
                ∙ ap some (outcome_at j i t q js.1 h),
          ))

  finish-IsConsistent :
      (p : Pool V) (before : List Job) (j : Job) (after : List Job)
      → p.busy ≡ before ++ (j ∷ after)
      → IsConsistent p
      → IsConsistent (finished_with nil_emb embed texts workers j (before ++ after) p)
  finish-IsConsistent p before j after e (js, slots, n) =
      let r = All-remove (IsJob p.fed) before j after (rw (sym e) js) in
      (
        r.1,
        λ i t h. finish-SlotOk p before j after i t e r.0 h (slots i t h),
        omega (arith, ap length e, length-remove before j after),
      )

  Reaches-IsConsistent : {p : Pool V} → Reaches nil_emb embed texts workers p → IsConsistent p
  Reaches-IsConsistent start =
      (tt, λ i t h. inl (omega arith, get_elem?-blank texts i t h), omega arith)
  Reaches-IsConsistent (move r (feed p t e l)) = feed-IsConsistent p t e (Reaches-IsConsistent r)
  Reaches-IsConsistent (move r (finish p before j after e)) =
      finish-IsConsistent p before j after e (Reaches-IsConsistent r)

  -- Whatever the order in which the workers end, once none has an item any more, each item that was
  -- handed out has its own result in its slot, each other slot is as at the start, and the count is
  -- the number of items handed out.
  pub parallel_embed_lem :
      (p : Pool V)
      → Reaches nil_emb embed texts workers p
      → p.busy ≡ []
      → (p.done ≡ p.fed)
        × ((i : ℕ) (text : Bytes)
            → get_elem? texts i ≡ some text
            → ((i < p.fed)
                × (get_elem? p.results i ≡ some (outcome (record { i = i; text = text }))))
              ⊎ ((p.fed ≤ i) × (get_elem? p.results i ≡ some slot)))
  parallel_embed_lem p r e =
      let c = Reaches-IsConsistent r in
      (omega (arith, c.2, ap length e), λ i text h. ended i text (c.1 i text h))
    where
      ended :
          (i : ℕ) (text : Bytes)
          → SlotOk p i text
          → ((i < p.fed) × (get_elem? p.results i ≡ some (outcome (record { i = i; text = text }))))
            ⊎ ((p.fed ≤ i) × (get_elem? p.results i ≡ some slot))
      ended i text (inl (l, s)) = inr (l, s)
      ended i text (inr (inl (l, b, s))) = absurd (rw e at b)
      ended i text (inr (inr (l, s))) = inl (l, s)

  pool_size-pos : 1 ≤ pool_size workers
  pool_size-pos = ground arith

  moves_with :
      (p : Pool V) (js : List Job)
      → p.busy ≡ js
      → ((text : Bytes) × (get_elem? texts p.fed ≡ some text)) ⊎ (1 ≤ length js)
      → (q : Pool V) × Move nil_emb embed texts workers p q
  moves_with p [] e (inl (text, h)) = (
    fed_with nil_emb embed texts workers text p,
    feed p text h (omega (arith, ap length e, pool_size-pos)),
  )
  moves_with p [] e (inr h) = absurd (omega arith)
  moves_with p (j ∷ js) e h = (finished_with nil_emb embed texts workers j js p, finish p [] j js e)

  -- As long as an item waits or a worker has one, the pool can go on: it is never stuck.
  pub parallel_embed-Move :
      (p : Pool V)
      → ((text : Bytes) × (get_elem? texts p.fed ≡ some text)) ⊎ (1 ≤ length p.busy)
      → (q : Pool V) × Move nil_emb embed texts workers p q
  parallel_embed-Move p h = moves_with p p.busy refl h
