-- ===== src/Corpus/Workers.antt =====
-- The worker pool of parallelEmbed in internal/brain/corpus_pool.go, as a step relation: the loop
-- hands an item to a free worker, or a worker ends with its item; a cancelled context only ends the
-- loop earlier. The embedding of a text is given, as a value and an error that may be none.
pub mod Slots
use dph.Base.{
  ℕ, zero, suc, ◌+◌, ◌≤◌, ◌<◌, ◌≡◌, Bool, Option, none, some, List, [], ◌∷◌, ◌++◌, length,
  get_elem?, if◌then◌else◌, leb, ◌==◌,
}
use dph.Base.Text.{Bytes}

-- `poolItem`, as it is sent to a worker.
pub record Job : Type 0 where
  pub i : ℕ
  pub text : Bytes

-- `embedResult`.
pub record EmbedResult (V : Type 0) : Type 0 where
  pub i : ℕ
  pub emb : V
  pub err : Option ℕ

-- `results[i] = r`.
abbrev pub set : {A : Type 0} → ℕ → A → List A → List A
set i r [] = []
set zero r (x ∷ xs) = r ∷ xs
set (suc i) r (x ∷ xs) = x ∷ set i r xs

-- The number of workers.
abbrev pub pool_size : ℕ → ℕ
pool_size workers = if leb workers 0 then 1 else workers

-- The items handed out, those that a worker has, the results, and the count for `progress`.
pub record Pool (V : Type 0) : Type 0 where
  pub fed : ℕ
  pub busy : List Job
  pub results : List (EmbedResult V)
  pub done : ℕ

module _ {V : Type 0} (nil_emb : V) (embed : Bytes → V × Option ℕ) (texts : List Bytes)
    (workers : ℕ) where
  abbrev pub no_result : EmbedResult V
  no_result = record { i = 0; emb = nil_emb; err = none }

  -- `make([]embedResult, len(items))`.
  abbrev pub blank_results : List Bytes → List (EmbedResult V)
  blank_results [] = []
  blank_results (t ∷ ts) = no_result ∷ blank_results ts

  abbrev pub start_pool : Pool V
  start_pool = record { fed = 0; busy = []; results = blank_results texts; done = 0 }

  abbrev pub result_of : Job → EmbedResult V
  result_of j = record { i = j.i; emb = (embed j.text).0; err = (embed j.text).1 }

  -- The loop hands out the next item.
  abbrev pub fed_with : Bytes → Pool V → Pool V
  fed_with text p = record p { fed = suc p.fed; busy = record { i = p.fed; text = text } ∷ p.busy }

  -- A worker writes its result in the slot of its item and takes the next one.
  abbrev pub finished_with : Job → List Job → Pool V → Pool V
  finished_with j rest p = record p {
    busy = rest;
    results = set j.i (result_of j) p.results;
    done = suc p.done;
  }

  pub data Move : Pool V → Pool V → Type 0 where
    feed :
        (p : Pool V) (text : Bytes)
        → get_elem? texts p.fed ≡ some text
        → length p.busy < pool_size workers
        → Move p (fed_with text p)
    finish :
        (p : Pool V) (before : List Job) (j : Job) (after : List Job)
        → p.busy ≡ before ++ (j ∷ after)
        → Move p (finished_with j (before ++ after) p)

  pub data Reaches : Pool V → Type 0 where
    start : Reaches start_pool
    move : {p q : Pool V} → Reaches p → Move p q → Reaches q
