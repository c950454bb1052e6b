-- ===== src/Corpus.antt =====
-- Streaming and chunked writing of the corpus: internal/brain/corpus_chunk.go. The key of a leaf is
-- its `ContentHash`, given here as `key`.
pub mod Chunked
pub mod Pool
pub mod Workers
use dph.Base.{
  ℕ, suc, ◌+◌, ◌≤◌, ◌<◌, ◌≡◌, ◌⊎◌, inl, inr, Bool, true, false, not, ◌&&◌, ◌||◌, Option, none, some,
  List, [], ◌∷◌, ◌++◌, if◌then◌else◌, leb, ltb, length, ◌==◌,
}
use dph.Base.Text.{Bytes, has}
use dph.Base.Dict.{bytes_eq, upsert}
use dph.Contract.{Leaf}

-- `leafCounter`; a limit of 0 is none.
pub record Counter : Type 0 where
  pub limit : ℕ
  pub seen : List Bytes
  pub streamed : ℕ
  pub unique : ℕ

-- `newLeafCounter`.
abbrev pub new_counter : ℕ → Counter
new_counter limit = record { limit = limit; seen = []; streamed = 0; unique = 0 }

abbrev pub is_nil : List Leaf → Bool
is_nil [] = true
is_nil (l ∷ ls) = false

-- What ends a stream: the limit, or an error of the source, of the writer or of the context.
pub data Stop : Type 0 where
  limit_reached : Stop
  cancelled : Stop
  source_failed : ℕ → Stop
  write_failed : ℕ → Stop

-- A source as the stream that it emits: its name, its leafs, and the error it ends with, if any.
pub record CorpusSource : Type 0 where
  pub name : Bytes
  pub leafs : List Leaf
  pub ends : Option ℕ

-- `CorpusStats`.
pub record CorpusStats : Type 0 where
  pub streamed : ℕ
  pub total : ℕ
  pub by_source : List (Bytes × ℕ)

-- What `add` answers.
pub record Added : Type 0 where
  pub counter : Counter
  pub ok : Bool
  pub fresh : Bool

abbrev source_error : Option ℕ → Option Stop
source_error none = none
source_error (some e) = some (source_failed e)

-- After a call of `emit`: on, or out with its error.
abbrev pub go_on : {S : Type 0} → Option Stop → S → S × Option Stop → S × Option Stop
go_on none s rest = rest
go_on (some e) s rest = (s, some e)

-- After the stream of a source: on, or out; the limit is no error.
abbrev pub next_source : {S : Type 0} → Option Stop → S → S × Option Stop → S × Option Stop
next_source none s next = next
next_source (some limit_reached) s next = (s, none)
next_source (some cancelled) s next = (s, some cancelled)
next_source (some (source_failed e)) s next = (s, some (source_failed e))
next_source (some (write_failed e)) s next = (s, some (write_failed e))

-- `Source.Stream`: `emit` is called for each leaf, and its first error ends the stream.
module _ {S : Type 0} (emit : S → Leaf → S × Option Stop) where
  unfoldable pub stream : S → List Leaf → Option ℕ → S × Option Stop
  stream s [] ends = (s, source_error ends)
  stream s (l ∷ ls) ends =
      let rest = stream (emit s l).0 ls ends in go_on (emit s l).1 (emit s l).0 rest

-- The loop over the sources, the same in `CountCorpus` and `WriteCorpusChunked`. `ctx i` tells
-- whether the context is cancelled when source `i` is reached; the limit ends the loop in order.
module _ {S : Type 0} (emit : CorpusSource → S → Leaf → S × Option Stop) (ctx : ℕ → Bool) where
  unfoldable pub stream_all : ℕ → S → List CorpusSource → S × Option Stop
  stream_all i s [] = (s, none)
  stream_all i s (src ∷ rest) =
      let r = stream (emit src) s src.leafs src.ends in
      let next = stream_all (suc i) r.0 rest in
      if ctx i then (s, some cancelled) else next_source r.1 r.0 next

pub record CountState : Type 0 where
  pub counter : Counter
  pub by_source : List (Bytes × ℕ)

-- The writer: it takes a chunk, the leafs written before and the total, and returns how many it
-- wrote, or its error.
abbrev pub Writer : Type 0 → Type 0
Writer W = W → List Leaf → ℕ → ℕ → W × (ℕ ⊎ ℕ)

pub record WriteState (W : Type 0) : Type 0 where
  pub counter : Counter
  pub buf : List Leaf
  pub written : ℕ
  pub world : W

module _ {W : Type 0} (write : Writer W) (total : ℕ) where
  abbrev pub flushed : WriteState W → W → ℕ ⊎ ℕ → WriteState W × Option Stop
  flushed s w (inl n) = (record s { buf = []; written = s.written + n; world = w }, none)
  flushed s w (inr e) = (record s { world = w }, some (write_failed e))

  -- `flush`.
  unfoldable pub flush : WriteState W → WriteState W × Option Stop
  flush s =
      if is_nil s.buf
      then (s, none)
      else flushed s (write s.world s.buf s.written total).0 (write s.world s.buf s.written total).1

  -- The last flush, if the streams ended in order.
  abbrev pub finish_write : WriteState W → Option Stop → WriteState W × Option Stop
  finish_write s none = flush s
  finish_write s (some e) = (s, some e)

abbrev pub chunk_size : ℕ → ℕ
chunk_size size = if size == 0 then 2048 else size

module _ (key : Leaf → Bytes) where
  -- `leafCounter.add`.
  unfoldable pub add : Counter → Leaf → Added
  add c l =
      if ltb 0 c.limit && leb c.limit c.streamed
      then record { counter = c; ok = false; fresh = false }
      else if has c.seen (key l)
      then record { counter = record c { streamed = suc c.streamed }; ok = true; fresh = false }
      else record {
        counter = record c {
          seen = key l ∷ c.seen;
          streamed = suc c.streamed;
          unique = suc c.unique;
        };
        ok = true;
        fresh = true;
      }

  abbrev bump : Option ℕ → ℕ
  bump none = 1
  bump (some n) = suc n

  -- The callback of `CountCorpus`.
  unfoldable pub count_emit : CorpusSource → CountState → Leaf → CountState × Option Stop
  count_emit src s l =
      let a = add s.counter l in
      if not a.ok
      then (record s { counter = a.counter }, some limit_reached)
      else if a.fresh
      then (record { counter = a.counter; by_source = upsert src.name bump s.by_source }, none)
      else (record s { counter = a.counter }, none)

  abbrev pub finish_count : CountState → Option Stop → CorpusStats × Option Stop
  finish_count s none = (
    record { streamed = s.counter.streamed; total = s.counter.unique; by_source = s.by_source },
    none,
  )
  finish_count s (some e) = (record { streamed = 0; total = 0; by_source = s.by_source }, some e)

  -- `CountCorpus`. On an error the two sums of the statistics stay 0.
  unfoldable pub count_corpus : (ℕ → Bool) → List CorpusSource → ℕ → CorpusStats × Option Stop
  count_corpus ctx sources limit =
      let r =
        stream_all count_emit ctx 0 (record { counter = new_counter limit; by_source = [] })
          sources in
      finish_count r.0 r.1

  module _ {W : Type 0} (write : Writer W) (size : ℕ) (total : ℕ) where
    -- `emit` of `WriteCorpusChunked`.
    unfoldable pub write_emit : CorpusSource → WriteState W → Leaf → WriteState W × Option Stop
    write_emit src s l =
        let a = add s.counter l in
        let t = record s { counter = a.counter } in
        let u = record t { buf = s.buf ++ l ∷ [] } in
        if not a.ok
        then (t, some limit_reached)
        else if not a.fresh
        then (t, none)
        else if leb size (length u.buf)
        then flush write total u
        else (u, none)

  -- `WriteCorpusChunked`, from the state `w` of the writer.
  unfoldable pub write_corpus_chunked :
      {W : Type 0}
      → (ℕ → Bool)
      → List CorpusSource
      → ℕ
      → ℕ
      → CorpusStats
      → Writer W
      → W
      → WriteState W × Option Stop
  write_corpus_chunked {W} ctx sources size limit stats write w =
      let start : WriteState W = record {
        counter = new_counter limit;
        buf = [];
        written = 0;
        world = w;
      } in
      let r = stream_all (write_emit write (chunk_size size) stats.total) ctx 0 start sources in
      finish_write write stats.total r.0 r.1
