-- ===== src/Corpus/Chunked/Writing.antt =====
-- What `WriteCorpusChunked` of internal/brain/corpus_chunk.go writes.
use dph.Base.{
  ℕ, ◌+◌, ◌≤◌, ◌<◌, ◌≡◌, refl, sym, ◌∙◌, inl, inr, ◌≢◌, Bool, true, false, Option, none, some, List,
  [], ◌∷◌, ◌++◌, if◌then◌else◌, length, leb, arith, append_assoc, append-nil, Bool-cases,
  length-append,
}
use mathlib.Core.Path.{subst}
use dph.Base.Text.{Bytes, has}
use dph.Contract.{Leaf}
use dph.Corpus.{
  CorpusSource, CorpusStats, new_counter, Stop, limit_reached, Writer, WriteState, flush,
  write_emit, is_nil, chunk_size, write_corpus_chunked, count_corpus,
}
use dph.Corpus.Chunked.{all_leafs, within, first_of_key, seen_after, NoErrors}
use dph.Corpus.Chunked.Streams.{HasRoom, stream_all_inv}
use dph.Corpus.Chunked.Counting.{
  counter_after, counter_start, first_of_key-concat, add_with_room, add_when_full, count_corpus_lem,
}

-- The writer never fails and reports the whole chunk as written.
abbrev pub WritesAll : {W : Type 0} → Writer W → Type 0
WritesAll {W} write =
    (w : W) (c : List Leaf) (base total : ℕ) → (write w c base total).1 ≡ inl (length c)

-- State `w` of the writer is that after it was handed `xs` in chunks of exactly `size`, each with
-- the number of the leafs before it.
pub data Calls {W : Type 0} (write : Writer W) (size total : ℕ) (w0 : W)
    : W → List Leaf → ℕ → Type 0 where
  no_call :
      {w : W} {xs : List Leaf} {n : ℕ} → w ≡ w0 → xs ≡ [] → n ≡ 0 → Calls write size total w0 w xs n
  call :
      {w w' : W} {xs ys : List Leaf} {n m : ℕ} (c : List Leaf)
      → Calls write size total w0 w xs n
      → length c ≡ size
      → w' ≡ (write w c n total).0
      → ys ≡ xs ++ c
      → m ≡ n + length c
      → Calls write size total w0 w' ys m

module _ (key : Leaf → Bytes) {W : Type 0} (write : Writer W) (all : WritesAll write)
    (size limit total : ℕ) (w0 : W) (pos : 0 < size) where
  -- The leafs so far that are first of their keys are those written and those in the buffer.
  pub record Wrote (ls : List Leaf) (s : WriteState W) : Type 0 where
    pub done : List Leaf
    pub counted : s.counter ≡ counter_after key limit ls
    pub calls : Calls write size total w0 s.world done s.written
    pub written : s.written ≡ length done
    pub split : done ++ s.buf ≡ first_of_key key [] ls
    pub short : length s.buf < size

  pub Wrote-nothing :
      Wrote [] (record { counter = new_counter limit; buf = []; written = 0; world = w0 })
  unfolding first_of_key
  Wrote-nothing = record {
    done = [];
    counted = counter_start key limit;
    calls = no_call refl refl refl;
    written = refl;
    split = refl;
    short = pos;
  }

  abbrev wrote_all : WriteState W → WriteState W
  wrote_all s = record s {
    buf = [];
    written = s.written + length s.buf;
    world = (write s.world s.buf s.written total).0;
  }

  -- A flush of a full buffer writes all of it.
  flush_all : (s : WriteState W) → is_nil s.buf ≡ false → flush write total s ≡ (wrote_all s, none)
  unfolding flush
  flush_all s e = rw (e, all s.world s.buf s.written total)

  is_nil-concat : (ls : List Leaf) (l : Leaf) → is_nil (ls ++ l ∷ []) ≡ false
  is_nil-concat [] l = refl
  is_nil-concat (x ∷ ls) l = refl

  abbrev counted_to : WriteState W → List Leaf → WriteState W
  counted_to s ls = record s { counter = counter_after key limit ls }

  -- The state after a fresh leaf, before the flush.
  abbrev pushed : WriteState W → List Leaf → Leaf → WriteState W
  pushed s ls l = record s { counter = counter_after key limit ls; buf = s.buf ++ l ∷ [] }

  emit_old :
      (src : CorpusSource) (ls : List Leaf) (s : WriteState W) (l : Leaf)
      → HasRoom limit ls
      → s.counter ≡ counter_after key limit ls
      → has (seen_after key [] ls) (key l) ≡ true
      → write_emit key write size total src s l ≡ (counted_to s (ls ++ l ∷ []), none)
  unfolding write_emit
  emit_old src ls s l room c h = let e = rw (← c, h) at (add_with_room key limit ls l room) in rw e

  emit_new :
      (src : CorpusSource) (ls : List Leaf) (s : WriteState W) (l : Leaf)
      → HasRoom limit ls
      → s.counter ≡ counter_after key limit ls
      → has (seen_after key [] ls) (key l) ≡ false
      → write_emit key write size total src s l ≡ (
          if leb size (length (s.buf ++ l ∷ []))
          then (wrote_all (pushed s (ls ++ l ∷ []) l), none)
          else (pushed s (ls ++ l ∷ []) l, none))
  unfolding write_emit
  emit_new src ls s l room c h =
      let e = rw (← c, h) at (add_with_room key limit ls l room) in
      rw (e, flush_all (pushed s (ls ++ l ∷ []) l) (is_nil-concat s.buf l))

  Wrote-old :
      (ls : List Leaf) (s : WriteState W) (l : Leaf)
      → Wrote ls s
      → has (seen_after key [] ls) (key l) ≡ true
      → Wrote (ls ++ l ∷ []) (counted_to s (ls ++ l ∷ []))
  Wrote-old ls s l p h = record {
    done = p.done;
    counted = refl;
    calls = p.calls;
    written = p.written;
    split = rw (first_of_key-concat, h, append-nil) p.split;
    short = p.short;
  }

  split_new :
      (ls : List Leaf) (s : WriteState W) (l : Leaf) (p : Wrote ls s)
      → has (seen_after key [] ls) (key l) ≡ false
      → p.done ++ (s.buf ++ l ∷ []) ≡ first_of_key key [] (ls ++ l ∷ [])
  split_new ls s l p h = rw (first_of_key-concat, h, ← append_assoc, p.split)

  Wrote-new :
      (ls : List Leaf) (s : WriteState W) (l : Leaf)
      → Wrote ls s
      → has (seen_after key [] ls) (key l) ≡ false
      → leb size (length (s.buf ++ l ∷ [])) ≡ false
      → Wrote (ls ++ l ∷ []) (pushed s (ls ++ l ∷ []) l)
  Wrote-new ls s l p h short = record {
    done = p.done;
    counted = refl;
    calls = p.calls;
    written = p.written;
    split = split_new ls s l p h;
    short = ground arith;
  }

  Wrote-chunk :
      (ls : List Leaf) (s : WriteState W) (l : Leaf)
      → Wrote ls s
      → has (seen_after key [] ls) (key l) ≡ false
      → leb size (length (s.buf ++ l ∷ [])) ≡ true
      → Wrote (ls ++ l ∷ []) (wrote_all (pushed s (ls ++ l ∷ []) l))
  Wrote-chunk ls s l p h full = record {
    done = p.done ++ (s.buf ++ l ∷ []);
    counted = refl;
    calls =
        call (s.buf ++ l ∷ []) p.calls (ground (arith, p.short, length-append s.buf (l ∷ []))) refl
          refl refl;
    written = omega (arith, p.written, length-append p.done (s.buf ++ l ∷ []));
    split = append-nil _ ∙ split_new ls s l p h;
    short = pos;
  }

  write_takes :
      (src : CorpusSource) (ls : List Leaf) (s : WriteState W) (l : Leaf)
      → HasRoom limit ls
      → Wrote ls s
      → ((write_emit key write size total src s l).1 ≡ none)
        × Wrote (ls ++ l ∷ []) (write_emit key write size total src s l).0
  write_takes src ls s l room p = elim (Bool-cases (has (seen_after key [] ls) (key l))) [
    | inl h ↦ rw (emit_old src ls s l room p.counted h) (refl, Wrote-old ls s l p h)
    | inr h ↦
        rw (emit_new src ls s l room p.counted h)
          (elim (Bool-cases (leb size (length (s.buf ++ l ∷ [])))) [
            | inl f ↦ rw f (refl, Wrote-chunk ls s l p h f)
            | inr f ↦ rw f (refl, Wrote-new ls s l p h f)
          ])
  ]

  write_refuses :
      (src : CorpusSource) (ls : List Leaf) (s : WriteState W) (l : Leaf)
      → limit ≢ 0
      → limit ≤ length ls
      → Wrote ls s
      → ((write_emit key write size total src s l).1 ≡ some limit_reached)
        × Wrote ls (write_emit key write size total src s l).0
  unfolding write_emit
  write_refuses src ls s l nonzero full p =
      let e = rw (← p.counted) at (add_when_full key limit ls l nonzero full) in rw e (refl, p)

is_nil-length : (ls : List Leaf) → is_nil ls ≡ true → length ls ≡ 0
is_nil-length [] h = refl
is_nil-length (l ∷ ls) h = cc

chunk_size_pos : (size : ℕ) → 0 < chunk_size size
chunk_size_pos size = ground arith

-- What `WriteCorpusChunked` did at the end: full chunks, and then a shorter one if leafs were left.
pub record WroteCorpus {W : Type 0} (write : Writer W) (size total : ℕ) (w0 : W) (fresh : List Leaf)
    (r : WriteState W × Option Stop) : Type 0 where
  pub no_error : r.1 ≡ none
  pub written : r.0.written ≡ length fresh
  pub full : List Leaf
  pub last : List Leaf
  pub before : W
  pub chunks : fresh ≡ full ++ last
  pub calls : Calls write size total w0 before full (length full)
  pub short : length last < size
  pub world :
      r.0.world ≡ (if is_nil last then before else (write before last (length full) total).0)

module _ (key : Leaf → Bytes) {W : Type 0} (write : Writer W) (all : WritesAll write) where
  abbrev fresh_leafs : List CorpusSource → ℕ → List Leaf
  fresh_leafs sources limit = first_of_key key [] (within limit (all_leafs sources))

  flush_nil : (total : ℕ) (s : WriteState W) → is_nil s.buf ≡ true → flush write total s ≡ (s, none)
  unfolding flush
  flush_nil total s e = rw e

  module _ (size limit total : ℕ) (w0 : W) (pos : 0 < size) (ls : List Leaf) (s : WriteState W)
      (p : Wrote key write all size limit total w0 pos ls s) where
    finish_at :
        (t : WriteState W)
        → flush write total s ≡ (t, none)
        → t.written ≡ s.written + length s.buf
        → t.world ≡ (if is_nil s.buf then s.world else (write s.world s.buf s.written total).0)
        → WroteCorpus write size total w0 (first_of_key key [] ls) (flush write total s)
    finish_at t e n w = record {
      no_error = rw e;
      written = rw (e, ← p.split) (omega (arith, n, p.written, length-append p.done s.buf));
      full = p.done;
      last = s.buf;
      before = s.world;
      chunks = sym p.split;
      calls = subst (Calls write size total w0 s.world p.done) p.written p.calls;
      short = p.short;
      world =
          subst
            (λ n.
              (flush write total s).0.world
              ≡ (if is_nil s.buf then s.world else (write s.world s.buf n total).0))
            p.written (rw e w);
    }

    finish : WroteCorpus write size total w0 (first_of_key key [] ls) (flush write total s)
    finish = elim (Bool-cases (is_nil s.buf)) [
      | inl e ↦ finish_at s (flush_nil total s e) (ground (arith, is_nil-length s.buf)) (rw e)
      | inr e ↦
          finish_at (wrote_all key write all size limit total w0 pos s)
            (flush_all key write all size limit total w0 pos s e) refl (rw e)
    ]

  -- With no error and a writer that writes all it is given, the leafs within the limit that are
  -- the first of their keys are written, once each and in order: in full chunks, each with the
  -- number of leafs before it, and a shorter last one.
  pub write_corpus_chunked_lem :
      (ctx : ℕ → Bool) (sources : List CorpusSource) (size limit : ℕ) (stats : CorpusStats) (w0 : W)
      → ((i : ℕ) → ctx i ≡ false)
      → NoErrors sources
      → WroteCorpus write
          (chunk_size size)
          stats.total
          w0
          (fresh_leafs sources limit)
          (write_corpus_chunked key ctx sources size limit stats write w0)
  unfolding write_corpus_chunked
  write_corpus_chunked_lem ctx sources size limit stats w0 live ok =
      let n = chunk_size size in
      let pos = chunk_size_pos size in
      let r =
        stream_all_inv (write_emit key write n stats.total) limit
          (Wrote key write all n limit stats.total w0 pos)
          (write_takes key write all n limit stats.total w0 pos)
          (write_refuses key write all n limit stats.total w0 pos) ctx live sources 0 []
          (record { counter = new_counter limit; buf = []; written = 0; world = w0 }) ok
          (Wrote-nothing key write all n limit stats.total w0 pos) (ground arith) in
      rw r.0 (finish n limit stats.total w0 pos (within limit (all_leafs sources)) _ r.1)

  -- The dry run counts what the writing pass writes.
  pub written-eq-total :
      (ctx : ℕ → Bool) (sources : List CorpusSource) (size limit : ℕ) (w0 : W)
      → ((i : ℕ) → ctx i ≡ false)
      → NoErrors sources
      → (write_corpus_chunked key ctx sources size limit
          (count_corpus key ctx sources limit).0
          write
          w0).0.written
        ≡ (count_corpus key ctx sources limit).0.total
  written-eq-total ctx sources size limit w0 live ok =
      (write_corpus_chunked_lem ctx sources size limit _ w0 live ok).written
      ∙ sym (count_corpus_lem key ctx sources limit live ok).2
