-- ===== src/Corpus/Chunked/Counting.antt =====
-- What `CountCorpus` of internal/brain/corpus_chunk.go counts.
use dph.Base.{
  ℕ, ◌≤◌, ◌≡◌, refl, ap, ◌≢◌, Bool, true, false, none, some, List, [], ◌∷◌, ◌++◌, if◌then◌else◌,
  length, arith, append-nil, length-append,
}
use dph.Base.Text.{Bytes, has}
use dph.Contract.{Leaf}
use dph.Corpus.{
  CorpusSource, Counter, new_counter, add, limit_reached, CountState, count_emit, count_corpus,
}
use dph.Corpus.Chunked.{all_leafs, within, first_of_key, seen_after, NoErrors}
use dph.Corpus.Chunked.Streams.{HasRoom, stream_all_inv}

module _ (key : Leaf → Bytes) where
  seen_after-concat :
      (ls : List Leaf) (seen : List Bytes) (l : Leaf)
      → seen_after key seen (ls ++ l ∷ []) ≡ (
          if has (seen_after key seen ls) (key l)
          then seen_after key seen ls
          else key l ∷ seen_after key seen ls)
  unfolding seen_after
  seen_after-concat [] seen l = refl
  seen_after-concat (x ∷ ls) seen l =
      seen_after-concat ls (if has seen (key x) then seen else key x ∷ seen) l

  pub first_of_key-concat :
      (ls : List Leaf) (seen : List Bytes) (l : Leaf)
      → first_of_key key seen (ls ++ l ∷ [])
        ≡ first_of_key key seen ls ++ (if has (seen_after key seen ls) (key l) then [] else l ∷ [])
  unfolding first_of_key seen_after
  first_of_key-concat [] seen l = refl
  first_of_key-concat (x ∷ ls) seen l =
      ground (arith, first_of_key-concat ls seen l, first_of_key-concat ls (key x ∷ seen) l)

  -- The counter after the leafs.
  abbrev pub counter_after : ℕ → List Leaf → Counter
  counter_after limit ls = record {
    limit = limit;
    seen = seen_after key [] ls;
    streamed = length ls;
    unique = length (first_of_key key [] ls);
  }

  pub counter_start : (limit : ℕ) → new_counter limit ≡ counter_after limit []
  unfolding seen_after first_of_key
  counter_start limit = refl

  -- A leaf for which there is room is counted, and is fresh exactly if its key is new.
  pub add_with_room :
      (limit : ℕ) (ls : List Leaf) (l : Leaf)
      → HasRoom limit ls
      → add key (counter_after limit ls) l ≡ record {
        counter = counter_after limit (ls ++ l ∷ []);
        ok = true;
        fresh = if has (seen_after key [] ls) (key l) then false else true;
      }
  unfolding add
  add_with_room limit ls l room = ground (
    arith,
    seen_after-concat ls [] l,
    first_of_key-concat ls [] l,
    length-append ls (l ∷ []),
    length-append (first_of_key key [] ls) (l ∷ []),
    append-nil (first_of_key key [] ls),
  )

  -- At the limit a leaf is refused, and the counter stays.
  pub add_when_full :
      (limit : ℕ) (ls : List Leaf) (l : Leaf)
      → limit ≢ 0
      → limit ≤ length ls
      → add key (counter_after limit ls) l
        ≡ record { counter = counter_after limit ls; ok = false; fresh = false }
  unfolding add
  add_when_full limit ls l pos full = ground arith

  module _ (limit : ℕ) where
    abbrev Counted : List Leaf → CountState → Type 0
    Counted ls s = s.counter ≡ counter_after limit ls

    count_takes :
        (src : CorpusSource) (ls : List Leaf) (s : CountState) (l : Leaf)
        → HasRoom limit ls
        → Counted ls s
        → ((count_emit key src s l).1 ≡ none) × Counted (ls ++ l ∷ []) (count_emit key src s l).0
    unfolding count_emit
    count_takes src ls s l room e = rw e (rw (add_with_room limit ls l room) (ground arith))

    count_refuses :
        (src : CorpusSource) (ls : List Leaf) (s : CountState) (l : Leaf)
        → limit ≢ 0
        → limit ≤ length ls
        → Counted ls s
        → ((count_emit key src s l).1 ≡ some limit_reached) × Counted ls (count_emit key src s l).0
    unfolding count_emit
    count_refuses src ls s l pos full e =
        rw e (rw (add_when_full limit ls l pos full) (ground arith))

  -- With no error `CountCorpus` counts the leafs within the limit and, of these, the first ones of
  -- their keys.
  pub count_corpus_lem :
      (ctx : ℕ → Bool) (sources : List CorpusSource) (limit : ℕ)
      → ((i : ℕ) → ctx i ≡ false)
      → NoErrors sources
      → ((count_corpus key ctx sources limit).1 ≡ none)
        × ((count_corpus key ctx sources limit).0.streamed
            ≡ length (within limit (all_leafs sources)))
        × ((count_corpus key ctx sources limit).0.total
            ≡ length (first_of_key key [] (within limit (all_leafs sources))))
  unfolding count_corpus
  count_corpus_lem ctx sources limit live ok =
      let r =
        stream_all_inv (count_emit key) limit (Counted limit) (count_takes limit)
          (count_refuses limit) ctx live sources 0 []
          (record { counter = new_counter limit; by_source = [] }) ok (counter_start limit)
          (ground arith) in
      rw r.0 (refl, ap (λ (c : Counter). c.streamed) r.1, ap (λ (c : Counter). c.unique) r.1)
