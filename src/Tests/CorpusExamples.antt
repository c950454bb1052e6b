-- ===== src/Tests/CorpusExamples.antt =====
-- Examples on the corpus.
use dph.Base.{
  ℕ, ◌≡◌, ◌+◌, refl, inl, inr, Bool, true, false, Option, none, some, List, [], ◌∷◌, length, All,
  ◌⊎◌,
}
use dph.Base.Text.{Bytes, codes}
use dph.Contract.{Leaf}
use dph.Corpus.{CorpusSource, CorpusStats, Writer, count_corpus, write_corpus_chunked, chunk_size}
use dph.Corpus.Chunked.{all_leafs, within, first_of_key}
use dph.Corpus.Chunked.Writing.{WritesAll, WroteCorpus, write_corpus_chunked_lem, written-eq-total}

abbrev leaf_of : Bytes → Leaf
leaf_of text = record {
  source = codes "mail";
  external_id = text;
  kind = codes "message";
  text = text;
  root = codes "info";
  confidence = codes "inferred";
  source_rev = [];
  how = [];
  loc = [];
  valid_from = [];
  valid_to = [];
  observed_at = [];
}

-- The text as the key, in place of the hash.
abbrev text_key : Leaf → Bytes
text_key l = l.text

abbrev mails : CorpusSource
mails = record {
  name = codes "mail";
  leafs = leaf_of (codes "x") ∷ leaf_of (codes "y") ∷ leaf_of (codes "x") ∷ [];
  ends = none;
}

abbrev notes : CorpusSource
notes = record {
  name = codes "docs";
  leafs = leaf_of (codes "z") ∷ leaf_of (codes "y") ∷ [];
  ends = none;
}

abbrev corpus : List CorpusSource
corpus = mails ∷ notes ∷ []

abbrev never : ℕ → Bool
never i = false

-- A store that keeps what it is handed.
abbrev keep_chunk : Writer (List (List Leaf))
keep_chunk w c base total = (c ∷ w, inl (length c))

keep_chunk-WritesAll : WritesAll keep_chunk
keep_chunk-WritesAll w c base total = refl

abbrev counted : CorpusStats
counted = record { streamed = 5; total = 3; by_source = [] }

count_test : (count_corpus text_key never corpus 0).0.total ≡ 3
unfolding count_corpus dph.Corpus.stream_all dph.Corpus.stream dph.Corpus.count_emit dph.Corpus.add
    dph.Base.Text.has dph.Base.Text.str_eq dph.Base.Dict.upsert
count_test = refl

write_corpus_chunked_lem_example :
    WroteCorpus keep_chunk
      (chunk_size 2)
      3
      []
      (first_of_key text_key [] (within 4 (all_leafs corpus)))
      (write_corpus_chunked text_key never corpus 2 4 counted keep_chunk [])
write_corpus_chunked_lem_example =
    write_corpus_chunked_lem text_key keep_chunk keep_chunk-WritesAll never corpus 2 4 counted []
      (λ i. refl) (refl, (refl, tt))

written-eq-total_example :
    (write_corpus_chunked text_key never corpus 2 4
      (count_corpus text_key never corpus 4).0
      keep_chunk
      []).0.written
    ≡ (count_corpus text_key never corpus 4).0.total
written-eq-total_example =
    written-eq-total text_key keep_chunk keep_chunk-WritesAll never corpus 2 4 [] (λ i. refl)
      (refl, (refl, tt))
