-- ===== src/Tests/PoolExamples.antt =====
-- Examples on the batches and the resume path of the corpus writer.
use dph.Base.{ℕ, ◌≡◌, ◌↔◌, ◌||◌, refl, Bool, List, [], ◌∷◌, length, All, In, map}
use dph.Base.Number.{pos}
use dph.Base.Text.{Bytes, codes, str_eq, has}
use dph.Contract.{Leaf, content_hash}
use dph.Corpus.Pool.{batch_size, chunk_bounds, filter_existing_leafs}

chunk_bounds_test : chunk_bounds 5 (pos 2) ≡ (0, 2) ∷ (2, 4) ∷ (4, 5) ∷ []
unfolding chunk_bounds dph.Corpus.Pool.bounds
chunk_bounds_test = refl

abbrev five : List ℕ
five = 7 ∷ 8 ∷ 9 ∷ 10 ∷ 11 ∷ []

abbrev note_of : Bytes → Leaf
note_of text = record {
  source = codes "docs";
  external_id = text;
  kind = codes "note";
  text = text;
  root = codes "info";
  confidence = codes "inferred";
  source_rev = [];
  how = [];
  loc = [];
  valid_from = [];
  valid_to = [];
  observed_at = [];
}

-- Texts stand for themselves in place of valid UTF-8 and of the hash.
abbrev same : Bytes → Bytes
same s = s

abbrev stored : Bytes → Bool
stored id = str_eq id (codes "docs|y|note|y")

abbrev notes : List Leaf
notes = note_of (codes "x") ∷ note_of (codes "y") ∷ []

filter_test : filter_existing_leafs same same stored notes ≡ note_of (codes "x") ∷ []
unfolding filter_existing_leafs dph.Contract.content_hash dph.Contract.normalize_text
    dph.Contract.replace_crlf dph.Base.Text.trim_space dph.Base.Text.str_eq
filter_test = refl
