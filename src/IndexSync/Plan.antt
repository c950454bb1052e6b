-- ===== src/IndexSync/Plan.antt =====
-- The commands of a cycle of internal/indexsync/indexsync.go, each with the test that guards it.
use dph.Base.{Bool, not, ◌&&◌, List, [], ◌∷◌, ◌++◌, if◌then◌else◌}
use dph.Base.Text.{Bytes, codes, is_empty}
use dph.IndexSync.Setup.{
  Command, Config, ann_ensure, brain_index, doc_leaf, is_nil, mail_graph, mail_leaf,
}

abbrev pub option_args : Bytes → Bytes → List Bytes
option_args name value = if is_empty value then [] else name ∷ value ∷ []

abbrev pub mail_leaf_command : Config → Command
mail_leaf_command c = record {
  tool = mail_leaf;
  bin = c.mail_leaf_bin;
  args =
      codes "--commit" ∷ codes "--skip" ∷ codes "--force" ∷ option_args (codes "--hive") c.hive
      ++ option_args (codes "--db") c.db;
}

abbrev pub doc_leaf_command : Config → Command
doc_leaf_command c = record {
  tool = doc_leaf;
  bin = c.doc_leaf_bin;
  args =
      codes "--document"
      ∷ codes "--commit"
      ∷ codes "--skip"
      ∷ codes "--force"
      ∷ codes "--hive-doc"
      ∷ c.documents_hive
      ∷ option_args (codes "--db") c.db;
}

abbrev pub index_command : Config → Bool → Command
index_command c corpus_mode = record {
  tool = brain_index;
  bin = c.brain_index_bin;
  args =
      (if c.rebuild then codes "--rebuild" else codes "--skip") ∷ option_args (codes "--db") c.db
      ++ (if corpus_mode then codes "--with-mail" ∷ option_args (codes "--since") c.since else []);
}

abbrev pub graph_command : Config → Bytes → Command
graph_command c ch = record {
  tool = mail_graph;
  bin = c.mail_graph_bin;
  args =
      codes "--channel"
        ∷ ch
        ∷ codes "--commit"
        ∷ codes "--skip-existing"
        ∷ codes "--force"
        ∷ option_args (codes "--hive") c.hive
      ++ option_args (codes "--db") c.db;
}

abbrev pub ann_command : Config → Command
ann_command c = record { tool = ann_ensure; bin = c.ann_bin; args = codes "ensure" ∷ [] }

unfoldable pub graph_commands : Config → List Bytes → List Command
graph_commands c [] = []
graph_commands c (ch ∷ chs) = graph_command c ch ∷ graph_commands c chs

-- The tools in order, each with the test that guards it.
unfoldable pub mail_commands : Config → Bool → List Bytes → List Command
mail_commands c corpus_mode channels =
    if not corpus_mode && not (is_nil channels) then mail_leaf_command c ∷ [] else []

unfoldable pub doc_commands : Config → List Bytes → List Command
doc_commands c docs = if is_nil docs then [] else doc_leaf_command c ∷ []

unfoldable pub ann_commands : Config → List Command
ann_commands c = if is_empty c.ann_bin then [] else ann_command c ∷ []

unfoldable pub all_commands : Config → Bool → List Bytes → List Bytes → List Command
all_commands c corpus_mode channels docs =
    mail_commands c corpus_mode channels
    ++ (doc_commands c docs
        ++ (index_command c corpus_mode ∷ graph_commands c channels ++ ann_commands c))
