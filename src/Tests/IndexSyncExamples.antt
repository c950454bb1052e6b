-- ===== src/Tests/IndexSyncExamples.antt =====
-- Examples on the import and index cycle.
use dph.Base.{ℕ, ◌≡◌, ◌⊎◌, inl, inr, refl, Bool, true, false, Option, none, some, List, [], ◌∷◌, In}
use dph.Base.Text.{Bytes, codes}
use dph.IndexSync.Setup.{
  Config, Env, Event, Command, Tool, mail_leaf, doc_leaf, brain_index, mail_graph, ann_ensure,
  is_corpus_mail,
}
use dph.IndexSync.Plan.{index_command}
use dph.IndexSync.Cycle.{found_channels, found_docs, cycle}
use dph.IndexSync.Brain.{brain_after, cycle_brain}
use dph.IndexSync.Saves.{saves, called_for, saves-cycle}
use dph.IndexSync.Commands.{commands}
use dph.IndexSync.Planned.{Planned, found, cycle-Planned}

abbrev config : Bytes → Config
config source = record {
  root = codes "/repo";
  hive = codes "/hive";
  documents_hive = codes "/docs";
  db = codes "/repo/var/kb.lbug";
  mail_graph_bin = codes "mail-graph";
  mail_leaf_bin = codes "mail-leaf";
  doc_leaf_bin = codes "mail-leaf";
  brain_index_bin = codes "brain-index";
  ann_bin = codes "ann";
  ann_index = [];
  quiesce = true;
  rebuild = false;
  project = codes "2dph";
  service = codes "brain";
  channels = [];
  mail_source = source;
  since = [];
}

-- Every tool works but that of the vectors.
abbrev answer : Tool → Option ℕ
answer mail_leaf = none
answer doc_leaf = none
answer brain_index = none
answer mail_graph = none
answer ann_ensure = some 1

abbrev env : Env
env = record {
  find_channels = inr (codes "gmail" ∷ []);
  find_partitions = inr (codes "drive/a" ∷ []);
  mail_newest = 5;
  hive_newest = some 6;
  documents_newest = some 7;
  has_ann_index = true;
  freshness = record { last_error = []; index_at = [] };
  db_time = some 3;
  has_docker = true;
  stop_error = none;
  run = λ es cmd. answer cmd.tool;
}

abbrev gator : Config
gator = config (codes "gator")

abbrev corpus : Config
corpus = config (codes "corpus")

cycle_brain_example : brain_after (some true) (cycle env gator).events ≡ some true
cycle_brain_example = cycle_brain env gator refl refl

saves-cycle_example :
    saves (cycle env gator).events
    ≡ called_for (cycle env gator).report.err (cycle env gator).report.skipped
saves-cycle_example = saves-cycle env gator

cycle-Planned_example :
    Planned env gator
      (is_corpus_mail gator)
      (found env (found_channels env gator (is_corpus_mail gator)))
      (found env (found_docs env gator))
      (cycle env gator)
cycle-Planned_example = cycle-Planned env gator

corpus_is_canon : is_corpus_mail corpus ≡ true
unfolding is_corpus_mail dph.Base.Text.str_eq
corpus_is_canon = refl

abbrev indexed : Command
indexed = index_command corpus true

index_runs : In indexed (commands (cycle env corpus).events)
unfolding cycle is_corpus_mail dph.Base.Text.str_eq dph.IndexSync.Cycle.decide
    dph.IndexSync.Setup.should_skip dph.IndexSync.Setup.newest_pack dph.IndexSync.Cycle.work
    dph.IndexSync.Cycle.run_tools dph.IndexSync.Cycle.run_tool dph.IndexSync.Plan.all_commands
    dph.IndexSync.Plan.mail_commands dph.IndexSync.Plan.doc_commands
    dph.IndexSync.Plan.graph_commands dph.IndexSync.Plan.ann_commands dph.IndexSync.Cycle.fail
    commands
index_runs = inr (inl refl)
