-- ===== src/IndexSync/Setup.antt =====
-- What a cycle is given: `Config`, the answers of what is around it, its events and its report, and
-- the tests on times. Times and message texts of internal/indexsync/indexsync.go are left out.
use dph.Base.{
  ℕ, ◌⊎◌, Bool, true, false, not, ◌&&◌, ◌||◌, Option, none, some, List, [], ◌∷◌, if◌then◌else◌, ltb,
  leb, ◌==◌,
}
use dph.Base.Text.{Bytes, codes, str_eq, is_empty}

-- `Config`; the two durations are left out.
pub record Config : Type 0 where
  pub root : Bytes
  pub hive : Bytes
  pub documents_hive : Bytes
  pub db : Bytes
  pub mail_graph_bin : Bytes
  pub mail_leaf_bin : Bytes
  pub doc_leaf_bin : Bytes
  pub brain_index_bin : Bytes
  pub ann_bin : Bytes
  pub ann_index : Bytes
  pub quiesce : Bool
  pub rebuild : Bool
  pub project : Bytes
  pub service : Bytes
  pub channels : List Bytes
  pub mail_source : Bytes
  pub since : Bytes

abbrev pub or_default : Bytes → Bytes → Bytes
or_default s d = if is_empty s then d else s

-- `WithDefaults`, where `repo_root` stands for `utils.Root()` and `kb_path` for the path of the
-- database below a root.
unfoldable pub with_defaults : Bytes → (Bytes → Bytes) → Config → Config
with_defaults repo_root kb_path c =
    let root = or_default c.root repo_root in
    let mail_leaf = or_default c.mail_leaf_bin (codes "mail-leaf") in
    record c {
      root = root;
      db = or_default c.db (kb_path root);
      mail_graph_bin = or_default c.mail_graph_bin (codes "mail-graph");
      mail_leaf_bin = mail_leaf;
      doc_leaf_bin = or_default c.doc_leaf_bin mail_leaf;
      brain_index_bin = or_default c.brain_index_bin (codes "brain-index");
      project = or_default c.project (codes "2dph");
      service = or_default c.service (codes "brain");
      mail_source = or_default c.mail_source (codes "corpus");
    }

-- `corpusMail`.
unfoldable pub is_corpus_mail : Config → Bool
is_corpus_mail c = not (str_eq c.mail_source (codes "gator"))

-- The steps that run a tool.
pub data Tool : Type 0 where
  mail_leaf doc_leaf brain_index mail_graph ann_ensure : Tool

pub record Command : Type 0 where
  pub tool : Tool
  pub bin : Bytes
  pub args : List Bytes

pub data Failure : Type 0 where
  channels_failed partitions_failed quiesce_failed : ℕ → Failure
  tool_failed : Tool → ℕ → Failure

pub data Event : Type 0 where
  stopped_brain released_brain saved_success : Event
  saved_error : Failure → Event
  ran : Command → Event

pub data Skip : Type 0 where
  not_skipped no_upstream kb_newer : Skip

-- `Report`.
pub record Report : Type 0 where
  pub skipped : Skip
  pub mail_source : Bytes
  pub corpus_mail : Bool
  pub channels : List Bytes
  pub doc_partitions : List Bytes
  pub imported : ℕ
  pub indexed : Bool
  pub ann : Bool
  pub err : Option Failure

-- The state file: the last error and the time of the index.
pub record Freshness : Type 0 where
  pub last_error : Bytes
  pub index_at : Bytes

-- The answers of what is around the cycle: the channels and partitions or an error, the newest
-- times (0 for none), whether there is an index of the vectors, the state file, the time of the
-- database if it is there, whether there is a client for containers and its error on stopping, and
-- the error of a tool, if any, after the events so far.
pub record Env : Type 0 where
  pub find_channels : ℕ ⊎ List Bytes
  pub find_partitions : ℕ ⊎ List Bytes
  pub mail_newest : ℕ
  pub hive_newest : Option ℕ
  pub documents_newest : Option ℕ
  pub has_ann_index : Bool
  pub freshness : Freshness
  pub db_time : Option ℕ
  pub has_docker : Bool
  pub stop_error : Option ℕ
  pub run : List Event → Command → Option ℕ

pub record Machine : Type 0 where
  pub events : List Event
  pub report : Report

abbrev pub is_nil : List Bytes → Bool
is_nil [] = true
is_nil (x ∷ xs) = false

abbrev pub newer : Option ℕ → ℕ → ℕ
newer none n = n
newer (some k) n = if ltb n k then k else n

-- `newestPack`.
unfoldable pub newest_pack : Env → Config → Bool → ℕ → ℕ
newest_pack env c corpus_mode corpus_nano =
    let a = if not corpus_mode && not (is_empty c.hive) then newer env.hive_newest 0 else 0 in
    let b = if not (is_empty c.documents_hive) then newer env.documents_newest a else a in
    if ltb b corpus_nano then corpus_nano else b

abbrev pub is_fresh : Option ℕ → ℕ → Bool
is_fresh none pack = false
is_fresh (some t) pack = leb pack t

-- `shouldSkip`.
unfoldable pub should_skip : Env → Config → ℕ → Bool
should_skip env c pack =
    if c.rebuild || pack == 0
    then false
    else if not (is_empty c.ann_bin) && not env.has_ann_index
    then false
    else if not (is_empty env.freshness.last_error) || is_empty env.freshness.index_at
    then false
    else is_fresh env.db_time pack
