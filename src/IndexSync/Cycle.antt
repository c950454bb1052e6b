-- ===== src/IndexSync/Cycle.antt =====
-- `Cycle` of internal/indexsync/indexsync.go: what it does is the list of its events.
use dph.Base.{
  ℕ, suc, ◌⊎◌, inl, inr, Bool, true, false, not, ◌&&◌, Option, none, some, List, [], ◌∷◌, ◌++◌,
  if◌then◌else◌, ltb,
}
use dph.Base.Text.{Bytes, is_empty}
use dph.IndexSync.Setup.{
  Command, Config, Env, Failure, Machine, Report, Skip, Tool, ann_ensure, brain_index,
  channels_failed, doc_leaf, is_corpus_mail, is_nil, kb_newer, mail_graph, mail_leaf, newer,
  newest_pack, no_upstream, not_skipped, partitions_failed, quiesce_failed, ran, released_brain,
  saved_error, saved_success, should_skip, stopped_brain, tool_failed,
}
use dph.IndexSync.Plan.{all_commands}

-- An early return with an error: it is reported and saved.
unfoldable pub fail : Failure → Machine → Machine
fail f m = record {
  events = m.events ++ saved_error f ∷ [];
  report = record m.report { err = some f };
}

-- What a tool leaves in the report.
abbrev pub mark : Tool → Report → Report
mark mail_leaf r = r
mark doc_leaf r = r
mark brain_index r = record r { indexed = true }
mark mail_graph r = record r { imported = suc r.imported }
mark ann_ensure r = record r { ann = true }

abbrev pub has_failed : Option Failure → Bool
has_failed none = false
has_failed (some f) = true

abbrev pub tool_done : Command → Machine → Option ℕ → Machine
tool_done cmd m none = record m { report = mark cmd.tool m.report }
tool_done cmd m (some e) = fail (tool_failed cmd.tool e) m

module _ (env : Env) where
  -- A step that runs a tool; after an early return there are no more steps.
  unfoldable pub run_tool : Machine → Command → Machine
  run_tool m cmd =
      let after = record m { events = m.events ++ ran cmd ∷ [] } in
      if has_failed m.report.err then m else tool_done cmd after (env.run m.events cmd)

  unfoldable pub run_tools : Machine → List Command → Machine
  run_tools m [] = m
  run_tools m (cmd ∷ cmds) = run_tools (run_tool m cmd) cmds

abbrev pub save_success : Machine → Machine
save_success m = record m { events = m.events ++ saved_success ∷ [] }

-- The last line of the cycle, if no step returned early.
abbrev pub finish : Machine → Machine
finish m = if has_failed m.report.err then m else save_success m

-- The end of a quiesced cycle: the brain is started again. Where the start or the wait for its health
-- fails, the code only prints that, and so the event stands for the call and not for its success.
abbrev pub release : Machine → Machine
release m = record m { events = m.events ++ released_brain ∷ [] }

module _ (env : Env) where
  abbrev pub steps : Config → Bool → List Bytes → List Bytes → Machine → Machine
  steps c corpus_mode channels docs m =
      finish (run_tools env m (all_commands c corpus_mode channels docs))

  -- With the brain stopped first, and released in the end whatever happens.
  abbrev pub quiesced : Option ℕ → (Machine → Machine) → Machine → Machine
  quiesced (some e) body m = fail (quiesce_failed e) m
  quiesced none body m = release (body (record m { events = m.events ++ stopped_brain ∷ [] }))

  unfoldable pub work : Config → Bool → List Bytes → List Bytes → Machine → Machine
  work c corpus_mode channels docs m =
      if c.quiesce && env.has_docker
      then quiesced env.stop_error (steps c corpus_mode channels docs) m
      else steps c corpus_mode channels docs m

  abbrev pub skip_with : Skip → Machine → Machine
  skip_with s m = record m { report = record m.report { skipped = s } }

  abbrev pub corpus_nano : Bool → ℕ
  corpus_nano corpus_mode = if corpus_mode then env.mail_newest else 0

  abbrev pub is_mail_present : Bool → List Bytes → Bool
  is_mail_present corpus_mode channels =
      if corpus_mode then ltb 0 (corpus_nano corpus_mode) else not (is_nil channels)

  -- The two early returns of a cycle with nothing to do, and the rest: whether there is nothing
  -- upstream, and whether the database is newer.
  abbrev pub choose : Bool → Bool → Machine → Machine → Machine
  choose true newer seen rest = save_success (skip_with no_upstream seen)
  choose false true seen rest = skip_with kb_newer seen
  choose false false seen rest = rest

  abbrev pub with_mail : Bool → Machine → Machine
  with_mail corpus_mode m = record m {
    report = record m.report { corpus_mail = ltb 0 (corpus_nano corpus_mode) };
  }

  -- From the newest times on.
  unfoldable pub decide : Config → Bool → List Bytes → List Bytes → Machine → Machine
  decide c corpus_mode channels docs m =
      choose (not (is_mail_present corpus_mode channels) && is_nil docs)
        (should_skip env c (newest_pack env c corpus_mode (corpus_nano corpus_mode)))
        (with_mail corpus_mode m) (work c corpus_mode channels docs (with_mail corpus_mode m))

  abbrev pub with_docs : Config → Bool → List Bytes → Machine → ℕ ⊎ List Bytes → Machine
  with_docs c corpus_mode channels m (inl e) = fail (partitions_failed e) m
  with_docs c corpus_mode channels m (inr docs) =
      decide c corpus_mode channels docs
        (record m { report = record m.report { doc_partitions = docs } })

  abbrev pub found_docs : Config → ℕ ⊎ List Bytes
  found_docs c = if is_empty c.documents_hive then inr [] else env.find_partitions

  abbrev pub with_channels : Config → Bool → Machine → ℕ ⊎ List Bytes → Machine
  with_channels c corpus_mode m (inl e) = fail (channels_failed e) m
  with_channels c corpus_mode m (inr channels) =
      with_docs c corpus_mode channels
        (record m { report = record m.report { channels = channels } }) (found_docs c)

  abbrev pub found_channels : Config → Bool → ℕ ⊎ List Bytes
  found_channels c corpus_mode =
      if corpus_mode
      then inr []
      else if is_nil c.channels
      then env.find_channels
      else inr c.channels

  abbrev pub start_of : Config → Machine
  start_of c = record {
    events = [];
    report = record {
      skipped = not_skipped;
      mail_source = c.mail_source;
      corpus_mail = false;
      channels = [];
      doc_partitions = [];
      imported = 0;
      indexed = false;
      ann = false;
      err = none;
    };
  }

  -- `Cycle`, on a configuration with its defaults filled in.
  unfoldable pub cycle : Config → Machine
  cycle c = with_channels c (is_corpus_mail c) (start_of c) (found_channels c (is_corpus_mail c))
