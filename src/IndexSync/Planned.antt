-- ===== src/IndexSync/Planned.antt =====
-- The plan of a cycle of internal/indexsync/indexsync.go, and the tools that it runs.
use dph.Base.{
  ℕ, ◌≡◌, refl, ap, ◌∙◌, ◌⊎◌, inl, inr, Bool, true, false, not, ◌&&◌, Option, none, some, List, [],
  ◌∷◌, ◌++◌, if_both, In, In-append_left, All, All-append, All-In,
}
use mathlib.Core.Path.{subst}
use dph.Base.Text.{Bytes, is_empty}
use dph.IndexSync.Setup.{
  Config, Env, Event, stopped_brain, released_brain, saved_success, saved_error, Command, Tool,
  mail_leaf, mail_graph, Failure, Machine, not_skipped, is_corpus_mail, newest_pack, should_skip,
  is_nil,
}
use dph.IndexSync.Plan.{
  all_commands, mail_commands, doc_commands, graph_commands, ann_command, ann_commands,
}
use dph.IndexSync.Cycle.{
  fail, has_failed, run_tools, finish, steps, quiesced, work, choose, with_mail, corpus_nano,
  is_mail_present, decide, with_docs, with_channels, found_docs, found_channels, start_of, cycle,
  save_success,
}
use dph.IndexSync.Commands.{commands, commands_quiet, is_quiet, run_tools-Followed}
use dph.IndexSync.Heeded.{Heeds, no_tool-Heeds, quiet-Heeds, run_tools-Heeds}

module _ (env : Env) where
  -- The tools that were run are the first ones of the plan for these channels and partitions, and
  -- all of them after a cycle that was not skipped and has no error; none was run after one that
  -- failed, and none failed in a cycle without an error.
  pub record Planned (c : Config) (mode : Bool) (channels docs : List Bytes) (n : Machine)
      : Type 0 where
    pub done : List Command
    pub rest : List Command
    pub front : done ++ rest ≡ all_commands c mode channels docs
    pub run : commands n.events ≡ done
    pub all : n.report.err ≡ none → n.report.skipped ≡ not_skipped → rest ≡ []
    pub heeds : Heeds env n

  module _ (c : Config) (mode : Bool) (channels docs : List Bytes) where
    abbrev IsPlanned : Machine → Type 0
    IsPlanned n = Planned c mode channels docs n

    nothing-IsPlanned :
        (n : Machine)
        → commands n.events ≡ []
        → (n.report.err ≡ none → n.report.skipped ≡ not_skipped → ⊥)
        → IsPlanned n
    nothing-IsPlanned n h never = record {
      done = [];
      rest = all_commands c mode channels docs;
      front = refl;
      run = h;
      all = λ e s. absurd (never e s);
      heeds = no_tool-Heeds env n h;
    }

    then_quiet :
        (n : Machine) (e : Event)
        → is_quiet e ≡ true
        → IsPlanned n
        → IsPlanned (record n { events = n.events ++ e ∷ [] })
    then_quiet n e q p = record {
      done = p.done;
      rest = p.rest;
      front = p.front;
      run = commands_quiet n.events e q ∙ p.run;
      all = p.all;
      heeds = quiet-Heeds env n e q p.heeds;
    }

    fail-IsPlanned : (f : Failure) (m : Machine) → commands m.events ≡ [] → IsPlanned (fail f m)
    unfolding fail
    fail-IsPlanned f m h =
        nothing-IsPlanned _ (commands_quiet m.events (saved_error f) refl ∙ h) (λ e s. cc (e))

    finish-IsPlanned : (m : Machine) → IsPlanned m → IsPlanned (finish m)
    finish-IsPlanned m p =
        if_both IsPlanned (has_failed m.report.err) m (save_success m) (λ e. p)
          (λ e. then_quiet m saved_success refl p)

    steps-IsPlanned :
        (m : Machine) → commands m.events ≡ [] → IsPlanned (steps env c mode channels docs m)
    steps-IsPlanned m h =
        let f = run_tools-Followed env (all_commands c mode channels docs) m in
        finish-IsPlanned (run_tools env m (all_commands c mode channels docs)) (record {
          done = f.done;
          rest = f.rest;
          front = f.front;
          run = f.run ∙ ap (λ cs. cs ++ f.done) h;
          all = λ e s. f.all e;
          heeds = run_tools-Heeds env (all_commands c mode channels docs) m (no_tool-Heeds env m h);
        })

    quiesced-IsPlanned :
        (x : Option ℕ) (m : Machine)
        → commands m.events ≡ []
        → IsPlanned (quiesced env x (steps env c mode channels docs) m)
    quiesced-IsPlanned (some e) m h = fail-IsPlanned _ m h
    quiesced-IsPlanned none m h =
        let start = record m { events = m.events ++ stopped_brain ∷ [] } in
        then_quiet (steps env c mode channels docs start) released_brain refl
          (steps-IsPlanned start (commands_quiet m.events stopped_brain refl ∙ h))

    work-IsPlanned :
        (m : Machine) → commands m.events ≡ [] → IsPlanned (work env c mode channels docs m)
    unfolding work
    work-IsPlanned m h =
        if_both IsPlanned (c.quiesce && env.has_docker)
          (quiesced env env.stop_error (steps env c mode channels docs) m)
          (steps env c mode channels docs m) (λ e. quiesced-IsPlanned env.stop_error m h)
          (λ e. steps-IsPlanned m h)

    choose-IsPlanned :
        (a b : Bool) (m rest : Machine)
        → commands m.events ≡ []
        → IsPlanned rest
        → IsPlanned (choose env a b m rest)
    choose-IsPlanned true b m rest h p =
        nothing-IsPlanned _ (commands_quiet m.events saved_success refl ∙ h) (λ e s. cc (s))
    choose-IsPlanned false true m rest h p = nothing-IsPlanned _ h (λ e s. cc (s))
    choose-IsPlanned false false m rest h p = p

    decide-IsPlanned :
        (m : Machine) → commands m.events ≡ [] → IsPlanned (decide env c mode channels docs m)
    unfolding decide
    decide-IsPlanned m h =
        choose-IsPlanned (not (is_mail_present env mode channels) && is_nil docs)
          (should_skip env c (newest_pack env c mode (corpus_nano env mode))) (with_mail env mode m)
          (work env c mode channels docs (with_mail env mode m)) h
          (work-IsPlanned (with_mail env mode m) h)

  -- What was found, or nothing after an error.
  abbrev pub found : ℕ ⊎ List Bytes → List Bytes
  found (inl e) = []
  found (inr xs) = xs

  with_docs-Planned :
      (c : Config) (mode : Bool) (channels : List Bytes) (m : Machine) (r : ℕ ⊎ List Bytes)
      → commands m.events ≡ []
      → Planned c mode channels (found r) (with_docs env c mode channels m r)
  with_docs-Planned c mode channels m (inl e) h = fail-IsPlanned c mode channels [] _ m h
  with_docs-Planned c mode channels m (inr docs) h =
      decide-IsPlanned c mode channels docs
        (record m { report = record m.report { doc_partitions = docs } }) h

  with_channels-Planned :
      (c : Config) (mode : Bool) (m : Machine) (r : ℕ ⊎ List Bytes)
      → commands m.events ≡ []
      → Planned c mode (found r) (found (found_docs env c)) (with_channels env c mode m r)
  with_channels-Planned c mode m (inl e) h = fail-IsPlanned c mode [] _ _ m h
  with_channels-Planned c mode m (inr channels) h =
      with_docs-Planned c mode channels
        (record m { report = record m.report { channels = channels } }) (found_docs env c) h

  -- The tools that a cycle runs are the first ones of the plan for the channels and partitions that
  -- it finds, in order; after one that failed no other is run; all of them are run if the cycle is
  -- not skipped and reports no error; and if it reports no error, no tool that was run failed.
  pub cycle-Planned :
      (c : Config)
      → Planned c
          (is_corpus_mail c)
          (found (found_channels env c (is_corpus_mail c)))
          (found (found_docs env c))
          (cycle env c)
  unfolding cycle commands
  cycle-Planned c =
      with_channels-Planned c (is_corpus_mail c) (start_of env c)
        (found_channels env c (is_corpus_mail c)) refl

  -- The tools of the aggregator's mail.
  abbrev pub IsGatorMail : Tool → Type 0
  IsGatorMail t = (t ≡ mail_leaf) ⊎ (t ≡ mail_graph)

  abbrev IsOther : Command → Type 0
  IsOther cmd = IsGatorMail cmd.tool → ⊥

  doc_commands-IsOther : (c : Config) (docs : List Bytes) → All IsOther (doc_commands c docs)
  unfolding doc_commands
  doc_commands-IsOther c [] = tt
  doc_commands-IsOther c (d ∷ docs) = ((λ g. elim g [ inl e ↦ cc (e) | inr e ↦ cc (e) ]), tt)

  ann_commands-IsOther : (c : Config) → All IsOther (ann_commands c)
  unfolding ann_commands
  ann_commands-IsOther c =
      if_both (All IsOther) (is_empty c.ann_bin) [] (ann_command c ∷ []) (λ e. tt)
        (λ e. ((λ g. elim g [ inl q ↦ cc (q) | inr q ↦ cc (q) ]), tt))

  corpus_plan-IsOther : (c : Config) (docs : List Bytes) → All IsOther (all_commands c true [] docs)
  unfolding all_commands mail_commands graph_commands
  corpus_plan-IsOther c docs =
      All-append IsOther (doc_commands c docs) _ (doc_commands-IsOther c docs)
        ((λ g. elim g [ inl e ↦ cc (e) | inr e ↦ cc (e) ]), ann_commands-IsOther c)

  -- Where the local corpus is the canon of mail, no tool of the aggregator's mail runs: the two
  -- canons never write both.
  pub cycle_one_canon :
      (c : Config) (cmd : Command)
      → is_corpus_mail c ≡ true
      → In cmd (commands (cycle env c).events)
      → IsGatorMail cmd.tool
      → ⊥
  cycle_one_canon c cmd e m =
      let p = rw e at (cycle-Planned c) in
      All-In IsOther cmd _ (corpus_plan-IsOther c (found (found_docs env c)))
        (subst (In cmd) p.front (In-append_left cmd p.done p.rest (subst (In cmd) p.run m)))
