-- ===== src/IndexSync/Saves.antt =====
-- What a cycle of internal/indexsync/indexsync.go saves in the state file.
use dph.Base.{
  ℕ, ◌≡◌, refl, ap, ◌∙◌, ◌⊎◌, inl, inr, Bool, true, false, not, ◌&&◌, Option, none, some, List, [],
  ◌∷◌, ◌++◌, if_both, append-nil,
}
use dph.Base.Text.{Bytes}
use dph.IndexSync.Setup.{
  Config, Env, Event, stopped_brain, released_brain, saved_success, saved_error, ran, Command, Tool,
  mail_leaf, doc_leaf, brain_index, mail_graph, ann_ensure, Failure, Machine, Report, Skip,
  not_skipped, no_upstream, kb_newer, is_corpus_mail, newest_pack, should_skip, is_nil,
}
use dph.IndexSync.Plan.{all_commands}
use dph.IndexSync.Cycle.{
  fail, mark, tool_done, has_failed, run_tool, run_tools, finish, release, steps, quiesced, work,
  skip_with, choose, with_mail, corpus_nano, is_mail_present, decide, with_docs, with_channels,
  found_docs, found_channels, start_of, cycle, save_success,
}

-- The saves in order: none for a success.
unfoldable pub saves : List Event → List (Option Failure)
saves [] = []
saves (saved_success ∷ es) = none ∷ saves es
saves (saved_error f ∷ es) = some f ∷ saves es
saves (stopped_brain ∷ es) = saves es
saves (released_brain ∷ es) = saves es
saves (ran cmd ∷ es) = saves es

-- The one save that a report calls for; a cycle that is skipped for a newer database saves nothing.
abbrev pub called_for : Option Failure → Skip → List (Option Failure)
called_for (some f) s = some f ∷ []
called_for none kb_newer = []
called_for none no_upstream = none ∷ []
called_for none not_skipped = none ∷ []

saves-append : (es fs : List Event) → saves (es ++ fs) ≡ saves es ++ saves fs
unfolding saves
saves-append [] fs = refl
saves-append (saved_success ∷ es) fs = ap (◌∷◌ none) (saves-append es fs)
saves-append (saved_error f ∷ es) fs = ap (◌∷◌ (some f)) (saves-append es fs)
saves-append (stopped_brain ∷ es) fs = saves-append es fs
saves-append (released_brain ∷ es) fs = saves-append es fs
saves-append (ran cmd ∷ es) fs = saves-append es fs

abbrev told : Option Failure → List (Option Failure)
told none = []
told (some f) = some f ∷ []

-- While the tools run: an error is saved at once, and the cycle is not skipped.
abbrev IsRunning : Machine → Type 0
IsRunning m = (saves m.events ≡ told m.report.err) × (m.report.skipped ≡ not_skipped)

abbrev IsOver : Machine → Type 0
IsOver m = saves m.events ≡ called_for m.report.err m.report.skipped

fail-IsRunning :
    (f : Failure) (m : Machine)
    → saves m.events ≡ []
    → m.report.skipped ≡ not_skipped
    → IsRunning (fail f m)
unfolding fail saves
fail-IsRunning f m h s = (saves-append m.events (saved_error f ∷ []) ∙ rw h, s)

mark_err : (t : Tool) (r : Report) → (mark t r).err ≡ r.err
mark_err mail_leaf r = refl
mark_err doc_leaf r = refl
mark_err brain_index r = refl
mark_err mail_graph r = refl
mark_err ann_ensure r = refl

mark_skipped : (t : Tool) (r : Report) → (mark t r).skipped ≡ r.skipped
mark_skipped mail_leaf r = refl
mark_skipped doc_leaf r = refl
mark_skipped brain_index r = refl
mark_skipped mail_graph r = refl
mark_skipped ann_ensure r = refl

tool_done-IsRunning :
    (cmd : Command) (m : Machine) (x : Option ℕ)
    → saves m.events ≡ []
    → m.report.err ≡ none
    → m.report.skipped ≡ not_skipped
    → IsRunning (tool_done cmd m x)
tool_done-IsRunning cmd m none h e s =
    (h ∙ rw (mark_err cmd.tool m.report, e), mark_skipped cmd.tool m.report ∙ s)
tool_done-IsRunning cmd m (some x) h e s = fail-IsRunning _ m h s

not_failed : (o : Option Failure) → has_failed o ≡ false → o ≡ none
not_failed none e = refl
not_failed (some f) e = cc

told_called : (o : Option Failure) (s : Skip) → has_failed o ≡ true → told o ≡ called_for o s
told_called none s e = cc
told_called (some f) s e = refl

module _ (env : Env) where
  run_tool-IsRunning : (m : Machine) (cmd : Command) → IsRunning m → IsRunning (run_tool env m cmd)
  unfolding run_tool saves
  run_tool-IsRunning m cmd h =
      if_both IsRunning (has_failed m.report.err) m
        (tool_done cmd (record m { events = m.events ++ ran cmd ∷ [] }) (env.run m.events cmd))
        (λ e. h)
        (λ e.
          let n = not_failed m.report.err e in
          tool_done-IsRunning cmd (record m { events = m.events ++ ran cmd ∷ [] })
            (env.run m.events cmd) (saves-append m.events (ran cmd ∷ []) ∙ rw (h.0, n)) n h.1)

  run_tools-IsRunning :
      (cmds : List Command) (m : Machine) → IsRunning m → IsRunning (run_tools env m cmds)
  unfolding run_tools
  run_tools-IsRunning [] m h = h
  run_tools-IsRunning (cmd ∷ cmds) m h =
      run_tools-IsRunning cmds (run_tool env m cmd) (run_tool-IsRunning m cmd h)

  save_success-IsOver :
      (m : Machine)
      → saves m.events ≡ []
      → m.report.err ≡ none
      → called_for none m.report.skipped ≡ none ∷ []
      → IsOver (save_success m)
  unfolding saves
  save_success-IsOver m h e c = saves-append m.events (saved_success ∷ []) ∙ rw (h, e, c)

  finish-IsOver : (m : Machine) → IsRunning m → IsOver (finish m)
  finish-IsOver m h =
      if_both IsOver (has_failed m.report.err) m (save_success m)
        (λ e. h.0 ∙ told_called m.report.err m.report.skipped e)
        (λ e. let n = not_failed m.report.err e in save_success-IsOver m (h.0 ∙ rw n) n (rw h.1))

  release-IsOver : (m : Machine) → IsOver m → IsOver (release m)
  unfolding saves
  release-IsOver m h = saves-append m.events (released_brain ∷ []) ∙ append-nil (saves m.events) ∙ h

  -- A cycle up to now without an event that saves, and without an error.
  abbrev IsFresh : Machine → Type 0
  IsFresh m = (saves m.events ≡ []) × (m.report.err ≡ none) × (m.report.skipped ≡ not_skipped)

  IsFresh-IsRunning : (m : Machine) → IsFresh m → IsRunning m
  IsFresh-IsRunning m h = (h.0 ∙ rw h.1, h.2)

  failed-IsOver : (f : Failure) (m : Machine) → IsFresh m → IsOver (fail f m)
  unfolding fail
  failed-IsOver f m h = (fail-IsRunning f m h.0 h.2).0

  steps-IsOver :
      (c : Config) (mode : Bool) (channels docs : List Bytes) (m : Machine)
      → IsFresh m
      → IsOver (steps env c mode channels docs m)
  steps-IsOver c mode channels docs m h =
      finish-IsOver _
        (run_tools-IsRunning (all_commands c mode channels docs) m (IsFresh-IsRunning m h))

  quiesced-IsOver :
      (c : Config) (mode : Bool) (channels docs : List Bytes) (x : Option ℕ) (m : Machine)
      → IsFresh m
      → IsOver (quiesced env x (steps env c mode channels docs) m)
  unfolding saves
  quiesced-IsOver c mode channels docs (some e) m h = failed-IsOver _ m h
  quiesced-IsOver c mode channels docs none m h =
      release-IsOver
        (steps env c mode channels docs (record m { events = m.events ++ stopped_brain ∷ [] }))
        (steps-IsOver c mode channels docs (record m { events = m.events ++ stopped_brain ∷ [] })
          (saves-append m.events (stopped_brain ∷ []) ∙ rw h.0, h.1, h.2))

  work-IsOver :
      (c : Config) (mode : Bool) (channels docs : List Bytes) (m : Machine)
      → IsFresh m
      → IsOver (work env c mode channels docs m)
  unfolding work
  work-IsOver c mode channels docs m h =
      if_both IsOver (c.quiesce && env.has_docker)
        (quiesced env env.stop_error (steps env c mode channels docs) m)
        (steps env c mode channels docs m)
        (λ e. quiesced-IsOver c mode channels docs env.stop_error m h)
        (λ e. steps-IsOver c mode channels docs m h)

  choose-IsOver :
      (a b : Bool) (m rest : Machine) → IsFresh m → IsOver rest → IsOver (choose env a b m rest)
  choose-IsOver true b m rest h k = save_success-IsOver (skip_with env no_upstream m) h.0 h.1 refl
  choose-IsOver false true m rest h k = h.0 ∙ rw h.1
  choose-IsOver false false m rest h k = k

  decide-IsOver :
      (c : Config) (mode : Bool) (channels docs : List Bytes) (m : Machine)
      → IsFresh m
      → IsOver (decide env c mode channels docs m)
  unfolding decide
  decide-IsOver c mode channels docs m h =
      choose-IsOver (not (is_mail_present env mode channels) && is_nil docs)
        (should_skip env c (newest_pack env c mode (corpus_nano env mode))) (with_mail env mode m)
        (work env c mode channels docs (with_mail env mode m)) h
        (work-IsOver c mode channels docs (with_mail env mode m) h)

  with_docs-IsOver :
      (c : Config) (mode : Bool) (channels : List Bytes) (m : Machine) (r : ℕ ⊎ List Bytes)
      → IsFresh m
      → IsOver (with_docs env c mode channels m r)
  with_docs-IsOver c mode channels m (inl e) h = failed-IsOver _ m h
  with_docs-IsOver c mode channels m (inr docs) h =
      decide-IsOver c mode channels docs
        (record m { report = record m.report { doc_partitions = docs } }) h

  with_channels-IsOver :
      (c : Config) (mode : Bool) (m : Machine) (r : ℕ ⊎ List Bytes)
      → IsFresh m
      → IsOver (with_channels env c mode m r)
  with_channels-IsOver c mode m (inl e) h = failed-IsOver _ m h
  with_channels-IsOver c mode m (inr channels) h =
      with_docs-IsOver c mode channels
        (record m { report = record m.report { channels = channels } }) (found_docs env c) h

  -- A cycle saves exactly once: the error that it reports, or, without one, a success; only a cycle
  -- that is skipped because the database is newer saves nothing.
  pub saves-cycle :
      (c : Config)
      → saves (cycle env c).events
        ≡ called_for (cycle env c).report.err (cycle env c).report.skipped
  unfolding cycle saves
  saves-cycle c =
      with_channels-IsOver c (is_corpus_mail c) (start_of env c)
        (found_channels env c (is_corpus_mail c)) (refl, refl, refl)
