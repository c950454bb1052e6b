-- ===== src/IndexSync/Brain.antt =====
-- When the brain is stopped and released in a cycle of internal/indexsync/indexsync.go.
use dph.Base.{
  ℕ, ◌≡◌, refl, ◌∙◌, ap, ◌⊎◌, inl, inr, Bool, true, false, not, ◌&&◌, Option, none, some, List, [],
  ◌∷◌, ◌++◌, Bool-cases, if_both,
}
use dph.Base.Text.{Bytes}
use dph.IndexSync.Setup.{
  Config, Env, Event, stopped_brain, released_brain, saved_success, saved_error, ran, Command,
  Failure, Machine, is_corpus_mail, newest_pack, should_skip, is_nil,
}
use dph.IndexSync.Cycle.{
  fail, tool_done, has_failed, run_tool, run_tools, finish, steps, quiesced, work, choose,
  with_mail, corpus_nano, is_mail_present, decide, with_docs, with_channels, found_docs,
  found_channels, start_of, cycle, save_success,
}

-- Whether the brain was released, and not stopped since, after an event; none where the event may
-- not happen: a stop of a stopped brain, a release of one that is not stopped, and a tool while it is
-- not stopped.
abbrev pub after_event : Option Bool → Event → Option Bool
after_event none e = none
after_event (some true) stopped_brain = some false
after_event (some true) released_brain = none
after_event (some true) (ran cmd) = none
after_event (some true) saved_success = some true
after_event (some true) (saved_error f) = some true
after_event (some false) stopped_brain = none
after_event (some false) released_brain = some true
after_event (some false) (ran cmd) = some false
after_event (some false) saved_success = some false
after_event (some false) (saved_error f) = some false

unfoldable pub brain_after : Option Bool → List Event → Option Bool
brain_after up [] = up
brain_after up (e ∷ es) = brain_after (after_event up e) es

brain_after-concat :
    (es : List Event) (up : Option Bool) (e : Event)
    → brain_after up (es ++ e ∷ []) ≡ after_event (brain_after up es) e
unfolding brain_after
brain_after-concat [] up e = refl
brain_after-concat (x ∷ es) up e = brain_after-concat es (after_event up x) e

abbrev IsUp : Bool → Machine → Type 0
IsUp up m = brain_after (some true) m.events ≡ some up

then_event :
    (es : List Event) (up : Bool) (e : Event)
    → brain_after (some true) es ≡ some up
    → brain_after (some true) (es ++ e ∷ []) ≡ after_event (some up) e
then_event es up e h = brain_after-concat es (some true) e ∙ rw h

fail-IsUp : (up : Bool) (f : Failure) (m : Machine) → IsUp up m → IsUp up (fail f m)
unfolding fail
fail-IsUp true f m h = then_event m.events true (saved_error f) h
fail-IsUp false f m h = then_event m.events false (saved_error f) h

save_success-IsUp : (up : Bool) (m : Machine) → IsUp up m → IsUp up (save_success m)
save_success-IsUp true m h = then_event m.events true saved_success h
save_success-IsUp false m h = then_event m.events false saved_success h

tool_done-IsUp :
    (cmd : Command) (m : Machine) (x : Option ℕ) → IsUp false m → IsUp false (tool_done cmd m x)
tool_done-IsUp cmd m none h = h
tool_done-IsUp cmd m (some e) h = fail-IsUp false _ m h

module _ (env : Env) where
  run_tool-IsUp : (m : Machine) (cmd : Command) → IsUp false m → IsUp false (run_tool env m cmd)
  unfolding run_tool
  run_tool-IsUp m cmd h = elim (Bool-cases (has_failed m.report.err)) [
    | inl e ↦ rw e h
    | inr e ↦ rw e (
        tool_done-IsUp cmd (record m { events = m.events ++ ran cmd ∷ [] }) (env.run m.events cmd)
          (then_event m.events false (ran cmd) h))
  ]

  run_tools-IsUp :
      (cmds : List Command) (m : Machine) → IsUp false m → IsUp false (run_tools env m cmds)
  unfolding run_tools
  run_tools-IsUp [] m h = h
  run_tools-IsUp (cmd ∷ cmds) m h = run_tools-IsUp cmds (run_tool env m cmd) (run_tool-IsUp m cmd h)

  finish-IsUp : (m : Machine) → IsUp false m → IsUp false (finish m)
  finish-IsUp m h = elim (Bool-cases (has_failed m.report.err)) [
    | inl e ↦ rw e h
    | inr e ↦ rw e (save_success-IsUp false m h)
  ]

  quiesced-IsUp :
      (c : Config) (mode : Bool) (channels docs : List Bytes) (x : Option ℕ) (m : Machine)
      → IsUp true m
      → IsUp true (quiesced env x (steps env c mode channels docs) m)
  quiesced-IsUp c mode channels docs (some e) m h = fail-IsUp true _ m h
  quiesced-IsUp c mode channels docs none m h =
      let start = record m { events = m.events ++ stopped_brain ∷ [] } in
      then_event _ false released_brain
        (finish-IsUp _ (run_tools-IsUp _ start (then_event m.events true stopped_brain h)))

  module _ (c : Config) (quiet : c.quiesce ≡ true) (docker : env.has_docker ≡ true) where
    work-IsUp :
        (mode : Bool) (channels docs : List Bytes) (m : Machine)
        → IsUp true m
        → IsUp true (work env c mode channels docs m)
    unfolding work
    work-IsUp mode channels docs m h =
        if_both (IsUp true) (c.quiesce && env.has_docker) _ _
          (λ e. quiesced-IsUp c mode channels docs env.stop_error m h)
          (λ e. cc (ap (λ b. b && env.has_docker) quiet, docker, e))

    choose-IsUp :
        (a b : Bool) (m rest : Machine)
        → IsUp true m
        → IsUp true rest
        → IsUp true (choose env a b m rest)
    choose-IsUp true b m rest h k = save_success-IsUp true m h
    choose-IsUp false true m rest h k = h
    choose-IsUp false false m rest h k = k

    decide-IsUp :
        (mode : Bool) (channels docs : List Bytes) (m : Machine)
        → IsUp true m
        → IsUp true (decide env c mode channels docs m)
    unfolding decide
    decide-IsUp mode channels docs m h =
        choose-IsUp (not (is_mail_present env mode channels) && is_nil docs)
          (should_skip env c (newest_pack env c mode (corpus_nano env mode))) (with_mail env mode m)
          (work env c mode channels docs (with_mail env mode m)) h
          (work-IsUp mode channels docs (with_mail env mode m) h)

    with_docs-IsUp :
        (mode : Bool) (channels : List Bytes) (m : Machine) (r : ℕ ⊎ List Bytes)
        → IsUp true m
        → IsUp true (with_docs env c mode channels m r)
    with_docs-IsUp mode channels m (inl e) h = fail-IsUp true _ m h
    with_docs-IsUp mode channels m (inr docs) h = decide-IsUp mode channels docs _ h

    with_channels-IsUp :
        (mode : Bool) (m : Machine) (r : ℕ ⊎ List Bytes)
        → IsUp true m
        → IsUp true (with_channels env c mode m r)
    with_channels-IsUp mode m (inl e) h = fail-IsUp true _ m h
    with_channels-IsUp mode m (inr channels) h = with_docs-IsUp mode channels _ (found_docs env c) h

    -- With quiescing on and a client for containers, whatever fails: each tool runs while the brain
    -- is stopped, the brain is stopped at most while it is up, and it is released in the end.
    pub cycle_brain : brain_after (some true) (cycle env c).events ≡ some true
    unfolding cycle brain_after
    cycle_brain =
        with_channels-IsUp (is_corpus_mail c) (start_of env c)
          (found_channels env c (is_corpus_mail c)) refl
