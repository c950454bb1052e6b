-- ===== src/IndexSync/Commands.antt =====
-- The tools that a cycle of internal/indexsync/indexsync.go runs.
use dph.Base.{
  ℕ, ◌≡◌, refl, sym, ap, ◌∙◌, inl, inr, Bool, true, false, Option, none, some, List, [], ◌∷◌, ◌++◌,
  Bool-cases, Option-cases, append-nil, append_assoc,
}
use dph.IndexSync.Setup.{
  Env, Event, stopped_brain, released_brain, saved_success, saved_error, ran, Command, Failure,
  Machine,
}
use dph.IndexSync.Cycle.{fail, tool_done, has_failed, run_tool, run_tools}

unfoldable pub commands : List Event → List Command
commands [] = []
commands (ran cmd ∷ es) = cmd ∷ commands es
commands (saved_success ∷ es) = commands es
commands (saved_error f ∷ es) = commands es
commands (stopped_brain ∷ es) = commands es
commands (released_brain ∷ es) = commands es

pub commands-append : (es fs : List Event) → commands (es ++ fs) ≡ commands es ++ commands fs
unfolding commands
commands-append [] fs = refl
commands-append (ran cmd ∷ es) fs = ap (◌∷◌ cmd) (commands-append es fs)
commands-append (saved_success ∷ es) fs = commands-append es fs
commands-append (saved_error f ∷ es) fs = commands-append es fs
commands-append (stopped_brain ∷ es) fs = commands-append es fs
commands-append (released_brain ∷ es) fs = commands-append es fs

-- An event that is no run of a tool.
abbrev pub is_quiet : Event → Bool
is_quiet (ran cmd) = false
is_quiet saved_success = true
is_quiet (saved_error f) = true
is_quiet stopped_brain = true
is_quiet released_brain = true

quiet_none : (e : Event) → is_quiet e ≡ true → commands (e ∷ []) ≡ []
unfolding commands
quiet_none (ran cmd) h = cc
quiet_none saved_success h = refl
quiet_none (saved_error f) h = refl
quiet_none stopped_brain h = refl
quiet_none released_brain h = refl

pub commands_quiet :
    (es : List Event) (e : Event) → is_quiet e ≡ true → commands (es ++ e ∷ []) ≡ commands es
commands_quiet es e h = commands-append es (e ∷ []) ∙ rw (quiet_none e h) (append-nil (commands es))

-- After the tools `done` of the plan, from machine `m`: they were run in order, the others were not,
-- and without an error there are no others.
pub record Followed (plan : List Command) (m n : Machine) : Type 0 where
  pub done : List Command
  pub rest : List Command
  pub front : done ++ rest ≡ plan
  pub run : commands n.events ≡ commands m.events ++ done
  pub all : n.report.err ≡ none → rest ≡ []

pub not_failed : (o : Option Failure) → has_failed o ≡ false → o ≡ none
not_failed none e = refl
not_failed (some f) e = cc

module _ (env : Env) where
  run_tools_failed :
      (cmds : List Command) (m : Machine)
      → has_failed m.report.err ≡ true
      → run_tools env m cmds ≡ m
  unfolding run_tools run_tool
  run_tools_failed [] m h = refl
  run_tools_failed (cmd ∷ cmds) m h = rw h (run_tools_failed cmds m h)

  abbrev after_run : Machine → Command → Machine
  after_run m cmd = record m { events = m.events ++ ran cmd ∷ [] }

  commands_ran :
      (es : List Event) (cmd : Command) → commands (es ++ ran cmd ∷ []) ≡ commands es ++ cmd ∷ []
  unfolding commands
  commands_ran es cmd = commands-append es (ran cmd ∷ [])

  nothing_done :
      (cmds : List Command) (m : Machine) → has_failed m.report.err ≡ true → Followed cmds m m
  nothing_done cmds m h = record {
    done = [];
    rest = cmds;
    front = refl;
    run = sym (append-nil (commands m.events));
    all = λ e. cc (h, ap has_failed e);
  }

  one_done :
      (cmd : Command) (cmds : List Command) (m : Machine) (e : ℕ)
      → Followed (cmd ∷ cmds) m (tool_done cmd (after_run m cmd) (some e))
  unfolding fail
  one_done cmd cmds m e = record {
    done = cmd ∷ [];
    rest = cmds;
    front = refl;
    run = commands_quiet (m.events ++ ran cmd ∷ []) _ refl ∙ commands_ran m.events cmd;
    all = λ q. cc;
  }

  more_done :
      (cmd : Command) (cmds : List Command) (m n : Machine)
      → Followed cmds (tool_done cmd (after_run m cmd) none) n
      → Followed (cmd ∷ cmds) m n
  more_done cmd cmds m n f = record {
    done = cmd ∷ f.done;
    rest = f.rest;
    front = ap (◌∷◌ cmd) f.front;
    run =
        f.run
        ∙ ap (λ cs. cs ++ f.done) (commands_ran m.events cmd)
        ∙ append_assoc (commands m.events) (cmd ∷ []) f.done;
    all = f.all;
  }

  pub run_tools-Followed :
      (cmds : List Command) (m : Machine) → Followed cmds m (run_tools env m cmds)
  unfolding run_tools run_tool fail
  run_tools-Followed [] m = record {
    done = [];
    rest = [];
    front = refl;
    run = sym (append-nil (commands m.events));
    all = λ e. refl;
  }
  run_tools-Followed (cmd ∷ cmds) m = elim (Bool-cases (has_failed m.report.err)) [
    | inl e ↦ rw (e, run_tools_failed cmds m e) (nothing_done (cmd ∷ cmds) m e)
    | inr e ↦ elim (Option-cases (env.run m.events cmd)) [
      | inl q ↦
          rw (e, q)
            (more_done cmd cmds m _
              (run_tools-Followed cmds (tool_done cmd (after_run m cmd) none)))
      | inr (x, q) ↦
          rw (e, q, run_tools_failed cmds (tool_done cmd (after_run m cmd) (some x)) refl)
            (one_done cmd cmds m x)
    ]
  ]
