-- ===== src/IndexSync/Heeded.antt =====
-- The errors of the tools that `Cycle` of internal/indexsync/indexsync.go runs.
use dph.Base.{
  ℕ, ◌≡◌, refl, sym, ap, ◌∙◌, ◌⊎◌, inl, inr, true, Option, none, some, List, [], ◌∷◌, ◌++◌,
  Bool-cases,
}
use dph.IndexSync.Setup.{Env, Event, ran, Command, Machine}
use dph.IndexSync.Cycle.{fail, tool_done, has_failed, run_tool, run_tools}
use dph.IndexSync.Commands.{commands, commands-append, commands_quiet, is_quiet, not_failed}

-- An entry of a list with one more at its end: the last one, or one of those before.
snoc_cases :
    {A : Type 0} (es : List A) (x y : A) (before after : List A)
    → es ++ x ∷ [] ≡ before ++ y ∷ after
    → ((es ≡ before) × (x ≡ y) × (after ≡ []))
      ⊎ ((rest : List A) × (after ≡ rest ++ x ∷ []) × (es ≡ before ++ y ∷ rest))
snoc_cases [] x y [] after q = inl (refl, cc (q), cc (q))
snoc_cases [] x y (b ∷ []) after q = cc (q)
snoc_cases [] x y (b ∷ c ∷ bs) after q = cc (q)
snoc_cases (e ∷ es) x y [] after q = inr (es, cc (q), cc (q))
snoc_cases (e ∷ es) x y (b ∷ bs) after q =
    let tails : es ++ x ∷ [] ≡ bs ++ y ∷ after = cc (q) in
    elim (snoc_cases es x y bs after tails) [
      | inl (f, g, h) ↦ inl (cc (q, f), g, h)
      | inr (rest, g, h) ↦ inr (rest, g, cc (q, h))
    ]

module _ (env : Env) where
  -- After a tool that failed, no other was run.
  abbrev pub StopsAfterFailure : List Event → Type 0
  StopsAfterFailure es =
      (before after : List Event) (cmd : Command) (e : ℕ)
      → es ≡ before ++ ran cmd ∷ after
      → env.run before cmd ≡ some e
      → commands after ≡ []

  -- No tool failed.
  abbrev pub AllSucceed : List Event → Type 0
  AllSucceed es =
      (before after : List Event) (cmd : Command)
      → es ≡ before ++ ran cmd ∷ after
      → env.run before cmd ≡ none

  -- The first tool that failed was the last one, and none failed if there is no error.
  pub record Heeds (m : Machine) : Type 0 where
    pub stops : StopsAfterFailure m.events
    pub succeed : m.report.err ≡ none → AllSucceed m.events

  not_nil : {A : Type 0} (xs ys : List A) (y : A) → xs ++ y ∷ ys ≡ [] → ⊥
  not_nil [] ys y q = cc (q)
  not_nil (x ∷ xs) ys y q = cc (q)

  commands_ran :
      (before after : List Event) (cmd : Command)
      → commands (before ++ ran cmd ∷ after) ≡ commands before ++ cmd ∷ commands after
  unfolding commands
  commands_ran before after cmd = commands-append before (ran cmd ∷ after)

  not_ran :
      (es before after : List Event) (cmd : Command)
      → commands es ≡ []
      → es ≡ before ++ ran cmd ∷ after
      → ⊥
  not_ran es before after cmd h q =
      not_nil (commands before) (commands after) cmd
        (sym (commands_ran before after cmd) ∙ (sym (ap commands q) ∙ h))

  pub no_tool-Heeds : (m : Machine) → commands m.events ≡ [] → Heeds m
  no_tool-Heeds m h = record {
    stops = λ before after cmd e q r. absurd (not_ran m.events before after cmd h q);
    succeed = λ n before after cmd q. absurd (not_ran m.events before after cmd h q);
  }

  quiet_not_ran : (ev : Event) (cmd : Command) → is_quiet ev ≡ true → ev ≡ ran cmd → ⊥
  quiet_not_ran ev cmd h q = cc (sym h ∙ ap is_quiet q)

  quiet_stops :
      (es : List Event) (ev : Event)
      → is_quiet ev ≡ true
      → StopsAfterFailure es
      → StopsAfterFailure (es ++ ev ∷ [])
  quiet_stops es ev h s before after cmd e q r = elim (snoc_cases es ev (ran cmd) before after q) [
    | inl (f, g, k) ↦ absurd (quiet_not_ran ev cmd h g)
    | inr (rest, g, k) ↦ ap commands g ∙ (commands_quiet rest ev h ∙ s before rest cmd e k r)
  ]

  quiet_succeed :
      (es : List Event) (ev : Event)
      → is_quiet ev ≡ true
      → AllSucceed es
      → AllSucceed (es ++ ev ∷ [])
  quiet_succeed es ev h s before after cmd q = elim (snoc_cases es ev (ran cmd) before after q) [
    | inl (f, g, k) ↦ absurd (quiet_not_ran ev cmd h g)
    | inr (rest, g, k) ↦ s before rest cmd k
  ]

  pub quiet-Heeds :
      (m : Machine) (ev : Event)
      → is_quiet ev ≡ true
      → Heeds m
      → Heeds (record m { events = m.events ++ ev ∷ [] })
  quiet-Heeds m ev h s = record {
    stops = quiet_stops m.events ev h s.stops;
    succeed = λ n. quiet_succeed m.events ev h (s.succeed n);
  }

  ran_stops :
      (es : List Event) (cmd : Command) → AllSucceed es → StopsAfterFailure (es ++ ran cmd ∷ [])
  unfolding commands
  ran_stops es cmd s before after other e q r =
      elim (snoc_cases es (ran cmd) (ran other) before after q) [
        | inl (f, g, k) ↦ ap commands k
        | inr (rest, g, k) ↦ absurd (cc (s before rest other k, r))
      ]

  ran_succeed :
      (es : List Event) (cmd : Command)
      → AllSucceed es
      → env.run es cmd ≡ none
      → AllSucceed (es ++ ran cmd ∷ [])
  ran_succeed es cmd s x before after other q =
      elim (snoc_cases es (ran cmd) (ran other) before after q) [
        | inl (f, g, k) ↦ cc (f, g, x)
        | inr (rest, g, k) ↦ s before rest other k
      ]

  abbrev after_run : Machine → Command → Machine
  after_run m cmd = record m { events = m.events ++ ran cmd ∷ [] }

  done-Heeds :
      (m : Machine) (cmd : Command) (x : Option ℕ)
      → env.run m.events cmd ≡ x
      → AllSucceed m.events
      → Heeds (tool_done cmd (after_run m cmd) x)
  unfolding fail
  done-Heeds m cmd none q s = record {
    stops = ran_stops m.events cmd s;
    succeed = λ n. ran_succeed m.events cmd s q;
  }
  done-Heeds m cmd (some e) q s = record {
    stops = quiet_stops (m.events ++ ran cmd ∷ []) _ refl (ran_stops m.events cmd s);
    succeed = λ n. cc (n);
  }

  run_tool-Heeds : (cmd : Command) (m : Machine) → Heeds m → Heeds (run_tool env m cmd)
  unfolding run_tool
  run_tool-Heeds cmd m h = elim (Bool-cases (has_failed m.report.err)) [
    | inl e ↦ rw e h
    | inr e ↦
        rw e (done-Heeds m cmd (env.run m.events cmd) refl (h.succeed (not_failed m.report.err e)))
  ]

  pub run_tools-Heeds : (cmds : List Command) (m : Machine) → Heeds m → Heeds (run_tools env m cmds)
  unfolding run_tools
  run_tools-Heeds [] m h = h
  run_tools-Heeds (cmd ∷ cmds) m h =
      run_tools-Heeds cmds (run_tool env m cmd) (run_tool-Heeds cmd m h)
