-- ===== src/Updater/Restart.antt =====
-- What has happened before an update restarts the containers, by the names of the steps.
use mathlib.Core.Path.{ap₂}
use b8mon.Base.{
  String, ◌≡◌, refl, ap, ◌⊎◌, inl, inr, ◌∙◌, Bool, true, false, Option, some, none, List, [], ◌∷◌,
  ◌++◌, map, string_eq, ◌==◌, if◌then◌else◌, Bool-cases,
}
use b8mon.Updater.{
  Result, ok, raises, Act, StepStatus, pending, running, done, failed, Step, finished, broken,
  UpdateState, new_step, new_state, change_step, begin, succeed, run_steps, run_update,
}
use b8mon.Updater.Context.{Ctx}
use b8mon.Updater.Steps.{
  default_steps, step_preflight, step_backup, step_pull, step_build, step_migrate, step_restart,
}
use b8mon.Updater.Chain.{
  names_of, statuses, execute, all_done, Result-cases, default_steps-Distinct, run_update-execute,
}

-- the status of the step with a name
abbrev pub status_of : String → List Step → Option StepStatus
status_of name [] = none
status_of name (s ∷ ss) = if s.name == name then some s.status else status_of name ss

abbrev step_names : List Step → List String
step_names = map (λ s. s.name)

abbrev pick : String → List String → List StepStatus → Option StepStatus
pick name (n ∷ ns) (x ∷ xs) = if n == name then some x else pick name ns xs
pick name [] xs = none
pick name (n ∷ ns) [] = none

status_of-pick :
    (name : String) (ss : List Step) → status_of name ss ≡ pick name (step_names ss) (statuses ss)
status_of-pick name [] = refl
status_of-pick name (s ∷ ss) = elim (Bool-cases (s.name == name)) [
  | inl y ↦ rw y refl
  | inr n ↦ rw n (status_of-pick name ss)
]

step_names-change_step :
    (name : String) (f : Step → Step) (ss : List Step)
    → ((s : Step) → (f s).name ≡ s.name)
    → step_names (change_step name f ss) ≡ step_names ss
step_names-change_step name f [] same = refl
step_names-change_step name f (s ∷ ss) same = elim (Bool-cases (s.name == name)) [
  | inl y ↦ rw y (ap (λ n. n ∷ step_names ss) (same s))
  | inr n ↦ rw n (ap (λ l. s.name ∷ l) (step_names-change_step name f ss same))
]

module _ {M : Type 0} (now : M → String × M) where
  step_names-run_steps :
      (steps : List (String × Act M String)) (state : UpdateState) (written : List UpdateState)
      (m : M)
      → step_names (run_steps now steps state written m).state.steps ≡ step_names state.steps
  unfolding run_steps
  step_names-run_steps [] state written m = refl
  step_names-run_steps ((n, fn) ∷ steps) state written m =
      let started = begin n state in
      let begun =
        step_names-change_step n (λ x. record x { status = running }) state.steps (λ s. refl) in
      elim (Result-cases (fn m).0) [
        | inl (detail, p) ↦
            let after = succeed n detail started in
            rw (p, run_steps)
              (step_names-run_steps steps after (written ++ started ∷ after ∷ []) (fn m).1
                ∙ step_names-change_step n (λ x. record x { detail = some detail; status = done })
                    started.steps (λ s. refl)
                ∙ begun)
        | inr (text, p) ↦
            rw (p, run_steps)
              (step_names-change_step n (λ x. record x { status = failed }) started.steps
                  (λ s. refl)
                ∙ begun)
      ]

  names_of_new :
      (steps : List (String × Act M String))
      → step_names (map new_step (names_of steps)) ≡ names_of steps
  names_of_new [] = refl
  names_of_new (s ∷ steps) = ap (λ l. s.0 ∷ l) (names_of_new steps)

  step_names-run_update :
      (run_id : String) (steps : List (String × Act M String)) (m : M)
      → step_names (run_update now run_id steps m).state.steps ≡ names_of steps
  unfolding run_update
  step_names-run_update run_id steps m =
      let (time, m') = now m in
      let state = new_state run_id (names_of steps) time in
      step_names-run_steps steps state (state ∷ []) m' ∙ names_of_new steps

abbrev pub returns : {A : Type 0} → Result A → Bool
returns (ok a) = true
returns (raises text) = false

module _ {M : Type 0} (ctx : Ctx M) where
  -- the machine after each step
  abbrev pub checked : M → M
  checked m = (step_preflight ctx m).1

  abbrev pub dumped : M → M
  dumped m = (step_backup ctx (checked m)).1

  abbrev pub pulled : M → M
  pulled m = (step_pull ctx (dumped m)).1

  abbrev pub built : M → M
  built m = (step_build ctx (pulled m)).1

  abbrev pub migrated : M → M
  migrated m = (step_migrate ctx (built m)).1

  -- the five steps before the restart have returned, each on the machine that the one before it left
  abbrev pub IsPrepared : M → Type 0
  IsPrepared m =
      (returns (step_preflight ctx m).0 ≡ true)
      × (returns (step_backup ctx (checked m)).0 ≡ true)
      × (returns (step_pull ctx (dumped m)).0 ≡ true)
      × (returns (step_build ctx (pulled m)).0 ≡ true)
      × (returns (step_migrate ctx (built m)).0 ≡ true)

  -- the restart waits and the update has failed, or it ran after all the others
  abbrev Follows : M → List StepStatus × M → Type 0
  Follows m (outcome, m') =
      ((pick "restart" (names_of (default_steps ctx)) outcome ≡ some pending)
        × (all_done outcome ≡ false))
      ⊎ (IsPrepared m × (m' ≡ (step_restart ctx (migrated m)).1))

  execute-Follows : (m : M) → Follows m (execute (default_steps ctx) m)
  execute-Follows m = elim (Result-cases (step_preflight ctx m).0) [
    | inr (t, p) ↦ rw (p, execute) (inl (refl, refl))
    | inl (d1, p1) ↦ elim (Result-cases (step_backup ctx (checked m)).0) [
      | inr (t, p) ↦ rw (p1, p, execute) (inl (refl, refl))
      | inl (d2, p2) ↦ elim (Result-cases (step_pull ctx (dumped m)).0) [
        | inr (t, p) ↦ rw (p1, p2, p, execute) (inl (refl, refl))
        | inl (d3, p3) ↦ elim (Result-cases (step_build ctx (pulled m)).0) [
          | inr (t, p) ↦ rw (p1, p2, p3, p, execute) (inl (refl, refl))
          | inl (d4, p4) ↦ elim (Result-cases (step_migrate ctx (built m)).0) [
            | inr (t, p) ↦ rw (p1, p2, p3, p4, p, execute) (inl (refl, refl))
            | inl (d5, p5) ↦ elim (Result-cases (step_restart ctx (migrated m)).0) [
              | inr (t, p) ↦
                  rw (p1, p2, p3, p4, p5, p, execute) (inr ((refl, refl, refl, refl, refl), refl))
              | inl (d6, p) ↦
                  rw (p1, p2, p3, p4, p5, p, execute) (inr ((refl, refl, refl, refl, refl), refl))
            ]
          ]
        ]
      ]
    ]
  ]

  -- An update with the default steps runs the restart only after the preflight checks, the dump, the
  -- pull, the build and the migration have returned, in this order and each on the machine that the
  -- one before it left; the machine is then as the restart left it, apart from the last reading of
  -- the clock. Otherwise the step named "restart" is still pending, and the update has failed.
  pub run_update-restart :
      (run_id : String) (m : M)
      → let r = run_update ctx.now run_id (default_steps ctx) m in
        let started = (ctx.now m).1 in
        ((status_of "restart" r.state.steps ≡ some pending) × (r.state.status ≡ broken))
        ⊎ (IsPrepared started × (r.machine ≡ (ctx.now (step_restart ctx (migrated started)).1).1))
  run_update-restart run_id m =
      let r = run_update ctx.now run_id (default_steps ctx) m in
      let (outcome, ended, machine) =
        run_update-execute ctx.now run_id (default_steps ctx) m (default_steps-Distinct ctx) in
      elim (execute-Follows (ctx.now m).1) [
        | inl (waits, not_all) ↦ inl (
          (status_of-pick "restart" r.state.steps
              ∙ ap₂ (pick "restart") (step_names-run_update ctx.now run_id (default_steps ctx) m)
                  outcome
              ∙ waits),
          (ended ∙ ap (λ b. if b then finished else broken) not_all),
        )
        | inr (prepared, left) ↦ inr (prepared, machine ∙ ap (λ x. (ctx.now x).1) left)
      ]
