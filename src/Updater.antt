-- ===== src/Updater.antt =====
-- sidecar/orchestrator.py: the update of a running installation, a chain of steps that ends at the
-- first failure. The machine that the steps work on is a type `M`; the functions of `Ctx` that the
-- caller injects, and those of the module `os`, are arguments. Log lines are left out.
pub mod Context
pub mod Steps
pub mod Chain
pub mod Restart
pub mod Backups
mod Tests
use b8mon.Base.{
  ℕ, zero, suc, ◌+◌, String, Bool, true, false, Option, none, some, List, [], ◌∷◌, ◌++◌, map,
  string_eq, ◌==◌, if◌then◌else◌, f_string, suffix,
}

-- A value, or an exception with its text.
pub data Result (A : Type 0) : Type 0 where
  ok : A → Result A
  raises : String → Result A

abbrev pub Act : Type 0 → Type 0 → Type 0
Act M A = M → Result A × M

infixl 5 ◌>>=◌ ◌>>◌
abbrev pub ◌>>=◌ : {M A B : Type 0} → Act M A → (A → Act M B) → Act M B
◌>>=◌ m f s = elim (m s).0 [ ok a ↦ f a (m s).1 | raises e ↦ (raises e, (m s).1) ]

abbrev pub ◌>>◌ : {M A B : Type 0} → Act M A → Act M B → Act M B
m >> k = m >>= λ _. k

abbrev pub pure : {M A : Type 0} → A → Act M A
pure a s = (ok a, s)

-- `raise StepError(text)`
abbrev pub raise : {M A : Type 0} → String → Act M A
raise text s = (raises text, s)

-- `if bad: raise StepError(text)`
abbrev pub raise_if : {M : Type 0} → Bool → String → Act M (Unit {0})
raise_if true text s = (raises text, s)
raise_if false text s = (ok tt, s)

pub data StepStatus : Type 0 where
  pending running done failed : StepStatus

pub record Step : Type 0 where
  pub name : String
  pub status : StepStatus
  pub detail : Option String

pub data UpdateStatus : Type 0 where
  in_progress finished broken : UpdateStatus

pub record UpdateState : Type 0 where
  pub run_id : String
  pub status : UpdateStatus
  pub step : Option String
  pub steps : List Step
  pub started_at : String
  pub finished_at : Option String
  pub error : Option String

abbrev pub max_error_chars : ℕ
max_error_chars = 500

abbrev pub new_step : String → Step
new_step name = record { name = name; status = pending; detail = none }

-- `UpdateState.new`
abbrev pub new_state : String → List String → String → UpdateState
new_state run_id names started_at = record {
  run_id = run_id;
  status = in_progress;
  step = none;
  steps = map new_step names;
  started_at = started_at;
  finished_at = none;
  error = none;
}

-- an assignment to a field of `state.by_name(name)`, the first step of that name
abbrev pub change_step : String → (Step → Step) → List Step → List Step
change_step name f [] = []
change_step name f (s ∷ ss) = if s.name == name then f s ∷ ss else s ∷ change_step name f ss

abbrev pub begin : String → UpdateState → UpdateState
begin name s = record s {
  step = some name;
  steps = change_step name (λ x. record x { status = running }) s.steps;
}

abbrev pub succeed : String → String → UpdateState → UpdateState
succeed name detail s = record s {
  steps = change_step name (λ x. record x { detail = some detail; status = done }) s.steps;
}

abbrev pub fail : String → String → String → UpdateState → UpdateState
fail name text finished_at s = record s {
  steps = change_step name (λ x. record x { status = failed }) s.steps;
  status = broken;
  error = some (f_string (name ∷ ": " ∷ suffix max_error_chars text ∷ []));
  finished_at = some finished_at;
}

abbrev pub complete : String → UpdateState → UpdateState
complete finished_at s = record s { step = none; status = finished; finished_at = some finished_at }

-- The final state, the states that `write_state` was given before and with it, and the machine.
-- A write that fails is only logged.
pub record Report (M : Type 0) : Type 0 where
  pub state : UpdateState
  pub written : List UpdateState
  pub machine : M

module _ {M : Type 0} (now : M → String × M) where
  abbrev pub StepFn : Type 0
  StepFn = Act M String

  pub run_steps : List (String × StepFn) → UpdateState → List UpdateState → M → Report M
  run_steps [] state written m =
      let (time, m') = now m in
      let last = complete time state in
      record { state = last; written = written ++ last ∷ []; machine = m' }
  run_steps ((name, fn) ∷ steps) state written m =
      let started = begin name state in
      elim (fn m).0 [
        | ok detail ↦
            let after = succeed name detail started in
            run_steps steps after (written ++ started ∷ after ∷ []) (fn m).1
        | raises text ↦
            let (time, m') = now (fn m).1 in
            let last = fail name text time started in
            record { state = last; written = written ++ started ∷ last ∷ []; machine = m' }
      ]

  pub run_update : String → List (String × StepFn) → M → Report M
  unfolding run_steps
  run_update run_id steps m =
      let (time, m') = now m in
      let state = new_state run_id (map (λ s. s.0) steps) time in
      run_steps steps state (state ∷ []) m'
