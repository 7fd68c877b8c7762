-- ===== src/Updater/Chain.antt =====
-- The chain of steps: the first failure ends it, and the state tells which steps ran.
use mathlib.Core.List.{append_assoc}
use b8mon.Base.{
  String, ◌≡◌, refl, sym, ap, ◌⊎◌, inl, inr, ◌∙◌, Bool, true, false, ◌||◌, some, List, [], ◌∷◌,
  ◌++◌, map, arith, string_eq, ◌==◌, ==_refl, if◌then◌else◌, contains, All,
}
use b8mon.Updater.{
  Result, ok, raises, Act, StepStatus, pending, running, done, failed, Step, finished, broken,
  UpdateState, new_step, new_state, change_step, begin, succeed, Report, run_steps, run_update,
}
use b8mon.Updater.Context.{Ctx}
use b8mon.Updater.Steps.{default_steps}

abbrev pub names_of : {M : Type 0} → List (String × Act M String) → List String
names_of = map (λ s. s.0)

abbrev pub statuses : List Step → List StepStatus
statuses = map (λ s. s.status)

-- What the chain promises: each step starts on the machine that the one before it left, and after a
-- failure none starts.
abbrev pub execute : {M : Type 0} → List (String × Act M String) → M → List StepStatus × M
execute [] m = ([], m)
execute ((name, fn) ∷ steps) m = elim (fn m).0 [
  | ok detail ↦ (done ∷ (execute steps (fn m).1).0, (execute steps (fn m).1).1)
  | raises text ↦ (failed ∷ map (λ s. pending) steps, (fn m).1)
]

abbrev pub all_done : List StepStatus → Bool
all_done [] = true
all_done (done ∷ ss) = all_done ss
all_done (_ ∷ ss) = false

-- no two steps with one name
abbrev pub Distinct : List String → Type 0
Distinct [] = Unit {0}
Distinct (n ∷ ns) = (contains n ns ≡ false) × Distinct ns

-- the steps before the chain's present one have other names
abbrev Apart : List Step → List String → Type 0
Apart before names = All (λ s. contains s.name names ≡ false) before

change_step-at :
    (n : String) (f : Step → Step) (before rest : List Step) (x : Step) (names : List String)
    → x.name ≡ n
    → Apart before (n ∷ names)
    → change_step n f (before ++ x ∷ rest) ≡ before ++ f x ∷ rest
change_step-at n f [] rest x names e a = rw (e, ==_refl {A = String} n) refl
change_step-at n f (s ∷ before) rest x names e (h, a) =
    rw (other (s.name == n) (contains s.name names) h)
      (ap (λ l. s ∷ l) (change_step-at n f before rest x names e a))
  where
    other : (a b : Bool) → (a || b) ≡ false → a ≡ false
    other a b h = ground arith

statuses-append :
    (before rest : List Step) → statuses (before ++ rest) ≡ statuses before ++ statuses rest
statuses-append [] rest = refl
statuses-append (s ∷ before) rest = ap (λ l. s.status ∷ l) (statuses-append before rest)

statuses-new :
    {M : Type 0} (steps : List (String × Act M String))
    → statuses (map new_step (names_of steps)) ≡ map (λ s. pending) steps
statuses-new [] = refl
statuses-new (s ∷ steps) = ap (λ l. pending ∷ l) (statuses-new steps)

Apart-tail :
    (before : List Step) (n : String) (names : List String)
    → Apart before (n ∷ names)
    → Apart before names
Apart-tail [] n names a = tt
Apart-tail (s ∷ before) n names (h, a) = (tail (s.name == n) _ h, Apart-tail before n names a)
  where
    tail : (a b : Bool) → (a || b) ≡ false → b ≡ false
    tail a b h = ground arith

Apart-snoc :
    (before : List Step) (x : Step) (names : List String)
    → Apart before names
    → contains x.name names ≡ false
    → Apart (before ++ x ∷ []) names
Apart-snoc [] x names a h = (h, tt)
Apart-snoc (s ∷ before) x names (g, a) h = (g, Apart-snoc before x names a h)

pub Result-cases :
    {A : Type 0} (r : Result A) → ((a : A) × (r ≡ ok a)) ⊎ ((text : String) × (r ≡ raises text))
Result-cases (ok a) = inl (a, refl)
Result-cases (raises text) = inr (text, refl)

module _ {M : Type 0} (now : M → String × M) where
  -- The report of a chain that starts after the steps `before`.
  record Chained (before : List Step) (promised : List StepStatus × M) (r : Report M) : Type 0 where
    outcome : statuses r.state.steps ≡ statuses before ++ promised.0
    ended : r.state.status ≡ (if all_done promised.0 then finished else broken)
    machine : r.machine ≡ (now promised.1).1

  run_steps-Chained :
      (before : List Step) (steps : List (String × Act M String)) (state : UpdateState)
      (written : List UpdateState) (m : M)
      → state.steps ≡ before ++ map new_step (names_of steps)
      → Apart before (names_of steps)
      → Distinct (names_of steps)
      → Chained before (execute steps m) (run_steps now steps state written m)
  unfolding run_steps
  run_steps-Chained before [] state written m e a d = record {
    outcome = ap statuses e ∙ statuses-append before [];
    ended = refl;
    machine = refl;
  }
  run_steps-Chained before ((n, fn) ∷ steps) state written m e a (absent, d) =
      elim (Result-cases (fn m).0) [
        | inl (detail, p) ↦
            let after = record present { detail = some detail; status = done } in
            let rest =
              run_steps-Chained (before ++ after ∷ []) steps (succeed n detail started)
                (written ++ started ∷ succeed n detail started ∷ []) (fn m).1
                (ap (change_step n (λ x. record x { detail = some detail; status = done })) begun
                  ∙ change_step-at n _ before (map new_step names) present names refl a
                  ∙ sym (append_assoc before (after ∷ []) (map new_step names)))
                (Apart-snoc before after names (Apart-tail before n names a) absent) d in
            rw (p, run_steps, execute)
              (record {
                outcome =
                    (rest.outcome
                      ∙ ap (λ l. l ++ (execute steps (fn m).1).0)
                          (statuses-append before (after ∷ []))
                      ∙ append_assoc (statuses before) (done ∷ []) (execute steps (fn m).1).0);
                ended = rest.ended;
                machine = rest.machine;
              })
        | inr (text, p) ↦
            rw (p, run_steps, execute)
              (record {
                outcome =
                    (ap statuses (
                        ap (change_step n (λ x. record x { status = failed })) begun
                        ∙ change_step-at n _ before (map new_step names) present names refl a)
                      ∙ statuses-append before _
                      ∙ ap (λ l. statuses before ++ failed ∷ l) (statuses-new steps));
                ended = refl;
                machine = refl;
              })
      ]
    where
      names : List String
      names = names_of steps

      started : UpdateState
      started = begin n state

      present : Step
      present = record (new_step n) { status = running }

      begun : started.steps ≡ before ++ present ∷ map new_step names
      begun =
          ap (change_step n (λ x. record x { status = running })) e
          ∙ change_step-at n _ before (map new_step names) (new_step n) names refl a

  -- For steps with different names, whatever they do: the final state marks as done exactly the
  -- steps that returned, as failed the first that raised, and the others as pending; it is finished
  -- if and only if none failed; and the machine is as the steps that ran have left it, apart from
  -- the two readings of the clock.
  pub run_update-execute :
      (run_id : String) (steps : List (String × Act M String)) (m : M)
      → Distinct (names_of steps)
      → let r = run_update now run_id steps m in
        let (outcome, m') = execute steps (now m).1 in
        (statuses r.state.steps ≡ outcome)
        × (r.state.status ≡ (if all_done outcome then finished else broken))
        × (r.machine ≡ (now m').1)
  unfolding run_update
  run_update-execute run_id steps m d =
      let (time, m') = now m in
      let state = new_state run_id (names_of steps) time in
      let c = run_steps-Chained [] steps state (state ∷ []) m' refl tt d in
      (c.outcome, c.ended, c.machine)

pub default_steps-Distinct : {M : Type 0} (ctx : Ctx M) → Distinct (names_of (default_steps ctx))
default_steps-Distinct ctx = (refl, (refl, (refl, (refl, (refl, (refl, tt))))))
