-- ===== src/Metrics/Success.antt =====
-- The time of a job's last success, over any sequence of its runs.
use mathlib.Core.Path.{subst}
use b8mon.Base.{
  ℕ, suc, ◌+◌, ◌-◌, String, ◌≡◌, refl, ◌∙◌, ap, Bool, false, Option, none, some, List, [], ◌∷◌,
  ◌++◌, arith, string_eq, ==_refl, if◌then◌else◌, is_some, is_empty, length, ◌&&◌,
}
use b8mon.Metrics.{
  success, failure, degraded, Registry, emit, emit_all, Ending, errors_of, record_return,
  instrumented_run, observe, no_samples,
}

-- a run of a job that is of no type in particular, and its two readings of the clock
pub record Run : Type 0 where
  pub started : ℕ
  pub ended : ℕ
  pub ending : Ending (Unit {0})

pub run_all : String → List Run → Registry → Registry
run_all name [] r = r
run_all name (x ∷ xs) r = run_all name xs (instrumented_run name x.started x.ended x.ending r).1

-- it returns, and logged no error
abbrev pub is_clean : Run → Bool
is_clean x = is_some x.ending.result && is_empty x.ending.logged

-- when the last of the runs that is clean ended
abbrev pub last_clean : Option ℕ → List Run → Option ℕ
last_clean before [] = before
last_clean before (x ∷ xs) = last_clean (if is_clean x then some x.ended else before) xs

total : String → Registry → ℕ
total name r = r.runs name success + r.runs name failure + r.runs name degraded

snoc_not_empty : (bucket : List String) (m : String) → is_empty (bucket ++ m ∷ []) ≡ false
snoc_not_empty [] m = refl
snoc_not_empty (b ∷ bs) m = refl

errors-empty :
    (bucket ms : List String)
    → is_empty (errors_of (emit_all (some bucket) ms)) ≡ (is_empty bucket && is_empty ms)
unfolding emit_all emit
errors-empty bucket [] = ground arith
errors-empty bucket (m ∷ ms) =
    ground (arith, errors-empty (bucket ++ m ∷ []) ms, snoc_not_empty bucket m)

-- what a run that ends like this leaves
abbrev Once : String → Bool → ℕ → Registry → Registry → Type 0
Once name clean ended r r' =
    (r'.last_success name ≡ (if clean then some ended else r.last_success name))
    × (total name r' ≡ suc (total name r))

record_return-Once :
    (name : String) (seconds ended : ℕ) (errors : List String) (r : Registry)
    → Once name (is_empty errors) ended r (record_return name ended errors (observe name seconds r))
unfolding total
record_return-Once name seconds ended [] r = rw (==_refl {A = String} name) (refl, omega arith)
record_return-Once name seconds ended (e ∷ es) r =
    rw (==_refl {A = String} name) (refl, omega arith)

-- One run counts once, and sets the time of the last success exactly if it is clean.
instrumented_run-Once :
    (name : String) (started ended : ℕ) (logged : List String) (result : Option (Unit {0}))
    (r : Registry)
    → Once name
        (is_some result && is_empty logged)
        ended
        r
        (instrumented_run name started ended (record { logged = logged; result = result }) r).1
unfolding instrumented_run total
instrumented_run-Once name started ended logged none r =
    rw (==_refl {A = String} name) (refl, omega arith)
instrumented_run-Once name started ended logged (some a) r =
    let errors = errors_of (emit_all (some []) logged) in
    subst
      (λ b.
        Once name b ended r (record_return name ended errors (observe name (ended - started) r)))
      (errors-empty [] logged) (record_return-Once name (ended - started) ended errors r)

abbrev Recorded : String → List Run → Registry → Type 0
Recorded name xs r =
    let r' = run_all name xs r in
    (r'.last_success name ≡ last_clean (r.last_success name) xs)
    × (total name r' ≡ total name r + length xs)

run_all-Recorded : (name : String) (xs : List Run) (r : Registry) → Recorded name xs r
unfolding run_all
run_all-Recorded name [] r = (refl, omega arith)
run_all-Recorded name (x ∷ xs) r =
    let (set, counted) =
      instrumented_run-Once name x.started x.ended x.ending.logged x.ending.result r in
    let next = (instrumented_run name x.started x.ended x.ending r).1 in
    let (last, total_after) = run_all-Recorded name xs next in
    (last ∙ ap (λ t. last_clean t xs) set, omega (arith, counted, total_after))

-- After any sequence of a job's runs, the time of its last success is when the last run ended that
-- neither raised nor logged an error, if there was one.
pub last_success-last_clean :
    (name : String) (xs : List Run)
    → (run_all name xs no_samples).last_success name ≡ last_clean none xs
last_success-last_clean name xs = (run_all-Recorded name xs no_samples).0

-- As many samples are counted, over the three outcomes, as there were runs.
pub total-length :
    (name : String) (xs : List Run)
    → let r = run_all name xs no_samples in
      r.runs name success + r.runs name failure + r.runs name degraded ≡ length xs
unfolding total
total-length name xs = omega (arith, (run_all-Recorded name xs no_samples).1)
