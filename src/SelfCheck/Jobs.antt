-- ===== src/SelfCheck/Jobs.antt =====
-- When a scheduled job is reported.
use b8mon.Base.{
  ℕ, ◌+◌, ◌*◌, String, ◌≡◌, true, false, ◌&&◌, Option, none, List, ◌∷◌, arith, ltb, leb, nat_eq,
  string_eq, is_some, contains,
}
use b8mon.Metrics.{no_samples}
use b8mon.Metrics.Success.{Run, run_all, last_clean, last_success-last_clean, total-length}
use b8mon.SelfCheck.{job_check_exclude, is_instrumented, job_problem}
use b8mon.SelfCheck.Checks.{reference_time, evaluate_job}

evaluate_job-some :
    (name : String) (last : Option ℕ) (now interval start : ℕ)
    → is_some (evaluate_job name last now interval start)
      ≡ (leb (start + interval * 3) now && ltb (reference_time last start + interval * 3) now)
unfolding evaluate_job
evaluate_job-some name last now interval start = ground arith

instrumented :
    (name : String) (x : Run) (xs : List Run)
    → is_instrumented (run_all name (x ∷ xs) no_samples) name ≡ true
instrumented name x xs = ground (arith, total-length name (x ∷ xs))

-- A job that has run at least once, and is not excluded, is reported exactly when three of its
-- intervals have passed since the start of the process and more than three since the end of its
-- last clean run, or since the start if it had none.
pub job_problem-overdue :
    (name : String) (x : Run) (xs : List Run) (interval now start : ℕ)
    → contains name job_check_exclude ≡ false
    → is_some (job_problem (run_all name (x ∷ xs) no_samples) name interval now start) ≡ (
        leb (start + interval * 3) now
        && ltb (reference_time (last_clean none (x ∷ xs)) start + interval * 3) now)
unfolding job_problem
job_problem-overdue name x xs interval now start e =
    rw (e, instrumented name x xs, last_success-last_clean name (x ∷ xs))
      (evaluate_job-some name (last_clean none (x ∷ xs)) now interval start)
