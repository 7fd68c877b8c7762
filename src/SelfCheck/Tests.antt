-- ===== src/SelfCheck/Tests.antt =====
-- A job that ran well once and then only logged errors, and two problems found at once.
use b8mon.Base.{
  ℕ, ◌+◌, ◌*◌, String, ◌≡◌, refl, ◌&&◌, none, some, List, [], ◌∷◌, arith, All, map, leb, ltb,
  is_some, string_eq,
}
use b8mon.Incidents.Dedup.{IsDeduplicated}
use b8mon.Metrics.{no_samples}
use b8mon.Metrics.Success.{Run, run_all, last_clean, last_success-last_clean}
use b8mon.Correlation.{Engine, completed, no_hits}
use b8mon.Probes.{Problem}
use b8mon.SelfCheck.{job_problem, raise_and_clear}
use b8mon.SelfCheck.Checks.{reference_time}
use b8mon.SelfCheck.Jobs.{job_problem-overdue}
use b8mon.SelfCheck.Incidents.{raise_and_clear-IsSeen, IsSeen}

abbrev run : ℕ → List String → Run
run t logged = record {
  started = t;
  ended = t + 1;
  ending = record { logged = logged; result = some tt };
}

abbrev later : List Run
later = run 200 ("disk full" ∷ []) ∷ run 300 ("disk full" ∷ []) ∷ []

job_problem-overdue_example :
    is_some (
      job_problem
        (run_all "disk_space_check" (run 100 [] ∷ later) no_samples)
        "disk_space_check"
        60
        400
        10)
    ≡ (leb (10 + 60 * 3) 400
        && ltb (reference_time (last_clean none (run 100 [] ∷ later)) 10 + 60 * 3) 400)
job_problem-overdue_example =
    job_problem-overdue "disk_space_check" (run 100 []) later 60 400 10 refl

last_success-last_clean_example :
    (run_all "disk_space_check" (run 100 [] ∷ later) no_samples).last_success "disk_space_check"
    ≡ last_clean none (run 100 [] ∷ later)
last_success-last_clean_example = last_success-last_clean "disk_space_check" (run 100 [] ∷ later)

abbrev digest : String → String
digest text = text

abbrev engine : Engine
engine = record {
  db = record { incidents = []; events = []; next_id = 1 };
  notices = [];
  hits = no_hits;
}

engine-IsDeduplicated : IsDeduplicated engine.db
engine-IsDeduplicated = record { at_most_one = λ rule h. omega arith }

abbrev problem : String → Problem
problem title = record { key = title; title = title; severity = "critical"; summary = title }

abbrev problems : List Problem
problems = problem "Syslog messages: data is stale" ∷ []

raise_and_clear-IsSeen_example :
    let (fine, e') = raise_and_clear digest 60 problems engine in
    (fine ≡ completed)
    × IsDeduplicated e'.db
    × All (IsSeen (map (λ p. p.title) problems)) e'.db.incidents
raise_and_clear-IsSeen_example =
    raise_and_clear-IsSeen digest 60 problems engine engine-IsDeduplicated
