-- ===== src/Metrics.antt =====
-- backend/services/metrics.py, the part on scheduler jobs: what an instrumented job records, by how
-- its run ends. The registry is that of prometheus_client, as far as these three metrics go; times
-- are whole seconds. Spans and log lines are left out.
pub mod Success
use b8mon.Base.{
  ℕ, suc, ◌-◌, String, Bool, true, false, Option, none, some, List, [], ◌∷◌, ◌++◌, string_eq, ◌==◌,
  if◌then◌else◌, Map, no_entries, assign,
}

-- the label `status`
pub data RunStatus : Type 0 where
  success failure degraded : RunStatus

-- the samples of the jobs' counter, gauge and histogram
pub record Registry : Type 0 where
  pub runs : String → RunStatus → ℕ
  pub last_success : Map String ℕ
  pub durations : String → List ℕ

abbrev pub no_samples : Registry
no_samples = record { runs = λ job status. 0; last_success = no_entries; durations = λ job. [] }

abbrev same_status : RunStatus → RunStatus → Bool
same_status success success = true
same_status failure failure = true
same_status degraded degraded = true
same_status _ _ = false

-- `SCHEDULER_JOB_RUNS.labels(job=..., status=...).inc()`
abbrev pub count_run : String → RunStatus → Registry → Registry
count_run job status r = record r {
  runs = λ j s.
      if j == job
      then (if same_status s status then suc (r.runs j s) else r.runs j s)
      else r.runs j s;
}

abbrev pub observe : String → ℕ → Registry → Registry
observe job seconds r = record r {
  durations = λ j. if j == job then r.durations j ++ seconds ∷ [] else r.durations j;
}

-- `_JobErrorCollector.emit`: outside an instrumented job there is no bucket
pub emit : Option (List String) → String → Option (List String)
emit none message = none
emit (some bucket) message = some (bucket ++ message ∷ [])

-- the bucket after a job logged these messages at level ERROR
pub emit_all : Option (List String) → List String → Option (List String)
unfolding emit
emit_all bucket [] = bucket
emit_all bucket (m ∷ ms) = emit_all (emit bucket m) ms

-- How the wrapped function ends: what it logged as errors, and its result unless it raises.
pub record Ending {ℓ} (A : Type ℓ) : Type ℓ where
  pub logged : List String
  pub result : Option A

-- `_job_errors.get() or []`
abbrev pub errors_of : Option (List String) → List String
errors_of none = []
errors_of (some errors) = errors

abbrev pub record_return : String → ℕ → List String → Registry → Registry
record_return name now [] r =
    let r' = count_run name success r in
    record r' { last_success = assign name now r'.last_success }
record_return name now (e ∷ es) r = count_run name degraded r

-- `wrapper` of `instrument_job(name)`; the run takes from `start` to `now`. No result: it raises.
pub instrumented_run {ℓ} :
    {A : Type ℓ} (name : String) (start now : ℕ) (ending : Ending A)
    → Registry
    → Option A × Registry
unfolding emit_all
instrumented_run name start now ending r = elim ending.result [
  | none ↦ (none, observe name (now - start) (count_run name failure r))
  | some a ↦ (
    some a,
    record_return name now (errors_of (emit_all (some []) ending.logged))
        (observe name (now - start) r),
  )
]
