-- ===== src/SelfCheck/Checks.antt =====
-- backend/services/self_check.py, the verdicts: whether a data source is stale, and whether a job has
-- stopped completing. Times are whole seconds.
use Prim.Native.String.{slice, len}
use b8mon.Base.{
  ℕ, zero, suc, ◌+◌, ◌-◌, ◌*◌, ◌/◌, String, Bool, true, false, not, Option, none, some, [], ◌∷◌,
  ltb, leb, nat_eq, string_eq, if◌then◌else◌, f_string, decimal, lower, text_or, starts_with,
}
use b8mon.Probes.{Problem}

abbrev pub job_grace_factor : ℕ
job_grace_factor = 3

pub record DataSource : Type 0 where
  pub key : String
  pub label : String
  pub max_age_seconds : ℕ

pub metric_name_for : String → String
metric_name_for job_id = if starts_with job_id "src:" then slice job_id 4 (len job_id) else job_id

-- A job of the scheduler: the label that the instrumented function carries, and the seconds of its
-- interval; jobs at fixed times have none.
pub record Job : Type 0 where
  pub id : String
  pub metric_name : Option String
  pub interval : Option ℕ

unfoldable pub metric_name_of_job : Job → String
unfolding metric_name_for
metric_name_of_job job = text_or job.metric_name (metric_name_for job.id)

pub humanise : ℕ → String
humanise seconds =
    if ltb seconds 60
    then f_string (decimal seconds ∷ "s" ∷ [])
    else if ltb seconds 3600
    then f_string (decimal (seconds / 60) ∷ "m" ∷ [])
    else if ltb seconds 86400
    then f_string (decimal (seconds / 3600) ∷ "h" ∷ [])
    else f_string (decimal (seconds / 86400) ∷ "d" ∷ [])

unfoldable pub evaluate_freshness : DataSource → Option ℕ → ℕ → Bool → Option Problem
unfolding humanise
evaluate_freshness source last_seen now active = if not active then none else elim last_seen [
  | none ↦ some (record {
    key = source.key;
    title = f_string (source.label ∷ ": no data recorded" ∷ []);
    severity = "critical";
    summary = f_string (
        source.label ∷ " has no data at all, but the feature is in use. "
        ∷ "Collection is not reaching storage." ∷ []);
  })
  | some last ↦
      if ltb (last + source.max_age_seconds) now
      then some (record {
        key = source.key;
        title = f_string (source.label ∷ ": data is stale" ∷ []);
        severity = "critical";
        summary = f_string (
            "Last "
            ∷ lower source.label
            ∷ " datapoint is "
            ∷ humanise (now - last)
            ∷ " old (expected within "
            ∷ humanise source.max_age_seconds
            ∷ ")."
            ∷ []);
      })
      else none
]

-- `last_success if last_success else process_start`; a gauge that reads 0 counts as missing
abbrev pub reference_time : Option ℕ → ℕ → ℕ
reference_time none process_start = process_start
reference_time (some zero) process_start = process_start
reference_time (some (suc t)) process_start = suc t

abbrev pub has_succeeded : Option ℕ → Bool
has_succeeded none = false
has_succeeded (some zero) = false
has_succeeded (some (suc t)) = true

pub job_summary : String → Option ℕ → ℕ → ℕ → String
unfolding humanise
job_summary name last_success age interval_seconds =
    if not (has_succeeded last_success)
    then f_string (
        "Job '"
        ∷ name
        ∷ "' has not completed successfully since startup ("
        ∷ humanise age
        ∷ " ago), although it runs every "
        ∷ humanise interval_seconds
        ∷ "."
        ∷ [])
    else f_string (
        "Job '"
        ∷ name
        ∷ "' last succeeded "
        ∷ humanise age
        ∷ " ago, but runs every "
        ∷ humanise interval_seconds
        ∷ "."
        ∷ [])

-- with the default grace factor
unfoldable pub evaluate_job : String → Option ℕ → ℕ → ℕ → ℕ → Option Problem
unfolding job_summary
evaluate_job name last_success now interval_seconds process_start =
    let deadline = interval_seconds * job_grace_factor in
    let reference = reference_time last_success process_start in
    if ltb now (process_start + deadline)
    then none
    else if leb now (reference + deadline)
    then none
    else some (record {
      key = f_string ("job:" ∷ name ∷ []);
      title = f_string ("Scheduled job not completing: " ∷ name ∷ []);
      severity = "critical";
      summary = job_summary name last_success (now - reference) interval_seconds;
    })
