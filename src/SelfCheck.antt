-- ===== src/SelfCheck.antt =====
-- backend/services/self_check.py: what the program finds wrong with itself, and the incidents that
-- this raises and resolves. The problems have the type of those on probes, whose fields are the
-- same. Times are whole seconds. What a query answers is an argument; a missing answer is a query
-- that raises.
pub mod Checks
pub mod Jobs
pub mod Incidents
mod Tests
use b8mon.Base.{
  ℕ, zero, suc, ◌+◌, ◌-◌, ◌*◌, ◌/◌, String, Bool, true, false, not, ◌&&◌, ◌||◌, Option, none, some,
  List, [], ◌∷◌, ◌++◌, map, ltb, leb, nat_eq, string_eq, ◌==◌, if◌then◌else◌, contains, Map,
  or_else, f_string, decimal, lower, text_or, starts_with,
}
use b8mon.Incidents.{Incident, Db, Finding, is_active}
use b8mon.Metrics.{Registry, RunStatus, success, failure, degraded}
use b8mon.SelfCheck.Checks.{DataSource, Job, metric_name_of_job, evaluate_freshness, evaluate_job}
use b8mon.Probes.{Problem, Agent, probe_state, problems_for}
use b8mon.Correlation.{Engine, Action, completed, raised, file_finding}
use b8mon.Correlation.Resolve.{resolve}

abbrev pub self_check_rule : String
self_check_rule = "self_check"

abbrev pub data_sources : List DataSource
data_sources =
    record { key = "ping_checks"; label = "Ping checks"; max_age_seconds = 600 }
    ∷ record { key = "agent_metrics"; label = "Agent metrics"; max_age_seconds = 1800 }
    ∷ record { key = "syslog_messages"; label = "Syslog messages"; max_age_seconds = 3600 }
    ∷ []

abbrev pub job_check_exclude : List String
job_check_exclude =
    "weekly_digest" ∷ "daily_ai_summary" ∷ "geoip_update" ∷ "legacy_api_key_cleanup" ∷ []

-- What the queries answer.
pub record Queries : Type 0 where
  -- enabled hosts, and agents seen within `AGENT_ACTIVE_DAYS`
  pub ping_hosts : Option ℕ
  pub active_agents : Option ℕ
  -- syslog messages of the last seven days
  pub recent_syslog : Option ℕ
  -- the newest time in a table, 0 for an empty one
  pub newest : String → Option ℕ
  -- the agents that are probes, and how many enabled hosts each watches
  pub probes : Option (List Agent × Map ℕ ℕ)

-- `float(value) if value else None`
abbrev pub last_seen_of : ℕ → Option ℕ
last_seen_of zero = none
last_seen_of (suc t) = some (suc t)

abbrev pub is_positive : ℕ → Bool
is_positive n = ltb 0 n

-- `_active_sources`; the query on syslog has a handler of its own
pub active_sources : Queries → Option (String → Bool)
active_sources q = elim q.ping_hosts [
  | none ↦ none
  | some hosts ↦ elim q.active_agents [
    | none ↦ none
    | some agents ↦
        let syslog : Bool = elim q.recent_syslog [ none ↦ false | some n ↦ is_positive n ] in
        some (λ key.
          if key == "ping_checks"
          then is_positive hosts
          else if key == "agent_metrics"
          then is_positive agents
          else if key == "syslog_messages"
          then syslog
          else false)
  ]
]

abbrev pub no_source : String → Bool
no_source key = false

abbrev pub found_problem : Option Problem → List Problem → List Problem
found_problem none rest = rest
found_problem (some p) rest = p ∷ rest

pub freshness_problems : Queries → (String → Bool) → ℕ → List DataSource → List Problem
unfolding evaluate_freshness
freshness_problems q active now [] = []
freshness_problems q active now (s ∷ ss) =
    let rest = freshness_problems q active now ss in
    if not (active s.key) then rest else elim (q.newest s.key) [
      | none ↦ rest
      | some value ↦ found_problem (evaluate_freshness s (last_seen_of value) now true) rest
    ]

pub probe_problems : Queries → ℕ → List Problem
probe_problems q now = elim q.probes [
  | none ↦ []
  | some (agents, counts) ↦ problems_for (map probe_state agents) counts now
]

-- has the job a sample for any status?
abbrev pub is_instrumented : Registry → String → Bool
is_instrumented r name =
    is_positive (r.runs name success)
    || is_positive (r.runs name failure)
    || is_positive (r.runs name degraded)

-- the loop's body for a job that has an interval
pub job_problem : Registry → String → ℕ → ℕ → ℕ → Option Problem
unfolding evaluate_job
job_problem r name interval now process_start =
    if contains name job_check_exclude
    then none
    else if not (is_instrumented r name)
    then none
    else evaluate_job name (r.last_success name) now interval process_start

pub job_problems : Registry → ℕ → ℕ → List Job → List Problem
unfolding metric_name_of_job job_problem
job_problems r now process_start [] = []
job_problems r now process_start (job ∷ jobs) =
    let rest = job_problems r now process_start jobs in
    elim job.interval [
      | none ↦ rest
      | some interval ↦
          found_problem (job_problem r (metric_name_of_job job) interval now process_start) rest
    ]

pub collect_problems : Queries → Registry → List Job → ℕ → ℕ → List Problem
unfolding active_sources freshness_problems probe_problems job_problems
collect_problems q r jobs now process_start =
    freshness_problems q (or_else (active_sources q) no_source) now data_sources
    ++ probe_problems q now
    ++ job_problems r now process_start jobs

abbrev pub finding_of : Problem → Finding
finding_of p = record {
  rule = self_check_rule;
  title = p.title;
  severity = p.severity;
  host_ids = [];
  event_type = "self_check";
  summary = p.summary;
  detail = none;
}

pub file_all : (String → String) → ℕ → List Problem → Action
file_all digest now [] e = (completed, e)
file_all digest now (p ∷ ps) e =
    let (fine, e') = file_finding digest now (finding_of p) none e in
    let rest = file_all digest now ps e' in if fine then rest else (raised, e')

-- an active incident of the self-check whose title was not seen
abbrev pub is_gone : List String → Incident → Bool
is_gone seen i = i.rule == self_check_rule && is_active i.status && not (contains i.title seen)

pub resolve_gone : ℕ → List String → List Incident → List Incident
resolve_gone now seen [] = []
resolve_gone now seen (i ∷ is) =
    (if is_gone seen i then resolve now i else i) ∷ resolve_gone now seen is

abbrev pub clear_gone : ℕ → List String → Engine → Engine
clear_gone now seen e = record e {
  db = record e.db { incidents = resolve_gone now seen e.db.incidents };
}

-- The second half of `run_self_check`, for the problems that were collected.
pub raise_and_clear : (String → String) → ℕ → List Problem → Action
unfolding file_all resolve_gone
raise_and_clear digest now problems e =
    let (fine, e') = file_all digest now problems e in
    if fine then (completed, clear_gone now (map (λ p. p.title) problems) e') else (raised, e')

pub run_self_check :
    (String → String)
    → Queries
    → Registry
    → List Job
    → ℕ
    → ℕ
    → Engine
    → (Bool × Engine) × List Problem
unfolding collect_problems raise_and_clear
run_self_check digest q r jobs now process_start e =
    let problems = collect_problems q r jobs now process_start in
    (raise_and_clear digest now problems e, problems)
