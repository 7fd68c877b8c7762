-- ===== src/Correlation/Resolve/Tests.antt =====
-- A pass over one incident of each kind: timed and recent, timed and old, upstream, and of the self-check.
use b8mon.Base.{true, no_entries, ℕ, String, none, some, [], ◌∷◌}
use b8mon.Incidents.{opened, Incident}
use b8mon.Correlation.{Engine, no_hits}
use b8mon.Correlation.Rules.{World}
use b8mon.Correlation.Resolve.{auto_resolve}

abbrev digest : String → String
digest text = text

abbrev world : World
world = record {
  settings_fine = true;
  hosts = some [];
  offline_since = λ failures ids. some ids;
  topology = [];
  host_errors = λ id. none;
  integrations = some [];
  recent_errors = none;
  hourly_errors = none;
  fleet_issues = some [];
  rising = some [];
  anomalies = some [];
  hour = 3;
  weekday = 1;
  baselines = some [];
  host_messages = λ id. some 0;
  ip_messages = λ ip. some 0;
  observed = some [];
  precursors = some [];
  settings = no_entries;
  commits = true;
}

abbrev row : ℕ → String → ℕ → Incident
row id rule updated_at = record {
  id = id;
  rule = rule;
  title = rule;
  severity = "warning";
  status = opened;
  host_ids_hash = some "7";
  updated_at = updated_at;
  resolved_at = none;
  precursor_template = none;
  acknowledged_by = none;
  feedback = none;
  feedback_at = none;
  feedback_by = none;
}

abbrev engine : Engine
engine = record {
  db = record {
    incidents =
        row 1 "syslog_spike" 900
        ∷ row 2 "severity_trend" 100
        ∷ row 3 "upstream_failure" 1000
        ∷ row 4 "self_check" 100
        ∷ [];
    events = [];
    next_id = 5;
  };
  notices = [];
  hits = no_hits;
}

abbrev after : Engine
after = (auto_resolve digest world 1000 engine).1
