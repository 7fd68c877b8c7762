-- ===== src/Correlation/Run.antt =====
-- `run_correlation` of backend/services/correlation.py: one cycle in one transaction.
pub mod Cycle
use b8mon.Base.{
  ℕ, max, String, Bool, true, false, not, Option, none, some, List, [], ◌∷◌, if◌then◌else◌, or_else,
}
use b8mon.Incidents.{Db}
use b8mon.Correlation.{
  Hits, prune_stale_hits, Engine, Action, Detection, completed, raised, report_all,
}
use b8mon.Correlation.Rules.{
  Worlds, at_start, at_host_down_syslog, at_multi_host_down, at_integration_host, at_port_error,
  at_syslog_spike, at_log_anomaly, at_fleet_wide, at_severity_trend, at_content_anomaly,
  at_precursor_observed, at_auto_resolve, at_commit,
}
use b8mon.Correlation.Rules.Hosts.{host_down_syslog, multi_host_down, integration_host}
use b8mon.Correlation.Rules.Services.{port_error}
use b8mon.Correlation.Rules.Logs.{syslog_spike, fleet_wide, severity_trend, content_anomaly}
use b8mon.Correlation.Rules.Baselines.{log_anomaly}
use b8mon.Correlation.Rules.Precursors.{precursor_observed}
use b8mon.Predictor.{Python}
use b8mon.Correlation.Resolve.{auto_resolve}

-- a setting as text that may not be a number
abbrev pub setting : Option ℕ → ℕ → ℕ
setting none default = default
setting (some n) default = max 1 n

-- the rules in their order
pub all_rules : Python → Worlds → ℕ → List (List (Option Detection))
all_rules py w min_failures =
    host_down_syslog (w at_host_down_syslog) min_failures
    ∷ multi_host_down (w at_multi_host_down) min_failures
    ∷ integration_host (w at_integration_host) min_failures
    ∷ port_error (w at_port_error)
    ∷ syslog_spike (w at_syslog_spike)
    ∷ log_anomaly (w at_log_anomaly)
    ∷ fleet_wide (w at_fleet_wide)
    ∷ severity_trend (w at_severity_trend)
    ∷ content_anomaly (w at_content_anomaly)
    ∷ precursor_observed py (w at_precursor_observed)
    ∷ []

pub run_rules : (String → String) → ℕ → ℕ → List (List (Option Detection)) → Action
run_rules digest now min_cycles [] e = (completed, e)
run_rules digest now min_cycles (ds ∷ rules) e =
    let (fine, e') = report_all digest now min_cycles ds e in
    let rest = run_rules digest now min_cycles rules e' in if fine then rest else (raised, e')

-- the handler of an exception: the tables are rolled back, the counters are not
pub roll_back : Db → Engine → Engine
roll_back db e = record e { db = db; hits = record e.hits { current = [] } }

-- After the rules, `_auto_resolve`, `_prune_stale_hits` and the commit; the ids for the post-mortems.
pub close_cycle : (String → String) → Worlds → ℕ → Db → Engine → List ℕ × Engine
unfolding roll_back
close_cycle digest w now db e =
    let (ids, e') = auto_resolve digest (w at_auto_resolve) now e in
    elim ids [
      | none ↦ ([], roll_back db e')
      | some list ↦
          let pruned = record e' { hits = prune_stale_hits e'.hits } in
          if (w at_commit).commits then (list, pruned) else ([], roll_back db pruned)
    ]

pub run_correlation :
    (String → String) → Python → Worlds → Option ℕ → Option ℕ → ℕ → Engine → List ℕ × Engine
unfolding all_rules run_rules roll_back close_cycle
run_correlation digest py w min_failures min_cycles now e =
    let rules = all_rules py w (setting min_failures 3) in
    let (fine, e') = run_rules digest now (setting min_cycles 2) rules e in
    if not (w at_start).settings_fine
    then ([], roll_back e.db e)
    else if fine
    then close_cycle digest w now e.db e'
    else ([], roll_back e.db e')
