-- ===== src/Correlation/Tests.antt =====
-- A small installation: one host, one incident that is timed, and one of an upstream failure.
use b8mon.Base.{no_entries, ℕ, String, true, false, none, some, List, [], ◌∷◌, string_eq, ◌==◌}
use b8mon.Incidents.{opened, Incident, host_ids_hash}
use b8mon.Correlation.{HitKey, Engine, no_hits}
use b8mon.Correlation.Streak.{Round}
use b8mon.Correlation.Rules.{World, Worlds, at_fleet_wide}
use b8mon.Predictor.{Python}

abbrev digest : String → String
digest text = text

abbrev python : Python
python = record {
  loads = λ text. none;
  dumps = λ list. "[]";
  compiles = λ pattern. true;
  search = λ pattern text. pattern == text;
  escape = λ text. text;
  to_float = λ text. none;
  to_int = λ text. none;
}

abbrev world : World
world = record {
  settings_fine = true;
  hosts = some (
      record {
        id = 7;
        name = "web";
        hostname = "10.0.0.7";
        enabled = true;
        maintenance = false;
        port_error = true;
        check_detail = some (("https", false) ∷ []);
      }
      ∷ []);
  offline_since = λ failures ids. some [];
  topology = [];
  host_errors = λ id. some 0;
  integrations = some [];
  recent_errors = some 0;
  hourly_errors = some 0;
  fleet_issues = some [];
  rising = some [];
  anomalies = some [];
  hour = 3;
  weekday = 1;
  baselines = some [];
  host_messages = λ id. some 0;
  ip_messages = λ ip. some 0;
  observed = some [];
  precursors = some [];
  settings = no_entries;
  commits = true;
}

-- the query of the templates of the fleet raises, but only for its own rule
abbrev worlds : Worlds
worlds at_fleet_wide = record world { fleet_issues = none }
worlds stage = world

abbrev row : ℕ → String → String → Incident
row id rule hash = record {
  id = id;
  rule = rule;
  title = rule;
  severity = "warning";
  status = opened;
  host_ids_hash = some hash;
  updated_at = 0;
  resolved_at = none;
  precursor_template = none;
  acknowledged_by = none;
  feedback = none;
  feedback_at = none;
  feedback_by = none;
}

abbrev engine : List Incident → Engine
engine rows = record {
  db = record { incidents = rows; events = []; next_id = 9 };
  notices = [];
  hits = no_hits;
}

abbrev key : String → HitKey
key rule = record { rule = rule; hash = host_ids_hash digest (7 ∷ []) }

abbrev rounds : List Round
rounds =
    record { keys = key "port_error" ∷ []; fine = true }
    ∷ record { keys = []; fine = true }
    ∷ record { keys = key "multi_host_down" ∷ key "port_error" ∷ []; fine = true }
    ∷ record { keys = []; fine = false }
    ∷ []
