-- ===== src/Correlation/Rules.antt =====
-- What the rules of backend/services/correlation.py read: the answers of PostgreSQL and ClickHouse.
-- A missing answer is a query that raises. The statements on the incidents themselves do not.
pub mod Hosts
pub mod Services
pub mod Logs
pub mod Baselines
pub mod Precursors
use b8mon.Base.{
  ℕ, String, Bool, not, ◌&&◌, Option, none, some, List, [], ◌∷◌, keep, contains, nat_eq, take, drop,
  map, length, ltb, is_empty, if◌then◌else◌, f_string, join, decimal, ◌-◌, Eq, zero, ◌==◌,
}
use b8mon.Topology.{Topology}
use b8mon.Correlation.{Detection}
use b8mon.Predictor.{Settings}

pub record Host : Type 0 where
  pub id : ℕ
  pub name : String
  pub hostname : String
  pub enabled : Bool
  pub maintenance : Bool
  pub port_error : Bool
  -- `json.loads(host.check_detail)` in order, nothing if there is none or it does not parse
  pub check_detail : Option (List (String × Bool))

pub record IntegrationState : Type 0 where
  pub name : String
  pub kind : String
  -- `snap.ok` of the latest snapshot, if there is one
  pub snapshot_ok : Option Bool
  -- the host name in the decrypted configuration without protocol, port and path, in lower case;
  -- nothing if that raises
  pub host : Option String

pub record FleetIssue : Type 0 where
  pub template_hash : String
  pub host_count : ℕ
  -- the template's text by a query for the hash, which may find none
  pub template : Option (Option String)
  -- `json.dumps` of the first ten hosts
  pub hosts_json : String

pub record RisingTemplate : Type 0 where
  pub template_hash : String
  pub template : String
  -- `round(trend_score * 100)`
  pub trend_percent : ℕ

pub data Anomaly : Type 0 where
  diversity_spike : (source_ip : String) (current baseline : ℕ) → Anomaly
  severity_upgrade : (template_hash template : String) (normal current count : ℕ) → Anomaly

-- a learned rate of log messages; the rates are whole thousandths of a message per hour
pub record Baseline : Type 0 where
  pub host_key : String
  pub hour_of_day : ℕ
  pub day_of_week : ℕ
  pub sample_count : ℕ
  pub avg_rate : ℕ
  pub std_rate : ℕ

-- a learned precursor with its template; the confidence is in whole millionths
pub record Precursor : Type 0 where
  pub template_hash : String
  pub template : Option String
  pub precedes_event : String
  pub confidence : ℕ
  -- `round(confidence * 100)`
  pub confidence_percent : ℕ
  -- the text of `round(avg_lead_time_sec / 60, 1)`, nothing if it is missing or 0
  pub lead_minutes : Option String
  pub occurrence_count : ℕ

pub record World : Type 0 where
  -- whether the settings are read
  pub settings_fine : Bool
  pub hosts : Option (List Host)
  -- `get_offline_hosts_since`: of these ids, those whose latest pings all failed
  pub offline_since : ℕ → List ℕ → Option (List ℕ)
  -- `_get_topology`, which catches what it raises
  pub topology : Topology
  -- error messages of a host in the last five minutes
  pub host_errors : ℕ → Option ℕ
  -- the enabled ones, with their latest snapshots
  pub integrations : Option (List IntegrationState)
  -- error messages of all hosts, in the last five minutes and in the last hour
  pub recent_errors : Option ℕ
  pub hourly_errors : Option ℕ
  pub fleet_issues : Option (List FleetIssue)
  pub rising : Option (List RisingTemplate)
  pub anomalies : Option (List Anomaly)
  -- `now.hour` and `now.weekday()`
  pub hour : ℕ
  pub weekday : ℕ
  pub baselines : Option (List Baseline)
  -- log messages of the last ten minutes, of a host and of an address
  pub host_messages : ℕ → Option ℕ
  pub ip_messages : String → Option ℕ
  -- hashes of templates seen in the last two minutes, with the host
  pub observed : Option (List (String × Option ℕ))
  pub precursors : Option (List Precursor)
  pub settings : Settings
  -- whether the transaction is committed
  pub commits : Bool

-- The parts of a cycle. What they read, and what of it raises, may differ.
pub data Stage : Type 0 where
  at_start at_host_down_syslog at_multi_host_down at_integration_host at_port_error : Stage
  at_syslog_spike at_log_anomaly at_fleet_wide at_severity_trend at_content_anomaly : Stage
  at_precursor_observed at_auto_resolve at_commit : Stage

abbrev pub Worlds : Type 0
Worlds = Stage → World

-- `_get_offline_hosts`
unfoldable pub get_offline_hosts : World → ℕ → Option (List Host)
get_offline_hosts w min_failures = elim w.hosts [
  | none ↦ none
  | some all_hosts ↦
      let hosts = keep (λ h. h.enabled && not h.maintenance) all_hosts in
      let ids = w.offline_since min_failures (map (λ h. h.id) hosts) in
      if is_empty hosts
      then some []
      else elim ids [ none ↦ none | some offline ↦ some (keep (λ h. contains h.id offline) hosts) ]
]

-- a loop over rows that a query finds, if it does not raise
abbrev pub for_each {ℓ} :
    {A : Type ℓ} → Option (List A) → (List A → List (Option Detection)) → List (Option Detection)
for_each none detections = none ∷ []
for_each (some rows) detections = detections rows

abbrev pub ids_of : List Host → List ℕ
ids_of = map (λ h. h.id)

-- the first five names, and how many more there are
pub name_list : List Host → String
name_list hosts =
    let names = join ", " (map (λ h. h.name) (take 5 hosts)) in
    if ltb 5 (length hosts)
    then f_string (names ∷ " (+" ∷ decimal (length hosts - 5) ∷ " more)" ∷ [])
    else names

-- the host with an id
abbrev pub host_by_id : ℕ → List Host → Option Host
host_by_id a [] = none
host_by_id a (h ∷ hs) = if h.id == a then some h else host_by_id a hs
