-- ===== src/Correlation/Resolve.antt =====
-- `_auto_resolve` of backend/services/correlation.py. The tests of one incident read the hosts that
-- are offline now; a query that raises ends the whole pass.
pub mod Laws
pub mod Upstream
pub mod Over
pub mod Exact
mod Tests
use b8mon.Base.{
  ℕ, ◌+◌, String, Bool, true, false, not, ◌&&◌, ◌||◌, Option, none, some, List, [], ◌∷◌, ◌++◌, map,
  ltb, leb, string_eq, ◌==◌, if◌then◌else◌, length, is_empty, keep, any, contains, f_string,
  starts_with,
}
use b8mon.Incidents.{
  Incident, IncidentEvent, Db, Notice, Status, resolved, is_active, same_hash, host_ids_hash,
  update_row,
}
use b8mon.Correlation.{Engine}
use b8mon.Correlation.Rules.{Host, World, get_offline_hosts}

-- the rules whose incidents end when nothing was added for a while
abbrev pub timed_rules : List String
timed_rules =
    "syslog_spike" ∷ "log_anomaly" ∷ "fleet_wide_issue" ∷ "severity_trend" ∷ "content_anomaly" ∷ []

pub is_timed : String → Bool
is_timed rule =
    contains rule timed_rules
    || starts_with rule "learned_precursor"
    || starts_with rule "alert_rule_"

-- `_host_ids_hash([host.id]) == incident.host_ids_hash`
abbrev pub is_about : (String → String) → Incident → Host → Bool
is_about digest i h = same_hash (host_ids_hash digest (h.id ∷ [])) i.host_ids_hash

-- the loop of "host_down_syslog": does a host that is offline still log errors?
pub still_logs : (String → String) → World → Incident → List Host → Option Bool
still_logs digest w i [] = some false
still_logs digest w i (h ∷ hs) =
    let rest = still_logs digest w i hs in
    if is_about digest i h
    then elim (w.host_errors h.id) [
      | none ↦ none
      | some count ↦ if ltb 0 count then some true else rest
    ]
    else rest

abbrev negate : Option Bool → Option Bool
negate none = none
negate (some b) = some (not b)

-- `should_resolve` of an incident that names hosts; nothing where a query raises
pub should_resolve : (String → String) → World → List Host → Incident → Option Bool
unfolding still_logs
should_resolve digest w offline i =
    if i.rule == "host_down_syslog"
    then negate (still_logs digest w i offline)
    else if i.rule == "multi_host_down"
    then some (not (leb 3 (length offline)))
    else if i.rule == "integration_host"
    then some (not (any (is_about digest i) offline))
    else if i.rule == "port_error"
    then (elim w.hosts [
      | none ↦ none
      | some hosts ↦
          some (not (any (is_about digest i) (keep (λ h. h.enabled && h.port_error) hosts)))
    ])
    else some true

abbrev pub has_hash : Option String → Bool
has_hash none = false
has_hash (some h) = not (h == "")

-- What becomes of one incident: nothing, or it is resolved with these words, or the pass raises.
pub data Verdict : Type 0 where
  stays : Verdict
  ends : String → Verdict
  fails : Verdict

abbrev by_hosts : Option Bool → Verdict
by_hosts none = fails
by_hosts (some false) = stays
by_hosts (some true) = ends "Auto-resolved: affected hosts are back online"

pub verdict : (String → String) → World → ℕ → List Host → Incident → Verdict
unfolding is_timed should_resolve
verdict digest w now offline i =
    if is_timed i.rule
    then (if ltb (i.updated_at + 600) now
        then ends "Auto-resolved: error rate returned to normal"
        else stays)
    else if i.rule == "self_check"
    then stays
    else if not (has_hash i.host_ids_hash)
    then stays
    else by_hosts (should_resolve digest w offline i)

-- the row's new state; writing it sets `updated_at` too
abbrev pub resolve : ℕ → Incident → Incident
resolve now i = record i { status = resolved; resolved_at = some now; updated_at = now }

pub resolve_incident : ℕ → String → Incident → Engine → Engine
resolve_incident now words i e = record e {
  db = record e.db {
    incidents = update_row i.id (resolve now) e.db.incidents;
    events =
        e.db.events
        ++ record {
          incident_id = i.id;
          event_type = "resolved";
          summary = words;
          detail = none;
          timestamp = now;
        }
          ∷ [];
  };
  notices =
      e.notices
      ++ record {
        title = f_string ("✅ Resolved: " ∷ i.title ∷ []);
        message = words;
        severity = "info";
      }
        ∷ [];
}

-- The ids for the post-mortems, or nothing where the pass raises.
pub resolve_each :
    (String → String) → World → ℕ → List Host → List Incident → Engine → Option (List ℕ) × Engine
unfolding verdict resolve_incident
resolve_each digest w now offline [] e = (some [], e)
resolve_each digest w now offline (i ∷ is) e = elim (verdict digest w now offline i) [
  | stays ↦ resolve_each digest w now offline is e
  | fails ↦ (none, e)
  | ends words ↦
      let (ids, e') = resolve_each digest w now offline is (resolve_incident now words i e) in
      (elim ids [ none ↦ none | some rest ↦ some (i.id ∷ rest) ], e')
]

abbrev pub default_min_failures : ℕ
default_min_failures = 3

pub auto_resolve : (String → String) → World → ℕ → Engine → Option (List ℕ) × Engine
unfolding resolve_each
auto_resolve digest w now e =
    let active = keep (λ i. is_active i.status) e.db.incidents in
    if is_empty active then (some [], e) else elim (get_offline_hosts w default_min_failures) [
      | none ↦ (none, e)
      | some offline ↦ resolve_each digest w now offline active e
    ]
