-- ===== src/IncidentApi/Tests.antt =====
-- A predicted incident that an operator labels as noise.
use b8mon.Base.{
  true, ℕ, ◌≡◌, refl, Bool, none, some, [], ◌∷◌, arith, string_eq, All, no_entries, eq_iff,
}
use b8mon.Incidents.{Incident, Db, Status, opened, resolved}
use b8mon.Incidents.Dedup.{IsDeduplicated}
use b8mon.Predictor.{Settings}
use b8mon.Predictor.Example.{python, decode-encode}
use b8mon.Correlation.Rules.{World}
use b8mon.Correlation.Rules.Precursors.{precursor_observed}
use b8mon.Correlation.Rules.Precursors.Silence.{IsSilent}
use b8mon.IncidentApi.{acknowledge_incident, resolve_incident, incident_feedback, get_incident}
use b8mon.IncidentApi.Lifecycle.{StaysResolved, requests-IsDeduplicated}
use b8mon.IncidentApi.Silenced.{incident_feedback-IsSilent}

abbrev row : ℕ → Status → Incident
row id status = record {
  id = id;
  rule = "learned_precursor";
  title = "Predicted: Host Down (91% confidence)";
  severity = "warning";
  status = status;
  host_ids_hash = some "7";
  updated_at = 0;
  resolved_at = none;
  precursor_template = some "link flap";
  acknowledged_by = none;
  feedback = none;
  feedback_at = none;
  feedback_by = none;
}

abbrev db : Db
db = record { incidents = row 1 resolved ∷ row 2 opened ∷ []; events = []; next_id = 3 }

db-IsDeduplicated : IsDeduplicated db
db-IsDeduplicated = record { at_most_one = λ rule h. ground arith }

reopened_refused : acknowledge_incident 50 "ops" 1 none db ≡ (400, db)
unfolding acknowledge_incident get_incident
reopened_refused = refl

missing : resolve_incident 50 "ops" 7 db ≡ (404, db)
unfolding resolve_incident get_incident
missing = refl

requests-IsDeduplicated_example :
    let acknowledged_db = (acknowledge_incident 50 "ops" 1 none db).1 in
    let resolved_db = (resolve_incident 50 "ops" 1 db).1 in
    let labelled_db = (incident_feedback python 50 "ops" 1 (some "noise") (db, no_entries)).2 in
    (IsDeduplicated acknowledged_db × IsDeduplicated resolved_db × IsDeduplicated labelled_db)
    × StaysResolved db acknowledged_db
    × StaysResolved db resolved_db
    × StaysResolved db labelled_db
requests-IsDeduplicated_example =
    requests-IsDeduplicated python 50 "ops" 1 none (some "noise") db no_entries db-IsDeduplicated

-- the template is seen and was learned
abbrev world : World
world = record {
  settings_fine = true;
  hosts = some [];
  offline_since = λ failures ids. some [];
  topology = [];
  host_errors = λ id. some 0;
  integrations = some [];
  recent_errors = some 0;
  hourly_errors = some 0;
  fleet_issues = some [];
  rising = some [];
  anomalies = some [];
  hour = 3;
  weekday = 1;
  baselines = some [];
  host_messages = λ id. some 0;
  ip_messages = λ ip. some 0;
  observed = some (("abcdef0123", some 7) ∷ []);
  precursors = some (
      record {
        template_hash = "abcdef0123";
        template = some "link flap";
        precedes_event = "host_down";
        confidence = 910000;
        confidence_percent = 91;
        lead_minutes = some "4.5";
        occurrence_count = 25;
      }
      ∷ []);
  settings = no_entries;
  commits = true;
}

abbrev label : ℕ × Bool × Db × Settings
label = incident_feedback python 50 "ops" 2 (some "noise") (db, no_entries)

incident_feedback-IsSilent_example :
    All (IsSilent "link flap") (precursor_observed python (record world { settings = label.3 }))
incident_feedback-IsSilent_example =
    incident_feedback-IsSilent python decode-encode (λ l. cc) 50 "ops" 2 "link flap" (row 2 opened)
      db no_entries (record world { settings = label.3 }) (unfold get_incident in refl) refl refl
      (ground (arith, eq_iff "link flap" "")) (ground (arith, eq_iff "link flap" "")) refl refl refl
