-- ===== src/IncidentApi.antt =====
-- backend/routers/api_v1.py, what an operator does to an incident: acknowledge it, resolve it, and
-- label it. A request's answer is its HTTP status. The audit log and the post-mortem are left out.
pub mod Lifecycle
pub mod Silenced
mod Tests
use b8mon.Base.{
  ℕ, String, Bool, true, false, ◌&&◌, ◌||◌, not, Option, none, some, List, [], ◌∷◌, ◌++◌, nat_eq,
  string_eq, ◌==◌, if◌then◌else◌, or_else, text_or, f_string, starts_with,
}
use b8mon.Incidents.{opened, acknowledged, resolved, Status, Incident, Db}
use b8mon.Predictor.{Python, Settings, add_to_blacklist}

abbrev pub fine : ℕ
fine = 200

abbrev pub bad_request : ℕ
bad_request = 400

abbrev pub not_found : ℕ
not_found = 404

-- `db.get(Incident, incident_id)`, and a change of that row
pub get_incident : ℕ → List Incident → Option Incident
get_incident id [] = none
get_incident id (i ∷ is) = if i.id == id then some i else get_incident id is

pub put_incident : ℕ → Incident → List Incident → List Incident
put_incident id row [] = []
put_incident id row (i ∷ is) = if i.id == id then row ∷ is else i ∷ put_incident id row is

-- The row is replaced, and an event is added.
pub save : ℕ → ℕ → Incident → String → String → Db → Db
save now id row event_type summary db = record db {
  incidents = put_incident id row db.incidents;
  events =
      db.events
      ++ record {
        incident_id = id;
        event_type = event_type;
        summary = summary;
        detail = none;
        timestamp = now;
      }
        ∷ [];
}

abbrev pub is_resolved : Status → Bool
is_resolved opened = false
is_resolved acknowledged = false
is_resolved resolved = true

abbrev pub acknowledge : ℕ → String → Incident → Incident
acknowledge now by i = record i {
  status = acknowledged;
  acknowledged_by = some by;
  updated_at = now;
}

pub acknowledge_incident : ℕ → String → ℕ → Option String → Db → ℕ × Db
unfolding save
acknowledge_incident now key_name id by db = elim (get_incident id db.incidents) [
  | none ↦ (not_found, db)
  | some i ↦ if is_resolved i.status then (bad_request, db) else (
    fine,
    save now id (acknowledge now (or_else by key_name) i) "acknowledged"
        (f_string ("Acknowledged by " ∷ or_else by key_name ∷ [])) db,
  )
]

abbrev pub close : ℕ → Incident → Incident
close now i = record i { status = resolved; resolved_at = some now; updated_at = now }

pub resolve_incident : ℕ → String → ℕ → Db → ℕ × Db
unfolding save
resolve_incident now key_name id db = elim (get_incident id db.incidents) [
  | none ↦ (not_found, db)
  | some i ↦ (
    fine,
    save now id (close now i) "resolved" (f_string ("Resolved via API by " ∷ key_name ∷ [])) db,
  )
]

abbrev pub label : ℕ → String → String → Incident → Incident
label now key_name verdict i = record i {
  feedback = some verdict;
  feedback_at = some now;
  feedback_by = some key_name;
  updated_at = now;
}

-- whether the template of an incident is to be blacklisted
pub is_noisy_precursor : String → Incident → Bool
is_noisy_precursor verdict i =
    verdict == "noise"
    && starts_with i.rule "learned_precursor"
    && not (text_or i.precursor_template "" == "")

-- The settings, and whether the template is blacklisted now; a pattern that does not compile is only
-- logged.
pub blacklist_template : Python → String → Incident → Settings → Bool × Settings
unfolding is_noisy_precursor
blacklist_template py verdict i settings =
    if is_noisy_precursor verdict i
    then elim (add_to_blacklist py (py.escape (text_or i.precursor_template "")) settings) [
      | none ↦ (false, settings)
      | some settings' ↦ (true, settings')
    ]
    else (false, settings)

abbrev pub is_verdict : String → Bool
is_verdict verdict = verdict == "real" || verdict == "noise"

pub incident_feedback :
    Python → ℕ → String → ℕ → Option String → Db × Settings → ℕ × Bool × Db × Settings
unfolding save blacklist_template
incident_feedback py now key_name id verdict (db, settings) =
    if is_verdict (text_or verdict "")
    then elim (get_incident id db.incidents) [
      | none ↦ (not_found, false, db, settings)
      | some i ↦ (
        fine,
        (blacklist_template py (text_or verdict "") i settings).0,
        save now id (label now key_name (text_or verdict "") i) "feedback"
            (f_string ("Labeled '" ∷ text_or verdict "" ∷ "' by " ∷ key_name ∷ [])) db,
        (blacklist_template py (text_or verdict "") i settings).1,
      )
    ]
    else (bad_request, false, db, settings)
