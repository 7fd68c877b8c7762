-- ===== src/Incidents.antt =====
-- backend/models/incident.py and `_find_or_create_incident` of backend/services/correlation.py: the
-- table of incidents, their events, and how a finding joins an open incident or opens a new one.
-- Times are whole seconds. What is sent to operators is returned as a notice.
pub mod Hash
pub mod Dedup
pub mod Retention
mod Tests
use b8mon.Base.{
  length, not, any, ltb, ◌-◌, ◌*◌, ℕ, zero, suc, ◌+◌, String, Bool, true, false, ◌&&◌, Option, none,
  some, List, [], ◌∷◌, ◌++◌, map, leb, nat_eq, string_eq, ◌==◌, if◌then◌else◌, decimal, f_string,
  join, keep, prefix, is_some,
}

pub data Status : Type 0 where
  opened acknowledged resolved : Status

pub record Incident : Type 0 where
  pub id : ℕ
  pub rule : String
  pub title : String
  pub severity : String
  pub status : Status
  pub host_ids_hash : Option String
  pub updated_at : ℕ
  pub resolved_at : Option ℕ
  pub precursor_template : Option String
  pub acknowledged_by : Option String
  pub feedback : Option String
  pub feedback_at : Option ℕ
  pub feedback_by : Option String

pub record IncidentEvent : Type 0 where
  pub incident_id : ℕ
  pub event_type : String
  pub summary : String
  pub detail : Option String
  pub timestamp : ℕ

-- the two tables and the next value of the incidents' key
pub record Db : Type 0 where
  pub incidents : List Incident
  pub events : List IncidentEvent
  pub next_id : ℕ

-- a call of `notify`
pub record Notice : Type 0 where
  pub title : String
  pub message : String
  pub severity : String

-- `sorted(host_ids)`
insert : ℕ → List ℕ → List ℕ
insert a [] = a ∷ []
insert a (b ∷ bs) = if leb a b then a ∷ b ∷ bs else b ∷ insert a bs

pub sorted : List ℕ → List ℕ
unfolding insert
sorted [] = []
sorted (a ∷ rest) = insert a (sorted rest)

-- `digest` is SHA-256 of the text's bytes in hexadecimal.
pub host_ids_hash : (String → String) → List ℕ → String
unfolding sorted
host_ids_hash digest ids = prefix 16 (digest (join "," (map decimal (sorted ids))))

-- `status.in_(["open", "acknowledged"])`
abbrev pub is_active : Status → Bool
is_active opened = true
is_active acknowledged = true
is_active resolved = false

abbrev pub same_hash : String → Option String → Bool
same_hash h none = false
same_hash h (some g) = g == h

abbrev pub is_match : String → String → Incident → Bool
is_match rule h i = i.rule == rule && same_hash h i.host_ids_hash && is_active i.status

abbrev pub matches : String → String → List Incident → List Incident
matches rule h = keep (is_match rule h)

-- What a rule reports.
pub record Finding : Type 0 where
  pub rule : String
  pub title : String
  pub severity : String
  pub host_ids : List ℕ
  pub event_type : String
  pub summary : String
  pub detail : Option String

-- an update of the one row with this key
abbrev pub update_row : ℕ → (Incident → Incident) → List Incident → List Incident
update_row id change [] = []
update_row id change (i ∷ is) = (if i.id == id then change i else i) ∷ update_row id change is

abbrev pub touch : ℕ → Incident → Incident
touch now i = record i { updated_at = now }

pub append_event : Finding → ℕ → Incident → Db → Db
append_event f now i db = record db {
  incidents = update_row i.id (touch now) db.incidents;
  events =
      db.events
      ++ record {
        incident_id = i.id;
        event_type = f.event_type;
        summary = f.summary;
        detail = f.detail;
        timestamp = now;
      }
        ∷ [];
}

abbrev pub new_incident : Finding → String → ℕ → ℕ → Incident
new_incident f h now id = record {
  id = id;
  rule = f.rule;
  title = f.title;
  severity = f.severity;
  status = opened;
  host_ids_hash = some h;
  updated_at = now;
  resolved_at = none;
  precursor_template = none;
  acknowledged_by = none;
  feedback = none;
  feedback_at = none;
  feedback_by = none;
}

pub create_incident : Finding → String → ℕ → Db → Db
create_incident f h now db = record {
  incidents = db.incidents ++ new_incident f h now db.next_id ∷ [];
  events =
      db.events
      ++ record {
        incident_id = db.next_id;
        event_type = "created";
        summary = f.summary;
        detail = f.detail;
        timestamp = now;
      }
        ∷ [];
  next_id = suc db.next_id;
}

-- The incident's key, the notice of a new incident, and the tables; nothing where
-- `scalar_one_or_none` raises because more than one incident matches.
found : Finding → String → ℕ → List Incident → Db → Option (ℕ × Option Notice × Db)
found f h now [] db = some (
  db.next_id,
  some (record {
    title = f_string ("🔴 Incident: " ∷ f.title ∷ []);
    message = f.summary;
    severity = f.severity;
  }),
  create_incident f h now db,
)
found f h now (i ∷ []) db = some (i.id, none, append_event f now i db)
found f h now (i ∷ j ∷ is) db = none

pub find_or_create : (String → String) → Finding → ℕ → Db → Option (ℕ × Option Notice × Db)
unfolding found append_event create_incident
find_or_create digest f now db =
    let h = host_ids_hash digest f.host_ids in found f h now (matches f.rule h db.incidents) db

-- an event that is neither an acknowledgement nor a resolution
pub is_meaningful : IncidentEvent → Bool
is_meaningful e = not (e.event_type == "acknowledged") && not (e.event_type == "resolved")

-- a meaningful event of an incident
abbrev pub tells_of : ℕ → IncidentEvent → Bool
tells_of id e = e.incident_id == id && is_meaningful e

-- Events are in the order of their ids, so the greatest id of an incident is its last one.
abbrev pub is_latest : IncidentEvent → List IncidentEvent → Bool
is_latest e later = is_meaningful e && not (any (tells_of e.incident_id) later)

-- `timestamp < cutoff`, the cutoff lying `age` before `now`
abbrev pub is_old : ℕ → ℕ → IncidentEvent → Bool
is_old now age e = ltb (e.timestamp + age) now

pub delete_old : ℕ → ℕ → List IncidentEvent → List IncidentEvent
delete_old now age [] = []
delete_old now age (e ∷ es) =
    let rest = delete_old now age es in
    if is_old now age e && not (is_latest e es) then rest else e ∷ rest

-- the number of deleted rows, and the events that are left
pub cleanup_incident_events : ℕ → ℕ → List IncidentEvent → ℕ × List IncidentEvent
unfolding delete_old
cleanup_incident_events now retention_days events = if leb retention_days 0 then (0, events) else (
  length events - length (delete_old now (retention_days * 86400) events),
  delete_old now (retention_days * 86400) events,
)
