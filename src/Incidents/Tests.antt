-- ===== src/Incidents/Tests.antt =====
-- The incidents of a table with one open and one resolved row.
use mathlib.Core.List.Perm
use mathlib.Core.List.{Perm}
use b8mon.Base.{ℕ, ◌≡◌, refl, String, Option, none, some, List, [], ◌∷◌, arith, string_eq}
use b8mon.Incidents.{
  Status, opened, resolved, Incident, Db, Notice, Finding, host_ids_hash, find_or_create,
  IncidentEvent, is_meaningful, delete_old, cleanup_incident_events,
}
use b8mon.Incidents.Dedup.{IsDeduplicated, Files, find_or_create-Files}
use b8mon.Incidents.Retention.{Prunes, cleanup_incident_events-Prunes}
use b8mon.Incidents.Hash.{host_ids_hash-perm}

abbrev digest : String → String
digest text = text

abbrev row : ℕ → Status → Incident
row id status = record {
  id = id;
  rule = "port_error";
  title = "Port error on web";
  severity = "warning";
  status = status;
  host_ids_hash = some "7";
  updated_at = 0;
  resolved_at = none;
  precursor_template = none;
  acknowledged_by = none;
  feedback = none;
  feedback_at = none;
  feedback_by = none;
}

abbrev db : Db
db = record { incidents = row 1 resolved ∷ row 2 opened ∷ []; events = []; next_id = 3 }

db-IsDeduplicated : IsDeduplicated db
db-IsDeduplicated = record { at_most_one = λ rule h. ground arith }

abbrev finding : Finding
finding = record {
  rule = "port_error";
  title = "Port error on web";
  severity = "warning";
  host_ids = 7 ∷ [];
  event_type = "port_error";
  summary = "https on web reports an error";
  detail = none;
}

find_or_create-Files_example :
    (id : ℕ) × (notice : Option Notice) × (db' : Db) × (find_or_create digest finding 60 db
      ≡ some (id, notice, db'))
    × Files finding (host_ids_hash digest (7 ∷ [])) db notice db'
find_or_create-Files_example = find_or_create-Files digest finding 60 db db-IsDeduplicated

swapped : Perm {A = ℕ} (3 ∷ 1 ∷ []) (1 ∷ 3 ∷ [])
swapped = Perm.swap 1 3 []

host_ids_hash-perm_example : host_ids_hash digest (3 ∷ 1 ∷ []) ≡ host_ids_hash digest (1 ∷ 3 ∷ [])
host_ids_hash-perm_example = host_ids_hash-perm digest (3 ∷ 1 ∷ []) (1 ∷ 3 ∷ []) swapped

abbrev event : ℕ → String → ℕ → IncidentEvent
event id kind timestamp = record {
  incident_id = id;
  event_type = kind;
  summary = kind;
  detail = none;
  timestamp = timestamp;
}

-- the events of two incidents, of which the second one was resolved long ago
abbrev history : List IncidentEvent
history =
    event 1 "created" 10
    ∷ event 2 "created" 20
    ∷ event 1 "host_down" 30
    ∷ event 2 "resolved" 40
    ∷ event 1 "host_down" 900000
    ∷ []

pruned :
    cleanup_incident_events 1000000 7 history
    ≡ (3, event 2 "created" 20 ∷ event 1 "host_down" 900000 ∷ [])
unfolding cleanup_incident_events delete_old is_meaningful
pruned = refl

cleanup_incident_events-Prunes_example :
    Prunes 1000000 604800 history (cleanup_incident_events 1000000 7 history)
cleanup_incident_events-Prunes_example = cleanup_incident_events-Prunes 1000000 7 history
