-- ===== src/Incidents/Retention.antt =====
-- What the pruning of events keeps.
use b8mon.Base.{
  ℕ, ◌+◌, ◌*◌, ◌≤◌, ◌≡◌, refl, false, not, Option, none, some, List, [], ◌∷◌, arith, nat_eq,
  string_eq, if◌then◌else◌, length, any, keep, leb, Bool-cases, inl, inr,
}
use b8mon.Incidents.{IncidentEvent, tells_of, is_old, delete_old, cleanup_incident_events}

-- the newest event that the list of incidents shows as the summary of an incident
abbrev pub summary_event : ℕ → List IncidentEvent → Option IncidentEvent
summary_event id [] = none
summary_event id (e ∷ es) =
    let later = summary_event id es in
    if any (tells_of id) es then later else if tells_of id e then some e else none

any-delete_old :
    (now age id : ℕ) (es : List IncidentEvent)
    → any (tells_of id) (delete_old now age es) ≡ any (tells_of id) es
unfolding delete_old
any-delete_old now age id [] = refl
any-delete_old now age id (e ∷ es) =
    ground (arith, any-delete_old now age id es, any-delete_old now age e.incident_id es)

summary_none :
    (id : ℕ) (es : List IncidentEvent) → any (tells_of id) es ≡ false → summary_event id es ≡ none
summary_none id [] h = refl
summary_none id (e ∷ es) h = ground (arith, h, summary_none id es)

summary_event-delete_old :
    (now age id : ℕ) (es : List IncidentEvent)
    → summary_event id (delete_old now age es) ≡ summary_event id es
unfolding delete_old
summary_event-delete_old now age id [] = refl
summary_event-delete_old now age id (e ∷ es) = ground (
  arith,
  summary_none id es,
  any-delete_old now age id es,
  any-delete_old now age e.incident_id es,
  summary_event-delete_old now age id es,
)

length-delete_old-le :
    (now age : ℕ) (es : List IncidentEvent) → length (delete_old now age es) ≤ length es
unfolding delete_old
length-delete_old-le now age [] = omega arith
length-delete_old-le now age (e ∷ es) = ground (arith, length-delete_old-le now age es)

keep-delete_old :
    (now age : ℕ) (es : List IncidentEvent)
    → keep (λ e. not (is_old now age e)) (delete_old now age es)
      ≡ keep (λ e. not (is_old now age e)) es
unfolding delete_old
keep-delete_old now age [] = refl
keep-delete_old now age (e ∷ es) = ground (arith, keep-delete_old now age es)

-- What pruning keeps: the summary of every incident, and all events that
-- are recent; what it returns is the number of events that are gone.
pub record Prunes (now age : ℕ) (before : List IncidentEvent) (r : ℕ × List IncidentEvent)
    : Type 0 where
  pub summaries : (id : ℕ) → summary_event id r.1 ≡ summary_event id before
  pub recent : keep (λ e. not (is_old now age e)) r.1 ≡ keep (λ e. not (is_old now age e)) before
  pub counted : r.0 + length r.1 ≡ length before

-- Pruning the events of incidents leaves the summary of every incident as it was, deletes no event
-- that is younger than the retention, and returns the number of deleted events.
pub cleanup_incident_events-Prunes :
    (now retention_days : ℕ) (events : List IncidentEvent)
    → Prunes now (retention_days * 86400) events (cleanup_incident_events now retention_days events)
unfolding cleanup_incident_events
cleanup_incident_events-Prunes now days events = elim (Bool-cases (leb days 0)) [
  | inl z ↦ rw z (record { summaries = λ id. refl; recent = refl; counted = omega arith })
  | inr nz ↦ rw nz (record {
    summaries = λ id. summary_event-delete_old now (days * 86400) id events;
    recent = keep-delete_old now (days * 86400) events;
    counted = omega (arith, length-delete_old-le now (days * 86400) events);
  })
]
