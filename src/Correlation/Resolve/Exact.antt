-- ===== src/Correlation/Resolve/Exact.antt =====
-- What a pass of `_auto_resolve` resolves: what is over.
use b8mon.Base.{
  ℕ, String, ◌≡◌, ◌&&◌, List, ◌++◌, nat_eq, string_eq, ◌==◌, if◌then◌else◌, keep, map, any,
}
use b8mon.Incidents.{Incident, IncidentEvent}
use b8mon.Correlation.{Engine}
use b8mon.Correlation.Rules.{Host, World}
use b8mon.Correlation.Resolve.{resolve}
use b8mon.Correlation.Resolve.Over.{is_over}

module _ (digest : String → String) (w : World) (now : ℕ) (offline : List Host) where
  -- a row after the pass over these incidents: resolved if one of them is over and has its id
  abbrev pub settled : List Incident → Incident → Incident
  settled is r =
      if any (λ i. r.id == i.id && is_over digest w now offline i) is then resolve now r else r

  -- the ids of the incidents that are over
  abbrev pub over_ids : List Incident → List ℕ
  over_ids is = map (λ i. i.id) (keep (is_over digest w now offline) is)

  abbrev pub event_ids : List IncidentEvent → List ℕ
  event_ids = map (λ v. v.incident_id)

  record Settles (is : List Incident) (e : Engine) (ids : List ℕ) (e' : Engine) : Type 0 where
    rows : e'.db.incidents ≡ map (settled is) e.db.incidents
    resolved_ids : ids ≡ over_ids is
    logged : event_ids e'.db.events ≡ event_ids e.db.events ++ ids
