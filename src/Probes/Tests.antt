-- ===== src/Probes/Tests.antt =====
-- A probe that reports every minute, one of its hosts, and a host of the core.
use b8mon.Base.{
  ℕ, ◌-◌, ◌<◌, ◌≡◌, ◌≢◌, refl, true, false, none, some, List, [], ◌∷◌, arith, Map, string_eq,
  contains, inl, nat_eq,
}
use b8mon.Probes.{
  unknown, last_result, ProbeState, host_status, is_overdue, is_stale, result_window,
  staleness_window, watched_by, PingHost, Agent, Ping,
}
use b8mon.Probes.Status.{prompt_probe-last_result, HasDistinctIds}
use b8mon.Probes.Problems.{problem_keys, key_of, unknown-reported}

abbrev probe : ProbeState
probe = record { probe_id = 4; name = "site"; interval_seconds = some 60; last_report = some 1000 }

prompt_probe-last_result_example :
    (host_status (some true) (some (1180 - 940)) (some probe) 1180 ≡ last_result (some true))
    × ((age : ℕ) → 240 < age → host_status (some true) (some age) (some probe) 1180 ≡ unknown)
prompt_probe-last_result_example =
    prompt_probe-last_result probe true 1000 940 1180 refl (omega arith)

abbrev host_counts : Map ℕ ℕ
host_counts k = some 2

watched : watched_by host_counts probe ≢ 0
watched p = omega arith

on_time : is_overdue (some 100) (some 60) ≡ false
unfolding result_window staleness_window
on_time = refl

silent : host_status (some true) (some 100) (some probe) 5000 ≡ unknown
unfolding host_status is_stale staleness_window
silent = refl

unknown-reported_example :
    contains (key_of probe) (problem_keys (probe ∷ []) host_counts 5000) ≡ true
unknown-reported_example =
    unknown-reported probe (probe ∷ []) host_counts true (some 100) 5000 (inl refl) watched on_time
      silent

abbrev hosts : List PingHost
hosts = record { id = 1; probe_id = some 4 } ∷ record { id = 2; probe_id = none } ∷ []

abbrev agents : List Agent
agents =
    record {
      id = 4;
      name = some "site";
      hostname = none;
      probe_interval_seconds = some 60;
      last_seen = some 1000;
    }
    ∷ []

abbrev pings : Map ℕ Ping
pings k = some (record { success = some true; timestamp = some 950 })

hosts_distinct : HasDistinctIds hosts
hosts_distinct = (refl, (refl, tt))
