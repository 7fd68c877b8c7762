-- ===== src/Probes.antt =====
-- backend/services/probes.py: the agents that check hosts from their own network, and what a host's
-- status is when such an agent falls silent. Times are whole seconds; "older than" is written
-- without a difference, since a report can be later than `now`.
pub mod Status
pub mod Problems
mod Tests
use b8mon.Base.{
  ℕ, zero, suc, ◌+◌, ◌-◌, ◌*◌, max, String, Bool, true, false, not, ◌&&◌, Option, none, some, List,
  [], ◌∷◌, map, ltb, nat_eq, ◌==◌, if◌then◌else◌, is_empty, keep, contains, is_some, Map,
  no_entries, assign, f_string, decimal, text_or, positive_or,
}

abbrev pub probe_grace_factor : ℕ
probe_grace_factor = 3

abbrev pub default_probe_interval_seconds : ℕ
default_probe_interval_seconds = 60

abbrev pub min_staleness_window_seconds : ℕ
min_staleness_window_seconds = 120

pub data HostStatus : Type 0 where
  up down unknown : HostStatus

pub record ProbeState : Type 0 where
  pub probe_id : ℕ
  pub name : String
  pub interval_seconds : Option ℕ
  pub last_report : Option ℕ

-- `interval_seconds or DEFAULT_PROBE_INTERVAL_SECONDS`
abbrev pub interval_of : Option ℕ → ℕ
interval_of interval_seconds = positive_or interval_seconds default_probe_interval_seconds

pub staleness_window : Option ℕ → ℕ
staleness_window interval_seconds =
    max min_staleness_window_seconds (interval_of interval_seconds * probe_grace_factor)

pub result_window : Option ℕ → ℕ
unfolding staleness_window
result_window interval_seconds = staleness_window interval_seconds + interval_of interval_seconds

pub is_stale : ProbeState → ℕ → Bool
unfolding staleness_window
is_stale probe now = elim probe.last_report [
  | none ↦ true
  | some last ↦ ltb (last + staleness_window probe.interval_seconds) now
]

-- `STATUS_UP if success else STATUS_DOWN`, for a result that there may not be
abbrev pub last_result : Option Bool → HostStatus
last_result none = unknown
last_result (some true) = up
last_result (some false) = down

-- `result_age_seconds is not None and result_age_seconds > result_window(...)`
abbrev pub is_overdue : Option ℕ → Option ℕ → Bool
is_overdue none interval_seconds = false
is_overdue (some age) interval_seconds = ltb (result_window interval_seconds) age

pub host_status : Option Bool → Option ℕ → Option ProbeState → ℕ → HostStatus
unfolding is_stale result_window
host_status success result_age none now = last_result success
host_status success result_age (some probe) now =
    if not (is_some success)
    then unknown
    else if is_stale probe now
    then unknown
    else if is_overdue result_age probe.interval_seconds
    then unknown
    else last_result success

pub record Problem : Type 0 where
  pub key : String
  pub title : String
  pub severity : String
  pub summary : String

-- a stale probe's last report, if there was one, is before `now`
pub problem_of : ProbeState → ℕ → ℕ → Problem
problem_of probe watched now = record {
  key = f_string ("probe:" ∷ decimal probe.probe_id ∷ []);
  title = f_string ("Probe not reporting: " ∷ probe.name ∷ []);
  severity = "critical";
  summary = elim probe.last_report [
    | none ↦ f_string (
        "Probe '"
        ∷ probe.name
        ∷ "' has "
        ∷ decimal watched
        ∷ " host(s) assigned but has never reported. Those hosts are not being checked by anything."
        ∷ [])
    | some last ↦ f_string (
        "Probe '"
        ∷ probe.name
        ∷ "' last reported "
        ∷ decimal (now - last)
        ∷ "s ago and watches "
        ∷ decimal watched
        ∷ " host(s). Their status is unknown, not healthy — nothing is checking them while the probe is silent."
        ∷ [])
  ];
}

-- `host_counts.get(probe_id, 0)`
abbrev pub watched_by : Map ℕ ℕ → ProbeState → ℕ
watched_by host_counts probe = elim (host_counts probe.probe_id) [ none ↦ 0 | some n ↦ n ]

pub problems_for : List ProbeState → Map ℕ ℕ → ℕ → List Problem
unfolding is_stale problem_of
problems_for [] host_counts now = []
problems_for (probe ∷ probes) host_counts now =
    let rest = problems_for probes host_counts now in
    if watched_by host_counts probe == 0
    then rest
    else if not (is_stale probe now)
    then rest
    else problem_of probe (watched_by host_counts probe) now ∷ rest

-- The columns of a host and of an agent that the module reads, and a host's newest ping.
pub record PingHost : Type 0 where
  pub id : ℕ
  pub probe_id : Option ℕ

pub record Agent : Type 0 where
  pub id : ℕ
  pub name : Option String
  pub hostname : Option String
  pub probe_interval_seconds : Option ℕ
  pub last_seen : Option ℕ

pub record Ping : Type 0 where
  pub success : Option Bool
  pub timestamp : Option ℕ

pub core_checked : List PingHost → List PingHost
core_checked = keep (λ h. not (is_some h.probe_id))

-- `h.probe_id for h in hosts if h.probe_id`
abbrev pub probe_ids : List PingHost → List ℕ
probe_ids [] = []
probe_ids (h ∷ hs) = elim h.probe_id [
  | none ↦ probe_ids hs
  | some zero ↦ probe_ids hs
  | some (suc p) ↦ suc p ∷ probe_ids hs
]

-- `a.name or a.hostname or f"agent-{a.id}"`
pub probe_state : Agent → ProbeState
probe_state a = record {
  probe_id = a.id;
  name = text_or a.name (text_or a.hostname (f_string ("agent-" ∷ decimal a.id ∷ [])));
  interval_seconds = a.probe_interval_seconds;
  last_report = a.last_seen;
}

-- `{a.id: ProbeState(...) for a in rows}` over the agents with one of these ids
pub probe_states : List ℕ → List Agent → Map ℕ ProbeState
unfolding probe_state
probe_states ids [] k = none
probe_states ids (a ∷ agents) k =
    let later = probe_states ids agents k in
    if is_some later
    then later
    else if a.id == k && contains a.id ids
    then some (probe_state a)
    else none

abbrev pub probe_of : Map ℕ ProbeState → Option ℕ → Option ProbeState
probe_of probes none = none
probe_of probes (some p) = probes p

-- the newest ping's outcome and age; an age below 0 is 0, which no window is shorter than
abbrev pub success_of : Option Ping → Option Bool
success_of none = none
success_of (some p) = p.success

abbrev pub age_of : ℕ → Option Ping → Option ℕ
age_of now none = none
age_of now (some p) = elim p.timestamp [ none ↦ none | some t ↦ some (now - t) ]

abbrev pub status_of : Map ℕ Ping → Map ℕ ProbeState → ℕ → PingHost → HostStatus
status_of latest probes now h =
    host_status (success_of (latest h.id)) (age_of now (latest h.id)) (probe_of probes h.probe_id)
      now

pub collect :
    List PingHost → Map ℕ Ping → Map ℕ ProbeState → ℕ → Map ℕ HostStatus → Map ℕ HostStatus
unfolding host_status
collect [] latest probes now out = out
collect (h ∷ hs) latest probes now out =
    collect hs latest probes now (assign h.id (status_of latest probes now h) out)

-- `latest` is what `get_latest_ping_per_host` returns for the hosts, `agents` the table.
pub statuses_for : Map ℕ Ping → List Agent → List PingHost → ℕ → Map ℕ HostStatus
unfolding collect probe_states
statuses_for latest agents hosts now =
    collect hosts latest (probe_states (probe_ids hosts) agents) now no_entries
