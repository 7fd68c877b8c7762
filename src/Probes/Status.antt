-- ===== src/Probes/Status.antt =====
-- What `host_status` and `statuses_for` say of a host.
use b8mon.Base.{
  ℕ, ◌+◌, ◌-◌, ◌*◌, ◌≤◌, ◌<◌, max, ltb, leb, if◌then◌else◌, ◌≡◌, refl, ◌∙◌, inl, inr, Bool, true,
  false, Option, none, some, List, [], ◌∷◌, arith, nat_eq, ◌==◌, contains, Map, no_entries, assign,
  Bool-cases, ==_refl, All, map,
}
use b8mon.Probes.{
  HostStatus, up, unknown, ProbeState, staleness_window, result_window, interval_of, is_stale,
  last_result, is_overdue, host_status, PingHost, Agent, Ping, probe_ids, probe_states, status_of,
  collect, statuses_for,
}

-- A host shows its last result, up or down, exactly as long as its probe's last report is at most the
-- larger of two minutes and three intervals old, and is unknown from then on, if the result is at
-- most one interval older than that report: the results of a probe do not age before the probe does.
-- A result that is older than those windows together, by whatever report it came, leaves it unknown.
pub prompt_probe-last_result :
    (p : ProbeState) (b : Bool) (last checked now : ℕ)
    → p.last_report ≡ some last
    → last ≤ checked + interval_of p.interval_seconds
    → let window = max 120 (interval_of p.interval_seconds * 3) in
      (host_status (some b) (some (now - checked)) (some p) now
        ≡ (if leb now (last + window) then last_result (some b) else unknown))
      × ((age : ℕ)
          → window + interval_of p.interval_seconds < age
          → host_status (some b) (some age) (some p) now ≡ unknown)
unfolding host_status is_stale result_window staleness_window
prompt_probe-last_result p b last checked now e le = (
  rw e (elim (Bool-cases (leb now (last + max 120 (interval_of p.interval_seconds * 3)))) [
    | inl y ↦
        let fresh : ltb (last + max 120 (interval_of p.interval_seconds * 3)) now ≡ false =
          ground arith in
        let recent : is_overdue (some (now - checked)) p.interval_seconds ≡ false = ground arith in
        rw (y, fresh, recent) refl
    | inr n ↦
        let stale : ltb (last + max 120 (interval_of p.interval_seconds * 3)) now ≡ true =
          ground arith in
        rw (n, stale) refl
  ]),
  λ age old.
      let overdue : is_overdue (some age) p.interval_seconds ≡ true = ground (arith, old) in
      rw overdue (elim (Bool-cases (is_stale p now)) [ inl y ↦ rw y refl | inr n ↦ rw n refl ]),
)

-- A host of a probe is reported up only if its newest result is a success, the probe's last report
-- is no older than the larger of two minutes and three intervals, and the result, if it has a time,
-- is at most one interval older than that allows.
pub up-IsObserved :
    (p : ProbeState) (success : Option Bool) (age : Option ℕ) (now : ℕ)
    → host_status success age (some p) now ≡ up
    → (success ≡ some true) × (is_stale p now ≡ false) × (is_overdue age p.interval_seconds ≡ false)
unfolding host_status
up-IsObserved p none age now h = cc h
up-IsObserved p (some false) age now h = elim (Bool-cases (is_stale p now)) [
  | inl s ↦ cc (rw s at h)
  | inr s ↦ elim (Bool-cases (is_overdue age p.interval_seconds)) [
    | inl o ↦ cc (rw (s, o) at h)
    | inr o ↦ cc (rw (s, o) at h)
  ]
]
up-IsObserved p (some true) age now h = elim (Bool-cases (is_stale p now)) [
  | inl s ↦ cc (rw s at h)
  | inr s ↦ elim (Bool-cases (is_overdue age p.interval_seconds)) [
    | inl o ↦ cc (rw (s, o) at h)
    | inr o ↦ (refl, s, o)
  ]
]

-- no two hosts with one id
abbrev pub HasDistinctIds : List PingHost → Type 0
HasDistinctIds [] = Unit {0}
HasDistinctIds (h ∷ hs) = (contains h.id (map (λ x. x.id) hs) ≡ false) × HasDistinctIds hs

collect-absent :
    (hs : List PingHost) (latest : Map ℕ Ping) (probes : Map ℕ ProbeState) (now k : ℕ)
    (out : Map ℕ HostStatus)
    → contains k (map (λ x. x.id) hs) ≡ false
    → collect hs latest probes now out k ≡ out k
unfolding collect
collect-absent [] latest probes now k out h = refl
collect-absent (x ∷ hs) latest probes now k out h =
    let other : (x.id == k) ≡ false = ground arith in
    collect-absent hs latest probes now k (assign x.id (status_of latest probes now x) out)
      (ground arith)
    ∙ rw other

module _ (latest : Map ℕ Ping) (probes : Map ℕ ProbeState) (now : ℕ) where
  collect-each :
      (hs : List PingHost) (out : Map ℕ HostStatus)
      → HasDistinctIds hs
      → All (λ h. collect hs latest probes now out h.id ≡ some (status_of latest probes now h)) hs
  unfolding collect
  collect-each [] out d = tt
  collect-each (x ∷ hs) out (absent, d) = (
    collect-absent hs latest probes now x.id (assign x.id (status_of latest probes now x) out)
          absent
        ∙ rw (==_refl {A = ℕ} x.id),
    collect-each hs (assign x.id (status_of latest probes now x) out) d,
  )

-- Every host of the list, if no two have one id, gets exactly the status that `host_status` gives
-- for its own newest ping and its own probe.
pub statuses_for-each :
    (latest : Map ℕ Ping) (agents : List Agent) (hosts : List PingHost) (now : ℕ)
    → HasDistinctIds hosts
    → All
        (λ h.
          statuses_for latest agents hosts now h.id
          ≡ some (status_of latest (probe_states (probe_ids hosts) agents) now h))
        hosts
unfolding statuses_for
statuses_for-each latest agents hosts now d =
    collect-each latest (probe_states (probe_ids hosts) agents) now hosts no_entries d
