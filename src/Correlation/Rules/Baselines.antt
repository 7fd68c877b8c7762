-- ===== src/Correlation/Rules/Baselines.antt =====
-- `_rule_log_anomaly`: the volume of a host's log messages against what was learned for the hour.
use b8mon.Base.{
  ℕ, ◌+◌, ◌*◌, ◌/◌, ◌≤◌, ◌<◌, max, ◌≡◌, Bool, true, false, ◌&&◌, String, Option, none, some, List,
  [], ◌∷◌, ◌++◌, keep, ltb, leb, nat_eq, ◌==◌, if◌then◌else◌, f_string, decimal, is_digits,
  digits_value, without, starts_with, arith,
}
use b8mon.Correlation.{Detection}
use b8mon.Correlation.Rules.{for_each, World, Baseline, host_by_id}

-- the query: the baselines of this hour of the week, with enough samples
pub current_baselines : World → List Baseline → List Baseline
current_baselines w baselines =
    keep
      (λ bl.
        bl.hour_of_day == w.hour
        && bl.day_of_week == w.weekday
        && leb 3 bl.sample_count
        && ltb 0 bl.avg_rate)
      baselines

-- `current_rate > avg_rate + 3 * max(std_rate, avg_rate * 0.3) and count >= 20`, where the rates of
-- a baseline are thousandths; both sides multiplied by 10000
pub is_anomalous : Baseline → ℕ → Bool
is_anomalous bl count =
    ltb (bl.avg_rate * 10 + 3 * max (bl.std_rate * 10) (bl.avg_rate * 3)) (count * 6 * 10000)
    && leb 20 count

anomaly_of : Baseline → ℕ → Bool → List ℕ → String → List ℕ → Option Detection
anomaly_of bl count named tracked label host_ids = some (record {
  hit_rule = "log_anomaly";
  hit_hosts = tracked;
  named = named;
  template = none;
  finding = record {
    rule = "log_anomaly";
    title = f_string ("Log volume anomaly: " ∷ label ∷ []);
    severity = "warning";
    host_ids = host_ids;
    event_type = "syslog_error";
    summary = f_string (
        label
        ∷ ": "
        ∷ decimal (count * 6)
        ∷ "/hr (baseline: "
        ∷ decimal (bl.avg_rate / 1000)
        ∷ "/hr ± "
        ∷ decimal (bl.std_rate / 1000)
        ∷ ")"
        ∷ []);
    detail = some (
        f_string (
          decimal count
          ∷ " messages in last 10min, expected ~"
          ∷ decimal (bl.avg_rate / 6000)
          ∷ []));
  };
})

-- A baseline of a host, once its messages are counted. The host is looked up by its id when the
-- anomaly is due.
host_anomaly : World → Baseline → ℕ → ℕ → Option Detection
unfolding anomaly_of
host_anomaly w bl id count = elim w.hosts [
  | none ↦ anomaly_of bl count false (id ∷ []) bl.host_key (0 ∷ [])
  | some hosts ↦ elim (host_by_id id hosts) [
    | none ↦ anomaly_of bl count true (id ∷ []) bl.host_key (0 ∷ [])
    | some h ↦ anomaly_of bl count true (id ∷ []) h.name (h.id ∷ [])
  ]
]

judge : Baseline → (ℕ → Option Detection) → Option ℕ → List (Option Detection)
unfolding is_anomalous
judge bl detection none = none ∷ []
judge bl detection (some count) = if is_anomalous bl count then detection count ∷ [] else []

-- A key is `host:` and the host's id, or the address of a source without one.
pub baseline_anomaly : World → Baseline → List (Option Detection)
unfolding host_anomaly anomaly_of judge
baseline_anomaly w bl =
    if starts_with bl.host_key "host:"
    then (if is_digits (without 5 bl.host_key)
        then judge bl (host_anomaly w bl (digits_value 0 (without 5 bl.host_key)))
            (w.host_messages (digits_value 0 (without 5 bl.host_key)))
        else [])
    else judge bl (λ count. anomaly_of bl count true (0 ∷ []) bl.host_key (0 ∷ []))
        (w.ip_messages bl.host_key)

baseline_anomalies : World → List Baseline → List (Option Detection)
baseline_anomalies w [] = []
baseline_anomalies w (bl ∷ bls) = baseline_anomaly w bl ++ baseline_anomalies w bls

pub log_anomaly : World → List (Option Detection)
unfolding baseline_anomalies current_baselines
log_anomaly w =
    for_each w.baselines (λ baselines. baseline_anomalies w (current_baselines w baselines))

-- An anomaly is at least 20 messages in ten minutes, and at a rate of more than 1.9 times the average
-- of the hour, however steady the host's rate was.
pub is_anomalous_bounds :
    (bl : Baseline) (count : ℕ)
    → is_anomalous bl count ≡ true
    → (20 ≤ count) × (bl.avg_rate * 19 < count * 6 * 10000)
unfolding is_anomalous
is_anomalous_bounds bl count h = ground arith
