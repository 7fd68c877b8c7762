-- ===== src/Correlation/Rules/Logs.antt =====
-- The rules on log messages: `_rule_syslog_spike`, `_rule_fleet_wide`, `_rule_severity_trend` and
-- `_rule_content_anomaly`. Their incidents carry no host.
use b8mon.Base.{
  ℕ, ◌+◌, ◌-◌, ◌*◌, ◌/◌, max, ◌≤◌, ◌≡◌, Bool, true, String, Option, none, some, List, [], ◌∷◌, map,
  ltb, leb, if◌then◌else◌, f_string, decimal, text_or, prefix, arith,
}
use b8mon.Correlation.{Detection}
use b8mon.Correlation.Rules.{
  for_each, World, FleetIssue, RisingTemplate, Anomaly, diversity_spike, severity_upgrade,
}

-- `recent >= max(1, max(0, hourly - recent) / 11) * 5`, multiplied by 11
pub is_spike : ℕ → ℕ → Bool
is_spike recent hourly = leb (max 11 (hourly - recent) * 5) (recent * 11)

spike_detection : ℕ → ℕ → Option Detection
spike_detection recent hourly = some (record {
  hit_rule = "syslog_spike";
  hit_hosts = 0 ∷ [];
  template = none;
  named = true;
  finding = record {
    rule = "syslog_spike";
    title = f_string ("Syslog error spike: " ∷ decimal recent ∷ " errors in 5min" ∷ []);
    severity = "warning";
    host_ids = 0 ∷ [];
    event_type = "syslog_error";
    summary = f_string (
        decimal recent
        ∷ " syslog errors in last 5min (baseline: ~"
        ∷ decimal (max 11 (hourly - recent) / 11)
        ∷ "/5min)"
        ∷ []);
    detail = none;
  };
})

pub syslog_spike : World → List (Option Detection)
unfolding is_spike spike_detection
syslog_spike w = elim w.recent_errors [
  | none ↦ none ∷ []
  | some recent ↦ if ltb recent 10 then [] else elim w.hourly_errors [
    | none ↦ none ∷ []
    | some hourly ↦ if is_spike recent hourly then spike_detection recent hourly ∷ [] else []
  ]
]

fleet_finding : FleetIssue → Option String → Option Detection
fleet_finding issue template =
    let text = prefix 80 (text_or template issue.template_hash) in
    some (record {
      hit_rule = f_string ("fleet_wide_issue_" ∷ prefix 8 issue.template_hash ∷ []);
      hit_hosts = 0 ∷ [];
      template = none;
      named = true;
      finding = record {
        rule = "fleet_wide_issue";
        title = f_string ("Fleet-wide: " ∷ text ∷ " (" ∷ decimal issue.host_count ∷ " hosts)" ∷ []);
        severity = if ltb 5 issue.host_count then "critical" else "warning";
        host_ids = 0 ∷ [];
        event_type = "fleet_pattern";
        summary = f_string (
            "Template detected on "
            ∷ decimal issue.host_count
            ∷ " hosts simultaneously: "
            ∷ text
            ∷ []);
        detail = some issue.hosts_json;
      };
    })

fleet_detection : FleetIssue → Option Detection
unfolding fleet_finding
fleet_detection issue = elim issue.template [ none ↦ none | some t ↦ fleet_finding issue t ]

pub fleet_wide : World → List (Option Detection)
unfolding fleet_detection
fleet_wide w = for_each w.fleet_issues (map fleet_detection)

abbrev trend_detection : RisingTemplate → Option Detection
trend_detection t = some (record {
  hit_rule = f_string ("severity_trend_" ∷ prefix 8 t.template_hash ∷ []);
  hit_hosts = 0 ∷ [];
  template = none;
  named = true;
  finding = record {
    rule = "severity_trend";
    title = f_string ("Rising error trend: " ∷ prefix 60 t.template ∷ []);
    severity = "warning";
    host_ids = 0 ∷ [];
    event_type = "syslog_trend";
    summary = f_string (
        "Template is trending up (+"
        ∷ decimal t.trend_percent
        ∷ "%/hr): "
        ∷ prefix 100 t.template
        ∷ []);
    detail = none;
  };
})

pub severity_trend : World → List (Option Detection)
severity_trend w = for_each w.rising (map trend_detection)

abbrev anomaly_finding : String → String → String → String → Option Detection
anomaly_finding hit_rule title event_type summary = some (record {
  hit_rule = hit_rule;
  hit_hosts = 0 ∷ [];
  template = none;
  named = true;
  finding = record {
    rule = "content_anomaly";
    title = title;
    severity = "warning";
    host_ids = 0 ∷ [];
    event_type = event_type;
    summary = summary;
    detail = none;
  };
})

abbrev anomaly_detection : Anomaly → Option Detection
anomaly_detection (diversity_spike ip current baseline) =
    anomaly_finding (f_string ("content_anomaly_diversity_" ∷ ip ∷ []))
      (f_string ("Template diversity spike: " ∷ ip ∷ [])) "content_anomaly"
      (f_string (
        ip
        ∷ ": "
        ∷ decimal current
        ∷ " distinct templates (baseline: "
        ∷ decimal baseline
        ∷ ")"
        ∷ []))
anomaly_detection (severity_upgrade hash template normal current count) =
    anomaly_finding (f_string ("content_anomaly_severity_" ∷ prefix 8 hash ∷ []))
      (f_string ("Severity upgrade: " ∷ prefix 60 template ∷ [])) "severity_upgrade"
      (f_string (
        "Template normally at severity "
        ∷ decimal normal
        ∷ " now at severity "
        ∷ decimal current
        ∷ " ("
        ∷ decimal count
        ∷ " occurrences)"
        ∷ []))

pub content_anomaly : World → List (Option Detection)
content_anomaly w = for_each w.anomalies (map anomaly_detection)

-- With at least 10 errors in the last five minutes a spike is reported exactly when they are five
-- times the rate of the 55 minutes before, of which at least one error per five minutes is assumed.
-- So more recent errors never hide a spike.
pub is_spike_mono :
    (recent more prior : ℕ)
    → is_spike recent (recent + prior) ≡ true
    → recent ≤ more
    → is_spike more (more + prior) ≡ true
unfolding is_spike
is_spike_mono recent more prior h le = ground arith
