-- ===== src/Correlation/Rules/Hosts.antt =====
-- The rules on hosts that are offline: `_rule_host_down_syslog`, `_rule_multi_host_down` and
-- `_rule_integration_host`.
use b8mon.Base.{
  ℕ, ◌-◌, String, Bool, true, false, not, ◌&&◌, Option, none, some, List, [], ◌∷◌, ◌++◌, ltb, leb,
  nat_eq, string_eq, ◌==◌, if◌then◌else◌, length, is_empty, keep, all, contains, take, f_string,
  join, decimal, split, strip, lower, is_digits,
}
use b8mon.Topology.{Topology, get_ancestors, filter_upstream_failures}
use b8mon.Correlation.{Detection}
use b8mon.Correlation.Rules.{
  for_each, Host, IntegrationState, World, get_offline_hosts, ids_of, name_list, host_by_id,
}

-- the loop over the offline hosts; a host below one that is offline is passed over
host_down_detection : World → Host → ℕ → Option Detection
host_down_detection w h count = some (record {
  hit_rule = "host_down_syslog";
  hit_hosts = h.id ∷ [];
  template = none;
  named = true;
  finding = record {
    rule = "host_down_syslog";
    title = f_string (h.name ∷ " offline with syslog errors" ∷ []);
    severity = "critical";
    host_ids = h.id ∷ [];
    event_type = "host_down";
    summary = f_string (
        h.name
        ∷ " ("
        ∷ h.hostname
        ∷ ") is offline with "
        ∷ decimal count
        ∷ " syslog errors in the last 5min"
        ∷ []);
    detail = none;
  };
})

down_with_errors : World → List ℕ → List Host → List (Option Detection)
unfolding host_down_detection
down_with_errors w cascaded [] = []
down_with_errors w cascaded (h ∷ hs) =
    let rest = down_with_errors w cascaded hs in
    if contains h.id cascaded then rest else elim (w.host_errors h.id) [
      | none ↦ none ∷ rest
      | some count ↦ if ltb 0 count then host_down_detection w h count ∷ rest else rest
    ]

-- the name of the first ancestor that is a primary failure
abbrev pub root_name : List ℕ → List Host → List ℕ → Option String
root_name primary hosts [] = none
root_name primary hosts (a ∷ as') =
    if contains a primary
    then elim (host_by_id a hosts) [ none ↦ none | some h ↦ some h.name ]
    else root_name primary hosts as'

-- the set `parent_names`; Python does not fix its order, here it is that of the hosts
abbrev pub root_names : Topology → List ℕ → List Host → List ℕ → List String
root_names t primary hosts [] = []
root_names t primary hosts (h ∷ hs) =
    let rest = root_names t primary hosts hs in
    elim (root_name primary hosts (get_ancestors t h)) [
      | none ↦ rest
      | some name ↦ if contains name rest then rest else name ∷ rest
    ]

upstream_detection : World → List Host → List ℕ → List ℕ → Option Detection
unfolding name_list
upstream_detection w offline primary cascaded =
    let n = decimal (length cascaded) in
    let names = name_list (keep (λ h. contains h.id cascaded) offline) in
    let parents = root_names w.topology primary offline cascaded in
    let label = if is_empty parents then "upstream device" else join ", " parents in
    some (record {
      hit_rule = "upstream_failure";
      hit_hosts = cascaded;
      template = none;
      named = true;
      finding = record {
        rule = "upstream_failure";
        title = f_string ("Upstream failure: " ∷ n ∷ " hosts affected" ∷ []);
        severity = "warning";
        host_ids = cascaded;
        event_type = "host_down";
        summary =
            f_string (n ∷ " hosts offline due to upstream failure (" ∷ label ∷ "): " ∷ names ∷ []);
        detail = none;
      };
    })

pub host_down_syslog : World → ℕ → List (Option Detection)
unfolding down_with_errors upstream_detection
host_down_syslog w min_failures = for_each (get_offline_hosts w min_failures) (λ offline.
    let (primary, cascaded) = filter_upstream_failures (ids_of offline) w.topology in
    down_with_errors w cascaded offline
    ++ (if is_empty cascaded then [] else upstream_detection w offline primary cascaded ∷ []))

-- the /24 network of an IPv4 address
pub subnet_of : String → String
subnet_of hostname =
    let parts = split b'.' (strip hostname) in
    if length parts == 4 && all is_digits parts
    then f_string (join "." (take 3 parts) ∷ ".0/24" ∷ [])
    else "unknown"

-- `subnets.setdefault(subnet, []).append(host)`
abbrev pub add_to_group : String → Host → List (String × List Host) → List (String × List Host)
add_to_group subnet h [] = (subnet, h ∷ []) ∷ []
add_to_group subnet h ((s, hs) ∷ groups) =
    if s == subnet then (s, hs ++ h ∷ []) ∷ groups else (s, hs) ∷ add_to_group subnet h groups

abbrev pub group_by_subnet : List Host → List (String × List Host) → List (String × List Host)
group_by_subnet [] groups = groups
group_by_subnet (h ∷ hs) groups = group_by_subnet hs (add_to_group (subnet_of h.hostname) h groups)

abbrev multi_finding : List Host → String → String → String → Option Detection
multi_finding hosts title severity summary = some (record {
  hit_rule = "multi_host_down";
  hit_hosts = ids_of hosts;
  template = none;
  named = true;
  finding = record {
    rule = "multi_host_down";
    title = title;
    severity = severity;
    host_ids = ids_of hosts;
    event_type = "host_down";
    summary = summary;
    detail = none;
  };
})

abbrev subnet_detections : List (String × List Host) → List (Option Detection)
subnet_detections [] = []
subnet_detections ((subnet, hosts) ∷ groups) =
    let rest = subnet_detections groups in
    let n = decimal (length hosts) in
    if leb 3 (length hosts)
    then (multi_finding hosts (f_string ("Network issue: " ∷ n ∷ " hosts down in " ∷ subnet ∷ []))
          "critical" (f_string (n ∷ " hosts offline in " ∷ subnet ∷ ": " ∷ name_list hosts ∷ []))
        ∷ rest)
    else rest

abbrev pub is_small : String × List Host → Bool
is_small (_, hosts) = ltb (length hosts) 3

abbrev pub hosts_of : List (String × List Host) → List Host
hosts_of [] = []
hosts_of ((_, hosts) ∷ groups) = hosts ++ hosts_of groups

pub many_down : World → List Host → List (Option Detection)
many_down w offline =
    let (primary, _) = filter_upstream_failures (ids_of offline) w.topology in
    let primary_hosts = keep (λ h. contains h.id primary) offline in
    let groups = group_by_subnet primary_hosts [] in
    let covered = length (hosts_of (keep (λ g. not (is_small g)) groups)) in
    let uncovered = hosts_of (keep is_small groups) in
    let n = decimal (length uncovered) in
    let spread =
      (if leb 3 (length primary_hosts - covered)
        then (multi_finding uncovered
              (f_string ("Multiple hosts down (" ∷ n ∷ " across subnets)" ∷ [])) "warning"
              (f_string (n ∷ " hosts offline across multiple subnets: " ∷ name_list uncovered ∷ []))
            ∷ [])
        else []) in
    let detections = subnet_detections groups ++ spread in
    if ltb (length offline) 3 then [] else if ltb (length primary_hosts) 3 then [] else detections

pub multi_host_down : World → ℕ → List (Option Detection)
unfolding many_down
multi_host_down w min_failures = for_each (get_offline_hosts w min_failures) (many_down w)

-- `offline_by_hostname`: of two hosts with one name the later one is kept
abbrev pub host_by_name : String → List Host → Option Host
host_by_name name [] = none
host_by_name name (h ∷ hs) = elim (host_by_name name hs) [
  | some later ↦ some later
  | none ↦ if strip (lower h.hostname) == name then some h else none
]

abbrev integration_detection : IntegrationState → String → Host → Option Detection
integration_detection i cfg_host h = some (record {
  hit_rule = "integration_host";
  hit_hosts = h.id ∷ [];
  template = none;
  named = true;
  finding = record {
    rule = "integration_host";
    title = f_string (i.name ∷ " unreachable – host " ∷ h.name ∷ " offline" ∷ []);
    severity = "warning";
    host_ids = h.id ∷ [];
    event_type = "integration_error";
    summary = f_string (
        "Integration '" ∷ i.name ∷ "' (" ∷ i.kind ∷ ") is unreachable and its host " ∷ h.name ∷ " ("
        ∷ cfg_host ∷ ") is also offline" ∷ []);
    detail = none;
  };
})

abbrev is_failing : Option Bool → Bool
is_failing none = false
is_failing (some fine) = not fine

pub integration_detections : List Host → List IntegrationState → List (Option Detection)
integration_detections offline [] = []
integration_detections offline (i ∷ is) =
    let rest = integration_detections offline is in
    if is_failing i.snapshot_ok
    then elim i.host [
      | none ↦ rest
      | some name ↦ if name == "" then rest else elim (host_by_name name offline) [
        | none ↦ rest
        | some h ↦ integration_detection i name h ∷ rest
      ]
    ]
    else rest

pub integration_host : World → ℕ → List (Option Detection)
unfolding integration_detections
integration_host w min_failures = for_each (get_offline_hosts w min_failures) (λ offline.
    if is_empty offline then [] else for_each w.integrations (integration_detections offline))
