-- ===== src/Correlation/Rules/Services.antt =====
-- `_rule_port_error`.
use b8mon.Base.{
  String, Bool, true, not, ◌&&◌, Option, none, some, List, [], ◌∷◌, map, keep, f_string, join,
  upper,
}
use b8mon.Correlation.{Detection}
use b8mon.Correlation.Rules.{for_each, Host, World}

abbrev failed_checks : Option (List (String × Bool)) → List String
failed_checks none = []
failed_checks (some checks) = map (λ c. upper c.0) (keep (λ c. not c.1) checks)

abbrev pub failed_label : List String → String
failed_label [] = "service check"
failed_label (c ∷ cs) = join ", " (c ∷ cs)

abbrev pub port_error_detection : Host → Option Detection
port_error_detection h =
    let label = failed_label (failed_checks h.check_detail) in
    some (record {
      hit_rule = "port_error";
      hit_hosts = h.id ∷ [];
      template = none;
      named = true;
      finding = record {
        rule = "port_error";
        title = f_string (h.name ∷ ": " ∷ label ∷ " failed" ∷ []);
        severity = "warning";
        host_ids = h.id ∷ [];
        event_type = "port_error";
        summary =
            f_string
              (h.name ∷ " (" ∷ h.hostname ∷ ") is online but " ∷ label ∷ " is unreachable" ∷ []);
        detail = none;
      };
    })

pub port_error : World → List (Option Detection)
port_error w = for_each w.hosts (λ hosts.
    map port_error_detection (keep (λ h. h.enabled && not h.maintenance && h.port_error) hosts))
