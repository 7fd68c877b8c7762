-- ===== src/HostCheck/Tests.antt =====
-- A host with an ICMP check and one of a port, which fails.
use b8mon.Base.{
  ℕ, ◌≡◌, refl, Bool, true, false, Option, none, some, [], ◌∷◌, string_eq, strip, split, lower,
  is_digits,
}
use b8mon.HostCheck.{PingHost, Check, icmp, http, tcp, Outcome, check_of, check_types, outcomes}

abbrev host : PingHost
host = record {
  hostname = "web.example";
  ip_address = some "10.0.0.7";
  port = none;
  check_type = some "icmp, tcp:8443";
}

abbrev run : Check → Bool × Option ℕ
run (icmp target) = (true, some 900)
run (http url) = (true, none)
run (tcp target port) = (false, none)

abbrev pinged : Outcome
pinged = record { check = "icmp"; fine = true; latency = some 900 }

abbrev refused : Outcome
refused = record { check = "tcp:8443"; fine = false; latency = none }

host-outcomes : outcomes run host (check_types host) ≡ some (pinged ∷ refused ∷ [])
unfolding outcomes check_of check_types strip split lower is_digits
host-outcomes = refl
