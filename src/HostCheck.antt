-- ===== src/HostCheck.antt =====
-- backend/utils/ping.py, the dispatcher: which checks a host gets, and what they say of it together.
-- What a check finds is an argument; a latency is in microseconds.
pub mod Health
mod Tests
use b8mon.Base.{
  ℕ, zero, suc, ◌+◌, ◌-◌, ◌*◌, String, Bool, true, false, not, ◌&&◌, ◌||◌, Option, none, some, List,
  [], ◌∷◌, ◌++◌, map, string_eq, ◌==◌, if◌then◌else◌, keep, any, all, is_empty, is_some, get_elem?,
  text_or, positive_or, f_string, decimal, split, strip, lower, is_digits, digits_value,
  starts_with,
}
use Prim.Native.Char.{code}

pub record PingHost : Type 0 where
  pub hostname : String
  pub ip_address : Option String
  pub port : Option ℕ
  pub check_type : Option String

pub data Check : Type 0 where
  icmp : (target : String) → Check
  http : (url : String) → Check
  tcp : (target : String) (port : ℕ) → Check

-- `":" in text`
abbrev pub has_colon : String → Bool
has_colon text = elim (split 58 text) [ [] ↦ false | a ∷ parts ↦ not (is_empty parts) ]

-- `int(text)` for a port; what is no number raises
abbrev pub port_number : String → Option ℕ
port_number text = if is_digits (strip text) then some (digits_value 0 (strip text)) else none

-- `text.split(":")[1]`
abbrev pub after_colon : String → String
after_colon text = elim (get_elem? (split 58 text) 1) [ none ↦ "" | some t ↦ t ]

-- Which check `_check_single` makes; nothing where the port is no number.
pub check_of : PingHost → String → Option Check
check_of host check_type =
    let ct = lower check_type in
    let target = text_or host.ip_address host.hostname in
    if ct == "icmp"
    then some (icmp target)
    else if ct == "http" || ct == "https"
    then (if starts_with host.hostname "http://" || starts_with host.hostname "https://"
        then some (http host.hostname)
        else some (
            http (
              f_string ((if ct == "https" then "https" else "http") ∷ "://" ∷ host.hostname ∷ []))))
    else if ct == "tcp" || starts_with ct "tcp:"
    then (if has_colon ct
        then elim (port_number (after_colon ct)) [
          | none ↦ none
          | some port ↦ some (tcp target port)
        ]
        else some (tcp target (positive_or host.port 80)))
    else some (icmp target)

-- `[t.strip() for t in (host.check_type or "icmp").split(",") if t.strip()]`
pub check_types : PingHost → List String
check_types host = keep (λ t. not (t == "")) (map strip (split 44 (text_or host.check_type "icmp")))

-- a check's name, whether it succeeded, and its latency
pub record Outcome : Type 0 where
  pub check : String
  pub fine : Bool
  pub latency : Option ℕ

-- the checks and their results; nothing where one of them raises
pub outcomes : (Check → Bool × Option ℕ) → PingHost → List String → Option (List Outcome)
unfolding check_of
outcomes run host [] = some []
outcomes run host (ct ∷ cts) = elim (check_of host ct) [
  | none ↦ none
  | some check ↦ elim (outcomes run host cts) [
    | none ↦ none
    | some rest ↦ some (record { check = ct; fine = (run check).0; latency = (run check).1 } ∷ rest)
  ]
]

abbrev pub has_port : Option ℕ → Bool
has_port none = false
has_port (some zero) = false
has_port (some (suc n)) = true

-- a check's key in the detail
pub label_of : PingHost → String → String
label_of host ct =
    if ct == "tcp" && has_port host.port && not (has_colon ct)
    then f_string ("tcp:" ∷ decimal (positive_or host.port 0) ∷ [])
    else ct

-- `detail[label] = ok`: a key that is there already keeps its place
abbrev pub put_detail : String → Bool → List (String × Bool) → List (String × Bool)
put_detail label ok [] = (label, ok) ∷ []
put_detail label ok ((l, b) ∷ d) =
    if l == label then (l, ok) ∷ d else (l, b) ∷ put_detail label ok d

pub detail_of : PingHost → List Outcome → List (String × Bool) → List (String × Bool)
unfolding label_of
detail_of host [] d = d
detail_of host (o ∷ os) d = detail_of host os (put_detail (label_of host o.check) o.fine d)

abbrev pub is_icmp : Outcome → Bool
is_icmp o = o.check == "icmp"

abbrev pub is_fine : Outcome → Bool
is_fine o = o.fine

pub is_online : List Outcome → Bool
is_online os = if any is_icmp os then all is_fine (keep is_icmp os) else any is_fine os

pub has_port_error : List Outcome → Bool
unfolding is_online
has_port_error os = is_online os && any (λ o. not o.fine) (keep (λ o. not (is_icmp o)) os)

abbrev pub first_latency : List Outcome → Option ℕ
first_latency [] = none
first_latency (o ∷ os) = if is_some o.latency then o.latency else first_latency os

-- the latency of the first ICMP check, else the first there is
abbrev pub icmp_latency : List Outcome → Option ℕ
icmp_latency [] = none
icmp_latency (o ∷ os) = if is_icmp o then o.latency else icmp_latency os

abbrev pub primary_latency : List Outcome → Option ℕ
primary_latency os = if is_some (icmp_latency os) then icmp_latency os else first_latency os

pub record Report : Type 0 where
  pub online : Bool
  pub port_error : Bool
  pub latency : Option ℕ
  pub detail : List (String × Bool)

pub report_of : PingHost → List Outcome → Report
unfolding detail_of is_online has_port_error
report_of host os = record {
  online = is_online os;
  port_error = has_port_error os;
  latency = primary_latency os;
  detail = detail_of host os [];
}

pub check_host : (Check → Bool × Option ℕ) → PingHost → Option Report
unfolding check_types outcomes report_of
check_host run host = elim (outcomes run host (check_types host)) [
  | none ↦ none
  | some os ↦ some (report_of host os)
]
