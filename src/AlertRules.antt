-- ===== src/AlertRules.antt =====
-- backend/services/rules.py: the rules that operators write. The value of a field is read out of
-- JSON data, tested, and the rule fires after enough consecutive cycles. Times are in minutes, as
-- the cooldown is. The conversions and regular expressions of Python are arguments.
pub mod Values
pub mod Firing
pub mod Paths
mod Tests
use b8mon.Base.{
  ℕ, zero, suc, ◌+◌, ◌-◌, ◌*◌, max, String, Bool, true, false, not, ◌&&◌, ◌||◌, Option, none, some,
  List, [], ◌∷◌, ◌++◌, ltb, leb, string_eq, nat_eq, ◌==◌, if◌then◌else◌, length, get_elem?, or_else,
  is_some, join, split, strip, lower, is_digits, starts_with, contains, Map, no_entries, assign,
  discard, positive_or, suffix, char_count,
}
use b8mon.AlertRules.Values.{Json, is_null, Python, extract_field, operator}

pub record AlertRule : Type 0 where
  pub id : ℕ
  pub field_path : String
  pub operator : String
  pub threshold : Json
  pub cooldown_minutes : ℕ
  pub required_consecutive : ℕ
  pub last_triggered_at : Option ℕ

pub data Reading : Type 0 where
  raised missing unknown_operator matched unmatched : Reading

module _ (py : Python) where
  -- What one cycle finds out about a rule. The data is nothing where the query raises.
  pub read_data : AlertRule → Option (Option Json) → Reading
  unfolding extract_field operator
  read_data r none = raised
  read_data r (some none) = missing
  read_data r (some (some data')) =
      let value = extract_field py data' r.field_path in
      if is_null value then missing else elim (operator py r.operator) [
        | none ↦ unknown_operator
        | some test ↦ elim (test value r.threshold) [
          | none ↦ raised
          | some true ↦ matched
          | some false ↦ unmatched
        ]
      ]

-- the count of matching log messages, nothing where the query raises
pub read_syslog : Option ℕ → Reading
read_syslog none = raised
read_syslog (some n) = if ltb 0 n then matched else unmatched

-- `_consecutive_matches`
abbrev pub Matches : Type 0
Matches = Map ℕ ℕ

abbrev pub count_of : Matches → ℕ → ℕ
count_of m id = or_else (m id) 0

-- `max(1, rule.required_consecutive or 2)`
abbrev pub min_consecutive : AlertRule → ℕ
min_consecutive r = max 1 (positive_or (some r.required_consecutive) 2)

abbrev pub is_cooling : AlertRule → ℕ → Bool
is_cooling r now = elim r.last_triggered_at [
  | none ↦ false
  | some t ↦ ltb now (t + r.cooldown_minutes)
]

-- What became of a rule in a cycle: whether it triggered, its row, and the counts.
pub record Result : Type 0 where
  pub triggered : Bool
  pub rule : AlertRule
  pub matches : Matches

abbrev pub unchanged : AlertRule → Matches → Result
unchanged r m = record { triggered = false; rule = r; matches = m }

abbrev pub dropped : AlertRule → Matches → Result
dropped r m = record { triggered = false; rule = r; matches = discard r.id m }

-- a match; `fires` is whether `_fire_rule` returns, which sets the time and clears the count
pub count_match : AlertRule → ℕ → Bool → Matches → Result
count_match r now fires m =
    let n = suc (count_of m r.id) in
    if leb (min_consecutive r) n
    then (if fires
        then record {
          triggered = true;
          rule = record r { last_triggered_at = some now };
          matches = assign r.id 0 m;
        }
        else record { triggered = true; rule = r; matches = assign r.id n m })
    else record { triggered = false; rule = r; matches = assign r.id n m }

pub conclude : AlertRule → ℕ → Bool → Reading → Matches → Result
unfolding count_match
conclude r now fires raised m = unchanged r m
conclude r now fires unknown_operator m = unchanged r m
conclude r now fires missing m = dropped r m
conclude r now fires unmatched m = dropped r m
conclude r now fires matched m = count_match r now fires m

pub evaluate_rule : AlertRule → ℕ → Bool → Reading → Matches → Result
unfolding conclude
evaluate_rule r now fires reading m =
    if is_cooling r now then unchanged r m else conclude r now fires reading m

-- One cycle over the enabled rules: how many triggered, the rows, and the counts.
pub evaluate_rules :
    (AlertRule → Reading)
    → (AlertRule → Bool)
    → ℕ
    → List AlertRule
    → Matches
    → ℕ × List AlertRule × Matches
unfolding evaluate_rule
evaluate_rules readings fires now [] m = (0, [], m)
evaluate_rules readings fires now (r ∷ rs) m =
    let result = evaluate_rule r now (fires r) (readings r) m in
    let (n, rows, m') = evaluate_rules readings fires now rs result.matches in
    ((if result.triggered then suc n else n), result.rule ∷ rows, m')
