-- ===== src/LogIntelligence/Messages.antt =====
-- `process_message` as a whole, and the noise score of a template.
use text.Mathlib.Text.{find?}
use b8mon.Base.{
  ℕ, ◌+◌, ◌-◌, ◌*◌, ◌≤◌, min, max, String, Bool, true, false, not, ◌&&◌, ◌||◌, Option, none, some,
  List, [], ◌∷◌, arith, ltb, leb, string_eq, if◌then◌else◌, is_some, Map, contains, any, length,
  or_else, Bool-cases, inl, inr,
}
use b8mon.LogIntelligence.{
  Message, Cache, BurstState, is_new_template, count_template, check_burst, get, dq_of,
}

pub record Enrichment : Type 0 where
  pub template_hash : String
  pub tags : List String
  pub is_new_template : Bool
  pub noise_score : ℕ
  pub is_burst : Bool

-- the estimate for immediate use; the counter is the one after this message
rough_noise : Bool → Bool → Bool → ℕ → ℕ
rough_noise new burst cached count =
    if new then 10 else if burst then 85 else if cached && ltb 100 count then 80 else 50

-- `severity is not None and severity <= 3`
abbrev pub is_error : Option ℕ → Bool
is_error none = false
is_error (some severity) = leb severity 3

pub process_message : Message → Option ℕ → ℕ → Cache × BurstState → Enrichment × Cache × BurstState
unfolding rough_noise
process_message m severity now (c, b) =
    let h = m.template_hash in
    let new = is_new_template h c in
    let c' = count_template m c in
    let b' = (check_burst h now b).1 in
    let noise =
      rough_noise new (b'.active h) (is_some (c.template_cache h))
        (or_else (get h c'.template_counts) 0) in
    (
      record {
        template_hash = h;
        tags = m.tags;
        is_new_template = new;
        noise_score = if is_error severity then noise - 20 else noise;
        is_burst = b'.active h;
      },
      c',
      b',
    )

-- the times of a deque in the last five minutes
unfoldable pub recent_count : ℕ → List ℕ → ℕ
recent_count now [] = 0
recent_count now (t ∷ dq) = (if leb now (t + 300) then 1 else 0) + recent_count now dq

-- `get_active_bursts`, for one template: what is reported, and whether it is still active
unfoldable pub report_burst : ℕ → Bool → List ℕ → Option ℕ × Bool
unfolding recent_count
report_burst now false dq = (none, false)
report_burst now true [] = (none, true)
report_burst now true (t ∷ dq) =
    if ltb (recent_count now (t ∷ dq)) 25
    then (none, false)
    else (some (recent_count now (t ∷ dq)), true)

-- The set has no order, so the list of bursts is a dict by hash.
unfoldable pub get_active_bursts : ℕ → BurstState → Map String ℕ × BurstState
unfolding report_burst
get_active_bursts now s = (
  λ h. (report_burst now (s.active h) (dq_of h s)).0,
  record s { active = λ h. (report_burst now (s.active h) (dq_of h s)).1 },
)

-- The parts of the score: what is added to 50, and what is taken off. `rate > n` is a comparison with
-- `n` times the active time, which is in seconds and at least six minutes.
frequency_bonus : ℕ → ℕ → ℕ
frequency_bonus count active =
    let seconds = max active 360 in
    if ltb (100 * seconds) (count * 3600)
    then 30
    else if ltb (50 * seconds) (count * 3600)
    then 20
    else if ltb (10 * seconds) (count * 3600)
    then 10
    else 0

frequency_malus : ℕ → ℕ → ℕ
frequency_malus count active = if ltb (count * 3600) (max active 360) then 10 else 0

severity_bonus : Option ℕ → ℕ
severity_bonus none = 0
severity_bonus (some severity) = if leb 6 severity then 10 else 0

severity_malus : Option ℕ → ℕ
severity_malus none = 0
severity_malus (some severity) =
    if leb severity 2 then 30 else if leb severity 3 then 15 else if leb severity 4 then 5 else 0

tag_bonus : List String → ℕ
tag_bonus tags = if contains "cron" tags then 5 else 0

-- `"started" not in str(tags)` looks for the text inside of every tag
tag_malus : List String → ℕ
tag_malus tags =
    (if contains "security" tags || contains "hardware" tags || contains "kernel" tags
      then 15
      else 0)
    + (if contains "database" tags then 10 else 0)
    + (if contains "service" tags && not (any (λ t. is_some (find? t "started")) tags)
        then 5
        else 0)
    + (if leb 3 (length tags) then 10 else 0)

novelty_malus : ℕ → ℕ
novelty_malus age = if ltb age 3600 then 25 else if ltb age 86400 then 10 else 0

pub compute_noise_score : ℕ → ℕ → ℕ → Option ℕ → List String → Bool → ℕ
compute_noise_score count active age severity tags is_precursor = min 100 (
    50
    + frequency_bonus count active
    + severity_bonus severity
    + tag_bonus tags
    - (frequency_malus count active
        + severity_malus severity
        + tag_malus tags
        + novelty_malus age
        + (if is_precursor then 30 else 0)))

frequency_bonus-le : (count active : ℕ) → frequency_bonus count active ≤ 30
unfolding frequency_bonus
frequency_bonus-le count active = ground arith

severity_bonus-le : (severity : Option ℕ) → severity_bonus severity ≤ 10
unfolding severity_bonus
severity_bonus-le none = omega arith
severity_bonus-le (some s) = ground arith

tag_bonus-le : (tags : List String) → tag_bonus tags ≤ 5
unfolding tag_bonus
tag_bonus-le tags = elim (Bool-cases (contains "cron" tags)) [
  | inl y ↦ rw y (omega arith)
  | inr n ↦ rw n (omega arith)
]

-- The score of a precursor is at most 65, and never above what it is without that.
pub compute_noise_score_precursor :
    (count active age : ℕ) (severity : Option ℕ) (tags : List String)
    → (compute_noise_score count active age severity tags true ≤ 65)
      × (compute_noise_score count active age severity tags true
          ≤ compute_noise_score count active age severity tags false)
unfolding compute_noise_score
compute_noise_score_precursor count active age severity tags =
    omega (arith, frequency_bonus-le count active, severity_bonus-le severity, tag_bonus-le tags)
