-- ===== src/Notifications.antt =====
-- backend/notifications.py: when a notification goes out, and on which channels. The clock's
-- readings are in whole seconds. What a channel's send returns is an argument, its error's text or
-- nothing; the bodies of the messages are left out.
pub mod Cooldown
mod Tests
use b8mon.Base.{
  ℕ, zero, suc, ◌+◌, ◌*◌, String, Bool, true, false, not, ◌&&◌, ◌||◌, Option, none, some, List, [],
  ◌∷◌, ◌++◌, ltb, leb, string_eq, ◌==◌, if◌then◌else◌, keep, is_empty, contains, Map, no_entries,
  assign, strip, lower,
}

abbrev pub cooldown_seconds : ℕ
cooldown_seconds = 300

-- `_recent`
abbrev pub Recent : Type 0
Recent = Map String ℕ

-- without the entries of `stale`
abbrev pub forget_stale : ℕ → Recent → Recent
forget_stale now recent k = elim (recent k) [
  | none ↦ none
  | some v ↦ if ltb (v + cooldown_seconds * 2) now then none else some v
]

-- `key in _recent and now - _recent[key] < _COOLDOWN_SECONDS`
abbrev pub is_cooling : ℕ → Option ℕ → Bool
is_cooling now none = false
is_cooling now (some v) = ltb now (v + cooldown_seconds)

-- `strip` and `lower` act on ASCII characters, as far as they are modelled
abbrev pub title_key : String → String
title_key title = lower (strip title)

pub is_rate_limited : String → ℕ → Recent → Bool × Recent
is_rate_limited title now recent =
    let kept = forget_stale now recent in
    if is_cooling now (kept (title_key title))
    then (true, kept)
    else (false, assign (title_key title) now kept)

-- `_SEVERITY_LEVELS.get(severity, 7)`
abbrev pub severity_level : String → ℕ
severity_level severity =
    if severity == "critical"
    then 2
    else if severity == "error"
    then 3
    else if severity == "warning"
    then 4
    else 7

pub severity_passes : String → String → Bool
severity_passes incident_severity min_severity =
    if min_severity == "" || min_severity == "all"
    then true
    else leb (severity_level incident_severity) (severity_level min_severity)

-- The settings that decide whether a channel is used.
pub record Settings : Type 0 where
  pub enabled : String
  pub telegram_bot_token : String
  pub telegram_chat_id : String
  pub discord_webhook_url : String
  pub webhook_url : String
  pub smtp_host : String
  -- `int(smtp_port)`, nothing where it raises
  pub smtp_port : Option ℕ
  pub smtp_user : String
  pub smtp_password : String
  pub smtp_to : String
  pub telegram_min_severity : String
  pub discord_min_severity : String
  pub webhook_min_severity : String
  pub email_min_severity : String

abbrev pub filled : String → Bool
filled t = not (t == "")

abbrev use_if : Bool → String → List String
use_if true name = name ∷ []
use_if false name = []

-- The channels that are configured for a severity; nothing where the mail port is no number.
pub configured : Settings → String → Option (List String)
unfolding severity_passes
configured s severity =
    let others =
      use_if
        (filled s.telegram_bot_token
          && filled s.telegram_chat_id
          && severity_passes severity s.telegram_min_severity)
        "telegram"
      ++ use_if (filled s.discord_webhook_url && severity_passes severity s.discord_min_severity)
          "discord"
      ++ use_if (filled s.webhook_url && severity_passes severity s.webhook_min_severity)
          "webhook" in
    if filled s.smtp_host
      && filled s.smtp_user
      && filled s.smtp_password
      && filled s.smtp_to
      && severity_passes severity s.email_min_severity
    then elim s.smtp_port [ none ↦ none | some port ↦ some (others ++ "email" ∷ []) ]
    else some others

-- `if channels:` an empty list asks for all
abbrev pub requested : Option (List String) → String → Bool
requested none name = true
requested (some []) name = true
requested (some (c ∷ cs)) name = contains name (c ∷ cs)

pub record LogEntry : Type 0 where
  pub channel : String
  pub title : String
  pub message : String
  pub severity : String
  pub status : String
  pub error : Option String

abbrev pub entry_of : (String → Option String) → String → String → String → String → LogEntry
entry_of send title message severity name = elim (send name) [
  | none ↦ record {
    channel = name;
    title = title;
    message = message;
    severity = severity;
    status = "sent";
    error = none;
  }
  | some text ↦ record {
    channel = name;
    title = title;
    message = message;
    severity = severity;
    status = "failed";
    error = some text;
  }
]

abbrev pub entries :
    (String → Option String) → String → String → String → List String → List LogEntry
entries send title message severity [] = []
entries send title message severity (name ∷ names) =
    entry_of send title message severity name ∷ entries send title message severity names

-- What is logged, one entry for each send; nothing where the call raises.
pub notify :
    Settings
    → (String → Option String)
    → String
    → String
    → String
    → Option (List String)
    → ℕ
    → Recent
    → Option (List LogEntry) × Recent
unfolding is_rate_limited configured
notify s send title message severity channels now recent =
    let (limited, recent') = is_rate_limited title now recent in
    if limited then (some [], recent') else if not (s.enabled == "1") then (some [], recent') else (
      elim (configured s severity) [
        | none ↦ none
        | some names ↦ some (entries send title message severity (keep (requested channels) names))
      ],
      recent',
    )
