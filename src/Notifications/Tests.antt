-- ===== src/Notifications/Tests.antt =====
-- A title that comes three times, and settings under which nothing is sent and then something is.
use b8mon.Base.{
  String, ◌≡◌, refl, false, Option, none, some, List, [], ◌∷◌, arith, string_eq, no_entries,
}
use b8mon.Notifications.{Settings, Recent, is_rate_limited}
use b8mon.Notifications.Cooldown.{Call, verdicts, reference, Ordered, verdicts-cooldown}

abbrev calls : List Call
calls = ("Host down", 10) ∷ (" host DOWN ", 200) ∷ ("Host down", 400) ∷ []

calls-Ordered : Ordered 0 calls
calls-Ordered = (omega arith, (omega arith, (omega arith, tt)))

verdicts-cooldown_example : verdicts calls no_entries ≡ reference calls no_entries
verdicts-cooldown_example = verdicts-cooldown calls calls-Ordered

abbrev settings : String → Settings
settings enabled = record {
  enabled = enabled;
  telegram_bot_token = "";
  telegram_chat_id = "";
  discord_webhook_url = "https://discord.example/hook";
  webhook_url = "";
  smtp_host = "";
  smtp_port = some 587;
  smtp_user = "";
  smtp_password = "";
  smtp_to = "";
  telegram_min_severity = "all";
  discord_min_severity = "warning";
  webhook_min_severity = "all";
  email_min_severity = "all";
}

abbrev no_titles : Recent
no_titles = no_entries

abbrev send : String → Option String
send channel = none

goes_through : (is_rate_limited "Host down" 10 no_titles).0 ≡ false
unfolding is_rate_limited
goes_through = refl
