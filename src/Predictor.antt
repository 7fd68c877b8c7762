-- ===== src/Predictor.antt =====
-- backend/services/predictor_config.py: the operators' settings of the precursor predictor. JSON,
-- regular expressions and conversions of Python are an argument. Confidences are whole millionths.
pub mod Blacklist
pub mod Example
mod Tests
use b8mon.Base.{
  ℕ, String, Bool, true, false, ◌&&◌, Option, none, some, List, [], ◌∷◌, ◌++◌, keep, any, contains,
  ltb, leb, string_eq, ◌==◌, if◌then◌else◌, text_or, Map, assign,
}

pub record Python : Type 0 where
  -- `json.loads`; nothing if it raises or gives no list of texts
  pub loads : String → Option (List String)
  pub dumps : List String → String
  -- whether `re.compile(pattern, re.IGNORECASE)` returns, and whether its `search` finds a match
  pub compiles : String → Bool
  pub search : String → String → Bool
  pub escape : String → String
  -- `float` in millionths and `int`; nothing if they raise, or give NaN or less than 0
  pub to_float : String → Option ℕ
  pub to_int : String → Option ℕ

-- the table of settings, by key
abbrev pub Settings : Type 0
Settings = Map String String

abbrev pub default_min_confidence : ℕ
default_min_confidence = 850000

abbrev pub default_min_occurrences : ℕ
default_min_occurrences = 20

abbrev pub default_blacklist_patterns : List String
default_blacklist_patterns =
    "udhcpc\\[" ∷ "dhclient\\b" ∷ "systemd-timesyncd" ∷ "chronyd.*(synchronised|Selected source)"
    ∷ "CRON\\[\\d+\\]" ∷ "logrotate" ∷ "session-\\d+\\.scope" ∷ "pam_unix.*session opened"
    ∷ "ntpd.*bad address" ∷ "wlan_objmgr_iterate_log_del_obj" ∷ "MCA: compress failed"
    ∷ "hostapd.*FT: RRB wpa_auth is null"
    ∷ "wpa_supplicant.*bgscan.*Failed to enable signal strength"
    ∷ "mcad.*teleport.*Failed to get teleport clients" ∷ "qos_sta_control" ∷ "trace\\.put_trace"
    ∷ "ace_reporter\\.reporter_fail" ∷ []

abbrev pub get_setting : Settings → String → String
get_setting settings key = text_or (settings key) ""

module _ (py : Python) where
  pub get_min_confidence : Settings → ℕ
  get_min_confidence settings =
      if get_setting settings "predictor_min_confidence" == ""
      then default_min_confidence
      else elim (py.to_float (get_setting settings "predictor_min_confidence")) [
        | none ↦ default_min_confidence
        | some value ↦ if ltb 0 value && leb value 1000000 then value else default_min_confidence
      ]

  pub get_min_occurrences : Settings → ℕ
  get_min_occurrences settings =
      if get_setting settings "predictor_min_occurrences" == ""
      then default_min_occurrences
      else elim (py.to_int (get_setting settings "predictor_min_occurrences")) [
        | none ↦ default_min_occurrences
        | some value ↦ if ltb value 1 then default_min_occurrences else value
      ]

  -- the stored patterns, or the defaults where there are none or they are malformed
  patterns : Settings → List String
  patterns settings =
      if get_setting settings "predictor_template_blacklist" == ""
      then default_blacklist_patterns
      else elim (py.loads (get_setting settings "predictor_template_blacklist")) [
        | none ↦ default_blacklist_patterns
        | some list ↦ list
      ]

  -- a compiled expression is its pattern
  pub get_blacklist_regexes : Settings → List String
  get_blacklist_regexes settings = keep py.compiles (patterns settings)

  -- nothing where `re.compile` raises
  pub add_to_blacklist : String → Settings → Option Settings
  add_to_blacklist pattern settings =
      if pattern == ""
      then some settings
      else if py.compiles pattern
      then (if contains pattern (patterns settings)
          then some settings
          else some (
              assign "predictor_template_blacklist" (py.dumps (patterns settings ++ pattern ∷ []))
                settings))
      else none

  pub is_template_blacklisted : String → List String → Bool
  is_template_blacklisted text regexes =
      if text == "" then false else any (λ rx. py.search rx text) regexes
