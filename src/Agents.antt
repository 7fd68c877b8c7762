-- ===== src/Agents.antt =====
-- backend/routers/agents.py: how an agent enrols with an install token or the shared key, and how its
-- reports are authenticated. The token hash, `fnmatch` and reverse DNS are arguments. Text is ASCII
-- where case or blanks matter.
pub mod Enroll
pub mod Admitted
pub mod Reports
mod Tests
use Prim.Native.Char.{Char, code}
use b8mon.Base.{
  ℕ, suc, ◌+◌, String, Bool, true, false, not, ◌&&◌, ◌||◌, Option, none, some, List, [], ◌∷◌, ltb,
  leb, any, nat_eq, string_eq, ◌==◌, if◌then◌else◌, or_else, text_or, lower, strip, split, contains,
  char_count, is_some, starts_with, without,
}

pub record Python : Type 0 where
  pub hash_agent_token : String → String
  pub hash_agent_token_legacy : String → String
  pub hash_install_token : String → String
  -- `fnmatch.fnmatchcase(name, pattern)`
  pub fnmatchcase : String → String → Bool
  -- the name that `socket.gethostbyaddr` gives, nothing where it raises
  pub reverse_dns : String → Option String

pub record Agent : Type 0 where
  pub id : ℕ
  pub name : String
  pub hostname : String
  pub token : String
  pub platform : String
  pub arch : String
  pub agent_version : String
  pub enabled : Bool
  pub pending_command : Option String
  pub last_seen : Option ℕ

pub record AgentInstallToken : Type 0 where
  pub token_hash : String
  pub revoked : Bool
  pub expires_at : ℕ
  pub hostname_pattern : Option String
  pub used_count : ℕ
  pub last_used_at : Option ℕ

pub record PingHost : Type 0 where
  pub name : String
  pub hostname : String
  pub ip_address : Option String
  pub check_type : String
  pub source : String
  pub source_detail : String

pub record Database : Type 0 where
  pub agents : List Agent
  pub next_agent_id : ℕ
  pub install_tokens : List AgentInstallToken
  pub ping_hosts : List PingHost
  -- the setting `agent_enrollment_key`
  pub agent_enrollment_key : Option String

-- A call of `agent_enroll`: the fields of its body, the address of the connection, what the clock says
-- at each reading, and what is drawn at random. A field of the body that is no text
-- is left out.
pub record Enrollment : Type 0 where
  pub enrollment_key : String
  pub hostname : String
  pub platform : String
  pub arch : String
  pub client : Option String
  pub checked_at : ℕ
  pub used_at : ℕ
  pub seen_at : ℕ
  pub raw_token : String
  pub new_key : String

-- `NODEGLOW_ALLOW_SHARED_ENROLLMENT`
pub shared_enrollment_allowed : String → Bool
unfolding strip
shared_enrollment_allowed variable = any (λ v. v == strip variable) ("1" ∷ "true" ∷ "yes" ∷ [])

is_alphanumeric : ℕ → Bool
is_alphanumeric c = leb 97 c && leb c 122 || leb 65 c && leb c 90 || leb 48 c && leb c 57

host_characters : String → Bool
host_characters String.[] = true
host_characters (String.◌∷◌ c s) =
    (is_alphanumeric (code c) || code c == 46 || code c == 45) && host_characters s

-- `^[a-zA-Z0-9][a-zA-Z0-9.\-]*$`, for a text without a line break at its end
matches_hostname : String → Bool
unfolding is_alphanumeric host_characters
matches_hostname String.[] = false
matches_hostname (String.◌∷◌ c s) = is_alphanumeric (code c) && host_characters s

pub is_valid_hostname : String → Bool
unfolding matches_hostname
is_valid_hostname hostname = leb (char_count hostname) 253 && matches_hostname hostname

abbrev pub find_install_token : String → List AgentInstallToken → Option AgentInstallToken
find_install_token h [] = none
find_install_token h (t ∷ tokens) =
    if t.token_hash == h then some t else find_install_token h tokens

-- the row with a hash, used once more
abbrev pub use_install_token : String → ℕ → List AgentInstallToken → List AgentInstallToken
use_install_token h now [] = []
use_install_token h now (t ∷ tokens) =
    (if t.token_hash == h
      then record t { used_count = t.used_count + 1; last_used_at = some now }
      else t)
    ∷ use_install_token h now tokens

module _ (py : Python) where
  pub matches_pattern : String → Option String → Bool
  unfolding strip lower
  matches_pattern hostname pattern =
      let pat = lower (strip (text_or pattern "")) in
      pat == "" || py.fnmatchcase (lower hostname) pat

  -- why a token cannot be used, or "ok"
  pub judge_token : String → ℕ → Option AgentInstallToken → String
  unfolding matches_pattern
  judge_token hostname now none = "unknown"
  judge_token hostname now (some row) =
      if row.revoked
      then "revoked"
      else if leb row.expires_at now
      then "expired"
      else if matches_pattern hostname row.hostname_pattern
      then "ok"
      else "hostname_mismatch"

  -- Where the token cannot be used, the session is rolled back.
  pub consume_install_token : Enrollment → String → Database → Bool × Database
  unfolding judge_token
  consume_install_token e hostname db =
      let h = py.hash_install_token e.enrollment_key in
      if judge_token hostname e.checked_at (find_install_token h db.install_tokens) == "ok"
      then (true, record db { install_tokens = use_install_token h e.used_at db.install_tokens })
      else (false, db)

-- the shared key, made where there is none
pub get_enrollment_key : Enrollment → Database → String × Database
get_enrollment_key e db =
    if text_or db.agent_enrollment_key "" == ""
    then (e.new_key, record db { agent_enrollment_key = some e.new_key })
    else (text_or db.agent_enrollment_key "", db)
