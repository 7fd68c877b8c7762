-- ===== src/Login.antt =====
-- backend/routers/auth.py and the sessions of backend/models/settings.py: logging in by the directory
-- or by a local password, and the lockout of an account. JSON, bcrypt, the token hashes and decryption
-- are arguments. Times are whole seconds.
pub mod Handler
pub mod Sessions
pub mod Stored
pub mod Lockout
pub mod Failures
pub mod Answers
pub mod Effects
pub mod Rows
pub mod Apart
pub mod Kept
pub mod Tokens
mod Tests
use Prim.Native.String.{◌++◌ as ◌⧺◌}
use b8mon.Base.{
  ℕ, suc, ◌+◌, ◌*◌, String, Bool, true, false, not, ◌&&◌, ◌||◌, Option, none, some, List, [], ◌∷◌,
  ◌++◌, keep, any, length, ltb, leb, nat_eq, string_eq, ◌==◌, if◌then◌else◌, or_else, is_some,
  text_or, lower, Map, assign,
}
use b8mon.SharedState.Redis.{Shared}
use b8mon.RateLimit.{failed_auth_throttled, limited_call}
use b8mon.Ldap.{LdapConfig, LdapUser, Client, is_blank, ldap_authenticate}

pub record Python : Type 0 where
  -- `json.loads`, nothing where it raises, and `json.dumps` of a list of times
  pub loads : String → Option (List ℕ)
  pub dumps : List ℕ → String
  -- `bcrypt.checkpw(password, stored)`, for hashes that bcrypt can read
  pub checkpw : String → String → Bool
  -- `decrypt_value`, nothing where it raises
  pub decrypt_value : String → Option String
  pub hash_token : String → String
  pub hash_token_legacy : String → String

pub record User : Type 0 where
  pub id : ℕ
  pub username : String
  pub password_hash : String
  pub role : String
  pub auth_source : String
  pub display_name : String

pub record Session : Type 0 where
  pub token : String
  pub user_id : ℕ
  pub expires_at : ℕ

pub record AuditLog : Type 0 where
  pub timestamp : ℕ
  pub user : Option User
  pub action : String
  pub target_id : Option ℕ
  pub target_name : Option String
  pub method : Option String
  pub ip_address : Option String

-- The settings are by key, and decrypted.
pub record Database : Type 0 where
  pub settings : Map String String
  pub users : List User
  pub next_user_id : ℕ
  pub sessions : List Session
  pub audit : List AuditLog

pub record Request : Type 0 where
  -- the address of the direct connection, the user of the request's own session, and the cookie
  pub client : Option String
  pub current_user : Option User
  pub cookie : Option String
  pub scheme : String
  pub forwarded_proto : Option String

-- A call of `login`: the request and its body, what the clock says at each reading, and what is drawn
-- at random.
pub record Attempt : Type 0 where
  pub request : Request
  pub username : String
  pub password : String
  pub limit_counted : ℕ
  pub limit_recorded : ℕ
  pub throttle_counted : ℕ
  pub throttle_recorded : ℕ
  pub locked_at : ℕ
  pub failed_at : ℕ
  pub created_at : ℕ
  pub logged_at : ℕ
  pub token : String
  pub placeholder_hash : String

-- An answer, or the exception that is raised.
pub data Response : Type 0 where
  error : ℕ → String → Response
  session_of : User → String → Bool → Response
  ldap_exception : Response
  integrity_error : Response

abbrev pub session_days : ℕ
session_days = 7

abbrev pub lockout_attempts : ℕ
lockout_attempts = 5

abbrev pub lockout_window : ℕ
lockout_window = 900

abbrev pub get_setting : Database → String → String → String
get_setting db key default = or_else (db.settings key) default

abbrev pub set_setting : Database → String → String → Database
set_setting db key value = record db { settings = assign key value db.settings }

abbrev pub lockout_key : String → String
lockout_key username = "_lockout:" ⧺ username

-- `[t for t in attempts if t > now - 900]`
abbrev pub recent : ℕ → List ℕ → List ℕ
recent now attempts = keep (λ t. ltb now (t + lockout_window)) attempts

pub log_action :
    Request → ℕ → String → Option ℕ → Option String → Option String → Database → Database
log_action request now action target_id target_name method db = record db {
  audit =
      db.audit
      ++ record {
        timestamp = now;
        user = request.current_user;
        action = action;
        target_id = target_id;
        target_name = target_name;
        method = method;
        ip_address = request.client;
      }
        ∷ [];
}

abbrev pub find_user : String → List User → Option User
find_user name [] = none
find_user name (u ∷ users) = if u.username == name then some u else find_user name users

abbrev pub find_session : String → List Session → Option Session
find_session token [] = none
find_session token (s ∷ sessions) = if s.token == token then some s else find_session token sessions

-- the row of a user, changed
abbrev pub set_user : User → List User → List User
set_user user [] = []
set_user user (u ∷ users) = (if u.id == user.id then user else u) ∷ set_user user users

pub update_user : LdapUser → User → User
update_user ldap user = record user {
  auth_source = "ldap";
  role = if ldap.role == "" then user.role else ldap.role;
  display_name = if ldap.display_name == "" then user.display_name else ldap.display_name;
}

-- whether the cookie is only sent over https
pub is_secure : String → Request → Bool
unfolding lower
is_secure secure_cookies request =
    any (λ v. v == lower secure_cookies) ("1" ∷ "true" ∷ "yes" ∷ [])
    || request.scheme == "https"
    || or_else request.forwarded_proto "" == "https"

module _ (py : Python) where
  pub get_failed_attempts : Database → String → List ℕ
  get_failed_attempts db username =
      or_else (py.loads (get_setting db (lockout_key username) "[]")) []

  pub record_failed_attempt : ℕ → String → Database → Database
  unfolding get_failed_attempts
  record_failed_attempt now username db =
      set_setting db (lockout_key username)
        (py.dumps (recent now (get_failed_attempts db username) ++ now ∷ []))

  pub clear_failed_attempts : String → Database → Database
  clear_failed_attempts username db = set_setting db (lockout_key username) "[]"

  pub is_locked_out : ℕ → String → Database → Bool
  unfolding get_failed_attempts
  is_locked_out now username db =
      leb lockout_attempts (length (recent now (get_failed_attempts db username)))

  pub get_ldap_config : Database → Option LdapConfig
  get_ldap_config db =
      let setting = get_setting db in
      if setting "ldap_enabled" "0" == "1"
      then some (record {
        server = setting "ldap_server" "";
        bind_dn = setting "ldap_bind_dn" "";
        bind_password =
            if setting "ldap_bind_password" "" == ""
            then ""
            else or_else (py.decrypt_value (setting "ldap_bind_password" ""))
                (setting "ldap_bind_password" "");
        base_dn = setting "ldap_base_dn" "";
        user_filter =
            setting "ldap_user_filter" "(&(objectClass=person)(sAMAccountName={username}))";
        display_attr = setting "ldap_display_attr" "displayName";
        group_attr = setting "ldap_group_attr" "memberOf";
        admin_group = setting "ldap_admin_group" "";
        editor_group = setting "ldap_editor_group" "";
        use_ssl = setting "ldap_use_ssl" "0" == "1";
        start_tls = setting "ldap_start_tls" "0" == "1";
      })
      else none
