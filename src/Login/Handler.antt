-- ===== src/Login/Handler.antt =====
-- backend/routers/auth.py, `login`: the throttles, the lockout, the directory, and the local password.
use b8mon.Base.{
  ℕ, suc, ◌+◌, ◌*◌, String, Bool, Option, none, some, List, [], ◌∷◌, ◌++◌, string_eq, ◌==◌,
  if◌then◌else◌, or_else, is_some,
}
use b8mon.SharedState.Redis.{Shared}
use b8mon.RateLimit.{failed_auth_throttled, limited_call}
use b8mon.Ldap.{LdapUser, Client, is_blank, ldap_authenticate}
use b8mon.Login.{
  Python, User, Database, Attempt, Response, session_days, find_user, find_session, set_user,
  update_user, is_secure, log_action, record_failed_attempt, clear_failed_attempts, is_locked_out,
  get_ldap_config,
}

abbrev pub new_user : Attempt → LdapUser → ℕ → User
new_user a ldap id = record {
  id = id;
  username = a.username;
  password_hash = a.placeholder_hash;
  role = ldap.role;
  auth_source = "ldap";
  display_name = ldap.display_name;
}

-- the row of a user that logs in by the directory, found or created
unfoldable pub save_ldap_user : Attempt → LdapUser → Database → User × Database
unfolding update_user
save_ldap_user a ldap db = elim (find_user a.username db.users) [
  | some user ↦
      (update_user ldap user, record db { users = set_user (update_user ldap user) db.users })
  | none ↦
      let user = new_user a ldap db.next_user_id in
      (user, record db { users = db.users ++ user ∷ []; next_user_id = suc db.next_user_id })
]

module _ (py : Python) (client : Client) (secure_cookies : String) where
  -- nothing where the directory's client raises
  pub authenticate : Attempt → Database → Option (Option LdapUser)
  unfolding get_ldap_config ldap_authenticate
  authenticate a db = elim (get_ldap_config py db) [
    | none ↦ some none
    | some config ↦
        if config.server == ""
        then some none
        else ldap_authenticate client config a.username a.password
  ]

  -- The session is committed with the audit entry; a token that is taken already raises.
  unfoldable pub grant : String → Attempt → User → Database → Response × Database
  unfolding clear_failed_attempts log_action
  grant method a user db =
      let cleared = clear_failed_attempts py a.username db in
      if is_some (find_session (py.hash_token a.token) cleared.sessions)
      then (Response.integrity_error, cleared)
      else (
        Response.session_of user a.token (is_secure secure_cookies a.request),
        log_action a.request a.logged_at "auth.login" (some user.id) (some user.username)
            (some method)
            (record cleared {
              sessions =
                  cleared.sessions
                  ++ record {
                    token = py.hash_token a.token;
                    user_id = user.id;
                    expires_at = a.created_at + session_days * 86400;
                  }
                    ∷ [];
            }),
      )

  unfoldable pub refuse : String → Attempt → Database → Response × Database
  unfolding record_failed_attempt
  refuse message a db =
      (Response.error 401 message, record_failed_attempt py a.failed_at a.username db)

  unfoldable pub local_login : Attempt → Database → Response × Database
  unfolding grant refuse
  local_login a db = elim (find_user a.username db.users) [
    | none ↦ refuse "Invalid username or password" a db
    | some user ↦
        if user.auth_source == "ldap"
        then refuse "LDAP authentication failed" a db
        else if py.checkpw a.password user.password_hash
        then grant "local" a user db
        else refuse "Invalid username or password" a db
  ]

  unfoldable pub log_in : Attempt → Database → Option (Option LdapUser) → Response × Database
  unfolding local_login save_ldap_user grant
  log_in a db none = (Response.ldap_exception, db)
  log_in a db (some none) = local_login a db
  log_in a db (some (some ldap)) =
      let (user, db') = save_ldap_user a ldap db in grant "ldap" a user db'

  -- the handler behind both throttles
  unfoldable pub check_account : Attempt → Database → Response × Database
  unfolding is_locked_out refuse log_in authenticate
  check_account a db =
      if is_locked_out py a.locked_at a.username db
      then (Response.error 429 "Account temporarily locked. Try again later.", db)
      else if is_blank a.password
      then refuse "Invalid username or password" a db
      else log_in a db (authenticate a db)

  module _ (c : b8mon.SharedState.Redis.Client) (url : Bool) where
    -- the handler that the decorator wraps
    unfoldable pub throttled_login :
        Attempt → Database → Shared c → (Response × Database) × Shared c
    unfolding failed_auth_throttled check_account
    throttled_login a db s =
        let (throttled, s') =
          failed_auth_throttled c url a.request.client a.throttle_counted a.throttle_recorded s in
        if throttled
        then ((Response.error 429 "Too many attempts. Try again later.", db), s')
        else (check_account a db, s')

    unfoldable pub login : Attempt → Database × Shared c → Response × Database × Shared c
    unfolding limited_call throttled_login
    login a (db, s) =
        let (answer, s') =
          limited_call c url "routers.auth.login" (some a.request.client) 10 60 a.limit_counted
            a.limit_recorded (throttled_login a db) s in
        let (response, db') =
          or_else answer (Response.error 429 "Too many requests. Please try again later.", db) in
        (response, db', s')

    -- the answers to a sequence of calls, with the calls
    unfoldable pub logins :
        List Attempt → Database × Shared c → List (Attempt × Response) × Database × Shared c
    logins [] (db, s) = ([], db, s)
    logins (a ∷ attempts) (db, s) =
        let (response, db', s') = login a (db, s) in
        let (answers, db'', s'') = logins attempts (db', s') in ((a, response) ∷ answers, db'', s'')
