-- ===== src/Login/Failures.antt =====
-- What an answer of `login` says of the account's failed attempts, and what it stores.
use b8mon.Base.{
  ℕ, String, Bool, false, ◌≡◌, refl, ap, inl, inr, Option, none, some, List, [], ◌∷◌, ◌++◌,
  Bool-cases, Option-cases, nat_eq, string_eq, ◌==◌, if◌then◌else◌, is_some, assign,
}
use b8mon.SharedState.Redis.{Shared, window_count, incr_window}
use b8mon.Ldap.{Client, LdapUser}
use b8mon.Login.{
  Python, User, Database, Attempt, Response, find_user, find_session, record_failed_attempt,
  clear_failed_attempts, is_locked_out, log_action, lockout_key,
}
use b8mon.Login.Answers.{login-cases}
use b8mon.Login.Handler.{save_ldap_user, grant, refuse, local_login, log_in, login}

-- The times of the failed attempts on an account since the last success, after another attempt on it.
-- A success is one also where the session cannot be stored.
abbrev pub after_answer : Attempt → Response → List ℕ → List ℕ
after_answer a (Response.error status message) log =
    if status == 401 then log ++ a.failed_at ∷ [] else log
after_answer a (Response.session_of user token secure) log = []
after_answer a Response.ldap_exception log = log
after_answer a Response.integrity_error log = []

module _ (py : Python) where
  pub data Verdict (a : Attempt) (db : Database) : Response × Database → Type 0 where
    unchanged :
        (r : Response) → ((log : List ℕ) → after_answer a r log ≡ log) → Verdict a db (r, db)
    failed :
        (message : String)
        → is_locked_out py a.locked_at a.username db ≡ false
        → Verdict a db
            (Response.error 401 message, record_failed_attempt py a.failed_at a.username db)
    succeeded :
        (r : Response) (db' : Database)
        → ((log : List ℕ) → after_answer a r log ≡ [])
        → db'.settings ≡ (clear_failed_attempts py a.username db).settings
        → Verdict a db (r, db')

  module _ (client : Client) (cookies : String) where
    grant-Verdict :
        (method : String) (a : Attempt) (user : User) (db db' : Database)
        → db'.settings ≡ db.settings
        → Verdict a db (grant py client cookies method a user db')
    unfolding grant clear_failed_attempts log_action
    grant-Verdict method a user db db' e =
        let same = ap (assign (lockout_key a.username) "[]") e in
        elim (Bool-cases (is_some (find_session (py.hash_token a.token) db'.sessions))) [
          | inl y ↦ rw y (Verdict.succeeded _ _ (λ log. refl) same)
          | inr n ↦ rw n (Verdict.succeeded _ _ (λ log. refl) same)
        ]

    module _ (a : Attempt) (db : Database)
        (o : is_locked_out py a.locked_at a.username db ≡ false) where
      refuse-Verdict : (message : String) → Verdict a db (refuse py client cookies message a db)
      unfolding refuse
      refuse-Verdict message = Verdict.failed message o

      local_login-Verdict : Verdict a db (local_login py client cookies a db)
      unfolding local_login
      local_login-Verdict = elim (Option-cases (find_user a.username db.users)) [
        | inl n ↦ rw (local_login, n) (refuse-Verdict "Invalid username or password")
        | inr (user, y) ↦ elim (Bool-cases (user.auth_source == "ldap")) [
          | inl l ↦ rw (local_login, y, l) (refuse-Verdict "LDAP authentication failed")
          | inr l ↦ elim (Bool-cases (py.checkpw a.password user.password_hash)) [
            | inl p ↦ rw (local_login, y, l, p) (grant-Verdict "local" a user db db refl)
            | inr p ↦ rw (local_login, y, l, p) (refuse-Verdict "Invalid username or password")
          ]
        ]
      ]

      save_ldap_user-settings :
          (ldap : LdapUser) → (save_ldap_user a ldap db).1.settings ≡ db.settings
      unfolding save_ldap_user
      save_ldap_user-settings ldap = elim (Option-cases (find_user a.username db.users)) [
        | inl n ↦ rw (save_ldap_user, n) refl
        | inr (user, y) ↦ rw (save_ldap_user, y) refl
      ]

      log_in-Verdict :
          (answer : Option (Option LdapUser)) → Verdict a db (log_in py client cookies a db answer)
      unfolding log_in
      log_in-Verdict none = Verdict.unchanged _ (λ log. refl)
      log_in-Verdict (some none) = local_login-Verdict
      log_in-Verdict (some (some ldap)) =
          grant-Verdict "ldap" a _ db _ (save_ldap_user-settings ldap)

    module _ (c : b8mon.SharedState.Redis.Client) (url : Bool) where
      pub login-Verdict :
          (a : Attempt) (db : Database) (s : Shared c)
          → let (response, db', s') = login py client cookies c url a (db, s) in
            Verdict a db (response, db')
      login-Verdict a db s =
          login-cases py client cookies a db (Verdict a db)
            (λ message. Verdict.unchanged _ (λ log. refl))
            (λ o. refuse-Verdict a db o "Invalid username or password") (log_in-Verdict a db) c url
            s
