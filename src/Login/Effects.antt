-- ===== src/Login/Effects.antt =====
-- What an answer of `login` does to the sessions and the users.
use b8mon.Base.{
  ℕ, ◌+◌, String, Bool, true, false, ◌≡◌, refl, ◌∙◌, ap, inl, inr, Option, none, some, List, [],
  ◌∷◌, ◌++◌, Bool-cases, Option-cases, nat_eq, string_eq, ◌==◌, is_some, or_else, arith, ◌||◌,
}
use b8mon.SharedState.Redis.{Shared, window_count}
use b8mon.Ldap.{Client, LdapUser}
use b8mon.Login.{
  Python, User, Session, Database, Attempt, Response, find_user, find_session, set_user,
  update_user, log_action, clear_failed_attempts, record_failed_attempt,
}
use b8mon.Login.Answers.{login-cases}
use b8mon.Login.Handler.{save_ldap_user, grant, refuse, local_login, log_in, login, new_user}
use b8mon.Login.Sessions.{find_user_id}

abbrev pub has_user : ℕ → List User → Bool
has_user id users = is_some (find_user_id id users)

has_user-append :
    (id : ℕ) (users : List User) (user : User)
    → has_user id (users ++ user ∷ []) ≡ (has_user id users || user.id == id)
has_user-append id [] user = ground arith
has_user-append id (u ∷ users) user = ground (arith, has_user-append id users user)

has_user-set_user :
    (id : ℕ) (users : List User) (user : User)
    → has_user id (set_user user users) ≡ has_user id users
has_user-set_user id [] user = refl
has_user-set_user id (u ∷ users) user = ground (arith, has_user-set_user id users user)

has_user-find_user :
    (name : String) (users : List User) (user : User)
    → find_user name users ≡ some user
    → has_user user.id users ≡ true
has_user-find_user name [] user e = cc e
has_user-find_user name (u ∷ users) user e = elim (Bool-cases (u.username == name)) [
  | inl y ↦ ground (arith, ap (λ o. (or_else o u).id) (rw (find_user, y) at e))
  | inr n ↦ ground (arith, has_user-find_user name users user (rw (find_user, n) at e))
]

abbrev pub opens_session : Response → Bool
opens_session (Response.session_of user token secure) = true
opens_session r = false

-- no user is lost
abbrev pub Keeps : Database → Database → Type 0
Keeps db db' = (id : ℕ) → has_user id db.users ≡ true → has_user id db'.users ≡ true

module _ (py : Python) where
  abbrev pub new_session : Attempt → ℕ → Session
  new_session a id = record {
    token = py.hash_token a.token;
    user_id = id;
    expires_at = a.created_at + 604800;
  }

  pub data Effect (a : Attempt) (db : Database) : Response × Database → Type 0 where
    refused :
        (r : Response) (db' : Database)
        → opens_session r ≡ false
        → db'.sessions ≡ db.sessions
        → Keeps db db'
        → Effect a db (r, db')
    opened :
        (user : User) (secure : Bool) (db' : Database)
        → is_some (find_session (py.hash_token a.token) db.sessions) ≡ false
        → db'.sessions ≡ db.sessions ++ new_session a user.id ∷ []
        → has_user user.id db'.users ≡ true
        → Keeps db db'
        → Effect a db (Response.session_of user a.token secure, db')

  module _ (client : Client) (cookies : String) where
    grant-Effect :
        (method : String) (a : Attempt) (user : User) (db db' : Database)
        → db'.sessions ≡ db.sessions
        → has_user user.id db'.users ≡ true
        → Keeps db db'
        → Effect a db (grant py client cookies method a user db')
    unfolding grant clear_failed_attempts log_action
    grant-Effect method a user db db' e h k =
        elim (Bool-cases (is_some (find_session (py.hash_token a.token) db'.sessions))) [
          | inl y ↦ rw y (Effect.refused _ _ refl e k)
          | inr n ↦
              rw n (Effect.opened user _ _ (rw e at n) (λ i. e i ++ new_session a user.id ∷ []) h k)
        ]

    refuse-Effect :
        (a : Attempt) (db : Database) (message : String)
        → Effect a db (refuse py client cookies message a db)
    unfolding refuse record_failed_attempt
    refuse-Effect a db message = Effect.refused _ _ refl refl (λ id h. h)

    local_login-Effect :
        (a : Attempt) (db : Database) → Effect a db (local_login py client cookies a db)
    unfolding local_login
    local_login-Effect a db = elim (Option-cases (find_user a.username db.users)) [
      | inl n ↦ rw (local_login, n) (refuse-Effect a db "Invalid username or password")
      | inr (user, y) ↦ elim (Bool-cases (user.auth_source == "ldap")) [
        | inl l ↦ rw (local_login, y, l) (refuse-Effect a db "LDAP authentication failed")
        | inr l ↦ elim (Bool-cases (py.checkpw a.password user.password_hash)) [
          | inl p ↦
              rw (local_login, y, l, p)
                (grant-Effect "local" a user db db refl
                  (has_user-find_user a.username db.users user y) (λ id h. h))
          | inr p ↦ rw (local_login, y, l, p) (refuse-Effect a db "Invalid username or password")
        ]
      ]
    ]

    save_ldap_user-sessions :
        (a : Attempt) (db : Database) (ldap : LdapUser)
        → ((save_ldap_user a ldap db).1.sessions ≡ db.sessions)
          × (has_user (save_ldap_user a ldap db).0.id (save_ldap_user a ldap db).1.users ≡ true)
          × Keeps db (save_ldap_user a ldap db).1
    unfolding save_ldap_user update_user
    save_ldap_user-sessions a db ldap = elim (Option-cases (find_user a.username db.users)) [
      | inl n ↦
          rw (save_ldap_user, n)
            (
              refl,
              ground (
                arith,
                has_user-append db.next_user_id db.users (new_user a ldap db.next_user_id),
              ),
              λ id h.
                  ground (arith, h, has_user-append id db.users (new_user a ldap db.next_user_id)),
            )
      | inr (user, y) ↦
          rw (save_ldap_user, y)
            (
              refl,
              has_user-set_user user.id db.users (update_user ldap user)
                  ∙ has_user-find_user a.username db.users user y,
              λ id h. has_user-set_user id db.users (update_user ldap user) ∙ h,
            )
    ]

    log_in-Effect :
        (a : Attempt) (db : Database) (answer : Option (Option LdapUser))
        → Effect a db (log_in py client cookies a db answer)
    unfolding log_in
    log_in-Effect a db none = Effect.refused _ _ refl refl (λ id h. h)
    log_in-Effect a db (some none) = local_login-Effect a db
    log_in-Effect a db (some (some ldap)) =
        let (e, h, k) = save_ldap_user-sessions a db ldap in grant-Effect "ldap" a _ db _ e h k

    module _ (c : b8mon.SharedState.Redis.Client) (url : Bool) where
      pub login-Effect :
          (a : Attempt) (db : Database) (s : Shared c)
          → let (response, db', s') = login py client cookies c url a (db, s) in
            Effect a db (response, db')
      login-Effect a db s =
          login-cases py client cookies a db (Effect a db)
            (λ message. Effect.refused _ _ refl refl (λ id h. h))
            (λ o. refuse-Effect a db "Invalid username or password") (λ o. log_in-Effect a db) c url
            s
