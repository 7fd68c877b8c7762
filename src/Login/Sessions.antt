-- ===== src/Login/Sessions.antt =====
-- Whose request a request is (`get_current_user` of backend/models/settings.py), and `logout` and
-- `get_current_user_api` of backend/routers/auth.py.
use b8mon.Base.{
  ℕ, String, Bool, not, Option, none, some, List, [], ◌∷◌, keep, ltb, nat_eq, string_eq, ◌==◌,
  if◌then◌else◌, is_some, text_or,
}
use b8mon.SharedState.Redis.{Shared}
use b8mon.Ldap.{Client}
use b8mon.Login.{Python, User, Session, Database, Request, Attempt, find_session, log_action}
use b8mon.Login.Handler.{login}

abbrev pub find_user_id : ℕ → List User → Option User
find_user_id id [] = none
find_user_id id (u ∷ users) = if u.id == id then some u else find_user_id id users

-- the session with a token that has not expired
abbrev pub live_session : String → ℕ → List Session → Option Session
live_session token now sessions = elim (find_session token sessions) [
  | none ↦ none
  | some s ↦ if ltb now s.expires_at then some s else none
]

-- `session.token = new` of the row with the old token
abbrev pub rename_session : String → String → List Session → List Session
rename_session old new [] = []
rename_session old new (s ∷ sessions) =
    (if s.token == old then record s { token = new } else s) ∷ rename_session old new sessions

abbrev pub delete_session : String → List Session → List Session
delete_session token sessions = keep (λ s. not (s.token == token)) sessions

-- what a browser does: logging in, opening a page with a cookie, and logging out
pub data Visit : Type 0 where
  log_in : Attempt → Visit
  page : Option String → ℕ → Visit
  log_out : Request → ℕ → Visit

-- what a page leaves, which changes nothing where it raises
abbrev pub after_page : Database → Option (Option User × Database) → Database
after_page db none = db
after_page db (some (user, db')) = db'

module _ (py : Python) where
  -- A session of an old version gets today's hash; a row that has that already makes it raise.
  unfoldable pub current_by_legacy : String → ℕ → Database → Option (Option User × Database)
  current_by_legacy token now db =
      elim (live_session (py.hash_token_legacy token) now db.sessions) [
        | none ↦ some (none, db)
        | some s ↦
            if is_some (find_session (py.hash_token token) db.sessions)
            then none
            else some (
              find_user_id s.user_id db.users,
              record db {
                sessions =
                    rename_session (py.hash_token_legacy token) (py.hash_token token) db.sessions;
              },
            )
      ]

  unfoldable pub current_by_token : String → ℕ → Database → Option (Option User × Database)
  unfolding current_by_legacy
  current_by_token token now db =
      if token == ""
      then some (none, db)
      else elim (live_session (py.hash_token token) now db.sessions) [
        | some s ↦ some (find_user_id s.user_id db.users, db)
        | none ↦ current_by_legacy token now db
      ]

  unfoldable pub get_current_user : Option String → ℕ → Database → Option (Option User × Database)
  unfolding current_by_token
  get_current_user cookie now db = current_by_token (text_or cookie "") now db

  -- the id, the name and the role that the page shows, nothing for a 401
  pub get_current_user_api :
      Option String → ℕ → Database → Option (Option (ℕ × String × String) × Database)
  unfolding get_current_user
  get_current_user_api cookie now db = elim (get_current_user cookie now db) [
    | none ↦ none
    | some (none, db') ↦ some (none, db')
    | some (some user, db') ↦
        some (some (user.id, user.username, text_or (some user.role) "admin"), db')
  ]

  unfoldable pub end_session : Request → ℕ → String → Database → Database
  unfolding log_action
  end_session request now hash db =
      log_action request now "auth.logout" none none none
        (record db { sessions = delete_session hash db.sessions })

  unfoldable pub end_sessions : Request → ℕ → String → Database → Database
  unfolding end_session
  end_sessions request now token db =
      if token == ""
      then db
      else if is_some (find_session (py.hash_token token) db.sessions)
      then end_session request now (py.hash_token token) db
      else if is_some (find_session (py.hash_token_legacy token) db.sessions)
      then end_session request now (py.hash_token_legacy token) db
      else db

  unfoldable pub logout : Request → ℕ → Database → Database
  unfolding end_sessions
  logout request now db = end_sessions request now (text_or request.cookie "") db

  module _ (client : Client) (secure_cookies : String) (c : b8mon.SharedState.Redis.Client)
      (url : Bool) where
    unfoldable pub visit : Visit → Database × Shared c → Database × Shared c
    unfolding get_current_user logout
    visit (Visit.log_in a) (db, s) =
        let (response, db', s') = login py client secure_cookies c url a (db, s) in (db', s')
    visit (Visit.page cookie now) (db, s) = (after_page db (get_current_user cookie now db), s)
    visit (Visit.log_out request now) (db, s) = (logout request now db, s)

    unfoldable pub visits : List Visit → Database × Shared c → Database × Shared c
    visits [] state = state
    visits (v ∷ vs) state = visits vs (visit v state)
