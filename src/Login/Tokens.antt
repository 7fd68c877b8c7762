-- ===== src/Login/Tokens.antt =====
-- A session from its login to its logout: whom a cookie's token stands for.
use b8mon.Base.{
  ℕ, ◌+◌, String, Bool, false, false≢true, not, ◌&&◌, ◌||◌, ◌≡◌, ◌≢◌, sym, ◌∙◌, ap, none, some,
  List, [], ◌∷◌, All, any, nat_eq, string_eq, if◌then◌else◌, ltb, arith,
}
use b8mon.SharedState.Redis.{Shared}
use b8mon.Ldap.{Client}
use b8mon.Login.{Python, User, Database, Attempt, Response, find_session}
use b8mon.Login.Handler.{login}
use b8mon.Login.Sessions.{get_current_user, Visit, visit, visits}
use b8mon.Login.Effects.{Effect, login-Effect, opens_session, new_session}
use b8mon.Login.Apart.{seen_id, Fits, logs_out}
use b8mon.Login.Kept.{or_false, IsKept, seen_id-IsKept, page-IsKept, logout-IsKept, login-IsKept}
use b8mon.Login.Rows.{find_session-append, find_session-append_same}

or_assoc : (a b c : Bool) → ((a || b) || c) ≡ (a || (b || c))
or_assoc a b c = ground arith

module _ (py : Python) where
  module _ (token : String) (id expires : ℕ) (t≢ : token ≢ "") (client : Client) (cookies : String)
      (c : b8mon.SharedState.Redis.Client) (url : Bool) where
    visit-IsKept :
        (v : Visit) (ended : Bool) (db : Database) (s : Shared c)
        → Fits py token v
        → IsKept py token id expires t≢ ended db
        → IsKept py token id expires t≢
            (ended || logs_out py token v)
            (visit py client cookies c url v (db, s)).0
    unfolding visit
    visit-IsKept (Visit.log_in a) ended db s f i = rw (or_false ended) (
        login-IsKept py token id expires t≢ ended a db _ f
          (login-Effect py client cookies c url a db s) i)
    visit-IsKept (Visit.page cookie now) ended db s f i =
        rw (or_false ended) (page-IsKept py token id expires t≢ ended db cookie now f i)
    visit-IsKept (Visit.log_out request now) ended db s f i =
        logout-IsKept py token id expires t≢ ended db request now f i

    visits-IsKept :
        (vs : List Visit) (ended : Bool) (db : Database) (s : Shared c)
        → All (Fits py token) vs
        → IsKept py token id expires t≢ ended db
        → IsKept py token id expires t≢
            (ended || any (logs_out py token) vs)
            (visits py client cookies c url vs (db, s)).0
    unfolding visits
    visits-IsKept [] ended db s f i = rw (or_false ended) i
    visits-IsKept (v ∷ vs) ended db s (f, rest) i =
        rw (← or_assoc ended (logs_out py token v) (any (logs_out py token) vs))
          (visits-IsKept vs _ _ _ rest (visit-IsKept v ended db s f i))

  abbrev user_of : User → Response → User
  user_of user (Response.session_of u token secure) = u
  user_of user r = user

  opened-IsKept :
      (a : Attempt) (user : User) (secure : Bool) (db : Database) (answer : Response × Database)
      (t≢ : a.token ≢ "")
      → py.hash_token a.token ≢ py.hash_token_legacy a.token
      → find_session (py.hash_token_legacy a.token) db.sessions ≡ none
      → Effect py a db answer
      → answer.0 ≡ Response.session_of user a.token secure
      → IsKept py a.token user.id (a.created_at + 604800) t≢ false answer.1
  opened-IsKept a user secure db _ t≢ ne n (Effect.refused r db' q s k) e =
      absurd (false≢true (sym q ∙ ap opens_session e))
  opened-IsKept a user secure db _ t≢ ne n (Effect.opened u b db' q s h k) e =
      let same = ap (λ r. (user_of user r).id) e in
      record {
        own =
            rw (s, find_session-append_same db.sessions (new_session py a u.id) q)
              (ap (λ id. some (new_session py a id)) same);
        old =
            rw
              (
                s,
                find_session-append (py.hash_token_legacy a.token) db.sessions
                    (new_session py a u.id) ne,
              )
              n;
        known = rw (← same) h;
      }

  module _ (client : Client) (cookies : String) (c : b8mon.SharedState.Redis.Client)
      (url : Bool) where
    -- A session lives from its login to its logout: if a login is answered with a session, then after
    -- any further logins, pages and logouts in the table, a request with the session's token stands for
    -- the user who logged in as long as seven days have not passed and none of them was a logout with
    -- that token, and for nobody otherwise. The token is not empty, the table had no session of the
    -- old version for it, and its hashes differ from each other and from those of the other tokens.
    pub login-lifetime :
        (a : Attempt) (user : User) (secure : Bool) (db : Database) (s : Shared c) (vs : List Visit)
        (now : ℕ)
        → a.token ≢ ""
        → py.hash_token a.token ≢ py.hash_token_legacy a.token
        → find_session (py.hash_token_legacy a.token) db.sessions ≡ none
        → All (Fits py a.token) vs
        → (login py client cookies c url a (db, s)).0 ≡ Response.session_of user a.token secure
        → let (response, db', s') = login py client cookies c url a (db, s) in
          let (db'', s'') = visits py client cookies c url vs (db', s') in
          seen_id (get_current_user py (some a.token) now db'') ≡ (
            if ltb now (a.created_at + 604800) && not (any (logs_out py a.token) vs)
            then some user.id
            else none)
    login-lifetime a user secure db s vs now t≢ ne n f e =
        seen_id-IsKept py a.token user.id (a.created_at + 604800) t≢ (any (logs_out py a.token) vs)
          _ now
          (visits-IsKept a.token user.id (a.created_at + 604800) t≢ client cookies c url vs false _
            _ f
            (opened-IsKept a user secure db _ t≢ ne n (login-Effect py client cookies c url a db s)
              e))
