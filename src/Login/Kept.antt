-- ===== src/Login/Kept.antt =====
-- A session in the table, while other users log in and out.
use b8mon.Base.{
  ℕ, String, Bool, true, false, not, ◌&&◌, ◌||◌, ◌≡◌, ◌≢◌, refl, ◌∙◌, ap, inl, inr, Option, none,
  some, Bool-cases, Option-cases, nat_eq, string_eq, ◌==◌, ==_true, ==_false, if◌then◌else◌,
  is_some, text_or, ltb, arith,
}
use b8mon.Login.{Python, Session, Database, Request, Attempt, Response, find_session, log_action}
use b8mon.Login.Sessions.{
  after_page, current_by_token, end_sessions, find_user_id, live_session, rename_session,
  current_by_legacy, get_current_user, end_session, logout, Visit,
}
use b8mon.Login.Effects.{Effect, new_session, has_user}
use b8mon.Login.Apart.{seen_id, IsApart, Fits}
use b8mon.Login.Rows.{
  find_session-append, find_session-rename_session, find_session-delete_session,
  find_session-delete_session_same, find_session-delete_session-none, id_of-find_user_id,
}

pub or_false : (a : Bool) → (a || false) ≡ a
or_false a = ground arith

text_or_ne : (t : String) → t ≢ "" → text_or (some t) "" ≡ t
text_or_ne t ne = rw (text_or, ==_false {A = String} t "" ne) refl

module _ (py : Python) where
  module _ (token : String) (id expires : ℕ) (t≢ : token ≢ "") where
    abbrev row : Session
    row = record { token = py.hash_token token; user_id = id; expires_at = expires }

    -- the session is in the table unless it has ended
    pub record IsKept (ended : Bool) (db : Database) : Type 0 where
      pub own : find_session (py.hash_token token) db.sessions ≡ (if ended then none else some row)
      pub old : find_session (py.hash_token_legacy token) db.sessions ≡ none
      pub known : has_user id db.users ≡ true

    current_by_token-IsKept :
        (ended : Bool) (db : Database) (now : ℕ)
        → IsKept ended db
        → current_by_token py token now db
          ≡ some ((if ltb now expires && not ended then find_user_id id db.users else none), db)
    unfolding current_by_token current_by_legacy
    current_by_token-IsKept true db now i =
        rw (==_false {A = String} token "" t≢, i.own, current_by_legacy, i.old) (ground arith)
    current_by_token-IsKept false db now i = elim (Bool-cases (ltb now expires)) [
      | inl y ↦ rw (==_false {A = String} token "" t≢, i.own, y) refl
      | inr n ↦ rw (==_false {A = String} token "" t≢, i.own, n, current_by_legacy, i.old) refl
    ]

    renamed-IsKept :
        (ended : Bool) (db : Database) (other : String)
        → IsApart py token other
        → IsKept ended db
        → IsKept ended (record db {
          sessions = rename_session (py.hash_token_legacy other) (py.hash_token other) db.sessions;
        })
    renamed-IsKept ended db other p i = record {
      own = find_session-rename_session _ _ _ db.sessions p.legacy_hash p.hash_hash ∙ i.own;
      old = find_session-rename_session _ _ _ db.sessions p.legacy_legacy p.hash_legacy ∙ i.old;
      known = i.known;
    }

    other_page-IsKept :
        (ended : Bool) (db : Database) (other : String) (now : ℕ)
        → IsApart py token other
        → IsKept ended db
        → IsKept ended (after_page db (current_by_token py other now db))
    unfolding current_by_token current_by_legacy
    other_page-IsKept ended db other now p i = elim (Bool-cases (other == "")) [
      | inl y ↦ rw y i
      | inr n ↦ elim (Option-cases (live_session (py.hash_token other) now db.sessions)) [
        | inr (s, y) ↦ rw (n, y) i
        | inl m ↦ elim (Option-cases (live_session (py.hash_token_legacy other) now db.sessions)) [
          | inl l ↦ rw (n, m, current_by_legacy, l) i
          | inr (s, l) ↦
              elim (Bool-cases (is_some (find_session (py.hash_token other) db.sessions))) [
                | inl y ↦ rw (n, m, current_by_legacy, l, y) i
                | inr q ↦ rw (n, m, current_by_legacy, l, q) (renamed-IsKept ended db other p i)
              ]
        ]
      ]
    ]

    page_of_token :
        (cookie : Option String) (now : ℕ) (db : Database)
        → get_current_user py cookie now db ≡ current_by_token py (text_or cookie "") now db
    unfolding get_current_user
    page_of_token cookie now db = refl

    pub seen_id-IsKept :
        (ended : Bool) (db : Database) (now : ℕ)
        → IsKept ended db
        → seen_id (get_current_user py (some token) now db)
          ≡ (if ltb now expires && not ended then some id else none)
    seen_id-IsKept ended db now i =
        rw
          (
            page_of_token (some token) now db,
            text_or_ne token t≢,
            current_by_token-IsKept ended db now i,
          )
          (elim (Bool-cases (ltb now expires && not ended)) [
            | inl y ↦ rw y (id_of-find_user_id id db.users i.known)
            | inr n ↦ rw n refl
          ])

    pub page-IsKept :
        (ended : Bool) (db : Database) (cookie : Option String) (now : ℕ)
        → Fits py token (Visit.page cookie now)
        → IsKept ended db
        → IsKept ended (after_page db (get_current_user py cookie now db))
    page-IsKept ended db cookie now (inl e) i =
        rw (page_of_token cookie now db, e, current_by_token-IsKept ended db now i) i
    page-IsKept ended db cookie now (inr p) i =
        rw (page_of_token cookie now db) (other_page-IsKept ended db _ now p i)

    own_logout-IsKept :
        (ended : Bool) (db : Database) (request : Request) (now : ℕ)
        → IsKept ended db
        → IsKept true (end_sessions py request now token db)
    unfolding end_sessions end_session log_action
    own_logout-IsKept true db request now i = rw (==_false {A = String} token "" t≢, i.own, i.old) i
    own_logout-IsKept false db request now i =
        rw (==_false {A = String} token "" t≢, i.own)
          (record {
            own = find_session-delete_session_same (py.hash_token token) db.sessions;
            old = find_session-delete_session-none _ (py.hash_token token) db.sessions i.old;
            known = i.known;
          })

    other_logout-IsKept :
        (ended : Bool) (db : Database) (request : Request) (now : ℕ) (other : String)
        → IsApart py token other
        → IsKept ended db
        → IsKept ended (end_sessions py request now other db)
    unfolding end_sessions end_session log_action
    other_logout-IsKept ended db request now other p i = elim (Bool-cases (other == "")) [
      | inl y ↦ rw y i
      | inr n ↦ elim (Bool-cases (is_some (find_session (py.hash_token other) db.sessions))) [
        | inl y ↦
            rw (n, y)
              (record {
                own = find_session-delete_session _ _ db.sessions p.hash_hash ∙ i.own;
                old = find_session-delete_session _ _ db.sessions p.hash_legacy ∙ i.old;
                known = i.known;
              })
        | inr m ↦
            elim (Bool-cases (is_some (find_session (py.hash_token_legacy other) db.sessions))) [
              | inl y ↦
                  rw (n, m, y)
                    (record {
                      own = find_session-delete_session _ _ db.sessions p.legacy_hash ∙ i.own;
                      old = find_session-delete_session _ _ db.sessions p.legacy_legacy ∙ i.old;
                      known = i.known;
                    })
              | inr y ↦ rw (n, m, y) i
            ]
      ]
    ]

    logout_of_token :
        (request : Request) (now : ℕ) (db : Database)
        → logout py request now db ≡ end_sessions py request now (text_or request.cookie "") db
    unfolding logout
    logout_of_token request now db = refl

    pub logout-IsKept :
        (ended : Bool) (db : Database) (request : Request) (now : ℕ)
        → Fits py token (Visit.log_out request now)
        → IsKept ended db
        → IsKept (ended || text_or request.cookie "" == token) (logout py request now db)
    logout-IsKept ended db request now (inl e) i =
        let is_own = ==_true {A = String} (text_or request.cookie "") token e in
        let ends : (ended || true) ≡ true = ground arith in
        rw (logout_of_token request now db, is_own, ends, e)
          (own_logout-IsKept ended db request now i)
    logout-IsKept ended db request now (inr p) i =
        let other =
          ==_false {A = String} (text_or request.cookie "") token
            (λ e. p.hash_hash (ap py.hash_token e)) in
        rw (logout_of_token request now db, other, or_false ended)
          (other_logout-IsKept ended db request now _ p i)

    pub login-IsKept :
        (ended : Bool) (a : Attempt) (db : Database) (answer : Response × Database)
        → IsApart py token a.token
        → Effect py a db answer
        → IsKept ended db
        → IsKept ended answer.1
    login-IsKept ended a db _ p (Effect.refused r db' n s k) i = record {
      own = rw s i.own;
      old = rw s i.old;
      known = k id i.known;
    }
    login-IsKept ended a db _ p (Effect.opened user secure db' n s h k) i = record {
      own =
          rw
            (
              s,
              find_session-append (py.hash_token token) db.sessions (new_session py a user.id)
                  p.hash_hash,
            )
            i.own;
      old =
          rw
            (
              s,
              find_session-append (py.hash_token_legacy token) db.sessions
                  (new_session py a user.id) p.hash_legacy,
            )
            i.old;
      known = k id i.known;
    }
