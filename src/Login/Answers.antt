-- ===== src/Login/Answers.antt =====
-- Which answers `login` has: those of the throttles and the lockout, and those behind them.
use Prim.Native.String.{◌++◌ as ◌⧺◌}
use b8mon.Base.{String, Bool, false, ◌≡◌, inl, inr, Option, Bool-cases, leb}
use b8mon.SharedState.Redis.{Shared, window_count}
use b8mon.RateLimit.{get_client_ip, failed_auth_throttled}
use b8mon.Ldap.{Client, LdapUser, is_blank}
use b8mon.Login.{Python, Database, Attempt, Response, is_locked_out}
use b8mon.Login.Handler.{authenticate, refuse, log_in, check_account, throttled_login, login}

module _ (py : Python) (client : Client) (cookies : String) (a : Attempt) (db : Database)
    (P : Response × Database → Type 0)
    (held : (message : String) → P (Response.error 429 message, db))
    (refused : is_locked_out py a.locked_at a.username db ≡ false
      → P (refuse py client cookies "Invalid username or password" a db))
    (let_in : is_locked_out py a.locked_at a.username db ≡ false
      → (answer : Option (Option LdapUser)) → P (log_in py client cookies a db answer)) where
  check_account-cases : P (check_account py client cookies a db)
  unfolding check_account
  check_account-cases = elim (Bool-cases (is_locked_out py a.locked_at a.username db)) [
    | inl l ↦ rw l (held _)
    | inr o ↦ elim (Bool-cases (is_blank a.password)) [
      | inl b ↦ rw (o, b) (refused o)
      | inr b ↦ rw (o, b) (let_in o (authenticate py client cookies a db))
    ]
  ]

  module _ (c : b8mon.SharedState.Redis.Client) (url : Bool) (s : Shared c) where
    throttled_login-cases : (t : Shared c) → P (throttled_login py client cookies c url a db t).0
    unfolding throttled_login
    throttled_login-cases t =
        elim (Bool-cases
          (failed_auth_throttled c url a.request.client a.throttle_counted a.throttle_recorded
            t).0) [ inl y ↦ rw y (held _) | inr n ↦ rw n check_account-cases ]

    pub login-cases :
        let (response, db', s') = login py client cookies c url a (db, s) in P (response, db')
    unfolding login
    login-cases =
        elim (Bool-cases (
          leb 10
            (window_count c url ("routers.auth.login" ⧺ (":" ⧺ get_client_ip a.request.client)) 60
              a.limit_counted s).0)) [
                | inl y ↦ rw y (held _)
                | inr n ↦ rw n (throttled_login-cases _)
              ]
