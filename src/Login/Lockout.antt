-- ===== src/Login/Lockout.antt =====
-- An account is locked exactly while five of its failed logins are recent.
use b8mon.Base.{
  ℕ, ◌+◌, ◌≤◌, String, Bool, false, false≢true, ◌≡◌, ◌≢◌, refl, sym, ap, ◌∙◌, inl, inr, some, List,
  [], ◌∷◌, ◌++◌, Bool-cases, string_eq, ◌==◌, if◌then◌else◌, leb, ltb, length, keep-append,
  length-append, arith, eq_iff,
}
use b8mon.SharedState.Redis.{Shared}
use b8mon.Ldap.{Client}
use b8mon.Login.{
  Python, Database, Attempt, Response, recent, get_failed_attempts, record_failed_attempt,
  clear_failed_attempts, is_locked_out,
}
use b8mon.Login.Handler.{logins}
use b8mon.Login.Stored.{
  recent-recent, length-recent-le, at_most_one, attempts_of_settings, recorded, recorded_ne,
  cleared, cleared_ne,
}
use b8mon.Login.Failures.{Verdict, after_answer, login-Verdict}

-- the failed attempts on an account since its last success, after the answers to some attempts
abbrev pub failures : String → List (Attempt × Response) → List ℕ → List ℕ
failures u [] log = log
failures u ((a, r) ∷ answers) log =
    failures u answers (if a.username == u then after_answer a r log else log)

-- The clock never goes back, from `lo` on.
abbrev pub Ordered : ℕ → List Attempt → Type 0
Ordered lo [] = Unit {0}
Ordered lo (a ∷ attempts) =
    (lo ≤ a.locked_at) × (a.locked_at ≤ a.failed_at) × Ordered a.failed_at attempts

abbrev pub final_time : ℕ → List Attempt → ℕ
final_time lo [] = lo
final_time lo (a ∷ attempts) = final_time a.failed_at attempts

module _ (py : Python) (json : (l : List ℕ) → py.loads (py.dumps l) ≡ some l)
    (no_attempts : py.loads "[]" ≡ some []) (u : String) where
  -- What is stored agrees with the log from `lo` on, and the log has at most five recent attempts.
  pub record IsTracked (lo : ℕ) (db : Database) (log : List ℕ) : Type 0 where
    pub same : (now : ℕ) → lo ≤ now → recent now (get_failed_attempts py db u) ≡ recent now log
    pub bounded : (now : ℕ) → lo ≤ now → length (recent now log) ≤ 5

  later :
      (lo lo' : ℕ) (db : Database) (log : List ℕ)
      → lo ≤ lo'
      → IsTracked lo db log
      → IsTracked lo' db log
  later lo lo' db log h i = record {
    same = λ now q. i.same now (omega (arith, h, q));
    bounded = λ now q. i.bounded now (omega (arith, h, q));
  }

  kept :
      (lo : ℕ) (db db' : Database) (log : List ℕ)
      → get_failed_attempts py db' u ≡ get_failed_attempts py db u
      → IsTracked lo db log
      → IsTracked lo db' log
  kept lo db db' log e i = record { same = λ now q. rw e (i.same now q); bounded = i.bounded }

  -- an attempt that was let through leaves at most five
  one_more :
      (lo : ℕ) (a : Attempt) (db : Database) (log : List ℕ) (now : ℕ)
      → lo ≤ a.locked_at
      → a.locked_at ≤ now
      → is_locked_out py a.locked_at u db ≡ false
      → IsTracked lo db log
      → length (recent now (log ++ a.failed_at ∷ [])) ≤ 5
  unfolding is_locked_out
  one_more lo a db log now o p free i =
      rw
        (
          keep-append (λ t. ltb now (t + 900)) log (a.failed_at ∷ []),
          length-append (recent now log) (recent now (a.failed_at ∷ [])),
        )
        (ground (
          arith,
          free,
          ap length (i.same a.locked_at o),
          length-recent-le a.locked_at now log p,
          at_most_one now a.failed_at,
        ))

  one_more-same :
      (lo : ℕ) (a : Attempt) (db : Database) (log : List ℕ) (now : ℕ)
      → lo ≤ a.failed_at
      → a.failed_at ≤ now
      → IsTracked lo db log
      → recent now (get_failed_attempts py (record_failed_attempt py a.failed_at u db) u)
        ≡ recent now (log ++ a.failed_at ∷ [])
  one_more-same lo a db log now o p i =
      rw
        (
          recorded py json no_attempts u a.failed_at db,
          keep-append (λ t. ltb now (t + 900)) (recent a.failed_at (get_failed_attempts py db u))
              (a.failed_at ∷ []),
          keep-append (λ t. ltb now (t + 900)) log (a.failed_at ∷ []),
          recent-recent a.failed_at now (get_failed_attempts py db u) p,
        )
        (ap (λ l. l ++ recent now (a.failed_at ∷ [])) (i.same now (omega (arith, o, p))))

  after_own :
      (lo : ℕ) (a : Attempt) (db : Database) (log : List ℕ) (answer : Response × Database)
      → lo ≤ a.locked_at
      → a.locked_at ≤ a.failed_at
      → a.username ≡ u
      → Verdict py a db answer
      → IsTracked lo db log
      → IsTracked a.failed_at answer.1 (after_answer a answer.0 log)
  after_own lo a db log _ o p e (Verdict.unchanged r quiet) i =
      rw quiet (later lo a.failed_at db log (omega (arith, o, p)) i)
  after_own lo a db log _ o p e (Verdict.succeeded r db' reset settings) i =
      let stored : get_failed_attempts py db' u ≡ [] =
        rw
          (
            attempts_of_settings py json no_attempts u (clear_failed_attempts py a.username db) db'
                settings,
            e,
          )
          (cleared py json no_attempts u db) in
      rw reset (record { same = λ now q. rw stored refl; bounded = λ now q. omega arith })
  after_own lo a db log _ o p e (Verdict.failed message free) i = rw e (record {
    same = λ now q. one_more-same lo a db log now (omega (arith, o, p)) q i;
    bounded = λ now q. one_more lo a db log now o (omega (arith, p, q)) (rw e at free) i;
  })

  after_other :
      (lo : ℕ) (a : Attempt) (db : Database) (log : List ℕ) (answer : Response × Database)
      → lo ≤ a.locked_at
      → a.locked_at ≤ a.failed_at
      → a.username ≢ u
      → Verdict py a db answer
      → IsTracked lo db log
      → IsTracked a.failed_at answer.1 log
  after_other lo a db log _ o p ne (Verdict.unchanged r quiet) i =
      later lo a.failed_at db log (omega (arith, o, p)) i
  after_other lo a db log _ o p ne (Verdict.succeeded r db' reset settings) i =
      later lo a.failed_at db' log (omega (arith, o, p)) (
        kept lo db db' log
          (attempts_of_settings py json no_attempts u _ db' settings
            ∙ cleared_ne py json no_attempts u a.username db ne)
          i)
  after_other lo a db log _ o p ne (Verdict.failed message free) i =
      later lo a.failed_at _ log (omega (arith, o, p))
        (kept lo db _ log (recorded_ne py json no_attempts u a.failed_at a.username db ne) i)

  module _ (client : Client) (cookies : String) (c : b8mon.SharedState.Redis.Client)
      (url : Bool) where
    logins-IsTracked :
        (attempts : List Attempt) (lo : ℕ) (db : Database) (s : Shared c) (log : List ℕ)
        → Ordered lo attempts
        → IsTracked lo db log
        → let (answers, db', s') = logins py client cookies c url attempts (db, s) in
          IsTracked (final_time lo attempts) db' (failures u answers log)
    unfolding logins
    logins-IsTracked [] lo db s log o i = i
    logins-IsTracked (a ∷ attempts) lo db s log (o, p, rest) i =
        let verdict = login-Verdict py client cookies c url a db s in
        elim (Bool-cases (a.username == u)) [
          | inl y ↦
              rw (failures, y)
                (logins-IsTracked attempts a.failed_at _ _ _ rest
                  (after_own lo a db log _ o p ((eq_iff a.username u).0 y) verdict i))
          | inr n ↦
              rw (failures, n)
                (logins-IsTracked attempts a.failed_at _ _ _ rest (
                  after_other lo a db log _ o p
                    (λ e. false≢true (sym n ∙ (eq_iff a.username u).1 e)) verdict i))
        ]

    module _ (attempts : List Attempt) (lo : ℕ) (db : Database) (s : Shared c)
        (o : Ordered lo attempts) (fresh : get_failed_attempts py db u ≡ []) where
      tracked :
          let (answers, db', s') = logins py client cookies c url attempts (db, s) in
          IsTracked (final_time lo attempts) db' (failures u answers [])
      tracked =
          logins-IsTracked attempts lo db s [] o
            (record { same = λ now q. rw fresh refl; bounded = λ now q. omega arith })

      -- Passwords cannot be guessed, and nobody else is locked out: whoever logs in and with whatever
      -- passwords, as long as the clock does not go back and JSON reads the lists that it wrote, from
      -- a table without failed attempts on an account on, the account is locked exactly when at least
      -- five attempts on it failed in the last 15 minutes after its last success; and there are never
      -- more than five.
      pub is_locked_out-failures :
          (now : ℕ)
          → final_time lo attempts ≤ now
          → let (answers, db', s') = logins py client cookies c url attempts (db, s) in
            (is_locked_out py now u db' ≡ leb 5 (length (recent now (failures u answers []))))
            × (length (recent now (failures u answers [])) ≤ 5)
      unfolding is_locked_out
      is_locked_out-failures now q =
          (ap (λ l. leb 5 (length l)) (tracked.same now q), tracked.bounded now q)
