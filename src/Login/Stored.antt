-- ===== src/Login/Stored.antt =====
-- The failed attempts that the settings hold for one account, which no other account's key is.
use text.Mathlib.TextLemmas.{append_cancel_left}
use b8mon.Base.{
  ℕ, ◌≤◌, String, ◌≡◌, ◌≢◌, refl, ap, some, List, [], ◌∷◌, ◌++◌, string_eq, ==_true, ==_false,
  length, or_else, arith,
}
use b8mon.Login.{
  Python, Database, lockout_key, recent, get_failed_attempts, record_failed_attempt,
  clear_failed_attempts,
}

pub recent-recent :
    (now later : ℕ) (l : List ℕ) → now ≤ later → recent later (recent now l) ≡ recent later l
recent-recent now later [] h = refl
recent-recent now later (t ∷ l) h = ground (arith, h, recent-recent now later l h)

pub length-recent-le :
    (now later : ℕ) (l : List ℕ) → now ≤ later → length (recent later l) ≤ length (recent now l)
length-recent-le now later [] h = omega arith
length-recent-le now later (t ∷ l) h = ground (arith, h, length-recent-le now later l h)

lockout_key-injective : (u v : String) → lockout_key u ≡ lockout_key v → u ≡ v
lockout_key-injective u v e = append_cancel_left "_lockout:" u v e

pub at_most_one : (now t : ℕ) → length (recent now (t ∷ [])) ≤ 1
at_most_one now t = ground arith

module _ (py : Python) (json : (l : List ℕ) → py.loads (py.dumps l) ≡ some l)
    (no_attempts : py.loads "[]" ≡ some []) (u : String) where
  pub attempts_of_settings :
      (db db' : Database)
      → db'.settings ≡ db.settings
      → get_failed_attempts py db' u ≡ get_failed_attempts py db u
  unfolding get_failed_attempts
  attempts_of_settings db db' e =
      ap (λ m. or_else (py.loads (or_else (m (lockout_key u)) "[]")) []) e

  pub recorded :
      (now : ℕ) (db : Database)
      → get_failed_attempts py (record_failed_attempt py now u db) u
        ≡ recent now (get_failed_attempts py db u) ++ now ∷ []
  unfolding record_failed_attempt get_failed_attempts
  recorded now db =
      rw (==_true {A = String} (lockout_key u) (lockout_key u) refl)
        (ap (λ o. or_else o []) (json _))

  pub recorded_ne :
      (now : ℕ) (v : String) (db : Database)
      → v ≢ u
      → get_failed_attempts py (record_failed_attempt py now v db) u ≡ get_failed_attempts py db u
  unfolding record_failed_attempt get_failed_attempts
  recorded_ne now v db ne =
      rw
        (==_false {A = String} (lockout_key v) (lockout_key u)
          (λ p. ne (lockout_key-injective v u p)))
        refl

  pub cleared : (db : Database) → get_failed_attempts py (clear_failed_attempts py u db) u ≡ []
  unfolding clear_failed_attempts get_failed_attempts
  cleared db =
      rw (==_true {A = String} (lockout_key u) (lockout_key u) refl)
        (ap (λ o. or_else o []) no_attempts)

  pub cleared_ne :
      (v : String) (db : Database)
      → v ≢ u
      → get_failed_attempts py (clear_failed_attempts py v db) u ≡ get_failed_attempts py db u
  unfolding clear_failed_attempts get_failed_attempts
  cleared_ne v db ne =
      rw
        (==_false {A = String} (lockout_key v) (lockout_key u)
          (λ p. ne (lockout_key-injective v u p)))
        refl
