-- ===== src/Login/Rows.antt =====
-- The rows of the table of sessions: what a change of other rows does to the row of a token.
use b8mon.Base.{
  ℕ, String, true, false, false≢true, ◌≡◌, ◌≢◌, refl, ap, sym, ◌∙◌, inl, inr, Option, none, some,
  List, [], ◌∷◌, ◌++◌, Bool-cases, nat_eq, string_eq, ◌==◌, ==_true, ==_false, if◌then◌else◌,
  is_some, eq_iff, nat_beq_iff,
}
use mathlib.Core.Path.{subst}
use b8mon.Login.{User, Session, find_session}
use b8mon.Login.Sessions.{find_user_id, rename_session, delete_session}

pub find_session-append :
    (k : String) (l : List Session) (s : Session)
    → s.token ≢ k
    → find_session k (l ++ s ∷ []) ≡ find_session k l
find_session-append k [] s ne = rw (find_session, ==_false {A = String} s.token k ne) refl
find_session-append k (x ∷ l) s ne =
    ap (λ r. if x.token == k then some x else r) (find_session-append k l s ne)

pub find_session-append_same :
    (l : List Session) (s : Session)
    → is_some (find_session s.token l) ≡ false
    → find_session s.token (l ++ s ∷ []) ≡ some s
find_session-append_same [] s e = rw (find_session, ==_true {A = String} s.token s.token refl) refl
find_session-append_same (x ∷ l) s e = elim (Bool-cases (x.token == s.token)) [
  | inl y ↦ cc (rw (find_session, y) at e)
  | inr n ↦ rw (find_session, n) (find_session-append_same l s (rw (find_session, n) at e))
]

pub find_session-rename_session :
    (k old new : String) (l : List Session)
    → old ≢ k
    → new ≢ k
    → find_session k (rename_session old new l) ≡ find_session k l
find_session-rename_session k old new [] o n = refl
find_session-rename_session k old new (x ∷ l) o n =
    let rest = find_session-rename_session k old new l o n in
    elim (Bool-cases (x.token == old)) [
      | inl y ↦
          let x≢k = ==_false {A = String} x.token k (λ p. o (sym ((eq_iff x.token old).0 y) ∙ p)) in
          rw (find_session, rename_session, y, x≢k, ==_false {A = String} new k n) rest
      | inr y ↦
          rw (find_session, rename_session, y) (ap (λ r. if x.token == k then some x else r) rest)
    ]

pub find_session-delete_session :
    (k t : String) (l : List Session)
    → t ≢ k
    → find_session k (delete_session t l) ≡ find_session k l
find_session-delete_session k t [] ne = refl
find_session-delete_session k t (x ∷ l) ne =
    let rest = find_session-delete_session k t l ne in
    elim (Bool-cases (x.token == t)) [
      | inl y ↦
          let x≢k = ==_false {A = String} x.token k (λ p. ne (sym ((eq_iff x.token t).0 y) ∙ p)) in
          rw (find_session, delete_session, y, x≢k) rest
      | inr y ↦ rw (delete_session, y) (ap (λ r. if x.token == k then some x else r) rest)
    ]

pub find_session-delete_session_same :
    (k : String) (l : List Session) → find_session k (delete_session k l) ≡ none
find_session-delete_session_same k [] = refl
find_session-delete_session_same k (x ∷ l) =
    let rest = find_session-delete_session_same k l in
    elim (Bool-cases (x.token == k)) [
      | inl y ↦ rw (delete_session, y) rest
      | inr y ↦ rw (delete_session, y) (rw (find_session, y) rest)
    ]

pub find_session-delete_session-none :
    (k t : String) (l : List Session)
    → find_session k l ≡ none
    → find_session k (delete_session t l) ≡ none
find_session-delete_session-none k t l e = elim (Bool-cases (t == k)) [
  | inl y ↦
      subst (λ r. find_session k (delete_session r l) ≡ none) (sym ((eq_iff t k).0 y))
        (find_session-delete_session_same k l)
  | inr n ↦ find_session-delete_session k t l (λ p. false≢true (sym n ∙ (eq_iff t k).1 p)) ∙ e
]

abbrev pub id_of : Option User → Option ℕ
id_of none = none
id_of (some u) = some u.id

pub id_of-find_user_id :
    (id : ℕ) (users : List User)
    → is_some (find_user_id id users) ≡ true
    → id_of (find_user_id id users) ≡ some id
id_of-find_user_id id [] e = cc e
id_of-find_user_id id (x ∷ users) e = elim (Bool-cases (x.id == id)) [
  | inl y ↦ rw (find_user_id, y) (ap some ((nat_beq_iff x.id id).0 y))
  | inr n ↦ rw (find_user_id, n) (id_of-find_user_id id users (rw (find_user_id, n) at e))
]
