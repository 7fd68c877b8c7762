-- ===== src/Agents/Admitted.antt =====
-- What it takes to enrol.
use b8mon.Base.{
  String, Bool, true, false, ◌≡◌, refl, ◌⊎◌, inl, inr, Option, none, some, ◌||◌, Bool-cases,
  Option-cases, leb, string_eq, ◌==◌, strip, text_or,
}
use b8mon.Csrf.{compare_digest}
use b8mon.Agents.{
  Python, AgentInstallToken, Database, Enrollment, find_install_token, matches_pattern, judge_token,
  consume_install_token, get_enrollment_key, shared_enrollment_allowed, is_valid_hostname,
}
use b8mon.Agents.Enroll.{Response, admit, agent_enroll}

abbrev pub is_enrolled : Response → Bool
is_enrolled (Response.enrolled token id) = true
is_enrolled r = false

module _ (py : Python) (variable : String) where
  -- an install token that may be used now, for this host
  pub record IsUsable (e : Enrollment) (db : Database) : Type 0 where
    pub row : AgentInstallToken
    pub issued :
        find_install_token (py.hash_install_token e.enrollment_key) db.install_tokens ≡ some row
    pub not_revoked : row.revoked ≡ false
    pub not_expired : leb row.expires_at e.checked_at ≡ false
    pub fits : matches_pattern py (strip e.hostname) row.hostname_pattern ≡ true

  -- the shared key, where the operator allows it
  pub record IsShared (e : Enrollment) (db : Database) : Type 0 where
    pub allowed : shared_enrollment_allowed variable ≡ true
    pub same : compare_digest e.enrollment_key (get_enrollment_key e db).0 ≡ some true

  abbrev pub IsAdmitted : Option Enrollment → Database → Type 0
  IsAdmitted none db = ⊥
  IsAdmitted (some e) db =
      (is_valid_hostname (strip e.hostname) ≡ true) × (IsUsable e db ⊎ IsShared e db)

  -- no agent and no host is added or changed, and no token is handed out
  abbrev pub IsRefused : Database → Response × Database → Type 0
  IsRefused db (r, db') =
      (is_enrolled r ≡ false) × (db'.agents ≡ db.agents) × (db'.ping_hosts ≡ db.ping_hosts)

  judge_token-IsUsable :
      (e : Enrollment) (db : Database) (found : Option AgentInstallToken)
      → find_install_token (py.hash_install_token e.enrollment_key) db.install_tokens ≡ found
      → judge_token py (strip e.hostname) e.checked_at found == "ok" ≡ true
      → IsUsable e db
  unfolding judge_token
  judge_token-IsUsable e db none f h = cc h
  judge_token-IsUsable e db (some row) f h = elim (Bool-cases row.revoked) [
    | inl y ↦ cc (rw (judge_token, y) at h)
    | inr n ↦ elim (Bool-cases (leb row.expires_at e.checked_at)) [
      | inl y ↦ cc (rw (judge_token, n, y) at h)
      | inr x ↦ elim (Bool-cases (matches_pattern py (strip e.hostname) row.hostname_pattern)) [
        | inl y ↦ record { row = row; issued = f; not_revoked = n; not_expired = x; fits = y }
        | inr m ↦ cc (rw (judge_token, n, x, m) at h)
      ]
    ]
  ]

  -- what becomes of the credential
  abbrev pub Judged : Enrollment → Database → Option Bool × Database → Type 0
  Judged e db (ok, db') =
      ((ok ≡ some true) × (IsUsable e db ⊎ IsShared e db) ⊎ (ok ≡ some false) ⊎ (ok ≡ none))
      × (db'.agents ≡ db.agents)
      × (db'.ping_hosts ≡ db.ping_hosts)

  get_enrollment_key-same :
      (e : Enrollment) (db : Database)
      → ((get_enrollment_key e db).1.agents ≡ db.agents)
        × ((get_enrollment_key e db).1.ping_hosts ≡ db.ping_hosts)
  unfolding get_enrollment_key
  get_enrollment_key-same e db = elim (Bool-cases (text_or db.agent_enrollment_key "" == "")) [
    | inl y ↦ rw (get_enrollment_key, y) (refl, refl)
    | inr n ↦ rw (get_enrollment_key, n) (refl, refl)
  ]

  compared :
      (e : Enrollment) (db : Database)
      → shared_enrollment_allowed variable ≡ true
      → Judged e db
          (compare_digest e.enrollment_key (get_enrollment_key e db).0, (get_enrollment_key e db).1)
  compared e db y = (
    elim (Option-cases (compare_digest e.enrollment_key (get_enrollment_key e db).0)) [
      | inl n ↦ inr (inr n)
      | inr (true, q) ↦ inl (q, inr (record { allowed = y; same = q }))
      | inr (false, q) ↦ inr (inl q)
    ],
    (get_enrollment_key-same e db).0,
    (get_enrollment_key-same e db).1,
  )

  pub admit-Judged :
      (e : Enrollment) (db : Database) → Judged e db (admit py variable e (strip e.hostname) db)
  unfolding admit consume_install_token
  admit-Judged e db =
      elim (Bool-cases (
        judge_token py (strip e.hostname) e.checked_at
          (find_install_token (py.hash_install_token e.enrollment_key) db.install_tokens)
        == "ok")) [
          | inl y ↦ rw y (inl (refl, inl (judge_token-IsUsable e db _ refl y)), refl, refl)
          | inr n ↦ elim (Bool-cases (shared_enrollment_allowed variable)) [
            | inl y ↦ rw (n, y) (compared e db y)
            | inr m ↦ rw (n, m) (inr (inl refl), refl, refl)
          ]
        ]

  -- Nobody enrols without a credential: whatever the body of the request is, either the host's name is
  -- well-formed and the key is that of an install token that is neither revoked nor expired and whose
  -- pattern fits the host, or the shared key where the operator allows it; or else no token is handed
  -- out, and no agent and no watched host is added or changed.
  pub agent_enroll-IsAdmitted :
      (body : Option Enrollment) (db : Database)
      → IsAdmitted body db ⊎ IsRefused db (agent_enroll py variable body db)
  unfolding agent_enroll
  agent_enroll-IsAdmitted none db = inr (refl, refl, refl)
  agent_enroll-IsAdmitted (some e) db =
      elim (Bool-cases (e.enrollment_key == "" || strip e.hostname == "")) [
        | inl y ↦ inr (rw y (refl, refl, refl))
        | inr n ↦ elim (Bool-cases (is_valid_hostname (strip e.hostname))) [
          | inr m ↦ inr (rw (n, m) (refl, refl, refl))
          | inl v ↦
              let (answer, agents, hosts) = admit-Judged e db in
              elim answer [
                | inl (q, good) ↦ inl (v, good)
                | inr (inl q) ↦ inr (rw (n, v, q) (refl, agents, hosts))
                | inr (inr q) ↦ inr (rw (n, v, q) (refl, agents, hosts))
              ]
        ]
      ]
