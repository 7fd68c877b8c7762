-- ===== src/Agents/Reports.antt =====
-- The token that an enrolment hands out is the one by which the agent reports.
use b8mon.Base.{
  ℕ, String, Bool, true, false, false≢true, ◌≡◌, refl, sym, ap, ◌∙◌, inl, inr, none, some, List, [],
  ◌∷◌, ◌++◌, ◌||◌, any, Bool-cases, Option-cases, string_eq, nat_eq, ◌==◌, ==_true, ==_false,
  or_else, arith, eq_iff, strip, lower, starts_with, without, ◌≢◌,
}
use b8mon.Agents.{Python, Agent, Database, Enrollment, is_valid_hostname}
use b8mon.Agents.Enroll.{
  Response, find_agent, has_token, put_agent, find_by_token, rotated, new_agent, save_agent,
  agent_enroll, authenticate_token, authenticate_agent,
}
use b8mon.Agents.Admitted.{is_enrolled, admit-Judged}

-- whether the agent of a host, if there is one, is not switched off
abbrev pub is_enabled : String → List Agent → Bool
is_enabled hostname agents = elim (find_agent hostname agents) [ none ↦ true | some a ↦ a.enabled ]

abbrev has_agent : ℕ → List Agent → Bool
has_agent id agents = any (λ (a : Agent). a.id == id) agents

has_agent-find_agent :
    (hostname : String) (agents : List Agent) (a : Agent)
    → find_agent hostname agents ≡ some a
    → (has_agent a.id agents ≡ true) × (lower a.hostname ≡ lower hostname)
has_agent-find_agent hostname [] a e = cc e
has_agent-find_agent hostname (x ∷ agents) a e =
    elim (Bool-cases (lower x.hostname == lower hostname)) [
      | inl y ↦
          let same = ap (λ o. or_else o x) (rw (find_agent, y) at e) in
          (
            ground (arith, ap (λ (v : Agent). v.id) same),
            sym (ap (λ (v : Agent). lower v.hostname) same) ∙ (eq_iff _ _).0 y,
          )
      | inr n ↦
          let (h, l) = has_agent-find_agent hostname agents a (rw (find_agent, n) at e) in
          (ground (arith, h), l)
    ]

or_false_parts : (a b : Bool) → (a || b) ≡ false → (a ≡ false) × (b ≡ false)
or_false_parts a b h = (ground (arith, h), ground (arith, h))

find_by_token-put_agent :
    (agent : Agent) (agents : List Agent)
    → agent.enabled ≡ true
    → has_agent agent.id agents ≡ true
    → has_token agent.token agents ≡ false
    → find_by_token agent.token (put_agent agent agents) ≡ some agent
find_by_token-put_agent agent [] en h t = cc h
find_by_token-put_agent agent (a ∷ agents) en h t = elim (Bool-cases (a.id == agent.id)) [
  | inl y ↦
      rw (put_agent, y)
        (rw (find_by_token, ==_true {A = String} agent.token agent.token refl, en) refl)
  | inr n ↦
      let (mine, others) =
        or_false_parts (a.token == agent.token) (has_token agent.token agents) t in
      rw (put_agent, n)
        (rw (find_by_token, mine) (find_by_token-put_agent agent agents en (rw n at h) others))
]

find_by_token-append :
    (agent : Agent) (agents : List Agent)
    → agent.enabled ≡ true
    → has_token agent.token agents ≡ false
    → find_by_token agent.token (agents ++ agent ∷ []) ≡ some agent
find_by_token-append agent [] en t =
    rw (find_by_token, ==_true {A = String} agent.token agent.token refl, en) refl
find_by_token-append agent (a ∷ agents) en t =
    let (mine, others) = or_false_parts (a.token == agent.token) (has_token agent.token agents) t in
    rw (find_by_token, mine) (find_by_token-append agent agents en others)

module _ (py : Python) where
  -- a report with the token is that of the agent, on the host
  abbrev pub IsReporter : String → ℕ → String → Database → Type 0
  IsReporter token id hostname db =
      (a : Agent) × (authenticate_token py token db ≡ some (some a, db))
      × (a.id ≡ id)
      × (lower a.hostname ≡ lower hostname)

  -- what an answer hands out
  abbrev token_of : String → Response → String
  token_of d (Response.enrolled token id) = token
  token_of d r = d

  abbrev id_of : ℕ → Response → ℕ
  id_of d (Response.enrolled token id) = id
  id_of d r = d

  reports :
      (a : Agent) (token hostname : String) (id : ℕ) (db : Database)
      → find_by_token (py.hash_agent_token token) db.agents ≡ some a
      → a.id ≡ id
      → lower a.hostname ≡ lower hostname
      → IsReporter token id hostname db
  unfolding authenticate_token
  reports a token hostname id db f i l = (a, rw (authenticate_token, f) refl, i, l)

  save_agent-IsReporter :
      (e : Enrollment) (hostname token : String) (id : ℕ) (db : Database)
      → is_enabled hostname db.agents ≡ true
      → (save_agent py e hostname db).0 ≡ Response.enrolled token id
      → IsReporter token id hostname (save_agent py e hostname db).1
  unfolding save_agent rotated new_agent
  save_agent-IsReporter e hostname token id db en h =
      elim (Bool-cases (has_token (py.hash_agent_token e.raw_token) db.agents)) [
        | inl y ↦ absurd (false≢true (ap is_enrolled (rw (save_agent, y) at h)))
        | inr n ↦ elim (Option-cases (find_agent hostname db.agents)) [
          | inl m ↦
              let h' = rw (save_agent, n, m) at h in
              rw (save_agent, n, m, ← ap (token_of token) h', ← ap (id_of id) h')
                (reports (new_agent py e hostname db.next_agent_id) e.raw_token hostname _ _
                  (find_by_token-append (new_agent py e hostname db.next_agent_id) db.agents refl n)
                  refl refl)
          | inr (a, y) ↦
              let h' = rw (save_agent, n, y) at h in
              let (known, named) = has_agent-find_agent hostname db.agents a y in
              rw (save_agent, n, y, ← ap (token_of token) h', ← ap (id_of id) h')
                (reports (rotated py e a) e.raw_token hostname _ _
                  (find_by_token-put_agent (rotated py e a) db.agents (rw (is_enabled, y) at en)
                    known n)
                  refl named)
        ]
      ]

  enrolled_by :
      (variable : String) (e : Enrollment) (db : Database) (token : String) (id : ℕ)
      → is_enabled (strip e.hostname) db.agents ≡ true
      → (agent_enroll py variable (some e) db).0 ≡ Response.enrolled token id
      → IsReporter token id (strip e.hostname) (agent_enroll py variable (some e) db).1
  unfolding agent_enroll
  enrolled_by variable e db token id en h =
      elim (Bool-cases (e.enrollment_key == "" || strip e.hostname == "")) [
        | inl y ↦ absurd (false≢true (ap is_enrolled (rw (agent_enroll, y) at h)))
        | inr n ↦ elim (Bool-cases (is_valid_hostname (strip e.hostname))) [
          | inr m ↦ absurd (false≢true (ap is_enrolled (rw (agent_enroll, n, m) at h)))
          | inl v ↦
              let (answer, agents, hosts) = admit-Judged py variable e db in
              elim answer [
                | inl (q, good) ↦
                    rw (agent_enroll, n, v, q)
                      (save_agent-IsReporter e (strip e.hostname) token id _ (rw agents en)
                        (rw (agent_enroll, n, v, q) at h))
                | inr (inl q) ↦
                    absurd (false≢true (ap is_enrolled (rw (agent_enroll, n, v, q) at h)))
                | inr (inr q) ↦
                    absurd (false≢true (ap is_enrolled (rw (agent_enroll, n, v, q) at h)))
              ]
        ]
      ]

  -- The round trip of a token: if an enrolment hands out a token, then a report whose header carries
  -- that token, which is not blank, is taken to be from the agent of which the enrolment told the id,
  -- which has the enrolled host's name up to case. The host must not have an agent already that is
  -- switched off.
  pub agent_enroll-authenticated :
      (variable : String) (e : Enrollment) (db : Database) (token header : String) (id : ℕ)
      → is_enabled (strip e.hostname) db.agents ≡ true
      → (agent_enroll py variable (some e) db).0 ≡ Response.enrolled token id
      → starts_with header "Bearer " ≡ true
      → strip (without 7 header) ≡ token
      → token ≢ ""
      → let (response, db') = agent_enroll py variable (some e) db in
        (a : Agent) × (authenticate_agent py header db' ≡ some (some a, db'))
        × (a.id ≡ id)
        × (lower a.hostname ≡ lower (strip e.hostname))
  unfolding authenticate_agent
  agent_enroll-authenticated variable e db token header id en h b t ne =
      rw (authenticate_agent, b, t, ==_false {A = String} token "" ne)
        (enrolled_by variable e db token id en h)
