-- ===== src/Agents/Enroll.antt =====
-- backend/routers/agents.py, `agent_enroll` behind its rate limit, and the start of `agent_report`: whose
-- report it is.
use Prim.Native.Char.{code}
use b8mon.Base.{
  ℕ, suc, String, Bool, true, false, not, ◌&&◌, ◌||◌, Option, none, some, List, [], ◌∷◌, ◌++◌, any,
  contains, nat_eq, string_eq, ◌==◌, if◌then◌else◌, or_else, f_string, lower, strip, starts_with,
  without,
}
use b8mon.Csrf.{compare_digest}
use b8mon.Agents.{
  Python, Agent, PingHost, Database, Enrollment, is_valid_hostname, consume_install_token,
  get_enrollment_key, shared_enrollment_allowed,
}

-- An answer, or the exception that is raised.
pub data Response : Type 0 where
  error : ℕ → String → Response
  enrolled : String → ℕ → Response
  type_error : Response
  integrity_error : Response

abbrev has_dot : String → Bool
has_dot String.[] = false
has_dot (String.◌∷◌ c s) = code c == 46 || has_dot s

-- the agent with a host's name in any case
abbrev pub find_agent : String → List Agent → Option Agent
find_agent hostname [] = none
find_agent hostname (a ∷ agents) =
    if lower a.hostname == lower hostname then some a else find_agent hostname agents

abbrev pub has_token : String → List Agent → Bool
has_token h agents = any (λ (a : Agent). a.token == h) agents

-- the row of an agent, changed
abbrev pub put_agent : Agent → List Agent → List Agent
put_agent agent [] = []
put_agent agent (a ∷ agents) = (if a.id == agent.id then agent else a) ∷ put_agent agent agents

-- the enabled agent with a token
abbrev pub find_by_token : String → List Agent → Option Agent
find_by_token h [] = none
find_by_token h (a ∷ agents) = if a.token == h && a.enabled then some a else find_by_token h agents

module _ (py : Python) where
  -- Whether the credential is good; nothing where the comparison raises.
  unfoldable pub admit : String → Enrollment → String → Database → Option Bool × Database
  unfolding consume_install_token get_enrollment_key shared_enrollment_allowed compare_digest
  admit variable e hostname db =
      let (ok, db') = consume_install_token py e hostname db in
      if ok
      then (some true, db')
      else if shared_enrollment_allowed variable
      then (let (key, db'') = get_enrollment_key e db' in
          (compare_digest e.enrollment_key key, db''))
      else (some false, db')

  unfoldable pub rotated : Enrollment → Agent → Agent
  rotated e a = record a {
    token = py.hash_agent_token e.raw_token;
    platform = if e.platform == "" then a.platform else e.platform;
    arch = if e.arch == "" then a.arch else e.arch;
    last_seen = some e.seen_at;
  }

  unfoldable pub new_agent : Enrollment → String → ℕ → Agent
  new_agent e hostname id = record {
    id = id;
    name = hostname;
    hostname = hostname;
    token = py.hash_agent_token e.raw_token;
    platform = e.platform;
    arch = e.arch;
    agent_version = "";
    enabled = true;
    pending_command = none;
    last_seen = none;
  }

  pub fqdn_of : String → String → String
  fqdn_of hostname agent_ip = if agent_ip == "" then hostname else elim (py.reverse_dns agent_ip) [
    | none ↦ hostname
    | some rev ↦ if has_dot rev then rev else hostname
  ]

  -- the host that the agent runs on, unless it is watched already
  pub add_ping_host : Enrollment → String → List PingHost → List PingHost
  unfolding fqdn_of lower
  add_ping_host e hostname hosts =
      let agent_ip = or_else e.client "" in
      let fqdn = fqdn_of hostname agent_ip in
      if any
        (λ (p : PingHost).
          contains (lower p.hostname) (lower hostname ∷ lower fqdn ∷ lower agent_ip ∷ []))
        hosts
      then hosts
      else hosts
        ++ record {
          name = hostname;
          hostname = fqdn;
          ip_address = if agent_ip == "" then none else some agent_ip;
          check_type = "icmp";
          source = "agent";
          source_detail = f_string ("auto-enrolled agent (" ∷ hostname ∷ ")" ∷ []);
        }
          ∷ []

  -- A token that is taken already raises.
  unfoldable pub save_agent : Enrollment → String → Database → Response × Database
  unfolding rotated new_agent add_ping_host lower
  save_agent e hostname db =
      if has_token (py.hash_agent_token e.raw_token) db.agents
      then (Response.integrity_error, db)
      else elim (find_agent hostname db.agents) [
        | some a ↦ (
          Response.enrolled e.raw_token a.id,
          record db { agents = put_agent (rotated e a) db.agents },
        )
        | none ↦ (
          Response.enrolled e.raw_token db.next_agent_id,
          record db {
            agents = db.agents ++ new_agent e hostname db.next_agent_id ∷ [];
            next_agent_id = suc db.next_agent_id;
            ping_hosts = add_ping_host e hostname db.ping_hosts;
          },
        )
      ]

  -- the body may not be JSON
  unfoldable pub agent_enroll : String → Option Enrollment → Database → Response × Database
  unfolding is_valid_hostname strip admit save_agent
  agent_enroll variable none db = (Response.error 400 "Invalid JSON", db)
  agent_enroll variable (some e) db =
      let hostname = strip e.hostname in
      if e.enrollment_key == "" || hostname == ""
      then (Response.error 400 "enrollment_key and hostname required", db)
      else if not (is_valid_hostname hostname)
      then (Response.error 400 "Invalid hostname", db)
      else (let (ok, db') = admit variable e hostname db in
          elim ok [
            | none ↦ (Response.type_error, db')
            | some false ↦ (Response.error 403 "Invalid enrollment credential", db')
            | some true ↦ save_agent e hostname db'
          ])

  -- `agent_report` up to the agent that reports, by its header. An old hash is replaced; nothing where
  -- another agent has the new one, which raises.
  unfoldable pub authenticate_token : String → Database → Option (Option Agent × Database)
  authenticate_token token db = elim (find_by_token (py.hash_agent_token token) db.agents) [
    | some a ↦ some (some a, db)
    | none ↦ elim (find_by_token (py.hash_agent_token_legacy token) db.agents) [
      | none ↦ some (none, db)
      | some a ↦
          let migrated : Agent = record a { token = py.hash_agent_token token } in
          if has_token (py.hash_agent_token token) db.agents
          then none
          else some (some migrated, record db { agents = put_agent migrated db.agents })
    ]
  ]

  unfoldable pub authenticate_agent : String → Database → Option (Option Agent × Database)
  unfolding authenticate_token strip
  authenticate_agent header db =
      if not (starts_with header "Bearer ") || strip (without 7 header) == ""
      then some (none, db)
      else authenticate_token (strip (without 7 header)) db
