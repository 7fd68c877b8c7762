-- ===== src/Agents/Tests.antt =====
-- One install token for one host, which enrols twice.
use Prim.Native.String.{◌++◌ as ◌⧺◌}
use b8mon.Base.{
  ℕ, String, false, ◌≡◌, refl, ◌⊎◌, none, some, [], ◌∷◌, string_eq, ◌==◌, strip, lower,
}
use b8mon.Agents.{Python, Agent, AgentInstallToken, Database, Enrollment}
use b8mon.Agents.Enroll.{Response, agent_enroll, authenticate_agent}
use b8mon.Agents.Admitted.{IsAdmitted, IsRefused, agent_enroll-IsAdmitted}
use b8mon.Agents.Reports.{agent_enroll-authenticated}

abbrev python : Python
python = record {
  hash_agent_token = λ token. "h" ⧺ token;
  hash_agent_token_legacy = λ token. "l" ⧺ token;
  hash_install_token = λ token. "i" ⧺ token;
  fnmatchcase = λ name pattern. name == pattern;
  reverse_dns = λ ip. none;
}

abbrev issued : AgentInstallToken
issued = record {
  token_hash = "ik";
  revoked = false;
  expires_at = 100;
  hostname_pattern = some "WEB1 ";
  used_count = 0;
  last_used_at = none;
}

abbrev db : Database
db = record {
  agents = [];
  next_agent_id = 1;
  install_tokens = issued ∷ [];
  ping_hosts = [];
  agent_enrollment_key = none;
}

abbrev enrollment : String → ℕ → Enrollment
enrollment raw now = record {
  enrollment_key = "k";
  hostname = " Web1";
  platform = "linux";
  arch = "";
  client = none;
  checked_at = now;
  used_at = now;
  seen_at = now;
  raw_token = raw;
  new_key = "";
}

enrolled : (agent_enroll python "" (some (enrollment "t" 50)) db).0 ≡ Response.enrolled "t" 1
unfolding agent_enroll strip lower
enrolled = refl

expired :
    (agent_enroll python "" (some (enrollment "t" 100)) db).0
    ≡ Response.error 403 "Invalid enrollment credential"
unfolding agent_enroll strip lower
expired = refl

abbrev switched_off : Agent
switched_off = record {
  id = 1;
  name = "Web1";
  hostname = "Web1";
  token = "hold";
  platform = "";
  arch = "";
  agent_version = "";
  enabled = false;
  pending_command = none;
  last_seen = none;
}

-- an agent that is switched off is told that it has enrolled, and its reports are refused
enrols_in_vain :
    ((agent_enroll python ""
        (some (enrollment "t" 50))
        (record db { agents = switched_off ∷ [] })).0
      ≡ Response.enrolled "t" 1)
    × ((authenticate_agent python "Bearer t"
          (agent_enroll python ""
            (some (enrollment "t" 50))
            (record db { agents = switched_off ∷ [] })).1)
        ≡ some (
          none,
          (agent_enroll python ""
              (some (enrollment "t" 50))
              (record db { agents = switched_off ∷ [] })).1,
        ))
unfolding agent_enroll authenticate_agent strip lower
enrols_in_vain = (refl, refl)

agent_enroll-IsAdmitted_example :
    IsAdmitted python "" (some (enrollment "t" 50)) db
    ⊎ IsRefused python "" db (agent_enroll python "" (some (enrollment "t" 50)) db)
agent_enroll-IsAdmitted_example = agent_enroll-IsAdmitted python "" (some (enrollment "t" 50)) db

bearer : strip "t" ≡ "t"
unfolding strip
bearer = refl

host_is_new : strip " Web1" ≡ "Web1"
unfolding strip
host_is_new = refl

agent_enroll-authenticated_example :
    (a : Agent) × (authenticate_agent python "Bearer t"
        (agent_enroll python "" (some (enrollment "t" 50)) db).1
      ≡ some (some a, (agent_enroll python "" (some (enrollment "t" 50)) db).1))
    × (a.id ≡ 1)
    × (lower a.hostname ≡ lower (strip " Web1"))
agent_enroll-authenticated_example =
    agent_enroll-authenticated python "" (enrollment "t" 50) db "t" "Bearer t" 1 refl enrolled refl
      bearer (λ p. cc p)
