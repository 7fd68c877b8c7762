-- ===== src/Correlation.antt =====
-- backend/services/correlation.py, the engine: the counters of consecutive cycles, and the step that
-- each rule takes for what it detects. A step may raise, and what it did to the process's memory
-- before that stays.
pub mod Streak
pub mod Rules
pub mod Resolve
pub mod Run
mod Tests
use b8mon.Base.{
  ℕ, ◌+◌, String, ◌≡◌, ◌↔◌, Bool, true, false, not, ◌&&◌, Option, none, some, List, [], ◌∷◌, ◌++◌,
  arith, leb, Eq, string_eq, eq_iff, ◌==◌, if◌then◌else◌, or_else, contains, Map, no_entries,
  assign, str_eq, text_or,
}
use b8mon.Incidents.{Incident, Db, Notice, Finding, host_ids_hash, find_or_create, update_row}

-- `(rule, hash of the hosts)`
pub record HitKey : Type 0 where
  pub rule : String
  pub hash : String

abbrev key_beq : HitKey → HitKey → Bool
key_beq a b = str_eq a.rule b.rule && str_eq a.hash b.hash

pub key_beq_iff : (a b : HitKey) → (key_beq a b ≡ true) ↔ (a ≡ b)
key_beq_iff a b = ground (arith, eq_iff a.rule b.rule, eq_iff a.hash b.hash)

instance abbrev pub hit_key_eq : Eq HitKey
hit_key_eq = record { same = key_beq; same_iff = key_beq_iff }

-- `_rule_hit_counts` and `_current_cycle_hits`
pub record Hits : Type 0 where
  pub counts : Map HitKey ℕ
  pub current : List HitKey

abbrev pub no_hits : Hits
no_hits = record { counts = no_entries; current = [] }

-- `_track_rule_hit`, after its key is computed: the new count, and the state
pub count_hit : HitKey → Hits → ℕ × Hits
count_hit key hits =
    let n = or_else (hits.counts key) 0 + 1 in
    (n, record { counts = assign key n hits.counts; current = key ∷ hits.current })

pub track_rule_hit : (String → String) → String → List ℕ → ℕ → Hits → Bool × Hits
unfolding count_hit
track_rule_hit digest rule host_ids min_cycles hits =
    let (n, hits') =
      count_hit (record { rule = rule; hash = host_ids_hash digest host_ids }) hits in
    (leb min_cycles n, hits')

pub prune_stale_hits : Hits → Hits
prune_stale_hits hits = record {
  counts = λ k. if contains k hits.current then hits.counts k else none;
  current = [];
}

-- What the engine changes: the session's tables, the notices that went out, and the counters.
pub record Engine : Type 0 where
  pub db : Db
  pub notices : List Notice
  pub hits : Hits

-- An action that may raise (no result).
abbrev pub Action : Type 0
Action = Engine → Bool × Engine

abbrev pub completed : Bool
completed = true

abbrev pub raised : Bool
raised = false

-- One detection of a rule: the key under which its cycles are counted, and what is reported once
-- there are enough of them.
pub record Detection : Type 0 where
  pub hit_rule : String
  pub hit_hosts : List ℕ
  pub finding : Finding
  -- whether the host that the finding names can be looked up, when it comes to that
  pub named : Bool
  -- the text that a learned precursor leaves on its incident
  pub template : Option String

-- `if incident is not None and tpl_text and not incident.precursor_template: ...`
abbrev pub set_template : String → Incident → Incident
set_template text i =
    if text_or i.precursor_template "" == "" then record i { precursor_template = some text } else i

abbrev pub remember_template : Option String → ℕ → Db → Db
remember_template none id db = db
remember_template (some text) id db = record db {
  incidents = update_row id (set_template text) db.incidents;
}

-- `_find_or_create_incident`, then what the rule does to the incident
unfoldable pub file_finding : (String → String) → ℕ → Finding → Option String → Action
file_finding digest now f template e = elim (find_or_create digest f now e.db) [
  | none ↦ (raised, e)
  | some (id, notice, db) ↦ (
    completed,
    record e {
      db = remember_template template id db;
      notices = elim notice [ none ↦ e.notices | some n ↦ e.notices ++ n ∷ [] ];
    },
  )
]

-- `if not _track_rule_hit(...): continue`, then `_find_or_create_incident`, unless the look-up raises
pub report : (String → String) → ℕ → ℕ → Detection → Action
unfolding file_finding track_rule_hit
report digest now min_cycles d e =
    let (due, hits) = track_rule_hit digest d.hit_rule d.hit_hosts min_cycles e.hits in
    let e' = record e { hits = hits } in
    if not due
    then (completed, e')
    else if not d.named
    then (raised, e')
    else file_finding digest now d.finding d.template e'

-- A rule's loop; nothing in place of a detection is a query that raised.
pub report_all : (String → String) → ℕ → ℕ → List (Option Detection) → Action
report_all digest now min_cycles [] e = (completed, e)
report_all digest now min_cycles (none ∷ ds) e = (raised, e)
report_all digest now min_cycles (some d ∷ ds) e =
    let (fine, e') = report digest now min_cycles d e in
    let rest = report_all digest now min_cycles ds e' in if fine then rest else (raised, e')
