-- ===== src/LogIntelligence.antt =====
-- backend/services/log_intelligence.py, what runs for every log message: the templates and their
-- counts until they are stored, and the bursts. The template of a message, its hash, its tags and its
-- fields come from regular expressions and are given. Times are whole seconds.
pub mod Counts
pub mod Insertion
pub mod Flush
pub mod Bursts
pub mod Agrees
pub mod Page
pub mod Hysteresis
pub mod Messages
mod Tests
use b8mon.Base.{
  ℕ, suc, ◌+◌, ◌-◌, ◌*◌, ◌/◌, String, Bool, true, false, not, ◌&&◌, ◌||◌, Option, none, some, List,
  [], ◌∷◌, ◌++◌, ltb, leb, nat_eq, length, drop, take, keep, contains, no_entries, string_eq, ◌==◌,
  if◌then◌else◌, or_else, is_some, is_empty, Map, assign, join,
}

-- a dict that is iterated over, in its order
abbrev pub get {ℓ} : {V : Type ℓ} → String → List (String × V) → Option V
get k [] = none
get k ((j, v) ∷ m) = if j == k then some v else get k m

-- what a message says of its template
pub record Message : Type 0 where
  pub template : String
  pub template_hash : String
  pub text : String
  pub tags : List String

-- `_template_cache`, `_template_counts` and `_new_templates`
pub record Cache : Type 0 where
  pub template_cache : Map String ℕ
  pub template_counts : List (String × ℕ)
  pub new_templates : List (String × Message)

-- a row of the table of templates
pub record LogTemplate : Type 0 where
  pub id : ℕ
  pub template_hash : String
  pub template : String
  pub example : String
  pub count : ℕ
  pub first_seen : ℕ
  pub last_seen : ℕ
  pub tags : String
  pub noise_score : ℕ

pub record Table : Type 0 where
  pub rows : List LogTemplate
  pub next_id : ℕ

-- `_template_counts[h] += 1`
pub bump : String → List (String × ℕ) → List (String × ℕ)
bump h [] = (h, 1) ∷ []
bump h ((k, n) ∷ counts) = if k == h then (k, n + 1) ∷ counts else (k, n) ∷ bump h counts

pub is_new_template : String → Cache → Bool
is_new_template h c = not (is_some (c.template_cache h)) && not (is_some (get h c.new_templates))

-- the part of `process_message` that counts templates
pub count_template : Message → Cache → Cache
unfolding is_new_template bump
count_template m c = record c {
  template_counts = bump m.template_hash c.template_counts;
  new_templates =
      if is_new_template m.template_hash c
      then c.new_templates ++ (m.template_hash, m) ∷ []
      else c.new_templates;
}

-- the row with a hash, which is unique
pub find_row : String → List LogTemplate → Option LogTemplate
find_row h [] = none
find_row h (r ∷ rows) = if r.template_hash == h then some r else find_row h rows

abbrev pub new_row : ℕ → ℕ → String → Message → ℕ → LogTemplate
new_row now id h m count = record {
  id = id;
  template_hash = h;
  template = m.template;
  example = m.text;
  count = count;
  first_seen = now;
  last_seen = now;
  tags = join "," m.tags;
  noise_score = 10;
}

-- One new template: a row is added unless there is one, and its id is cached.
pub insert_template :
    ℕ → List (String × ℕ) → String → Message → Map String ℕ × Table → Map String ℕ × Table
unfolding find_row
insert_template now counts h m (cache, t) = elim (find_row h t.rows) [
  | some r ↦ (assign h r.id cache, t)
  | none ↦ (
    assign h t.next_id cache,
    record {
      rows = t.rows ++ new_row now t.next_id h m (or_else (get h counts) 1) ∷ [];
      next_id = suc t.next_id;
    },
  )
]

pub insert_templates :
    ℕ → List (String × ℕ) → List (String × Message) → Map String ℕ × Table → Map String ℕ × Table
insert_templates now counts [] s = s
insert_templates now counts ((h, m) ∷ new) s =
    insert_templates now counts new (insert_template now counts h m s)

-- `UPDATE ... SET count = count + n, last_seen = now WHERE template_hash = h`
pub add_count : ℕ → String → ℕ → List LogTemplate → List LogTemplate
add_count now h n [] = []
add_count now h n (r ∷ rows) =
    (if r.template_hash == h then record r { count = r.count + n; last_seen = now } else r)
    ∷ add_count now h n rows

pub update_counts :
    ℕ → List (String × Message) → List (String × ℕ) → List LogTemplate → List LogTemplate
unfolding add_count
update_counts now new [] rows = rows
update_counts now new ((h, n) ∷ counts) rows =
    update_counts now new counts (if is_some (get h new) then rows else add_count now h n rows)

-- The counters are emptied before the table is written.
pub flush_templates : ℕ → Cache → Table → Cache × Table
unfolding insert_templates insert_template update_counts
flush_templates now c t =
    if is_empty c.template_counts && is_empty c.new_templates
    then (c, t)
    else let (cache, t') =
        insert_templates now c.template_counts c.new_templates (c.template_cache, t) in
      (
        record { template_cache = cache; template_counts = []; new_templates = [] },
        record t' { rows = update_counts now c.new_templates c.template_counts t'.rows },
      )

-- A flush that raises after `k` new templates: the handler of `run_intelligence` rolls the table back,
-- while the counters are empty already and the cache keeps what was inserted.
pub flush_raises : ℕ → ℕ → Cache → Table → Cache × Table
unfolding insert_templates insert_template
flush_raises now k c t =
    if is_empty c.template_counts && is_empty c.new_templates
    then (c, t)
    else let (cache, _) =
        insert_templates now c.template_counts (take k c.new_templates) (c.template_cache, t) in
      (record { template_cache = cache; template_counts = []; new_templates = [] }, t)

-- `cleanup_log_templates`; `protected` holds the ids in the table of precursor patterns. The cache is
-- not told.
pub is_outdated : ℕ → List ℕ → ℕ → LogTemplate → Bool
is_outdated now protected retention_days r =
    ltb (r.last_seen + retention_days * 86400) now && not (contains r.id protected)

pub cleanup_log_templates : ℕ → List ℕ → ℕ → Table → ℕ × Table
unfolding is_outdated
cleanup_log_templates now protected retention_days t = if leb retention_days 0 then (0, t) else (
  length (keep (is_outdated now protected retention_days) t.rows),
  record t { rows = keep (λ r. not (is_outdated now protected retention_days r)) t.rows },
)

pub load_template_cache : Table → Cache → Cache
unfolding find_row
load_template_cache t c = record c {
  template_cache = λ h. elim (find_row h t.rows) [ none ↦ none | some r ↦ some r.id ];
}

-- `_burst_timestamps`, `_active_bursts` and `_burst_last_cleanup`
pub record BurstState : Type 0 where
  pub timestamps : Map String (List ℕ)
  pub active : String → Bool
  pub last_cleanup : ℕ

abbrev pub no_bursts : BurstState
no_bursts = record { timestamps = no_entries; active = λ h. false; last_cleanup = 0 }

-- `append` on a deque of at most 200
pub append_capped : List ℕ → ℕ → List ℕ
append_capped dq now = (if leb 200 (length dq) then drop 1 dq else dq) ++ now ∷ []

-- `while dq and dq[0] < now - 300: dq.popleft()`
pub evict : ℕ → List ℕ → List ℕ
evict now [] = []
evict now (t ∷ dq) = let rest = evict now dq in if ltb (t + 300) now then rest else t ∷ dq

-- `not v or v[-1] < now - 300`
pub is_stale : ℕ → List ℕ → Bool
is_stale now [] = true
is_stale now (t ∷ []) = ltb (t + 300) now
is_stale now (t ∷ u ∷ dq) = is_stale now (u ∷ dq)

pub remove_stale : ℕ → BurstState → BurstState
unfolding is_stale
remove_stale now s = record {
  timestamps = λ k. elim (s.timestamps k) [
    | none ↦ none
    | some dq ↦ if is_stale now dq then none else some dq
  ];
  active = λ k. elim (s.timestamps k) [
    | none ↦ s.active k
    | some dq ↦ if is_stale now dq then false else s.active k
  ];
  last_cleanup = now;
}

pub clean_up : ℕ → BurstState → BurstState
unfolding remove_stale
clean_up now s = if ltb (s.last_cleanup + 600) now then remove_stale now s else s

abbrev pub set_active : String → Bool → BurstState → BurstState
set_active h b s = record s { active = λ k. if h == k then b else s.active k }

abbrev pub dq_of : String → BurstState → List ℕ
dq_of h s = or_else (s.timestamps h) []

-- The end of `_check_burst`, for the deque `dq` of the template after eviction. Where a burst starts,
-- it returns before the cleanup.
pub judge_burst : String → ℕ → List ℕ → BurstState → Bool × BurstState
unfolding clean_up
judge_burst h now dq s =
    if leb 50 (length dq)
    then (if s.active h then (false, clean_up now s) else (true, set_active h true s))
    else if s.active h && ltb (length dq) 25
    then (false, clean_up now (set_active h false s))
    else (false, clean_up now s)

pub check_burst : String → ℕ → BurstState → Bool × BurstState
unfolding judge_burst append_capped evict
check_burst h now s =
    let dq = evict now (append_capped (dq_of h s) now) in
    judge_burst h now dq (record s { timestamps = assign h dq s.timestamps })
