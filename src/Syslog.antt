-- ===== src/Syslog.antt =====
-- backend/services/syslog.py: which messages are taken in, and the buffer before ClickHouse. The
-- clock's readings are in whole seconds. The parser, the enrichment of messages and the live tail
-- are left out; all that holds `_buffer_lock` is one step.
pub mod Window
pub mod Repeats
pub mod Delivery
pub mod Connections
mod Tests
use b8mon.Base.{
  ℕ, zero, suc, ◌+◌, ◌-◌, ◌*◌, String, Bool, true, false, not, ◌&&◌, Option, none, some, List, [],
  ◌∷◌, ◌++◌, map, ltb, leb, string_eq, ◌==◌, if◌then◌else◌, length, drop, keep, is_empty, or_else,
  join,
}

abbrev pub max_msg_size : ℕ
max_msg_size = 65536

abbrev pub max_tcp_connections : ℕ
max_tcp_connections = 100

abbrev pub rate_window : ℕ
rate_window = 10

abbrev pub rate_max : ℕ
rate_max = 500

abbrev pub global_rate_max : ℕ
global_rate_max = 10000

abbrev pub rate_cache_max : ℕ
rate_cache_max = 10000

abbrev pub buffer_size : ℕ
buffer_size = 100

abbrev pub buffer_max : ℕ
buffer_max = 50000

-- a count, and when its window began
pub record Count : Type 0 where
  pub count : ℕ
  pub since : ℕ

-- A dict whose size is observed.
abbrev pub Dict : Type 0 → Type 0
Dict A = List (String × A)

abbrev pub find : {A : Type 0} → String → Dict A → Option A
find k [] = none
find k ((j, a) ∷ d) = if j == k then some a else find k d

abbrev pub set : {A : Type 0} → String → A → Dict A → Dict A
set k a [] = (k, a) ∷ []
set k a ((j, b) ∷ d) = if j == k then (j, a) ∷ d else (j, b) ∷ set k a d

abbrev pub unset : {A : Type 0} → String → Dict A → Dict A
unset k = keep (λ p. not (p.0 == k))

-- `_ip_msg_counts`, `_rate_dropped` and `_global_msg_count`
pub record Intake : Type 0 where
  pub counts : Dict Count
  pub dropped : Dict ℕ
  pub global : Count

-- the entries that `stale` does not list
abbrev pub is_recent : ℕ → String × Count → Bool
is_recent now (_, c) = not (leb (c.since + rate_window * 6) now)

abbrev pub unset_each : Dict Count → Dict ℕ → Dict ℕ
unset_each [] d = d
unset_each ((ip, _) ∷ stale) d = unset_each stale (unset ip d)

pub evict : ℕ → Intake → Intake
evict now s =
    if ltb rate_cache_max (length s.counts)
    then record s {
      counts = keep (is_recent now) s.counts;
      dropped = unset_each (keep (λ e. not (is_recent now e)) s.counts) s.dropped;
    }
    else s

abbrev pub is_open : ℕ → Option Count → Bool
is_open now none = false
is_open now (some c) = not (leb (c.since + rate_window) now)

abbrev pub count_of : Option Count → ℕ
count_of none = 0
count_of (some c) = c.count

abbrev pub since_of : Option Count → ℕ
since_of none = 0
since_of (some c) = c.since

pub syslog_rate_ok : String → ℕ → Intake → Bool × Intake
unfolding evict
syslog_rate_ok ip now s =
    let entry = find ip s.counts in
    let n = suc (count_of entry) in
    if not (is_open now entry)
    then (
      true,
      evict now (record s {
        counts = set ip (record { count = 1; since = now }) s.counts;
        dropped = unset ip s.dropped;
      }),
    )
    else (let s' = record s {
      counts = set ip (record { count = n; since = since_of entry }) s.counts;
    } in
        if ltb rate_max n
        then (false, record s' { dropped = set ip (suc (or_else (find ip s.dropped) 0)) s.dropped })
        else (true, s'))

pub global_rate_ok : ℕ → Intake → Bool × Intake
global_rate_ok now s =
    if leb (s.global.since + rate_window) now
    then (true, record s { global = record { count = 1; since = now } })
    else (
      leb (suc s.global.count) global_rate_max,
      record s { global = record s.global { count = suc s.global.count } },
    )

-- The guards of `datagram_received` up to the parser; `allowed` is `_is_allowed_source`.
pub admit_datagram : ℕ → Bool → String → ℕ → ℕ → Intake → Bool × Intake
unfolding syslog_rate_ok global_rate_ok
admit_datagram size allowed ip now later s =
    if ltb max_msg_size size
    then (false, s)
    else if not allowed
    then (false, s)
    else (let (ok, s') = syslog_rate_ok ip now s in
        if not ok then (false, s') else global_rate_ok later s')

-- The fields of a message that the flush reads; a missing one is a missing key. `other` stands for
-- the columns it leaves alone.
pub data Tags : Type 0 where
  text : String → Tags
  many : List String → Tags

pub record Message : Type 0 where
  pub other : String
  pub tags : Option Tags
  pub template_hash : Option String
  pub noise_score : Option ℕ
  pub received_at : Option ℕ
  pub extracted_fields : Option String

pub record Row : Type 0 where
  pub other : String
  pub tags : String
  pub template_hash : String
  pub noise_score : ℕ
  pub received_at : ℕ
  pub extracted_fields : String

abbrev pub tags_text : Option Tags → String
tags_text none = ""
tags_text (some (text t)) = t
tags_text (some (many ts)) = join "," ts

pub clean_row : ℕ → Message → Row
clean_row now m = record {
  other = m.other;
  tags = tags_text m.tags;
  template_hash = or_else m.template_hash "";
  noise_score = or_else m.noise_score 50;
  received_at = or_else m.received_at now;
  extracted_fields = or_else m.extracted_fields "{}";
}

-- `_buffer`, and what the table has received
pub record Pipe : Type 0 where
  pub buffer : List Message
  pub stored : List Row

-- drop the oldest beyond the hard cap
pub cap : List Message → List Message
cap ms = if ltb buffer_max (length ms) then drop (length ms - buffer_max) ms else ms

-- `insert_batch` returns, or it raises; the table may have got some rows of the batch by then, those
-- at the positions that are true.
pub data Insert : Type 0 where
  returns : Insert
  raises : List Bool → Insert

pub pick : List Bool → List Message → List Message
pick [] ms = []
pick (b ∷ bs) [] = []
pick (b ∷ bs) (m ∷ ms) = let rest = pick bs ms in if b then m ∷ rest else rest

-- `_flush_buffer`
pub flush_buffer : Insert → ℕ → Pipe → Pipe
unfolding clean_row cap pick
flush_buffer returns now p =
    if is_empty p.buffer
    then p
    else record { buffer = []; stored = p.stored ++ map (clean_row now) p.buffer }
flush_buffer (raises bs) now p = if is_empty p.buffer then p else record {
  buffer = cap p.buffer;
  stored = p.stored ++ map (clean_row now) (pick bs p.buffer);
}

-- the end of `_enqueue`, for a message that is enriched
pub enqueue : Insert → ℕ → Message → Pipe → Pipe
unfolding flush_buffer cap
enqueue insert now m p =
    let p' = record p { buffer = cap (p.buffer ++ m ∷ []) } in
    if leb buffer_size (length p'.buffer) then flush_buffer insert now p' else p'

-- The connections of `SyslogTCPHandler.handle`: an arrival, which may be turned away, and an end.
pub connect : ℕ → Bool × ℕ
connect open_count =
    if leb max_tcp_connections open_count then (false, open_count) else (true, suc open_count)

pub disconnect : ℕ → ℕ
disconnect open_count = open_count - 1
