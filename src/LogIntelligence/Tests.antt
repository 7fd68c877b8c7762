-- ===== src/LogIntelligence/Tests.antt =====
-- Two templates, one of which is stored already, and a burst of the other one.
use b8mon.Base.{
  ℕ, zero, suc, ◌+◌, ◌≡◌, refl, String, Bool, true, false, none, some, List, [], ◌∷◌, arith,
  string_eq, ◌==◌, if◌then◌else◌, eq_iff,
}
use b8mon.LogIntelligence.{
  flush_raises, cleanup_log_templates, is_outdated, Message, Cache, Table, is_new_template,
  count_template, find_row, flush_templates, no_bursts, check_burst,
}
use b8mon.LogIntelligence.Counts.{pending, stored, IsTracked}
use b8mon.LogIntelligence.Flush.{count_templates, occurrences, flush_templates-count_templates}
use b8mon.LogIntelligence.Hysteresis.{
  Event, received, page_read, observations, reference, check_burst-reference,
}

abbrev message : String → Message
message h = record { template = h; template_hash = h; text = h; tags = [] }

abbrev table : Table
table = record {
  rows =
      record {
        id = 1;
        template_hash = "aa";
        template = "link up";
        example = "link up";
        count = 5;
        first_seen = 0;
        last_seen = 0;
        tags = "";
        noise_score = 50;
      }
      ∷ [];
  next_id = 2;
}

-- the cache after a start
abbrev started : Cache
started = record {
  template_cache = λ h. if "aa" == h then some 1 else none;
  template_counts = [];
  new_templates = [];
}

started-IsTracked : IsTracked started table
unfolding find_row
started-IsTracked = record {
  cached = λ h. ground (arith, eq_iff "aa" h);
  fresh = λ h q. cc q;
  counted = λ h q. cc q;
  placed = λ h q r. cc q;
  counts_distinct = tt;
  new_distinct = tt;
}

abbrev arrived : List Message
arrived = message "aa" ∷ message "bb" ∷ message "aa" ∷ message "bb" ∷ message "bb" ∷ []

flushed : stored "bb" (flush_templates 60 (count_templates arrived started) table).1 ≡ 3
unfolding flush_templates count_template is_new_template find_row
flushed = refl

flush_templates-count_templates_example :
    (stored "aa" (flush_templates 60 (count_templates arrived started) table).1
      ≡ stored "aa" table + pending "aa" [] + occurrences "aa" arrived)
    × IsTracked
        (flush_templates 60 (count_templates arrived started) table).0
        (flush_templates 60 (count_templates arrived started) table).1
    × ((flush_raises 60 1 (count_templates arrived started) table).1 ≡ table)
    × (pending "aa" (flush_raises 60 1 (count_templates arrived started) table).0.template_counts
        ≡ 0)
flush_templates-count_templates_example =
    flush_templates-count_templates 60 1 arrived started table "aa" started-IsTracked

-- a template that is cleaned up stays cached, so that its next message is not stored
cleaned_up :
    let table' = (cleanup_log_templates 100000 [] 1 table).1 in
    stored "aa" (flush_templates 100010 (count_template (message "aa") started) table').1 ≡ 0
unfolding cleanup_log_templates is_outdated flush_templates count_template is_new_template find_row
cleaned_up = refl

abbrev calls : List (Event × ℕ)
calls =
    (received "bb", 10)
    ∷ (received "aa", 20)
    ∷ (received "bb", 400)
    ∷ (page_read, 500)
    ∷ (received "bb", 1100)
    ∷ []

check_burst-reference_example : observations "bb" calls no_bursts ≡ reference "bb" calls [] false
check_burst-reference_example = check_burst-reference "bb" calls (omega arith)

-- the same template again and again, and whether its last message starts a burst
abbrev repeated : ℕ → List (Event × ℕ)
repeated zero = []
repeated (suc n) = (received "bb", 10) ∷ repeated n

abbrev last_started : List (Bool × Bool) → Bool
last_started [] = false
last_started ((b, a) ∷ []) = b
last_started (x ∷ y ∷ xs) = last_started (y ∷ xs)

fiftieth : last_started (observations "bb" (repeated 50) no_bursts) ≡ true
unfolding check_burst
fiftieth = refl
