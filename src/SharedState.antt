-- ===== src/SharedState.antt =====
-- backend/services/shared_state.py: sliding-window counters and the leader lease, in memory or in
-- Redis. The clock's readings, in whole seconds, are arguments. A comparison with `now - window`
-- is written with the window on the other side, since `-` on ℕ stops at 0.
pub mod Window
pub mod Agrees
pub mod Forgets
pub mod Lease
pub mod Redis
use b8mon.Base.{
  ℕ, zero, suc, ◌+◌, ◌*◌, String, Bool, true, false, ◌||◌, Option, none, some, List, [], ◌∷◌, ◌++◌,
  ltb, leb, string_eq, ◌==◌, if◌then◌else◌, length, keep, or_else, Map, no_entries, assign, discard,
}

-- `_hits`, `_last_cleanup` and `_leaders`
pub record Memory : Type 0 where
  pub hits : Map String (List ℕ)
  pub last_cleanup : ℕ
  pub leaders : Map String (String × ℕ)

-- what `reset` leaves
abbrev pub fresh : Memory
fresh = record { hits = no_entries; last_cleanup = 0; leaders = no_entries }

-- `t > now - window`
abbrev pub is_live : ℕ → ℕ → ℕ → Bool
is_live now window t = ltb now (t + window)

-- `[t for t in hits if t > cutoff]`
abbrev pub live : ℕ → ℕ → List ℕ → List ℕ
live now window = keep (is_live now window)

-- `v[-1]` of a list that is not empty
abbrev pub newest : ℕ → List ℕ → ℕ
newest t [] = t
newest t (u ∷ us) = newest u us

-- `not v or v[-1] < now - default_window * 2`
pub is_dead : ℕ → ℕ → List ℕ → Bool
is_dead now default_window [] = true
is_dead now default_window (t ∷ ts) = ltb (newest t ts + default_window * 2) now

pub cleanup_locked : ℕ → ℕ → Memory → Memory
unfolding is_dead
cleanup_locked now default_window m = record m {
  hits = λ k. elim (m.hits k) [
    | none ↦ none
    | some v ↦ if is_dead now default_window v then none else some v
  ];
  last_cleanup = now;
}

-- the cleanup that every 300 seconds precedes a hit
pub clean : ℕ → ℕ → Memory → Memory
unfolding cleanup_locked
clean now window m = if ltb (m.last_cleanup + 300) now then cleanup_locked now window m else m

pub mem_incr : String → ℕ → ℕ → Memory → ℕ × Memory
unfolding clean
mem_incr key window now m =
    let m' = clean now window m in
    let hits = live now window (or_else (m'.hits key) []) ++ now ∷ [] in
    (length hits, record m' { hits = assign key hits m'.hits })

pub mem_count : String → ℕ → ℕ → Memory → ℕ × Memory
mem_count key window now m =
    let hits = live now window (or_else (m.hits key) []) in
    (
      length hits,
      elim (m.hits key) [ none ↦ m | some _ ↦ record m { hits = assign key hits m.hits } ],
    )

-- `cur is None or cur[1] <= now or cur[0] == instance_id`
abbrev pub is_free : ℕ → String → Option (String × ℕ) → Bool
is_free now instance_id none = true
is_free now instance_id (some (holder, expiry)) = leb expiry now || holder == instance_id

pub mem_acquire_leader : String → String → ℕ → ℕ → Memory → Bool × Memory
mem_acquire_leader lock_name instance_id ttl now m =
    if is_free now instance_id (m.leaders lock_name)
    then (true, record m { leaders = assign lock_name (instance_id, now + ttl) m.leaders })
    else (false, m)

-- `cur is not None and cur[0] == instance_id`
abbrev pub is_holder : String → Option (String × ℕ) → Bool
is_holder instance_id none = false
is_holder instance_id (some (holder, _)) = holder == instance_id

pub mem_release_leader : String → String → Memory → Memory
mem_release_leader lock_name instance_id m =
    if is_holder instance_id (m.leaders lock_name)
    then record m { leaders = discard lock_name m.leaders }
    else m
