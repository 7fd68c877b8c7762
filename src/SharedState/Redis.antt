-- ===== src/SharedState/Redis.antt =====
-- The public API of backend/services/shared_state.py over a Redis client that may fail. The client
-- is the parameter `Client`: its counter commands and its two lock scripts return nothing where the
-- call raises. A call that raises may have changed the server, so the new state is always returned.
use b8mon.Base.{ℕ, ◌/◌, String, Bool, true, false, Option, none, some, or_else}
use b8mon.SharedState.{Memory, mem_incr, mem_count, mem_acquire_leader, mem_release_leader}

-- `sw:{key}:{bucket}`, with the parts kept apart
pub record WindowKey : Type 0 where
  pub key : String
  pub bucket : ℕ

pub record Client : Type 1 where
  pub Server : Type 0
  -- INCR and EXPIRE in one pipeline: the counter's new value
  pub incr_expire : WindowKey → ℕ → Server → Option ℕ × Server
  -- GET: the value, if the key is there
  pub get : WindowKey → Server → Option (Option ℕ) × Server
  pub eval_acquire : String → String → ℕ → ℕ → Server → Option Bool × Server
  pub eval_release : String → String → ℕ → Server → Option (Unit {0}) × Server

module _ (c : Client) where
  open c use {Server, incr_expire, get, eval_acquire, eval_release}

  -- the process's memory beside the server
  pub record Shared : Type 0 where
    pub memory : Memory
    pub server : Server

  pub redis_incr : String → ℕ → ℕ → Server → Option ℕ × Server
  redis_incr key window now = incr_expire (record { key = key; bucket = now / window }) window

  pub redis_count : String → ℕ → ℕ → Server → Option ℕ × Server
  redis_count key window now s =
      let (reply, s') = get (record { key = key; bucket = now / window }) s in
      (elim reply [ none ↦ none | some value ↦ some (or_else value 0) ], s')

  -- The fallback after an error, and the only path without a URL.
  incr_in_memory : String → ℕ → ℕ → Shared → ℕ × Shared
  incr_in_memory key window now s =
      let (n, m) = mem_incr key window now s.memory in (n, record s { memory = m })

  count_in_memory : String → ℕ → ℕ → Shared → ℕ × Shared
  count_in_memory key window now s =
      let (n, m) = mem_count key window now s.memory in (n, record s { memory = m })

  unfoldable pub incr_window : Bool → String → ℕ → ℕ → Shared → ℕ × Shared
  unfolding redis_incr incr_in_memory
  incr_window false key window now s = incr_in_memory key window now s
  incr_window true key window now s =
      let (reply, server) = redis_incr key window now s.server in
      let s' = record s { server = server } in
      elim reply [ some n ↦ (n, s') | none ↦ incr_in_memory key window now s' ]

  unfoldable pub window_count : Bool → String → ℕ → ℕ → Shared → ℕ × Shared
  unfolding redis_count count_in_memory
  window_count false key window now s = count_in_memory key window now s
  window_count true key window now s =
      let (reply, server) = redis_count key window now s.server in
      let s' = record s { server = server } in
      elim reply [ some n ↦ (n, s') | none ↦ count_in_memory key window now s' ]

  -- The same coroutines, run in a thread of their own while the caller waits.
  abbrev pub incr_window_sync : Bool → String → ℕ → ℕ → Shared → ℕ × Shared
  incr_window_sync = incr_window

  abbrev pub window_count_sync : Bool → String → ℕ → ℕ → Shared → ℕ × Shared
  window_count_sync = window_count

  -- Nothing where the call raises: the lease does not fall back to memory.
  pub try_acquire_leader : Bool → String → String → ℕ → ℕ → Shared → Option Bool × Shared
  try_acquire_leader false lock instance_id ttl now s =
      let (held, m) = mem_acquire_leader lock instance_id ttl now s.memory in
      (some held, record s { memory = m })
  try_acquire_leader true lock instance_id ttl now s =
      let (reply, server) = eval_acquire lock instance_id ttl now s.server in
      (reply, record s { server = server })

  pub release_leader : Bool → String → String → ℕ → Shared → Shared
  release_leader false lock instance_id now s = record s {
    memory = mem_release_leader lock instance_id s.memory;
  }
  release_leader true lock instance_id now s =
      let (_, server) = eval_release lock instance_id now s.server in record s { server = server }
