-- ===== src/SharedState/Lease.antt =====
-- The two Lua scripts of backend/services/shared_state.py, on the one key that holds the lease. A
-- key that was set with PX is gone once its time is over.
use b8mon.Base.{
  ℕ, ◌+◌, String, Bool, true, false, Option, none, some, ltb, string_eq, ◌==◌, if◌then◌else◌,
}

-- the holder and the time at which the key is gone
abbrev pub Lease : Type 0
Lease = Option (String × ℕ)

-- `GET`
abbrev pub lease_holder : ℕ → Lease → Option String
lease_holder now none = none
lease_holder now (some (holder, expiry)) = if ltb now expiry then some holder else none

-- `v == false or v == ARGV[1]`
abbrev pub may_take : String → Option String → Bool
may_take instance_id none = true
may_take instance_id (some holder) = holder == instance_id

-- `_ACQUIRE_LUA`
unfoldable pub acquire_script : String → ℕ → ℕ → Lease → Bool × Lease
acquire_script instance_id ttl now lease =
    if may_take instance_id (lease_holder now lease)
    then (true, some (instance_id, now + ttl))
    else (false, lease)

abbrev pub holds : String → Option String → Bool
holds instance_id none = false
holds instance_id (some holder) = holder == instance_id

-- `_RELEASE_LUA`
pub release_script : String → ℕ → Lease → Bool × Lease
release_script instance_id now lease =
    if holds instance_id (lease_holder now lease) then (true, none) else (false, lease)
