-- ===== src/Scheduler.antt =====
-- backend/scheduler.py, the election of the one instance that runs the jobs: every instance renews
-- the Redis lease in a loop, and pauses its scheduler when it does not get it. Times are in
-- milliseconds, as the lease's time to live is.
pub mod Election
pub mod SplitBrain
mod Tests
use b8mon.Base.{
  ℕ, ◌+◌, ◌*◌, ◌≤◌, String, ◌≡◌, Bool, true, false, not, ◌&&◌, if◌then◌else◌, Option, none, some,
  string_eq, ◌==◌,
}
use b8mon.SharedState.Lease.{Lease, acquire_script}

abbrev pub leader_ttl_seconds : ℕ
leader_ttl_seconds = 30

abbrev pub leader_ttl : ℕ
leader_ttl = leader_ttl_seconds * 1000

-- One process: `_is_leader`, and whether its scheduler runs jobs (is not paused).
pub record Instance : Type 0 where
  pub is_leader : Bool
  pub running : Bool

-- with Redis the scheduler starts paused
abbrev pub started : Instance
started = record { is_leader = false; running = false }

pub apply_leadership : Bool → Instance → Instance
apply_leadership leader i =
    if leader && not i.is_leader
    then record { running = true; is_leader = true }
    else if not leader && i.is_leader
    then record { running = false; is_leader = false }
    else i

-- `stop_scheduler`: the loop is cancelled and the scheduler shut down; the lease is left to expire
pub stop_scheduler : Instance → Instance
stop_scheduler i = record i { running = false }

-- All instances and the Redis server. `renewed` is when an instance last got an answer that it
-- holds the lease; the program does not keep it.
pub record Cluster : Type 0 where
  pub now : ℕ
  pub lease : Lease
  pub instances : String → Instance
  pub renewed : String → ℕ

abbrev pub update {ℓ} : {A : Type ℓ} → (String → A) → String → A → String → A
update f i a j = if i == j then a else f j

-- One round of `_leadership_loop`, by what becomes of the call of Redis: it answers; it fails
-- before Redis ran the script; or Redis ran the script and the answer is lost. The last two raise,
-- and the handler leaves the instance as it is.
pub data Outcome : Type 0 where
  answered failed lost : Outcome

pub leadership_round : String → Outcome → Cluster → Cluster
unfolding apply_leadership
leadership_round i answered c =
    let (leader, lease) = acquire_script i leader_ttl c.now c.lease in
    record c {
      lease = lease;
      instances = update c.instances i (apply_leadership leader (c.instances i));
      renewed = if leader then update c.renewed i c.now else c.renewed;
    }
leadership_round i failed c = c
leadership_round i lost c = record c { lease = (acquire_script i leader_ttl c.now c.lease).1 }

pub data Step : Cluster → Cluster → Type 0 where
  tick : (c : Cluster) (later : ℕ) → c.now ≤ later → Step c (record c { now = later })
  round : (c : Cluster) (i : String) (o : Outcome) → Step c (leadership_round i o c)
  stop :
      (c : Cluster) (i : String)
      → Step c (record c { instances = update c.instances i (stop_scheduler (c.instances i)) })

abbrev pub initial : Cluster
initial = record { now = 0; lease = none; instances = λ i. started; renewed = λ i. 0 }

pub data Reach : Cluster → Type 0 where
  start : (c : Cluster) → c ≡ initial → Reach c
  next : {c d : Cluster} → Reach c → Step c d → Reach d
