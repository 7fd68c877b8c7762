-- ===== src/Syslog/Connections.antt =====
-- The number of TCP connections that are open.
use b8mon.Base.{ℕ, suc, ◌≤◌, ◌≡◌, refl, true, false, arith}
use b8mon.Syslog.{connect, disconnect, max_tcp_connections}

-- The connections that were let in and have not ended, beside the counter that the code keeps.
pub record Server : Type 0 where
  pub counter : ℕ
  pub open_handlers : ℕ

-- a new connection, or the end of one that was let in
pub data Step : Server → Server → Type 0 where
  admitted :
      (s : Server)
      → (connect s.counter).0 ≡ true
      → Step s (record { counter = (connect s.counter).1; open_handlers = suc s.open_handlers })
  rejected :
      (s : Server)
      → (connect s.counter).0 ≡ false
      → Step s (record { counter = (connect s.counter).1; open_handlers = s.open_handlers })
  ended :
      (s : Server) (n : ℕ)
      → s.open_handlers ≡ suc n
      → Step s (record { counter = disconnect s.counter; open_handlers = n })

pub data Reach : Server → Type 0 where
  start : Reach (record { counter = 0; open_handlers = 0 })
  next : {s t : Server} → Reach s → Step s t → Reach t

abbrev pub IsBounded : Server → Type 0
IsBounded s = (s.counter ≡ s.open_handlers) × (s.open_handlers ≤ max_tcp_connections)

Step-IsBounded : {s t : Server} → Step s t → IsBounded s → IsBounded t
unfolding connect disconnect
Step-IsBounded (admitted s e) (p, le) = ground arith
Step-IsBounded (rejected s e) (p, le) = ground arith
Step-IsBounded (ended s n e) (p, le) = (omega arith, omega arith)

-- In every reachable state the counter is the number of connections being handled, and that is at
-- most 100.
pub Reach-IsBounded : {s : Server} → Reach s → IsBounded s
Reach-IsBounded start = (refl, omega arith)
Reach-IsBounded (next r st) = Step-IsBounded st (Reach-IsBounded r)
