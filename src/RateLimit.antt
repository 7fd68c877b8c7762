-- ===== src/RateLimit.antt =====
-- backend/ratelimit.py: the limiter, the failed-login throttle and the route decorator.
pub mod Reference
pub mod Refines
pub mod Cleanup
mod Tests
use Prim.Native.String.{◌++◌}
use b8mon.Base.{
  ℕ, ◌*◌, ◌≤◌, String, ◌≡◌, ◌≢◌, ◌⊎◌, Bool, true, false, Option, none, some, List, [], ◌∷◌, leb,
  string_eq, ◌==◌, if◌then◌else◌, or_else,
}
use b8mon.SharedState.Redis.{
  Client, Shared, incr_window, incr_window_sync, window_count, window_count_sync,
}

-- `_get_client_ip`: the direct connection's address, if there is one
abbrev pub get_client_ip : Option String → String
get_client_ip client = or_else client "unknown"

abbrev pub failed_auth_max_attempts : ℕ
failed_auth_max_attempts = 20

abbrev pub failed_auth_window_seconds : ℕ
failed_auth_window_seconds = 300

-- A call of the limiter: its arguments, and what the clock says when it counts and when it records.
pub record Request : Type 0 where
  pub key : String
  pub max_requests : ℕ
  pub window : ℕ
  pub counted_at : ℕ
  pub recorded_at : ℕ

module _ (c : Client) (url : Bool) where
  pub is_limited : Request → Shared c → Bool × Shared c
  is_limited r s =
      let (count, s') = window_count_sync c url r.key r.window r.counted_at s in
      if leb r.max_requests count
      then (true, s')
      else (false, (incr_window_sync c url r.key r.window r.recorded_at s').1)

  unfoldable pub failed_auth_throttled : Option String → ℕ → ℕ → Shared c → Bool × Shared c
  unfolding is_limited
  failed_auth_throttled client counted_at recorded_at = is_limited (record {
    key = "failed_auth:" ++ get_client_ip client;
    max_requests = failed_auth_max_attempts;
    window = failed_auth_window_seconds;
    counted_at = counted_at;
    recorded_at = recorded_at;
  })

  -- `rate_limit`: nothing for a 429, else what the handler returns. Without a request object the
  -- handler runs unlimited. `route` is the handler's module and name.
  unfoldable pub limited_call {ℓ} :
      {A : Type ℓ} (route : String) (request : Option (Option String)) (max_requests window : ℕ)
      (counted_at recorded_at : ℕ) (handler : Shared c → A × Shared c)
      → Shared c
      → Option A × Shared c
  limited_call route none max_requests window counted_at recorded_at handler s =
      let (a, s') = handler s in (some a, s')
  limited_call route (some client) max_requests window counted_at recorded_at handler s =
      let key = route ++ ":" ++ get_client_ip client in
      let (count, s') = window_count c url key window counted_at s in
      if leb max_requests count
      then (none, s')
      else (let (_, s'') = incr_window c url key window recorded_at s' in
          let (a, t) = handler s'' in (some a, t))

  -- What the calls on one key were told, in order, among calls on any keys.
  pub verdicts : String → List Request → Shared c → List Bool
  verdicts k [] s = []
  verdicts k (r ∷ rs) s =
      let (limited, s') = is_limited r s in
      let rest = verdicts k rs s' in if r.key == k then limited ∷ rest else rest

-- The clock never goes back, from `lo` on.
abbrev pub Ordered : ℕ → List Request → Type 0
Ordered lo [] = Unit {0}
Ordered lo (r ∷ rs) =
    (lo ≤ r.counted_at) × (r.counted_at ≤ r.recorded_at) × Ordered r.recorded_at rs

-- The calls on `k` use one limit, and no other call's window is shorter than half of `k`'s.
abbrev pub Fits : String → ℕ → ℕ → List Request → Type 0
Fits k m w [] = Unit {0}
Fits k m w (r ∷ rs) =
    ((r.key ≡ k) × (r.max_requests ≡ m) × (r.window ≡ w) ⊎ (r.key ≢ k) × (w ≤ r.window * 2))
    × Fits k m w rs
