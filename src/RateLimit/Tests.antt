-- ===== src/RateLimit/Tests.antt =====
-- The limiter on three calls: one key's two, of which one is allowed in a minute, and another key's.
use b8mon.Base.{
  ℕ, ◌≤◌, ◌<◌, String, ◌≡◌, ◌≢◌, refl, true, false, none, some, List, [], ◌∷◌, arith, inl, inr,
  string_eq, eq_iff, length,
}
use b8mon.SharedState.{Memory, fresh, live, mem_count, mem_incr}
use b8mon.SharedState.Redis.{Client, Shared}
use b8mon.RateLimit.{Request, verdicts, Ordered, Fits}
use b8mon.RateLimit.Reference.{reference, admitted, final_time}
use b8mon.RateLimit.Refines.{verdicts-reference, admitted_bound}
use b8mon.RateLimit.Cleanup.{short_window_resets}

-- a client whose every call raises
abbrev down : Client
down = record {
  Server = Unit {0};
  incr_expire = λ key window s. (none, s);
  get = λ key s. (none, s);
  eval_acquire = λ lock instance_id ttl now s. (none, s);
  eval_release = λ lock instance_id now s. (none, s);
}

abbrev shared : Shared down
shared = record { memory = fresh; server = tt }

abbrev call : String → ℕ → Request
call key t = record { key = key; max_requests = 1; window = 60; counted_at = t; recorded_at = t }

abbrev calls : List Request
calls = call "a" 400 ∷ call "b" 405 ∷ call "a" 410 ∷ call "a" 470 ∷ []

calls-Ordered : Ordered 0 calls
calls-Ordered = (
  omega arith,
  omega arith,
  (omega arith, omega arith, (omega arith, omega arith, (omega arith, omega arith, tt))),
)

b≢a : ◌≢◌ {A = String} "b" "a"
b≢a p = cc ((eq_iff "b" "a").1 p)

calls-Fits : Fits "a" 1 60 calls
calls-Fits = (
  inl (refl, refl, refl),
  (inr (b≢a, omega arith), (inl (refl, refl, refl), (inl (refl, refl, refl), tt))),
)

verdicts-reference_example : verdicts down false "a" calls shared ≡ reference "a" 1 60 calls []
verdicts-reference_example =
    verdicts-reference down "a" 1 60 calls shared refl calls-Ordered calls-Fits

reference-calls : reference "a" 1 60 calls [] ≡ false ∷ true ∷ false ∷ []
reference-calls = refl

admitted_bound_example :
    length
      (live (final_time 0 calls) 60 (admitted "a" calls (verdicts down false "a" calls shared)))
    ≤ 1
admitted_bound_example = admitted_bound down "a" 1 60 calls shared refl calls-Ordered calls-Fits

abbrev failed_login : Memory
failed_login = record fresh { hits = λ k. some (1000 ∷ []) }

short_window_resets_example :
    (0 < (mem_count "a" 300 1200 failed_login).0)
    × ((mem_count "a" 300 1200 (mem_incr "b" 60 1200 failed_login).1).0 ≡ 0)
short_window_resets_example =
    short_window_resets "b" "a" 300 60 1200 1000 [] failed_login b≢a refl (omega arith)
      (omega arith) (omega arith)
