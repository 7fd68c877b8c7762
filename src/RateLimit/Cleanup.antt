-- ===== src/RateLimit/Cleanup.antt =====
-- The cleanup of `mem_incr` takes the window of the call that triggers it for every key.
use b8mon.Base.{ℕ, ◌+◌, ◌*◌, ◌<◌, String, ◌≡◌, ◌≢◌, some, List, ◌∷◌, string_eq}
use b8mon.SharedState.{Memory, newest, mem_incr, mem_count}
use b8mon.SharedState.Forgets.{mem_incr-forgets, live-newest}

-- When a cleanup is due and a key's newest hit is older than twice the window `w'` of a call on
-- another key, but still inside the key's own window `w`, that call resets the key's count to 0,
-- although it was positive.
pub short_window_resets :
    (j k : String) (w w' now t : ℕ) (ts : List ℕ) (m : Memory)
    → j ≢ k
    → m.hits k ≡ some (t ∷ ts)
    → m.last_cleanup + 300 < now
    → newest t ts + w' * 2 < now
    → now < newest t ts + w
    → (0 < (mem_count k w now m).0) × ((mem_count k w now (mem_incr j w' now m).1).0 ≡ 0)
short_window_resets j k w w' now t ts m ne e due old young =
    (live-newest k w now t ts m e young, mem_incr-forgets j k w w' now t ts m ne e due old)
