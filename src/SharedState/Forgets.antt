-- ===== src/SharedState/Forgets.antt =====
-- What a due cleanup forgets.
use b8mon.Base.{
  ℕ, ◌+◌, ◌*◌, ◌<◌, String, ◌≡◌, ◌≢◌, none, some, List, [], ◌∷◌, arith, string_eq, ==_false, lt→ltb,
  length,
}
use b8mon.SharedState.{Memory, live, newest, clean, mem_incr, mem_count}

length-live-newest :
    (w now t : ℕ) (ts : List ℕ) → now < newest t ts + w → 0 < length (live now w (t ∷ ts))
length-live-newest w now t [] h = ground arith
length-live-newest w now t (u ∷ us) h = ground (arith, length-live-newest w now u us h)

pub live-newest :
    (k : String) (w now t : ℕ) (ts : List ℕ) (m : Memory)
    → m.hits k ≡ some (t ∷ ts)
    → now < newest t ts + w
    → 0 < (mem_count k w now m).0
unfolding mem_count
live-newest k w now t ts m e h = rw e (length-live-newest w now t ts h)

clean-forgets :
    (k : String) (w' now t : ℕ) (ts : List ℕ) (m : Memory)
    → m.hits k ≡ some (t ∷ ts)
    → m.last_cleanup + 300 < now
    → newest t ts + w' * 2 < now
    → (clean now w' m).hits k ≡ none
unfolding clean
clean-forgets k w' now t ts m e due old = rw (lt→ltb _ _ due) (rw e (rw (lt→ltb _ _ old)))

pub mem_incr-forgets :
    (j k : String) (w w' now t : ℕ) (ts : List ℕ) (m : Memory)
    → j ≢ k
    → m.hits k ≡ some (t ∷ ts)
    → m.last_cleanup + 300 < now
    → newest t ts + w' * 2 < now
    → (mem_count k w now (mem_incr j w' now m).1).0 ≡ 0
unfolding mem_count mem_incr
mem_incr-forgets j k w w' now t ts m ne e due old =
    rw (==_false {A = String} j k ne) (rw (clean-forgets k w' now t ts m e due old))
