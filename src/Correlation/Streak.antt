-- ===== src/Correlation/Streak.antt =====
-- The counter of a key against the cycles up to the latest that had it.
use b8mon.Base.{
  ℕ, ◌+◌, ◌≡◌, String, Bool, true, false, List, [], ◌∷◌, arith, if◌then◌else◌, or_else, contains,
  ==_refl,
}
use b8mon.Incidents.{host_ids_hash}
use b8mon.Correlation.{HitKey, hit_key_eq, Hits, count_hit, track_rule_hit, prune_stale_hits}

-- One cycle: the keys that it hits, in their order, and whether it gets to dropping the others. One
-- that raises before that only clears the set of keys that it hit.
pub record Round : Type 0 where
  pub keys : List HitKey
  pub fine : Bool

pub hit_all : List HitKey → Hits → Hits
hit_all [] hits = hits
hit_all (k ∷ ks) hits = hit_all ks (count_hit k hits).1

pub cycle : Round → Hits → Hits
unfolding hit_all
cycle c hits =
    let hits' = hit_all c.keys hits in
    if c.fine then prune_stale_hits hits' else record hits' { current = [] }

pub cycles : List Round → Hits → Hits
cycles [] hits = hits
cycles (c ∷ rest) hits = cycles rest (cycle c hits)

-- The cycles with `k` since the last one without it that did not raise, after `n` before them. A
-- cycle that raises counts if it had hit `k` by then, and does not end the row if it had not.
abbrev pub streak : HitKey → ℕ → List Round → ℕ
streak k n [] = n
streak k n (c ∷ rest) = streak k (if contains k c.keys then n + 1 else if c.fine then 0 else n) rest

-- no key twice
abbrev pub Distinct : List HitKey → Type 0
Distinct [] = Unit {0}
Distinct (k ∷ ks) = (contains k ks ≡ false) × Distinct ks

abbrev pub count_of : HitKey → Hits → ℕ
count_of k hits = or_else (hits.counts k) 0

-- Before a cycle no key is marked as seen.
abbrev pub IsIdle : Hits → Type 0
IsIdle hits = hits.current ≡ []

-- A key that is hit twice in its first cycle is due at the second hit, although the rule asks for
-- two consecutive cycles.
pub second_hit_is_due :
    (digest : String → String) (rule : String) (hosts : List ℕ) (hits : Hits)
    → (track_rule_hit digest rule hosts 2 (track_rule_hit digest rule hosts 2 hits).1).0 ≡ true
unfolding track_rule_hit count_hit
second_hit_is_due digest rule hosts hits =
    rw (==_refl {A = HitKey} (record { rule = rule; hash = host_ids_hash digest hosts }))
      (ground arith)
