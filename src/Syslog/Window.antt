-- ===== src/Syslog/Window.antt =====
-- The rate limit of one source among messages of any sources.
use b8mon.Base.{
  ℕ, suc, ◌+◌, ◌-◌, ◌≤◌, ◌<◌, min, String, ◌≡◌, refl, ap, ◌∙◌, inl, inr, true, false, not, ◌&&◌,
  none, some, List, [], ◌∷◌, arith, ltb, string_eq, eq_iff, ◌==◌, ==_refl, if◌then◌else◌, length,
  keep, All, Bool-cases,
}
use b8mon.Syslog.{
  Count, Dict, find, set, Intake, is_recent, evict, is_open, count_of, unset, syslog_rate_ok,
  rate_window, rate_max, rate_cache_max,
}

-- a message's source and time
abbrev pub Arrival : Type 0
Arrival = String × ℕ

-- how many messages of `k` are let through
pub accepted : String → List Arrival → Intake → ℕ
accepted k [] s = 0
accepted k ((ip, t) ∷ as') s =
    let (ok, s') = syslog_rate_ok ip t s in
    let rest = accepted k as' s' in if ip == k && ok then suc rest else rest

abbrev pub sent : String → List Arrival → ℕ
sent k [] = 0
sent k ((ip, t) ∷ as') = let rest = sent k as' in if ip == k then suc rest else rest

-- the window that began at `since` is open for all of them
abbrev pub IsWithin : ℕ → List Arrival → Type 0
IsWithin since = All (λ a. a.1 < since + rate_window)

find-set : {A : Type 0} (k : String) (a : A) (d : Dict A) → find k (set k a d) ≡ some a
find-set k a [] = rw (==_refl {A = String} k) refl
find-set k a ((j, b) ∷ d) = elim (Bool-cases (j == k)) [
  | inl y ↦ rw (y, y) refl
  | inr n ↦ rw (n, n) (find-set k a d)
]

find-set_ne :
    {A : Type 0} (k ip : String) (a : A) (d : Dict A)
    → (ip == k) ≡ false
    → find k (set ip a d) ≡ find k d
find-set_ne k ip a [] ne = rw ne refl
find-set_ne k ip a ((j, b) ∷ d) ne = elim (Bool-cases (j == ip)) [
  | inl y ↦
      let p : j ≡ ip = (eq_iff j ip).0 y in
      let other : (j == k) ≡ false = rw p ne in rw (y, other) refl
  | inr n ↦ elim (Bool-cases (j == k)) [
    | inl z ↦ rw (n, z) refl
    | inr z ↦ rw (n, z) (find-set_ne k ip a d ne)
  ]
]

find-keep :
    (k : String) (now : ℕ) (c : Count) (d : Dict Count)
    → find k d ≡ some c
    → now < c.since + 60
    → find k (keep (is_recent now) d) ≡ some c
find-keep k now c [] e lt = e
find-keep k now c ((j, b) ∷ d) e lt = elim (Bool-cases (j == k)) [
  | inl y ↦
      let same : some b ≡ some c = rw y at e in
      let recent : is_recent now (j, b) ≡ true =
        young (ap (λ o. elim o as (λ _. ℕ) [ none ↦ 0 | some x ↦ x.since ]) same) in
      rw (recent, y) same
  | inr n ↦ elim (Bool-cases (is_recent now (j, b))) [
    | inl z ↦ rw (z, n) (find-keep k now c d (rw n at e) lt)
    | inr z ↦ rw z (find-keep k now c d (rw n at e) lt)
  ]
]
  where
    young : b.since ≡ c.since → is_recent now (j, b) ≡ true
    young p = ground arith

find-evict :
    (k : String) (now : ℕ) (c : Count) (s : Intake)
    → find k s.counts ≡ some c
    → now < c.since + 60
    → find k (evict now s).counts ≡ some c
unfolding evict
find-evict k now c s e lt = elim (Bool-cases (ltb rate_cache_max (length s.counts))) [
  | inl y ↦ rw y (find-keep k now c s.counts e lt)
  | inr n ↦ rw n e
]

-- a message of another source leaves the entry alone
other_source :
    (k ip : String) (t : ℕ) (c : Count) (s : Intake)
    → (ip == k) ≡ false
    → find k s.counts ≡ some c
    → t < c.since + rate_window
    → find k (syslog_rate_ok ip t s).1.counts ≡ some c
unfolding syslog_rate_ok
other_source k ip t c s ne e lt = elim (Bool-cases (is_open t (find ip s.counts))) [
  | inl y ↦ elim (Bool-cases (ltb rate_max (suc (count_of (find ip s.counts))))) [
    | inl z ↦ rw (y, z) (find-set_ne k ip _ s.counts ne ∙ e)
    | inr z ↦ rw (y, z) (find-set_ne k ip _ s.counts ne ∙ e)
  ]
  | inr n ↦ rw n (
      find-evict k t c
        (record s {
          counts = set ip (record { count = 1; since = t }) s.counts;
          dropped = unset ip s.dropped;
        })
        (find-set_ne k ip _ s.counts ne ∙ e) (omega arith))
]

abbrev entry : ℕ → ℕ → Count
entry n since = record { count = n; since = since }

own_source :
    (k : String) (t n since : ℕ) (s : Intake)
    → find k s.counts ≡ some (entry n since)
    → t < since + rate_window
    → ((syslog_rate_ok k t s).0 ≡ not (ltb rate_max (suc n)))
      × (find k (syslog_rate_ok k t s).1.counts ≡ some (entry (suc n) since))
unfolding syslog_rate_ok
own_source k t n since s e lt =
    let fresh : is_open t (some (entry n since)) ≡ true = ground arith in
    elim (Bool-cases (ltb rate_max (suc n))) [
      | inl z ↦ rw (e, fresh, z) (refl, find-set k _ s.counts)
      | inr z ↦ rw (e, fresh, z) (refl, find-set k _ s.counts)
    ]

accepted-open :
    (k : String) (n since : ℕ) (as' : List Arrival) (s : Intake)
    → find k s.counts ≡ some (entry n since)
    → IsWithin since as'
    → accepted k as' s ≡ min (sent k as') (rate_max - n)
unfolding accepted
accepted-open k n since [] s e w = omega arith
accepted-open k n since ((ip, t) ∷ as') s e (lt, w) = elim (Bool-cases (ip == k)) [
  | inr ne ↦ rw ne (
      accepted-open k n since as' (syslog_rate_ok ip t s).1
        (other_source k ip t (entry n since) s ne e lt) w)
  | inl y ↦
      let p : ip ≡ k = (eq_iff ip k).0 y in
      let e' : find ip s.counts ≡ some (entry n since) = rw p e in
      let (answer, next) = own_source ip t n since s e' lt in
      let rest = accepted-open k (suc n) since as' (syslog_rate_ok ip t s).1 (rw (← p) next) w in
      elim (Bool-cases (ltb rate_max (suc n))) [
        | inl z ↦ rw (y, answer, z) (omega (arith, rest, over n z))
        | inr z ↦ rw (y, answer, z) (omega (arith, rest, under n z))
      ]
]
  where
    over : (n : ℕ) → ltb 500 (suc n) ≡ true → 500 ≤ n
    over n z = ground arith

    under : (n : ℕ) → ltb 500 (suc n) ≡ false → n < 500
    under n z = ground arith

-- A message that opens a source's window is let through, and of all messages of the source while
-- the window is open exactly the first 500 are, this one included, whatever other sources send in
-- between.
pub accepted-min :
    (k : String) (t : ℕ) (as' : List Arrival) (s : Intake)
    → is_open t (find k s.counts) ≡ false
    → IsWithin t as'
    → accepted k ((k, t) ∷ as') s ≡ min (suc (sent k as')) rate_max
unfolding accepted syslog_rate_ok
accepted-min k t as' s closed w =
    let opened = record s { counts = set k (entry 1 t) s.counts; dropped = unset k s.dropped } in
    let rest =
      accepted-open k 1 t as' (evict t opened)
        (find-evict k t (entry 1 t) opened (find-set k (entry 1 t) s.counts) (omega arith)) w in
    rw (==_refl {A = String} k, closed) (omega (arith, rest))
