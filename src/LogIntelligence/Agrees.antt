-- ===== src/LogIntelligence/Agrees.antt =====
-- One template's deque and mark against a log of all its times, through cleanups and the messages of
-- other templates.
use b8mon.Base.{
  ℕ, ◌+◌, ◌≤◌, min, ◌≡◌, refl, ◌⊎◌, inl, inr, ◌≢◌, String, Bool, true, false, ◌&&◌, Option, none,
  some, List, [], arith, ltb, leb, string_eq, ==_false, if◌then◌else◌, length, Bool-cases, or_else,
  assign,
}
use b8mon.LogIntelligence.{
  BurstState, is_stale, clean_up, set_active, dq_of, judge_burst, check_burst,
}
use b8mon.LogIntelligence.Bursts.{live, Climbs, Climbs-later, live_of_is_stale, next_dq}

-- whether a template bursts after a message that is the `n`-th in its window
abbrev pub next : Bool → ℕ → Bool
next was n = if leb 50 n then true else if was && ltb n 25 then false else was

-- The deque `d` and the mark `a` of a template, against its times `log` and whether it bursts.
pub record Agrees (now : ℕ) (log : List ℕ) (was : Bool) (d : List ℕ) (a : Bool) : Type 0 where
  pub climbs : Climbs 0 now d
  pub non_empty : a ≡ true → 1 ≤ length d
  pub same : (t : ℕ) → now ≤ t → min 200 (live t d) ≡ min 200 (live t log)
  pub marked : (a ≡ was) ⊎ ((a ≡ false) × ((t : ℕ) → now ≤ t → live t log ≡ 0))

pub Agrees-later :
    (now later : ℕ) (log : List ℕ) (was : Bool) (d : List ℕ) (a : Bool)
    → now ≤ later
    → Agrees now log was d a
    → Agrees later log was d a
Agrees-later now later log was d a h g = record {
  climbs = Climbs-later 0 now later d h g.climbs;
  non_empty = g.non_empty;
  same = λ t k. g.same t (omega arith);
  marked = elim g.marked [ inl e ↦ inl e | inr (e, gone) ↦ inr (e, λ t k. gone t (omega arith)) ];
}

-- what a cleanup leaves of a template
pub clean_up-kept :
    (k : String) (now : ℕ) (d : List ℕ) (s : BurstState)
    → s.timestamps k ≡ some d
    → is_stale now d ≡ false
    → (dq_of k (clean_up now s) ≡ d) × ((clean_up now s).active k ≡ s.active k)
unfolding clean_up
clean_up-kept k now d s e f = ground (arith, e, f)

emptied :
    (now : ℕ) (log : List ℕ) (was : Bool) (d : List ℕ) (a : Bool)
    → is_stale now d ≡ true
    → Agrees now log was d a
    → Agrees now log was [] false
emptied now log was d a st g =
    let gone = λ (t : ℕ) (h : now ≤ t). live_of_is_stale 0 now now t d g.climbs st h in
    record {
      climbs = omega arith;
      non_empty = λ e. cc e;
      same = λ t h. ground (arith, gone t h, g.same t h);
      marked = inr (refl, λ t h. ground (arith, gone t h, g.same t h));
    }

-- a template's entry and its mark, after the cleanup
cleaned-Agrees :
    (now : ℕ) (log : List ℕ) (was : Bool) (o : Option (List ℕ)) (a : Bool)
    → Agrees now log was (or_else o []) a
    → Agrees now log was
        (or_else
          (elim o as (λ _. Option (List ℕ)) [
            | none ↦ none
            | some d ↦ if is_stale now d then none else some d
          ])
          [])
        (elim o as (λ _. Bool) [ none ↦ a | some d ↦ if is_stale now d then false else a ])
cleaned-Agrees now log was none a g = g
cleaned-Agrees now log was (some d) a g = elim (Bool-cases (is_stale now d)) [
  | inl y ↦ rw y (emptied now log was d a y g)
  | inr n ↦ rw n g
]

clean_up-Agrees :
    (k : String) (now : ℕ) (log : List ℕ) (was : Bool) (s : BurstState)
    → Agrees now log was (dq_of k s) (s.active k)
    → Agrees now log was (dq_of k (clean_up now s)) ((clean_up now s).active k)
unfolding clean_up
clean_up-Agrees k now log was s g = elim (Bool-cases (ltb (s.last_cleanup + 600) now)) [
  | inl y ↦ rw y (cleaned-Agrees now log was (s.timestamps k) (s.active k) g)
  | inr n ↦ rw n g
]

-- a message of another template
pub check_burst-other :
    (k h : String) (now : ℕ) (log : List ℕ) (was : Bool) (s : BurstState)
    → h ≢ k
    → Agrees now log was (dq_of k s) (s.active k)
    → Agrees now log was (dq_of k (check_burst h now s).1) ((check_burst h now s).1.active k)
unfolding check_burst judge_burst
check_burst-other k h now log was s ne g =
    let no = ==_false {A = String} h k ne in
    let d = next_dq now (dq_of h s) in
    let s1 = record s { timestamps = assign h d s.timestamps } in
    let g1 : Agrees now log was (dq_of k s1) (s1.active k) = rw no g in
    elim (Bool-cases (leb 50 (length d))) [
      | inl many ↦ elim (Bool-cases (s.active h)) [
        | inl y ↦ rw (many, y) (clean_up-Agrees k now log was s1 g1)
        | inr n ↦ rw (many, n, no) g
      ]
      | inr few ↦ elim (Bool-cases (s.active h && ltb (length d) 25)) [
        | inl y ↦ rw (few, y) (clean_up-Agrees k now log was (set_active h false s1) (rw no g))
        | inr n ↦ rw (few, n) (clean_up-Agrees k now log was s1 g1)
      ]
    ]
