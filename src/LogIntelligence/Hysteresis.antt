-- ===== src/LogIntelligence/Hysteresis.antt =====
-- The burst detection against a log of every message, of which nothing is forgotten.
use mathlib.Core.Path.{ap₂}
use b8mon.Base.{
  ℕ, ◌≤◌, ◌≡◌, refl, ap, ◌∙◌, inl, inr, String, Bool, false, not, ◌&&◌, some, is_some, List, [],
  ◌∷◌, ◌++◌, arith, ltb, leb, string_eq, ◌==◌, eq_iff, ==_refl, ==_true, if◌then◌else◌, length,
  Bool-cases, or_else, assign,
}
use b8mon.LogIntelligence.{
  BurstState, no_bursts, is_stale, set_active, dq_of, judge_burst, check_burst,
}
use b8mon.LogIntelligence.Messages.{get_active_bursts}
use b8mon.LogIntelligence.Bursts.{
  live, live-concat, next_dq, next_dq-Climbs, live-next_dq, length-next_dq, is_stale-next_dq,
}
use b8mon.LogIntelligence.Agrees.{next, Agrees, Agrees-later, clean_up-kept, check_burst-other}
use b8mon.LogIntelligence.Page.{on_page, page_read-IsReported, page_read-Agrees}

-- What a call says and leaves of its own template.
record Judged (k : String) (d : List ℕ) (a : Bool) (r : Bool × BurstState) : Type 0 where
  started : r.0 ≡ (leb 50 (length d) && not a)
  bursting : r.1.active k ≡ next a (length d)
  deque : dq_of k r.1 ≡ d

judge_burst-Judged :
    (k : String) (now : ℕ) (d : List ℕ) (s : BurstState)
    → s.timestamps k ≡ some d
    → is_stale now d ≡ false
    → Judged k d (s.active k) (judge_burst k now d s)
unfolding judge_burst
judge_burst-Judged k now d s e f =
    let self = ==_refl {A = String} k in
    let kept = clean_up-kept k now d s e f in
    let ended = clean_up-kept k now d (set_active k false s) e f in
    elim (Bool-cases (leb 50 (length d))) [
      | inl many ↦ elim (Bool-cases (s.active k)) [
        | inl y ↦
            rw (many, y)
              (record {
                started = ground (arith, many);
                bursting = ground (arith, many, y, kept.1);
                deque = kept.0;
              })
        | inr n ↦
            rw (many, n)
              (record {
                started = ground (arith, many);
                bursting = ground (arith, many, self);
                deque = ap (λ o. or_else o []) e;
              })
      ]
      | inr few ↦ elim (Bool-cases (s.active k && ltb (length d) 25)) [
        | inl y ↦
            rw (few, y)
              (record {
                started = ground (arith, few);
                bursting = ground (arith, few, y, ended.1, self);
                deque = ended.0;
              })
        | inr n ↦
            rw (few, n)
              (record {
                started = ground (arith, few);
                bursting = ground (arith, few, n, kept.1);
                deque = kept.0;
              })
      ]
    ]

check_burst-Judged :
    (k : String) (now : ℕ) (s : BurstState)
    → Judged k (next_dq now (dq_of k s)) (s.active k) (check_burst k now s)
unfolding check_burst
check_burst-Judged k now s =
    let d = next_dq now (dq_of k s) in
    judge_burst-Judged k now d (record s { timestamps = assign k d s.timestamps })
      (rw (==_refl {A = String} k)) (is_stale-next_dq now (dq_of k s))

-- the thresholds are passed alike
record Alike (was a : Bool) (n m : ℕ) : Type 0 where
  started : (leb 50 m && not a) ≡ (leb 50 n && not was)
  bursting : next a m ≡ next was n

thresholds :
    (now : ℕ) (log : List ℕ) (was : Bool) (d : List ℕ) (a : Bool)
    → Agrees now log was d a
    → Alike was a (live now (log ++ now ∷ [])) (length (next_dq now d))
thresholds now log was d a g =
    let counted = length-next_dq now d g.climbs in
    let same = g.same now (omega arith) in
    let one = live-concat now now log in
    elim g.marked [
      | inl e ↦ record {
        started = ground (arith, e, counted, same, one);
        bursting = ground (arith, e, counted, same, one);
      }
      | inr (e, gone) ↦
          let none_left = gone now (omega arith) in
          record {
            started = ground (arith, e, none_left, counted, same, one);
            bursting = ground (arith, e, none_left, counted, same, one);
          }
    ]

check_burst-Agrees :
    (k : String) (now : ℕ) (log : List ℕ) (was : Bool) (s : BurstState)
    → Agrees now log was (dq_of k s) (s.active k)
    → Agrees now
        (log ++ now ∷ [])
        (next was (live now (log ++ now ∷ [])))
        (dq_of k (check_burst k now s).1)
        ((check_burst k now s).1.active k)
check_burst-Agrees k now log was s g =
    let j = check_burst-Judged k now s in
    rw (j.deque) (record {
      climbs = next_dq-Climbs now (dq_of k s) g.climbs;
      non_empty = λ e. ground (arith, length-next_dq now (dq_of k s) g.climbs);
      same = λ t h.
          ground
            (arith, live-next_dq now t (dq_of k s) g.climbs h, g.same t h, live-concat t now log);
      marked = inl (j.bursting ∙ (thresholds now log was (dq_of k s) (s.active k) g).bursting);
    })

-- What happens to the detection: a message of a template comes in, or the page reads the bursts.
pub data Event : Type 0 where
  received : String → Event
  page_read : Event

-- What each message of a template starts, and whether the template bursts after it; and at each
-- reading of the page, whether the template is on it, and whether it bursts after that.
abbrev pub observations : String → List (Event × ℕ) → BurstState → List (Bool × Bool)
observations k [] s = []
observations k ((received h, now) ∷ calls) s =
    let (started, s') = check_burst h now s in
    let rest = observations k calls s' in if h == k then (started, s'.active k) ∷ rest else rest
observations k ((page_read, now) ∷ calls) s =
    let (page, s') = get_active_bursts now s in
    let rest = observations k calls s' in (is_some (page k), s'.active k) ∷ rest

-- The same by a log of the template's times.
abbrev pub reference : String → List (Event × ℕ) → List ℕ → Bool → List (Bool × Bool)
reference k [] log was = []
reference k ((received h, now) ∷ calls) log was =
    let n = live now (log ++ now ∷ []) in
    let here =
      (leb 50 n && not was, next was n) ∷ reference k calls (log ++ now ∷ []) (next was n) in
    let there = reference k calls log was in if h == k then here else there
reference k ((page_read, now) ∷ calls) log was =
    let on = was && leb 25 (live now log) in (on, on) ∷ reference k calls log on

-- the clock does not go back
abbrev pub Ordered : ℕ → List (Event × ℕ) → Type 0
Ordered now [] = Unit
Ordered now ((e, t) ∷ calls) = (now ≤ t) × Ordered t calls

observations-Agrees :
    (k : String) (now : ℕ) (calls : List (Event × ℕ)) (log : List ℕ) (was : Bool) (s : BurstState)
    → Ordered now calls
    → Agrees now log was (dq_of k s) (s.active k)
    → observations k calls s ≡ reference k calls log was
observations-Agrees k now [] log was s o g = refl
observations-Agrees k now ((received h, t) ∷ calls) log was s o g =
    let g' = Agrees-later now t log was (dq_of k s) (s.active k) o.0 g in
    elim (Bool-cases (h == k)) [
      | inl y ↦
          let j = check_burst-Judged k t s in
          let alike = thresholds t log was (dq_of k s) (s.active k) g' in
          let later = log ++ t ∷ [] in
          rw (y, (eq_iff h k).0 y)
            (ap₂ (λ x xs. x ∷ xs)
              (ap₂ (λ x z. (x, z)) (j.started ∙ alike.started) (j.bursting ∙ alike.bursting))
              (observations-Agrees k t calls later (next was (live t later)) (check_burst k t s).1
                o.1 (check_burst-Agrees k t log was s g')))
      | inr n ↦ rw n (
          observations-Agrees k t calls log was (check_burst h t s).1 o.1
            (check_burst-other k h t log was s (λ e. cc (n, ==_true h k e)) g'))
    ]
observations-Agrees k now ((page_read, t) ∷ calls) log was s o g =
    let d = dq_of k s in
    let g' = Agrees-later now t log was d (s.active k) o.0 g in
    let x = page_read-IsReported k t s g'.non_empty in
    let alike = on_page t log was d (s.active k) g' in
    let on = was && leb 25 (live t log) in
    ap₂ (λ x xs. x ∷ xs) (ap₂ (λ x z. (x, z)) (x.listed ∙ alike) (x.left ∙ alike))
      (observations-Agrees k t calls log on (get_active_bursts t s).1 o.1
        (page_read-Agrees k t log was s g'))

-- Over any messages and readings of the page of bursts, as long as the clock does not go back: each
-- message of a template starts a burst, and each message and each reading leaves the template bursting,
-- exactly as a log of all its times says, from which nothing is evicted or cleaned up; and the
-- page lists the template exactly when it bursts after the reading. By the log a burst starts at
-- 50 messages in five minutes and ends at a message or a reading that finds fewer than 25.
pub check_burst-reference :
    (k : String) (calls : List (Event × ℕ))
    → Ordered 0 calls
    → observations k calls no_bursts ≡ reference k calls [] false
check_burst-reference k calls o =
    observations-Agrees k 0 calls [] false no_bursts o (record {
      climbs = omega arith;
      non_empty = λ e. cc e;
      same = λ t h. refl;
      marked = inl refl;
    })
