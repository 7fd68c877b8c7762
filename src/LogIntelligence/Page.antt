-- ===== src/LogIntelligence/Page.antt =====
-- A reading of the page of bursts, for one template.
use b8mon.Base.{
  ℕ, ◌≤◌, ◌≡◌, refl, ◌∙◌, inl, inr, String, Bool, false, true, ◌&&◌, Option, is_some, List, [], ◌∷◌,
  arith, ltb, leb, string_eq, length, Bool-cases,
}
use b8mon.LogIntelligence.{BurstState, dq_of}
use b8mon.LogIntelligence.Messages.{recent_count, report_burst, get_active_bursts}
use b8mon.LogIntelligence.Bursts.{live}
use b8mon.LogIntelligence.Agrees.{Agrees}

recent_count_lem : (now : ℕ) (d : List ℕ) → recent_count now d ≡ live now d
unfolding recent_count
recent_count_lem now [] = refl
recent_count_lem now (t ∷ d) = ground (arith, recent_count_lem now d)

-- What a reading of the page says of a template with the mark `a`, and leaves of the mark.
pub record IsReported (on : Bool) (x : Option ℕ × Bool) : Type 0 where
  pub listed : is_some x.0 ≡ on
  pub left : x.1 ≡ on

report_burst-IsReported :
    (now : ℕ) (a : Bool) (d : List ℕ)
    → (a ≡ true → 1 ≤ length d)
    → IsReported (a && leb 25 (live now d)) (report_burst now a d)
unfolding report_burst
report_burst-IsReported now false d h = record { listed = refl; left = refl }
report_burst-IsReported now true [] h = absurd (omega (arith, h refl))
report_burst-IsReported now true (t ∷ d) h =
    let counted = recent_count_lem now (t ∷ d) in
    elim (Bool-cases (ltb (recent_count now (t ∷ d)) 25)) [
      | inl y ↦
          rw y (record { listed = ground (arith, y, counted); left = ground (arith, y, counted) })
      | inr n ↦
          rw n (record { listed = ground (arith, n, counted); left = ground (arith, n, counted) })
    ]

-- the mark and the reference's agree on what the page shows
pub on_page :
    (now : ℕ) (log : List ℕ) (was : Bool) (d : List ℕ) (a : Bool)
    → Agrees now log was d a
    → (a && leb 25 (live now d)) ≡ (was && leb 25 (live now log))
on_page now log was d a g =
    let same = g.same now (omega arith) in
    elim g.marked [
      | inl e ↦ ground (arith, e, same)
      | inr (e, gone) ↦ let none_left = gone now (omega arith) in ground (arith, e, none_left)
    ]

pub page_read-IsReported :
    (k : String) (now : ℕ) (s : BurstState)
    → (s.active k ≡ true → 1 ≤ length (dq_of k s))
    → IsReported
        (s.active k && leb 25 (live now (dq_of k s)))
        ((get_active_bursts now s).0 k, (get_active_bursts now s).1.active k)
unfolding get_active_bursts
page_read-IsReported k now s h =
    let x = report_burst-IsReported now (s.active k) (dq_of k s) h in
    record { listed = x.listed; left = x.left }

pub page_read-Agrees :
    (k : String) (now : ℕ) (log : List ℕ) (was : Bool) (s : BurstState)
    → Agrees now log was (dq_of k s) (s.active k)
    → Agrees now log
        (was && leb 25 (live now log))
        (dq_of k (get_active_bursts now s).1)
        ((get_active_bursts now s).1.active k)
unfolding get_active_bursts
page_read-Agrees k now log was s g =
    let x = report_burst-IsReported now (s.active k) (dq_of k s) g.non_empty in
    let alike = on_page now log was (dq_of k s) (s.active k) g in
    record {
      climbs = g.climbs;
      non_empty = λ h. g.non_empty (ground (arith, x.left, h));
      same = g.same;
      marked = inl (x.left ∙ alike);
    }
