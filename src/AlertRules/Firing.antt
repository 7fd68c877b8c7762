-- ===== src/AlertRules/Firing.antt =====
-- When a rule fires, over any cycles.
use b8mon.Base.{
  ℕ, suc, ◌≤◌, ◌≡◌, refl, inl, inr, Bool, true, false, List, [], ◌∷◌, arith, leb, nat_eq, ==_refl,
  if◌then◌else◌, assign, discard, Bool-cases,
}
use b8mon.AlertRules.{
  AlertRule, Reading, raised, missing, unknown_operator, matched, unmatched, Matches, count_of,
  min_consecutive, is_cooling, Result, count_match, conclude, evaluate_rule,
}

-- One cycle of a rule: its time, what the rule reads, and whether firing it would work.
pub record Cycle : Type 0 where
  pub now : ℕ
  pub reading : Reading
  pub fires : Bool

-- The evaluations that matched since the last one that did not match or found no value. A cycle that
-- the rule sat out, one that raised and one with an unknown operator are neither: they do not add
-- to the number and do not end it.
abbrev pub unbroken : ℕ → Reading → ℕ
unbroken n matched = suc n
unbroken n missing = 0
unbroken n unmatched = 0
unbroken n raised = n
unbroken n unknown_operator = n

abbrev pub next_unbroken : AlertRule → ℕ → Cycle → ℕ
next_unbroken r n c = if is_cooling r c.now then n else unbroken n c.reading

abbrev pub step : AlertRule → Matches → Cycle → Result
step r m c = evaluate_rule r c.now c.fires c.reading m

-- Whenever the rule triggers, it was not cooling down, it has just matched, and it has matched
-- often enough since its last miss.
abbrev pub Justifies : ℕ → AlertRule → Cycle → Type 0
Justifies n r c =
    (is_cooling r c.now ≡ false) × (c.reading ≡ matched) × (min_consecutive r ≤ next_unbroken r n c)

abbrev pub IsJustified : ℕ → AlertRule → Matches → List Cycle → Type 0
IsJustified n r m [] = Unit {0}
IsJustified n r m (c ∷ cs) =
    ((step r m c).triggered ≡ true → Justifies n r c)
    × IsJustified (next_unbroken r n c) (step r m c).rule (step r m c).matches cs

count-assign : (m : Matches) (id n : ℕ) → count_of (assign id n m) id ≡ n
count-assign m id n = rw (==_refl {A = ℕ} id) refl

count-discard : (m : Matches) (id : ℕ) → count_of (discard id m) id ≡ 0
count-discard m id = rw (==_refl {A = ℕ} id) refl

-- What one cycle keeps: the count is at most the matches since the last miss.
abbrev Keeps : ℕ → AlertRule → Result → Type 0
Keeps n r x = (x.triggered ≡ true → min_consecutive r ≤ n) × (count_of x.matches x.rule.id ≤ n)

count_match-Keeps :
    (n : ℕ) (r : AlertRule) (now : ℕ) (fires : Bool) (m : Matches)
    → count_of m r.id ≤ n
    → Keeps (suc n) r (count_match r now fires m)
unfolding count_match
count_match-Keeps n r now fires m le =
    elim (Bool-cases (leb (min_consecutive r) (suc (count_of m r.id)))) [
      | inr few ↦
          rw few ((λ e. cc e), rw (count-assign m r.id (suc (count_of m r.id))) (omega arith))
      | inl many ↦ fired fires many
    ]
  where
    enough : leb (min_consecutive r) (suc (count_of m r.id)) ≡ true → min_consecutive r ≤ suc n
    enough h = ground (arith, le)

    fired :
        (b : Bool)
        → leb (min_consecutive r) (suc (count_of m r.id)) ≡ true
        → Keeps (suc n) r (count_match r now b m)
    fired true h = rw (h, count_match) ((λ e. enough h), rw (count-assign m r.id 0) (omega arith))
    fired false h =
        rw (h, count_match)
          ((λ e. enough h), rw (count-assign m r.id (suc (count_of m r.id))) (omega arith))

conclude-Keeps :
    (n : ℕ) (r : AlertRule) (now : ℕ) (fires : Bool) (reading : Reading) (m : Matches)
    → count_of m r.id ≤ n
    → Keeps (unbroken n reading) r (conclude r now fires reading m)
unfolding conclude
conclude-Keeps n r now fires raised m le = ((λ e. cc e), le)
conclude-Keeps n r now fires unknown_operator m le = ((λ e. cc e), le)
conclude-Keeps n r now fires missing m le = ((λ e. cc e), rw (count-discard m r.id) (omega arith))
conclude-Keeps n r now fires unmatched m le = ((λ e. cc e), rw (count-discard m r.id) (omega arith))
conclude-Keeps n r now fires matched m le = count_match-Keeps n r now fires m le

step-Keeps :
    (n : ℕ) (r : AlertRule) (m : Matches) (c : Cycle)
    → count_of m r.id ≤ n
    → Keeps (next_unbroken r n c) r (step r m c)
unfolding evaluate_rule
step-Keeps n r m c le = elim (Bool-cases (is_cooling r c.now)) [
  | inl y ↦ rw y ((λ e. cc e), le)
  | inr few ↦ rw few (conclude-Keeps n r c.now c.fires c.reading m le)
]

conclude-matched :
    (r : AlertRule) (now : ℕ) (fires : Bool) (reading : Reading) (m : Matches)
    → (conclude r now fires reading m).triggered ≡ true
    → reading ≡ matched
unfolding conclude
conclude-matched r now fires raised m h = cc h
conclude-matched r now fires unknown_operator m h = cc h
conclude-matched r now fires missing m h = cc h
conclude-matched r now fires unmatched m h = cc h
conclude-matched r now fires matched m h = refl

step-matched :
    (r : AlertRule) (m : Matches) (c : Cycle)
    → (step r m c).triggered ≡ true
    → (is_cooling r c.now ≡ false) × (c.reading ≡ matched)
unfolding evaluate_rule
step-matched r m c = elim (Bool-cases (is_cooling r c.now)) [
  | inl y ↦ rw y (λ h. cc h)
  | inr n ↦ rw n (λ h. (refl, conclude-matched r c.now c.fires c.reading m h))
]

-- Over any sequence of cycles, from any counts that are covered by earlier matches, a rule triggers
-- only in a cycle whose evaluation matched and when, this one included, at least as many evaluations
-- as it requires have matched since the last one that did not match or found no value. Cycles in
-- between in which the rule was cooling down, its evaluation raised or its operator was unknown
-- neither count nor end the row.
pub evaluate_rule-IsJustified :
    (n : ℕ) (r : AlertRule) (m : Matches) (cs : List Cycle)
    → count_of m r.id ≤ n
    → IsJustified n r m cs
evaluate_rule-IsJustified n r m [] le = tt
evaluate_rule-IsJustified n r m (c ∷ cs) le =
    let (justified, kept) = step-Keeps n r m c le in
    (
      (λ h. let (awake, just) = step-matched r m c h in (awake, just, justified h)),
      evaluate_rule-IsJustified (next_unbroken r n c) (step r m c).rule (step r m c).matches cs
          kept,
    )
