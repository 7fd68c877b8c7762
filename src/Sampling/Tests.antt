-- ===== src/Sampling/Tests.antt =====
-- Twenty rows, of which six are loaded, the newest two among them.
use b8mon.Base.{◌≡◌, refl, true, ℕ, ◌*◌, ◌/◌, ◌≤◌, [], ◌∷◌, arith, nat_eq, length, contains}
use b8mon.Sampling.{range_from, add, add_all, spread_evenly, pick, select_sample_indices}
use b8mon.Sampling.Picked.{Ascending, select_sample_indices-sample}

abbrev exact : ℕ → ℕ → ℕ → ℕ
exact i tail_start remaining = i * tail_start / remaining

six_of_twenty : select_sample_indices exact 20 6 2 ≡ 0 ∷ 4 ∷ 9 ∷ 13 ∷ 18 ∷ 19 ∷ []
unfolding select_sample_indices pick spread_evenly add_all add range_from
six_of_twenty = refl

within_budget : select_sample_indices exact 3 6 2 ≡ 0 ∷ 1 ∷ 2 ∷ []
unfolding select_sample_indices range_from
within_budget = refl

select_sample_indices-sample_example :
    Ascending 0 20 (select_sample_indices exact 20 6 2)
    × (contains 18 (select_sample_indices exact 20 6 2) ≡ true)
    × (length (select_sample_indices exact 20 6 2) ≤ 6)
select_sample_indices-sample_example =
    select_sample_indices-sample exact 20 6 2 18 (omega arith) (omega arith) (omega arith)
