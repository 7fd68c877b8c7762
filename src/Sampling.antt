-- ===== src/Sampling.antt =====
-- backend/services/_sampling.py: which rows of a time series are loaded. The Python set of picked
-- indices is kept as the ascending list of its members, which is what `sorted` makes of it. The
-- arguments are natural numbers. The position `int(i * step)`, a product of floating-point numbers,
-- is an argument, `position i tail_start remaining`.
pub mod Picked
mod Tests
use b8mon.Base.{
  ℕ, zero, suc, ◌+◌, ◌-◌, min, Bool, ◌&&◌, List, [], ◌∷◌, map, ltb, leb, nat_eq, ◌==◌,
  if◌then◌else◌,
}

-- `range(start, start + count)`
range_from : ℕ → ℕ → List ℕ
range_from start zero = []
range_from start (suc count) = start ∷ range_from (suc start) count

add : ℕ → List ℕ → List ℕ
add x [] = x ∷ []
add x (y ∷ picked) =
    let rest = add x picked in
    if ltb x y then x ∷ y ∷ picked else if x == y then y ∷ picked else y ∷ rest

add_all : List ℕ → List ℕ → List ℕ
add_all [] picked = picked
add_all (x ∷ xs) picked = add_all xs (add x picked)

-- the rest of the budget, over everything before the newest
spread_evenly : (ℕ → ℕ → ℕ → ℕ) → ℕ → ℕ → List ℕ
spread_evenly position tail_start remaining =
    map (λ i. min (position i tail_start remaining) (tail_start - 1)) (range_from 0 remaining)

pick : (ℕ → ℕ → ℕ → ℕ) → ℕ → ℕ → ℕ → List ℕ
pick position total budget keep_newest =
    let tail_start = total - keep_newest in
    let picked = range_from tail_start keep_newest in
    let remaining = budget - keep_newest in
    if ltb 0 remaining && ltb 0 tail_start
    then add_all (spread_evenly position tail_start remaining) picked
    else picked

pub select_sample_indices : (ℕ → ℕ → ℕ → ℕ) → ℕ → ℕ → ℕ → List ℕ
select_sample_indices position total budget keep_newest =
    if total == 0
    then []
    else if leb total budget
    then range_from 0 total
    else pick position total budget (min keep_newest total)
