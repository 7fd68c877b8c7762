-- ===== src/Sampling/Picked.antt =====
-- What `select_sample_indices` picks, however the positions are rounded.
use b8mon.Base.{
  ◌≡◌, refl, true, ℕ, zero, suc, ◌∙◌, ◌+◌, ◌-◌, ◌≤◌, ◌<◌, min, List, [], ◌∷◌, map, arith, nat_eq,
  length, contains,
}
use b8mon.Sampling.{range_from, add, add_all, spread_evenly, pick, select_sample_indices}

-- Each member is at least `lo`, less than `hi`, and greater than the one before.
abbrev pub Ascending : ℕ → ℕ → List ℕ → Type 0
Ascending lo hi [] = Unit
Ascending lo hi (x ∷ xs) = (lo ≤ x) × ((x < hi) × Ascending (suc x) hi xs)

-- Members that may be added.
abbrev AllBelow : ℕ → List ℕ → Type 0
AllBelow hi [] = Unit
AllBelow hi (x ∷ xs) = (x < hi) × AllBelow hi xs

range_from-Ascending : (lo hi a n : ℕ) → lo ≤ a → a + n ≤ hi → Ascending lo hi (range_from a n)
unfolding range_from
range_from-Ascending lo hi a zero l h = tt
range_from-Ascending lo hi a (suc n) l h =
    (l, (omega arith, range_from-Ascending (suc a) hi (suc a) n (omega arith) (omega arith)))

length-range_from : (a n : ℕ) → length (range_from a n) ≡ n
unfolding range_from
length-range_from a zero = refl
length-range_from a (suc n) = omega (arith, length-range_from (suc a) n)

contains-range_from : (a n i : ℕ) → a ≤ i → i < a + n → contains i (range_from a n) ≡ true
unfolding range_from
contains-range_from a zero i l h = ground arith
contains-range_from a (suc n) i l h = ground (arith, contains-range_from (suc a) n i)

length-add : (x : ℕ) (l : List ℕ) → length (add x l) ≤ suc (length l)
unfolding add
length-add x [] = omega arith
length-add x (y ∷ l) = ground (arith, length-add x l)

contains-add : (i x : ℕ) (l : List ℕ) → contains i l ≡ true → contains i (add x l) ≡ true
unfolding add
contains-add i x [] h = ground arith
contains-add i x (y ∷ l) h = ground (arith, contains-add i x l)

add-Ascending :
    (lo hi x : ℕ) (l : List ℕ) → lo ≤ x → x < hi → Ascending lo hi l → Ascending lo hi (add x l)
unfolding add
add-Ascending lo hi x [] l h a = (l, (h, tt))
add-Ascending lo hi x (y ∷ ys) l h a = ground (arith, add-Ascending (suc y) hi x ys)

add_all-Ascending :
    (hi : ℕ) (xs l : List ℕ) → AllBelow hi xs → Ascending 0 hi l → Ascending 0 hi (add_all xs l)
unfolding add_all
add_all-Ascending hi [] l b a = a
add_all-Ascending hi (x ∷ xs) l b a =
    add_all-Ascending hi xs (add x l) b.1 (add-Ascending 0 hi x l (omega arith) b.0 a)

length-add_all : (xs l : List ℕ) → length (add_all xs l) ≤ length xs + length l
unfolding add_all
length-add_all [] l = omega arith
length-add_all (x ∷ xs) l = omega (arith, length-add_all xs (add x l), length-add x l)

contains-add_all : (i : ℕ) (xs l : List ℕ) → contains i l ≡ true → contains i (add_all xs l) ≡ true
unfolding add_all
contains-add_all i [] l h = h
contains-add_all i (x ∷ xs) l h = contains-add_all i xs (add x l) (contains-add i x l h)

map-AllBelow : (hi : ℕ) (f : ℕ → ℕ) → ((i : ℕ) → f i < hi) → (xs : List ℕ) → AllBelow hi (map f xs)
map-AllBelow hi f h [] = tt
map-AllBelow hi f h (x ∷ xs) = (h x, map-AllBelow hi f h xs)

length-map : (f : ℕ → ℕ) (xs : List ℕ) → length (map f xs) ≡ length xs
length-map f [] = refl
length-map f (x ∷ xs) = omega (arith, length-map f xs)

module _ (position : ℕ → ℕ → ℕ → ℕ) where
  spread_evenly-AllBelow :
      (total tail_start remaining : ℕ)
      → 0 < tail_start
      → tail_start ≤ total
      → AllBelow total (spread_evenly position tail_start remaining)
  unfolding spread_evenly
  spread_evenly-AllBelow total t r p h =
      map-AllBelow total (λ i. min (position i t r) (t - 1)) (λ i. omega arith) (range_from 0 r)

  length-spread_evenly : (t r : ℕ) → length (spread_evenly position t r) ≡ r
  unfolding spread_evenly
  length-spread_evenly t r =
      length-map (λ i. min (position i t r) (t - 1)) (range_from 0 r) ∙ length-range_from 0 r

  pick-Ascending :
      (total budget keep : ℕ) → keep ≤ total → Ascending 0 total (pick position total budget keep)
  unfolding pick
  pick-Ascending total budget keep h =
      let newest = range_from-Ascending 0 total (total - keep) keep (omega arith) (omega arith) in
      let wide = λ (p : 0 < total - keep).
        add_all-Ascending total (spread_evenly position (total - keep) (budget - keep))
          (range_from (total - keep) keep)
          (spread_evenly-AllBelow total (total - keep) (budget - keep) p (omega arith)) newest in
      ground (arith, newest, wide)

  -- each index once, in order
  select_sample_indices-Ascending :
      (total budget keep : ℕ) → Ascending 0 total (select_sample_indices position total budget keep)
  unfolding select_sample_indices
  select_sample_indices-Ascending total budget keep =
      ground
        (arith, range_from-Ascending 0 total 0 total, pick-Ascending total budget (min keep total))

  pick-newest :
      (total budget keep i : ℕ)
      → keep ≤ total
      → i < total
      → total ≤ i + keep
      → contains i (pick position total budget keep) ≡ true
  unfolding pick
  pick-newest total budget keep i h l n =
      let kept = contains-range_from (total - keep) keep i (omega arith) (omega arith) in
      ground (
        arith,
        kept,
        contains-add_all i (spread_evenly position (total - keep) (budget - keep))
            (range_from (total - keep) keep),
      )

  -- the newest are all picked
  select_sample_indices-newest :
      (total budget keep i : ℕ)
      → i < total
      → total ≤ i + keep
      → contains i (select_sample_indices position total budget keep) ≡ true
  unfolding select_sample_indices
  select_sample_indices-newest total budget keep i l n =
      ground (arith, contains-range_from 0 total i, pick-newest total budget (min keep total) i)

  length-pick :
      (total budget keep : ℕ) → keep ≤ budget → length (pick position total budget keep) ≤ budget
  unfolding pick
  length-pick total budget keep h = ground (
    arith,
    length-range_from (total - keep) keep,
    length-spread_evenly (total - keep) (budget - keep),
    length-add_all (spread_evenly position (total - keep) (budget - keep))
        (range_from (total - keep) keep),
  )

  -- the budget holds
  length-select_sample_indices :
      (total budget keep : ℕ)
      → keep ≤ budget
      → length (select_sample_indices position total budget keep) ≤ budget
  unfolding select_sample_indices
  length-select_sample_indices total budget keep h =
      ground (arith, length-range_from 0 total, length-pick total budget (min keep total))

  -- Whatever the positions `int(i * step)` are rounded to, and where no more of the newest rows are
  -- asked for than the budget allows: the picked indices are strictly ascending and are indices of
  -- rows, each of the newest `keep` rows is picked, and no more are picked than the budget allows.
  pub select_sample_indices-sample :
      (total budget keep i : ℕ)
      → i < total
      → total ≤ i + keep
      → keep ≤ budget
      → Ascending 0 total (select_sample_indices position total budget keep)
        × (contains i (select_sample_indices position total budget keep) ≡ true)
        × (length (select_sample_indices position total budget keep) ≤ budget)
  select_sample_indices-sample total budget keep i below newest h = (
    select_sample_indices-Ascending total budget keep,
    select_sample_indices-newest total budget keep i below newest,
    length-select_sample_indices total budget keep h,
  )
