-- ===== src/LogIntelligence/Bursts.antt =====
-- The lemmas on one template's deque of times: what it says of the window that ends at a time.
use b8mon.Base.{
  ℕ, ◌+◌, ◌≤◌, min, ◌≡◌, refl, ap, ◌∙◌, inl, inr, true, false, List, [], ◌∷◌, ◌++◌, arith, leb,
  if◌then◌else◌, length, drop, Bool-cases,
}
use b8mon.LogIntelligence.{append_capped, evict, is_stale}

-- how many of the times lie in the five minutes that end at `t`
abbrev pub live : ℕ → List ℕ → ℕ
live t [] = 0
live t (x ∷ xs) = (if leb t (x + 300) then 1 else 0) + live t xs

-- the times do not go back, and lie between `lo` and `hi`
abbrev pub Climbs : ℕ → ℕ → List ℕ → Type 0
Climbs lo hi [] = lo ≤ hi
Climbs lo hi (x ∷ xs) = (lo ≤ x) × Climbs x hi xs

Climbs-lower : (lo lo' hi : ℕ) (l : List ℕ) → lo' ≤ lo → Climbs lo hi l → Climbs lo' hi l
Climbs-lower lo lo' hi [] h c = omega arith
Climbs-lower lo lo' hi (x ∷ xs) h c = (omega (arith, c.0), c.1)

pub Climbs-later : (lo hi t : ℕ) (l : List ℕ) → hi ≤ t → Climbs lo hi l → Climbs lo t l
Climbs-later lo hi t [] h c = omega arith
Climbs-later lo hi t (x ∷ xs) h c = (c.0, Climbs-later x hi t xs h c.1)

Climbs-concat : (lo hi t : ℕ) (l : List ℕ) → hi ≤ t → Climbs lo hi l → Climbs lo t (l ++ t ∷ [])
Climbs-concat lo hi t [] h c = (omega arith, omega arith)
Climbs-concat lo hi t (x ∷ xs) h c = (c.0, Climbs-concat x hi t xs h c.1)

Climbs-evict : (lo hi now : ℕ) (l : List ℕ) → Climbs lo hi l → Climbs lo hi (evict now l)
unfolding evict
Climbs-evict lo hi now [] c = c
Climbs-evict lo hi now (x ∷ xs) c =
    let rest = Climbs-lower x lo hi (evict now xs) c.0 (Climbs-evict x hi now xs c.1) in
    ground (arith, c, rest)

pub live-concat :
    (t x : ℕ) (l : List ℕ) → live t (l ++ x ∷ []) ≡ live t l + (if leb t (x + 300) then 1 else 0)
live-concat t x [] = ground arith
live-concat t x (y ∷ l) = ground (arith, live-concat t x l)

live_all : (t lo hi : ℕ) (l : List ℕ) → t ≤ lo + 300 → Climbs lo hi l → live t l ≡ length l
live_all t lo hi [] h c = refl
live_all t lo hi (x ∷ xs) h c = ground (arith, c, live_all t x hi xs)

live-evict : (now t : ℕ) (l : List ℕ) → now ≤ t → live t (evict now l) ≡ live t l
unfolding evict
live-evict now t [] h = refl
live-evict now t (x ∷ xs) h = ground (arith, live-evict now t xs)

length-evict : (lo hi now : ℕ) (l : List ℕ) → Climbs lo hi l → length (evict now l) ≡ live now l
unfolding evict
length-evict lo hi now [] c = refl
length-evict lo hi now (x ∷ xs) c =
    ground (arith, length-evict x hi now xs c.1, live_all now x hi xs, c)

-- A deque that is full counts as one with all of its times, up to 200.
Climbs-le : (lo hi : ℕ) (l : List ℕ) → Climbs lo hi l → lo ≤ hi
Climbs-le lo hi [] c = c
Climbs-le lo hi (x ∷ xs) c = omega (arith, c.0, Climbs-le x hi xs c.1)

live-append_capped :
    (lo now t : ℕ) (l : List ℕ)
    → Climbs lo now l
    → min 200 (live t (append_capped l now)) ≡ min 200 (live t (l ++ now ∷ []))
unfolding append_capped
live-append_capped lo now t [] c = ground arith
live-append_capped lo now t (x ∷ xs) c =
    ground (arith, live-concat t now xs, live_all t x now xs, c, Climbs-le x now xs)

pub live_of_is_stale :
    (lo hi now t : ℕ) (l : List ℕ) → Climbs lo hi l → is_stale now l ≡ true → now ≤ t → live t l ≡ 0
unfolding is_stale
live_of_is_stale lo hi now t [] c s h = refl
live_of_is_stale lo hi now t (x ∷ []) c s h = ground (arith, s)
live_of_is_stale lo hi now t (x ∷ y ∷ l) c s h =
    ground (arith, c, live_of_is_stale x hi now t (y ∷ l) c.1 s h)

is_stale-concat : (now : ℕ) (l : List ℕ) → is_stale now (l ++ now ∷ []) ≡ false
unfolding is_stale
is_stale-concat now [] = ground arith
is_stale-concat now (x ∷ []) = ground arith
is_stale-concat now (x ∷ y ∷ l) = is_stale-concat now (y ∷ l)

is_stale-evict : (now : ℕ) (l : List ℕ) → is_stale now (evict now (l ++ now ∷ [])) ≡ false
unfolding evict is_stale
is_stale-evict now [] = ground arith
is_stale-evict now (x ∷ l) = ground (arith, is_stale-evict now l, is_stale-concat now (x ∷ l))

-- the deque of a template after a message at `now`
abbrev pub next_dq : ℕ → List ℕ → List ℕ
next_dq now dq = evict now (append_capped dq now)

append_capped-Climbs : (now : ℕ) (l : List ℕ) → Climbs 0 now l → Climbs 0 now (append_capped l now)
unfolding append_capped
append_capped-Climbs now [] c = (omega arith, omega arith)
append_capped-Climbs now (x ∷ xs) c = elim (Bool-cases (leb 200 (length (x ∷ xs)))) [
  | inl y ↦
      rw y (Climbs-concat 0 now now xs (omega arith) (Climbs-lower x 0 now xs (omega arith) c.1))
  | inr n ↦ rw n (Climbs-concat 0 now now (x ∷ xs) (omega arith) c)
]

pub next_dq-Climbs : (now : ℕ) (l : List ℕ) → Climbs 0 now l → Climbs 0 now (next_dq now l)
next_dq-Climbs now l c = Climbs-evict 0 now now (append_capped l now) (append_capped-Climbs now l c)

pub live-next_dq :
    (now t : ℕ) (l : List ℕ)
    → Climbs 0 now l
    → now ≤ t
    → min 200 (live t (next_dq now l)) ≡ min 200 (live t l + (if leb t (now + 300) then 1 else 0))
live-next_dq now t l c h =
    ap (min 200) (live-evict now t (append_capped l now) h)
    ∙ live-append_capped 0 now t l c
    ∙ ap (min 200) (live-concat t now l)

pub length-next_dq :
    (now : ℕ) (l : List ℕ)
    → Climbs 0 now l
    → min 200 (length (next_dq now l)) ≡ min 200 (live now l + 1)
length-next_dq now l c =
    let all = length-evict 0 now now (append_capped l now) (append_capped-Climbs now l c) in
    let same = live-next_dq now now l c (omega arith) in
    let kept = live-evict now now (append_capped l now) (omega arith) in
    ground (arith, all, same, kept)

pub is_stale-next_dq : (now : ℕ) (l : List ℕ) → is_stale now (next_dq now l) ≡ false
unfolding append_capped
is_stale-next_dq now l = elim (Bool-cases (leb 200 (length l))) [
  | inl y ↦ rw y (is_stale-evict now (drop 1 l))
  | inr n ↦ rw n (is_stale-evict now l)
]
