-- ===== src/Syslog/Repeats.antt =====
-- Rows that are stored again: lists of rows in which some come more than once.
use mathlib.Core.List.{Memᴰ}
use b8mon.Base.{
  ℕ, suc, ◌+◌, ◌≡◌, refl, ap, ◌∙◌, Bool, true, false, List, [], ◌∷◌, ◌++◌, map, All, arith, length,
}
use b8mon.Syslog.{Message, Row, clean_row, pick}

-- a row but for the time that the flush stamps on it, and a message as such a row
abbrev pub unstamped : Row → Row
unstamped r = record r { received_at = 0 }

abbrev pub content : Message → Row
content m = unstamped (clean_row 0 m)

-- The second list is the first with `n` more rows in between, each of which is among `all`.
pub data Repeats (all : List Row) : List Row → List Row → ℕ → Type 0 where
  done : Repeats all [] [] 0
  once :
      {x : Row} {xs ys : List Row} {n : ℕ} → Repeats all xs ys n → Repeats all (x ∷ xs) (x ∷ ys) n
  again :
      {y : Row} {xs ys : List Row} {n : ℕ}
      → Memᴰ y all
      → Repeats all xs ys n
      → Repeats all xs (y ∷ ys) (suc n)

abbrev pub AllAmong : List Row → List Row → Type 0
AllAmong all = All (λ y. Memᴰ y all)

module _ (all : List Row) where
  pub Repeats-snoc :
      {xs ys : List Row} {n : ℕ} (x : Row)
      → Repeats all xs ys n
      → Repeats all (xs ++ x ∷ []) (ys ++ x ∷ []) n
  Repeats-snoc x done = once done
  Repeats-snoc x (once r) = once (Repeats-snoc x r)
  Repeats-snoc x (again m r) = again m (Repeats-snoc x r)

  Repeats-before :
      {xs w : List Row} {n : ℕ} (q : List Message)
      → AllAmong all (map content q)
      → Repeats all xs w n
      → Repeats all xs (map content q ++ w) (length q + n)
  Repeats-before {n = n} [] a r = let same : n ≡ 0 + n = omega arith in rw (← same) r
  Repeats-before {n = n} (m ∷ q) a r =
      let more = again a.0 (Repeats-before q a.1 r) in
      let same : suc (length q + n) ≡ suc (length q) + n = omega arith in rw (← same) more

  -- messages whose rows are put in the middle
  pub Repeats-middle :
      {xs : List Row} {n : ℕ} (s : List Row) (q : List Message) (w : List Row)
      → AllAmong all (map content q)
      → Repeats all xs (s ++ w) n
      → Repeats all xs (s ++ (map content q ++ w)) (length q + n)
  Repeats-middle [] q w a r = Repeats-before q a r
  Repeats-middle (y ∷ s) q w a (once r) = once (Repeats-middle s q w a r)
  Repeats-middle (y ∷ s) q w a (again {n = k} m r) =
      let more = again m (Repeats-middle s q w a r) in
      let same : suc (length q + k) ≡ length q + suc k = omega arith in rw (← same) more

  pub AllAmong-snoc :
      (x : Row) (xs : List Row) → AllAmong all xs → Memᴰ x all → AllAmong all (xs ++ x ∷ [])
  AllAmong-snoc x [] a m = (m, tt)
  AllAmong-snoc x (y ∷ xs) a m = (a.0, AllAmong-snoc x xs a.1 m)

  pub AllAmong-pick :
      (bs : List Bool) (ms : List Message)
      → AllAmong all (map content ms)
      → AllAmong all (map content (pick bs ms))
  unfolding pick
  AllAmong-pick [] ms a = tt
  AllAmong-pick (b ∷ bs) [] a = tt
  AllAmong-pick (true ∷ bs) (m ∷ ms) a = (a.0, AllAmong-pick bs ms a.1)
  AllAmong-pick (false ∷ bs) (m ∷ ms) a = AllAmong-pick bs ms a.1

pub map-append {ℓ} :
    {A : Type ℓ} (f : A → Row) (xs ys : List A) → map f (xs ++ ys) ≡ map f xs ++ map f ys
map-append f [] ys = refl
map-append f (x ∷ xs) ys = ap (λ l. f x ∷ l) (map-append f xs ys)

-- what a flush stamps is not looked at
unstamped-clean_row :
    (now : ℕ) (ms : List Message) → map unstamped (map (clean_row now) ms) ≡ map content ms
unfolding clean_row
unstamped-clean_row now [] = refl
unstamped-clean_row now (m ∷ ms) = ap (λ l. content m ∷ l) (unstamped-clean_row now ms)

pub stored-rows :
    (now : ℕ) (stored : List Row) (ms : List Message)
    → map unstamped (stored ++ map (clean_row now) ms) ≡ map unstamped stored ++ map content ms
stored-rows now stored ms =
    map-append unstamped stored (map (clean_row now) ms)
    ∙ ap (λ l. map unstamped stored ++ l) (unstamped-clean_row now ms)
