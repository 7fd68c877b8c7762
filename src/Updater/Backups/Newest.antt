-- ===== src/Updater/Backups/Newest.antt =====
-- Of the dumps, those that stay are the newest.
use mathlib.Core.Path.{subst}
use b8mon.Base.{
  ℕ, zero, suc, ◌≤◌, String, ◌≡◌, refl, sym, ap, ◌∙◌, inl, inr, Bool, true, false, not, ◌||◌,
  Option, none, some, List, [], ◌∷◌, map, arith, leb, string_eq, ◌==◌, ==_refl, if◌then◌else◌, keep,
  take, drop, contains, All, Bool-cases, length, min,
}
use b8mon.Updater.Backups.{Entry, entries_of, put, newest_first, list_backups, prune_entries}

abbrev pub IsDescending : List Entry → Type 0
IsDescending [] = Unit {0}
IsDescending (e ∷ es) = All (λ x. x.mtime ≤ e.mtime) es × IsDescending es

All-put :
    (e : Entry) (n : ℕ) (es : List Entry)
    → e.mtime ≤ n
    → All (λ x. x.mtime ≤ n) es
    → All (λ x. x.mtime ≤ n) (put e es)
All-put e n [] h a = (h, tt)
All-put e n (x ∷ xs) h (g, a) = elim (Bool-cases (leb x.mtime e.mtime)) [
  | inl y ↦ rw y (h, (g, a))
  | inr y ↦ rw y (g, All-put e n xs h a)
]

All-le : (m n : ℕ) (es : List Entry) → m ≤ n → All (λ x. x.mtime ≤ m) es → All (λ x. x.mtime ≤ n) es
All-le m n [] h a = tt
All-le m n (x ∷ xs) h (g, a) = (omega arith, All-le m n xs h a)

put-IsDescending : (e : Entry) (es : List Entry) → IsDescending es → IsDescending (put e es)
put-IsDescending e [] d = (tt, tt)
put-IsDescending e (x ∷ xs) (a, d) = elim (Bool-cases (leb x.mtime e.mtime)) [
  | inl y ↦
      let le : x.mtime ≤ e.mtime = ground arith in
      rw y ((le, All-le x.mtime e.mtime xs le a), (a, d))
  | inr y ↦ rw y (All-put e x.mtime xs (ground arith) a, put-IsDescending e xs d)
]

newest_first-IsDescending : (es : List Entry) → IsDescending (newest_first es)
unfolding newest_first
newest_first-IsDescending [] = tt
newest_first-IsDescending (e ∷ es) =
    put-IsDescending e (newest_first es) (newest_first-IsDescending es)

All-drop : (P : Entry → Type 0) (n : ℕ) (es : List Entry) → All P es → All P (drop n es)
All-drop P zero es a = a
All-drop P (suc n) [] a = tt
All-drop P (suc n) (x ∷ xs) (h, a) = All-drop P n xs a

take-newer :
    (n : ℕ) (es : List Entry)
    → IsDescending es
    → All (λ e. All (λ f. f.mtime ≤ e.mtime) (drop n es)) (take n es)
take-newer zero es d = tt
take-newer (suc n) [] d = tt
take-newer (suc n) (x ∷ xs) (a, d) = (All-drop _ n xs a, take-newer n xs d)

-- No dump that is deleted is newer than one that is kept.
pub prune_entries-newest :
    (retention : ℕ) (names : List (String × Option (ℕ × ℕ)))
    → All
        (λ e. All (λ f. f.mtime ≤ e.mtime) (prune_entries retention (list_backups names)))
        (take retention (list_backups names))
unfolding list_backups
prune_entries-newest retention names =
    take-newer retention (list_backups names) (newest_first-IsDescending (entries_of names))

-- a dump that is the newest of all goes first
put-top : (e : Entry) (es : List Entry) → All (λ x. x.mtime ≤ e.mtime) es → put e es ≡ e ∷ es
put-top e [] a = refl
put-top e (x ∷ xs) (h, a) = rw (newer h) refl
  where
    newer : x.mtime ≤ e.mtime → leb x.mtime e.mtime ≡ true
    newer h = ground arith

All-keep : (P : Entry → Type 0) (p : Entry → Bool) (es : List Entry) → All P es → All P (keep p es)
All-keep P p [] a = tt
All-keep P p (x ∷ xs) (h, a) = elim (Bool-cases (p x)) [
  | inl y ↦ rw y (h, All-keep P p xs a)
  | inr y ↦ rw y (All-keep P p xs a)
]

keep-put :
    (p : Entry → Bool) (e : Entry) (es : List Entry)
    → IsDescending es
    → keep p (put e es) ≡ (if p e then put e (keep p es) else keep p es)
keep-put p e [] d = elim (Bool-cases (p e)) [ inl y ↦ rw y refl | inr y ↦ rw y refl ]
keep-put p e (x ∷ xs) (a, d) = elim (Bool-cases (leb x.mtime e.mtime)) [
  | inl y ↦
      let le : x.mtime ≤ e.mtime = ground arith in
      let below : All (λ z. z.mtime ≤ e.mtime) (x ∷ xs) = (le, All-le x.mtime e.mtime xs le a) in
      elim (Bool-cases (p e)) [
        | inl z ↦ rw y (rw z (sym (put-top e (keep p (x ∷ xs)) (All-keep _ p (x ∷ xs) below))))
        | inr z ↦ rw y (rw z refl)
      ]
  | inr y ↦ elim (Bool-cases (p e)) [
    | inl z ↦ elim (Bool-cases (p x)) [
      | inl u ↦ rw (y, z, u, y) (ap (λ l. x ∷ l) (keep-put p e xs d ∙ rw z refl))
      | inr u ↦ rw (y, z, u) (keep-put p e xs d ∙ rw z refl)
    ]
    | inr z ↦ elim (Bool-cases (p x)) [
      | inl u ↦ rw (y, z, u) (ap (λ l. x ∷ l) (keep-put p e xs d ∙ rw z refl))
      | inr u ↦ rw (y, z, u) (keep-put p e xs d ∙ rw z refl)
    ]
  ]
]

keep-newest_first :
    (p : Entry → Bool) (es : List Entry) → keep p (newest_first es) ≡ newest_first (keep p es)
unfolding newest_first
keep-newest_first p [] = refl
keep-newest_first p (e ∷ es) =
    let before = keep-put p e (newest_first es) (newest_first-IsDescending es) in
    let rest = keep-newest_first p es in
    elim (Bool-cases (p e)) [
      | inl y ↦ rw y (before ∙ rw y (ap (put e) rest))
      | inr y ↦ rw y (before ∙ rw y rest)
    ]

-- the names that the listing has, and those that are deleted
abbrev pub names_of : List Entry → List String
names_of = map (λ e. e.name)

abbrev pub stays : List String → String → Bool
stays deleted name = not (contains name deleted)

keep-entries_of :
    (q : String → Bool) (names : List (String × Option (ℕ × ℕ)))
    → entries_of (keep (λ x. q x.0) names) ≡ keep (λ e. q e.name) (entries_of names)
keep-entries_of q [] = refl
keep-entries_of q ((n, none) ∷ names) = elim (Bool-cases (q n)) [
  | inl y ↦ rw y (keep-entries_of q names)
  | inr y ↦ rw y (keep-entries_of q names)
]
keep-entries_of q ((n, some (size, mtime)) ∷ names) = ground (arith, keep-entries_of q names)

-- no name twice
abbrev pub Distinct : List Entry → Type 0
Distinct [] = Unit {0}
Distinct (e ∷ es) = (contains e.name (names_of es) ≡ false) × Distinct es

keep-none :
    (ns : List String) (es : List Entry)
    → All (λ e. contains e.name ns ≡ true) es
    → keep (λ e. stays ns e.name) es ≡ []
keep-none ns [] a = refl
keep-none ns (e ∷ es) (h, a) = rw h (keep-none ns es a)

All-later :
    (n : String) (ns : List String) (es : List Entry)
    → All (λ e. contains e.name ns ≡ true) es
    → All (λ e. contains e.name (n ∷ ns) ≡ true) es
All-later n ns [] a = tt
All-later n ns (e ∷ es) (h, a) = (later (e.name == n) _ h, All-later n ns es a)
  where
    later : (a b : Bool) → b ≡ true → (a || b) ≡ true
    later a b h = ground arith

All-own : (es : List Entry) → All (λ e. contains e.name (names_of es) ≡ true) es
All-own [] = tt
All-own (e ∷ es) =
    (rw (==_refl {A = String} e.name) refl, All-later e.name (names_of es) es (All-own es))

absent-drop :
    (n : ℕ) (k : String) (es : List Entry)
    → contains k (names_of es) ≡ false
    → contains k (names_of (drop n es)) ≡ false
absent-drop zero k es h = h
absent-drop (suc n) k [] h = h
absent-drop (suc n) k (x ∷ xs) h = absent-drop n k xs (tail (k == x.name) _ h)
  where
    tail : (a b : Bool) → (a || b) ≡ false → b ≡ false
    tail a b h = ground arith

keep-stays :
    (n : ℕ) (es : List Entry)
    → Distinct es
    → keep (λ e. stays (names_of (drop n es)) e.name) es ≡ take n es
keep-stays zero es d = keep-none (names_of es) es (All-own es)
keep-stays (suc n) [] d = refl
keep-stays (suc n) (x ∷ xs) (h, d) =
    rw (absent-drop n x.name xs h) (ap (λ l. x ∷ l) (keep-stays n xs d))

length-put : (e : Entry) (es : List Entry) → length (put e es) ≡ suc (length es)
length-put e [] = refl
length-put e (x ∷ xs) = elim (Bool-cases (leb x.mtime e.mtime)) [
  | inl y ↦ rw (put, y) refl
  | inr y ↦ rw (put, y) (ap suc (length-put e xs))
]

length-newest_first : (es : List Entry) → length (newest_first es) ≡ length es
unfolding newest_first
length-newest_first [] = refl
length-newest_first (e ∷ es) = length-put e (newest_first es) ∙ ap suc (length-newest_first es)

length-take : (n : ℕ) (es : List Entry) → length (take n es) ≡ min n (length es)
length-take zero es = omega arith
length-take (suc n) [] = omega arith
length-take (suc n) (x ∷ xs) = omega (arith, length-take n xs)

-- After the deletions, the folder's dumps are those that were listed first before, as many as are to
-- be kept or else all; and no dump that was deleted is newer than one that stays. Names that are no
-- dumps do not matter; no dump's name may stand in the folder twice.
pub list_backups-prune :
    (retention : ℕ) (names : List (String × Option (ℕ × ℕ)))
    → Distinct (list_backups names)
    → let pruned = prune_entries retention (list_backups names) in
      let left = list_backups (keep (λ x. stays (names_of pruned) x.0) names) in
      (left ≡ take retention (list_backups names))
      × (length left ≡ min retention (length (entries_of names)))
      × All (λ e. All (λ f. f.mtime ≤ e.mtime) pruned) left
unfolding list_backups
list_backups-prune retention names d =
    let pruned = prune_entries retention (list_backups names) in
    let same =
      ap newest_first (keep-entries_of (stays (names_of pruned)) names)
      ∙ sym (keep-newest_first (λ e. stays (names_of pruned) e.name) (entries_of names))
      ∙ keep-stays retention (list_backups names) d in
    (
      same,
      ap length same
          ∙ length-take retention (list_backups names)
          ∙ ap (min retention) (length-newest_first (entries_of names)),
      subst (All (λ e. All (λ f. f.mtime ≤ e.mtime) pruned)) (sym same)
          (prune_entries-newest retention names),
    )
