-- ===== src/Topology/Ancestors.antt =====
-- `get_ancestors` ends by its own tests, and lists a chain of parents.
use native.Mathlib.Nat.{suc-add}
use b8mon.Base.{
  ℕ, zero, suc, ◌+◌, ◌≤◌, ◌<◌, ◌≡◌, ap, sym, ◌∙◌, ◌≢◌, true, false, none, some, List, [], ◌∷◌,
  arith, nat_eq, ◌==◌, if◌then◌else◌, length, contains, All, Bool-cases, Option-cases, inl, inr,
}
use b8mon.Topology.{Topology, parent, climb, get_ancestors}

-- the parents that occur in a topology
abbrev pub parents : Topology → List ℕ
parents [] = []
parents ((h, none) ∷ t) = parents t
parents ((h, some p) ∷ t) = p ∷ parents t

length-parents : (t : Topology) → length (parents t) ≤ length t
length-parents [] = omega arith
length-parents ((h, none) ∷ t) = omega (arith, length-parents t)
length-parents ((h, some p) ∷ t) = omega (arith, length-parents t)

pub contains-parents :
    (t : Topology) (h p : ℕ) → parent t h ≡ some p → contains p (parents t) ≡ true
contains-parents [] h p e = cc
contains-parents ((k, none) ∷ t) h p e = ground (arith, contains-parents t h p)
contains-parents ((k, some q) ∷ t) h p e = ground (arith, contains-parents t h p)

-- `xs` without the first `a`
abbrev remove : ℕ → List ℕ → List ℕ
remove a [] = []
remove a (x ∷ xs) = if a == x then xs else x ∷ remove a xs

length-remove :
    (a : ℕ) (xs : List ℕ) → contains a xs ≡ true → length xs ≡ suc (length (remove a xs))
length-remove a [] h = cc
length-remove a (x ∷ xs) h = ground (arith, length-remove a xs)

contains-remove :
    (a b : ℕ) (xs : List ℕ) → a ≢ b → contains b xs ≡ true → contains b (remove a xs) ≡ true
contains-remove a b [] ne h = h
contains-remove a b (x ∷ xs) ne h = ground (arith, contains-remove a b xs ne)

abbrev pub Distinct : List ℕ → Type 0
Distinct [] = Unit {0}
Distinct (x ∷ xs) = (contains x xs ≡ false) × Distinct xs

abbrev pub Within : List ℕ → List ℕ → Type 0
Within ys xs = All (λ x. contains x ys ≡ true) xs

Within-remove :
    (a : ℕ) (xs ys : List ℕ) → contains a xs ≡ false → Within ys xs → Within (remove a ys) xs
Within-remove a [] ys h w = tt
Within-remove a (x ∷ xs) ys h w =
    (contains-remove a x ys (ground arith) w.0, Within-remove a xs ys (ground arith) w.1)

-- Distinct elements of a list are no more than it has.
length-Within : (xs ys : List ℕ) → Distinct xs → Within ys xs → length xs ≤ length ys
length-Within [] ys d w = omega arith
length-Within (x ∷ xs) ys d w = omega (
  arith,
  length-remove x ys w.0,
  length-Within xs (remove x ys) d.1 (Within-remove x xs ys d.0 w.1),
)

-- One round of the loop, by what it finds.
module _ (t : Topology) (fuel : ℕ) (seen : List ℕ) (current : ℕ) where
  pub climb-top : parent t current ≡ none → climb t (suc fuel) seen current ≡ []
  unfolding climb
  climb-top e = rw (e, climb)

  pub climb-old :
      (p : ℕ)
      → parent t current ≡ some p
      → contains p seen ≡ true
      → climb t (suc fuel) seen current ≡ []
  unfolding climb
  climb-old p e old = rw (e, climb) (rw old)

  pub climb-new :
      (p : ℕ)
      → parent t current ≡ some p
      → contains p seen ≡ false
      → climb t (suc fuel) seen current ≡ p ∷ climb t fuel (p ∷ seen) p
  unfolding climb
  climb-new p e new = rw (e, climb) (rw new)

-- More fuel than there are parents not yet seen changes nothing.
pub climb-fuel :
    (t : Topology) (fuel more : ℕ) (seen : List ℕ) (current : ℕ)
    → Distinct seen
    → Within (parents t) seen
    → length t < fuel + length seen
    → climb t (fuel + more) seen current ≡ climb t fuel seen current
climb-fuel t zero more seen current d w h =
    absurd (omega (arith, length-Within seen (parents t) d w, length-parents t))
climb-fuel t (suc fuel) more seen current d w h =
    rw suc-add (elim (Option-cases (parent t current)) [
      | inl e ↦ climb-top t (fuel + more) seen current e ∙ sym (climb-top t fuel seen current e)
      | inr (p, e) ↦ elim (Bool-cases (contains p seen)) [
        | inl old ↦
            climb-old t (fuel + more) seen current p e old
            ∙ sym (climb-old t fuel seen current p e old)
        | inr new ↦
            let rest =
              climb-fuel t fuel more (p ∷ seen) p (new, d) (contains-parents t current p e, w)
                (omega arith) in
            climb-new t (fuel + more) seen current p e new
            ∙ ap (λ l. p ∷ l) rest
            ∙ sym (climb-new t fuel seen current p e new)
      ]
    ])

-- The fuel of `get_ancestors` suffices: with more of it the loop returns the same, also in a
-- topology with cycles.
pub get_ancestors_fuel :
    (t : Topology) (h more : ℕ) → climb t (suc (length t) + more) [] h ≡ get_ancestors t h
unfolding get_ancestors
get_ancestors_fuel t h more = climb-fuel t (suc (length t)) more [] h tt tt (omega arith)
