-- ===== src/Topology/Partition.antt =====
-- Which offline hosts are primary failures, in a topology without cycles: one with a rank that
-- falls from a host to its parent.
use b8mon.Base.{
  ℕ, zero, suc, ◌+◌, ◌≤◌, ◌<◌, ◌≡◌, refl, sym, ap, ◌∙◌, ◌≢◌, Bool, true, false, ◌||◌, not, none,
  some, List, [], ◌∷◌, arith, nat_eq, nat_beq_iff, ◌==◌, length, keep, contains, All, Bool-cases,
  Option-cases, inl, inr,
}
use b8mon.Topology.{Topology, parent, climb, get_ancestors, is_cascaded, filter_upstream_failures}
use b8mon.Topology.Ancestors.{climb-fuel, climb-top, climb-new, contains-parents}

or_left : (a b : Bool) → b ≡ false → (a || b) ≡ true → a ≡ true
or_left a b n h = ground arith

self_first : (p : ℕ) (l : List ℕ) → contains p (p ∷ l) ≡ true
self_first p l = ground arith

kept : (q : ℕ → Bool) (h : ℕ) (l : List ℕ) → contains h (keep q l) ≡ true → q h ≡ true
kept q h [] m = cc
kept q h (x ∷ l) m = elim (Bool-cases (q x)) [
  | inl e ↦ elim (Bool-cases (h == x)) [
    | inl same ↦ rw ((nat_beq_iff h x).0 same) e
    | inr ne ↦ kept q h l (or_right (h == x) _ ne (rw e at m))
  ]
  | inr e ↦ kept q h l (rw e at m)
]
  where
    or_right : (a b : Bool) → a ≡ false → (a || b) ≡ true → b ≡ true
    or_right a b n h = ground arith

contains-keep :
    (q : ℕ → Bool) (a : ℕ) (l : List ℕ)
    → contains a l ≡ true
    → q a ≡ true
    → contains a (keep q l) ≡ true
contains-keep q a [] m e = m
contains-keep q a (x ∷ l) m e = elim (Bool-cases (a == x)) [
  | inl same ↦ let p : a ≡ x = (nat_beq_iff a x).0 same in rw (← p, e) (self_first a (keep q l))
  | inr ne ↦ elim (Bool-cases (q x)) [
    | inl y ↦ rw (y, ne) (contains-keep q a l (rest ne m) e)
    | inr n ↦ rw n (contains-keep q a l (rest ne m) e)
  ]
]
  where
    rest : (a == x) ≡ false → ((a == x) || contains a l) ≡ true → contains a l ≡ true
    rest n h = ground arith

module _ (t : Topology) (rank : ℕ → ℕ)
    (falls : (h p : ℕ) → parent t h ≡ some p → rank p < rank h) where
  -- what was seen on the way up lies at or below
  abbrev Below : ℕ → List ℕ → Type 0
  Below p = All (λ x. rank p ≤ rank x)

  Below-absent :
      (q p : ℕ) (seen : List ℕ) → rank q < rank p → Below p seen → contains q seen ≡ false
  Below-absent q p [] lt b = refl
  Below-absent q p (x ∷ seen) lt b = ground (arith, Below-absent q p seen lt b.1)

  Below-up : (q p : ℕ) (seen : List ℕ) → rank q < rank p → Below p seen → Below q seen
  Below-up q p [] lt b = tt
  Below-up q p (x ∷ seen) lt b = (omega arith, Below-up q p seen lt b.1)

  -- so the test for what was seen never ends the climb
  climb-unseen :
      (fuel : ℕ) (seen seen' : List ℕ) (h : ℕ)
      → Below h seen
      → Below h seen'
      → climb t fuel seen h ≡ climb t fuel seen' h
  unfolding climb
  climb-unseen zero seen seen' h b b' = refl
  climb-unseen (suc fuel) seen seen' h b b' = elim (Option-cases (parent t h)) [
    | inl e ↦ climb-top t fuel seen h e ∙ sym (climb-top t fuel seen' h e)
    | inr (p, e) ↦
        let lt = falls h p e in
        let rest =
          climb-unseen fuel (p ∷ seen) (p ∷ seen') p (omega arith, Below-up p h seen lt b)
            (omega arith, Below-up p h seen' lt b') in
        climb-new t fuel seen h p e (Below-absent p h seen lt b)
        ∙ ap (λ l. p ∷ l) rest
        ∙ sym (climb-new t fuel seen' h p e (Below-absent p h seen' lt b'))
  ]

  get_ancestors-none : (h : ℕ) → parent t h ≡ none → get_ancestors t h ≡ []
  unfolding get_ancestors
  get_ancestors-none h e = climb-top t (length t) [] h e

  get_ancestors-some : (h p : ℕ) → parent t h ≡ some p → get_ancestors t h ≡ p ∷ get_ancestors t p
  unfolding get_ancestors
  get_ancestors-some h p e =
      let more =
        climb-fuel t (length t) 1 (p ∷ []) p (refl, tt) (contains-parents t h p e, tt)
          (omega arith) in
      let unseen = climb-unseen (length t + 1) (p ∷ []) [] p (omega arith, tt) tt in
      let one_more : length t + 1 ≡ suc (length t) = omega arith in
      climb-new t (length t) [] h p e refl
      ∙ ap (λ l. p ∷ l) (sym more ∙ unseen ∙ ap (λ n. climb t n [] p) one_more)

  -- an ancestor of `h` that is offline and not cascaded itself
  abbrev HasRootCause : List ℕ → ℕ → Type 0
  HasRootCause offline h =
      (a : ℕ) × (contains a (get_ancestors t h) ≡ true)
      × (contains a offline ≡ true)
      × (is_cascaded offline t a ≡ false)

  cascaded-some :
      (offline : List ℕ) (h p : ℕ)
      → parent t h ≡ some p
      → is_cascaded offline t h ≡ (contains p offline || is_cascaded offline t p)
  unfolding is_cascaded
  cascaded-some offline h p e = rw (get_ancestors-some h p e)

  higher :
      (offline : List ℕ) (h p : ℕ)
      → parent t h ≡ some p
      → HasRootCause offline p
      → HasRootCause offline h
  higher offline h p e (a, mem, off, prim) =
      (a, rw (get_ancestors-some h p e) (ground (arith, mem)), off, prim)

  uncascaded : (offline : List ℕ) (h : ℕ) → parent t h ≡ none → is_cascaded offline t h ≢ true
  unfolding is_cascaded
  uncascaded offline h e = rw (get_ancestors-none h e) (λ p. cc p)

  root_cause_from :
      (n : ℕ) (offline : List ℕ) (h : ℕ)
      → rank h < n
      → is_cascaded offline t h ≡ true
      → HasRootCause offline h
  root_cause_from zero offline h lt c = elim lt [ ]
  root_cause_from (suc n) offline h lt c = elim (Option-cases (parent t h)) [
    | inl e ↦ absurd (uncascaded offline h e c)
    | inr (p, e) ↦ elim (Bool-cases (is_cascaded offline t p)) [
      | inl up ↦ higher offline h p e (root_cause_from n offline p (omega (arith, falls h p e)) up)
      | inr top ↦
          let off = or_left (contains p offline) _ top (sym (cascaded-some offline h p e) ∙ c) in
          (p, rw (get_ancestors-some h p e) (self_first p (get_ancestors t p)), off, top)
    ]
  ]

  -- In a topology without cycles every host that is suppressed as a cascaded failure has an
  -- ancestor that is itself reported as a primary failure.
  pub cascaded-root_cause :
      (offline : List ℕ) (h : ℕ)
      → contains h (filter_upstream_failures offline t).1 ≡ true
      → (a : ℕ) × (contains a (get_ancestors t h) ≡ true)
        × (contains a (filter_upstream_failures offline t).0 ≡ true)
  unfolding filter_upstream_failures
  cascaded-root_cause offline h m =
      let c = kept (is_cascaded offline t) h offline m in
      let (a, above, off, prim) = root_cause_from (suc (rank h)) offline h (omega arith) c in
      (a, above, contains-keep (λ x. not (is_cascaded offline t x)) a offline off (rw prim))

-- Two hosts that are each other's parents: each is listed as its own ancestor, so a failure of one
-- of them is never a primary one, even when nothing else is offline.
pub cycle_is_cascaded :
    (t : Topology) (a b : ℕ)
    → parent t a ≡ some b
    → parent t b ≡ some a
    → a ≢ b
    → is_cascaded (a ∷ []) t a ≡ true
unfolding is_cascaded get_ancestors
cycle_is_cascaded [] a b ea eb ne = cc
cycle_is_cascaded (e ∷ t) a b ea eb ne =
    let first = climb-new (e ∷ t) (suc (length t)) [] a b ea refl in
    let second = climb-new (e ∷ t) (length t) (b ∷ []) b a eb (ground arith) in
    rw first (rw second (ground arith))
