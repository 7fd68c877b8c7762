-- ===== src/AlertRules/Paths.antt =====
-- The fuel of `extract_field` suffices: there are at most as many wildcards as parts.
use b8mon.Base.{
  ℕ, zero, suc, ◌+◌, ◌≤◌, String, ◌≡◌, refl, ap, ◌∙◌, inl, inr, List, [], ◌∷◌, arith, string_eq,
  ◌==◌, if◌then◌else◌, length, split, Bool-cases, ◌⊎◌,
}
use b8mon.AlertRules.Values.{
  Json, null, boolean, number, text, array, object, Items, done, item, get, on_object, after_star,
  split_again, Python, index, walk, first_found, extract, extract_field,
}

abbrev pub stars : List String → ℕ
stars [] = 0
stars (p ∷ ps) = let rest = stars ps in if p == "*" then suc rest else rest

stars-length : (ps : List String) → stars ps ≤ length ps
stars-length [] = omega arith
stars-length (p ∷ ps) = ground (arith, stars-length ps)

stars-split_again : (ps : List String) → stars (split_again ps) ≡ stars ps
stars-split_again [] = refl
stars-split_again (p ∷ ps) = refl

stars-after_star : (n : ℕ) (ps : List String) → stars ps ≡ suc n → stars (after_star ps) ≡ n
stars-after_star n [] e = absurd (omega arith)
stars-after_star n (p ∷ ps) e = elim (Bool-cases (p == "*")) [
  | inl y ↦ rw y (pred (rw y at e))
  | inr ne ↦ rw ne (stars-after_star n ps (rw ne at e))
]
  where
    pred : suc (stars ps) ≡ suc n → stars ps ≡ n
    pred q = omega arith

suc-cases : (n : ℕ) → (n ≡ 0) ⊎ ((m : ℕ) × (n ≡ suc m))
suc-cases zero = inl refl
suc-cases (suc m) = inr (m, refl)

on_object-cong :
    (f g : Json → Json) (v : Json) → ((w : Json) → f w ≡ g w) → on_object f v ≡ on_object g v
on_object-cong f g null h = refl
on_object-cong f g (boolean b) h = refl
on_object-cong f g (number n) h = refl
on_object-cong f g (text t) h = refl
on_object-cong f g (array items) h = refl
on_object-cong f g (object fields) h = h (object fields)

module _ (py : Python) where
  first_found-cong :
      (f g : Json → Json) (items : Items)
      → ((v : Json) → f v ≡ g v)
      → first_found py f items ≡ first_found py g items
  first_found-cong f g done h = refl
  first_found-cong f g (item v rest) h =
      rw (on_object-cong f g v h, first_found-cong f g rest h) refl

  -- without a wildcard among the parts, what it would do does not matter
  walk-unstarred :
      (f g : Items → Json) (ps : List String) (current : Json)
      → stars ps ≡ 0
      → walk py f ps current ≡ walk py g ps current
  unfolding walk
  walk-unstarred f g [] current h = refl
  walk-unstarred f g (p ∷ ps) null h = refl
  walk-unstarred f g (p ∷ ps) (boolean b) h = refl
  walk-unstarred f g (p ∷ ps) (number n) h = refl
  walk-unstarred f g (p ∷ ps) (text t) h = refl
  walk-unstarred f g (p ∷ ps) (object fields) h =
      walk-unstarred f g ps (get p fields) (ground arith)
  walk-unstarred f g (p ∷ ps) (array items) h = elim (Bool-cases (p == "*")) [
    | inl y ↦ absurd (none_left (rw y at h))
    | inr ne ↦ rw ne (walk-unstarred f g ps (index py p items) (rw ne at h))
  ]
    where
      none_left : suc (stars ps) ≡ 0 → ⊥
      none_left q = omega arith

  walk-cong :
      (f g : Items → Json) (ps : List String) (current : Json)
      → ((items : Items) → f items ≡ g items)
      → walk py f ps current ≡ walk py g ps current
  unfolding walk
  walk-cong f g [] current h = refl
  walk-cong f g (p ∷ ps) null h = refl
  walk-cong f g (p ∷ ps) (boolean b) h = refl
  walk-cong f g (p ∷ ps) (number n) h = refl
  walk-cong f g (p ∷ ps) (text t) h = refl
  walk-cong f g (p ∷ ps) (object fields) h = walk-cong f g ps (get p fields) h
  walk-cong f g (p ∷ ps) (array items) h = rw (h items, walk-cong f g ps (index py p items) h) refl

  extract-fuel :
      (fuel more : ℕ) (parts : List String) (d : Json)
      → stars parts ≤ fuel
      → extract py (suc (fuel + more)) parts d ≡ extract py (suc fuel) parts d
  unfolding extract
  extract-fuel zero more parts d h = walk-unstarred _ _ parts d (omega arith)
  extract-fuel (suc fuel) more parts d h = elim (suc-cases (stars parts)) [
    | inl e ↦ walk-unstarred _ _ parts d e
    | inr (n, e) ↦
        let again = split_again (after_star parts) in
        let fewer : stars again ≤ fuel =
          omega (arith, stars-split_again (after_star parts), stars-after_star n parts e) in
        let one_more : suc fuel + more ≡ suc (fuel + more) = omega arith in
        walk-cong _ _ parts d (λ items.
          first_found-cong _ _ items
            (λ v. ap (λ k. extract py k again v) one_more ∙ extract-fuel fuel more again v fewer))
  ]

  -- However much more fuel it gets, the search for a field finds the same, whatever the data is and
  -- however many wildcards the path has.
  pub extract_field-fuel :
      (data' : Json) (path : String) (more : ℕ)
      → extract py (suc (length (split 46 path) + more)) (split 46 path) data'
        ≡ extract_field py data' path
  unfolding extract_field
  extract_field-fuel data' path more =
      extract-fuel (length (split 46 path)) more (split 46 path) data'
        (stars-length (split 46 path))
