-- ===== src/LogIntelligence/Counts.antt =====
-- No message is lost between the counters and the table.
use b8mon.Base.{
  ℕ, ◌+◌, ◌≡◌, refl, ◌⊎◌, inl, inr, String, true, false, ◌||◌, Option, none, some, List, [], ◌∷◌,
  ◌++◌, arith, string_eq, ◌==◌, eq_iff, if◌then◌else◌, or_else, is_some, is_empty, Bool-cases,
}
use b8mon.LogIntelligence.{
  get, Message, Cache, LogTemplate, Table, bump, is_new_template, count_template, find_row,
}

-- what the counters hold for a hash, and what the table does
abbrev pub pending : String → List (String × ℕ) → ℕ
pending h [] = 0
pending h ((k, n) ∷ counts) = (if k == h then n else 0) + pending h counts

abbrev pub count_of : Option LogTemplate → ℕ
count_of none = 0
count_of (some r) = r.count

abbrev pub stored : String → Table → ℕ
stored h t = count_of (find_row h t.rows)

-- each key once
abbrev pub Distinct {ℓ} : {V : Type ℓ} → List (String × V) → Type 0
Distinct [] = Unit
Distinct ((k, v) ∷ m) = (is_some (get k m) ≡ false) × Distinct m

pub pending-bump :
    (h k : String) (counts : List (String × ℕ))
    → pending h (bump k counts) ≡ pending h counts + (if k == h then 1 else 0)
unfolding bump
pending-bump h k [] = ground arith
pending-bump h k ((j, n) ∷ counts) = ground (arith, eq_iff j k, pending-bump h k counts)

get-bump :
    (h k : String) (counts : List (String × ℕ))
    → is_some (get h (bump k counts)) ≡ (is_some (get h counts) || k == h)
unfolding bump
get-bump h k [] = ground arith
get-bump h k ((j, n) ∷ counts) =
    ground (arith, eq_iff j k, eq_iff j h, eq_iff k h, get-bump h k counts)

bump-Distinct :
    (k : String) (counts : List (String × ℕ)) → Distinct counts → Distinct (bump k counts)
unfolding bump
bump-Distinct k [] d = (refl, tt)
bump-Distinct k ((j, n) ∷ counts) d =
    ground (arith, d, get-bump j k counts, bump-Distinct k counts, eq_iff j k, eq_iff k j)

pub pending_none :
    (h : String) (counts : List (String × ℕ))
    → is_some (get h counts) ≡ false
    → pending h counts ≡ 0
pending_none h [] e = refl
pending_none h ((k, n) ∷ counts) e = ground (arith, e, pending_none h counts)

pub pending_empty :
    (h : String) (counts : List (String × ℕ)) → is_empty counts ≡ true → pending h counts ≡ 0
pending_empty h [] e = refl
pending_empty h (x ∷ counts) e = cc

pub pending_of_Distinct :
    (h : String) (counts : List (String × ℕ))
    → Distinct counts
    → is_some (get h counts) ≡ true
    → or_else (get h counts) 1 ≡ pending h counts
pending_of_Distinct h [] d e = cc
pending_of_Distinct h ((k, n) ∷ counts) d e =
    ground (arith, d, e, eq_iff k h, pending_none h counts, pending_of_Distinct h counts d.1)

get-concat {ℓ} :
    {V : Type ℓ} (h k : String) (v : V) (m : List (String × V))
    → is_some (get h (m ++ (k, v) ∷ [])) ≡ (is_some (get h m) || k == h)
get-concat h k v [] = ground arith
get-concat h k v ((j, w) ∷ m) = ground (arith, get-concat h k v m)

Distinct-concat {ℓ} :
    {V : Type ℓ} (k : String) (v : V) (m : List (String × V))
    → Distinct m
    → is_some (get k m) ≡ false
    → Distinct (m ++ (k, v) ∷ [])
Distinct-concat k v [] d e = (refl, tt)
Distinct-concat k v ((j, w) ∷ m) d e =
    ground (arith, d, e, get-concat j k v m, Distinct-concat k v m d.1, eq_iff k j, eq_iff j k)

-- The counters, the cache and the table fit together: the table's hashes are the cached ones, and a
-- hash is counted once it is cached or new, and is new only if it is not cached.
pub record IsTracked (c : Cache) (t : Table) : Type 0 where
  pub cached : (h : String) → is_some (c.template_cache h) ≡ is_some (find_row h t.rows)
  pub fresh :
      (h : String) → is_some (get h c.new_templates) ≡ true → is_some (c.template_cache h) ≡ false
  pub counted :
      (h : String)
      → is_some (get h c.new_templates) ≡ true
      → is_some (get h c.template_counts) ≡ true
  pub placed :
      (h : String)
      → is_some (get h c.template_counts) ≡ true
      → is_some (get h c.new_templates) ≡ false
      → is_some (c.template_cache h) ≡ true
  pub counts_distinct : Distinct c.template_counts
  pub new_distinct : Distinct c.new_templates

module _ (c : Cache) (t : Table) (i : IsTracked c t) (m : Message) where
  abbrev key : String
  key = m.template_hash

  new-cases :
      (is_new_template key c ≡ true)
        × (is_some (get key c.new_templates) ≡ false)
        × (is_some (c.template_cache key) ≡ false)
      ⊎ ((is_new_template key c ≡ false)
          × (is_some (get key c.new_templates) || is_some (c.template_cache key) ≡ true))
  unfolding is_new_template
  new-cases = elim (Bool-cases (is_some (get key c.new_templates))) [
    | inl y ↦ inr (ground (arith, y), ground (arith, y))
    | inr n ↦ elim (Bool-cases (is_some (c.template_cache key))) [
      | inl y ↦ inr (ground (arith, y), ground (arith, n, y))
      | inr n' ↦ inl (ground (arith, n, n'), n, n')
    ]
  ]

  pub count_template-IsTracked : IsTracked (count_template m c) t
  unfolding count_template
  count_template-IsTracked = elim new-cases [
    | inl (y, n, n') ↦ rw y (record {
      cached = i.cached;
      fresh =
          λ h q. ground (arith, q, get-concat h key m c.new_templates, i.fresh h, n', eq_iff key h);
      counted = λ h q. ground (
        arith,
        q,
        get-concat h key m c.new_templates,
        get-bump h key c.template_counts,
        i.counted h,
      );
      placed = λ h q r. ground (
        arith,
        q,
        r,
        get-concat h key m c.new_templates,
        get-bump h key c.template_counts,
        i.placed h,
      );
      counts_distinct = bump-Distinct key c.template_counts i.counts_distinct;
      new_distinct = Distinct-concat key m c.new_templates i.new_distinct n;
    })
    | inr (n, old) ↦ rw n (record {
      cached = i.cached;
      fresh = i.fresh;
      counted = λ h q. ground (arith, get-bump h key c.template_counts, i.counted h q);
      placed = λ h q r.
          ground (arith, q, r, get-bump h key c.template_counts, i.placed h, old, eq_iff key h);
      counts_distinct = bump-Distinct key c.template_counts i.counts_distinct;
      new_distinct = i.new_distinct;
    })
  ]
