-- ===== src/LogIntelligence/Flush.antt =====
-- What a flush stores: every message that was counted, each once.
use b8mon.Base.{
  ℕ, ◌+◌, ◌≡◌, refl, sym, ◌∙◌, inl, inr, String, not, ◌&&◌, List, [], ◌∷◌, arith, string_eq, ◌==◌,
  eq_iff, if◌then◌else◌, is_some, is_empty, Bool-cases,
}
use b8mon.LogIntelligence.Counts.{
  count_of, pending, stored, pending-bump, pending_none, pending_empty, pending_of_Distinct,
  IsTracked, count_template-IsTracked,
}
use b8mon.LogIntelligence.{
  get, Message, Cache, LogTemplate, Table, count_template, find_row, insert_templates, add_count,
  update_counts, flush_templates, flush_raises,
}
use b8mon.LogIntelligence.Insertion.{Inserts, insert_templates-Inserts}

is_some-add_count :
    (now n : ℕ) (h k : String) (rows : List LogTemplate)
    → is_some (find_row h (add_count now k n rows)) ≡ is_some (find_row h rows)
unfolding find_row add_count
is_some-add_count now n h k [] = refl
is_some-add_count now n h k (r ∷ rows) = ground (arith, is_some-add_count now n h k rows)

count_of-add_count :
    (now n : ℕ) (h k : String) (rows : List LogTemplate)
    → count_of (find_row h (add_count now k n rows))
      ≡ count_of (find_row h rows) + (if k == h && is_some (find_row h rows) then n else 0)
unfolding find_row add_count
count_of-add_count now n h k [] = ground arith
count_of-add_count now n h k (r ∷ rows) = ground (
  arith,
  count_of-add_count now n h k rows,
  eq_iff k h,
  eq_iff r.template_hash k,
  eq_iff r.template_hash h,
)

module _ (now : ℕ) (new : List (String × Message)) where
  is_some-update_counts :
      (h : String) (counts : List (String × ℕ)) (rows : List LogTemplate)
      → is_some (find_row h (update_counts now new counts rows)) ≡ is_some (find_row h rows)
  unfolding update_counts
  is_some-update_counts h [] rows = refl
  is_some-update_counts h ((k, n) ∷ counts) rows = elim (Bool-cases (is_some (get k new))) [
    | inl y ↦ rw y (is_some-update_counts h counts rows)
    | inr no_row ↦
        rw no_row (
          is_some-update_counts h counts (add_count now k n rows)
          ∙ is_some-add_count now n h k rows)
  ]

  -- what the updates add for a hash
  abbrev share : String → List (String × ℕ) → List LogTemplate → ℕ
  share h counts rows =
      if not (is_some (get h new)) && is_some (find_row h rows) then pending h counts else 0

  count_of-update_counts :
      (h : String) (counts : List (String × ℕ)) (rows : List LogTemplate)
      → count_of (find_row h (update_counts now new counts rows))
        ≡ count_of (find_row h rows) + share h counts rows
  unfolding update_counts
  count_of-update_counts h [] rows = ground arith
  count_of-update_counts h ((k, n) ∷ counts) rows = elim (Bool-cases (is_some (get k new))) [
    | inl y ↦ rw y (ground (arith, y, count_of-update_counts h counts rows, eq_iff k h))
    | inr no_row ↦ rw no_row (
        ground (
          arith,
          no_row,
          count_of-update_counts h counts (add_count now k n rows),
          count_of-add_count now n h k rows,
          is_some-add_count now n h k rows,
          eq_iff k h,
        ))
  ]

module _ (now : ℕ) (c : Cache) (t : Table) (i : IsTracked c t) where
  inserted :
      Inserts now c.template_counts c.new_templates
        (c.template_cache, t)
        (insert_templates now c.template_counts c.new_templates (c.template_cache, t))
  inserted =
      insert_templates-Inserts now c.template_counts c.new_templates (c.template_cache, t) i.cached
        (λ h q. ground (arith, q, i.fresh h, i.cached h)) i.new_distinct

  flush_templates-stored :
      (h : String) → stored h (flush_templates now c t).1 ≡ stored h t + pending h c.template_counts
  unfolding flush_templates
  flush_templates-stored h =
      let s = insert_templates now c.template_counts c.new_templates (c.template_cache, t) in
      elim (Bool-cases (is_empty c.template_counts && is_empty c.new_templates)) [
        | inl y ↦ rw y (omega (arith, pending_empty h c.template_counts (ground (arith, y))))
        | inr n ↦ rw n (
            ground (
              arith,
              count_of-update_counts now c.new_templates h c.template_counts s.1.rows,
              inserted.summed h,
              inserted.kept h,
              pending_of_Distinct h c.template_counts i.counts_distinct,
              pending_none h c.template_counts,
              i.counted h,
              i.placed h,
              i.cached h,
            ))
      ]

  flush_templates-IsTracked : IsTracked (flush_templates now c t).0 (flush_templates now c t).1
  unfolding flush_templates
  flush_templates-IsTracked =
      let s = insert_templates now c.template_counts c.new_templates (c.template_cache, t) in
      elim (Bool-cases (is_empty c.template_counts && is_empty c.new_templates)) [
        | inl y ↦ rw y i
        | inr n ↦ rw n (record {
          cached = λ h.
              inserted.agree h
              ∙ sym (is_some-update_counts now c.new_templates h c.template_counts s.1.rows);
          fresh = λ h q. cc q;
          counted = λ h q. cc q;
          placed = λ h q r. cc q;
          counts_distinct = tt;
          new_distinct = tt;
        })
      ]

-- messages one after the other
abbrev pub count_templates : List Message → Cache → Cache
count_templates [] c = c
count_templates (m ∷ ms) c = count_templates ms (count_template m c)

abbrev pub occurrences : String → List Message → ℕ
occurrences h [] = 0
occurrences h (m ∷ ms) = (if m.template_hash == h then 1 else 0) + occurrences h ms

count_templates-IsTracked :
    (ms : List Message) (c : Cache) (t : Table) → IsTracked c t → IsTracked (count_templates ms c) t
count_templates-IsTracked [] c t i = i
count_templates-IsTracked (m ∷ ms) c t i =
    count_templates-IsTracked ms (count_template m c) t (count_template-IsTracked c t i m)

pending-count_templates :
    (h : String) (ms : List Message) (c : Cache)
    → pending h (count_templates ms c).template_counts
      ≡ pending h c.template_counts + occurrences h ms
unfolding count_template
pending-count_templates h [] c = omega arith
pending-count_templates h (m ∷ ms) c = omega (
  arith,
  pending-count_templates h ms (count_template m c),
  pending-bump h m.template_hash c.template_counts,
)

flush_raises-forgets :
    (now k : ℕ) (c : Cache) (t : Table) (h : String)
    → ((flush_raises now k c t).1 ≡ t) × (pending h (flush_raises now k c t).0.template_counts ≡ 0)
unfolding flush_raises
flush_raises-forgets now k c t h = elim (Bool-cases (is_empty c.template_counts)) [
  | inr n ↦ rw n (refl, refl)
  | inl y ↦ elim (Bool-cases (is_empty c.new_templates)) [
    | inl y2 ↦ rw (y, y2) (refl, pending_empty h c.template_counts y)
    | inr n ↦ rw (y, n) (refl, refl)
  ]
]

-- As long as the cache, the counters and the table fit together (the cached templates are exactly the
-- stored ones): when messages are processed and the templates then flushed, no message coming in
-- between, the stored count of every template grows by exactly what was pending and the messages that
-- have it, and they fit together again. If the flush raises instead, nothing is stored and all
-- that was pending is forgotten, those messages included.
pub flush_templates-count_templates :
    (now k : ℕ) (ms : List Message) (c : Cache) (t : Table) (h : String)
    → IsTracked c t
    → (stored h (flush_templates now (count_templates ms c) t).1
        ≡ stored h t + pending h c.template_counts + occurrences h ms)
      × IsTracked
          (flush_templates now (count_templates ms c) t).0
          (flush_templates now (count_templates ms c) t).1
      × ((flush_raises now k (count_templates ms c) t).1 ≡ t)
      × (pending h (flush_raises now k (count_templates ms c) t).0.template_counts ≡ 0)
flush_templates-count_templates now k ms c t h i =
    let i' = count_templates-IsTracked ms c t i in
    let (same, forgotten) = flush_raises-forgets now k (count_templates ms c) t h in
    (
      omega (
        arith,
        flush_templates-stored now (count_templates ms c) t i' h,
        pending-count_templates h ms c,
      ),
      flush_templates-IsTracked now (count_templates ms c) t i',
      same,
      forgotten,
    )
