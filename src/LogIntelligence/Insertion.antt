-- ===== src/LogIntelligence/Insertion.antt =====
-- The first half of a flush: the rows of new templates.
use b8mon.Base.{
  ℕ, suc, ◌+◌, ◌≡◌, String, true, false, ◌||◌, none, some, List, [], ◌∷◌, ◌++◌, arith, string_eq,
  ◌==◌, eq_iff, if◌then◌else◌, or_else, is_some, Map, assign,
}
use b8mon.LogIntelligence.Counts.{stored, Distinct}
use b8mon.LogIntelligence.{
  get, Message, LogTemplate, Table, find_row, new_row, insert_template, insert_templates,
}

-- the table while the new templates are inserted
find_row-concat :
    (h : String) (r : LogTemplate) (rows : List LogTemplate)
    → is_some (find_row h rows) ≡ false
    → find_row h (rows ++ r ∷ []) ≡ (if r.template_hash == h then some r else none)
unfolding find_row
find_row-concat h r [] e = ground arith
find_row-concat h r (q ∷ rows) e = ground (arith, e, find_row-concat h r rows)

find_row-concat_some :
    (h : String) (r : LogTemplate) (rows : List LogTemplate)
    → is_some (find_row h rows) ≡ true
    → find_row h (rows ++ r ∷ []) ≡ find_row h rows
unfolding find_row
find_row-concat_some h r [] e = cc
find_row-concat_some h r (q ∷ rows) e = ground (arith, e, find_row-concat_some h r rows)

module _ (now : ℕ) (counts : List (String × ℕ)) where
  -- What the insertion of the new templates `new` makes of a cache and a table that agree.
  pub record Inserts (new : List (String × Message)) (s s' : Map String ℕ × Table) : Type 0 where
    pub agree : (h : String) → is_some (s'.0 h) ≡ is_some (find_row h s'.1.rows)
    pub kept :
        (h : String)
        → is_some (find_row h s'.1.rows) ≡ (is_some (find_row h s.1.rows) || is_some (get h new))
    pub summed :
        (h : String)
        → stored h s'.1
          ≡ stored h s.1 + (if is_some (get h new) then or_else (get h counts) 1 else 0)

  -- the insertion of one template whose hash has no row
  insert_template-new :
      (k : String) (m : Message) (cache : Map String ℕ) (t : Table)
      → is_some (find_row k t.rows) ≡ false
      → insert_template now counts k m (cache, t) ≡ (
        assign k t.next_id cache,
        record {
          rows = t.rows ++ new_row now t.next_id k m (or_else (get k counts) 1) ∷ [];
          next_id = suc t.next_id;
        },
      )
  unfolding insert_template
  insert_template-new k m cache t e = ground (arith, e)

  insert_template-Inserts :
      (k : String) (m : Message) (s : Map String ℕ × Table)
      → ((h : String) → is_some (s.0 h) ≡ is_some (find_row h s.1.rows))
      → is_some (find_row k s.1.rows) ≡ false
      → Inserts ((k, m) ∷ []) s (insert_template now counts k m s)
  insert_template-Inserts k m (cache, t) a e =
      let row = new_row now t.next_id k m (or_else (get k counts) 1) in
      let known = λ (h : String). find_row-concat h row t.rows in
      let other = λ (h : String). find_row-concat_some h row t.rows in
      rw (insert_template-new k m cache t e) (record {
        agree = λ h. ground (arith, a h, e, known h, other h, eq_iff k h);
        kept = λ h. ground (arith, e, known h, other h, eq_iff k h);
        summed = λ h. ground (arith, e, known h, other h, eq_iff k h);
      })

  pub insert_templates-Inserts :
      (new : List (String × Message)) (s : Map String ℕ × Table)
      → ((h : String) → is_some (s.0 h) ≡ is_some (find_row h s.1.rows))
      → ((h : String) → is_some (get h new) ≡ true → is_some (find_row h s.1.rows) ≡ false)
      → Distinct new
      → Inserts new s (insert_templates now counts new s)
  unfolding insert_templates
  insert_templates-Inserts [] s a f d = record {
    agree = a;
    kept = λ h. ground arith;
    summed = λ h. omega arith;
  }
  insert_templates-Inserts ((k, m) ∷ new) s a f d =
      let one = insert_template-Inserts k m s a (f k (ground (arith, eq_iff k k))) in
      let s1 = insert_template now counts k m s in
      let rest =
        insert_templates-Inserts new s1 one.agree
          (λ h q. ground (arith, q, one.kept h, f h, d, eq_iff k h)) d.1 in
      record {
        agree = rest.agree;
        kept = λ h. ground (arith, rest.kept h, one.kept h);
        summed = λ h. ground (arith, rest.summed h, one.summed h, d, eq_iff k h);
      }
