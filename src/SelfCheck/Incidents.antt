-- ===== src/SelfCheck/Incidents.antt =====
-- What a self-check does to the incidents.
use b8mon.Base.{
  ℕ, ◌+◌, ◌≤◌, String, ◌≡◌, refl, ◌∙◌, ap, sym, Bool, true, false, not, ◌&&◌, Option, none, some,
  List, [], ◌∷◌, ◌++◌, arith, map, nat_eq, string_eq, ◌==◌, if◌then◌else◌, length, length-append,
  contains, is_some, Bool-cases, inl, inr, All,
}
use b8mon.Incidents.{Incident, Db, Notice, host_ids_hash, is_active, matches}
use b8mon.Incidents.Dedup.{IsDeduplicated, is_new, find_or_create-Files}
use b8mon.Correlation.{Engine, completed, file_finding}
use b8mon.Probes.{Problem}
use b8mon.SelfCheck.{self_check_rule, finding_of, file_all, is_gone, resolve_gone, raise_and_clear}

abbrev one_if : Bool → ℕ
one_if true = 1
one_if false = 0

-- What filing one problem does to an engine whose tables hold no two active incidents for one key.
record Filed (new : Bool) (h : String) (e : Engine) (r : Bool × Engine) : Type 0 where
  fine : r.0 ≡ completed
  deduplicated : IsDeduplicated r.1.db
  stored : is_new self_check_rule h r.1.db ≡ false
  incidents : length r.1.db.incidents ≡ length e.db.incidents + one_if new
  notices : length r.1.notices ≡ length e.notices + one_if new

stored_not_new :
    (h : String) (db : Db)
    → length (matches self_check_rule h db.incidents) ≡ 1
    → is_new self_check_rule h db ≡ false
unfolding is_new
stored_not_new h db e = rw e refl

notices-length :
    (notice : Option Notice) (notices : List Notice)
    → length (elim notice as (λ _. List Notice) [ none ↦ notices | some n ↦ notices ++ n ∷ [] ])
      ≡ length notices + one_if (is_some notice)
notices-length none notices = omega arith
notices-length (some n) notices = length-append notices (n ∷ [])

one_if-new : (b : Bool) → (if b then 1 else 0) ≡ one_if b
one_if-new true = refl
one_if-new false = refl

module _ (digest : String → String) (now : ℕ) where
  abbrev key : String
  key = host_ids_hash digest []

  file_finding-Filed :
      (p : Problem) (e : Engine)
      → IsDeduplicated e.db
      → Filed
          (is_new self_check_rule key e.db)
          key
          e
          (file_finding digest now (finding_of p) none e)
  unfolding file_finding
  file_finding-Filed p e d =
      let (id, notice, db, eq, files) = find_or_create-Files digest (finding_of p) now e.db d in
      rw (eq, file_finding)
        (record {
          fine = refl;
          deduplicated = files.deduplicated;
          stored = stored_not_new key db files.stored;
          incidents = files.incidents ∙ ap (λ n. length e.db.incidents + n) (one_if-new _);
          notices =
              notices-length notice e.notices ∙ ap (λ b. length e.notices + one_if b) files.noticed;
        })

  file_all-known :
      (ps : List Problem) (e : Engine)
      → IsDeduplicated e.db
      → is_new self_check_rule key e.db ≡ false
      → Filed false key e (file_all digest now ps e)
  unfolding file_all
  file_all-known [] e d n = record {
    fine = refl;
    deduplicated = d;
    stored = n;
    incidents = omega arith;
    notices = omega arith;
  }
  file_all-known (p ∷ ps) e d n =
      let f = file_finding-Filed p e d in
      let rest =
        file_all-known ps (file_finding digest now (finding_of p) none e).1 f.deduplicated
          f.stored in
      rw (f.fine, file_all)
        (record {
          fine = rest.fine;
          deduplicated = rest.deduplicated;
          stored = rest.stored;
          incidents =
              rest.incidents
              ∙ ap (λ x. x + 0) (f.incidents ∙ ap (λ b. length e.db.incidents + one_if b) n)
              ∙ omega arith;
          notices =
              rest.notices
              ∙ ap (λ x. x + 0) (f.notices ∙ ap (λ b. length e.notices + one_if b) n)
              ∙ omega arith;
        })

  file_all-Filed :
      (p : Problem) (ps : List Problem) (e : Engine)
      → IsDeduplicated e.db
      → Filed (is_new self_check_rule key e.db) key e (file_all digest now (p ∷ ps) e)
  unfolding file_all
  file_all-Filed p ps e d =
      let f = file_finding-Filed p e d in
      let rest =
        file_all-known ps (file_finding digest now (finding_of p) none e).1 f.deduplicated
          f.stored in
      rw (f.fine, file_all)
        (record {
          fine = rest.fine;
          deduplicated = rest.deduplicated;
          stored = rest.stored;
          incidents = rest.incidents ∙ ap (λ x. x + 0) f.incidents ∙ omega arith;
          notices = rest.notices ∙ ap (λ x. x + 0) f.notices ∙ omega arith;
        })

-- However many different problems one self-check finds, they are filed as one incident: if none was
-- active for the self-check, exactly one incident is opened and one notice sent, else none is.
pub file_all-one_incident :
    (digest : String → String) (now : ℕ) (p : Problem) (ps : List Problem) (e : Engine)
    → IsDeduplicated e.db
    → let new : ℕ = if is_new self_check_rule (host_ids_hash digest []) e.db then 1 else 0 in
      let (fine, e') = file_all digest now (p ∷ ps) e in
      (fine ≡ completed)
      × (length e'.db.incidents ≡ length e.db.incidents + new)
      × (length e'.notices ≡ length e.notices + new)
file_all-one_incident digest now p ps e d =
    let f = file_all-Filed digest now p ps e d in
    let same = sym (one_if-new (is_new self_check_rule (host_ids_hash digest []) e.db)) in
    (
      f.fine,
      f.incidents ∙ ap (λ n. length e.db.incidents + n) same,
      f.notices ∙ ap (λ n. length e.notices + n) same,
    )

-- an active incident of the self-check has a title that was seen
abbrev pub IsSeen : List String → Incident → Type 0
IsSeen seen i =
    (i.rule == self_check_rule) ≡ true → is_active i.status ≡ true → contains i.title seen ≡ true

still_seen : (a b c : Bool) → (a && b && not c) ≡ false → a ≡ true → b ≡ true → c ≡ true
still_seen a b c h e f = ground arith

resolve_gone-IsSeen :
    (now : ℕ) (seen : List String) (rows : List Incident)
    → All (IsSeen seen) (resolve_gone now seen rows)
unfolding resolve_gone
resolve_gone-IsSeen now seen [] = tt
resolve_gone-IsSeen now seen (i ∷ rows) = elim (Bool-cases (is_gone seen i)) [
  | inl g ↦ rw g ((λ r act. cc act), resolve_gone-IsSeen now seen rows)
  | inr g ↦ rw g (still_seen _ _ _ g, resolve_gone-IsSeen now seen rows)
]

length-resolve_gone :
    (now : ℕ) (seen : List String) (rule h : String) (rows : List Incident)
    → length (matches rule h (resolve_gone now seen rows)) ≤ length (matches rule h rows)
unfolding resolve_gone
length-resolve_gone now seen rule h [] = omega arith
length-resolve_gone now seen rule h (i ∷ rows) =
    ground (arith, length-resolve_gone now seen rule h rows)

-- Over tables with at most one active incident for each key, a self-check completes and keeps that,
-- and afterwards the active incidents of the self-check are among those whose titles it has just
-- seen.
pub raise_and_clear-IsSeen :
    (digest : String → String) (now : ℕ) (problems : List Problem) (e : Engine)
    → IsDeduplicated e.db
    → let (fine, e') = raise_and_clear digest now problems e in
      (fine ≡ completed)
      × IsDeduplicated e'.db
      × All (IsSeen (map (λ p. p.title) problems)) e'.db.incidents
unfolding raise_and_clear file_all
raise_and_clear-IsSeen digest now problems e d =
    let (fine, kept) = filed problems in
    let e' = (file_all digest now problems e).1 in
    let seen = map (λ p. p.title) problems in
    rw (fine, raise_and_clear)
      (
        refl,
        record {
          at_most_one = λ rule h.
              omega (
                arith,
                length-resolve_gone now seen rule h e'.db.incidents,
                kept.at_most_one rule h,
              );
        },
        resolve_gone-IsSeen now seen e'.db.incidents,
      )
  where
    filed :
        (ps : List Problem)
        → ((file_all digest now ps e).0 ≡ completed)
          × IsDeduplicated (file_all digest now ps e).1.db
    filed [] = (refl, d)
    filed (p ∷ ps) = let f = file_all-Filed digest now p ps e d in (f.fine, f.deduplicated)
