-- ===== src/Incidents/Dedup.antt =====
-- At most one incident per rule and hosts is active, so a finding always finds its place.
use b8mon.Base.{
  ℕ, suc, ◌+◌, ◌≤◌, String, ◌≡◌, refl, ◌∙◌, ap, Bool, Option, none, some, List, [], ◌∷◌, arith,
  string_eq, nat_eq, ◌==◌, eq_iff, if◌then◌else◌, length, length-append, keep-append, ==_refl,
  is_some,
}
use b8mon.Incidents.{
  Incident, Db, Notice, host_ids_hash, is_match, matches, Finding, update_row, touch, append_event,
  new_incident, create_incident, found, find_or_create,
}

pub record IsDeduplicated (db : Db) : Type 0 where
  pub at_most_one : (rule h : String) → length (matches rule h db.incidents) ≤ 1

-- A change of one row that leaves what `is_match` reads keeps the matches' number.
pub length-matches-update_row :
    (rule h : String) (id : ℕ) (change : Incident → Incident) (is : List Incident)
    → ((i : Incident) → is_match rule h (change i) ≡ is_match rule h i)
    → length (matches rule h (update_row id change is)) ≡ length (matches rule h is)
length-matches-update_row rule h id change [] same = refl
length-matches-update_row rule h id change (i ∷ is) same =
    ground (arith, same i, length-matches-update_row rule h id change is same)

append_event-IsDeduplicated :
    (f : Finding) (now : ℕ) (i : Incident) (db : Db)
    → IsDeduplicated db
    → IsDeduplicated (append_event f now i db)
unfolding append_event
append_event-IsDeduplicated f now i db d = record {
  at_most_one = λ rule h.
      rw (length-matches-update_row rule h i.id (touch now) db.incidents (λ j. refl))
        (d.at_most_one rule h);
}

create_incident-IsDeduplicated :
    (f : Finding) (h : String) (now : ℕ) (db : Db)
    → matches f.rule h db.incidents ≡ []
    → IsDeduplicated db
    → IsDeduplicated (create_incident f h now db)
unfolding create_incident
create_incident-IsDeduplicated f h now db e d = record {
  at_most_one = λ rule g. ground (
    arith,
    e,
    d.at_most_one rule g,
    eq_iff f.rule rule,
    eq_iff h g,
    keep-append (is_match rule g) db.incidents (new_incident f h now db.next_id ∷ []),
    length-append (matches rule g db.incidents)
        (matches rule g (new_incident f h now db.next_id ∷ [])),
  );
}

unfoldable pub is_new : String → String → Db → Bool
is_new rule h db = length (matches rule h db.incidents) == 0

-- What filing a finding does to tables in which at most one incident is active for each key.
pub record Files (f : Finding) (h : String) (db : Db) (notice : Option Notice) (db' : Db)
    : Type 0 where
  pub deduplicated : IsDeduplicated db'
  pub stored : length (matches f.rule h db'.incidents) ≡ 1
  pub incidents : length db'.incidents ≡ length db.incidents + (if is_new f.rule h db then 1 else 0)
  pub events : length db'.events ≡ length db.events + 1
  pub noticed : is_some notice ≡ is_new f.rule h db

length-update_row :
    (id : ℕ) (change : Incident → Incident) (is : List Incident)
    → length (update_row id change is) ≡ length is
length-update_row id change [] = refl
length-update_row id change (i ∷ is) = ap suc (length-update_row id change is)

create_incident-Files :
    (f : Finding) (h : String) (now : ℕ) (db : Db) (n : Notice)
    → matches f.rule h db.incidents ≡ []
    → IsDeduplicated db
    → Files f h db (some n) (create_incident f h now db)
unfolding create_incident is_new
create_incident-Files f h now db n e d = record {
  deduplicated = create_incident-IsDeduplicated f h now db e d;
  stored = rw (
    keep-append (is_match f.rule h) db.incidents,
    e,
    ==_refl {A = String} f.rule,
    ==_refl {A = String} h,
  );
  incidents = rw e (length-append db.incidents (new_incident f h now db.next_id ∷ []));
  events = length-append db.events _;
  noticed = rw e;
}

append_event-Files :
    (f : Finding) (h : String) (now : ℕ) (db : Db) (i : Incident)
    → matches f.rule h db.incidents ≡ i ∷ []
    → IsDeduplicated db
    → Files f h db none (append_event f now i db)
unfolding append_event is_new
append_event-Files f h now db i e d = record {
  deduplicated = append_event-IsDeduplicated f now i db d;
  stored =
      length-matches-update_row f.rule h i.id (touch now) db.incidents (λ j. refl) ∙ ap length e;
  incidents = rw e (omega (arith, length-update_row i.id (touch now) db.incidents));
  events = length-append db.events _;
  noticed = rw e;
}

found-Files :
    (f : Finding) (h : String) (now : ℕ) (is : List Incident) (db : Db)
    → matches f.rule h db.incidents ≡ is
    → IsDeduplicated db
    → (id : ℕ) × (notice : Option Notice) × (db' : Db) × (found f h now is db
        ≡ some (id, notice, db'))
      × Files f h db notice db'
unfolding found
found-Files f h now [] db e d = (_, _, _, refl, create_incident-Files f h now db _ e d)
found-Files f h now (i ∷ []) db e d = (_, _, _, refl, append_event-Files f h now db i e d)
found-Files f h now (i ∷ j ∷ is) db e d =
    let two : length (matches f.rule h db.incidents) ≡ suc (suc (length is)) = ap length e in
    absurd (omega (arith, d.at_most_one f.rule h))

-- While at most one incident is active for each rule and set of hosts, filing a finding does not
-- raise. It keeps that invariant, adds one event, and leaves exactly one active incident for the
-- finding's key; it opens an incident, with a notice, exactly when none was active.
pub find_or_create-Files :
    (digest : String → String) (f : Finding) (now : ℕ) (db : Db)
    → IsDeduplicated db
    → (id : ℕ) × (notice : Option Notice) × (db' : Db) × (find_or_create digest f now db
        ≡ some (id, notice, db'))
      × Files f (host_ids_hash digest f.host_ids) db notice db'
unfolding find_or_create
find_or_create-Files digest f now db d =
    let h = host_ids_hash digest f.host_ids in
    found-Files f h now (matches f.rule h db.incidents) db refl d
