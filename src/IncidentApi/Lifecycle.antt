-- ===== src/IncidentApi/Lifecycle.antt =====
-- No request makes a second incident active for one rule and set of hosts.
use b8mon.Base.{
  ℕ, String, ◌≡◌, ◌≤◌, refl, sym, ap, ◌∙◌, ◌==◌, none, true, false, Option, some, List, [], ◌∷◌,
  arith, nat_eq, string_eq, Bool-cases, length, Option-cases, inl, inr, or_else, text_or,
}
use b8mon.Incidents.{
  opened, acknowledged, resolved, Status, Incident, Db, is_match, matches, is_active,
}
use b8mon.Incidents.Dedup.{IsDeduplicated}
use b8mon.Predictor.{Python, Settings}
use b8mon.IncidentApi.{
  get_incident, put_incident, save, is_resolved, acknowledge, acknowledge_incident, close,
  resolve_incident, label, incident_feedback, is_verdict,
}

-- A new row that matches only where the old one does adds no match.
length-matches-put_incident-le :
    (rule h : String) (id : ℕ) (i row : Incident) (is : List Incident)
    → get_incident id is ≡ some i
    → (is_match rule h row ≡ true → is_match rule h i ≡ true)
    → length (matches rule h (put_incident id row is)) ≤ length (matches rule h is)
unfolding get_incident put_incident
length-matches-put_incident-le rule h id i row [] e same = omega arith
length-matches-put_incident-le rule h id i row (j ∷ is) e same =
    ground (arith, length-matches-put_incident-le rule h id i row is, same)

-- the status of the incident with an id
abbrev pub status_of : ℕ → List Incident → Option Status
status_of id is = elim (get_incident id is) [ none ↦ none | some i ↦ some i.status ]

-- no incident that is resolved becomes active again
abbrev pub StaysResolved : Db → Db → Type 0
StaysResolved db db' =
    (id : ℕ)
    → status_of id db.incidents ≡ some resolved
    → status_of id db'.incidents ≡ some resolved

status_of-put_incident :
    (id : ℕ) (i row : Incident) (is : List Incident) (j : ℕ)
    → get_incident id is ≡ some i
    → row.id ≡ i.id
    → (i.status ≡ resolved → row.status ≡ resolved)
    → status_of j is ≡ some resolved
    → status_of j (put_incident id row is) ≡ some resolved
unfolding get_incident put_incident
status_of-put_incident id i row [] j e same keeps h = cc e
status_of-put_incident id i row (x ∷ is) j e same keeps h = elim (Bool-cases (x.id == id)) [
  | inl y ↦
      let found = ap (λ o. or_else o x) (rw (get_incident, y) at e) in
      let id_of : row.id ≡ x.id = same ∙ sym (ap (λ (v : Incident). v.id) found) in
      elim (Bool-cases (x.id == j)) [
        | inl z ↦
            let was = ap (λ o. or_else o resolved) (rw (status_of, get_incident, z) at h) in
            rw (put_incident, y, status_of, get_incident, ap (λ v. v == j) id_of ∙ z)
              (ap some (keeps (sym (ap (λ (v : Incident). v.status) found) ∙ was)))
        | inr z ↦
            rw (put_incident, y, status_of, get_incident, ap (λ v. v == j) id_of ∙ z)
              (rw (status_of, get_incident, z) at h)
      ]
  | inr y ↦ elim (Bool-cases (x.id == j)) [
    | inl z ↦
        rw (put_incident, y, status_of, get_incident, z) (rw (status_of, get_incident, z) at h)
    | inr z ↦
        rw (put_incident, y, status_of, get_incident, z)
          (status_of-put_incident id i row is j (rw (get_incident, y) at e) same keeps
            (rw (status_of, get_incident, z) at h))
  ]
]

-- What a handler keeps.
abbrev Keeps : Db → Db → Type 0
Keeps db db' = IsDeduplicated db' × StaysResolved db db'

save-Keeps :
    (now id : ℕ) (i row : Incident) (event_type summary : String) (db : Db)
    → get_incident id db.incidents ≡ some i
    → ((rule h : String) → is_match rule h row ≡ true → is_match rule h i ≡ true)
    → row.id ≡ i.id
    → (i.status ≡ resolved → row.status ≡ resolved)
    → IsDeduplicated db
    → Keeps db (save now id row event_type summary db)
unfolding save
save-Keeps now id i row event_type summary db e same same_id keeps d = (
  record {
    at_most_one = λ rule h. omega (
      arith,
      d.at_most_one rule h,
      length-matches-put_incident-le rule h id i row db.incidents e (same rule h),
    );
  },
  λ j. status_of-put_incident id i row db.incidents j e same_id keeps,
)

active_of_not-resolved : (s : Status) → is_resolved s ≡ false → is_active s ≡ true
active_of_not-resolved opened h = refl
active_of_not-resolved acknowledged h = refl
active_of_not-resolved resolved h = cc

active_means : {s : Status} → is_resolved s ≡ false → s ≡ resolved → false ≡ true
active_means h r = sym h ∙ ap is_resolved r

acknowledge-is_match :
    (now : ℕ) (by rule h : String) (i : Incident)
    → is_resolved i.status ≡ false
    → is_match rule h (acknowledge now by i) ≡ true
    → is_match rule h i ≡ true
acknowledge-is_match now by rule h i a m = ground (arith, active_of_not-resolved i.status a)

close-is_match :
    (now : ℕ) (rule h : String) (i : Incident)
    → is_match rule h (close now i) ≡ true
    → is_match rule h i ≡ true
close-is_match now rule h i m = ground (arith, m)

module _ (now : ℕ) (key_name : String) (id : ℕ) where
  acknowledge_incident-Keeps :
      (by : Option String) (db : Db)
      → IsDeduplicated db
      → Keeps db (acknowledge_incident now key_name id by db).1
  unfolding acknowledge_incident
  acknowledge_incident-Keeps by db d = elim (Option-cases (get_incident id db.incidents)) [
    | inl e ↦ rw (e, acknowledge_incident) (d, λ j h. h)
    | inr (i, e) ↦ elim (Bool-cases (is_resolved i.status)) [
      | inl done ↦ rw (e, acknowledge_incident, done) (d, λ j h. h)
      | inr active ↦
          rw (e, acknowledge_incident, active)
            (save-Keeps now id i (acknowledge now (or_else by key_name) i) _ _ db e
              (λ rule h. acknowledge-is_match now (or_else by key_name) rule h i active) refl
              (λ r. cc (active_means active r)) d)
    ]
  ]

  resolve_incident-Keeps :
      (db : Db) → IsDeduplicated db → Keeps db (resolve_incident now key_name id db).1
  unfolding resolve_incident
  resolve_incident-Keeps db d = elim (Option-cases (get_incident id db.incidents)) [
    | inl e ↦ rw (e, resolve_incident) (d, λ j h. h)
    | inr (i, e) ↦
        rw (e, resolve_incident)
          (save-Keeps now id i (close now i) _ _ db e (λ rule h. close-is_match now rule h i) refl
            (λ r. refl) d)
  ]

  incident_feedback-Keeps :
      (py : Python) (verdict : Option String) (db : Db) (settings : Settings)
      → IsDeduplicated db
      → Keeps db (incident_feedback py now key_name id verdict (db, settings)).2
  unfolding incident_feedback
  incident_feedback-Keeps py verdict db settings d =
      elim (Bool-cases (is_verdict (text_or verdict ""))) [
        | inr bad ↦ rw bad (d, λ j h. h)
        | inl good ↦ elim (Option-cases (get_incident id db.incidents)) [
          | inl e ↦ rw (good, e, incident_feedback) (d, λ j h. h)
          | inr (i, e) ↦
              rw (good, e, incident_feedback)
                (save-Keeps now id i (label now key_name (text_or verdict "") i) _ _ db e
                  (λ rule h m. m) refl (λ r. r) d)
        ]
      ]

-- Whatever an operator's request is, and whether or not it is refused, if at most one incident is
-- active for each rule and set of hosts, that stays so, and no incident that is resolved becomes
-- active again.
pub requests-IsDeduplicated :
    (py : Python) (now : ℕ) (key_name : String) (id : ℕ) (by verdict : Option String) (db : Db)
    (settings : Settings)
    → IsDeduplicated db
    → let acknowledged_db = (acknowledge_incident now key_name id by db).1 in
      let resolved_db = (resolve_incident now key_name id db).1 in
      let labelled_db = (incident_feedback py now key_name id verdict (db, settings)).2 in
      (IsDeduplicated acknowledged_db × IsDeduplicated resolved_db × IsDeduplicated labelled_db)
      × StaysResolved db acknowledged_db
      × StaysResolved db resolved_db
      × StaysResolved db labelled_db
requests-IsDeduplicated py now key_name id by verdict db settings d =
    let (one, one') = acknowledge_incident-Keeps now key_name id by db d in
    let (two, two') = resolve_incident-Keeps now key_name id db d in
    let (three, three') = incident_feedback-Keeps now key_name id py verdict db settings d in
    ((one, two, three), one', two', three')
