-- ===== src/Correlation/Resolve/Laws.antt =====
-- What a pass of `_auto_resolve` does to the tables.
use b8mon.Base.{
  ℕ, ◌≤◌, String, ◌≡◌, refl, ap, true, some, List, [], ◌∷◌, inl, inr, ◌⊎◌, Bool-cases, arith,
  nat_eq, string_eq, length, keep, is_empty, or_else, Option-cases,
}
use b8mon.Incidents.{Incident, is_active, matches, update_row}
use b8mon.Incidents.Dedup.{IsDeduplicated}
use b8mon.Correlation.{Engine}
use b8mon.Correlation.Rules.{Host, World, get_offline_hosts}
use b8mon.Correlation.Resolve.{
  Verdict, stays, ends, fails, verdict, resolve, resolve_incident, resolve_each, auto_resolve,
  default_min_failures,
}

length-matches-resolve-le :
    (rule h : String) (id now : ℕ) (is : List Incident)
    → length (matches rule h (update_row id (resolve now) is)) ≤ length (matches rule h is)
length-matches-resolve-le rule h id now [] = omega arith
length-matches-resolve-le rule h id now (i ∷ is) =
    ground (arith, length-matches-resolve-le rule h id now is)

resolve_incident-IsDeduplicated :
    (now : ℕ) (words : String) (i : Incident) (e : Engine)
    → IsDeduplicated e.db
    → IsDeduplicated (resolve_incident now words i e).db
unfolding resolve_incident
resolve_incident-IsDeduplicated now words i e d = record {
  at_most_one = λ rule h.
      omega (arith, length-matches-resolve-le rule h i.id now e.db.incidents, d.at_most_one rule h);
}

pub Verdict-cases :
    (v : Verdict) → (v ≡ stays) ⊎ (v ≡ fails) ⊎ ((words : String) × (v ≡ ends words))
Verdict-cases stays = inl refl
Verdict-cases fails = inr (inl refl)
Verdict-cases (ends words) = inr (inr (words, refl))

abbrev pub active_rows : Engine → List Incident
active_rows e = keep (λ i. is_active i.status) e.db.incidents

-- the hosts that are offline; a pass that does not raise has got them, or does not need them
abbrev pub offline_now : World → List Host
offline_now w = or_else (get_offline_hosts w default_min_failures) []

pub auto_resolve-each :
    (digest : String → String) (w : World) (now : ℕ) (e : Engine) (ids : List ℕ) (e' : Engine)
    → auto_resolve digest w now e ≡ (some ids, e')
    → resolve_each digest w now (offline_now w) (active_rows e) e ≡ (some ids, e')
unfolding auto_resolve
auto_resolve-each digest w now e ids e' p = elim (Bool-cases (is_empty (active_rows e))) [
  | inl y ↦ rw (is_empty-nil (active_rows e) y, resolve_each) (rw y at p)
  | inr n ↦ elim (Option-cases (get_offline_hosts w default_min_failures)) [
    | inl none_read ↦ cc (ap (λ q. q.0) (rw (n, none_read) at p))
    | inr (hosts, read) ↦ rw read (rw (n, read) at p)
  ]
]
  where
    is_empty-nil : (is : List Incident) → is_empty is ≡ true → is ≡ []
    is_empty-nil [] h = refl
    is_empty-nil (i ∷ is) h = cc h

resolve_each-IsDeduplicated :
    (digest : String → String) (w : World) (now : ℕ) (offline : List Host) (is : List Incident)
    (e : Engine)
    → IsDeduplicated e.db
    → let e' = (resolve_each digest w now offline is e).1 in
      IsDeduplicated e'.db × (e'.hits ≡ e.hits)
unfolding resolve_each
resolve_each-IsDeduplicated digest w now offline [] e d = (d, refl)
resolve_each-IsDeduplicated digest w now offline (i ∷ is) e d =
    elim (Verdict-cases (verdict digest w now offline i)) [
      | inl v ↦ rw (v, resolve_each) (resolve_each-IsDeduplicated digest w now offline is e d)
      | inr (inl v) ↦ rw (v, resolve_each) (d, refl)
      | inr (inr (words, v)) ↦
          rw (v, resolve_each)
            (resolve_each-IsDeduplicated digest w now offline is (resolve_incident now words i e)
              (resolve_incident-IsDeduplicated now words i e d))
    ]

pub auto_resolve-IsDeduplicated :
    (digest : String → String) (w : World) (now : ℕ) (e : Engine)
    → IsDeduplicated e.db
    → let e' = (auto_resolve digest w now e).1 in IsDeduplicated e'.db × (e'.hits ≡ e.hits)
unfolding auto_resolve
auto_resolve-IsDeduplicated digest w now e d = elim (Bool-cases (is_empty (active_rows e))) [
  | inl y ↦ rw y (d, refl)
  | inr n ↦ elim (Option-cases (get_offline_hosts w default_min_failures)) [
    | inl none_read ↦ rw (n, none_read) (d, refl)
    | inr (hosts, read) ↦
        rw (n, read) (resolve_each-IsDeduplicated digest w now hosts (active_rows e) e d)
  ]
]
