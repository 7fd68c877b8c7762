-- ===== src/Correlation/Resolve/Upstream.antt =====
-- The incidents that a pass of `_auto_resolve` leaves active, and those of upstream failures.
use mathlib.Core.Path.{subst}
use b8mon.Base.{
  ℕ, String, ◌≡◌, ◌≢◌, eq_iff, refl, ◌∙◌, ap, Bool, true, false, ◌&&◌, Option, none, some, List, [],
  ◌∷◌, inl, inr, ◌⊎◌, Bool-cases, ==_true, All, arith, nat_eq, string_eq, ◌==◌, keep,
}
use b8mon.Incidents.{Incident, is_active, update_row}
use b8mon.Correlation.{Engine}
use b8mon.Correlation.Rules.{Host, World}
use b8mon.Correlation.Resolve.{
  is_timed, has_hash, stays, verdict, should_resolve, resolve, resolve_incident, resolve_each,
  auto_resolve,
}
use b8mon.Correlation.Resolve.Laws.{Verdict-cases, active_rows, offline_now, auto_resolve-each}

-- membership as a row, not only under the row's key
abbrev IsOneOf : Incident → List Incident → Type 0
IsOneOf r [] = ⊥
IsOneOf r (i ∷ is) = (r ≡ i) ⊎ IsOneOf r is

All-map :
    {P Q : Incident → Type 0} (f : (r : Incident) → P r → Q r) (rows : List Incident)
    → All P rows
    → All Q rows
All-map f [] a = tt
All-map f (r ∷ rows) a = (f r a.0, All-map f rows a.1)

module _ (digest : String → String) (w : World) (now : ℕ) (offline : List Host) where
  -- an active row that the pass is done with
  abbrev pub IsSettled : Incident → Type 0
  IsSettled r = is_active r.status ≡ true → verdict digest w now offline r ≡ stays

  abbrev IsWaiting : List Incident → Incident → Type 0
  IsWaiting is r =
      is_active r.status ≡ true → (verdict digest w now offline r ≡ stays) ⊎ IsOneOf r is

  IsWaiting-stays :
      (i : Incident) (is : List Incident) (r : Incident)
      → verdict digest w now offline i ≡ stays
      → IsWaiting (i ∷ is) r
      → IsWaiting is r
  IsWaiting-stays i is r e h a = elim (h a) [
    | inl s ↦ inl s
    | inr (inl same) ↦ inl (ap (verdict digest w now offline) same ∙ e)
    | inr (inr more) ↦ inr more
  ]

  IsWaiting-resolve :
      (i : Incident) (is rows : List Incident)
      → All (IsWaiting (i ∷ is)) rows
      → All (IsWaiting is) (update_row i.id (resolve now) rows)
  IsWaiting-resolve i is [] a = tt
  IsWaiting-resolve i is (r ∷ rows) (h, a) = elim (Bool-cases (r.id == i.id)) [
    | inl e ↦ rw e ((λ act. cc act), IsWaiting-resolve i is rows a)
    | inr ne ↦ rw ne ((λ act. left_over ne (h act)), IsWaiting-resolve i is rows a)
  ]
    where
      left_over :
          (r.id == i.id) ≡ false
          → (verdict digest w now offline r ≡ stays) ⊎ IsOneOf r (i ∷ is)
          → (verdict digest w now offline r ≡ stays) ⊎ IsOneOf r is
      left_over ne (inl s) = inl s
      left_over ne (inr (inl same)) = cc (==_true {A = ℕ} r.id i.id (ap (λ x. x.id) same), ne)
      left_over ne (inr (inr more)) = inr more

  resolve_each-settles :
      (is : List Incident) (e : Engine) (ids : List ℕ) (e' : Engine)
      → All (IsWaiting is) e.db.incidents
      → resolve_each digest w now offline is e ≡ (some ids, e')
      → All IsSettled e'.db.incidents
  unfolding resolve_each resolve_incident
  resolve_each-settles [] e ids e' a p =
      subst (λ x. All IsSettled x.db.incidents) (ap (λ q. q.1) p)
        (All-map (λ r h act. done r (h act)) e.db.incidents a)
    where
      done :
          (r : Incident)
          → (verdict digest w now offline r ≡ stays) ⊎ ⊥
          → verdict digest w now offline r ≡ stays
      done r (inl s) = s
      done r (inr never) = elim never [ ]
  resolve_each-settles (i ∷ is) e ids e' a p =
      elim (Verdict-cases (verdict digest w now offline i)) [
        | inl v ↦
            resolve_each-settles is e ids e'
              (All-map (λ r. IsWaiting-stays i is r v) e.db.incidents a) (rw (v, resolve_each) at p)
        | inr (inl v) ↦ cc (ap (λ q. q.0) (rw (v, resolve_each) at p))
        | inr (inr (words, v)) ↦
            let next = resolve_incident now words i e in
            after words
              (λ rest x.
                resolve_each-settles is next rest x (IsWaiting-resolve i is e.db.incidents a))
              (resolve_each digest w now offline is next) refl (rw (v, resolve_each) at p)
      ]
    where
      after :
          (words : String)
          → ((rest : List ℕ) (x : Engine)
              → resolve_each digest w now offline is (resolve_incident now words i e)
                ≡ (some rest, x)
              → All IsSettled x.db.incidents)
          → (q : Option (List ℕ) × Engine)
          → resolve_each digest w now offline is (resolve_incident now words i e) ≡ q
          → ◌≡◌ {A = Option (List ℕ) × Engine}
              (elim q.0 [ none ↦ none | some rest ↦ some (i.id ∷ rest) ], q.1)
              (some ids, e')
          → All IsSettled e'.db.incidents
      after words settled (none, x) eq p = cc (ap (λ q. q.0) p)
      after words settled (some rest, x) eq p =
          subst (λ y. All IsSettled y.db.incidents) (ap (λ q. q.1) p) (settled rest x eq)

  All-IsWaiting :
      (rows : List Incident) → All (IsWaiting (keep (λ i. is_active i.status) rows)) rows
  All-IsWaiting [] = tt
  All-IsWaiting (r ∷ rows) = elim (Bool-cases (is_active r.status)) [
    | inl e ↦
        let grown : r ∷ keep (λ i. is_active i.status) rows
            ≡ keep (λ i. is_active i.status) (r ∷ rows) =
          rw e in
        subst (λ is. All (IsWaiting is) (r ∷ rows)) grown
          (
            (λ act. inr (inl refl)),
            All-map (λ x h act. later x _ (h act)) rows (All-IsWaiting rows),
          )
    | inr e ↦
        let same : keep (λ i. is_active i.status) rows ≡ keep (λ i. is_active i.status) (r ∷ rows) =
          rw e in
        subst (λ is. All (IsWaiting is) (r ∷ rows)) same ((λ act. cc act), All-IsWaiting rows)
  ]
    where
      later :
          (x : Incident) (is : List Incident)
          → (verdict digest w now offline x ≡ stays) ⊎ IsOneOf x is
          → (verdict digest w now offline x ≡ stays) ⊎ (x ≡ r) ⊎ IsOneOf x is
      later x is (inl s) = inl s
      later x is (inr m) = inr (inr m)

-- A pass of `_auto_resolve` that does not raise leaves active only incidents that are to stay, by
-- the tests of this cycle.
auto_resolve-IsSettled :
    (digest : String → String) (w : World) (now : ℕ) (e : Engine) (ids : List ℕ) (e' : Engine)
    → auto_resolve digest w now e ≡ (some ids, e')
    → All (IsSettled digest w now (offline_now w)) e'.db.incidents
auto_resolve-IsSettled digest w now e ids e' p =
    resolve_each-settles digest w now (offline_now w) (active_rows e) e ids e'
      (All-IsWaiting digest w now (offline_now w) e.db.incidents)
      (auto_resolve-each digest w now e ids e' p)

-- the incidents of the branch of `_rule_host_down_syslog` on failures further up
abbrev pub is_upstream : Incident → Bool
is_upstream i = i.rule == "upstream_failure" && has_hash i.host_ids_hash

upstream_not_stays :
    (digest : String → String) (w : World) (now : ℕ) (offline : List Host) (r : Incident)
    → is_upstream r ≡ true
    → verdict digest w now offline r ≢ stays
unfolding verdict is_timed should_resolve
upstream_not_stays digest w now offline r h s =
    let rule : r.rule ≡ "upstream_failure" =
      (eq_iff r.rule "upstream_failure").0 (and_left _ _ h) in
    let named : has_hash r.host_ids_hash ≡ true = and_right (r.rule == "upstream_failure") _ h in
    cc (rw (rule, named) at s)
  where
    and_left : (a b : Bool) → (a && b) ≡ true → a ≡ true
    and_left a b h = ground arith

    and_right : (a b : Bool) → (a && b) ≡ true → b ≡ true
    and_right a b h = ground arith

-- No incident of an upstream failure is active after a pass of `_auto_resolve` that does not raise,
-- whatever hosts are still offline.
pub auto_resolve-upstream :
    (digest : String → String) (w : World) (now : ℕ) (e : Engine) (ids : List ℕ) (e' : Engine)
    → auto_resolve digest w now e ≡ (some ids, e')
    → All (λ r. is_upstream r ≡ true → is_active r.status ≢ true) e'.db.incidents
auto_resolve-upstream digest w now e ids e' p =
    All-map (λ r settled up act. upstream_not_stays digest w now (offline_now w) r up (settled act))
      e'.db.incidents (auto_resolve-IsSettled digest w now e ids e' p)
