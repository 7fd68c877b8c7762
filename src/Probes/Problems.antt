-- ===== src/Probes/Problems.antt =====
-- The self-check reports a probe that leaves hosts unobserved.
use b8mon.Base.{
  ℕ, ◌≡◌, ◌≢◌, ◌⊎◌, refl, inl, inr, String, Bool, true, false, ◌||◌, Option, some, List, [], ◌∷◌,
  arith, nat_eq, string_eq, ◌==◌, ==_false, contains, Map, map, f_string, decimal, Bool-cases,
  ==_refl,
}
use b8mon.Probes.{
  unknown, last_result, ProbeState, is_stale, is_overdue, host_status, problem_of, problems_for,
  watched_by,
}

abbrev pub problem_keys : List ProbeState → Map ℕ ℕ → ℕ → List String
problem_keys probes host_counts now = map (λ p. p.key) (problems_for probes host_counts now)

abbrev pub key_of : ProbeState → String
key_of p = f_string ("probe:" ∷ decimal p.probe_id ∷ [])

abbrev pub IsAmong : ProbeState → List ProbeState → Type 0
IsAmong p [] = ⊥
IsAmong p (q ∷ qs) = (p ≡ q) ⊎ IsAmong p qs

or_right : (a b : Bool) → b ≡ true → (a || b) ≡ true
or_right a b h = ground arith

-- one round of the loop, whatever the rest is
problem_keys-rest :
    (q : ProbeState) (qs : List ProbeState) (host_counts : Map ℕ ℕ) (now : ℕ) (k : String)
    → contains k (problem_keys qs host_counts now) ≡ true
    → contains k (problem_keys (q ∷ qs) host_counts now) ≡ true
unfolding problems_for
problem_keys-rest q qs host_counts now k h = elim (Bool-cases (watched_by host_counts q == 0)) [
  | inl e ↦ rw (e, problems_for) h
  | inr e ↦ elim (Bool-cases (is_stale q now)) [
    | inl s ↦ rw (e, s, problems_for) (or_right _ _ h)
    | inr s ↦ rw (e, s, problems_for) h
  ]
]

problem_keys-stale :
    (p : ProbeState) (probes : List ProbeState) (host_counts : Map ℕ ℕ) (now : ℕ)
    → IsAmong p probes
    → watched_by host_counts p ≢ 0
    → is_stale p now ≡ true
    → contains (key_of p) (problem_keys probes host_counts now) ≡ true
unfolding problems_for problem_of
problem_keys-stale p [] host_counts now m w s = elim m [ ]
problem_keys-stale p (q ∷ qs) host_counts now (inl e) w s =
    rw (← e, ==_false {A = ℕ} _ 0 w, s, problems_for, problem_of, ==_refl {A = String} (key_of p))
      refl
problem_keys-stale p (q ∷ qs) host_counts now (inr m) w s =
    problem_keys-rest q qs host_counts now (key_of p)
      (problem_keys-stale p qs host_counts now m w s)

stale_of_unknown :
    (p : ProbeState) (b : Bool) (age : Option ℕ) (now : ℕ)
    → is_overdue age p.interval_seconds ≡ false
    → host_status (some b) age (some p) now ≡ unknown
    → is_stale p now ≡ true
unfolding host_status
stale_of_unknown p b age now o u = elim (Bool-cases (is_stale p now)) [
  | inl s ↦ s
  | inr s ↦ known b (rw (s, o) at u)
]
  where
    known : (b : Bool) {A : Type 0} → last_result (some b) ≡ unknown → A
    known true u = cc u
    known false u = cc u

-- When a host with a result that is not overdue is unknown, its probe is reported as a problem, as
-- long as the probe is among those examined and watches at least one host.
pub unknown-reported :
    (p : ProbeState) (probes : List ProbeState) (host_counts : Map ℕ ℕ) (b : Bool) (age : Option ℕ)
    (now : ℕ)
    → IsAmong p probes
    → watched_by host_counts p ≢ 0
    → is_overdue age p.interval_seconds ≡ false
    → host_status (some b) age (some p) now ≡ unknown
    → contains (key_of p) (problem_keys probes host_counts now) ≡ true
unknown-reported p probes host_counts b age now m w o u =
    problem_keys-stale p probes host_counts now m w (stale_of_unknown p b age now o u)
