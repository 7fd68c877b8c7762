-- ===== src/Scheduler/Election.antt =====
-- An instance whose last renewal is younger than the lease's time to live is the lease's holder, so
-- no two such instances run jobs at once.
use b8mon.Base.{
  ℕ, ◌+◌, ◌≤◌, ◌<◌, String, ◌≡◌, refl, Bool, true, false, none, some, arith, string_eq, ◌==◌,
  eq_iff, ==_refl, if◌then◌else◌, Bool-cases, inl, inr,
}
use mathlib.Core.Path.{subst}
use b8mon.SharedState.Lease.{Lease, acquire_script}
use b8mon.Scheduler.{
  Instance, apply_leadership, stop_scheduler, Cluster, update, leader_ttl, leadership_round,
  Outcome, answered, failed, lost, Step, tick, round, stop, Reach, start, next,
}

-- the lease is `i`'s until `t` at least
abbrev pub HeldUntil : String → ℕ → Lease → Type 0
HeldUntil i t none = ⊥
HeldUntil i t (some (holder, expiry)) = (holder ≡ i) × (t ≤ expiry)

-- `x` runs jobs, and its last renewal is younger than the time to live.
abbrev pub IsCurrent : ℕ → Instance → ℕ → Type 0
IsCurrent now x renewed = (x.running ≡ true) × (now < renewed + leader_ttl)

pub record IsElected (i : String) (now : ℕ) (lease : Lease) (x : Instance) (renewed : ℕ)
    : Type 0 where
  pub past : renewed ≤ now
  pub flagged : x.running ≡ true → x.is_leader ≡ true
  pub held : IsCurrent now x renewed → HeldUntil i (renewed + leader_ttl) lease

abbrev pub Elects : Cluster → Type 0
Elects c = (i : String) → IsElected i c.now c.lease (c.instances i) (c.renewed i)

acquire-HeldUntil :
    (i j : String) (t now : ℕ) (l : Lease)
    → now < t
    → t ≤ now + leader_ttl
    → HeldUntil i t l
    → HeldUntil i t (acquire_script j leader_ttl now l).1
unfolding acquire_script
acquire-HeldUntil i j t now none lt le held = elim held [ ]
acquire-HeldUntil i j t now (some (h, e)) lt le held = ground (arith, eq_iff h j)

acquire-own :
    (i : String) (now : ℕ) (l : Lease)
    → (acquire_script i leader_ttl now l).0 ≡ true
    → HeldUntil i (now + leader_ttl) (acquire_script i leader_ttl now l).1
unfolding acquire_script
acquire-own i now none h = (refl, omega arith)
acquire-own i now (some (x, e)) h = ground (arith, eq_iff x i)

-- what an answer does to the flag and to the scheduler
apply_leadership-flag :
    (b : Bool) (x : Instance)
    → (x.running ≡ true → x.is_leader ≡ true)
    → (apply_leadership b x).running ≡ true
    → (b ≡ true) × ((apply_leadership b x).is_leader ≡ true)
unfolding apply_leadership
apply_leadership-flag b x h = ground arith

module _ (i : String) (now : ℕ) (lease : Lease) (x : Instance) (renewed : ℕ) where
  -- An instance whose own script ran, and what it is told.
  own_round :
      (b : Bool)
      → (acquire_script i leader_ttl now lease).0 ≡ b
      → IsElected i now lease x renewed
      → IsElected i now
          (acquire_script i leader_ttl now lease).1
          (apply_leadership b x)
          (if b then now else renewed)
  own_round true e h = record {
    past = omega arith;
    flagged = λ run. (apply_leadership-flag true x h.flagged run).1;
    held = λ cur. acquire-own i now lease e;
  }
  own_round false e h = record {
    past = h.past;
    flagged = λ run. (apply_leadership-flag false x h.flagged run).1;
    held = λ cur. cc ((apply_leadership-flag false x h.flagged cur.0).0);
  }

  -- The script of any instance, and an instance that is told nothing.
  other_round :
      (j : String)
      → IsElected i now lease x renewed
      → IsElected i now (acquire_script j leader_ttl now lease).1 x renewed
  other_round j h = record {
    past = h.past;
    flagged = h.flagged;
    held = λ cur.
        acquire-HeldUntil i j (renewed + leader_ttl) now lease cur.1 (omega (arith, h.past))
          (h.held cur);
  }

renewed-ne :
    (b : Bool) (f : String → ℕ) (i j : String) (t : ℕ)
    → (j == i) ≡ false
    → (if b then update f j t else f) i ≡ f i
renewed-ne true f i j t ne = rw ne
renewed-ne false f i j t ne = refl

renewed_self :
    (b : Bool) (f : String → ℕ) (i : String) (t : ℕ)
    → (if b then update f i t else f) i ≡ (if b then t else f i)
renewed_self true f i t = rw (==_refl {A = String} i)
renewed_self false f i t = refl

own-IsElected :
    (c : Cluster) (i : String)
    → IsElected i c.now c.lease (c.instances i) (c.renewed i)
    → let d = leadership_round i answered c in
      IsElected i d.now d.lease (d.instances i) (d.renewed i)
unfolding leadership_round
own-IsElected c i h =
    let b = (acquire_script i leader_ttl c.now c.lease).0 in
    rw (==_refl {A = String} i, renewed_self b c.renewed i c.now)
      (own_round i c.now c.lease (c.instances i) (c.renewed i) b refl h)

round-Elects : (c : Cluster) (j : String) (o : Outcome) → Elects c → Elects (leadership_round j o c)
unfolding leadership_round
round-Elects c j failed h i = h i
round-Elects c j lost h i = other_round i c.now c.lease (c.instances i) (c.renewed i) j (h i)
round-Elects c j answered h i = elim (Bool-cases (j == i)) [
  | inl e ↦
      let d = leadership_round j answered c in
      subst (λ k. IsElected k d.now d.lease (d.instances k) (d.renewed k)) ((eq_iff j i).0 e)
        (own-IsElected c j (h j))
  | inr ne ↦
      rw (ne, renewed-ne (acquire_script j leader_ttl c.now c.lease).0 c.renewed i j c.now ne)
        (other_round i c.now c.lease (c.instances i) (c.renewed i) j (h i))
]

Step-Elects : {c d : Cluster} → Step c d → Elects c → Elects d
unfolding stop_scheduler
Step-Elects (tick c later le) h i = record {
  past = omega (arith, (h i).past);
  flagged = (h i).flagged;
  held = λ cur. (h i).held (cur.0, omega arith);
}
Step-Elects (round c j o) h i = round-Elects c j o h i
Step-Elects (stop c j) h i = elim (Bool-cases (j == i)) [
  | inl e ↦ rw e (record { past = (h i).past; flagged = stopped j; held = λ cur. stopped j cur.0 })
  | inr ne ↦ rw ne (h i)
]
  where
    stopped : {A : Type 0} (j : String) → (stop_scheduler (c.instances j)).running ≡ true → A
    stopped j run = cc run

pub Reach-Elects : {c : Cluster} → Reach c → Elects c
Reach-Elects (start c e) i =
    rw e (record { past = omega arith; flagged = λ run. cc run; held = λ cur. cc (cur.0) })
Reach-Elects (next r st) i = Step-Elects st (Reach-Elects r) i

HeldUntil-unique : (i j : String) (t u : ℕ) (l : Lease) → HeldUntil i t l → HeldUntil j u l → i ≡ j
HeldUntil-unique i j t u none a b = elim a [ ]
HeldUntil-unique i j t u (some (h, e)) a b = cc

-- In every reachable cluster, whatever calls of Redis failed, of the instances that run jobs at
-- most one has renewed its leadership within the lease's time to live.
pub one_current_leader :
    {c : Cluster} (i j : String)
    → Reach c
    → IsCurrent c.now (c.instances i) (c.renewed i)
    → IsCurrent c.now (c.instances j) (c.renewed j)
    → i ≡ j
one_current_leader {c} i j r a b =
    HeldUntil-unique i j (c.renewed i + leader_ttl) (c.renewed j + leader_ttl) c.lease
      ((Reach-Elects r i).held a) ((Reach-Elects r j).held b)
