-- ===== src/Scheduler/SplitBrain.antt =====
-- The handler of `_leadership_loop` keeps an instance leading while its calls of Redis fail.
use b8mon.Base.{
  false, ltb, ℕ, ◌≤◌, String, ◌≡◌, ◌≢◌, sym, true, arith, string_eq, ==_refl, ==_false, refl, List,
  [], ◌∷◌,
}
use b8mon.SharedState.Lease.{acquire_script}
use b8mon.Scheduler.{
  Cluster, apply_leadership, leader_ttl, leadership_round, answered, failed, tick, round, initial,
  Reach, start, next,
}

abbrev pub won : String → Cluster
won i = leadership_round i answered initial

-- the instance's rounds at these times, in which its calls of Redis fail
abbrev pub failing : String → List ℕ → Cluster → Cluster
failing i [] c = c
failing i (t ∷ times) c = failing i times (leadership_round i failed (record c { now = t }))

-- the times do not go back, and the last of them is at least the end
abbrev pub Until : ℕ → ℕ → List ℕ → Type 0
Until end now [] = end ≤ now
Until end now (t ∷ times) = (now ≤ t) × Until end t times

-- What a failing call leaves of the cluster.
record IsUnchanged (c d : Cluster) : Type 0 where
  same_lease : d.lease ≡ c.lease
  same_instances : d.instances ≡ c.instances

failing-IsUnchanged :
    (i : String) (times : List ℕ) (c : Cluster) → IsUnchanged c (failing i times c)
unfolding leadership_round
failing-IsUnchanged i [] c = record { same_lease = refl; same_instances = refl }
failing-IsUnchanged i (t ∷ times) c =
    let rest = failing-IsUnchanged i times (leadership_round i failed (record c { now = t })) in
    record { same_lease = rest.same_lease; same_instances = rest.same_instances }

failing-end :
    (i : String) (end : ℕ) (times : List ℕ) (c : Cluster)
    → Until end c.now times
    → end ≤ (failing i times c).now
unfolding leadership_round
failing-end i end [] c u = u
failing-end i end (t ∷ times) c (o, u) =
    failing-end i end times (leadership_round i failed (record c { now = t })) u

failing-Reach :
    (i : String) (end : ℕ) (times : List ℕ) (c : Cluster)
    → Until end c.now times
    → Reach c
    → Reach (failing i times c)
unfolding leadership_round
failing-Reach i end [] c u r = r
failing-Reach i end (t ∷ times) c (o, u) r =
    failing-Reach i end times (leadership_round i failed (record c { now = t })) u
      (next (next r (tick c t o)) (round (record c { now = t }) i failed))

takes_over :
    (i j : String) (d : Cluster)
    → i ≢ j
    → leader_ttl ≤ d.now
    → IsUnchanged (won i) d
    → (((leadership_round j answered d).instances i).running ≡ true)
      × (((leadership_round j answered d).instances j).running ≡ true)
unfolding leadership_round acquire_script apply_leadership
takes_over i j d ne late u =
    let over : ltb d.now 30000 ≡ false = ground (arith, late) in
    let other = ==_false {A = String} j i (λ p. ne (sym p)) in
    rw (u.same_lease, over, u.same_instances)
      (
        rw (other, ==_refl {A = String} i),
        rw (==_refl {A = String} j, ==_false {A = String} i j ne),
      )

-- The lease does not keep a leader from leading beyond it: after an instance has become the leader, let
-- all its calls of Redis fail, at whatever times, until the lease is over, and let another instance
-- then ask for it. That is a reachable cluster, and both instances run jobs in it.
pub split_brain :
    (i j : String) (times : List ℕ)
    → i ≢ j
    → Until leader_ttl (won i).now times
    → let c = leadership_round j answered (failing i times (won i)) in
      Reach c × ((c.instances i).running ≡ true) × ((c.instances j).running ≡ true)
split_brain i j times ne u =
    let led = next (start initial refl) (round initial i answered) in
    let c = failing i times (won i) in
    let (first, second) =
      takes_over i j c ne (failing-end i leader_ttl times (won i) u)
        (failing-IsUnchanged i times (won i)) in
    (next (failing-Reach i leader_ttl times (won i) u led) (round c j answered), first, second)
