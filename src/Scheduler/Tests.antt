-- ===== src/Scheduler/Tests.antt =====
-- Two instances: one that wins the lease, and both that run.
use b8mon.Base.{ℕ, List, [], ◌∷◌, String, ◌≡◌, ◌≢◌, refl, true, arith, eq_iff}
use b8mon.Scheduler.{
  Cluster, apply_leadership, leadership_round, answered, initial, round, leader_ttl, Reach, start,
  next,
}
use b8mon.SharedState.Lease.{acquire_script}
use b8mon.Scheduler.Election.{IsCurrent, one_current_leader}
use b8mon.Scheduler.SplitBrain
use b8mon.Scheduler.SplitBrain.{failing, Until, split_brain}

abbrev won : Cluster
won = leadership_round "a" answered initial

won-Reach : Reach won
won-Reach = next (start initial refl) (round initial "a" answered)

won-IsCurrent : IsCurrent won.now (won.instances "a") (won.renewed "a")
unfolding leadership_round acquire_script apply_leadership
won-IsCurrent = (refl, omega arith)

one_current_leader_example : ◌≡◌ {A = String} "a" "a"
one_current_leader_example = one_current_leader "a" "a" won-Reach won-IsCurrent won-IsCurrent

a≢b : ◌≢◌ {A = String} "a" "b"
a≢b p = cc ((eq_iff "a" "b").1 p)

abbrev calls : List ℕ
calls = 10000 ∷ 20000 ∷ 30000 ∷ []

calls-Until : Until leader_ttl (SplitBrain.won "a").now calls
unfolding leadership_round
calls-Until = omega arith

split_brain_example :
    let c = leadership_round "b" answered (failing "a" calls (SplitBrain.won "a")) in
    Reach c × ((c.instances "a").running ≡ true) × ((c.instances "b").running ≡ true)
split_brain_example = split_brain "a" "b" calls a≢b calls-Until
