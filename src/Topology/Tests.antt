-- ===== src/Topology/Tests.antt =====
-- A switch over a server over a guest, and two hosts that are each other's parents.
use b8mon.Base.{
  ℕ, suc, ◌+◌, ◌<◌, ◌≡◌, ◌≢◌, refl, true, none, some, [], ◌∷◌, arith, nat_eq, contains, length,
}
use b8mon.Topology.{Topology, parent, climb, get_ancestors, is_cascaded, filter_upstream_failures}
use b8mon.Topology.Ancestors.{get_ancestors_fuel}
use b8mon.Topology.Partition.{cascaded-root_cause}

abbrev site : Topology
site = (1, none) ∷ (2, some 1) ∷ (3, some 2) ∷ []

abbrev rank : ℕ → ℕ
rank h = h

falls : (h p : ℕ) → parent site h ≡ some p → rank p < rank h
falls h p e = ground arith

cascaded : contains 3 (filter_upstream_failures (1 ∷ 3 ∷ []) site).1 ≡ true
unfolding filter_upstream_failures is_cascaded get_ancestors climb
cascaded = refl

cascaded-root_cause_example :
    (a : ℕ) × (contains a (get_ancestors site 3) ≡ true)
    × (contains a (filter_upstream_failures (1 ∷ 3 ∷ []) site).0 ≡ true)
cascaded-root_cause_example = cascaded-root_cause site rank falls (1 ∷ 3 ∷ []) 3 cascaded

get_ancestors_fuel_example : climb site (suc (length site) + 5) [] 3 ≡ get_ancestors site 3
get_ancestors_fuel_example = get_ancestors_fuel site 3 5

abbrev ring : Topology
ring = (1, some 2) ∷ (2, some 1) ∷ []

one≢two : ◌≢◌ {A = ℕ} 1 2
one≢two p = omega arith
