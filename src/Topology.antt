-- ===== src/Topology.antt =====
-- backend/services/topology.py, the walks: ancestors, descendants, and which of the hosts that are
-- offline only follow a failure above them. A topology is a dict from a host to its parent.
pub mod Ancestors
pub mod Partition
mod Tests
use b8mon.Base.{
  ℕ, zero, suc, ◌+◌, Bool, true, false, ◌&&◌, not, Option, none, some, List, [], ◌∷◌, ◌++◌, nat_eq,
  ◌==◌, if◌then◌else◌, length, keep, any, contains,
}

abbrev pub Topology : Type 0
Topology = List (ℕ × Option ℕ)

-- `topology[host]`, if the host is a key
abbrev pub entry : Topology → ℕ → Option (Option ℕ)
entry [] h = none
entry ((k, p) ∷ t) h = if k == h then some p else entry t h

-- the parent, if there is one
abbrev pub parent : Topology → ℕ → Option ℕ
parent t h = elim (entry t h) [ none ↦ none | some p ↦ p ]

-- The loop of `get_ancestors` from `current`, with the parents seen so far; every round that goes
-- on has seen one more of the topology's parents, so one round more than it has keys is enough.
pub climb : Topology → ℕ → List ℕ → ℕ → List ℕ
climb t zero seen current = []
climb t (suc fuel) seen current = elim (parent t current) [
  | none ↦ []
  | some p ↦ elim (contains p seen) [ true ↦ [] | false ↦ p ∷ climb t fuel (p ∷ seen) p ]
]

pub get_ancestors : Topology → ℕ → List ℕ
unfolding climb
get_ancestors t h = climb t (suc (length t)) [] h

-- the loop over `topology.items()` for one host of the queue: the children that are new
abbrev pub new_children : Topology → ℕ → List ℕ → List ℕ
new_children [] current seen = []
new_children ((h, none) ∷ t) current seen = new_children t current seen
new_children ((h, some p) ∷ t) current seen =
    let here = h ∷ new_children t current (h ∷ seen) in
    let rest = new_children t current seen in
    if p == current && not (contains h seen) then here else rest

-- The loop of `get_descendants`; a key of the topology is queued once.
pub spread : Topology → ℕ → List ℕ → List ℕ → List ℕ
spread t zero queue seen = []
spread t (suc fuel) [] seen = []
spread t (suc fuel) (current ∷ queue) seen =
    let found = new_children t current seen in
    found ++ spread t fuel (queue ++ found) (found ++ seen)

pub get_descendants : Topology → ℕ → List ℕ
unfolding spread
get_descendants t h = spread t (suc (suc (length t))) (h ∷ []) (h ∷ [])

-- `any(a in offline_host_ids for a in ancestors)`
pub is_cascaded : List ℕ → Topology → ℕ → Bool
unfolding get_ancestors
is_cascaded offline t h = any (λ a. contains a offline) (get_ancestors t h)

-- the primary failures and those that follow from one above
pub filter_upstream_failures : List ℕ → Topology → List ℕ × List ℕ
unfolding is_cascaded
filter_upstream_failures offline t =
    (keep (λ h. not (is_cascaded offline t h)) offline, keep (is_cascaded offline t) offline)
