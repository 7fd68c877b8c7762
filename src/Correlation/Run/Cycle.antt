-- ===== src/Correlation/Run/Cycle.antt =====
-- A cycle of the engine as a whole: what it keeps, and what it leaves for the next one.
use b8mon.Base.{ℕ, String, ◌≡◌, Bool, true, false, ◌&&◌, Option, List, [], ◌∷◌, is_some, string_eq}
use b8mon.Incidents.{Db}
use b8mon.Incidents.Dedup.{IsDeduplicated}
use b8mon.Correlation.{Engine, Detection, completed}
use b8mon.Correlation.Rules.{Worlds, at_start, at_auto_resolve, at_commit}
use b8mon.Predictor.{Python}
use b8mon.Correlation.Resolve.{auto_resolve}
use b8mon.Correlation.Run.{all_rules, run_rules}

-- Without two active incidents for one key, a step completes and there are still no two.
abbrev Succeeds : Bool × Engine → Type 0
Succeeds r = (r.0 ≡ completed) × IsDeduplicated r.1.db

-- An action raises if an answer is missing, and keeps the incidents apart in any case.
abbrev Ends : Bool → Bool × Engine → Type 0
Ends answered r = (answered ≡ false → r.0 ≡ false) × IsDeduplicated r.1.db

abbrev pub answered_all : List (Option Detection) → Bool
answered_all [] = true
answered_all (d ∷ ds) = is_some d && answered_all ds

abbrev pub answered_rules : List (List (Option Detection)) → Bool
answered_rules [] = true
answered_rules (ds ∷ rules) = answered_all ds && answered_rules rules

-- What a cycle leaves: either all its changes are committed, or the tables are as they were.
pub record Cycles (db : Db) (answered : Bool) (e' : Engine) : Type 0 where
  pub deduplicated : IsDeduplicated e'.db
  pub idle : e'.hits.current ≡ []
  pub rolled_back : answered ≡ false → e'.db ≡ db

-- Whether nothing of a cycle raises: the settings are read, every query by which a rule detects is
-- answered, the rules and `_auto_resolve` complete, and the transaction is committed.
abbrev pub answered_cycle : (String → String) → Python → Worlds → ℕ → ℕ → ℕ → Engine → Bool
answered_cycle digest py w min_failures min_cycles now e =
    let rules = all_rules py w min_failures in
    let (fine, e') = run_rules digest now min_cycles rules e in
    (w at_start).settings_fine
    && answered_rules rules
    && fine
    && is_some (auto_resolve digest (w at_auto_resolve) now e').0
    && (w at_commit).commits
