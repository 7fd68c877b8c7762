-- ===== src/Correlation/Resolve/Over.antt =====
-- When an incident is over, and that the tests of `_auto_resolve` find that.
use b8mon.Base.{
  ℕ, ◌+◌, String, ◌≡◌, eq_iff, refl, sym, ap, Bool, true, false, not, ◌&&◌, ◌||◌, some, List, [],
  ◌∷◌, inl, inr, ◌⊎◌, Bool-cases, Option-cases, arith, ltb, leb, nat_eq, string_eq, ◌==◌,
  if◌then◌else◌, length, keep, any, or_else, starts_with,
}
use b8mon.Incidents.{Incident}
use b8mon.Correlation.Rules.{Host, World}
use b8mon.Correlation.Resolve.{
  is_timed, is_about, has_hash, still_logs, Verdict, stays, ends, fails, verdict, should_resolve,
}

-- the rules on log messages and predictions, and those that users write
abbrev pub is_of_messages : String → Bool
is_of_messages rule =
    rule == "syslog_spike"
    || rule == "log_anomaly"
    || rule == "fleet_wide_issue"
    || rule == "severity_trend"
    || rule == "content_anomaly"
    || starts_with rule "learned_precursor"
    || starts_with rule "alert_rule_"

some-inj : {a b : Bool} → some a ≡ some b → a ≡ b
some-inj {a} {b} e = ap (λ o. or_else o false) e

module _ (digest : String → String) (w : World) (now : ℕ) (offline : List Host) where
  abbrev pub logs_errors : Host → Bool
  logs_errors h = ltb 0 (or_else (w.host_errors h.id) 0)

  abbrev pub has_port_error : Host → Bool
  has_port_error h = h.enabled && h.port_error

  -- what an incident that names hosts reports is still so
  abbrev pub holds_on : Incident → Bool
  holds_on i =
      (i.rule == "host_down_syslog" && any (λ h. is_about digest i h && logs_errors h) offline)
      || (i.rule == "multi_host_down" && leb 3 (length offline))
      || (i.rule == "integration_host" && any (is_about digest i) offline)
      || (i.rule == "port_error"
          && any (λ h. has_port_error h && is_about digest i h) (or_else w.hosts []))

  abbrev pub is_over : Incident → Bool
  is_over i =
      if is_of_messages i.rule
      then ltb (i.updated_at + 600) now
      else not (i.rule == "self_check") && has_hash i.host_ids_hash && not (holds_on i)

  still_logs-any :
      (i : Incident) (hs : List Host) (b : Bool)
      → still_logs digest w i hs ≡ some b
      → any (λ h. is_about digest i h && logs_errors h) hs ≡ b
  unfolding still_logs
  still_logs-any i [] b e = some-inj e
  still_logs-any i (h ∷ hs) b e = elim (Bool-cases (is_about digest i h)) [
    | inr n ↦ rw n (still_logs-any i hs b (rw n at e))
    | inl y ↦ elim (Option-cases (w.host_errors h.id)) [
      | inl broken ↦ cc (rw (y, broken) at e)
      | inr (count, read) ↦ elim (Bool-cases (ltb 0 count)) [
        | inl many ↦ rw (y, read, many) (some-inj (rw (y, read, many) at e))
        | inr few ↦ rw (y, read, few) (still_logs-any i hs b (rw (y, read, few) at e))
      ]
    ]
  ]

  any-keep : (p q : Host → Bool) (hs : List Host) → any q (keep p hs) ≡ any (λ h. p h && q h) hs
  any-keep p q [] = refl
  any-keep p q (h ∷ hs) = ground (arith, any-keep p q hs)

  is_timed_lem : (rule : String) → is_timed rule ≡ is_of_messages rule
  unfolding is_timed
  is_timed_lem rule = ground arith

  -- what `should_resolve` says unless it raises
  should_resolve-holds_on :
      (i : Incident) (b : Bool) → should_resolve digest w offline i ≡ some b → b ≡ not (holds_on i)
  unfolding should_resolve
  should_resolve-holds_on i b e = elim (Bool-cases (i.rule == "host_down_syslog")) [
    | inl y ↦
        let p = (eq_iff i.rule "host_down_syslog").0 y in
        elim (Option-cases (still_logs digest w i offline)) [
          | inl broken ↦ cc (rw (p, broken) at e)
          | inr (c, read) ↦
              rw (p, still_logs-any i offline c read) (ground (arith, some-inj (rw (p, read) at e)))
        ]
    | inr n ↦ elim (Bool-cases (i.rule == "multi_host_down")) [
      | inl y ↦
          let p = (eq_iff i.rule "multi_host_down").0 y in
          rw p (ground (arith, some-inj (rw p at e)))
      | inr n2 ↦ elim (Bool-cases (i.rule == "integration_host")) [
        | inl y ↦
            let p = (eq_iff i.rule "integration_host").0 y in
            rw p (ground (arith, some-inj (rw p at e)))
        | inr n3 ↦ elim (Bool-cases (i.rule == "port_error")) [
          | inl y ↦
              let p = (eq_iff i.rule "port_error").0 y in
              elim (Option-cases w.hosts) [
                | inl broken ↦ cc (rw (p, broken) at e)
                | inr (hosts, read) ↦
                    let found = any-keep has_port_error (is_about digest i) hosts in
                    rw (p, read, ← found) (ground (arith, some-inj (rw (p, read) at e)))
              ]
          | inr n4 ↦ rw (n, n2, n3, n4) (ground (arith, some-inj (rw (n, n2, n3, n4) at e)))
        ]
      ]
    ]
  ]

  -- one outcome of the tests
  abbrev pub Decides : Incident → Verdict → Bool → Type 0
  Decides i v b = (verdict digest w now offline i ≡ v) × (is_over i ≡ b)

  -- Unless its tests raise, an incident ends exactly if it is over.
  pub verdict-cases :
      (i : Incident)
      → (verdict digest w now offline i ≡ fails)
        ⊎ Decides i stays false
        ⊎ ((words : String) × (verdict digest w now offline i ≡ ends words) × (is_over i ≡ true))
  unfolding verdict
  verdict-cases i = elim (Bool-cases (is_of_messages i.rule)) [
    | inl y ↦ elim (Bool-cases (ltb (i.updated_at + 600) now)) [
      | inl idle ↦
          let (v, o) : Decides i (ends "Auto-resolved: error rate returned to normal") true =
            rw (is_timed_lem i.rule, y, idle) (refl, refl) in
          inr (inr (_, v, o))
      | inr young ↦ inr (inl (rw (is_timed_lem i.rule, y, young) (refl, refl)))
    ]
    | inr n ↦ elim (Bool-cases (i.rule == "self_check")) [
      | inl y ↦ inr (inl (rw (is_timed_lem i.rule, n, y) (refl, refl)))
      | inr n2 ↦ elim (Bool-cases (has_hash i.host_ids_hash)) [
        | inr none_named ↦ inr (inl (rw (is_timed_lem i.rule, n, n2, none_named) (refl, refl)))
        | inl named ↦ elim (Option-cases (should_resolve digest w offline i)) [
          | inl broken ↦ inl (rw (is_timed_lem i.rule, n, n2, named, broken) refl)
          | inr (true, says) ↦
              let h = should_resolve-holds_on i true says in
              let (v, o) : Decides i (ends "Auto-resolved: affected hosts are back online") true =
                rw (is_timed_lem i.rule, n, n2, named, says) (refl, sym h) in
              inr (inr (_, v, o))
          | inr (false, says) ↦
              let h = should_resolve-holds_on i false says in
              inr (inl (rw (is_timed_lem i.rule, n, n2, named, says) (refl, sym h)))
        ]
      ]
    ]
  ]
