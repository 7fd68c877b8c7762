-- ===== src/IncidentApi/Silenced.antt =====
-- The feedback loop: what a label 'noise' does to the rule on learned precursors.
use b8mon.Base.{
  ℕ, String, ◌≡◌, ◌≢◌, refl, ap, ◌∙◌, Bool, true, false, ◌||◌, some, List, arith, nat_eq, string_eq,
  eq_iff, All, Option-cases, inl, inr, or_else, text_or, starts_with,
}
use b8mon.Incidents.{Incident, Db}
use b8mon.Predictor.{
  Python, Settings, add_to_blacklist, is_template_blacklisted, get_blacklist_regexes,
}
use b8mon.Predictor.Blacklist.{add_to_blacklist-blacklisted}
use b8mon.Correlation.Rules.{World}
use b8mon.Correlation.Rules.Precursors.{precursor_observed}
use b8mon.Correlation.Rules.Precursors.Silence.{IsSilent, precursor_observed-IsSilent}
use b8mon.IncidentApi.{get_incident, is_noisy_precursor, blacklist_template, incident_feedback}

-- A noisy precursor's template is added, if its expression compiles.
blacklist_template-noisy :
    (py : Python) (text verdict : String) (i : Incident) (settings : Settings)
    → is_noisy_precursor verdict i ≡ true
    → text_or i.precursor_template "" ≡ text
    → (blacklist_template py verdict i settings).1
      ≡ or_else (add_to_blacklist py (py.escape text) settings) settings
unfolding blacklist_template
blacklist_template-noisy py text verdict i settings noisy shown =
    elim (Option-cases
      (add_to_blacklist py (py.escape (text_or i.precursor_template "")) settings)) [
        | inl e ↦
            ground (arith, noisy, e, ap (λ t. add_to_blacklist py (py.escape t) settings) shown)
        | inr (s, e) ↦
            ground (arith, noisy, e, ap (λ t. add_to_blacklist py (py.escape t) settings) shown)
      ]

or_true : (b : Bool) → (b || true) ≡ true
or_true true = refl
or_true false = refl

module _ (py : Python) (loads-dumps : (l : List String) → py.loads (py.dumps l) ≡ some l)
    (dumps_full : (l : List String) → py.dumps l ≢ "") where
  -- The feedback loop closes: once an incident of a learned precursor is labelled 'noise', the rule
  -- detects its template no more, whatever is observed and learned later, as long as that label is
  -- the last change of the settings, the template is not empty, its escaped text is a regular
  -- expression that is not empty and matches it, and a list of texts is read back as it was stored.
  pub incident_feedback-IsSilent :
      (now : ℕ) (key_name : String) (id : ℕ) (text : String) (i : Incident) (db : Db)
      (settings : Settings) (w : World)
      → get_incident id db.incidents ≡ some i
      → starts_with i.rule "learned_precursor" ≡ true
      → i.precursor_template ≡ some text
      → text ≢ ""
      → py.escape text ≢ ""
      → py.compiles (py.escape text) ≡ true
      → py.search (py.escape text) text ≡ true
      → w.settings ≡ (incident_feedback py now key_name id (some "noise") (db, settings)).3
      → All (IsSilent text) (precursor_observed py w)
  unfolding incident_feedback is_noisy_precursor
  incident_feedback-IsSilent now key_name id text i db settings w g r t full e c m ws =
      let shown : text_or i.precursor_template "" ≡ text =
        ap (λ o. text_or o "") t ∙ ground (arith, full, eq_iff text "") in
      let noisy : is_noisy_precursor "noise" i ≡ true =
        ground (arith, r, shown, full, eq_iff text "") in
      let added = add_to_blacklist py (py.escape text) settings in
      let after : w.settings ≡ or_else added settings =
        ws ∙ ground (arith, g) ∙ blacklist_template-noisy py text "noise" i settings noisy shown in
      let black : is_template_blacklisted py text (get_blacklist_regexes py w.settings) ≡ true =
        ap (λ s. is_template_blacklisted py text (get_blacklist_regexes py s)) after
        ∙ add_to_blacklist-blacklisted py loads-dumps dumps_full (py.escape text) text settings e
            full
        ∙ rw (c, m) (or_true _) in
      precursor_observed-IsSilent text py w full black
