-- ===== src/Correlation/Rules/Precursors.antt =====
-- `_rule_precursor_observed`: templates that were learned to precede an event, when they are seen.
pub mod Silence
use Prim.Native.Char.{code}
use b8mon.Base.{
  ℕ, String, Bool, true, false, not, ◌&&◌, ◌||◌, Option, none, some, List, [], ◌∷◌, ◌++◌, map, keep,
  leb, nat_eq, string_eq, ◌==◌, if◌then◌else◌, or_else, is_empty, text_or, f_string, join, decimal,
  prefix, split, lower, upper,
}
use b8mon.Predictor.{
  Python, get_min_confidence, get_min_occurrences, get_blacklist_regexes, is_template_blacklisted,
}
use b8mon.Correlation.{Detection}
use b8mon.Correlation.Rules.{for_each, World, Precursor}

is_letter : ℕ → Bool
is_letter c = leb 65 c && leb c 90 || leb 97 c && leb c 122

-- `text.title()`, on ASCII text: a letter is a capital unless it follows a letter
title_from : Bool → String → String
unfolding is_letter
title_from inside String.[] = ""
title_from inside (String.◌∷◌ c s) =
    let rest = title_from (is_letter (code c)) s in
    f_string ((if inside then lower (String.◌∷◌ c "") else upper (String.◌∷◌ c "")) ∷ rest ∷ [])

-- `event.replace("_", " ").title()`
pub event_label : String → String
unfolding title_from split
event_label event = title_from false (join " " (split 95 event))

-- what the query finds, and the index by hash without the blacklisted templates
pub candidates : Python → World → List Precursor → List Precursor
candidates py w precursors =
    keep
      (λ p.
        leb (get_min_confidence py w.settings) p.confidence
        && leb (get_min_occurrences py w.settings) p.occurrence_count
        && not (
            is_template_blacklisted py (text_or p.template "")
              (get_blacklist_regexes py w.settings)))
      precursors

precursor_rule : ℕ → String → String
precursor_rule id event =
    if id == 0 then f_string ("learned_precursor_" ∷ event ∷ []) else "learned_precursor"

precursor_detection : ℕ → Precursor → Option Detection
unfolding precursor_rule event_label
precursor_detection id p =
    let label = event_label p.precedes_event in
    let percent = decimal p.confidence_percent in
    let lead : String = elim p.lead_minutes [
      | none ↦ "unknown lead time"
      | some minutes ↦ f_string ("~" ∷ minutes ∷ "min lead time" ∷ [])
    ] in
    some (record {
      hit_rule = f_string ("precursor_" ∷ p.precedes_event ∷ "_" ∷ prefix 8 p.template_hash ∷ []);
      hit_hosts = id ∷ [];
      template = if text_or p.template "" == "" then none else p.template;
      named = true;
      finding = record {
        rule = precursor_rule id p.precedes_event;
        title = f_string ("Predicted: " ∷ label ∷ " (" ∷ percent ∷ "% confidence)" ∷ []);
        severity = "warning";
        host_ids = if id == 0 then [] else id ∷ [];
        event_type = "predicted_incident";
        summary = f_string (
            "Learned precursor template fired: \""
            ∷ prefix 80 (text_or p.template "")
            ∷ "\" — "
            ∷ label
            ∷ " typically follows in "
            ∷ lead
            ∷ " ("
            ∷ decimal p.occurrence_count
            ∷ " historical observations, "
            ∷ percent
            ∷ "% confidence)."
            ∷ []);
        detail = none;
      };
    })

row_detections : List Precursor → String × Option ℕ → List (Option Detection)
row_detections ps (hash, host_id) =
    if hash == ""
    then []
    else map (precursor_detection (or_else host_id 0)) (keep (λ p. p.template_hash == hash) ps)

observed_detections : List Precursor → List (String × Option ℕ) → List (Option Detection)
observed_detections ps [] = []
observed_detections ps (row ∷ rows) = row_detections ps row ++ observed_detections ps rows

-- The query of ClickHouse is the only one that ends the rule quietly when it raises.
pub precursor_observed : Python → World → List (Option Detection)
unfolding observed_detections row_detections precursor_detection candidates
precursor_observed py w = if not w.settings_fine then none ∷ [] else elim w.observed [
  | none ↦ []
  | some rows ↦
      if is_empty rows
      then []
      else for_each w.precursors (λ ps. observed_detections (candidates py w ps) rows)
]
