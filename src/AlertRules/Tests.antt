-- ===== src/AlertRules/Tests.antt =====
-- A rule on the first disk that has a temperature, over four cycles.
use b8mon.Base.{
  ℕ, suc, ◌+◌, ◌≡◌, refl, true, false, none, List, [], ◌∷◌, arith, length, split, no_entries,
}
use b8mon.AlertRules.{AlertRule, Reading, matched, unmatched, raised, Matches}
use b8mon.AlertRules.Values.{
  Json, text, array, object, number, item, done, field, end, Python, extract, extract_field, walk,
  index,
}
use b8mon.AlertRules.Firing.{Cycle, IsJustified, evaluate_rule-IsJustified}
use b8mon.AlertRules.Paths.{extract_field-fuel}

-- numbers are compared as equal or not, which is enough here
abbrev python : Python
python = record {
  Float = ℕ;
  int = λ part. none;
  str = λ v. "";
  num = λ v. 0;
  nonzero = λ n. true;
  less = λ a b. false;
  at_most = λ a b. true;
  search = λ pattern v. none;
}

abbrev disks : Json
disks = object (
    field "disks"
      (array (
        item (object (field "name" (text "sda") end))
          (item (object (field "temp" (number "41") end)) done)))
      end)

first_temperature : extract_field python disks "disks.*.temp" ≡ number "41"
unfolding extract_field extract walk index split
first_temperature = refl

extract_field-fuel_example :
    extract python (suc (length (split 46 "disks.*.temp") + 4)) (split 46 "disks.*.temp") disks
    ≡ extract_field python disks "disks.*.temp"
extract_field-fuel_example = extract_field-fuel python disks "disks.*.temp" 4

abbrev rule : AlertRule
rule = record {
  id = 3;
  field_path = "disks.*.temp";
  operator = "gt";
  threshold = text "40";
  cooldown_minutes = 5;
  required_consecutive = 2;
  last_triggered_at = none;
}

abbrev at : ℕ → Reading → Cycle
at now reading = record { now = now; reading = reading; fires = true }

abbrev rounds : List Cycle
rounds = at 1 matched ∷ at 2 raised ∷ at 3 matched ∷ at 4 unmatched ∷ []

abbrev no_matches : Matches
no_matches = no_entries

evaluate_rule-IsJustified_example : IsJustified 0 rule no_matches rounds
evaluate_rule-IsJustified_example = evaluate_rule-IsJustified 0 rule no_matches rounds (omega arith)
