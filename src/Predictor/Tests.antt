-- ===== src/Predictor/Tests.antt =====
-- A blacklist that a pattern is added to.
use b8mon.Base.{◌≡◌, refl, none, some, nat_eq, string_eq, no_entries}
use b8mon.Predictor.{add_to_blacklist, get_min_confidence}
use b8mon.Predictor.Example.{python}

too_large : get_min_confidence python (λ key. some "2.5") ≡ 850000
unfolding get_min_confidence
too_large = refl

not_a_regex : add_to_blacklist python "(" no_entries ≡ none
unfolding add_to_blacklist
not_a_regex = refl
