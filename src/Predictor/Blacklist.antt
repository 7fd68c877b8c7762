-- ===== src/Predictor/Blacklist.antt =====
-- What a new pattern changes, and that a second time it changes nothing.
use b8mon.Base.{
  ◌≡◌, refl, sym, ap, ◌∙◌, ◌≢◌, true, String, Bool, Bool-cases, inl, inr, ◌||◌, some, List, [], ◌∷◌,
  ◌++◌, keep, any, contains, string_eq, ◌==◌, or_else, ◌&&◌, not, if◌then◌else◌, assign, arith,
  eq_iff, keep-append,
}
use b8mon.Predictor.{
  Python, Settings, patterns, get_blacklist_regexes, add_to_blacklist, is_template_blacklisted,
}

module _ {ℓ} {A : Type ℓ} (p : A → Bool) where
  any-append : (xs ys : List A) → any p (xs ++ ys) ≡ (any p xs || any p ys)
  any-append [] ys = refl
  any-append (x ∷ xs) ys = ground (arith, any-append xs ys)

contains-concat : (a : String) (l : List String) → contains a (l ++ a ∷ []) ≡ true
contains-concat a [] = ground (arith, eq_iff a a)
contains-concat a (x ∷ l) = ground (arith, contains-concat a l)

module _ (py : Python) where
  -- a pattern of the list that compiles and matches is one of the expressions that do
  any-keep_of_contains :
      (pattern text : String) (ps : List String)
      → contains pattern ps ≡ true
      → py.compiles pattern ≡ true
      → py.search pattern text ≡ true
      → any (λ rx. py.search rx text) (keep py.compiles ps) ≡ true
  any-keep_of_contains pattern text [] h c m = h
  any-keep_of_contains pattern text (p ∷ ps) h c m =
      ground (arith, eq_iff pattern p, any-keep_of_contains pattern text ps)

  module _ (loads-dumps : (l : List String) → py.loads (py.dumps l) ≡ some l)
      (dumps_full : (l : List String) → py.dumps l ≢ "") where
    patterns-assign :
        (l : List String) (settings : Settings)
        → patterns py (assign "predictor_template_blacklist" (py.dumps l) settings) ≡ l
    unfolding patterns
    patterns-assign l settings = ground (arith, loads-dumps l, dumps_full l, eq_iff (py.dumps l) "")

    matches-append :
        (pattern text : String) (ps : List String)
        → any (λ rx. py.search rx text) (keep py.compiles (ps ++ pattern ∷ [])) ≡ (
            any (λ rx. py.search rx text) (keep py.compiles ps)
            || py.compiles pattern && py.search pattern text)
    matches-append pattern text ps =
        ap (any (λ rx. py.search rx text)) (keep-append py.compiles ps (pattern ∷ []))
        ∙ any-append (λ rx. py.search rx text) (keep py.compiles ps)
            (keep py.compiles (pattern ∷ []))
        ∙ ground arith

    -- the list after a pattern was added
    patterns-add_to_blacklist :
        (pattern : String) (settings : Settings)
        → pattern ≢ ""
        → patterns py (or_else (add_to_blacklist py pattern settings) settings) ≡ (
            if py.compiles pattern && not (contains pattern (patterns py settings))
            then patterns py settings ++ pattern ∷ []
            else patterns py settings)
    unfolding add_to_blacklist
    patterns-add_to_blacklist pattern settings np =
        ground (
          arith,
          eq_iff pattern "",
          patterns-assign (patterns py settings ++ pattern ∷ []) settings,
        )

    -- After a pattern is added, a template is blacklisted exactly when it was before, or the pattern
    -- compiles and matches it, whether or not the list had the pattern already.
    pub add_to_blacklist-blacklisted :
        (pattern text : String) (settings : Settings)
        → pattern ≢ ""
        → text ≢ ""
        → is_template_blacklisted py text
            (get_blacklist_regexes py (or_else (add_to_blacklist py pattern settings) settings))
          ≡ (is_template_blacklisted py text (get_blacklist_regexes py settings)
              || py.compiles pattern && py.search pattern text)
    unfolding get_blacklist_regexes is_template_blacklisted
    add_to_blacklist-blacklisted pattern text settings np nt =
        let ps = patterns py settings in
        rw (patterns-add_to_blacklist pattern settings np) (
          ground (
            arith,
            eq_iff text "",
            matches-append pattern text ps,
            any-keep_of_contains pattern text ps,
          ))

    known :
        (pattern : String) (settings : Settings)
        → contains pattern (patterns py settings) ≡ true
        → py.compiles pattern ≡ true
        → add_to_blacklist py pattern settings ≡ some settings
    unfolding add_to_blacklist
    known pattern settings h good = ground (arith, h, good)

    -- Adding a pattern again changes nothing, not even a list that is malformed.
    pub add_to_blacklist_idem :
        (pattern : String) (settings settings' : Settings)
        → add_to_blacklist py pattern settings ≡ some settings'
        → add_to_blacklist py pattern settings' ≡ some settings'
    unfolding add_to_blacklist
    add_to_blacklist_idem pattern settings settings' h = elim (Bool-cases (pattern == "")) [
      | inl empty ↦ rw empty
      | inr full ↦ elim (Bool-cases (py.compiles pattern)) [
        | inr bad ↦ ground (arith, h, full, bad)
        | inl good ↦ elim (Bool-cases (contains pattern (patterns py settings))) [
          | inl old ↦
              let e : settings ≡ settings' = ground (arith, h, full, good, old) in
              known pattern settings' (ap (λ s. contains pattern (patterns py s)) (sym e) ∙ old)
                good
          | inr new ↦
              let l = patterns py settings ++ pattern ∷ [] in
              let e : assign "predictor_template_blacklist" (py.dumps l) settings ≡ settings' =
                ground (arith, h, full, good, new) in
              known pattern settings'
                (ap (λ s. contains pattern (patterns py s)) (sym e)
                  ∙ ap (contains pattern) (patterns-assign l settings)
                  ∙ contains-concat pattern (patterns py settings))
                good
        ]
      ]
    ]
