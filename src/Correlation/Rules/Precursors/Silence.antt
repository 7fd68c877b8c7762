-- ===== src/Correlation/Rules/Precursors/Silence.antt =====
-- A blacklisted template is detected no more.
use b8mon.Base.{
  ℕ, String, ◌≡◌, ◌≢◌, ap, ◌∙◌, Bool, true, ◌&&◌, not, Option, none, some, List, [], ◌∷◌, ◌++◌, map,
  arith, nat_eq, string_eq, ◌==◌, eq_iff, keep, All, Option-cases, Bool-cases, inl, inr, or_else,
  is_empty, text_or, leb,
}
use b8mon.Predictor.{
  Python, is_template_blacklisted, get_blacklist_regexes, get_min_confidence, get_min_occurrences,
}
use b8mon.Correlation.{Detection}
use b8mon.Correlation.Rules.{World, Precursor}
use b8mon.Correlation.Rules.Precursors.{
  candidates, precursor_observed, precursor_detection, row_detections, observed_detections,
}

-- not a detection of this template
abbrev pub IsSilent : String → Option Detection → Type 0
IsSilent text none = Unit
IsSilent text (some d) = d.template ≢ some text

-- the row of another template
abbrev IsOther : String → Precursor → Type 0
IsOther text p = p.template ≢ some text

All-append :
    (P : Option Detection → Type 0) (xs ys : List (Option Detection))
    → All P xs
    → All P ys
    → All P (xs ++ ys)
All-append P [] ys a b = b
All-append P (x ∷ xs) ys a b = (a.0, All-append P xs ys a.1 b)

All-keep :
    (P : Precursor → Type 0) (p : Precursor → Bool) (xs : List Precursor)
    → All P xs
    → All P (keep p xs)
All-keep P p [] a = tt
All-keep P p (x ∷ xs) a = ground (arith, a, All-keep P p xs a.1)

module _ (text : String) where
  precursor_detection-IsSilent :
      (id : ℕ) (p : Precursor) → IsOther text p → IsSilent text (precursor_detection id p)
  unfolding precursor_detection
  precursor_detection-IsSilent id p other = ground (arith, other)

  detections-IsSilent :
      (id : ℕ) (ps : List Precursor)
      → All (IsOther text) ps
      → All (IsSilent text) (map (precursor_detection id) ps)
  detections-IsSilent id [] a = tt
  detections-IsSilent id (p ∷ ps) a =
      (precursor_detection-IsSilent id p a.0, detections-IsSilent id ps a.1)

  row_detections-IsSilent :
      (ps : List Precursor) (row : String × Option ℕ)
      → All (IsOther text) ps
      → All (IsSilent text) (row_detections ps row)
  unfolding row_detections
  row_detections-IsSilent ps (hash, host_id) a = elim (Bool-cases (hash == "")) [
    | inl e ↦ rw e tt
    | inr e ↦ rw e (
        detections-IsSilent (or_else host_id 0) (keep (λ p. p.template_hash == hash) ps)
          (All-keep (IsOther text) (λ p. p.template_hash == hash) ps a))
  ]

  observed_detections-IsSilent :
      (ps : List Precursor) (rows : List (String × Option ℕ))
      → All (IsOther text) ps
      → All (IsSilent text) (observed_detections ps rows)
  unfolding observed_detections
  observed_detections-IsSilent ps [] a = tt
  observed_detections-IsSilent ps (row ∷ rows) a =
      All-append (IsSilent text) (row_detections ps row) (observed_detections ps rows)
        (row_detections-IsSilent ps row a) (observed_detections-IsSilent ps rows a)

  module _ (py : Python) (w : World) where
    passed : Precursor → Bool
    passed p =
        leb (get_min_confidence py w.settings) p.confidence
        && leb (get_min_occurrences py w.settings) p.occurrence_count
        && not (
            is_template_blacklisted py (text_or p.template "")
              (get_blacklist_regexes py w.settings))

    passed-IsOther :
        (p : Precursor)
        → text ≢ ""
        → is_template_blacklisted py text (get_blacklist_regexes py w.settings) ≡ true
        → passed p ≡ true
        → IsOther text p
    unfolding passed
    passed-IsOther p full black h q =
        let regexes = get_blacklist_regexes py w.settings in
        let shown : text_or (some text) "" ≡ text = ground (arith, full, eq_iff text "") in
        let same : text_or p.template "" ≡ text = ap (λ o. text_or o "") q ∙ shown in
        let b : is_template_blacklisted py (text_or p.template "") regexes ≡ true =
          ap (λ t. is_template_blacklisted py t regexes) same ∙ black in
        ground (arith, h, b)

    keep-IsOther :
        (ps : List Precursor)
        → text ≢ ""
        → is_template_blacklisted py text (get_blacklist_regexes py w.settings) ≡ true
        → All (IsOther text) (keep passed ps)
    keep-IsOther [] full black = tt
    keep-IsOther (p ∷ ps) full black = elim (Bool-cases (passed p)) [
      | inl y ↦ rw y (passed-IsOther p full black y, keep-IsOther ps full black)
      | inr n ↦ rw n (keep-IsOther ps full black)
    ]

    pub precursor_observed-IsSilent :
        text ≢ ""
        → is_template_blacklisted py text (get_blacklist_regexes py w.settings) ≡ true
        → All (IsSilent text) (precursor_observed py w)
    unfolding precursor_observed candidates passed
    precursor_observed-IsSilent full black = elim (Bool-cases w.settings_fine) [
      | inr n ↦ rw (n, precursor_observed) (tt, tt)
      | inl y ↦ elim (Option-cases w.observed) [
        | inl e ↦ rw (y, e, precursor_observed) tt
        | inr (rows, e) ↦ elim (Bool-cases (is_empty rows)) [
          | inl none_seen ↦ rw (y, e, none_seen, precursor_observed) tt
          | inr seen ↦ elim (Option-cases w.precursors) [
            | inl broken ↦ rw (y, e, seen, broken, precursor_observed) (tt, tt)
            | inr (ps, learned) ↦
                rw (y, e, seen, learned, precursor_observed)
                  (observed_detections-IsSilent (candidates py w ps) rows
                    (keep-IsOther ps full black))
          ]
        ]
      ]
    ]
