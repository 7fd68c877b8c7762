-- ===== src/Csrf/Tokens.antt =====
-- Which tokens are accepted, and that the token of a page is.
use Prim.Native.String.{◌++◌}
use text.Mathlib.TextLemmas.{cons-append, nil-append, append-nil}
use b8mon.Base.{
  ◌≡◌, refl, sym, ◌∙◌, ap, ◌↔◌, inl, inr, ◌⊎◌, ◌≢◌, true, false, Bool-cases, Option-cases, String,
  Option, none, some, nat_eq, string_eq, ◌==◌, ==_refl, ==_true, arith, text_or, Map, eq_iff,
}
use b8mon.Csrf.{
  Request, rsplit_dot, is_ascii, compare_digest, new_token, keep_cookie, generate_csrf_token,
  submitted, check_submitted, validate_csrf, set_csrf_cookie,
}
use b8mon.Csrf.Cut.{HasNoDot, dotted, dotted-ne-nil, rsplit_dot-dotted, rsplit_dot-some}

is_ascii-append : (s t : String) → is_ascii s ≡ true → is_ascii t ≡ true → is_ascii (s ++ t) ≡ true
unfolding is_ascii
is_ascii-append String.[] t h k = rw (nil-append t) k
is_ascii-append (String.◌∷◌ c s) t h k =
    rw (cons-append c s t) (ground (arith, is_ascii-append s t))

is_ascii-dotted :
    (token sig : String)
    → is_ascii token ≡ true
    → is_ascii sig ≡ true
    → is_ascii (dotted token sig) ≡ true
is_ascii-dotted token sig h k =
    is_ascii-append token ("." ++ (sig ++ "")) h
      (is_ascii-append "." (sig ++ "") (unfold is_ascii in refl) (rw (append-nil sig) k))

is_ascii-append_right : (s t : String) → is_ascii (s ++ t) ≡ true → is_ascii t ≡ true
unfolding is_ascii
is_ascii-append_right String.[] t h = rw (← nil-append t) h
is_ascii-append_right (String.◌∷◌ c s) t h =
    let k : is_ascii (String.◌∷◌ c (s ++ t)) ≡ true = sym (ap is_ascii (cons-append c s t)) ∙ h in
    ground (arith, k, is_ascii-append_right s t)

is_ascii-dotted_right :
    (token sig : String) → is_ascii (dotted token sig) ≡ true → is_ascii sig ≡ true
is_ascii-dotted_right token sig h =
    let k = is_ascii-append_right token ("." ++ (sig ++ "")) h in
    rw (← append-nil sig) (is_ascii-append_right "." (sig ++ "") k)

compare_digest_self : (a : String) → is_ascii a ≡ true → compare_digest a a ≡ some true
unfolding compare_digest
compare_digest_self a h = rw (h, ==_refl a)

compare_digest-true : (a b : String) → compare_digest a b ≡ some true → a ≡ b
unfolding compare_digest
compare_digest-true a b h = ground (arith, eq_iff a b)

compare_digest_raises : (a b : String) → is_ascii a ≡ false → compare_digest a b ≡ none
unfolding compare_digest
compare_digest_raises a b h = rw h

text_or_self : (t : String) → text_or (some t) "" ≡ t
text_or_self t = ground (arith, eq_iff t "")

-- What the browser holds after the response, and the token in its page. A request that raises has
-- neither.
abbrev pub kept_cookie : Request → Option (Request × String) → Option String
kept_cookie r none = r.cookie
kept_cookie r (some (r', t)) = elim (set_csrf_cookie r') [ none ↦ r.cookie | some c ↦ some c.value ]

abbrev pub shown : Option (Request × String) → String
shown none = ""
shown (some (r', t)) = t

module _ (sign : String → String) where
  -- the text is a token with the server's signature
  abbrev pub IsSigned : String → Type 0
  IsSigned text = (token : String) × (text ≡ dotted token (sign token))

  module _ (plain : (t : String) → HasNoDot (sign t))
      (ascii : (t : String) → is_ascii (sign t) ≡ true) where
    validate_csrf-signed :
        (r : Request) (form : Option (Map String String))
        → is_ascii (text_or r.cookie "") ≡ true
        → IsSigned (text_or r.cookie "")
        → submitted r form ≡ text_or r.cookie ""
        → validate_csrf sign r form ≡ some true
    unfolding validate_csrf check_submitted
    validate_csrf-signed r form h (token, e) same =
        let cut : rsplit_dot (text_or r.cookie "") ≡ some (token, sign token) =
          rw e (rsplit_dot-dotted token (sign token) (plain token)) in
        let full : text_or r.cookie "" ≢ "" = λ q. dotted-ne-nil token (sign token) (sym e ∙ q) in
        let signed = compare_digest_self (sign token) (ascii token) in
        let equal = compare_digest_self (text_or r.cookie "") h in
        ground (arith, cut, signed, equal, same, eq_iff (submitted r form) "")

    validate_csrf-true :
        (r : Request) (form : Option (Map String String))
        → validate_csrf sign r form ≡ some true
        → IsSigned (text_or r.cookie "") × (submitted r form ≡ text_or r.cookie "")
    unfolding validate_csrf check_submitted
    validate_csrf-true r form h = elim (Option-cases (rsplit_dot (text_or r.cookie ""))) [
      | inl e ↦ ground (arith, h)
      | inr ((token, sig), e) ↦
          let (spelt, _) = rsplit_dot-some (text_or r.cookie "") token sig e in
          let same : sig ≡ sign token = ground (arith, h, compare_digest-true sig (sign token)) in
          let equal : submitted r form ≡ text_or r.cookie "" =
            ground (arith, h, compare_digest-true (submitted r form) (text_or r.cookie "")) in
          ((token, rw (← same) spelt), equal)
    ]

    -- Over a cookie that is ASCII, a request is accepted exactly when the cookie is a token with the
    -- server's signature and the text that it submits is the cookie, as long as a signature is ASCII
    -- and has no dot.
    pub validate_csrf_iff :
        (r : Request) (form : Option (Map String String))
        → is_ascii (text_or r.cookie "") ≡ true
        → (validate_csrf sign r form ≡ some true)
          ↔ (IsSigned (text_or r.cookie "") × (submitted r form ≡ text_or r.cookie ""))
    validate_csrf_iff r form h =
        (validate_csrf-true r form, λ (signed, same). validate_csrf-signed r form h signed same)

    -- What a request that generates a token leaves: the new token, or its cookie as it was.
    generate_csrf_token-cases :
        (random : String) (r : Request)
        → r.csrf_token ≡ none
        → is_ascii (text_or r.cookie "") ≡ true
        → (generate_csrf_token sign random r ≡ some (new_token sign random r))
          ⊎ ((generate_csrf_token sign random r
                ≡ some (record r { csrf_token = some (text_or r.cookie "") }, text_or r.cookie ""))
              × IsSigned (text_or r.cookie ""))
    unfolding generate_csrf_token keep_cookie compare_digest
    generate_csrf_token-cases random r e h =
        let unset : (text_or r.csrf_token "" == "") ≡ true =
          ==_true (text_or r.csrf_token "") "" (ap (λ o. text_or o "") e) in
        elim (Option-cases (rsplit_dot (text_or r.cookie ""))) [
          | inl q ↦ inl (ground (arith, unset, q))
          | inr ((token, sig), q) ↦
              let (spelt, _) = rsplit_dot-some (text_or r.cookie "") token sig q in
              let a : is_ascii sig ≡ true = is_ascii-dotted_right token sig (rw (← spelt) h) in
              elim (Bool-cases (sig == sign token)) [
                | inl same ↦
                    let equal : sig ≡ sign token = (eq_iff sig (sign token)).0 same in
                    inr (ground (arith, unset, q, a, ascii token), (token, rw (← equal) spelt))
                | inr other ↦ inl (ground (arith, unset, q, a, ascii token))
              ]
        ]

    -- The round trip: a page that is built for a browser without a token of this request carries a
    -- token with which that browser's next request is accepted, whatever cookie it came with, as
    -- long as that cookie and the random token are ASCII, and a signature is ASCII and has no dot.
    pub generate_csrf_token-accepted :
        (random : String) (r later : Request) (form : Option (Map String String))
        → r.csrf_token ≡ none
        → r.csrf_new ≡ false
        → is_ascii random ≡ true
        → is_ascii (text_or r.cookie "") ≡ true
        → later.cookie ≡ kept_cookie r (generate_csrf_token sign random r)
        → submitted later form ≡ shown (generate_csrf_token sign random r)
        → validate_csrf sign later form ≡ some true
    unfolding set_csrf_cookie new_token
    generate_csrf_token-accepted random r later form e n a h c s =
        elim (generate_csrf_token-cases random r e h) [
          | inl g ↦
              let cookie : text_or later.cookie "" ≡ dotted random (sign random) =
                ap (λ o. text_or o "") (c ∙ ap (kept_cookie r) g)
                ∙ text_or_self (text_or (some (dotted random (sign random))) "")
                ∙ text_or_self (dotted random (sign random)) in
              validate_csrf-signed later form
                (rw cookie (is_ascii-dotted random (sign random) a (ascii random))) (random, cookie)
                (s ∙ ap shown g ∙ sym cookie)
          | inr (g, (token, spelt)) ↦
              let kept : kept_cookie r (generate_csrf_token sign random r) ≡ r.cookie =
                ap (kept_cookie r) g ∙ ground (arith, n) in
              let cookie : text_or later.cookie "" ≡ text_or r.cookie "" =
                ap (λ o. text_or o "") (c ∙ kept) in
              validate_csrf-signed later form (ap is_ascii cookie ∙ h) (token, cookie ∙ spelt)
                (s ∙ ap shown g ∙ sym cookie)
        ]

module _ (sign : String → String) where
  -- A cookie of which the part after its last dot is not ASCII makes both the check of a request
  -- and the making of a page's token raise, whatever the request submits.
  pub signature_not_ascii :
      (random token sig : String) (r : Request) (form : Option (Map String String))
      → HasNoDot sig
      → is_ascii sig ≡ false
      → r.cookie ≡ some (dotted token sig)
      → r.csrf_token ≡ none
      → (validate_csrf sign r form ≡ none) × (generate_csrf_token sign random r ≡ none)
  unfolding validate_csrf check_submitted generate_csrf_token keep_cookie
  signature_not_ascii random token sig r form d a c e =
      let cookie : text_or r.cookie "" ≡ dotted token sig =
        ap (λ o. text_or o "") c ∙ text_or_self (dotted token sig) in
      let cut : rsplit_dot (text_or r.cookie "") ≡ some (token, sig) =
        ap rsplit_dot cookie ∙ rsplit_dot-dotted token sig d in
      let unset : (text_or r.csrf_token "" == "") ≡ true =
        ==_true (text_or r.csrf_token "") "" (ap (λ o. text_or o "") e) in
      let raised = compare_digest_raises sig (sign token) a in
      (ground (arith, cut, raised), ground (arith, unset, cut, raised))
