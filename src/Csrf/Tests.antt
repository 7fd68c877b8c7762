-- ===== src/Csrf/Tests.antt =====
-- A browser that comes without a cookie, and one whose cookie is not ASCII.
use b8mon.Base.{
  ◌≡◌, refl, ◌↔◌, true, false, String, none, some, arith, string_eq, ◌==◌, Bool-cases, inl, inr,
  if◌then◌else◌,
}
use b8mon.Csrf.{Request, is_ascii, submitted, generate_csrf_token, validate_csrf, set_csrf_cookie}
use b8mon.Csrf.Cut.{HasNoDot}
use b8mon.Csrf.Tokens.{
  IsSigned, validate_csrf_iff, generate_csrf_token-accepted, signature_not_ascii,
}

abbrev sign : String → String
sign t = if t == "c0ffee" then "5e11" else "77aa"

sign-HasNoDot : (t : String) → HasNoDot (sign t)
sign-HasNoDot t = elim (Bool-cases (t == "c0ffee")) [
  | inl e ↦ rw e (omega arith)
  | inr e ↦ rw e (omega arith)
]

sign-is_ascii : (t : String) → is_ascii (sign t) ≡ true
unfolding is_ascii
sign-is_ascii t = elim (Bool-cases (t == "c0ffee")) [ inl e ↦ rw e refl | inr e ↦ rw e refl ]

abbrev first_visit : Request
first_visit = record {
  csrf_token = none;
  csrf_new = false;
  cookie = none;
  header = none;
  scheme = "https";
  forwarded_proto = none;
}

abbrev post : Request
post = record first_visit { cookie = some "c0ffee.5e11"; header = some "c0ffee.5e11" }

abbrev forged : Request
forged = record first_visit { cookie = some "c0ffee.77aa"; header = some "c0ffee.77aa" }

abbrev umlaut : Request
umlaut = record first_visit { cookie = some "c0ffee.ü"; header = some "c0ffee.ü" }

forged_refused : validate_csrf sign forged none ≡ some false
unfolding validate_csrf is_ascii
forged_refused = refl

reused :
    generate_csrf_token sign "beef" post
    ≡ some (record post { csrf_token = some "c0ffee.5e11" }, "c0ffee.5e11")
unfolding generate_csrf_token is_ascii
reused = refl

validate_csrf_iff_example :
    (validate_csrf sign post none ≡ some true)
    ↔ (IsSigned sign "c0ffee.5e11" × (submitted post none ≡ "c0ffee.5e11"))
validate_csrf_iff_example =
    validate_csrf_iff sign sign-HasNoDot sign-is_ascii post none (unfold is_ascii in refl)

generate_csrf_token-accepted_example : validate_csrf sign post none ≡ some true
generate_csrf_token-accepted_example =
    generate_csrf_token-accepted sign sign-HasNoDot sign-is_ascii "c0ffee" first_visit post none
      refl refl (unfold is_ascii in refl) (unfold is_ascii in refl)
      (unfold generate_csrf_token set_csrf_cookie in refl)
      (unfold generate_csrf_token submitted in refl)

signature_not_ascii_example :
    (validate_csrf sign umlaut none ≡ none) × (generate_csrf_token sign "beef" umlaut ≡ none)
signature_not_ascii_example =
    signature_not_ascii sign "beef" "c0ffee" "ü" umlaut none (omega arith) (unfold is_ascii in refl)
      refl refl
