-- ===== src/Csrf.antt =====
-- backend/csrf.py: the token of the double-submit cookie. The HMAC and the random token are
-- arguments. `hmac.compare_digest` raises on a text that is not ASCII, which is the result `none`.
pub mod Cut
pub mod Tokens
mod Tests
use Prim.Native.Char.{code}
use b8mon.Base.{
  ℕ, String, Bool, true, false, ◌&&◌, ◌||◌, Option, none, some, [], ◌∷◌, ltb, nat_eq, string_eq,
  ◌==◌, if◌then◌else◌, f_string, text_or, Map,
}

pub record Request : Type 0 where
  -- `request.state._csrf_token` and `request.state._csrf_new`
  pub csrf_token : Option String
  pub csrf_new : Bool
  -- the cookie `ng_csrf` and the header `x-csrf-token`
  pub cookie : Option String
  pub header : Option String
  pub scheme : String
  pub forwarded_proto : Option String

pub record Cookie : Type 0 where
  pub value : String
  pub http_only : Bool
  pub secure : Bool
  pub max_age : ℕ

-- `text.rsplit(".", 1)`, nothing where the text has no dot
pub rsplit_dot : String → Option (String × String)
rsplit_dot String.[] = none
rsplit_dot (String.◌∷◌ c s) = elim (rsplit_dot s) [
  | some (before, after) ↦ some (String.◌∷◌ c before, after)
  | none ↦ if code c == 46 then some ("", s) else none
]

pub is_ascii : String → Bool
is_ascii String.[] = true
is_ascii (String.◌∷◌ c s) = ltb (code c) 128 && is_ascii s

unfoldable pub compare_digest : String → String → Option Bool
compare_digest a b = if is_ascii a && is_ascii b then some (a == b) else none

-- the header first, then the field `csrf_token` of the form
pub submitted : Request → Option (Map String String) → String
submitted r none = text_or r.header ""
submitted r (some form) =
    if text_or r.header "" == "" then text_or (form "csrf_token") "" else text_or r.header ""

pub check_submitted : Request → Option (Map String String) → Option Bool → Option Bool
unfolding submitted compare_digest
check_submitted r form none = none
check_submitted r form (some false) = some false
check_submitted r form (some true) =
    if submitted r form == ""
    then some false
    else compare_digest (submitted r form) (text_or r.cookie "")

module _ (sign : String → String) where
  pub new_token : String → Request → Request × String
  new_token random r =
      let signed = f_string (random ∷ "." ∷ sign random ∷ []) in
      (record r { csrf_token = some signed; csrf_new = true }, signed)

  pub keep_cookie : String → Request → Option Bool → Option (Request × String)
  unfolding new_token
  keep_cookie random r none = none
  keep_cookie random r (some false) = some (new_token random r)
  keep_cookie random r (some true) =
      some (record r { csrf_token = some (text_or r.cookie "") }, text_or r.cookie "")

  pub generate_csrf_token : String → Request → Option (Request × String)
  unfolding keep_cookie new_token rsplit_dot compare_digest
  generate_csrf_token random r =
      if text_or r.csrf_token "" == ""
      then elim (rsplit_dot (text_or r.cookie "")) [
        | none ↦ some (new_token random r)
        | some (token, sig) ↦ keep_cookie random r (compare_digest sig (sign token))
      ]
      else some (r, text_or r.csrf_token "")

  pub validate_csrf : Request → Option (Map String String) → Option Bool
  unfolding check_submitted rsplit_dot compare_digest
  validate_csrf r form = elim (rsplit_dot (text_or r.cookie "")) [
    | none ↦ some false
    | some (token, sig) ↦ check_submitted r form (compare_digest sig (sign token))
  ]

pub is_https : Request → Bool
is_https r = r.scheme == "https" || text_or r.forwarded_proto "" == "https"

-- the cookie that is set on the response, if one is
pub set_csrf_cookie : Request → Option Cookie
unfolding is_https
set_csrf_cookie r =
    if r.csrf_new
    then some (record {
      value = text_or r.csrf_token "";
      http_only = false;
      secure = is_https r;
      max_age = 2592000;
    })
    else none
