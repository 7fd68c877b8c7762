-- ===== src/Login/Tests.antt =====
-- One account, its lockout and its session. A list of times is stored with its numbers in unary.
use Prim.Native.Char.{code}
use Prim.Native.String.{◌++◌ as ◌⧺◌}
use b8mon.Base.{
  ℕ, zero, suc, ◌≤◌, String, true, ◌≡◌, refl, ap, ◌∙◌, Option, none, some, List, [], ◌∷◌, map,
  arith, eq_iff, inl, inr, string_eq, ◌==◌, nat_eq, if◌then◌else◌, leb, length, no_entries,
  char_count, strip,
}
use b8mon.SharedState.{fresh}
use b8mon.SharedState.Redis.{Client, Shared, window_count, incr_window}
use b8mon.Ldap.{Reply}
use b8mon.Predictor.Example.{mark, encode, decode, decode-encode}
use b8mon.Login.{
  Python, User, Database, Request, Attempt, Response, recent, is_locked_out, is_secure,
  get_failed_attempts,
}
use b8mon.Login.Handler.{login, logins}
use b8mon.Login.Sessions.{Visit, visits, get_current_user}
use b8mon.Login.Lockout.{failures, Ordered, is_locked_out-failures}
use b8mon.Login.Apart.{seen_id, IsApart}
use b8mon.Login.Tokens.{login-lifetime}

unary : ℕ → String
unary zero = ""
unary (suc n) = String.◌∷◌ mark (unary n)

char_count-unary : (n : ℕ) → char_count (unary n) ≡ n
unfolding unary
char_count-unary zero = refl
char_count-unary (suc n) = ap suc (char_count-unary n)

abbrev counted : Option (List String) → Option (List ℕ)
counted none = none
counted (some l) = some (map char_count l)

abbrev load : String → Option (List ℕ)
load String.[] = none
load (String.◌∷◌ c s) = if code c == 91 then some [] else counted (decode s)

abbrev dump : List ℕ → String
dump l = String.◌∷◌ mark (encode (map unary l))

map-unary : (l : List ℕ) → map char_count (map unary l) ≡ l
map-unary [] = refl
map-unary (n ∷ l) = λ i. char_count-unary n i ∷ map-unary l i

load-dump : (l : List ℕ) → load (dump l) ≡ some l
load-dump l = ap counted (decode-encode (map unary l)) ∙ ap some (map-unary l)

abbrev python : Python
python = record {
  loads = load;
  dumps = dump;
  checkpw = λ password stored. password == stored;
  decrypt_value = λ value. none;
  hash_token = λ token. "h" ⧺ token;
  hash_token_legacy = λ token. "l" ⧺ token;
}

-- a server that forgets every count
abbrev redis : Client
redis = record {
  Server = Unit {0};
  incr_expire = λ key window s. (some 1, s);
  get = λ key s. (some none, s);
  eval_acquire = λ lock instance_id ttl now s. (none, s);
  eval_release = λ lock instance_id now s. (none, s);
}

abbrev shared : Shared redis
shared = record { memory = fresh; server = tt }

abbrev no_directory : b8mon.Ldap.Client
no_directory = record {
  bind = λ server ssl dn password. Reply.refused;
  start_tls = Reply.refused;
  search = λ base filter attributes. Reply.refused;
  escape_filter_chars = λ text. text;
  show = λ values. "";
}

abbrev ann : User
ann = record {
  id = 7;
  username = "ann";
  password_hash = "secret";
  role = "admin";
  auth_source = "local";
  display_name = "";
}

abbrev db : Database
db = record { settings = no_entries; users = ann ∷ []; next_user_id = 8; sessions = []; audit = [] }

abbrev request : Option String → Request
request cookie = record {
  client = none;
  current_user = none;
  cookie = cookie;
  scheme = "https";
  forwarded_proto = none;
}

abbrev attempt : String → ℕ → Attempt
attempt password t = record {
  request = request none;
  username = "ann";
  password = password;
  limit_counted = t;
  limit_recorded = t;
  throttle_counted = t;
  throttle_recorded = t;
  locked_at = t;
  failed_at = t;
  created_at = t;
  logged_at = t;
  token = "t";
  placeholder_hash = "";
}

abbrev guesses : List Attempt
guesses = attempt "a" 1 ∷ attempt "b" 2 ∷ attempt "c" 3 ∷ attempt "d" 4 ∷ attempt "e" 5 ∷ []

guesses-Ordered : Ordered 0 guesses
guesses-Ordered = (
  omega arith,
  omega arith,
  (
    omega arith,
    omega arith,
    (omega arith, omega arith, (omega arith, omega arith, (omega arith, omega arith, tt))),
  ),
)

none_failed : get_failed_attempts python db "ann" ≡ []
unfolding get_failed_attempts
none_failed = refl

is_locked_out-failures_example :
    (is_locked_out python 100 "ann"
        (logins python no_directory "" redis true guesses (db, shared)).1
      ≡ leb 5 (
          length (
            recent 100 (
              failures "ann"
                (logins python no_directory "" redis true guesses (db, shared)).0
                []))))
    × (length (
          recent 100
            (failures "ann" (logins python no_directory "" redis true guesses (db, shared)).0 []))
        ≤ 5)
is_locked_out-failures_example =
    is_locked_out-failures python load-dump refl "ann" no_directory "" redis true guesses 0 db
      shared guesses-Ordered none_failed 100 (omega arith)

five_failed :
    failures "ann" (logins python no_directory "" redis true guesses (db, shared)).0 []
    ≡ 1 ∷ 2 ∷ 3 ∷ 4 ∷ 5 ∷ []
unfolding logins login strip window_count incr_window encode decode unary
five_failed = refl

abbrev visited : List Visit
visited =
    Visit.page (some "t") 20 ∷ Visit.page (some "u") 30 ∷ Visit.log_out (request (some "u")) 40 ∷ []

apart : IsApart python "t" "u"
apart = record {
  hash_hash = λ p. cc ((eq_iff "hu" "ht").1 p);
  hash_legacy = λ p. cc ((eq_iff "hu" "lt").1 p);
  legacy_hash = λ p. cc ((eq_iff "lu" "ht").1 p);
  legacy_legacy = λ p. cc ((eq_iff "lu" "lt").1 p);
}

logged_in :
    (login python no_directory "" redis true (attempt "secret" 10) (db, shared)).0
    ≡ Response.session_of ann "t" true
unfolding login strip is_secure window_count incr_window
logged_in = refl

login-lifetime_example :
    seen_id (
      get_current_user python
        (some "t")
        50
        (visits python no_directory "" redis true visited (
          (login python no_directory "" redis true (attempt "secret" 10) (db, shared)).1,
          (login python no_directory "" redis true (attempt "secret" 10) (db, shared)).2,
        )).0)
    ≡ some 7
login-lifetime_example =
    login-lifetime python no_directory "" redis true (attempt "secret" 10) ann true db shared
      visited 50 (λ p. cc p) (λ p. cc ((eq_iff "ht" "lt").1 p)) refl
      (inl refl, (inr apart, (inr apart, tt))) logged_in
