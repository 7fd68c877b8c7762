-- ===== src/Login/Apart.antt =====
-- Which visits leave a session alone: those whose tokens have other hashes.
use b8mon.Base.{
  ℕ, String, Bool, false, ◌≡◌, ◌≢◌, ◌⊎◌, Option, none, some, nat_eq, string_eq, ◌==◌, text_or,
}
use b8mon.Login.{Python, User, Database}
use b8mon.Login.Sessions.{Visit}
use b8mon.Login.Rows.{id_of}

-- the id of the user that a request stands for, if it stands for one
abbrev pub seen_id : Option (Option User × Database) → Option ℕ
seen_id none = none
seen_id (some (user, db)) = id_of user

module _ (py : Python) where
  -- a token whose hashes are not those of the other one
  pub record IsApart (token other : String) : Type 0 where
    pub hash_hash : py.hash_token other ≢ py.hash_token token
    pub hash_legacy : py.hash_token other ≢ py.hash_token_legacy token
    pub legacy_hash : py.hash_token_legacy other ≢ py.hash_token token
    pub legacy_legacy : py.hash_token_legacy other ≢ py.hash_token_legacy token

  -- A visit with the token, or with one apart from it; a login draws one that is apart.
  abbrev pub Fits : String → Visit → Type 0
  Fits token (Visit.log_in a) = IsApart token a.token
  Fits token (Visit.page cookie now) =
      (text_or cookie "" ≡ token) ⊎ IsApart token (text_or cookie "")
  Fits token (Visit.log_out request now) =
      (text_or request.cookie "" ≡ token) ⊎ IsApart token (text_or request.cookie "")

  abbrev pub logs_out : String → Visit → Bool
  logs_out token (Visit.log_in a) = false
  logs_out token (Visit.page cookie now) = false
  logs_out token (Visit.log_out request now) = text_or request.cookie "" == token
