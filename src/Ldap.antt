-- ===== src/Ldap.antt =====
-- backend/services/ldap_auth.py: who may log in by the company's directory, and as what. The directory
-- itself and its client are an argument. Text is ASCII where case or blanks matter.
pub mod Bind
mod Tests
use Prim.Native.String.{◌++◌}
use b8mon.Base.{
  ℕ, zero, suc, ◌-◌, String, Bool, true, false, not, ◌&&◌, ◌||◌, Option, none, some, List, [], ◌∷◌,
  any, contains, lower, strip, starts_with, char_count, string_eq, ◌==◌, if◌then◌else◌, or_else,
  Map, is_some,
}

pub record LdapConfig : Type 0 where
  pub server : String
  pub bind_dn : String
  pub bind_password : String
  pub base_dn : String
  pub user_filter : String
  pub display_attr : String
  pub group_attr : String
  pub admin_group : String
  pub editor_group : String
  pub use_ssl : Bool
  pub start_tls : Bool

pub record LdapUser : Type 0 where
  pub username : String
  pub display_name : String
  pub role : String

-- an entry that a search finds, with its attributes
pub record Entry : Type 0 where
  pub dn : String
  pub attributes : Map String (List String)

-- What becomes of a call of the client: `refused` for `LDAPBindError` and `LDAPSocketOpenError`, and
-- `failed` for any other `LDAPException`.
pub data Reply {ℓ} (A : Type ℓ) : Type ℓ where
  done : A → Reply A
  refused : Reply A
  failed : Reply A

pub record Client : Type 0 where
  -- `Connection(Server(server, use_ssl), user, password, auto_bind=True)`
  pub bind : String → Bool → String → String → Reply (Unit {0})
  pub start_tls : Reply (Unit {0})
  -- a search below a base by a filter, for some attributes
  pub search : String → String → List String → Reply (List Entry)
  pub escape_filter_chars : String → String
  -- `str` of the values of an attribute
  pub show : List String → String

-- `text.replace(old, new)` for an `old` that is not empty: `skip` characters still belong to the last
-- occurrence.
abbrev replace_from : ℕ → String → String → String → String
replace_from skip old new String.[] = ""
replace_from (suc skip) old new (String.◌∷◌ c s) = replace_from skip old new s
replace_from zero old new (String.◌∷◌ c s) =
    let here = replace_from (char_count old - 1) old new s in
    let later = replace_from 0 old new s in
    if starts_with (String.◌∷◌ c s) old then new ++ here else String.◌∷◌ c later

abbrev pub replace : String → String → String → String
replace old new s = replace_from 0 old new s

-- `part in text`
abbrev pub occurs_in : String → String → Bool
occurs_in part String.[] = part == ""
occurs_in part (String.◌∷◌ c s) = starts_with (String.◌∷◌ c s) part || occurs_in part s

abbrev pub is_member : String → List String → Bool
is_member group groups = not (group == "") && any (λ g. occurs_in (lower group) (lower g)) groups

pub resolve_role : Entry → LdapConfig → String
resolve_role entry config =
    let groups = or_else (entry.attributes config.group_attr) [] in
    if is_member config.admin_group groups
    then "admin"
    else if is_member config.editor_group groups
    then "editor"
    else "readonly"

-- `not password or not password.strip()`
abbrev pub is_blank : String → Bool
is_blank password = password == "" || strip password == ""

module _ (client : Client) (config : LdapConfig) where
  unfoldable pub uses_ssl : Bool
  uses_ssl = config.use_ssl || starts_with config.server "ldaps://"

  abbrev pub search_filter : String → String
  search_filter username =
      replace "{username}" (client.escape_filter_chars username) config.user_filter

  abbrev pub bind_service : Reply (Unit {0})
  bind_service = client.bind config.server (uses_ssl) config.bind_dn config.bind_password

  pub secure_connection : Reply (Unit {0})
  unfolding uses_ssl
  secure_connection = if config.start_tls && not uses_ssl then client.start_tls else done tt

  abbrev pub attrs : List String
  attrs =
      "dn" ∷ config.display_attr ∷ (if config.group_attr == "" then [] else config.group_attr ∷ [])

  abbrev pub display_name_of : String → Entry → String
  display_name_of username entry = elim (entry.attributes config.display_attr) [
    | none ↦ username
    | some values ↦ client.show values
  ]

  abbrev pub role_found : Reply (List Entry) → String
  role_found (done []) = "readonly"
  role_found (done (entry ∷ entries)) = resolve_role entry config
  role_found refused = "readonly"
  role_found failed = "readonly"

  abbrev pub reads_groups : Bool
  reads_groups =
      not (config.group_attr == "")
      && (not (config.admin_group == "") || not (config.editor_group == ""))

  -- the service account again, which may read the groups
  pub look_up_role : String → String
  unfolding uses_ssl resolve_role
  look_up_role username =
      if reads_groups
      then elim bind_service [
        | done _ ↦
            role_found
              (client.search config.base_dn (search_filter username) (config.group_attr ∷ []))
        | refused ↦ "readonly"
        | failed ↦ "readonly"
      ]
      else "readonly"

  -- the bind as the user, which proves the password; nothing where it raises
  pub verify_password : String → String → Entry → Option (Option LdapUser)
  unfolding look_up_role uses_ssl resolve_role
  verify_password username password entry =
      elim (client.bind config.server uses_ssl entry.dn password) [
        | done _ ↦ some (
            some (record {
              username = username;
              display_name = display_name_of username entry;
              role = look_up_role username;
            }))
        | refused ↦ some none
        | failed ↦ none
      ]

  pub find_and_verify : String → String → Reply (List Entry) → Option (Option LdapUser)
  unfolding verify_password
  find_and_verify username password (done []) = some none
  find_and_verify username password (done (entry ∷ entries)) =
      verify_password username password entry
  find_and_verify username password refused = some none
  find_and_verify username password failed = some none

  -- `_ldap_authenticate`: nothing where it raises
  unfoldable pub ldap_authenticate : String → String → Option (Option LdapUser)
  unfolding secure_connection find_and_verify
  ldap_authenticate username password = if is_blank password then some none else elim bind_service [
    | refused ↦ some none
    | failed ↦ none
    | done _ ↦ elim secure_connection [
      | done _ ↦
          find_and_verify username password
            (client.search config.base_dn (search_filter username) attrs)
      | refused ↦ some none
      | failed ↦ some none
    ]
  ]
