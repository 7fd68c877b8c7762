-- ===== src/Ldap/Tests.antt =====
-- A directory with one user.
use b8mon.Base.{
  true, false, ◌&&◌, ◌≡◌, refl, none, some, [], ◌∷◌, string_eq, ◌==◌, if◌then◌else◌, join, strip,
  lower,
}
use b8mon.Ldap.{LdapConfig, LdapUser, Entry, Reply, Client, is_member, ldap_authenticate, replace}
use b8mon.Ldap.Bind.{ldap_authenticate-Proven, Proven}

abbrev ann : Entry
ann = record {
  dn = "cn=ann";
  attributes = λ a. if a == "memberOf" then some ("CN=Admins,DC=b8n" ∷ []) else none;
}

abbrev client : Client
client = record {
  bind = λ server ssl dn password.
      if dn == "cn=svc" && password == "s"
      then Reply.done tt
      else if dn == "cn=ann" && password == "secret"
      then Reply.done tt
      else Reply.refused;
  start_tls = Reply.done tt;
  search = λ base filter attributes.
      if filter == "(uid=ann)" then Reply.done (ann ∷ []) else Reply.done [];
  escape_filter_chars = λ text. text;
  show = λ values. join "," values;
}

abbrev config : LdapConfig
config = record {
  server = "ldap://d";
  bind_dn = "cn=svc";
  bind_password = "s";
  base_dn = "dc=b8n";
  user_filter = "(uid={username})";
  display_attr = "displayName";
  group_attr = "memberOf";
  admin_group = "admins";
  editor_group = "";
  use_ssl = false;
  start_tls = true;
}

abbrev user : LdapUser
user = record { username = "ann"; display_name = "ann"; role = "admin" }

logged_in : ldap_authenticate client config "ann" "secret" ≡ some (some user)
unfolding ldap_authenticate strip lower
logged_in = refl

wrong_password : ldap_authenticate client config "ann" "Secret" ≡ some none
unfolding ldap_authenticate strip lower
wrong_password = refl

blank_password : ldap_authenticate client config "ann" " " ≡ some none
unfolding ldap_authenticate strip lower
blank_password = refl

replaced : replace "ab" "x" "aabab" ≡ "axx"
replaced = refl

-- the group's name is only looked for inside the name of a group of the user
other_group : is_member "admins" ("cn=no-admins,dc=b8n" ∷ []) ≡ true
unfolding lower
other_group = refl

ldap_authenticate-Proven_example : Proven client config "ann" "secret" user
ldap_authenticate-Proven_example =
    ldap_authenticate-Proven client config "ann" "secret" user logged_in
