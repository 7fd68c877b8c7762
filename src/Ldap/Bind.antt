-- ===== src/Ldap/Bind.antt =====
-- What it takes to log in by the directory.
use b8mon.Base.{
  String, true, false, ◌≡◌, refl, sym, ◌∙◌, ◌⊎◌, inl, inr, none, some, List, [], ◌∷◌, eq_iff, ◌≢◌,
  Bool-cases, or_else, ap, string_eq,
}
use b8mon.Ldap.{
  LdapConfig, LdapUser, Entry, Reply, Client, is_member, is_blank, role_found, reads_groups,
  resolve_role, uses_ssl, search_filter, look_up_role, secure_connection, bind_service,
  verify_password, find_and_verify, ldap_authenticate, attrs,
}

Reply-cases {ℓ} :
    {A : Type ℓ} (r : Reply A)
    → ((a : A) × (r ≡ Reply.done a)) ⊎ ((r ≡ Reply.refused) ⊎ (r ≡ Reply.failed))
Reply-cases (Reply.done a) = inl (a, refl)
Reply-cases Reply.refused = inr (inl refl)
Reply-cases Reply.failed = inr (inr refl)

module _ (client : Client) (config : LdapConfig) where
  -- the directory has such an entry for the name, in the administrators' group
  pub record IsAdmin (username : String) : Type 0 where
    pub entry : Entry
    pub entries : List Entry
    pub found :
        client.search config.base_dn (search_filter client config username) (config.group_attr ∷ [])
        ≡ Reply.done (entry ∷ entries)
    pub member :
        is_member config.admin_group (or_else (entry.attributes config.group_attr) []) ≡ true

  pub record Proven (username password : String) (user : LdapUser) : Type 0 where
    pub not_blank : is_blank password ≡ false
    pub entry : Entry
    pub entries : List Entry
    pub searched : bind_service client config ≡ Reply.done tt
    pub found :
        client.search config.base_dn (search_filter client config username) (attrs client config)
        ≡ Reply.done (entry ∷ entries)
    pub bound : client.bind config.server (uses_ssl client config) entry.dn password ≡ Reply.done tt
    pub named : user.username ≡ username
    pub admin : user.role ≡ "admin" → IsAdmin username

  readonly≢admin : ◌≢◌ {A = String} "readonly" "admin"
  readonly≢admin p = cc ((eq_iff "readonly" "admin").1 p)

  editor≢admin : ◌≢◌ {A = String} "editor" "admin"
  editor≢admin p = cc ((eq_iff "editor" "admin").1 p)

  resolve_role-admin :
      (entry : Entry)
      → resolve_role entry config ≡ "admin"
      → is_member config.admin_group (or_else (entry.attributes config.group_attr) []) ≡ true
  unfolding resolve_role
  resolve_role-admin entry h =
      let groups = or_else (entry.attributes config.group_attr) [] in
      elim (Bool-cases (is_member config.admin_group groups)) [
        | inl y ↦ y
        | inr n ↦ elim (Bool-cases (is_member config.editor_group groups)) [
          | inl e ↦ absurd (editor≢admin (rw (n, e) at h))
          | inr e ↦ absurd (readonly≢admin (rw (n, e) at h))
        ]
      ]

  role_found-IsAdmin :
      (username : String) (reply : Reply (List Entry))
      → client.search config.base_dn (search_filter client config username) (config.group_attr ∷ [])
        ≡ reply
      → role_found client config reply ≡ "admin"
      → IsAdmin username
  role_found-IsAdmin username (Reply.done []) e h = absurd (readonly≢admin h)
  role_found-IsAdmin username (Reply.done (entry ∷ entries)) e h = record {
    entry = entry;
    entries = entries;
    found = e;
    member = resolve_role-admin entry h;
  }
  role_found-IsAdmin username Reply.refused e h = absurd (readonly≢admin h)
  role_found-IsAdmin username Reply.failed e h = absurd (readonly≢admin h)

  look_up_role-IsAdmin :
      (username : String) → look_up_role client config username ≡ "admin" → IsAdmin username
  unfolding look_up_role
  look_up_role-IsAdmin username h = elim (Bool-cases (reads_groups client config)) [
    | inr n ↦ absurd (readonly≢admin (rw n at h))
    | inl y ↦ elim (Reply-cases (bind_service client config)) [
      | inl (u, d) ↦ role_found-IsAdmin username _ refl (rw (y, d) at h)
      | inr (inl r) ↦ absurd (readonly≢admin (rw (y, r) at h))
      | inr (inr f) ↦ absurd (readonly≢admin (rw (y, f) at h))
    ]
  ]

  verify_password-Proven :
      (username password : String) (entry : Entry) (entries : List Entry) (user : LdapUser)
      → is_blank password ≡ false
      → bind_service client config ≡ Reply.done tt
      → client.search config.base_dn (search_filter client config username) (attrs client config)
        ≡ Reply.done (entry ∷ entries)
      → verify_password client config username password entry ≡ some (some user)
      → Proven username password user
  unfolding verify_password
  verify_password-Proven username password entry entries user nb b f h =
      elim (Reply-cases (client.bind config.server (uses_ssl client config) entry.dn password)) [
        | inl (u, d) ↦
            let same = ap (λ o. or_else (or_else o none) user) (rw (verify_password, d) at h) in
            record {
              not_blank = nb;
              entry = entry;
              entries = entries;
              searched = b;
              found = f;
              bound = d;
              named = sym (ap (λ (v : LdapUser). v.username) same);
              admin = λ r. look_up_role-IsAdmin username (ap (λ (v : LdapUser). v.role) same ∙ r);
            }
        | inr (inl r) ↦ cc (rw (verify_password, r) at h)
        | inr (inr r) ↦ cc (rw (verify_password, r) at h)
      ]

  find_and_verify-Proven :
      (username password : String) (reply : Reply (List Entry)) (user : LdapUser)
      → is_blank password ≡ false
      → bind_service client config ≡ Reply.done tt
      → client.search config.base_dn (search_filter client config username) (attrs client config)
        ≡ reply
      → find_and_verify client config username password reply ≡ some (some user)
      → Proven username password user
  unfolding find_and_verify
  find_and_verify-Proven username password (Reply.done []) user nb b f h = cc h
  find_and_verify-Proven username password (Reply.done (entry ∷ entries)) user nb b f h =
      verify_password-Proven username password entry entries user nb b f h
  find_and_verify-Proven username password Reply.refused user nb b f h = cc h
  find_and_verify-Proven username password Reply.failed user nb b f h = cc h

  -- Nobody logs in by the directory without a proof of the password: if the authentication returns a
  -- user, the password is not blank, the service account was accepted and found an entry for the name
  -- in the directory, and the directory accepted the password for that entry. The user has the name
  -- that was given, and is an administrator only if a search for the name finds an entry with a group
  -- that the administrators' group is a part of.
  pub ldap_authenticate-Proven :
      (username password : String) (user : LdapUser)
      → ldap_authenticate client config username password ≡ some (some user)
      → Proven username password user
  unfolding ldap_authenticate
  ldap_authenticate-Proven username password user h = elim (Bool-cases (is_blank password)) [
    | inl y ↦ cc (rw y at h)
    | inr nb ↦ elim (Reply-cases (bind_service client config)) [
      | inr (inl r) ↦ cc (rw (nb, r) at h)
      | inr (inr r) ↦ cc (rw (nb, r) at h)
      | inl (u, b) ↦ elim (Reply-cases (secure_connection client config)) [
        | inl (u, c) ↦
            find_and_verify-Proven username password _ user nb b refl (rw (nb, b, c) at h)
        | inr (inl r) ↦ cc (rw (nb, b, r) at h)
        | inr (inr r) ↦ cc (rw (nb, b, r) at h)
      ]
    ]
  ]
