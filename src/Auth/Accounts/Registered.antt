-- ===== src/Auth/Accounts/Registered.antt =====
-- What `register` writes when it creates an account, and that the account can be entered.
use z_shield.Prelude.{
  ℕ, ◌≡◌, sym, ap, ◌∙◌, Bool, false, ◌&&◌, ◌||◌, none, some, List, [], ◌∷◌, ◌++◌, arith, Bool-cases,
  Option-cases, inl, inr,
}
use z_shield.Text.{Text, codes, text_eq}
use z_shield.Table.{exists_where}
use z_shield.Table.Upsert.{insert_unique-some}
use z_shield.Crypto.{Bytes, Node, hash_password}
use z_shield.Tenant.{ok}
use z_shield.Db.{User, Membership, Organization, Subscription, Db}
use z_shield.Auth.Sessions.{audit}
use z_shield.Auth.Accounts.{
  FreshIds, NewAccount, RegisterInput, created, new_user, new_owner, add_user, add_organization,
  add_owner, add_subscription, insert_account, is_registered, unique_slug, register,
}

module _ (same_email : Text → Text → Bool) (ids : FreshIds) (account : NewAccount) (now : ℕ) where
  -- What the INSERTs of an account write.
  pub record Inserted (db db' : Db) : Type 0 where
    pub new_email :
        exists_where (λ u. text_eq u.id ids.user_id || same_email u.email account.email) db.users
        ≡ false
    pub users : db'.users ≡ db.users ++ (new_user ids account ∷ [])
    pub new_member :
        exists_where
          (λ m.
            text_eq m.id ids.membership_id
            || (text_eq m.organization_id ids.organization_id && text_eq m.user_id ids.user_id))
          db.memberships
        ≡ false
    pub memberships : db'.memberships ≡ db.memberships ++ (new_owner ids now ∷ [])
    pub sessions : db'.sessions ≡ db.sessions
    pub mfa_factors : db'.mfa_factors ≡ db.mfa_factors

  inserted :
      (us : List User) (os : List Organization) (ms : List Membership) (ss : List Subscription)
      (db db' : Db)
      → ((exists_where (λ u. text_eq u.id ids.user_id || same_email u.email account.email) db.users
            ≡ false)
          × (us ≡ db.users ++ (new_user ids account ∷ [])))
      → ((exists_where
              (λ m.
                text_eq m.id ids.membership_id
                || (text_eq m.organization_id ids.organization_id && text_eq m.user_id ids.user_id))
              db.memberships
            ≡ false)
          × (ms ≡ db.memberships ++ (new_owner ids now ∷ [])))
      → record db { users = us; organizations = os; memberships = ms; subscriptions = ss } ≡ db'
      → Inserted db db'
  inserted us os ms ss db db' (fresh_user, users) (fresh_member, memberships) same = record {
    new_email = fresh_user;
    users = sym (ap (λ (d : Db). d.users) same) ∙ users;
    new_member = fresh_member;
    memberships = sym (ap (λ (d : Db). d.memberships) same) ∙ memberships;
    sessions = sym (ap (λ (d : Db). d.sessions) same);
    mfa_factors = sym (ap (λ (d : Db). d.mfa_factors) same);
  }

  pub insert_account-Inserted :
      (db db' : Db) → insert_account same_email ids account now db ≡ some db' → Inserted db db'
  unfolding insert_account
  insert_account-Inserted db db' h =
      elim (Option-cases (add_user same_email ids account db.users)) [
        | inl e ↦ absurd (ground arith)
        | inr (us, e) ↦ elim (Option-cases (add_organization ids account db.organizations)) [
          | inl f ↦ absurd (ground arith)
          | inr (os, f) ↦ elim (Option-cases (add_owner ids now db.memberships)) [
            | inl g ↦ absurd (ground arith)
            | inr (ms, g) ↦ elim (Option-cases (add_subscription ids now db.subscriptions)) [
              | inl k ↦ absurd (ground arith)
              | inr (ss, k) ↦
                  inserted us os ms ss db db'
                    (insert_unique-some _ (new_user ids account) db.users us e)
                    (insert_unique-some _ (new_owner ids now) db.memberships ms g) (ground arith)
            ]
          ]
        ]
      ]

module _ (node : Node) (same_email : Text → Text → Bool) (fold : Text → Text) where
  -- the account that `register` writes
  abbrev pub account_of : Text → RegisterInput → Text → Db → NewAccount
  account_of stamp input hash db = record {
    email = input.email;
    password_hash = hash;
    display_name = input.display_name;
    email_verified_at = none;
    organization_name = input.organization_name;
    slug = unique_slug fold stamp input.organization_name db.organizations;
  }

  -- What `register` has written when it answers with a new account.
  pub record Created (ids : FreshIds) (stamp : Text) (input : RegisterInput) (salt : Bytes)
      (user_id organization_id : Text) (now : ℕ) (db db' : Db) : Type 0 where
    pub hash : Text
    pub hashed : hash_password node input.password salt ≡ some hash
    pub same_user : user_id ≡ ids.user_id
    pub same_organization : organization_id ≡ ids.organization_id
    pub wrote : Inserted same_email ids (account_of stamp input hash db) now db db'

  pub register-Created :
      (salt : Bytes) (ids : FreshIds) (stamp : Text) (input : RegisterInput) (now : ℕ) (db db' : Db)
      {user_id organization_id : Text}
      → register node same_email fold salt ids stamp input now db
        ≡ (ok (created user_id organization_id), db')
      → Created ids stamp input salt user_id organization_id now db db'
  unfolding register audit
  register-Created salt ids stamp input now db db' {user_id} {organization_id} h =
      elim (Option-cases (hash_password node input.password salt)) [
        | inl e ↦ absurd (ground arith)
        | inr (hash, e) ↦ elim (Bool-cases (is_registered node same_email fold input.email db)) [
          | inl f ↦ absurd (ground arith)
          | inr f ↦
              let account = account_of stamp input hash db in
              elim (Option-cases (insert_account same_email ids account now db)) [
                | inl g ↦ absurd (ground arith)
                | inr (after, g) ↦
                    let i = insert_account-Inserted same_email ids account now db after g in
                    let last : audit (some ids.organization_id) (some ids.user_id)
                          (codes "organization.created") (some ids.organization_id) none after
                        ≡ db' =
                      ground arith in
                    record {
                      hash = hash;
                      hashed = e;
                      same_user = ground arith;
                      same_organization = ground arith;
                      wrote = record {
                        new_email = i.new_email;
                        users = sym (ap (λ (d : Db). d.users) last) ∙ i.users;
                        new_member = i.new_member;
                        memberships = sym (ap (λ (d : Db). d.memberships) last) ∙ i.memberships;
                        sessions = sym (ap (λ (d : Db). d.sessions) last) ∙ i.sessions;
                        mfa_factors = sym (ap (λ (d : Db). d.mfa_factors) last) ∙ i.mfa_factors;
                      };
                    }
              ]
        ]
      ]
