-- ===== src/Auth/Accounts/FirstLogin.antt =====
-- The first login to an account that was registered.
use mathlib.Core.Option
use z_shield.Prelude.{
  ℕ, ◌≡◌, ◌≢◌, refl, sym, ap, ◌∙◌, Bool, true, false, ◌&&◌, ◌||◌, none, some, [], ◌∷◌, arith,
  is_some, length,
}
use z_shield.Text.{Text, codes, text_eq}
use z_shield.Text.Lines.{text_eq_refl}
use z_shield.Table.{find_where, exists_where}
use z_shield.Table.Rows.{find_where-append_none, find_where-none}
use z_shield.Crypto.{Bytes, Node, NodeLaws, hash_token, verify_password}
use z_shield.Crypto.Passwords.{verify-hash}
use z_shield.Rbac.{owner}
use z_shield.Tenant.{ok, is_id}
use z_shield.Db.{User, Db}
use z_shield.Auth.Sessions.{SessionRecord, SessionInput, is_member, role_in, audit}
use z_shield.Auth.Login.{LoginInput, logged_in, login, login_user, open_login, has_mfa, set_user}
use z_shield.Auth.Opening.{create_session-fresh}
use z_shield.Auth.Accounts.{FreshIds, RegisterInput, created, new_user, new_owner, register}
use z_shield.Auth.Accounts.Registered.{account_of, Inserted, register-Created}

module _ (node : Node) (same_email : Text → Text → Bool) where
  -- a right password where no second factor is asked for
  open_login-fresh :
      (token id : Text) (now : ℕ) (input : LoginInput) (user : User) (db : Db)
      → is_id (codes "usr_") user.id ≡ true
      → exists_where
          (λ r. text_eq r.id id || text_eq r.token_hash (hash_token node token))
          db.sessions
        ≡ false
      → has_mfa user.id db || user.mfa_enforced ≡ false
      → (s : SessionRecord) × (db' : Db) × (open_login node same_email token id now input user db
          ≡ (ok (logged_in token s), db'))
        × (s.user_id ≡ user.id)
        × (s.mfa_satisfied ≡ true)
        × (db'.memberships ≡ db.memberships)
  unfolding open_login audit
  open_login-fresh token id now input user db form fresh asks =
      let reset =
        set_user user.id
          (λ u. record u { failed_logins = 0; locked_until = none; last_login_at = some now }) db in
      let request : SessionInput = record {
        user_id = user.id;
        mfa_satisfied = true;
        organization_id = none;
        ip = input.ip;
        user_agent = input.user_agent;
      } in
      let (s, after, run, opened) =
        create_session-fresh node token id now request reset form fresh in
      (
        s,
        audit none (some user.id) (codes "auth.login") none input.ip after,
        rw (asks, run) refl,
        ap (λ r. r.user_id) opened.recorded ∙ opened.of_user,
        ap (λ r. r.mfa_satisfied) opened.recorded ∙ opened.mfa,
        opened.memberships,
      )

  login-open_login :
      (token id : Text) (now : ℕ) (input : LoginInput) (user : User) (db : Db)
      → find_where (λ (u : User). same_email u.email input.email) db.users ≡ some user
      → user.deleted_at ≡ none
      → user.locked_until ≡ none
      → verify_password node input.password user.password_hash ≡ true
      → login node same_email token id now input db
        ≡ open_login node same_email token id now input user db
  unfolding login login_user
  login-open_login token id now input user db found present free right =
      ground (arith, found, present, free, right)

  -- the account that was written is found by its e-mail address, and its owner by its identifiers
  Inserted-user :
      (fold : Text → Text) (ids : FreshIds) (stamp hash : Text) (input : RegisterInput) (now : ℕ)
      (before db db' : Db)
      → same_email input.email input.email ≡ true
      → Inserted same_email ids (account_of node same_email fold stamp input hash before) now db db'
      → find_where (λ (u : User). same_email u.email input.email) db'.users
        ≡ some (new_user ids (account_of node same_email fold stamp input hash before))
  unfolding find_where
  Inserted-user fold ids stamp hash input now before db db' same i =
      let account = account_of node same_email fold stamp input hash before in
      let p : User → Bool = λ u. same_email u.email input.email in
      ap (find_where p) i.users
      ∙ find_where-append_none p db.users (new_user ids account ∷ []) (
          find_where-none p (λ u. text_eq u.id ids.user_id || same_email u.email account.email)
            db.users (λ u e. ground arith) i.new_email)
      ∙ rw same refl

  Inserted-owner :
      (fold : Text → Text) (ids : FreshIds) (stamp hash : Text) (input : RegisterInput) (now : ℕ)
      (before db db' : Db)
      → Inserted same_email ids (account_of node same_email fold stamp input hash before) now db db'
      → role_in ids.user_id ids.organization_id db' ≡ some owner
  unfolding role_in find_where
  Inserted-owner fold ids stamp hash input now before db db' i =
      let p = is_member ids.user_id ids.organization_id in
      ap (λ rows. Option.map (λ m. m.role) (find_where p rows)) i.memberships
      ∙ ap (Option.map (λ m. m.role)) (
          find_where-append_none p db.memberships (new_owner ids now ∷ []) (
            find_where-none p
              (λ m.
                text_eq m.id ids.membership_id
                || (text_eq m.organization_id ids.organization_id && text_eq m.user_id ids.user_id))
              db.memberships (λ m e. ground arith) i.new_member))
      ∙ rw (text_eq_refl, text_eq_refl) refl

  -- Whoever registers and gets a new account can log in to it with the password and the e-mail
  -- address, at any time, if no second factor was kept under its new identifier: the login succeeds
  -- with a new token, its session is the new user's and has nothing left to show, and the user is
  -- the OWNER of the new organization.
  pub register-login :
      (fold : Text → Text) (salt : Bytes) (ids : FreshIds) (stamp : Text) (input : RegisterInput)
      (now later : ℕ) (entry : LoginInput) (token id user_id organization_id : Text) (db db' : Db)
      → NodeLaws node
      → 0 ≢ length salt
      → same_email input.email input.email ≡ true
      → has_mfa user_id db ≡ false
      → is_id (codes "usr_") user_id ≡ true
      → register node same_email fold salt ids stamp input now db
        ≡ (ok (created user_id organization_id), db')
      → entry.email ≡ input.email
      → entry.password ≡ input.password
      → exists_where
          (λ r. text_eq r.id id || text_eq r.token_hash (hash_token node token))
          db'.sessions
        ≡ false
      → (s : SessionRecord) × (db'' : Db) × (login node same_email token id later entry db'
          ≡ (ok (logged_in token s), db''))
        × (s.user_id ≡ user_id)
        × (s.mfa_satisfied ≡ true)
        × (role_in user_id organization_id db'' ≡ some owner)
  unfolding role_in has_mfa
  register-login fold salt ids stamp input now later entry token id user_id organization_id db db'
        laws salted alike no_factor form h mail password fresh =
      let c =
        register-Created node same_email fold salt ids stamp input now db db' {user_id = user_id}
          h in
      let account = account_of node same_email fold stamp input c.hash db in
      let user = new_user ids account in
      let found =
        ap (λ e. find_where (λ (u : User). same_email u.email e) db'.users) mail
        ∙ Inserted-user fold ids stamp c.hash input now db db db' alike c.wrote in
      let right : verify_password node entry.password c.hash ≡ true =
        ap (λ p. verify_password node p c.hash) password
        ∙ verify-hash node laws input.password input.password salt salted c.hashed
        ∙ text_eq_refl (node.scrypt input.password salt 32 32768 8 1) in
      let plain : has_mfa ids.user_id db' ≡ false =
        ap (λ u. has_mfa u db') (sym c.same_user)
        ∙ ap (exists_where (λ f. text_eq f.user_id user_id && is_some f.confirmed_at))
            c.wrote.mfa_factors
        ∙ no_factor in
      let (s, after, run, own, mfa, kept) =
        open_login-fresh token id later entry user db'
          (ap (is_id (codes "usr_")) (sym c.same_user) ∙ form) fresh (rw plain refl) in
      (
        s,
        after,
        login-open_login token id later entry user db' found refl refl right ∙ run,
        own ∙ sym c.same_user,
        mfa,
        rw (c.same_user, c.same_organization, kept)
            (Inserted-owner fold ids stamp c.hash input now db db db' c.wrote),
      )
