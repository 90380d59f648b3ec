-- ===== src/Auth/Lockout.antt =====
-- Wrong passwords are counted, and the eighth one locks the account.
use z_shield.Prelude.{
  ℕ, suc, ◌+◌, ◌-◌, ◌/◌, ◌<◌, ◌≡◌, refl, ap, ◌∙◌, Bool, false, Option, none, some, List, [], ◌∷◌,
  arith, length, leb, if◌then◌else◌,
}
use z_shield.Text.{Text, text_eq}
use z_shield.Text.Lines.{text_eq_refl}
use z_shield.Table.{find_where, find_where-update}
use z_shield.Crypto.{Node, verify_password}
use z_shield.Tenant.{ok}
use z_shield.Db.{User, Db}
use z_shield.Auth.Login.{
  LoginInput, invalid, locked, login, login_user, count_failure, lockout, max_failed_logins,
}

module _ (node : Node) (same_email : Text → Text → Bool) where
  -- the account of an e-mail address
  abbrev pub account : Text → Db → Option User
  account email db = find_where (λ u. same_email u.email email) db.users

  -- the account after a wrong password
  abbrev pub after_failure : ℕ → User → User
  after_failure now u = record u {
    failed_logins = suc u.failed_logins;
    locked_until =
        if leb max_failed_logins (suc u.failed_logins)
        then some (now + lockout)
        else u.locked_until;
  }

  -- An attempt to log in to the account, which its password does not open.
  pub record Attempt (email : Text) (user : User) : Type 0 where
    pub token : Text
    pub id : Text
    pub at : ℕ
    pub input : LoginInput
    pub to_account : input.email ≡ email
    pub wrong : verify_password node input.password user.password_hash ≡ false

  abbrev pub attempt : {email : Text} {user : User} → Attempt email user → Db → Db
  attempt a db = (login node same_email a.token a.id a.at a.input db).1

  -- a wrong password at an account that is not locked
  login-count_failure :
      (token id : Text) (now : ℕ) (input : LoginInput) (user : User) (db : Db)
      → account input.email db ≡ some user
      → user.deleted_at ≡ none
      → user.locked_until ≡ none
      → verify_password node input.password user.password_hash ≡ false
      → login node same_email token id now input db ≡ (ok invalid, count_failure now user db)
  unfolding login login_user
  login-count_failure token id now input user db found present free wrong =
      ground (arith, found, present, free, wrong)

  account-count_failure :
      (email : Text) (now : ℕ) (user : User) (db : Db)
      → account email db ≡ some user
      → account email (count_failure now user db) ≡ some (after_failure now user)
  unfolding count_failure
  account-count_failure email now user db found =
      find_where-update (λ u. same_email u.email email) (λ u. text_eq u.id user.id)
        (λ u. record u {
          failed_logins = suc user.failed_logins;
          locked_until =
              if leb max_failed_logins (suc user.failed_logins)
              then some (now + lockout)
              else u.locked_until;
        })
        db.users (λ u. refl)
      ∙ rw (found, text_eq_refl)

  login-wrong :
      (email : Text) (user original : User) (a : Attempt email original) (db : Db)
      → account email db ≡ some user
      → user.deleted_at ≡ none
      → user.locked_until ≡ none
      → user.password_hash ≡ original.password_hash
      → account email (attempt a db) ≡ some (after_failure a.at user)
  login-wrong email user original a db found present free same =
      ap (λ r. account email r.1)
        (login-count_failure a.token a.id a.at a.input user db
          (ap (λ e. account e db) a.to_account ∙ found) present free
          (ap (verify_password node a.input.password) same ∙ a.wrong))
      ∙ account-count_failure email a.at user db found

  -- the database after attempts, one after the other
  abbrev pub attempts : {email : Text} {user : User} → List (Attempt email user) → Db → Db
  attempts [] db = db
  attempts (a ∷ rest) db = attempts rest (attempt a db)

  -- fewer than eight wrong passwords are counted and lock nothing
  attempts-counted :
      (email : Text) (original user : User) (l : List (Attempt email original)) (db : Db)
      → account email db ≡ some user
      → user.deleted_at ≡ none
      → user.locked_until ≡ none
      → user.password_hash ≡ original.password_hash
      → user.failed_logins + length l < max_failed_logins
      → account email (attempts l db)
        ≡ some (record user { failed_logins = user.failed_logins + length l })
  attempts-counted email original user [] db found present free same few = found ∙ ground arith
  attempts-counted email original user (a ∷ l) db found present free same few =
      let next = after_failure a.at user in
      let open_still : next.locked_until ≡ none = ground arith in
      attempts-counted email original next l (attempt a db)
        (login-wrong email user original a db found present free same) present open_still same
        (omega arith)
      ∙ ground arith

  -- a locked account answers so to every password
  login-locked :
      (token id : Text) (now until : ℕ) (input : LoginInput) (user : User) (db : Db)
      → account input.email db ≡ some user
      → user.deleted_at ≡ none
      → user.locked_until ≡ some until
      → now < until
      → login node same_email token id now input db ≡ (ok (locked ((until - now + 999) / 1000)), db)
  unfolding login login_user
  login-locked token id now until input user db found present held early = ground (arith, found)

  -- After eight wrong passwords, of which the account counted none before, each attempt to log in
  -- within the time of the lockout is refused, with the seconds that remain, whatever its password,
  -- and changes nothing.
  pub eight_failures :
      (email : Text) (user : User) (seven : List (Attempt email user)) (last : Attempt email user)
      (token id : Text) (now : ℕ) (input : LoginInput) (db : Db)
      → account email db ≡ some user
      → user.deleted_at ≡ none
      → user.locked_until ≡ none
      → user.failed_logins ≡ 0
      → length seven ≡ 7
      → input.email ≡ email
      → now < last.at + lockout
      → login node same_email token id now input (attempt last (attempts seven db))
        ≡ (ok (locked ((last.at + lockout - now + 999) / 1000)), attempt last (attempts seven db))
  eight_failures email user seven last token id now input db found present free none_yet seven_long
        to_account early =
      let counted : User = record user { failed_logins = user.failed_logins + length seven } in
      let before =
        attempts-counted email user user seven db found present free refl (omega arith) in
      let full : max_failed_logins ≡ suc counted.failed_logins = omega arith in
      let row = login-wrong email counted user last (attempts seven db) before present free refl in
      login-locked token id now (last.at + lockout) input (after_failure last.at counted)
        (attempt last (attempts seven db))
        (ap (λ e. account e (attempt last (attempts seven db))) to_account ∙ row) present
        (ground arith) early
