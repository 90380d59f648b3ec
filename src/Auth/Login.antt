-- ===== src/Auth/Login.antt =====
-- `login`, `createPasswordReset` and `completePasswordReset` of auth/sessions.ts.
use z_shield.Prelude.{
  ℕ, suc, ◌+◌, ◌-◌, ◌/◌, Bool, true, false, not, ◌&&◌, ◌||◌, Option, none, some, [], ◌∷◌, ◌++◌, ltb,
  leb, if◌then◌else◌, is_some,
}
use z_shield.Text.{Text, codes, text_eq}
use z_shield.Table.{update_where, find_where, exists_where}
use z_shield.Crypto.{Bytes, Node, hash_token, hash_password, verify_password}
use z_shield.Tenant.{Result, ok, err, violation}
use z_shield.Db.{User, ResetPurpose, password_reset, email_verification, PasswordReset, Db}
use z_shield.Auth.Sessions.{SessionRecord, create_session, audit}

-- `MAX_FAILED_LOGINS`, and `LOCKOUT_SECONDS * 1000`
abbrev pub max_failed_logins : ℕ
max_failed_logins = 8

abbrev pub lockout : ℕ
lockout = 900000

pub data LoginOutcome : Type 0 where
  logged_in : Text → SessionRecord → LoginOutcome
  mfa_required : Text → SessionRecord → LoginOutcome
  invalid : LoginOutcome
  locked : ℕ → LoginOutcome

pub record LoginInput : Type 0 where
  pub email : Text
  pub password : Text
  pub ip : Option Text
  pub user_agent : Option Text

-- `locked_until > now`
abbrev pub locked_at : ℕ → User → Option ℕ
locked_at now u = elim u.locked_until [
  | none ↦ none
  | some until ↦ if ltb now until then some until else none
]

abbrev pub set_user : Text → (User → User) → Db → Db
set_user id f db = record db { users = update_where (λ u. text_eq u.id id) f db.users }

-- the UPDATE after a wrong password
unfoldable pub count_failure : ℕ → User → Db → Db
count_failure now user db =
    let failures = suc user.failed_logins in
    set_user user.id
      (λ u. record u {
        failed_logins = failures;
        locked_until =
            if leb max_failed_logins failures then some (now + lockout) else u.locked_until;
      })
      db

unfoldable pub has_mfa : Text → Db → Bool
has_mfa user_id db =
    exists_where (λ f. text_eq f.user_id user_id && is_some f.confirmed_at) db.mfa_factors

-- the action of the audit line, and the status
abbrev outcome : Bool → Text × SessionRecord → LoginOutcome
outcome true (token, session) = mfa_required token session
outcome false (token, session) = logged_in token session

abbrev concluded :
    Bool → Text → Option Text → Result (Text × SessionRecord) × Db → Result LoginOutcome × Db
concluded mfa user_id ip (ok created, db) = (
  ok (outcome mfa created),
  audit none (some user_id) (if mfa then codes "auth.login_mfa_pending" else codes "auth.login")
      none ip db,
)
concluded mfa user_id ip (err e, db) = (err e, db)

-- `purpose = 'password_reset'`
abbrev pub for_password : ResetPurpose → Bool
for_password password_reset = true
for_password email_verification = false

-- The steps of the module take what they call of the runtime; `same_email` is the comparison of
-- the column type citext.
module _ (node : Node) (same_email : Text → Text → Bool) where
  -- the branch of a right password
  unfoldable pub open_login : Text → Text → ℕ → LoginInput → User → Db → Result LoginOutcome × Db
  open_login token id now input user db =
      let mfa = has_mfa user.id db || user.mfa_enforced in
      let reset =
        set_user user.id
          (λ u. record u { failed_logins = 0; locked_until = none; last_login_at = some now }) db in
      concluded mfa user.id input.ip (
        create_session node token id now
          (record {
            user_id = user.id;
            mfa_satisfied = not mfa;
            organization_id = none;
            ip = input.ip;
            user_agent = input.user_agent;
          })
          reset)

  unfoldable pub login_user : Text → Text → ℕ → LoginInput → User → Db → Result LoginOutcome × Db
  login_user token id now input user db =
      if is_some user.deleted_at then (ok invalid, db) else elim (locked_at now user) [
        | some until ↦ (ok (locked ((until - now + 999) / 1000)), db)
        | none ↦
            if verify_password node input.password user.password_hash
            then open_login token id now input user db
            else (ok invalid, count_failure now user db)
      ]

  -- `login`
  unfoldable pub login : Text → Text → ℕ → LoginInput → Db → Result LoginOutcome × Db
  login token id now input db = elim (find_where (λ u. same_email u.email input.email) db.users) [
    | none ↦ (ok invalid, db)
    | some user ↦ login_user token id now input user db
  ]

  -- `createPasswordReset`; the constraint on `token_hash` refuses a hash that is not new
  unfoldable pub create_password_reset :
      Text → Text → ℕ → Text → Option Text → Db → Result (Option Text) × Db
  create_password_reset token id now email ip db =
      elim (find_where (λ u. same_email u.email email && not (is_some u.deleted_at)) db.users) [
        | none ↦ (ok none, db)
        | some user ↦
            let spent =
              update_where
                (λ r.
                  text_eq r.user_id user.id
                  && (for_password r.purpose && not (is_some r.consumed_at)))
                (λ r. record r { consumed_at = some now }) db.password_resets in
            let row : PasswordReset = record {
              id = id;
              user_id = user.id;
              token_hash = hash_token node token;
              purpose = password_reset;
              requested_ip = ip;
              expires_at = now + 3600000;
              consumed_at = none;
            } in
            if exists_where (λ r. text_eq r.id id || text_eq r.token_hash (hash_token node token))
              db.password_resets
            then (err violation, record db { password_resets = spent })
            else (ok (some token), record db { password_resets = spent ++ (row ∷ []) })
      ]

  abbrev pub is_usable : ℕ → Text → PasswordReset → Bool
  is_usable now hash r =
      text_eq r.token_hash hash
      && (for_password r.purpose && (not (is_some r.consumed_at) && ltb now r.expires_at))

  -- the writes of `completePasswordReset`, in one transaction
  unfoldable pub apply_reset : ℕ → Text → PasswordReset → Db → Db
  apply_reset now new_hash reset db =
      let db1 : Db = record db {
        password_resets =
            update_where (λ r. text_eq r.id reset.id) (λ r. record r { consumed_at = some now })
              db.password_resets;
      } in
      let db2 =
        set_user reset.user_id
          (λ u. record u { password_hash = new_hash; failed_logins = 0; locked_until = none })
          db1 in
      let db3 : Db = record db2 {
        sessions =
            update_where (λ s. text_eq s.user_id reset.user_id && not (is_some s.revoked_at))
              (λ s. record s { revoked_at = some now }) db2.sessions;
      } in
      audit none (some reset.user_id) (codes "auth.password_reset") none none db3

  -- `completePasswordReset` with the salt that was drawn; `none` is the exception on a short password
  unfoldable pub complete_password_reset : Text → Text → Bytes → ℕ → Db → Option (Bool × Db)
  complete_password_reset token new_password salt now db =
      elim (hash_password node new_password salt) [
        | none ↦ none
        | some new_hash ↦
            some (elim (find_where (is_usable now (hash_token node token)) db.password_resets) [
              | none ↦ (false, db)
              | some reset ↦ (true, apply_reset now new_hash reset db)
            ])
      ]
