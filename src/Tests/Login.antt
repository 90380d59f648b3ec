-- ===== src/Tests/Login.antt =====
-- Logins, sessions and a password reset of one user.
use z_shield.Prelude.{
  ◌≡◌, ◌⊎◌, ◌||◌, if◌then◌else◌, refl, true, false, none, some, List, [], ◌∷◌, arith,
}
use z_shield.Text.{Text, codes, text_eq, split, take, drop, decimal, join}
use z_shield.Table.{find_where, exists_where, update_where}
use z_shield.Crypto.{hash_token, verify_password, hash_password, constant_time_equal}
use z_shield.Rbac.{owner, member_read, can}
use z_shield.Tenant.{Result, ok, with_user, is_id}
use z_shield.Db.{User, Db}
use z_shield.Auth.Sessions.{
  SessionRecord, SessionContext, create_session, first_membership, resolve_session, resolve_role,
  role_in, audit,
}
use z_shield.Auth.Login.{
  LoginInput, LoginOutcome, logged_in, mfa_required, locked, login, login_user, open_login, has_mfa,
}
use z_shield.Auth.Entry.{asks_mfa, login-logged_in}
use z_shield.Auth.Lockout.{Attempt, account, attempt, attempts, eight_failures}
use z_shield.Middleware.{
  Request, RequestActor, Exit, done, throw, mfa_missing, csrf_failed, pending_actor, require_read,
  is_safe, csrf_matches, verify_csrf, actor, require, assert_can,
}
use z_shield.Middleware.Access.{Identified, require-done}
use z_shield.Middleware.Pending.{mfa_required-guards}
use z_shield.Tests.Runtime.{toy, secret, stored}
use z_shield.Tests.Accounts.{accounts, user_a, usr_a, org, actor_a, request}

-- the user of the accounts, with a password
abbrev user : User
user = record user_a { password_hash = stored }

abbrev db : Db
db = record accounts { users = user ∷ [] }

abbrev login_with : Text → LoginInput
login_with password = record {
  email = codes "a@x";
  password = password;
  ip = none;
  user_agent = none;
}

abbrev token : Text
token = codes "a-token-of-a-login"

abbrev id : Text
id = codes "ses_new"

abbrev outcome : Result LoginOutcome × Db
outcome = login toy text_eq token id 5 (login_with secret) db

abbrev session : SessionRecord
session = record {
  id = id;
  user_id = usr_a;
  organization_id = some org;
  mfa_satisfied = true;
  expires_at = 43200005;
}

login_runs : outcome ≡ (ok (logged_in token session), outcome.1)
unfolding login login_user open_login find_where exists_where update_where text_eq verify_password
    split has_mfa create_session with_user is_id first_membership hash_token audit take drop
    hash_password decimal join
login_runs = refl

login-logged_in_example :
    (u : User) × (account toy text_eq (codes "a@x") db ≡ some u)
    × (u.deleted_at ≡ none)
    × (verify_password toy secret u.password_hash ≡ true)
    × (asks_mfa toy text_eq u db ≡ false)
    × (session.user_id ≡ u.id)
    × (session.mfa_satisfied ≡ true)
    × (context : SessionContext) × ((resolve_session toy token 6 outcome.1).0 ≡ some context)
    × (context.session ≡ session)
login-logged_in_example =
    login-logged_in toy text_eq token id 5 6 (login_with secret) db outcome.1 token session
      login_runs (omega arith)

-- the same user with a second factor
abbrev guarded : Db
guarded = record db { mfa_factors = record { user_id = usr_a; confirmed_at = some 1 } ∷ [] }

abbrev half_request : Request
half_request = record request { session_cookie = some token }

abbrev half : Result LoginOutcome × Db
half = login toy text_eq token id 5 (login_with secret) guarded

half_runs : half ≡ (ok (mfa_required token (record session { mfa_satisfied = false })), half.1)
unfolding login login_user open_login find_where exists_where update_where text_eq verify_password
    split has_mfa create_session with_user is_id first_membership hash_token audit take drop
    hash_password decimal join
half_runs = refl

mfa_required-guards_example :
    ((actor toy half_request 6 half.1).0 ≡ throw mfa_missing)
    × ((require_read toy half_request member_read 6 half.1).0 ≡ throw mfa_missing)
    × ((require toy half_request member_read 6 half.1).0
        ≡ throw (
            if is_safe half_request.method
              || csrf_matches toy half_request.csrf_cookie half_request.csrf_header
            then mfa_missing
            else csrf_failed))
    × (context : SessionContext) × ((pending_actor toy half_request 6 half.1).0 ≡ done context)
    × (context.session.mfa_satisfied ≡ false)
mfa_required-guards_example =
    mfa_required-guards toy text_eq token id 5 6 (login_with secret) guarded half.1 token
      (record session { mfa_satisfied = false }) half_request member_read half_runs (omega arith)
      refl (omega arith)

abbrev required : Exit RequestActor × Db
required = require toy request member_read 5 accounts

required_runs : required ≡ (done actor_a, required.1)
unfolding require verify_csrf constant_time_equal text_eq actor resolve_session find_where
    exists_where hash_token resolve_role role_in with_user is_id assert_can can take drop
required_runs = refl

require-done_example :
    ((is_safe request.method ≡ true)
      ⊎ (csrf_matches toy request.csrf_cookie request.csrf_header ≡ true))
    × Identified toy request 5 accounts actor_a
    × (can owner member_read ≡ true)
require-done_example =
    require-done toy request member_read 5 accounts required.1 actor_a required_runs

wrong_password : verify_password toy (codes "wrong horse battery") stored ≡ false
unfolding verify_password split text_eq decimal join
wrong_password = refl

abbrev wrong : Attempt toy text_eq (codes "a@x") user
wrong = record {
  token = token;
  id = id;
  at = 5;
  input = login_with (codes "wrong horse battery");
  to_account = refl;
  wrong = wrong_password;
}

abbrev seven : List (Attempt toy text_eq (codes "a@x") user)
seven = wrong ∷ wrong ∷ wrong ∷ wrong ∷ wrong ∷ wrong ∷ wrong ∷ []

abbrev locked_out : Db
locked_out = attempt toy text_eq wrong (attempts toy text_eq seven db)

account_a : account toy text_eq (codes "a@x") db ≡ some user
unfolding find_where text_eq
account_a = refl

eight_failures_example :
    login toy text_eq token id 9 (login_with secret) locked_out ≡ (ok (locked 900), locked_out)
eight_failures_example =
    eight_failures toy text_eq (codes "a@x") user seven wrong token id 9 (login_with secret) db
      account_a refl refl refl refl refl (omega arith)
