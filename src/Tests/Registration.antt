-- ===== src/Tests/Registration.antt =====
-- A registration with the first login, and a login with Discord.
use z_shield.Prelude.{◌≡◌, refl, true, false, ◌||◌, none, some, [], arith}
use z_shield.Text.{Text, codes, text_eq, take, drop}
use z_shield.Table.{find_where, exists_where, update_where, insert_unique}
use z_shield.Crypto.{hash_token, hash_password}
use z_shield.Rbac.{owner}
use z_shield.Tenant.{Result, ok, with_user, is_id}
use z_shield.Db.{Db}
use z_shield.Auth.Sessions.{SessionRecord, create_session, first_membership, role_in, audit}
use z_shield.Auth.Login.{LoginInput, logged_in, login, has_mfa}
use z_shield.Auth.Accounts.{
  FreshIds, RegisterInput, Registration, created, insert_account, unique_slug, slug_base, try_slugs,
  register,
}
use z_shield.Auth.Accounts.FirstLogin.{register-login}
use z_shield.Auth.Discord.{
  DiscordInput, DiscordLoginOutcome, Drawn, entered, finalize, login_with_discord,
}
use z_shield.Auth.Discord.Linking.{Reason, login_with_discord-Reason}
use z_shield.Tests.Runtime.{toy, toy_laws, secret, salt}
use z_shield.Tests.Accounts.{accounts, usr_a, org}

abbrev ids : FreshIds
ids = record {
  user_id = codes "usr_nnnnnnnnnnnnnnnnnnnnnnnnnn";
  organization_id = codes "org_nnnnnnnnnnnnnnnnnnnnnnnnnn";
  membership_id = codes "mem_n";
  subscription_id = codes "sub_n";
}

abbrev input : RegisterInput
input = record {
  email = codes "n@x";
  password = secret;
  display_name = codes "n";
  organization_name = codes "my  server!";
}

-- lower case already
abbrev fold : Text → Text
fold s = s

abbrev registered : Result Registration × Db
registered = register toy text_eq fold salt ids (codes "m0") input 5 accounts

slug_runs : unique_slug fold (codes "m0") (codes "my  server!") [] ≡ codes "my-server"
unfolding unique_slug slug_base try_slugs exists_where take
slug_runs = refl

registered_runs : registered ≡ (ok (created ids.user_id ids.organization_id), registered.1)
unfolding register hash_password insert_account insert_unique exists_where text_eq take
registered_runs = refl

no_factor : has_mfa ids.user_id accounts ≡ false
unfolding has_mfa exists_where
no_factor = refl

well_formed : is_id (codes "usr_") ids.user_id ≡ true
unfolding is_id text_eq take drop
well_formed = refl

same : text_eq (codes "n@x") (codes "n@x") ≡ true
unfolding text_eq
same = refl

new_session :
    exists_where
      (λ r.
        text_eq r.id (codes "ses_n")
        || text_eq r.token_hash (hash_token toy (codes "a-token-of-a-login")))
      registered.1.sessions
    ≡ false
unfolding register hash_password insert_account insert_unique exists_where text_eq take hash_token
    audit
new_session = refl

abbrev entry : LoginInput
entry = record { email = codes "n@x"; password = secret; ip = none; user_agent = none }

register-login_example :
    (s : SessionRecord) × (db : Db) × (login toy text_eq
        (codes "a-token-of-a-login")
        (codes "ses_n")
        6
        entry
        registered.1
      ≡ (ok (logged_in (codes "a-token-of-a-login") s), db))
    × (s.user_id ≡ ids.user_id)
    × (s.mfa_satisfied ≡ true)
    × (role_in ids.user_id ids.organization_id db ≡ some owner)
register-login_example =
    register-login toy text_eq fold salt ids (codes "m0") input 5 6 entry
      (codes "a-token-of-a-login") (codes "ses_n") ids.user_id ids.organization_id accounts
      registered.1 toy_laws (omega arith) same no_factor well_formed registered_runs refl refl
      new_session

abbrev drawn : Drawn
drawn = record {
  token = codes "a-token-of-a-login";
  session_id = codes "ses_n";
  ids = ids;
  salt = salt;
  password = secret;
  stamp = codes "m0";
}

abbrev identity : DiscordInput
identity = record {
  discord_user_id = codes "1234";
  email = some (codes "a@x");
  email_verified = true;
  username = none;
  avatar_url = none;
  display_name = codes "a";
  ip = none;
  user_agent = none;
}

abbrev outcome : Result DiscordLoginOutcome × Db
outcome = login_with_discord toy text_eq fold drawn identity 5 accounts

abbrev session : SessionRecord
session = record {
  id = codes "ses_n";
  user_id = usr_a;
  organization_id = some org;
  mfa_satisfied = true;
  expires_at = 43200005;
}

outcome_runs : outcome ≡ (ok (entered (codes "a-token-of-a-login") session), outcome.1)
unfolding login_with_discord finalize insert_unique find_where exists_where update_where text_eq
    has_mfa create_session with_user is_id first_membership hash_token audit take drop
outcome_runs = refl

login_with_discord-Reason_example :
    Reason toy text_eq fold drawn identity 5 session accounts × (session.mfa_satisfied ≡ true)
login_with_discord-Reason_example =
    login_with_discord-Reason toy text_eq fold drawn identity 5 (codes "a-token-of-a-login") session
      accounts outcome.1 outcome_runs
