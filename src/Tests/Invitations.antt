-- ===== src/Tests/Invitations.antt =====
-- An invitation of an account, whose code the one who invited accepts.
use z_shield.Prelude.{◌≡◌, ◌≢◌, refl, true, none, some, [], ◌∷◌}
use mathlib.Core.Option
use z_shield.Text.{Text, codes, text_eq, take, drop}
use z_shield.Table.{find_where, exists_where, update_where, upsert, insert_unique}
use z_shield.Crypto.{hash_token, hash_password, constant_time_equal}
use z_shield.Rbac.{can}
use z_shield.Tenant.{Result, ok, with_tenant, with_user, is_id}
use z_shield.Db.{User, Db}
use z_shield.Auth.Sessions.{
  SessionRecord, create_session, first_membership, resolve_session, resolve_role, role_in, audit,
}
use z_shield.Middleware.{Exit, verify_csrf, actor, require, assert_can}
use z_shield.Invitations.{
  InviteRole, InviteCreate, Reply, post_invitation, write_invitation, put_invitation,
}
use z_shield.Invitations.Joining.{
  InviteAccept, AcceptIds, Acceptance, joined, put_membership, join, of_code, accept_invitation,
}
use z_shield.Invitations.Accept.{accept_invitation-once, accept_invitation-role_in}
use z_shield.Tests.Runtime.{toy, secret, salt}
use z_shield.Tests.Accounts.{accounts, user_a, usr_b, org, request}

-- another account, with the e-mail address b@x
abbrev user_b : User
user_b = record user_a { id = usr_b; email = codes "b@x" }

abbrev before : Db
before = record accounts { users = user_a ∷ user_b ∷ [] }

abbrev code : Text
code = codes "code-of-an-invitation"

abbrev body : InviteCreate
body = record { email = codes "b@x"; role = InviteRole.viewer }

abbrev posted : Exit Reply × Db
posted = post_invitation toy text_eq request code (codes "inv_1") (some body) 5 before

abbrev input : InviteAccept
input = record {
  code = code;
  display_name = codes "anyone";
  password = secret;
  ip = none;
  user_agent = none;
}

abbrev ids : AcceptIds
ids = record {
  user_id = codes "usr_cccccccccccccccccccccccccc";
  membership_id = codes "mem_c";
  token = codes "a-token-of-an-invitation";
  session_id = codes "ses_c";
}

abbrev accepted : Result Acceptance × Db
accepted = accept_invitation toy text_eq ids input 6 salt posted.1

abbrev session : SessionRecord
session = record {
  id = codes "ses_c";
  user_id = usr_b;
  organization_id = some org;
  mfa_satisfied = true;
  expires_at = 43200006;
}

accepted_runs : accepted ≡ (ok (joined (codes "a-token-of-an-invitation") session org), accepted.1)
unfolding post_invitation write_invitation put_invitation upsert insert_unique require verify_csrf
    constant_time_equal text_eq actor resolve_session find_where exists_where hash_token
    resolve_role with_user with_tenant is_id role_in assert_can can update_where audit take drop
    accept_invitation join put_membership create_session first_membership hash_password
accepted_runs = refl

accept_invitation-role_in_example :
    Option.map (λ i. i.role) (find_where (of_code (hash_token toy code)) posted.1.invitations)
    ≡ role_in usr_b org accepted.1
accept_invitation-role_in_example =
    accept_invitation-role_in toy text_eq ids input 6 salt (codes "a-token-of-an-invitation") org
      session posted.1 accepted.1 accepted_runs

abbrev again : AcceptIds
again = record {
  user_id = codes "usr_dddddddddddddddddddddddddd";
  membership_id = codes "mem_d";
  token = codes "another-token";
  session_id = codes "ses_d";
}

accept_invitation-once_example :
    accept_invitation toy text_eq again input 7 salt accepted.1
    ≢ (ok (joined (codes "another-token") session org), accepted.1)
accept_invitation-once_example =
    accept_invitation-once toy text_eq ids input 6 input again 7 salt salt
      (codes "a-token-of-an-invitation") (codes "another-token") org org session session posted.1
      accepted.1 accepted.1 refl accepted_runs
