-- ===== src/Tests/Accounts.antt =====
-- Roles, memberships and sessions of an organization.
use z_shield.Prelude.{◌≡◌, ◌≢◌, ◌↔◌, refl, true, false, none, some, List, [], ◌∷◌, arith}
use z_shield.Text.{Text, codes, text_eq, take, drop}
use z_shield.Table.{find_where, exists_where, count_where, update_where}
use z_shield.Crypto.{hash_token, constant_time_equal}
use z_shield.Tenant.{with_tenant, with_user, is_id}
use z_shield.Rbac.{
  Role, owner, admin, staff, can, rank, RoleChangeContext, check_role_change,
  self_demotion_last_owner,
}
use z_shield.Rbac.Rules.{check_role_change_iff, IsLegitimate}
use z_shield.Db.{User, Session, Membership, Db}
use z_shield.Auth.Sessions.{resolve_session, resolve_role, role_in, audit}
use z_shield.Middleware.{Request, RequestActor, Exit, done, require, verify_csrf, actor, assert_can}
use z_shield.Members.{
  Reply, refused, status_ok, owner_count, check_change, change_role, set_role, patch_membership,
  delete_membership,
}
use z_shield.Members.Owners.{HasOwner, UniqueIds}
use z_shield.Members.Routes.{patch_membership-HasOwner, delete_membership-HasOwner}
use z_shield.Members.Race.{World, Patch, Reach, quiet, IsDemotion, two_demotions}
use z_shield.Tests.Runtime.{toy}

abbrev pub usr_a : Text
usr_a = codes "usr_aaaaaaaaaaaaaaaaaaaaaaaaaa"

abbrev pub usr_b : Text
usr_b = codes "usr_bbbbbbbbbbbbbbbbbbbbbbbbbb"

abbrev pub token_a : Text
token_a = codes "token-of-the-first-user"

abbrev promotion : RoleChangeContext
promotion = record {
  actor_role = admin;
  actor_user_id = usr_a;
  target_user_id = usr_b;
  target_current_role = staff;
  target_new_role = owner;
  owner_count = 1;
}

check_role_change_iff_example : (check_role_change promotion ≡ none) ↔ IsLegitimate promotion
check_role_change_iff_example = check_role_change_iff promotion

abbrev pub org : Text
org = codes "org_00000000000000000000000000"

abbrev member : Text → Text → Role → Membership
member id user_id role = record {
  id = id;
  organization_id = org;
  user_id = user_id;
  role = role;
  accepted_at = some 0;
  created_at = 0;
  updated_at = 0;
}

abbrev pub rows : List Membership
rows = member (codes "mem_a") (usr_a) owner ∷ member (codes "mem_b") (usr_b) owner ∷ []

abbrev pub actor_a : RequestActor
actor_a = record {
  session = record {
    id = codes "ses_a";
    user_id = usr_a;
    organization_id = some org;
    mfa_satisfied = true;
    expires_at = 1000;
  };
  user = record {
    user_id = usr_a;
    email = codes "a@x";
    display_name = codes "a";
    email_verified = true;
    mfa_enforced = false;
  };
  organization_id = org;
  role = owner;
}

abbrev demote_a : Patch
demote_a = record { actor = actor_a; id = codes "mem_a"; new_role = staff }

abbrev demote_b : Patch
demote_b = record { actor = actor_a; id = codes "mem_b"; new_role = staff }

abbrev pub user_a : User
user_a = record {
  id = usr_a;
  email = codes "a@x";
  password_hash = [];
  display_name = codes "a";
  email_verified_at = some 0;
  mfa_enforced = false;
  failed_logins = 0;
  locked_until = none;
  last_login_at = none;
  deleted_at = none;
}

abbrev pub session_a : Session
session_a = record {
  id = codes "ses_a";
  user_id = usr_a;
  token_hash = token_a;
  organization_id = some org;
  mfa_satisfied = true;
  ip = none;
  user_agent = none;
  last_seen_at = 0;
  expires_at = 1000;
  revoked_at = none;
}

-- One user with a live session, in an organization with two OWNERs.
abbrev pub accounts : Db
accounts = record {
  users = user_a ∷ [];
  mfa_factors = [];
  sessions = session_a ∷ [];
  memberships = rows;
  invitations = [];
  organizations = [];
  subscriptions = [];
  password_resets = [];
  discord_identities = [];
  bans = [];
  detection_feedback = [];
  audit_logs = [];
}

ids_differ : codes "mem_b" ≢ codes "mem_a"
ids_differ e = ground arith

demotes_a : IsDemotion org rows demote_a
unfolding find_where text_eq
demotes_a = record {
  inside = refl;
  by_owner = refl;
  to_other = refl;
  target = member (codes "mem_a") (usr_a) owner;
  found = refl;
  was_owner = refl;
}

demotes_b : IsDemotion org rows demote_b
unfolding find_where text_eq
demotes_b = record {
  inside = refl;
  by_owner = refl;
  to_other = refl;
  target = member (codes "mem_b") (usr_b) owner;
  found = refl;
  was_owner = refl;
}

unique : UniqueIds rows
unique = ((ids_differ, tt), (tt, tt))

two_owners : owner_count org rows ≡ 2
unfolding owner_count count_where text_eq
two_owners = refl

two_demotions_example : (w : World) × Reach (quiet rows) w × (owner_count org w.rows ≡ 0)
two_demotions_example =
    two_demotions org rows demote_a demote_b unique ids_differ two_owners demotes_a demotes_b

owned : HasOwner org rows
owned = record { unique = unique; owned = omega (arith, two_owners) }

abbrev csrf : Text
csrf = codes "0123456789abcdef"

abbrev pub request : Request
request = record {
  method = codes "PATCH";
  session_cookie = some token_a;
  csrf_cookie = some csrf;
  csrf_header = some csrf;
  ip = none;
}

-- The first OWNER demotes the second, and then cannot give up the own role.
abbrev demoted : Exit Reply × Db
demoted = patch_membership toy request (codes "mem_b") (some staff) 5 accounts

demotion_ok : demoted.0 ≡ done status_ok
unfolding patch_membership require verify_csrf constant_time_equal text_eq actor resolve_session
    find_where exists_where hash_token resolve_role with_user with_tenant is_id role_in assert_can
    can change_role check_change owner_count count_where check_role_change set_role update_where
    audit rank take drop
demotion_ok = refl

last_owner_stays :
    (patch_membership toy request (codes "mem_a") (some staff) 6 demoted.1).0
    ≡ done (refused self_demotion_last_owner)
unfolding patch_membership require verify_csrf constant_time_equal text_eq actor resolve_session
    find_where exists_where hash_token resolve_role with_user with_tenant is_id role_in assert_can
    can change_role check_change owner_count count_where check_role_change set_role update_where
    audit rank take drop
last_owner_stays = refl

patch_membership-HasOwner_example : HasOwner org demoted.1.memberships
patch_membership-HasOwner_example =
    patch_membership-HasOwner toy org request (codes "mem_b") (some staff) 5 accounts owned

delete_membership-HasOwner_example :
    HasOwner org (delete_membership toy request (codes "mem_b") 5 accounts).1.memberships
delete_membership-HasOwner_example =
    delete_membership-HasOwner toy org request (codes "mem_b") 5 accounts owned
