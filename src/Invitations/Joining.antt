-- ===== src/Invitations/Joining.antt =====
-- The public routes of /api/invitations of api/routes.ts: a code is looked up and accepted.
use mathlib.Core.Option
use z_shield.Prelude.{
  ℕ, Bool, true, false, not, ◌&&◌, ◌||◌, Option, none, some, List, ltb, length, if◌then◌else◌,
  is_some,
}
use z_shield.Text.{Text, codes, text_eq}
use z_shield.Table.{update_where, find_where, insert_unique, upsert}
use z_shield.Crypto.{Bytes, Node, hash_token, hash_password}
use z_shield.Rbac.{Role}
use z_shield.Tenant.{Result, ok, err, violation, unavailable}
use z_shield.Db.{User, Membership, Invitation, Organization, Db}
use z_shield.Auth.Sessions.{SessionRecord, create_session, audit}

-- The replies of GET /api/invitations/lookup.
pub data Lookup : Type 0 where
  invalid_code unknown already_accepted expired : Lookup
  valid : Text → Text → Role → Lookup

abbrev pub of_code : Text → Invitation → Bool
of_code hash i = text_eq i.token_hash hash

-- What the holder of a code sends, after `inviteAcceptSchema`.
pub record InviteAccept : Type 0 where
  pub code : Text
  pub display_name : Text
  pub password : Text
  pub ip : Option Text
  pub user_agent : Option Text

-- What is drawn when a code is accepted.
pub record AcceptIds : Type 0 where
  pub user_id : Text
  pub membership_id : Text
  pub token : Text
  pub session_id : Text

-- The replies of POST /api/invitations/accept: 400, and 201 with the session that was opened.
pub data Acceptance : Type 0 where
  invalid_or_expired : Acceptance
  joined : Text → SessionRecord → Text → Acceptance

module _ (node : Node) where
  abbrev described : ℕ → Invitation → Organization → Lookup
  described now i organization =
      if is_some i.accepted_at
      then already_accepted
      else if ltb i.expires_at now
      then expired
      else valid organization.name i.email i.role

  -- the join on the organization
  abbrev looked_up : ℕ → Option Invitation → Db → Lookup
  looked_up now none db = unknown
  looked_up now (some i) db =
      elim (find_where (λ o. text_eq o.id i.organization_id) db.organizations) [
        | none ↦ unknown
        | some organization ↦ described now i organization
      ]

  -- GET /api/invitations/lookup; no code is one that is too short
  unfoldable pub lookup_invitation : Text → ℕ → Db → Lookup
  lookup_invitation code now db =
      if ltb (length code) 10
      then invalid_code
      else looked_up now (find_where (of_code (hash_token node code)) db.invitations) db

module _ (node : Node) (same_email : Text → Text → Bool) (ids : AcceptIds) (input : InviteAccept)
    (now : ℕ) where
  abbrev pub is_open : Invitation → Bool
  is_open i = not (is_some i.accepted_at) && not (ltb i.expires_at now)

  abbrev new_user : Text → Invitation → User
  new_user hash i = record {
    id = ids.user_id;
    email = i.email;
    password_hash = hash;
    display_name = input.display_name;
    email_verified_at = some now;
    mfa_enforced = false;
    failed_logins = 0;
    locked_until = none;
    last_login_at = none;
    deleted_at = none;
  }

  -- the account of the e-mail address, or a new one
  abbrev pub account_for : Text → Invitation → Db → Option (Text × List User)
  account_for hash i db = elim (find_where (λ u. same_email u.email i.email) db.users) [
    | some existing ↦ some (existing.id, db.users)
    | none ↦
        Option.map (λ users. (ids.user_id, users))
          (insert_unique (λ u. text_eq u.id ids.user_id || same_email u.email i.email)
            (new_user hash i) db.users)
  ]

  abbrev pub is_membership : Text → Text → Membership → Bool
  is_membership organization_id user_id m =
      text_eq m.organization_id organization_id && text_eq m.user_id user_id

  -- the INSERT … ON CONFLICT (organization_id, user_id) DO UPDATE
  unfoldable pub put_membership : Text → Invitation → List Membership → Option (List Membership)
  unfolding upsert
  put_membership user_id i rows =
      upsert (is_membership i.organization_id user_id)
        (λ m. record m { role = i.role; accepted_at = some now }) (λ m. false)
        (λ m. text_eq m.id ids.membership_id)
        (record {
          id = ids.membership_id;
          organization_id = i.organization_id;
          user_id = user_id;
          role = i.role;
          accepted_at = some now;
          created_at = now;
          updated_at = now;
        })
        rows

  -- the writes after the account
  abbrev pub wrote : Text → List User → List Membership → Invitation → Db → Db
  wrote user_id users memberships i db =
      audit (some i.organization_id) (some user_id) (codes "invitation.accepted") (some i.id) none
        (record db {
          users = users;
          memberships = memberships;
          invitations =
              update_where (λ r. text_eq r.id i.id) (λ r. record r { accepted_at = some now })
                db.invitations;
        })

  abbrev pub join_as : Invitation → Text × List User → Db → Option (Text × Db)
  join_as i (user_id, users) db =
      Option.map (λ memberships. (user_id, wrote user_id users memberships i db))
        (put_membership user_id i db.memberships)

  -- the transaction on an open invitation
  unfoldable pub join : Text → Invitation → Db → Option (Text × Db)
  join hash i db = elim (account_for hash i db) [
    | none ↦ none
    | some account ↦ join_as i account db
  ]

  abbrev replied : Text → Result (Text × SessionRecord) × Db → Result Acceptance × Db
  replied organization_id (ok (token, session), db) =
      (ok (joined token session organization_id), db)
  replied organization_id (err e, db) = (err e, db)

  -- after the transaction: the session on the organization that was joined
  abbrev pub enter : Invitation → Option (Text × Db) → Db → Result Acceptance × Db
  enter i none db = (err violation, db)
  enter i (some (user_id, after)) db = replied i.organization_id (
      create_session node ids.token ids.session_id now
        (record {
          user_id = user_id;
          mfa_satisfied = true;
          organization_id = some i.organization_id;
          ip = input.ip;
          user_agent = input.user_agent;
        })
        after)

  abbrev accept_found : Text → Option Invitation → Db → Result Acceptance × Db
  accept_found hash none db = (ok invalid_or_expired, db)
  accept_found hash (some i) db =
      if is_open i then enter i (join hash i db) db else (ok invalid_or_expired, db)

  -- POST /api/invitations/accept, after its schema; an exception of the hash comes before the
  -- transaction
  unfoldable pub accept_invitation : Bytes → Db → Result Acceptance × Db
  accept_invitation salt db = elim (hash_password node input.password salt) [
    | none ↦ (err unavailable, db)
    | some hash ↦
        accept_found hash (find_where (of_code (hash_token node input.code)) db.invitations) db
  ]
