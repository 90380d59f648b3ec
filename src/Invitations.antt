-- ===== src/Invitations.antt =====
-- The routes of /api/invitations of api/routes.ts: an invitation is a code that joins its holder to
-- an organization.
pub mod Joining
pub mod Opening
pub mod Entering
pub mod Accept
pub mod Offers
pub mod Takeover
use mathlib.Core.Option
use z_shield.Prelude.{
  ℕ, ◌+◌, Bool, true, false, not, ◌&&◌, ◌||◌, Option, none, some, List, [], ◌∷◌, ltb, length,
  if◌then◌else◌, is_some,
}
use z_shield.Text.{Text, codes, text_eq}
use z_shield.Table.{update_where, delete_where, find_where, exists_where, insert_unique, upsert}
use z_shield.Crypto.{Bytes, Node, hash_token, hash_password}
use z_shield.Rbac.{Role, member_manage}
use z_shield.Tenant.{Result, ok, err, violation, unavailable, with_tenant}
use z_shield.Db.{User, Membership, Invitation, Organization, Db}
use z_shield.Auth.Sessions.{SessionRecord, create_session, audit}
use z_shield.Middleware.{Request, RequestActor, Handler, ◌>>=◌, ◌>>◌, pure, run, require}
use z_shield.Members.{audited}

-- `INVITE_TTL_DAYS` days
abbrev pub invite_ttl : ℕ
invite_ttl = 604800000

-- `inviteRoleSchema`
pub data InviteRole : Type 0 where
  admin staff viewer : InviteRole

abbrev pub role_of : InviteRole → Role
role_of InviteRole.admin = Role.admin
role_of InviteRole.staff = Role.staff
role_of InviteRole.viewer = Role.viewer

-- What `inviteCreateSchema` accepts.
pub record InviteCreate : Type 0 where
  pub email : Text
  pub role : InviteRole

-- The bodies and statuses of the replies of the guarded routes: 400, 404, 201 with the code, 200.
pub data Reply : Type 0 where
  validation not_found : Reply
  invited : Text → Text → InviteRole → ℕ → Reply
  status_ok : Reply

-- a constraint's exception, or the rows after
abbrev pub stored : Option (List Invitation) → Db → Result (Unit {0}) × Db
stored none db = (err violation, db)
stored (some rows) db = (ok tt, record db { invitations = rows })

module _ (same_email : Text → Text → Bool) where
  -- UNIQUE (organization_id, email)
  abbrev pub is_invitation : Text → Text → Invitation → Bool
  is_invitation organization_id email i =
      text_eq i.organization_id organization_id && same_email i.email email

  -- SET role = EXCLUDED.role, …
  abbrev pub renew : Invitation → Invitation → Invitation
  renew new i = record i {
    role = new.role;
    token_hash = new.token_hash;
    invited_by = new.invited_by;
    expires_at = new.expires_at;
    accepted_at = none;
    created_at = new.created_at;
  }

  unfoldable pub put_invitation : Invitation → List Invitation → Option (List Invitation)
  unfolding upsert
  put_invitation new rows =
      let here = is_invitation new.organization_id new.email in
      upsert here (renew new) (λ i. text_eq i.token_hash new.token_hash && not (here i))
        (λ i. text_eq i.id new.id || text_eq i.token_hash new.token_hash) new rows

module _ (node : Node) (same_email : Text → Text → Bool) where
  abbrev pub drafted : Text → Text → RequestActor → InviteCreate → ℕ → Invitation
  drafted code id actor body now = record {
    id = id;
    organization_id = actor.organization_id;
    email = body.email;
    role = role_of body.role;
    token_hash = hash_token node code;
    invited_by = actor.user.user_id;
    expires_at = now + invite_ttl;
    accepted_at = none;
    created_at = now;
  }

  -- the transaction of POST /api/invitations
  unfoldable pub write_invitation :
      Text → Text → RequestActor → InviteCreate → ℕ → Db → Result (Unit {0}) × Db
  unfolding put_invitation
  write_invitation code id actor body now db =
      stored (put_invitation same_email (drafted code id actor body now) db.invitations) db

  abbrev pub invite : Request → Text → Text → ℕ → RequestActor → Option InviteCreate → Handler Reply
  invite request code id now actor none = pure validation
  invite request code id now actor (some body) = do
    run (with_tenant actor.organization_id (write_invitation code id actor body now))
    audited actor (codes "invitation.created") id request.ip
    pure (invited code body.email body.role (now + invite_ttl))

  -- POST /api/invitations, with the code and the identifier that were drawn; the body is `none`
  -- where the schema refuses it
  unfoldable pub post_invitation : Request → Text → Text → Option InviteCreate → ℕ → Handler Reply
  post_invitation request code id body now = do
    actor ← require node request member_manage now
    invite request code id now actor body

  -- WHERE organization_id = $1 AND id = $2 AND accepted_at IS NULL
  abbrev pub is_pending : Text → Text → Invitation → Bool
  is_pending organization_id id i =
      text_eq i.organization_id organization_id && (text_eq i.id id && not (is_some i.accepted_at))

  unfoldable pub revoke_invitation : Text → Text → Db → Result Bool × Db
  revoke_invitation organization_id id db = (
    ok (exists_where (is_pending organization_id id) db.invitations),
    record db { invitations = delete_where (is_pending organization_id id) db.invitations },
  )

  abbrev reply_revoked : Request → RequestActor → Text → Bool → Handler Reply
  reply_revoked request actor id false = pure not_found
  reply_revoked request actor id true = do
    audited actor (codes "invitation.revoked") id request.ip
    pure status_ok

  -- DELETE /api/invitations/:id
  unfoldable pub delete_invitation : Request → Text → ℕ → Handler Reply
  delete_invitation request id now = do
    actor ← require node request member_manage now
    gone ← run (with_tenant actor.organization_id (revoke_invitation actor.organization_id id))
    reply_revoked request actor id gone
