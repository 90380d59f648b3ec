-- ===== src/Members.antt =====
-- The routes PATCH and DELETE /api/memberships/:id of api/routes.ts.
pub mod Owners
pub mod Routes
pub mod Race
use z_shield.Prelude.{
  ℕ, Bool, true, false, not, ◌&&◌, Option, none, some, List, [], ◌∷◌, if◌then◌else◌, is_some,
}
use z_shield.Text.{Text, codes, text_eq}
use z_shield.Text.Lines.{opt_eq}
use z_shield.Table.{update_where, delete_where, find_where, count_where}
use z_shield.Crypto.{Node}
use z_shield.Rbac.{
  Role, owner, member_manage, role_eq, RoleChangeRefusal, check_role_change, check_member_removal,
}
use z_shield.Tenant.{Result, ok, with_tenant}
use z_shield.Db.{Membership, Session, Db}
use z_shield.Auth.Sessions.{audit}
use z_shield.Middleware.{Request, RequestActor, Handler, done, ◌>>=◌, ◌>>◌, pure, run, require}

-- The bodies and statuses of the replies: 400, 404, 403 with the refusal, 200.
pub data Reply : Type 0 where
  validation not_found : Reply
  refused : RoleChangeRefusal → Reply
  status_ok : Reply

-- The result of the transaction: the user whose membership changed.
pub data Change : Type 0 where
  missing : Change
  denied : RoleChangeRefusal → Change
  changed : Text → Change

-- WHERE id = $1 AND organization_id = $2
abbrev pub is_row : Text → Text → Membership → Bool
is_row id organization_id m = text_eq m.id id && text_eq m.organization_id organization_id

abbrev pub is_owner_of : Text → Membership → Bool
is_owner_of organization_id m = text_eq m.organization_id organization_id && role_eq m.role owner

-- SELECT count(*) … role = 'OWNER'
unfoldable pub owner_count : Text → List Membership → ℕ
owner_count organization_id rows = count_where (is_owner_of organization_id) rows

-- The reads and the check of the PATCH: what is decided before the UPDATE.
abbrev decided : Text → Option RoleChangeRefusal → Change
decided user_id none = changed user_id
decided user_id (some refusal) = denied refusal

abbrev decide_change : RequestActor → Role → ℕ → Option Membership → Change
decide_change actor new_role owners none = missing
decide_change actor new_role owners (some target) = decided target.user_id (
    check_role_change (record {
      actor_role = actor.role;
      actor_user_id = actor.user.user_id;
      target_user_id = target.user_id;
      target_current_role = target.role;
      target_new_role = new_role;
      owner_count = owners;
    }))

unfoldable pub check_change : RequestActor → Text → Role → List Membership → Change
check_change actor id new_role rows =
    decide_change actor new_role (owner_count actor.organization_id rows)
      (find_where (is_row id actor.organization_id) rows)

-- The UPDATE of the PATCH.
unfoldable pub set_role : Text → Text → Role → ℕ → List Membership → List Membership
set_role id organization_id new_role now rows =
    update_where (is_row id organization_id) (λ m. record m { role = new_role; updated_at = now })
      rows

abbrev is_changed : Change → Bool
is_changed (changed user_id) = true
is_changed _ = false

-- The transaction of the PATCH.
unfoldable pub change_role : RequestActor → Text → Role → ℕ → Db → Result Change × Db
change_role actor id new_role now db =
    let change = check_change actor id new_role db.memberships in
    (
      ok change,
      (if is_changed change
          then record db {
            memberships = set_role id actor.organization_id new_role now db.memberships;
          }
          else db),
    )

abbrev decide_removal : RequestActor → ℕ → Option Membership → Change
decide_removal actor owners none = missing
decide_removal actor owners (some target) = decided target.user_id (
    check_member_removal (record {
      actor_role = actor.role;
      actor_user_id = actor.user.user_id;
      target_user_id = target.user_id;
      target_role = target.role;
      owner_count = owners;
    }))

unfoldable pub check_removal : RequestActor → Text → List Membership → Change
check_removal actor id rows =
    decide_removal actor (owner_count actor.organization_id rows)
      (find_where (is_row id actor.organization_id) rows)

-- The transaction of the DELETE.
unfoldable pub remove_member : RequestActor → Text → Db → Result Change × Db
remove_member actor id db =
    let change = check_removal actor id db.memberships in
    (
      ok change,
      (if is_changed change
          then record db {
            memberships = delete_where (is_row id actor.organization_id) db.memberships;
          }
          else db),
    )

-- The revocation of the sessions that a removed member holds on the organization.
abbrev pub on_organization : Text → Text → Session → Bool
on_organization user_id organization_id s =
    text_eq s.user_id user_id
    && (opt_eq s.organization_id organization_id && not (is_some s.revoked_at))

unfoldable pub revoke_member_sessions : Text → Text → ℕ → Db → Db
revoke_member_sessions user_id organization_id now db = record db {
  sessions =
      update_where (on_organization user_id organization_id)
        (λ s. record s { revoked_at = some now }) db.sessions;
}

-- `audit` of api/routes.ts
abbrev pub audited : RequestActor → Text → Text → Option Text → Handler (Unit {0})
audited actor action target_id ip = run (
    with_tenant actor.organization_id (λ db. (
      ok tt,
      audit (some actor.organization_id) (some actor.user.user_id) action (some target_id) ip db,
    )))

abbrev update_sessions : Text → Text → ℕ → Handler (Unit {0})
update_sessions user_id organization_id now db =
    (done tt, revoke_member_sessions user_id organization_id now db)

module _ (node : Node) where
  abbrev reply_change : Request → RequestActor → Text → Change → Handler Reply
  reply_change request actor id missing = pure not_found
  reply_change request actor id (denied refusal) = pure (refused refusal)
  reply_change request actor id (changed user_id) = do
    audited actor (codes "member.role_changed") id request.ip
    pure status_ok

  abbrev patch_with : Request → Text → ℕ → RequestActor → Option Role → Handler Reply
  patch_with request id now actor none = pure validation
  patch_with request id now actor (some new_role) = do
    change ← run (with_tenant actor.organization_id (change_role actor id new_role now))
    reply_change request actor id change

  -- PATCH /api/memberships/:id; the body is `none` where it is not a role
  unfoldable pub patch_membership : Request → Text → Option Role → ℕ → Handler Reply
  patch_membership request id body now = do
    actor ← require node request member_manage now
    patch_with request id now actor body

  abbrev reply_removal : Request → RequestActor → Text → ℕ → Change → Handler Reply
  reply_removal request actor id now missing = pure not_found
  reply_removal request actor id now (denied refusal) = pure (refused refusal)
  reply_removal request actor id now (changed user_id) = do
    update_sessions user_id actor.organization_id now
    audited actor (codes "member.removed") id request.ip
    pure status_ok

  -- DELETE /api/memberships/:id
  unfoldable pub delete_membership : Request → Text → ℕ → Handler Reply
  delete_membership request id now = do
    actor ← require node request member_manage now
    change ← run (with_tenant actor.organization_id (remove_member actor id))
    reply_removal request actor id now change
