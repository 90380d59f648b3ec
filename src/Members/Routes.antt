-- ===== src/Members/Routes.antt =====
-- The routes of memberships keep the owners, whatever the guard says.
use z_shield.Prelude.{ℕ, Option, none, some, List}
use z_shield.Text.{Text, codes}
use z_shield.Crypto.{Node}
use z_shield.Rbac.{Role, member_manage}
use z_shield.Db.{Membership, Db}
use z_shield.Auth.Sessions.{audit}
use z_shield.Middleware.{Request, RequestActor}
use z_shield.Middleware.Keeps.{Keeps, Keeps-bind, Keeps-pure, Keeps-with_tenant, Keeps-require}
use z_shield.Members.{
  validation, not_found, refused, status_ok, Change, missing, denied, changed, change_role,
  remove_member, revoke_member_sessions, audited, update_sessions, reply_change, patch_with,
  patch_membership, reply_removal, delete_membership,
}
use z_shield.Members.Owners.{HasOwner, change_role-HasOwner, remove_member-HasOwner}

module _ (node : Node) (other : Text) where
  abbrev Owned : List Membership → Type 0
  Owned = HasOwner other

  audited-Keeps :
      (actor : RequestActor) (action target : Text) (ip : Option Text)
      → Keeps Owned (audited actor action target ip)
  unfolding audit
  audited-Keeps actor action target ip = Keeps-with_tenant Owned actor.organization_id _ (λ db h. h)

  patch_with-Keeps :
      (request : Request) (id : Text) (now : ℕ) (actor : RequestActor) (body : Option Role)
      → Keeps Owned (patch_with node request id now actor body)
  patch_with-Keeps request id now actor none = Keeps-pure Owned validation
  patch_with-Keeps request id now actor (some new_role) =
      Keeps-bind Owned _ _
        (Keeps-with_tenant Owned actor.organization_id (change_role actor id new_role now)
          (λ db h. change_role-HasOwner actor id other new_role now db h))
        reply
    where
      reply : (c : Change) → Keeps Owned (reply_change node request actor id c)
      reply missing = Keeps-pure Owned not_found
      reply (denied refusal) = Keeps-pure Owned (refused refusal)
      reply (changed u) =
          Keeps-bind Owned _ _ (audited-Keeps actor (codes "member.role_changed") id request.ip)
            (λ _. Keeps-pure Owned status_ok)

  -- Whatever the request, its body and the time, PATCH /api/memberships/:id leaves every organization
  -- that had an OWNER with one, and the identifiers of memberships unique.
  pub patch_membership-HasOwner :
      (request : Request) (id : Text) (body : Option Role) (now : ℕ) (db : Db)
      → HasOwner other db.memberships
      → HasOwner other (patch_membership node request id body now db).1.memberships
  unfolding patch_membership
  patch_membership-HasOwner request id body now db h =
      (Keeps-bind Owned _ _ (Keeps-require node Owned request member_manage now)
          (λ actor. patch_with-Keeps request id now actor body)).at
        db h

  removed-Keeps :
      (request : Request) (actor : RequestActor) (id : Text) (now : ℕ) (c : Change)
      → Keeps Owned (reply_removal node request actor id now c)
  removed-Keeps request actor id now missing = Keeps-pure Owned not_found
  removed-Keeps request actor id now (denied refusal) = Keeps-pure Owned (refused refusal)
  removed-Keeps request actor id now (changed u) = Keeps-bind Owned _ _ (revoked u) (λ _.
      Keeps-bind Owned _ _ (audited-Keeps actor (codes "member.removed") id request.ip)
        (λ _. Keeps-pure Owned status_ok))
    where
      revoked : (u : Text) → Keeps Owned (update_sessions u actor.organization_id now)
      revoked u = record { at = λ db h. unfold revoke_member_sessions in h }

  -- The same of DELETE /api/memberships/:id.
  pub delete_membership-HasOwner :
      (request : Request) (id : Text) (now : ℕ) (db : Db)
      → HasOwner other db.memberships
      → HasOwner other (delete_membership node request id now db).1.memberships
  unfolding delete_membership
  delete_membership-HasOwner request id now db h =
      (Keeps-bind Owned _ _ (Keeps-require node Owned request member_manage now) (λ actor.
          Keeps-bind Owned _ _
            (Keeps-with_tenant Owned actor.organization_id (remove_member actor id)
              (λ d k. remove_member-HasOwner actor id other d k))
            (removed-Keeps request actor id now))).at
        db h
