-- ===== src/Rbac/Rules.antt =====
-- What the matrix and the two checks of rbac/permissions.ts allow.
use z_shield.Prelude.{◌≤◌, ◌≡◌, refl, ◌≢◌, ◌⊎◌, ◌↔◌, true, none, arith}
use z_shield.Text.Lines.{text_eq_iff}
use z_shield.Rbac.{
  Role, owner, admin, staff, viewer, Permission, server_read, can, rank, role_eq, check_role_change,
  RoleChangeContext, member_manage, owner_manage,
}

staff_of_viewer : (p : Permission) → can viewer p ≡ true → can staff p ≡ true
unfolding can
staff_of_viewer server_read h = ground arith
staff_of_viewer _ h = ground arith

admin_of_staff : (p : Permission) → can staff p ≡ true → can admin p ≡ true
unfolding can
admin_of_staff server_read h = ground arith
admin_of_staff _ h = ground arith

pub can_owner : (p : Permission) → can owner p ≡ true
unfolding can
can_owner server_read = ground arith
can_owner _ = ground arith

-- The roles form a ladder: whatever a role may do, every role of the same or a higher rank may do.
pub can_mono : (r s : Role) (p : Permission) → rank r ≤ rank s → can r p ≡ true → can s p ≡ true
unfolding rank
can_mono r owner p h k = can_owner p
can_mono admin admin p h k = k
can_mono staff admin p h k = admin_of_staff p k
can_mono viewer admin p h k = admin_of_staff p (staff_of_viewer p k)
can_mono staff staff p h k = k
can_mono viewer staff p h k = staff_of_viewer p k
can_mono viewer viewer p h k = k
can_mono _ _ p h k = absurd (omega arith)

pub can-member_manage : (r : Role) → can r member_manage ≡ true → (r ≡ owner) ⊎ (r ≡ admin)
unfolding can
can-member_manage owner h = ground arith
can-member_manage _ h = ground arith

admin_manages : can admin member_manage ≡ true
unfolding can
admin_manages = refl

pub can-owner_manage : (r : Role) → can r owner_manage ≡ true → r ≡ owner
unfolding can
can-owner_manage owner h = ground arith
can-owner_manage _ h = ground arith

-- What an accepted role change guarantees, whoever asks for it.
pub record IsLegitimate (ctx : RoleChangeContext) : Type 0 where
  -- only OWNER and ADMIN change roles
  pub by_manager : (ctx.actor_role ≡ owner) ⊎ (ctx.actor_role ≡ admin)
  -- nobody raises the rank of the own account
  pub no_self_elevation :
      (ctx.actor_user_id ≢ ctx.target_user_id)
      ⊎ (rank ctx.target_new_role ≤ rank ctx.target_current_role)
  -- the OWNER role is given and taken by an OWNER
  pub owner_by_owner :
      (ctx.actor_role ≡ owner) ⊎ ((ctx.target_new_role ≢ owner) × (ctx.target_current_role ≢ owner))
  -- an OWNER who loses the role leaves another one
  pub not_last :
      (ctx.target_current_role ≢ owner) ⊎ ((ctx.target_new_role ≡ owner) ⊎ (2 ≤ ctx.owner_count))

pub role_eq_iff : (r s : Role) → (role_eq r s ≡ true) ↔ (r ≡ s)
role_eq_iff owner s = (λ h. ground arith, λ h. ground arith)
role_eq_iff _ s = (λ h. ground arith, λ h. ground arith)

-- A role change is accepted exactly when it is legitimate: an OWNER or an ADMIN asks for it, nobody
-- raises the own rank, the OWNER role is touched by an OWNER, and an OWNER is left.
pub check_role_change_iff :
    (ctx : RoleChangeContext) → (check_role_change ctx ≡ none) ↔ IsLegitimate ctx
unfolding check_role_change
check_role_change_iff ctx =
    let same = text_eq_iff ctx.actor_user_id ctx.target_user_id in
    let now_owner = role_eq_iff ctx.target_current_role owner in
    let new_owner = role_eq_iff ctx.target_new_role owner in
    let manages = can-member_manage ctx.actor_role in
    let owns = can-owner_manage ctx.actor_role in
    (
      λ h. record {
        by_manager = ground (arith, manages);
        no_self_elevation = ground (arith, same);
        owner_by_owner = ground (arith, owns, now_owner, new_owner);
        not_last = ground (arith, now_owner, new_owner);
      },
      λ v. ground (
        arith,
        same,
        manages,
        owns,
        now_owner,
        new_owner,
        can_owner member_manage,
        can_owner owner_manage,
        admin_manages,
      ),
    )

pub rank-le_owner : (r : Role) → rank r ≤ rank owner
unfolding rank
rank-le_owner owner = omega arith
rank-le_owner _ = omega arith
