-- ===== src/Rbac.antt =====
-- rbac/permissions.ts: the permission matrix and the rules on role changes.
pub mod Rules
use z_shield.Prelude.{
  ℕ, suc, Bool, true, false, not, ◌&&◌, ◌||◌, Option, none, some, List, [], ◌∷◌, ltb, leb, ◌==◌,
  if◌then◌else◌,
}
use z_shield.Text.{Text, text_eq}

-- `ROLES`
pub data Role : Type 0 where
  owner admin staff viewer : Role

-- `PERMISSIONS`, in the order of the source
pub data Permission : Type 0 where
  server_read server_write server_delete credential_manage command_issue : Permission
  configuration_write alert_read alert_triage incident_read incident_write : Permission
  member_read member_manage owner_manage audit_read analytics_read : Permission
  billing_manage organization_delete notification_manage detection_read : Permission
  ban_read ban_manage rule_read rule_manage anticheat_configure : Permission

abbrev pub roles : List Role
roles = owner ∷ admin ∷ staff ∷ viewer ∷ []

abbrev pub permissions : List Permission
permissions =
    server_read ∷ server_write ∷ server_delete ∷ credential_manage ∷ command_issue
    ∷ configuration_write ∷ alert_read ∷ alert_triage ∷ incident_read ∷ incident_write ∷ member_read
    ∷ member_manage ∷ owner_manage ∷ audit_read ∷ analytics_read ∷ billing_manage
    ∷ organization_delete ∷ notification_manage ∷ detection_read ∷ ban_read ∷ ban_manage ∷ rule_read
    ∷ rule_manage ∷ anticheat_configure ∷ []

-- The position of a permission in `PERMISSIONS`: two permissions are equal if theirs are.
abbrev pub index : Permission → ℕ
index server_read = 0
index server_write = 1
index server_delete = 2
index credential_manage = 3
index command_issue = 4
index configuration_write = 5
index alert_read = 6
index alert_triage = 7
index incident_read = 8
index incident_write = 9
index member_read = 10
index member_manage = 11
index owner_manage = 12
index audit_read = 13
index analytics_read = 14
index billing_manage = 15
index organization_delete = 16
index notification_manage = 17
index detection_read = 18
index ban_read = 19
index ban_manage = 20
index rule_read = 21
index rule_manage = 22
index anticheat_configure = 23

abbrev pub permission_eq : Permission → Permission → Bool
permission_eq p q = index p == index q

abbrev pub role_eq : Role → Role → Bool
role_eq owner owner = true
role_eq admin admin = true
role_eq staff staff = true
role_eq viewer viewer = true
role_eq _ _ = false

-- `Set.has`
abbrev pub has : List Permission → Permission → Bool
has [] p = false
has (q ∷ qs) p = permission_eq q p || has qs p

-- `MATRIX`
unfoldable pub matrix : Role → List Permission
matrix owner =
    detection_read ∷ ban_read ∷ ban_manage ∷ rule_read ∷ rule_manage ∷ anticheat_configure
    ∷ server_read ∷ server_write ∷ server_delete ∷ credential_manage ∷ command_issue
    ∷ configuration_write ∷ alert_read ∷ alert_triage ∷ incident_read ∷ incident_write ∷ member_read
    ∷ member_manage ∷ owner_manage ∷ audit_read ∷ analytics_read ∷ billing_manage
    ∷ organization_delete ∷ notification_manage ∷ []
matrix admin =
    detection_read ∷ ban_read ∷ ban_manage ∷ rule_read ∷ rule_manage ∷ anticheat_configure
    ∷ server_read ∷ server_write ∷ server_delete ∷ credential_manage ∷ command_issue
    ∷ configuration_write ∷ alert_read ∷ alert_triage ∷ incident_read ∷ incident_write ∷ member_read
    ∷ member_manage ∷ audit_read ∷ analytics_read ∷ notification_manage ∷ []
matrix staff =
    detection_read ∷ ban_read ∷ ban_manage ∷ rule_read ∷ server_read ∷ alert_read ∷ alert_triage
    ∷ incident_read ∷ incident_write ∷ member_read ∷ analytics_read ∷ []
matrix viewer =
    detection_read ∷ ban_read ∷ rule_read ∷ server_read ∷ alert_read ∷ incident_read ∷ member_read
    ∷ analytics_read ∷ []

unfoldable pub can : Role → Permission → Bool
unfolding matrix
can role p = has (matrix role) p

-- `RANK`
unfoldable pub rank : Role → ℕ
rank viewer = 0
rank staff = 1
rank admin = 2
rank owner = 3

pub data RoleChangeRefusal : Type 0 where
  self_elevation self_demotion_last_owner owner_requires_owner : RoleChangeRefusal
  last_owner_removal insufficient_permission : RoleChangeRefusal

pub record RoleChangeContext : Type 0 where
  pub actor_role : Role
  pub actor_user_id : Text
  pub target_user_id : Text
  pub target_current_role : Role
  pub target_new_role : Role
  pub owner_count : ℕ

-- `checkRoleChange`; `null` is `none`
unfoldable pub check_role_change : RoleChangeContext → Option RoleChangeRefusal
check_role_change ctx =
    let is_self = text_eq ctx.actor_user_id ctx.target_user_id in
    if not (can ctx.actor_role member_manage)
    then some insufficient_permission
    else if is_self && ltb (rank ctx.target_current_role) (rank ctx.target_new_role)
    then some self_elevation
    else if (role_eq ctx.target_new_role owner || role_eq ctx.target_current_role owner)
        && not (can ctx.actor_role owner_manage)
    then some owner_requires_owner
    else if role_eq ctx.target_current_role owner
        && not (role_eq ctx.target_new_role owner)
        && leb ctx.owner_count 1
    then (if is_self then some self_demotion_last_owner else some last_owner_removal)
    else none

pub record MemberRemovalContext : Type 0 where
  pub actor_role : Role
  pub actor_user_id : Text
  pub target_user_id : Text
  pub target_role : Role
  pub owner_count : ℕ

-- `checkMemberRemoval`
unfoldable pub check_member_removal : MemberRemovalContext → Option RoleChangeRefusal
check_member_removal ctx =
    if not (can ctx.actor_role member_manage)
    then some insufficient_permission
    else if role_eq ctx.target_role owner && not (can ctx.actor_role owner_manage)
    then some owner_requires_owner
    else if role_eq ctx.target_role owner && leb ctx.owner_count 1
    then some last_owner_removal
    else none
