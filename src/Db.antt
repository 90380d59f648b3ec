-- ===== src/Db.antt =====
-- db/migrations: the tables of accounts and organizations, a list of rows each. Times are in
-- milliseconds, `none` is NULL; a column that no modelled statement reads is left out.
use z_shield.Prelude.{ℕ, Bool, Option, List}
use z_shield.Text.{Text}
use z_shield.Rbac.{Role}

pub record User : Type 0 where
  pub id : Text
  pub email : Text
  pub password_hash : Text
  pub display_name : Text
  pub email_verified_at : Option ℕ
  pub mfa_enforced : Bool
  pub failed_logins : ℕ
  pub locked_until : Option ℕ
  pub last_login_at : Option ℕ
  pub deleted_at : Option ℕ

pub record MfaFactor : Type 0 where
  pub user_id : Text
  pub confirmed_at : Option ℕ

pub record Session : Type 0 where
  pub id : Text
  pub user_id : Text
  pub token_hash : Text
  pub organization_id : Option Text
  pub mfa_satisfied : Bool
  pub ip : Option Text
  pub user_agent : Option Text
  pub last_seen_at : ℕ
  pub expires_at : ℕ
  pub revoked_at : Option ℕ

pub record Membership : Type 0 where
  pub id : Text
  pub organization_id : Text
  pub user_id : Text
  pub role : Role
  pub accepted_at : Option ℕ
  pub created_at : ℕ
  pub updated_at : ℕ

pub record Invitation : Type 0 where
  pub id : Text
  pub organization_id : Text
  pub email : Text
  pub role : Role
  pub token_hash : Text
  pub invited_by : Text
  pub expires_at : ℕ
  pub accepted_at : Option ℕ
  pub created_at : ℕ

pub record Organization : Type 0 where
  pub id : Text
  pub name : Text
  pub slug : Text

pub record Subscription : Type 0 where
  pub id : Text
  pub organization_id : Text
  pub trial_ends_at : ℕ

-- the column `purpose` of password_resets
pub data ResetPurpose : Type 0 where
  password_reset email_verification : ResetPurpose

pub record PasswordReset : Type 0 where
  pub id : Text
  pub user_id : Text
  pub token_hash : Text
  pub purpose : ResetPurpose
  pub requested_ip : Option Text
  pub expires_at : ℕ
  pub consumed_at : Option ℕ

pub record DiscordIdentity : Type 0 where
  pub discord_user_id : Text
  pub user_id : Text
  pub username : Option Text
  pub email : Option Text
  pub avatar_url : Option Text
  pub last_login_at : Option ℕ

-- A line of the audit log, without its metadata.
pub record AuditLog : Type 0 where
  pub organization_id : Option Text
  pub actor_user_id : Option Text
  pub action : Text
  pub target_id : Option Text
  pub ip : Option Text

-- ban_status
pub data BanStatus : Type 0 where
  active expired lifted pending kicked dismissed : BanStatus

pub record Ban : Type 0 where
  pub id : Text
  pub organization_id : Text
  pub server_id : Option Text
  pub scope : Text
  pub identifier : Text
  pub player_name : Option Text
  pub reason : Text
  pub status : BanStatus
  pub issued_by : Option Text
  pub detector : Option Text
  pub expires_at : Option ℕ
  pub created_at : ℕ
  pub reviewed_by : Option Text
  pub reviewed_at : Option ℕ
  pub lifted_by : Option Text
  pub lifted_at : Option ℕ
  pub lifted_reason : Option Text

-- A line of detection_feedback; `confirmed` is false for a false positive.
pub record Feedback : Type 0 where
  pub id : Text
  pub organization_id : Text
  pub server_id : Option Text
  pub detector : Text
  pub scope : Text
  pub identifier : Text
  pub confirmed : Bool
  pub ban_id : Text
  pub created_by : Text

pub record Db : Type 0 where
  pub users : List User
  pub mfa_factors : List MfaFactor
  pub sessions : List Session
  pub memberships : List Membership
  pub invitations : List Invitation
  pub organizations : List Organization
  pub subscriptions : List Subscription
  pub password_resets : List PasswordReset
  pub discord_identities : List DiscordIdentity
  pub bans : List Ban
  pub detection_feedback : List Feedback
  pub audit_logs : List AuditLog
