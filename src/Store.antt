-- ===== src/Store.antt =====
-- The database tables that the authentication and user modules share (prisma/schema.prisma), what
-- stands around a request (clock, randomness, request context, outgoing mail), and the actions on it.
pub mod Rows
pub mod Platform
pub mod Tables
pub mod Setup
pub mod Evolution
use flexi.Prelude.{ℕ, String, Bool, Option, List}
use flexi.Onboarding.{TenantOnboardingAttempt, TenantOnboardingAuditLog, SetupToken, Permission}

pub data ActorType : Type 0 where
  system tenant : ActorType

pub data TenantUserStatus : Type 0 where
  active pending_setup pending_invite pending_approval locked deleted : TenantUserStatus

pub data UserInviteStatus : Type 0 where
  pending used revoked expired : UserInviteStatus

pub data AuthAuditEvent : Type 0 where
  impersonation_started impersonation_ended impersonated_action : AuthAuditEvent
  forgot_password_requested password_reset_success password_reset_failed : AuthAuditEvent
  password_changed session_revoked all_sessions_revoked : AuthAuditEvent
  account_deactivated account_activated admin_force_password_reset : AuthAuditEvent
  user_invite_sent user_invite_resent user_invite_revoked user_invite_redeemed : AuthAuditEvent
  tenant_settings_updated self_registration_enabled self_registration_disabled : AuthAuditEvent
  user_self_registered user_direct_created user_updated user_role_changed : AuthAuditEvent
  user_approved user_locked user_unlocked user_soft_deleted user_hard_deleted : AuthAuditEvent
  data_transferred : AuthAuditEvent

-- A value in the JSON `metadata` of an audit row.
pub data MetaValue : Type 0 where
  num : ℕ → MetaValue
  text : String → MetaValue
  flag : Bool → MetaValue
  null : MetaValue

pub record Tenant : Type 0 where
  pub id : String
  pub name : String
  pub slug : String
  pub status : String
  -- `maxUsers`, with `none` for every negative value
  pub max_users : Option ℕ
  pub onboarding_attempt_id : Option String

pub record Role : Type 0 where
  pub id : String
  pub tenant_id : Option String
  pub name : String
  -- `rolePermissions[].permission.code`
  pub permissions : List String

pub record AuthAccount : Type 0 where
  pub id : String
  pub email : String
  pub password_hash : String
  pub is_active : Bool
  pub must_change_password : Bool

pub record TenantUser : Type 0 where
  pub id : String
  pub tenant_id : String
  pub auth_account_id : String
  pub name : Option String
  pub status : TenantUserStatus
  pub is_active : Bool
  pub roles : List Role

pub record SystemUser : Type 0 where
  pub id : String
  pub auth_account_id : String
  pub name : Option String
  pub is_active : Bool
  pub roles : List Role

pub record RefreshToken : Type 0 where
  pub id : String
  pub auth_account_id : String
  pub token_hash : String
  pub expires_at : ℕ
  pub revoked_at : Option ℕ
  pub created_at : ℕ

pub record PasswordResetOtp : Type 0 where
  pub id : String
  pub auth_account_id : String
  pub otp_hash : String
  pub expires_at : ℕ
  pub consumed_at : Option ℕ
  pub attempt_count : ℕ
  pub created_at : ℕ

pub record UserInvite : Type 0 where
  pub id : String
  pub tenant_id : String
  pub email : String
  pub role_id : Option String
  pub tenant_user_id : Option String
  pub token_hash : String
  pub expires_at : ℕ
  pub status : UserInviteStatus
  pub used_at : Option ℕ
  pub revoked_at : Option ℕ
  pub invited_by_id : Option String
  pub created_at : ℕ

pub record ImpersonationSession : Type 0 where
  pub id : String
  pub tenant_id : String
  pub target_auth_account_id : String
  pub target_tenant_user_id : String
  pub impersonator_id : String
  pub expires_at : ℕ
  pub ended_at : Option ℕ

-- `TenantSettings.allowSystemImpersonation`
pub record TenantSettings : Type 0 where
  pub tenant_id : String
  pub allow_system_impersonation : Bool

pub record AuthAuditLog : Type 0 where
  pub event : AuthAuditEvent
  pub tenant_id : Option String
  pub subject_auth_account_id : Option String
  pub actor_auth_account_id : Option String
  pub impersonated : Bool
  pub impersonator_id : Option String
  pub metadata : List (String × MetaValue)

pub record Db : Type 0 where
  pub tenants : List Tenant
  pub all_roles : List Role
  pub auth_accounts : List AuthAccount
  pub tenant_users : List TenantUser
  pub system_users : List SystemUser
  pub refresh_tokens : List RefreshToken
  pub password_reset_otps : List PasswordResetOtp
  pub user_invites : List UserInvite
  pub impersonation_sessions : List ImpersonationSession
  pub tenant_settings : List TenantSettings
  pub auth_audit_logs : List AuthAuditLog
  pub all_permissions : List Permission
  pub setup_tokens : List SetupToken
  pub onboarding_attempts : List TenantOnboardingAttempt
  pub onboarding_audit_logs : List TenantOnboardingAuditLog

-- The request-scoped store that `JwtAuthGuard` fills.
pub record Cls : Type 0 where
  pub tenant_id : Option String
  pub schema : Option String
  pub tenant_user_id : Option String
  pub impersonated_by : Option String
  pub impersonation_session_id : Option String

-- A message handed to the mail transport.
pub data Mail : Type 0 where
  password_reset_otp : String → String → ℕ → Mail
  temporary_password : String → String → Mail
  -- address, tenant, token, hours
  user_invite : String → String → String → ℕ → Mail
  -- address, tenant, token
  setup_invite : String → String → String → Mail

pub record World : Type 0 where
  pub db : Db
  pub open db use *
  pub cls : Cls
  pub outbox : List Mail
  -- how often the clock and the random source were read
  pub ticks : ℕ
  pub draws : ℕ
