-- ===== src/Users/Lifecycle.antt =====
-- modules/users/account-lifecycle.service.ts: activation, deactivation and forced password resets.
pub mod Trail
pub mod Effect
pub mod Forced
use flexi.Prelude.{
  ℕ, String, ◌==◌, Bool, true, false, not, ◌&&◌, Option, none, some, List, [], ◌∷◌, if◌then◌else◌,
  is_none, or_default,
}
use flexi.Exec.{raise, pure, gets, refuse_if, user_not_found, cannot_deactivate_self, ◌>>=◌, ◌>>◌}
use flexi.Store.{
  ActorType, AuthAccount, TenantUser, SystemUser, RefreshToken, World, Db, AuthAuditEvent,
  MetaValue, Mail,
}
use flexi.Store.Platform.{Platform}
use flexi.Store.Tables.{
  Action, transaction, update_refresh_tokens, update_password_reset_otps, update_auth_account,
  update_tenant_user, update_system_user, now, draw, send_mail, record_audit, AuthAuditEntry,
}
use flexi.Auth.Actors.{AuthenticatedUser, find_joined}
use flexi.Auth.Service.{is_live_of, revoke_at, lift_option}
use flexi.Auth.Sessions.{matches_optional}
use flexi.Auth.Reset.{is_live_otp_of, consume_at}
use flexi.Auth.Permissions.{user_manage, account_reset_password, assert_actor_permission}

pub record TargetActor : Type 0 where
  pub user_id : String
  pub auth_account_id : String
  pub tenant_id : Option String
  pub is_active : Bool
  pub email : String
  pub actor_type : ActorType

abbrev pub tenant_target : Option (TenantUser × AuthAccount) → Option TargetActor
tenant_target none = none
tenant_target (some (u, a)) = some (record {
  user_id = u.id;
  auth_account_id = u.auth_account_id;
  tenant_id = some u.tenant_id;
  is_active = u.is_active;
  email = a.email;
  actor_type = ActorType.tenant;
})

abbrev pub system_target : Option (SystemUser × AuthAccount) → Option TargetActor
system_target none = none
system_target (some (u, a)) = some (record {
  user_id = u.id;
  auth_account_id = u.auth_account_id;
  tenant_id = none;
  is_active = u.is_active;
  email = a.email;
  actor_type = ActorType.system;
})

-- a tenant caller sees members of their tenant, a system caller the system users
abbrev pub find_target : ActorType → String → Option String → Db → Option TargetActor
find_target ActorType.tenant user_id tenant_id db = tenant_target (
    find_joined (λ u. u.auth_account_id)
      (λ u a. u.id == user_id && matches_optional tenant_id u.tenant_id) db.auth_accounts
      db.tenant_users)
find_target ActorType.system user_id tenant_id db =
    system_target (
      find_joined (λ u. u.auth_account_id) (λ u a. u.id == user_id) db.auth_accounts
        db.system_users)

unfoldable pub resolve_target : String → AuthenticatedUser → Action TargetActor
resolve_target user_id user = do
  found ← gets (λ s. find_target user.actor_type user_id user.tenant_id s.db)
  lift_option user_not_found found

unfoldable pub set_active_of : ActorType → String → Bool → Action Unit
set_active_of ActorType.tenant user_id active =
    update_tenant_user user_id (λ u. record u { is_active = active })
set_active_of ActorType.system user_id active =
    update_system_user user_id (λ u. record u { is_active = active })

unfoldable pub set_actor_active : TargetActor → Bool → Action Unit
unfolding set_active_of
set_actor_active target active = set_active_of target.actor_type target.user_id active

-- `revokeLiveSessions`, at a time that the caller has read
unfoldable pub revoke_live_sessions : String → ℕ → Action ℕ
revoke_live_sessions account t = update_refresh_tokens (is_live_of account) (revoke_at t)

pub record AccountLifecycleResponse : Type 0 where
  pub user_id : String
  pub actor_type : ActorType
  pub is_active : Bool
  pub revoked_session_count : ℕ

pub record ForceResetPasswordResponse : Type 0 where
  pub user_id : String
  pub must_change_password : Bool
  pub revoked_session_count : ℕ
  pub email_delivered : Bool

module _ (p : Platform) where
  unfoldable pub audit_lifecycle :
      AuthAuditEvent → TargetActor → AuthenticatedUser → List (String × MetaValue) → Action Unit
  audit_lifecycle event target user metadata = record_audit p (record {
    event = event;
    tenant_id = target.tenant_id;
    subject_auth_account_id = some target.auth_account_id;
    actor_auth_account_id = some user.auth_account_id;
    impersonated = none;
    impersonator_id = none;
    metadata = ("userId", MetaValue.text target.user_id) ∷ metadata;
  })

  unfoldable pub deactivate : String → AuthenticatedUser → Action AccountLifecycleResponse
  deactivate user_id user = do
    assert_actor_permission user user_manage
    target ← resolve_target user_id user
    refuse_if (target.auth_account_id == user.auth_account_id) cannot_deactivate_self
    t ← now p
    revoked ←
        transaction
          (do set_actor_active target false; revoke_live_sessions target.auth_account_id t)
    audit_lifecycle AuthAuditEvent.account_deactivated target user
        (("revokedSessionCount", MetaValue.num revoked) ∷ [])
    pure (record {
      user_id = target.user_id;
      actor_type = target.actor_type;
      is_active = false;
      revoked_session_count = revoked;
    })

  pub activate : String → AuthenticatedUser → Action AccountLifecycleResponse
  activate user_id user = do
    assert_actor_permission user user_manage
    target ← resolve_target user_id user
    set_actor_active target true
    audit_lifecycle AuthAuditEvent.account_activated target user []
    pure (record {
      user_id = target.user_id;
      actor_type = target.actor_type;
      is_active = true;
      revoked_session_count = 0;
    })

  unfoldable pub deliver_temporary_password : Bool → String → String → Action Bool
  deliver_temporary_password false email password = pure false
  deliver_temporary_password true email password = do
    outcome ← send_mail p (Mail.temporary_password email password)
    pure outcome.delivered

  -- the transaction: the new hash and the end of the live sessions
  unfoldable pub set_temporary_password : TargetActor → String → ℕ → Action ℕ
  set_temporary_password target hash t = transaction (do
    update_auth_account target.auth_account_id
        (λ a. record a { password_hash = hash; must_change_password = true })
    revoke_live_sessions target.auth_account_id t)

  -- the rest, which has no way to raise
  unfoldable pub report_temporary_password :
      TargetActor → AuthenticatedUser → Bool → String → ℕ → Action ForceResetPasswordResponse
  report_temporary_password target user requested password revoked = do
    delivered ← deliver_temporary_password requested target.email password
    audit_lifecycle AuthAuditEvent.admin_force_password_reset target user (
        ("revokedSessionCount", MetaValue.num revoked)
        ∷ ("emailRequested", MetaValue.flag requested)
        ∷ ("emailDelivered", MetaValue.flag delivered)
        ∷ [])
    pure (record {
      user_id = target.user_id;
      must_change_password = true;
      revoked_session_count = revoked;
      email_delivered = delivered;
    })

  -- after the transaction
  unfoldable pub finish_force :
      TargetActor → Bool → AuthenticatedUser → String → ℕ → ℕ → Action ForceResetPasswordResponse
  finish_force target requested user password t revoked = do
    update_password_reset_otps (is_live_otp_of target.auth_account_id) (consume_at t)
    report_temporary_password target user requested password revoked

  unfoldable pub force_target :
      TargetActor → Bool → AuthenticatedUser → Action ForceResetPasswordResponse
  force_target target requested user = do
    n ← draw p
    salt ← draw p
    let password = p.temporary_password n
    t ← now p
    revoked ← set_temporary_password target (p.bcrypt_hash salt password) t
    finish_force target requested user password t revoked

  unfoldable pub force_reset_password :
      String → Option Bool → AuthenticatedUser → Action ForceResetPasswordResponse
  force_reset_password user_id send_email user = do
    assert_actor_permission user account_reset_password
    target ← resolve_target user_id user
    force_target target (or_default send_email true) user
