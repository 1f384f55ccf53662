-- ===== src/Auth/Impersonation.antt =====
-- modules/auth/impersonation.service.ts: a system operator acts as a member of a tenant that allows it.
pub mod Ending
pub mod Trail
use flexi.Prelude.{
  ℕ, ◌+◌, ◌*◌, String, ◌==◌, includes, truthy, Bool, true, false, not, ◌&&◌, ◌||◌, Option, none,
  some, List, [], ◌∷◌, map, if◌then◌else◌, is_none, is_some, eqb,
}
use flexi.Exec.{
  pure, gets, refuse_if, raise, forbidden, unauthorized, validation_error,
  impersonation_not_allowed, ◌>>=◌, ◌>>◌,
}
use flexi.Store.{
  ActorType, AuthAccount, TenantUser, ImpersonationSession, TenantSettings, World, Db,
  AuthAuditEvent, MetaValue,
}
use flexi.Store.Rows.{find_first}
use flexi.Store.Platform.{Platform, AccessTokenPayload}
use flexi.Store.Tables.{
  Action, now, draw, update_impersonation_sessions, create_impersonation_session, record_audit,
  AuthAuditEntry,
}
use flexi.Auth.Email.{trim_text}
use flexi.Auth.Actors.{AuthenticatedUser, find_joined, is_tenant_active, flatten_permissions}
use flexi.Auth.Service.{lift_option}
use flexi.Auth.Guard.{is_tenant, text_of}

abbrev pub impersonation_ttl_seconds : ℕ
impersonation_ttl_seconds = 15 * 60

pub record ImpersonationToken : Type 0 where
  pub access_token : String
  pub expires_in : ℕ

unfoldable pub assert_system_impersonator : AuthenticatedUser → Action Unit
assert_system_impersonator user =
    refuse_if
      (truthy user.impersonated_by
        || is_tenant user.actor_type
        || not (truthy user.system_user_id)
        || not (includes user.permissions "system.impersonation.create"))
      forbidden

-- the active member, with an active account
abbrev pub find_target : Db → String → String → Option (TenantUser × AuthAccount)
find_target db tenant_id user_id =
    find_joined (λ u. u.auth_account_id)
      (λ u a. u.id == user_id && u.tenant_id == tenant_id && u.is_active && a.is_active)
      db.auth_accounts db.tenant_users

abbrev allows : Option TenantSettings → Bool
allows none = false
allows (some settings) = settings.allow_system_impersonation

abbrev pub is_allowed : Db → String → Bool
is_allowed db tenant_id = allows (find_first (λ t. t.tenant_id == tenant_id) db.tenant_settings)

-- an unended row of the session that the caller's token names
abbrev pub is_own_session : AuthenticatedUser → ImpersonationSession → Bool
is_own_session user i =
    i.id == text_of user.impersonation_session_id
    && i.tenant_id == text_of user.tenant_id
    && i.target_tenant_user_id == text_of user.tenant_user_id
    && i.impersonator_id == text_of user.impersonated_by
    && is_none i.ended_at

abbrev pub end_at : ℕ → ImpersonationSession → ImpersonationSession
end_at t i = record i { ended_at = some t }

module _ (p : Platform) where
  abbrev pub delegated_payload :
      AuthenticatedUser → String → TenantUser → AuthAccount → String → AccessTokenPayload
  delegated_payload user tenant_id u a session_id = record {
    sub = u.auth_account_id;
    actor_type = ActorType.tenant;
    tenant_id = some tenant_id;
    tenant_user_id = some u.id;
    system_user_id = none;
    email = a.email;
    name = u.name;
    roles = map (λ r. r.name) u.roles;
    permissions = flatten_permissions u.roles;
    session_id = none;
    must_change_password = a.must_change_password;
    impersonated_by = user.system_user_id;
    impersonation_session_id = some session_id;
    iat = none;
    exp = none;
  }

  unfoldable pub delegate :
      AuthenticatedUser → String → TenantUser → AuthAccount → Action ImpersonationToken
  delegate user tenant_id u a = do
    t ← now p
    row ← draw p
    create_impersonation_session (record {
      id = p.cuid row;
      tenant_id = tenant_id;
      target_auth_account_id = u.auth_account_id;
      target_tenant_user_id = u.id;
      impersonator_id = text_of user.system_user_id;
      expires_at = t + impersonation_ttl_seconds * 1000;
      ended_at = none;
    })
    signed_at ← now p
    record_audit p (record {
      event = AuthAuditEvent.impersonation_started;
      tenant_id = some tenant_id;
      subject_auth_account_id = some u.auth_account_id;
      actor_auth_account_id = some user.auth_account_id;
      impersonated = some true;
      impersonator_id = user.system_user_id;
      metadata = ("impersonationSessionId", MetaValue.text (p.cuid row)) ∷ [];
    })
    pure (record {
      access_token =
          p.sign_access (delegated_payload user tenant_id u a (p.cuid row)) "15m" signed_at;
      expires_in = impersonation_ttl_seconds;
    })

  unfoldable pub start_for : AuthenticatedUser → String → String → Action ImpersonationToken
  start_for user tenant_id user_id = do
    refuse_if (tenant_id == "") validation_error
    found ← gets (λ s. find_target s.db tenant_id user_id)
    active ← gets (λ s. is_tenant_active s.db tenant_id)
    allowed ← gets (λ s. is_allowed s.db tenant_id)
    refuse_if (not active) unauthorized
    (u, a) ← lift_option unauthorized found
    refuse_if (not allowed) impersonation_not_allowed
    delegate user tenant_id u a

  -- an absent header is the empty text
  unfoldable pub start : AuthenticatedUser → Option String → String → Action ImpersonationToken
  start user header user_id = do
    assert_system_impersonator user
    start_for user (trim_text (text_of header)) user_id

  unfoldable pub end_session : AuthenticatedUser → Action Unit
  end_session user = do
    refuse_if
        (not (truthy user.impersonated_by)
          || not (truthy user.impersonation_session_id)
          || not (truthy user.tenant_id)
          || not (truthy user.tenant_user_id))
        forbidden
    t ← now p
    ended ← update_impersonation_sessions (is_own_session user) (end_at t)
    refuse_if (not (eqb ended 1)) unauthorized
    record_audit p (record {
      event = AuthAuditEvent.impersonation_ended;
      tenant_id = user.tenant_id;
      subject_auth_account_id = some user.auth_account_id;
      actor_auth_account_id = some user.auth_account_id;
      impersonated = some true;
      impersonator_id = user.impersonated_by;
      metadata =
          ("impersonationSessionId", MetaValue.text (text_of user.impersonation_session_id)) ∷ [];
    })
