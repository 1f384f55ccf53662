-- ===== src/Auth/Impersonation/Ending.antt =====
-- Who can start a delegation, and what ending it stops.
use flexi.Prelude.{
  ℕ, String, ◌==◌, ◌&&◌, eq_iff, ◌≡◌, refl, truthy, includes, true, false, Option, none, some,
  arith, Option-cases, inl, inr,
}
use flexi.Exec.{ok, err, unauthorized, ◌>>=◌}
use flexi.Store.{AuthAccount, TenantUser, Tenant, TenantSettings, World}
use flexi.Auth.Actors.Joins.{find_joined_sound, is_tenant_active-row}
use flexi.Store.Rows.{find_first, update_many}
use flexi.Store.Rows.Laws.{find_first-update_many-none}
use flexi.Store.Platform.{Platform, AccessTokenPayload}
use flexi.Store.Tables.{now, update_impersonation_sessions, record_audit}
use flexi.Auth.Email.{trim_text}
use flexi.Auth.Actors.{AuthenticatedUser, is_tenant_active}
use flexi.Auth.Guard.{
  text_of, is_tenant, is_live_impersonation, user_of, extract_token, can_activate,
}
use flexi.Auth.Guard.Admission.{can_activate-no_session}
use flexi.Auth.Impersonation.{
  ImpersonationToken, assert_system_impersonator, find_target, is_allowed, is_own_session, end_at,
  start_for, start, end_session,
}

module _ (p : Platform) where
  end_session-ok :
      (user : AuthenticatedUser) (s : World)
      → (end_session p user s).0 ≡ ok tt
      → (end_session p user s).1.impersonation_sessions
        ≡ update_many (is_own_session user) (end_at (p.clock s.ticks)) s.impersonation_sessions
  unfolding end_session ◌>>=◌ now update_impersonation_sessions record_audit
  end_session-ok user s h = ground arith

  no_live_session :
      (payload : AccessTokenPayload) (s : World) (t : ℕ)
      → (end_session p (user_of payload) s).0 ≡ ok tt
      → find_first
          (is_live_impersonation payload t)
          (end_session p (user_of payload) s).1.impersonation_sessions
        ≡ none
  no_live_session payload s t h = rw (end_session-ok (user_of payload) s h) (
      find_first-update_many-none (is_live_impersonation payload t)
        (is_own_session (user_of payload)) (end_at (p.clock s.ticks)) s.impersonation_sessions
        (λ i h. ground arith) (λ i h. ground arith))

  -- After a delegation was ended, the guard refuses every token of it, however long it stays signed.
  pub end_session-can_activate :
      (header : Option String) (token : String) (payload : AccessTokenPayload) (s : World)
      → truthy payload.impersonated_by ≡ true
      → (end_session p (user_of payload) s).0 ≡ ok tt
      → extract_token p header ≡ some token
      → p.verify_access (p.clock (end_session p (user_of payload) s).1.ticks) token ≡ some payload
      → (can_activate p header (end_session p (user_of payload) s).1).0 ≡ err unauthorized
  end_session-can_activate header token payload s claims h bearer verified =
      can_activate-no_session p header token payload (end_session p (user_of payload) s).1 claims
        bearer verified (λ t. no_live_session payload s t h)

  -- What a delegation that started shows: a system caller under no delegation with the permission,
  -- an active tenant that allows it, and an active member of that tenant with an active account.
  pub record Delegated (user : AuthenticatedUser) (header : Option String) (user_id : String)
      (s : World) : Type 0 where
    pub member : TenantUser
    pub account : AuthAccount
    pub tenant_id : String
    pub of_header : tenant_id ≡ trim_text (text_of header)
    pub own_request : truthy user.impersonated_by ≡ false
    pub system_caller : is_tenant user.actor_type ≡ false
    pub permitted : includes user.permissions "system.impersonation.create" ≡ true
    pub target : find_target s.db tenant_id user_id ≡ some (member, account)
    pub of_user : member.id ≡ user_id
    pub of_tenant : member.tenant_id ≡ tenant_id
    pub member_active : member.is_active ≡ true
    pub backed : account.id ≡ member.auth_account_id
    pub account_active : account.is_active ≡ true
    pub tenant : Tenant
    pub tenant_found :
        find_first (λ t. t.id == tenant_id && t.status == "ACTIVE") s.tenants ≡ some tenant
    pub settings : TenantSettings
    pub settings_found :
        find_first (λ t. t.tenant_id == tenant_id) s.tenant_settings ≡ some settings
    pub allowed : settings.allow_system_impersonation ≡ true

  start_for-ok :
      (user : AuthenticatedUser) (tenant_id user_id : String) (s : World) (r : ImpersonationToken)
      → (start_for p user tenant_id user_id s).0 ≡ ok r
      → (u : TenantUser) × (a : AuthAccount) × (find_target s.db tenant_id user_id ≡ some (u, a))
        × (is_tenant_active s.db tenant_id ≡ true)
        × (is_allowed s.db tenant_id ≡ true)
  unfolding start_for ◌>>=◌
  start_for-ok user tenant_id user_id s r h =
      elim (Option-cases (find_target s.db tenant_id user_id)) [
        | inl missing ↦ absurd (ground arith)
        | inr ((u, a), e) ↦ (u, a, e, ground arith, ground arith)
      ]

  start-parts :
      (user : AuthenticatedUser) (header : Option String) (user_id : String) (s : World)
      (r : ImpersonationToken)
      → (start p user header user_id s).0 ≡ ok r
      → ((start_for p user (trim_text (text_of header)) user_id s).0 ≡ ok r)
        × (truthy user.impersonated_by ≡ false)
        × (is_tenant user.actor_type ≡ false)
        × (includes user.permissions "system.impersonation.create" ≡ true)
  unfolding start assert_system_impersonator ◌>>=◌
  start-parts user header user_id s r h = ground arith

  allows-row :
      (tenant_id : String) (s : World)
      → is_allowed s.db tenant_id ≡ true
      → (settings : TenantSettings) × (find_first (λ t. t.tenant_id == tenant_id) s.tenant_settings
          ≡ some settings)
        × (settings.allow_system_impersonation ≡ true)
  allows-row tenant_id s h =
      elim (Option-cases (find_first (λ t. t.tenant_id == tenant_id) s.tenant_settings)) [
        | inl missing ↦ absurd (ground arith)
        | inr (settings, e) ↦ (settings, e, ground arith)
      ]

  -- A delegation that started was asked for by a system operator with the permission, under no other
  -- delegation, for an active member of an active tenant that allows it.
  pub start-Delegated :
      (user : AuthenticatedUser) (header : Option String) (user_id : String) (s : World)
      (r : ImpersonationToken)
      → (start p user header user_id s).0 ≡ ok r
      → Delegated user header user_id s
  start-Delegated user header user_id s r h =
      let (started, own, system, permitted) = start-parts user header user_id s r h in
      let (u, a, target, active, allowed) =
        start_for-ok user (trim_text (text_of header)) user_id s r started in
      let (passes, backed) =
        find_joined_sound (λ v. v.auth_account_id)
          (λ v b.
            v.id == user_id
            && v.tenant_id == trim_text (text_of header)
            && v.is_active
            && b.is_active)
          s.auth_accounts s.tenant_users u a target in
      let (tenant, tenant_found) = is_tenant_active-row s.db (trim_text (text_of header)) active in
      let (settings, settings_found, allows) = allows-row (trim_text (text_of header)) s allowed in
      record {
        member = u;
        account = a;
        tenant_id = trim_text (text_of header);
        of_header = refl;
        own_request = own;
        system_caller = system;
        permitted = permitted;
        target = target;
        of_user = ground (arith, eq_iff u.id user_id);
        of_tenant = ground (arith, eq_iff u.tenant_id (trim_text (text_of header)));
        member_active = ground arith;
        backed = ground (arith, eq_iff a.id u.auth_account_id);
        account_active = ground arith;
        tenant = tenant;
        tenant_found = tenant_found;
        settings = settings;
        settings_found = settings_found;
        allowed = allows;
      }
