-- ===== src/Auth/Service/Login.antt =====
-- Who can log in.
use flexi.Prelude.{
  String, ◌==◌, ◌≡◌, ◌≢◌, ◌↔◌, sym, ap, ◌∙◌, Bool, true, ◌&&◌, some, arith, eq_iff, Option-cases,
  Bool-cases, inl, inr,
}
use flexi.Exec.{ok, err, invalid_credentials, ◌>>=◌}
use flexi.Store.{AuthAccount, TenantUser, Tenant, World}
use flexi.Store.Rows.{find_first}
use flexi.Store.Tables.{now, draw, create_refresh_token}
use flexi.Store.Platform.{Platform}
use flexi.Auth.Actors.{
  ResolvedActor, is_tenant_active, find_tenant_user_by_email, map_tenant_user_to_actor,
  resolve_login_actor,
}
use flexi.Auth.Actors.Joins.{find_joined_sound, is_tenant_active-row}
use flexi.Auth.Service.{AuthTokens, issue_tokens, login}

-- The credentials of a member of a tenant: the row and its account are there, both are active, the
-- tenant is active, the address is the account's and the password matches its hash.
pub record TenantCredentials (p : Platform) (email password tenant_id : String) (s : World)
    : Type 0 where
  pub user : TenantUser
  pub account : AuthAccount
  pub resolved : find_tenant_user_by_email s.db email tenant_id ≡ some (user, account)
  pub of_tenant : user.tenant_id ≡ tenant_id
  pub of_email : account.email ≡ email
  pub backed : account.id ≡ user.auth_account_id
  pub tenant_active : is_tenant_active s.db tenant_id ≡ true
  pub tenant : Tenant
  pub tenant_found :
      find_first (λ t. t.id == tenant_id && t.status == "ACTIVE") s.tenants ≡ some tenant
  pub user_active : user.is_active ≡ true
  pub account_active : account.is_active ≡ true
  pub password_matches : p.bcrypt_compare password account.password_hash ≡ true

module _ (p : Platform) where
  -- what the code tests of the row that it finds
  abbrev accepts : String → String → World → TenantUser → AuthAccount → Bool
  accepts password tenant_id s user account =
      is_tenant_active s.db tenant_id
      && user.is_active
      && account.is_active
      && p.bcrypt_compare password account.password_hash

  credentials_of :
      (email password tenant_id : String) (s : World) (user : TenantUser) (account : AuthAccount)
      → find_tenant_user_by_email s.db email tenant_id ≡ some (user, account)
      → accepts password tenant_id s user account ≡ true
      → TenantCredentials p email password tenant_id s
  credentials_of email password tenant_id s user account e h =
      let (passes, backed) =
        find_joined_sound (λ u. u.auth_account_id)
          (λ u a. u.tenant_id == tenant_id && a.email == email) s.auth_accounts s.tenant_users user
          account (unfold find_tenant_user_by_email in e) in
      let active : is_tenant_active s.db tenant_id ≡ true = ground arith in
      let (tenant, tenant_found) = is_tenant_active-row s.db tenant_id active in
      record {
        user = user;
        account = account;
        resolved = e;
        of_tenant = ground (arith, eq_iff user.tenant_id tenant_id);
        of_email = ground (arith, eq_iff account.email email);
        backed = ground (arith, eq_iff account.id user.auth_account_id);
        tenant_active = active;
        tenant = tenant;
        tenant_found = tenant_found;
        user_active = ground arith;
        account_active = ground arith;
        password_matches = ground arith;
      }

  -- A tenant login that returned tokens was made with the credentials of an active member.
  pub login-TenantCredentials :
      (email password tenant_id : String) (s : World) (tokens : AuthTokens)
      → (login p email password (some tenant_id) s).0 ≡ ok tokens
      → TenantCredentials p email password tenant_id s
  unfolding login resolve_login_actor ◌>>=◌ map_tenant_user_to_actor
  login-TenantCredentials email password tenant_id s tokens h =
      elim (Option-cases (find_tenant_user_by_email s.db email tenant_id)) [
        | inl missing ↦ absurd (ground arith)
        | inr ((user, account), e) ↦
            credentials_of email password tenant_id s user account e (ground arith)
      ]

  issue_tokens-answer :
      (actor : ResolvedActor) (s : World) → (issue_tokens p actor s).0 ≢ err invalid_credentials
  unfolding issue_tokens ◌>>=◌ now draw create_refresh_token
  issue_tokens-answer actor s h = ground arith

  login-right :
      (email password tenant_id : String) (s : World)
      → TenantCredentials p email password tenant_id s
      → (actor : ResolvedActor) × (login p email password (some tenant_id) s
          ≡ issue_tokens p actor s)
  unfolding login resolve_login_actor ◌>>=◌ map_tenant_user_to_actor
  login-right email password tenant_id s c = (
    map_tenant_user_to_actor c.user c.account,
    ground
        (arith, c.resolved, c.tenant_active, c.user_active, c.account_active, c.password_matches),
  )

  login-wrong :
      (email password tenant_id : String) (s : World)
      → ¬ TenantCredentials p email password tenant_id s
      → login p email password (some tenant_id) s ≡ (err invalid_credentials, s)
  unfolding login resolve_login_actor ◌>>=◌ map_tenant_user_to_actor
  login-wrong email password tenant_id s wrong =
      elim (Option-cases (find_tenant_user_by_email s.db email tenant_id)) [
        | inl missing ↦ ground arith
        | inr ((user, account), e) ↦ elim (Bool-cases (accepts password tenant_id s user account)) [
          | inl h ↦ absurd (wrong (credentials_of email password tenant_id s user account e h))
          | inr h ↦ ground arith
        ]
      ]

  -- A tenant login is refused as one with invalid credentials, and leaves no trace, exactly where it
  -- was not made with the credentials of an active member of the tenant, whatever is wrong with them.
  pub login_refused_iff :
      (email password tenant_id : String) (s : World)
      → (login p email password (some tenant_id) s ≡ (err invalid_credentials, s))
        ↔ (¬ TenantCredentials p email password tenant_id s)
  login_refused_iff email password tenant_id s = (
    λ h c.
        let (actor, e) = login-right email password tenant_id s c in
        issue_tokens-answer actor s (ap (λ x. x.0) (sym e ∙ h)),
    login-wrong email password tenant_id s,
  )
