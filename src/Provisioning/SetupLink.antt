-- ===== src/Provisioning/SetupLink.antt =====
-- modules/tenants/setup-link.service.ts: one-time setup tokens, of which the hash alone is kept.
pub mod Single
pub mod Effect
use flexi.Prelude.{
  ℕ, ◌+◌, ◌*◌, String, ◌==◌, Bool, true, false, not, ◌&&◌, ◌||◌, Option, none, some, is_none,
  is_some, ltb, leb, eqb,
}
use flexi.Exec.{
  pure, gets, refuse_if, first_admin_not_found, invalid_setup_token, validation_error, ◌>>=◌, ◌>>◌,
}
use flexi.Onboarding.{SetupToken}
use flexi.Store.{TenantUserStatus, TenantUser, World}
use flexi.Store.Rows.{find_first}
use flexi.Store.Platform.{Platform}
use flexi.Store.Tables.{Action, transaction, now, draw, update_auth_account, update_tenant_user}
use flexi.Store.Setup.{update_setup_tokens, create_setup_token}
use flexi.Auth.Email.{trim_text}
use flexi.Auth.Service.{lift_option}

abbrev pub setup_token_ttl_ms : ℕ
setup_token_ttl_ms = 24 * 60 * 60 * 1000

pub record GeneratedSetupLink : Type 0 where
  pub setup_token : String
  pub expires_at : ℕ

-- `{ tenantId, revokedAt: null }`
abbrev pub is_unrevoked_of : String → SetupToken → Bool
is_unrevoked_of tenant_id k = k.tenant_id == tenant_id && is_none k.revoked_at

abbrev pub revoke_token_at : ℕ → SetupToken → SetupToken
revoke_token_at t k = record k { revoked_at = some t }

abbrev pub use_token_at : ℕ → SetupToken → SetupToken
use_token_at t k = record k { used_at = some t }

-- the conditions under which a token is refused
abbrev pub is_dead : ℕ → SetupToken → Bool
is_dead t k = is_some k.revoked_at || is_some k.used_at || leb k.expires_at t

abbrev pub is_consumable : String → ℕ → SetupToken → Bool
is_consumable id t k = k.id == id && is_none k.revoked_at && is_none k.used_at && ltb t k.expires_at

-- the other tokens of the tenant that are neither revoked nor used
abbrev pub is_live_sibling : SetupToken → SetupToken → Bool
is_live_sibling token k =
    k.tenant_id == token.tenant_id
    && not (k.id == token.id)
    && is_none k.revoked_at
    && is_none k.used_at

abbrev pub is_pending_setup : TenantUserStatus → Bool
is_pending_setup TenantUserStatus.pending_setup = true
is_pending_setup _ = false

abbrev pub is_pending_admin : String → TenantUser → Bool
is_pending_admin tenant_id u = u.tenant_id == tenant_id && is_pending_setup u.status && u.is_active

module _ (p : Platform) where
  unfoldable pub generate : String → Action GeneratedSetupLink
  generate tenant_id = transaction (do
    exists ← gets (λ s. is_some (find_first (λ u. u.tenant_id == tenant_id) s.tenant_users))
    refuse_if (not exists) first_admin_not_found
    revoked_at ← now p
    update_setup_tokens (is_unrevoked_of tenant_id) (revoke_token_at revoked_at)
    n ← draw p
    t ← now p
    row ← draw p
    create_setup_token (record {
      id = p.cuid row;
      tenant_id = tenant_id;
      token_hash = p.sha256 (p.random_token n);
      expires_at = t + setup_token_ttl_ms;
      revoked_at = none;
      used_at = none;
    })
    pure (record { setup_token = p.random_token n; expires_at = t + setup_token_ttl_ms }))

  unfoldable pub revoke_all : String → Action Unit
  revoke_all tenant_id = do
    t ← now p
    update_setup_tokens (is_unrevoked_of tenant_id) (revoke_token_at t)
    pure tt

  -- the writes, once the token and its administrator are found
  unfoldable pub claim_admin : SetupToken → TenantUser → String → ℕ → Action Unit
  claim_admin token u password_hash t = do
    consumed ← update_setup_tokens (is_consumable token.id t) (use_token_at t)
    refuse_if (not (eqb consumed 1)) invalid_setup_token
    update_auth_account u.auth_account_id (λ a. record a { password_hash = password_hash })
    update_tenant_user u.id (λ v. record v { status = TenantUserStatus.active })
    update_setup_tokens (is_live_sibling token) (revoke_token_at t)
    pure tt

  unfoldable pub redeem_found : SetupToken → String → ℕ → Action Unit
  redeem_found token password_hash t = do
    refuse_if (is_dead t token) invalid_setup_token
    found ← gets (λ s. find_first (is_pending_admin token.tenant_id) s.tenant_users)
    u ← lift_option invalid_setup_token found
    claim_admin token u password_hash t

  unfoldable pub redeem_hash : String → String → Action Unit
  redeem_hash token_hash password_hash = transaction (do
    found ← gets (λ s. find_first (λ k. k.token_hash == token_hash) s.setup_tokens)
    t ← now p
    token ← lift_option invalid_setup_token found
    redeem_found token password_hash t)

  -- `redeem`
  unfoldable pub redeem : String → String → Action Unit
  redeem token password = do
    refuse_if (trim_text password == "") validation_error
    salt ← draw p
    redeem_hash (p.sha256 token) (p.bcrypt_hash salt password)
