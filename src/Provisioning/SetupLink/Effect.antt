-- ===== src/Provisioning/SetupLink/Effect.antt =====
-- What a redemption of a setup link finds and leaves, column by column.
use flexi.Prelude.{
  ◌<◌, String, ◌==◌, ◌≡◌, refl, ap, ◌∙◌, true, not, ◌&&◌, none, some, arith, eq_iff, is_none,
}
use flexi.Exec.{ok}
use flexi.Onboarding.{SetupToken}
use flexi.Store.{TenantUser, TenantUserStatus, World}
use flexi.Store.Rows.{find_first, find_many, count, update_many}
use flexi.Store.Rows.Laws.{find_first_sound, count-update_many_zero, find_many-update_many}
use flexi.Store.Platform.{Platform}
use flexi.Provisioning.SetupLink.{
  revoke_token_at, use_token_at, is_consumable, is_live_sibling, is_pending_setup, is_pending_admin,
  redeem_hash,
}
use flexi.Provisioning.SetupLink.Single.{redeem_hash-Redemption, redeem_hash-used}

pending_setup-status :
    (x : TenantUserStatus) → is_pending_setup x ≡ true → x ≡ TenantUserStatus.pending_setup
pending_setup-status TenantUserStatus.pending_setup h = refl
pending_setup-status TenantUserStatus.active h = absurd (ground arith)
pending_setup-status TenantUserStatus.pending_invite h = absurd (ground arith)
pending_setup-status TenantUserStatus.pending_approval h = absurd (ground arith)
pending_setup-status TenantUserStatus.locked h = absurd (ground arith)
pending_setup-status TenantUserStatus.deleted h = absurd (ground arith)

module _ (p : Platform) where
  -- What a redemption that returned found and did.
  pub record Claimed (token_hash password_hash : String) (s s' : World) : Type 0 where
    pub token : SetupToken
    pub admin : TenantUser
    pub found : find_first (λ k. k.token_hash == token_hash) s.setup_tokens ≡ some token
    pub unrevoked : token.revoked_at ≡ none
    pub unused : token.used_at ≡ none
    pub unexpired : p.clock s.ticks < token.expires_at
    pub pending : find_first (is_pending_admin token.tenant_id) s.tenant_users ≡ some admin
    pub of_tenant : admin.tenant_id ≡ token.tenant_id
    pub to_set_up : admin.status ≡ TenantUserStatus.pending_setup
    pub is_active : admin.is_active ≡ true
    pub password :
        s'.auth_accounts
        ≡ update_many
            (λ a. a.id == admin.auth_account_id)
            (λ a. record a { password_hash = password_hash })
            s.auth_accounts
    pub activated :
        s'.tenant_users
        ≡ update_many
            (λ u. u.id == admin.id)
            (λ u. record u { status = TenantUserStatus.active })
            s.tenant_users
    pub used :
        find_first (λ k. k.token_hash == token_hash) s'.setup_tokens
        ≡ some (record token { used_at = some (p.clock s.ticks) })
    pub siblings :
        count
          (λ k.
            k.tenant_id == token.tenant_id
            && not (k.id == token.id)
            && is_none k.revoked_at
            && is_none k.used_at)
          s'.setup_tokens
        ≡ 0
    pub others :
        find_many
          (λ k. not (k.tenant_id == token.tenant_id) && not (k.id == token.id))
          s'.setup_tokens
        ≡ find_many
            (λ k. not (k.tenant_id == token.tenant_id) && not (k.id == token.id))
            s.setup_tokens

  -- A redemption that returned had a token under the hash that was neither revoked, used nor expired, of
  -- a tenant with an active administrator still to be set up. It sets the password, makes the
  -- administrator active and the token used, leaves no other live token of the tenant, and leaves the
  -- tokens of other tenants, but for rows under the id of the token.
  pub redeem_hash-Claimed :
      (token_hash hash : String) (s : World)
      → (redeem_hash p token_hash hash s).0 ≡ ok tt
      → Claimed token_hash hash s (redeem_hash p token_hash hash s).1
  redeem_hash-Claimed token_hash hash s h =
      let s' = (redeem_hash p token_hash hash s).1 in
      let d = redeem_hash-Redemption p token_hash hash s h in
      let t = p.clock s.ticks in
      let used = update_many (is_consumable d.token.id t) (use_token_at t) s.setup_tokens in
      let other =
        λ (k : SetupToken). not (k.tenant_id == d.token.tenant_id) && not (k.id == d.token.id) in
      let passes =
        find_first_sound (is_pending_admin d.token.tenant_id) s.tenant_users d.admin d.pending in
      record {
        token = d.token;
        admin = d.admin;
        found = d.found;
        unrevoked = ground (arith, d.usable);
        unused = ground (arith, d.usable);
        unexpired = ground (arith, d.usable);
        pending = d.pending;
        of_tenant = ground (arith, eq_iff d.admin.tenant_id d.token.tenant_id);
        to_set_up = pending_setup-status d.admin.status (ground arith);
        is_active = ground arith;
        password = d.password;
        activated = d.activated;
        used = redeem_hash-used p token_hash hash s s' d;
        siblings =
            ap (count (is_live_sibling d.token)) d.tokens
            ∙ count-update_many_zero (is_live_sibling d.token) (revoke_token_at t) used
                (λ k e. ground arith);
        others =
            ap (find_many other) d.tokens
            ∙ find_many-update_many other (is_live_sibling d.token) (revoke_token_at t) used
                (λ k e. ground arith) (λ k e. ground arith)
            ∙ find_many-update_many other (is_consumable d.token.id t) (use_token_at t)
                s.setup_tokens (λ k e. ground arith) (λ k e. ground arith);
      }
