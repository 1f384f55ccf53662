-- ===== src/Provisioning/SetupLink/Single.antt =====
-- Generation, revocation and redemption of setup-link.service.ts: which tokens are live and how often one
-- works.
use flexi.Prelude.{
  ℕ, suc, ◌+◌, String, ◌==◌, ==_refl, ◌≡◌, refl, sym, ap, ◌∙◌, true, false, none, some, List, [],
  ◌∷◌, ◌++◌, arith, if◌then◌else◌, is_none, Option-cases, Bool-cases, inl, inr,
}
use flexi.Exec.{ok, err, invalid_setup_token, ◌>>=◌}
use flexi.Onboarding.{SetupToken}
use flexi.Store.{TenantUser, TenantUserStatus, World}
use flexi.Store.Rows.{find_first, count, update_many}
use flexi.Store.Rows.Laws.{find_first-update_many, count-update_many_zero, count-append}
use flexi.Store.Platform.{Platform}
use flexi.Store.Tables.{transaction, now, draw, update_auth_account, update_tenant_user}
use flexi.Store.Setup.{update_setup_tokens, create_setup_token}
use flexi.Provisioning.SetupLink.{
  setup_token_ttl_ms, GeneratedSetupLink, is_unrevoked_of, revoke_token_at, use_token_at, is_dead,
  is_consumable, is_live_sibling, is_pending_admin, generate, revoke_all, claim_admin, redeem_found,
  redeem_hash,
}

module _ (p : Platform) where
  revoked_count :
      (tenant_id : String) (t : ℕ) (ks : List SetupToken)
      → count
          (is_unrevoked_of tenant_id)
          (update_many (is_unrevoked_of tenant_id) (revoke_token_at t) ks)
        ≡ 0
  revoked_count tenant_id t ks =
      count-update_many_zero (is_unrevoked_of tenant_id) (revoke_token_at t) ks
        (λ k h. ground arith)

  -- A link that was generated leaves exactly one token of the tenant that is not revoked, found under
  -- the hash of what was answered unless an older row has this hash.
  generate-tokens :
      (tenant_id : String) (s : World) (link : GeneratedSetupLink)
      → (generate p tenant_id s).0 ≡ ok link
      → (new : SetupToken) × ((generate p tenant_id s).1.setup_tokens
          ≡ update_many
              (is_unrevoked_of tenant_id)
              (revoke_token_at (p.clock s.ticks))
              s.setup_tokens
            ++ new ∷ [])
        × (new.tenant_id ≡ tenant_id)
        × (new.revoked_at ≡ none)
        × (new.token_hash ≡ p.sha256 link.setup_token)
        × (new.expires_at ≡ link.expires_at)
  unfolding generate transaction ◌>>=◌ now draw update_setup_tokens create_setup_token
  generate-tokens tenant_id s link h = (
    record {
      id = p.cuid (suc s.draws);
      tenant_id = tenant_id;
      token_hash = p.sha256 (p.random_token s.draws);
      expires_at = p.clock (suc s.ticks) + setup_token_ttl_ms;
      revoked_at = none;
      used_at = none;
    },
    ground arith,
    refl,
    refl,
    ground arith,
    ground arith,
  )

  pub generate-count :
      (tenant_id : String) (s : World) (link : GeneratedSetupLink)
      → (generate p tenant_id s).0 ≡ ok link
      → count (is_unrevoked_of tenant_id) (generate p tenant_id s).1.setup_tokens ≡ 1
  unfolding count
  generate-count tenant_id s link h =
      let (new, tokens, of_tenant, live, _, _) = generate-tokens tenant_id s link h in
      let revoked =
        update_many (is_unrevoked_of tenant_id) (revoke_token_at (p.clock s.ticks))
          s.setup_tokens in
      let one : is_unrevoked_of tenant_id new ≡ true =
        rw (of_tenant, live, ==_refl tenant_id) refl in
      rw tokens (
        ground (
          arith,
          count-append (is_unrevoked_of tenant_id) revoked (new ∷ []),
          revoked_count tenant_id (p.clock s.ticks) s.setup_tokens,
          one,
        ))

  redeem_hash-dead :
      (token_hash password_hash : String) (s : World) (k : SetupToken)
      → find_first (λ x. x.token_hash == token_hash) s.setup_tokens ≡ some k
      → is_dead (p.clock s.ticks) k ≡ true
      → (redeem_hash p token_hash password_hash s).0 ≡ err invalid_setup_token
  unfolding redeem_hash redeem_found transaction ◌>>=◌ now
  redeem_hash-dead token_hash password_hash s k found dead = ground arith

  dead_after :
      (tenant_id : String) (t t' : ℕ) (k : SetupToken)
      → k.tenant_id ≡ tenant_id
      → is_dead t' (if is_unrevoked_of tenant_id k then revoke_token_at t k else k) ≡ true
  dead_after tenant_id t t' k of_tenant = elim (Bool-cases (is_none k.revoked_at)) [
    | inl live ↦
        let named : (k.tenant_id == tenant_id) ≡ true = rw of_tenant (==_refl tenant_id) in
        let hit : is_unrevoked_of tenant_id k ≡ true = ground (arith, live, named) in
        ap (λ b. is_dead t' (if b then revoke_token_at t k else k)) hit
    | inr revoked ↦
        let miss : is_unrevoked_of tenant_id k ≡ false = ground (arith, revoked) in
        ap (λ b. is_dead t' (if b then revoke_token_at t k else k)) miss ∙ ground (arith, revoked)
  ]

  revoke_all-tokens :
      (tenant_id : String) (s : World)
      → (revoke_all p tenant_id s).1 ≡ record s {
        db = record s.db {
          setup_tokens =
              update_many
                (is_unrevoked_of tenant_id)
                (revoke_token_at (p.clock s.ticks))
                s.setup_tokens;
        };
        ticks = suc s.ticks;
      }
  unfolding revoke_all ◌>>=◌ now update_setup_tokens
  revoke_all-tokens tenant_id s = refl

  -- After the tokens of a tenant were revoked, each token of the tenant that was there is refused.
  pub revoke_all-redeem_hash :
      (tenant_id token_hash password_hash : String) (s : World) (k : SetupToken)
      → find_first (λ x. x.token_hash == token_hash) s.setup_tokens ≡ some k
      → k.tenant_id ≡ tenant_id
      → (redeem_hash p token_hash password_hash (revoke_all p tenant_id s).1).0
        ≡ err invalid_setup_token
  revoke_all-redeem_hash tenant_id token_hash password_hash s k found of_tenant =
      let s' = (revoke_all p tenant_id s).1 in
      let e = revoke_all-tokens tenant_id s in
      let found' =
        find_first-update_many (λ x. x.token_hash == token_hash) (is_unrevoked_of tenant_id)
          (revoke_token_at (p.clock s.ticks)) s.setup_tokens k (λ x. refl) found in
      redeem_hash-dead token_hash password_hash s' _
        (ap (λ w. find_first (λ x. x.token_hash == token_hash) w.setup_tokens) e ∙ found')
        (dead_after tenant_id (p.clock s.ticks) (p.clock s'.ticks) k of_tenant)

  -- What a redemption that returned found and did.
  pub record Redemption (token_hash password_hash : String) (s s' : World) : Type 0 where
    pub token : SetupToken
    pub admin : TenantUser
    pub found : find_first (λ k. k.token_hash == token_hash) s.setup_tokens ≡ some token
    pub usable : is_dead (p.clock s.ticks) token ≡ false
    pub pending : find_first (is_pending_admin token.tenant_id) s.tenant_users ≡ some admin
    pub password :
        s'.auth_accounts
        ≡ update_many
            (λ a. a.id == admin.auth_account_id)
            (λ a. record a { password_hash = password_hash })
            s.auth_accounts
    pub activated :
        s'.tenant_users
        ≡ update_many
            (λ u. u.id == admin.id)
            (λ u. record u { status = TenantUserStatus.active })
            s.tenant_users
    pub tokens :
        s'.setup_tokens
        ≡ update_many (is_live_sibling token) (revoke_token_at (p.clock s.ticks)) (
            update_many
              (is_consumable token.id (p.clock s.ticks))
              (use_token_at (p.clock s.ticks))
              s.setup_tokens)

  claim_admin-ok :
      (token : SetupToken) (u : TenantUser) (hash : String) (t : ℕ) (s : World)
      → (claim_admin p token u hash t s).0 ≡ ok tt
      → ((claim_admin p token u hash t s).1.auth_accounts
          ≡ update_many
              (λ a. a.id == u.auth_account_id)
              (λ a. record a { password_hash = hash })
              s.auth_accounts)
        × ((claim_admin p token u hash t s).1.tenant_users
            ≡ update_many
                (λ v. v.id == u.id)
                (λ v. record v { status = TenantUserStatus.active })
                s.tenant_users)
        × ((claim_admin p token u hash t s).1.setup_tokens
            ≡ update_many
                (is_live_sibling token)
                (revoke_token_at t)
                (update_many (is_consumable token.id t) (use_token_at t) s.setup_tokens))
  unfolding claim_admin ◌>>=◌ update_setup_tokens update_auth_account update_tenant_user
  claim_admin-ok token u hash t s h = ground arith

  redeem_found-ok :
      (token : SetupToken) (hash : String) (t : ℕ) (s : World)
      → (redeem_found p token hash t s).0 ≡ ok tt
      → (is_dead t token ≡ false)
        × ((u : TenantUser) × (find_first (is_pending_admin token.tenant_id) s.tenant_users
              ≡ some u)
            × (redeem_found p token hash t s ≡ claim_admin p token u hash t s))
  unfolding redeem_found ◌>>=◌
  redeem_found-ok token hash t s h =
      elim (Option-cases (find_first (is_pending_admin token.tenant_id) s.tenant_users)) [
        | inl missing ↦ absurd (ground arith)
        | inr (u, e) ↦ (ground arith, (u, e, ground arith))
      ]

  redeem_hash-found :
      (token_hash hash : String) (s : World)
      → (redeem_hash p token_hash hash s).0 ≡ ok tt
      → (token : SetupToken) × (find_first (λ k. k.token_hash == token_hash) s.setup_tokens
          ≡ some token)
        × ((redeem_found p token hash (p.clock s.ticks) (record s { ticks = suc s.ticks })).0
            ≡ ok tt)
        × ((redeem_hash p token_hash hash s).1
            ≡ (redeem_found p token hash (p.clock s.ticks) (record s { ticks = suc s.ticks })).1)
  unfolding redeem_hash transaction ◌>>=◌ now
  redeem_hash-found token_hash hash s h =
      elim (Option-cases (find_first (λ k. k.token_hash == token_hash) s.setup_tokens)) [
        | inl missing ↦ absurd (ground arith)
        | inr (token, e) ↦ (token, e, ground arith, ground arith)
      ]

  pub redeem_hash-Redemption :
      (token_hash hash : String) (s : World)
      → (redeem_hash p token_hash hash s).0 ≡ ok tt
      → Redemption token_hash hash s (redeem_hash p token_hash hash s).1
  redeem_hash-Redemption token_hash hash s h =
      let (token, found, redeemed, end) = redeem_hash-found token_hash hash s h in
      let s₁ = record s { ticks = suc s.ticks } in
      let (usable, (u, pending, claimed)) =
        redeem_found-ok token hash (p.clock s.ticks) s₁ redeemed in
      let (password, activated, tokens) =
        claim_admin-ok token u hash (p.clock s.ticks) s₁ (ap (λ x. x.0) (sym claimed) ∙ redeemed) in
      let whole = end ∙ ap (λ x. x.1) claimed in
      record {
        token = token;
        admin = u;
        found = found;
        usable = usable;
        pending = pending;
        password = ap (λ w. w.auth_accounts) whole ∙ password;
        activated = ap (λ w. w.tenant_users) whole ∙ activated;
        tokens = ap (λ w. w.setup_tokens) whole ∙ tokens;
      }

  -- the token is found again, as used
  pub redeem_hash-used :
      (token_hash hash : String) (s s' : World) (d : Redemption token_hash hash s s')
      → find_first (λ k. k.token_hash == token_hash) s'.setup_tokens
        ≡ some (use_token_at (p.clock s.ticks) d.token)
  redeem_hash-used token_hash hash s s' d =
      let t = p.clock s.ticks in
      let by_hash = λ (k : SetupToken). k.token_hash == token_hash in
      let used = update_many (is_consumable d.token.id t) (use_token_at t) s.setup_tokens in
      let hit : is_consumable d.token.id t d.token ≡ true =
        ground (arith, ==_refl d.token.id, d.usable) in
      let first =
        find_first-update_many by_hash (is_consumable d.token.id t) (use_token_at t) s.setup_tokens
          d.token (λ k. refl) d.found
        ∙ ap (λ b. some (if b then use_token_at t d.token else d.token)) hit in
      let miss : is_live_sibling d.token (use_token_at t d.token) ≡ false =
        ground (arith, ==_refl d.token.id) in
      let second =
        find_first-update_many by_hash (is_live_sibling d.token) (revoke_token_at t) used
          (use_token_at t d.token) (λ k. refl) first
        ∙ ap
            (λ b.
              some
                (if b then revoke_token_at t (use_token_at t d.token) else use_token_at t d.token))
            miss in
      rw d.tokens second

  -- A setup token works once: after a redemption that returned, the same token is refused, whatever
  -- password it is presented with.
  pub redeem_hash-redeem_hash :
      (token_hash hash hash' : String) (s : World)
      → (redeem_hash p token_hash hash s).0 ≡ ok tt
      → (redeem_hash p token_hash hash' (redeem_hash p token_hash hash s).1).0
        ≡ err invalid_setup_token
  redeem_hash-redeem_hash token_hash hash hash' s h =
      let s' = (redeem_hash p token_hash hash s).1 in
      let d = redeem_hash-Redemption token_hash hash s h in
      redeem_hash-dead token_hash hash' s' (use_token_at (p.clock s.ticks) d.token)
        (redeem_hash-used token_hash hash s s' d) (ground arith)
