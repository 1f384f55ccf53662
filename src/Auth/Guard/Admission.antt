-- ===== src/Auth/Guard/Admission.antt =====
-- Whom the guard admits, and what the request context then holds.
use flexi.Prelude.{
  ℕ, suc, ◌-◌, ◌≤◌, String, ◌==◌, truthy, ◌≡◌, sym, ap, ◌∙◌, true, false, ◌&&◌, ◌||◌, is_none, ltb,
  Option, none, some, arith, is_some, Option-cases, Bool-cases, ◌⊎◌, inl, inr,
}
use flexi.Exec.{ok, err, unauthorized, ◌>>=◌}
use flexi.Store.{ActorType, Tenant, World}
use flexi.Store.Rows.{find_first}
use flexi.Store.Platform.{Platform, AccessTokenPayload}
use flexi.Store.Tables.{now, set_cls}
use flexi.Auth.Actors.Joins.{is_tenant_active-row}
use flexi.Tenancy.{schema_of, check_name, resolve_tenant_schema}
use flexi.Auth.Actors.{AuthenticatedUser, is_tenant_active}
use flexi.Auth.Guard.{
  user_of, text_of, seconds, has_impersonation_claims, is_live_impersonation, extract_token,
  check_impersonation, assert_valid_impersonation, enter_tenant, establish_tenant, can_activate,
}

-- The claims of a delegated token that the guard accepted.
pub record IsDelegation (payload : AccessTokenPayload) (t : ℕ) (s : World) : Type 0 where
  pub impersonator : truthy payload.impersonated_by ≡ true
  pub session : truthy payload.impersonation_session_id ≡ true
  pub of_tenant : payload.actor_type ≡ ActorType.tenant
  pub tenant : truthy payload.tenant_id ≡ true
  pub member : truthy payload.tenant_user_id ≡ true
  pub window : seconds payload.exp - seconds payload.iat ≤ 900
  pub live :
      is_some (
        find_first
          (λ i.
            i.id == text_of payload.impersonation_session_id
            && i.tenant_id == text_of payload.tenant_id
            && i.target_tenant_user_id == text_of payload.tenant_user_id
            && i.impersonator_id == text_of payload.impersonated_by
            && is_none i.ended_at
            && ltb t i.expires_at)
          s.impersonation_sessions)
      ≡ true

-- The request context of a tenant's request.
pub record InTenant (payload : AccessTokenPayload) (s s' : World) : Type 0 where
  pub tenant : Tenant
  pub active :
      find_first (λ t. t.id == text_of payload.tenant_id && t.status == "ACTIVE") s.tenants
      ≡ some tenant
  pub routed : s'.cls.tenant_id ≡ some (text_of payload.tenant_id)
  pub schema : s'.cls.schema ≡ some (schema_of (text_of payload.tenant_id))

module _ (p : Platform) where
  assert_valid_impersonation-ok :
      (payload : AccessTokenPayload) (s : World)
      → (assert_valid_impersonation p payload s).0 ≡ ok tt
      → ((truthy payload.impersonated_by || truthy payload.impersonation_session_id) ≡ true
          → IsDelegation payload (p.clock s.ticks) s)
        × ((assert_valid_impersonation p payload s).1.db ≡ s.db)
        × ((assert_valid_impersonation p payload s).1.cls ≡ s.cls)
  unfolding assert_valid_impersonation check_impersonation ◌>>=◌ now has_impersonation_claims
  assert_valid_impersonation-ok payload s h = (
    λ claims. record {
      impersonator = ground arith;
      session = ground arith;
      of_tenant = ground arith;
      tenant = ground arith;
      member = ground arith;
      window = ground arith;
      live = ground arith;
    },
    ground arith,
    ground arith,
  )

  establish_tenant-ok :
      (payload : AccessTokenPayload) (s : World)
      → (establish_tenant p payload s).0 ≡ ok tt
      → (truthy payload.tenant_id ≡ true → InTenant payload s (establish_tenant p payload s).1)
        × (truthy payload.tenant_id ≡ false → (establish_tenant p payload s).1 ≡ s)
  unfolding establish_tenant enter_tenant ◌>>=◌ set_cls resolve_tenant_schema check_name
  establish_tenant-ok payload s h = (
    λ tenant.
        let active : is_tenant_active s.db (text_of payload.tenant_id) ≡ true = ground arith in
        let (row, found) = is_tenant_active-row s.db (text_of payload.tenant_id) active in
        record { tenant = row; active = found; routed = ground arith; schema = ground arith },
    λ none. ground arith,
  )

  -- What an admitted request shows: a token that verifies, from whose claims alone the caller is built;
  -- for a delegated token, a live session of the same four claims; for a tenant's token, an active
  -- tenant, to whose schema the request is routed.
  pub record Admitted (header : Option String) (s s' : World) (user : AuthenticatedUser)
      : Type 0 where
    pub token : String
    pub payload : AccessTokenPayload
    pub bearer : extract_token p header ≡ some token
    pub verified : p.verify_access (p.clock s.ticks) token ≡ some payload
    pub caller : user ≡ user_of payload
    pub delegation :
        ((truthy payload.impersonated_by || truthy payload.impersonation_session_id) ≡ false)
        ⊎ IsDelegation payload (p.clock (suc s.ticks)) s
    pub tenant :
        ((truthy payload.tenant_id ≡ true) × InTenant payload s s')
        ⊎ ((truthy payload.tenant_id ≡ false) × (s'.cls ≡ s.cls))
    pub unchanged : s'.db ≡ s.db

  can_activate-parts :
      (header : Option String) (s : World) (user : AuthenticatedUser) (token : String)
      (payload : AccessTokenPayload)
      → extract_token p header ≡ some token
      → p.verify_access (p.clock s.ticks) token ≡ some payload
      → (can_activate p header s).0 ≡ ok user
      → ((assert_valid_impersonation p payload (record s { ticks = suc s.ticks })).0 ≡ ok tt)
        × ((establish_tenant p payload
              (assert_valid_impersonation p payload (record s { ticks = suc s.ticks })).1).0
            ≡ ok tt)
        × ((can_activate p header s).1
            ≡ (establish_tenant p payload
                (assert_valid_impersonation p payload (record s { ticks = suc s.ticks })).1).1)
        × (user ≡ user_of payload)
  unfolding can_activate ◌>>=◌ now
  can_activate-parts header s user token payload bearer verified h = ground arith

  establish_tenant-db :
      (payload : AccessTokenPayload) (s : World) → (establish_tenant p payload s).1.db ≡ s.db
  unfolding establish_tenant enter_tenant ◌>>=◌ set_cls
  establish_tenant-db payload s = ground arith

  -- The claims of the token are read once, and the context is what they say.
  Admitted-of :
      (header : Option String) (s : World) (user : AuthenticatedUser) (token : String)
      (payload : AccessTokenPayload)
      → extract_token p header ≡ some token
      → p.verify_access (p.clock s.ticks) token ≡ some payload
      → (can_activate p header s).0 ≡ ok user
      → Admitted header s (can_activate p header s).1 user
  Admitted-of header s user token payload bearer verified h =
      let s₁ = record s { ticks = suc s.ticks } in
      let s₂ = (assert_valid_impersonation p payload s₁).1 in
      let (valid, established, end, caller) =
        can_activate-parts header s user token payload bearer verified h in
      let (delegation, same_db, same_cls) = assert_valid_impersonation-ok payload s₁ valid in
      let (in_tenant, no_tenant) = establish_tenant-ok payload s₂ established in
      record {
        token = token;
        payload = payload;
        bearer = bearer;
        verified = verified;
        caller = caller;
        delegation =
            elim (Bool-cases
              (truthy payload.impersonated_by || truthy payload.impersonation_session_id)) [
                | inr own ↦ inl own
                | inl claims ↦
                    let d = delegation claims in
                    inr (record {
                      impersonator = d.impersonator;
                      session = d.session;
                      of_tenant = d.of_tenant;
                      tenant = d.tenant;
                      member = d.member;
                      window = d.window;
                      live = d.live;
                    })
              ];
        tenant = elim (Bool-cases (truthy payload.tenant_id)) [
          | inl some_tenant ↦
              let i = in_tenant some_tenant in
              inl (
                some_tenant,
                record {
                  tenant = i.tenant;
                  active =
                      ap
                        (λ db.
                          find_first
                            (λ t. t.id == text_of payload.tenant_id && t.status == "ACTIVE")
                            db.tenants)
                        (sym same_db)
                      ∙ i.active;
                  routed = rw end i.routed;
                  schema = rw end i.schema;
                },
              )
          | inr system ↦ inr (system, rw (end, no_tenant system) same_cls)
        ];
        unchanged = rw (end, establish_tenant-db payload s₂) same_db;
      }

  -- An admitted request is what its verified token says, and nothing was written.
  pub can_activate-Admitted :
      (header : Option String) (s : World) (user : AuthenticatedUser)
      → (can_activate p header s).0 ≡ ok user
      → Admitted header s (can_activate p header s).1 user
  unfolding can_activate ◌>>=◌ now
  can_activate-Admitted header s user h = elim (Option-cases (extract_token p header)) [
    | inl missing ↦ absurd (ground arith)
    | inr (token, bearer) ↦ elim (Option-cases (p.verify_access (p.clock s.ticks) token)) [
      | inl invalid ↦ absurd (ground arith)
      | inr (payload, verified) ↦ Admitted-of header s user token payload bearer verified h
    ]
  ]

  refused_without_session :
      (payload : AccessTokenPayload) (s : World)
      → find_first (is_live_impersonation payload (p.clock s.ticks)) s.impersonation_sessions ≡ none
      → truthy payload.impersonated_by ≡ true
      → (assert_valid_impersonation p payload s).0 ≡ err unauthorized
  unfolding assert_valid_impersonation check_impersonation ◌>>=◌ now
  refused_without_session payload s h claims = ground arith

  -- Without a live session of its claims a delegated token is refused.
  pub can_activate-no_session :
      (header : Option String) (token : String) (payload : AccessTokenPayload) (s : World)
      → truthy payload.impersonated_by ≡ true
      → extract_token p header ≡ some token
      → p.verify_access (p.clock s.ticks) token ≡ some payload
      → ((t : ℕ) → find_first (is_live_impersonation payload t) s.impersonation_sessions ≡ none)
      → (can_activate p header s).0 ≡ err unauthorized
  unfolding can_activate ◌>>=◌ now
  can_activate-no_session header token payload s claims bearer verified h = ground (
    arith,
    refused_without_session payload (record s { ticks = suc s.ticks }) (h (p.clock (suc s.ticks)))
        claims,
  )
