-- ===== src/Store/Setup.antt =====
-- Calls on the tables of the onboarding: tenants, attempts, their audit, setup tokens; the rows that go
-- with a deleted role, membership or account (`onDelete` of prisma/schema.prisma).
use flexi.Prelude.{
  ℕ, String, ◌==◌, same, Bool, true, false, ◌&&◌, ◌||◌, none, some, [], ◌∷◌, ◌++◌, if◌then◌else◌,
  eqb, is_some,
}
use flexi.Exec.{Failure, ok, err, record_not_found, unique_violation}
use flexi.Onboarding.{TenantOnboardingAttempt, TenantOnboardingAuditLog, SetupToken}
use flexi.Store.{Tenant, Role, TenantUser, AuthAccount}
use flexi.Store.Rows.{count, update_many, delete_many, find_first}
use flexi.Store.Tables.{Action}

-- `updateMany`, `$executeRaw` of an UPDATE; the answer is the count
unfoldable pub update_tenants : (Tenant → Bool) → (Tenant → Tenant) → Action ℕ
update_tenants q f s =
    (ok (count q s.tenants), record s { db = record s.db { tenants = update_many q f s.tenants } })

abbrev pub conflicts : Tenant → Tenant → Bool
conflicts new t =
    t.id == new.id
    || t.slug == new.slug
    || (elim new.onboarding_attempt_id [ none ↦ false | some a ↦ same t.onboarding_attempt_id a ])

-- `INSERT INTO "tenants"`: the id, the slug and the attempt are unique
unfoldable pub create_tenant : Failure → Tenant → Action Tenant
create_tenant conflict row s =
    if eqb (count (conflicts row) s.tenants) 0
    then (ok row, record s { db = record s.db { tenants = s.tenants ++ row ∷ [] } })
    else (err conflict, s)

-- `tenant.update({ where: { id }, data })`
unfoldable pub update_tenant : String → (Tenant → Tenant) → Action Unit
update_tenant id f s =
    if eqb (count (λ t. t.id == id) s.tenants) 0 then (err record_not_found, s) else (
      ok tt,
      record s { db = record s.db { tenants = update_many (λ t. t.id == id) f s.tenants } },
    )

-- `INSERT INTO "tenant_onboarding_attempts"`: the id and the idempotency key are unique
unfoldable pub create_onboarding_attempt_row :
    Failure → TenantOnboardingAttempt → Action TenantOnboardingAttempt
create_onboarding_attempt_row conflict row s =
    if eqb
      (count (λ a. a.id == row.id || a.idempotency_key == row.idempotency_key)
        s.onboarding_attempts)
      0
    then (
      ok row,
      record s { db = record s.db { onboarding_attempts = s.onboarding_attempts ++ row ∷ [] } },
    )
    else (err conflict, s)

unfoldable pub update_onboarding_attempts :
    (TenantOnboardingAttempt → Bool)
    → (TenantOnboardingAttempt → TenantOnboardingAttempt)
    → Action ℕ
update_onboarding_attempts q f s = (
  ok (count q s.onboarding_attempts),
  record s { db = record s.db { onboarding_attempts = update_many q f s.onboarding_attempts } },
)

-- `tenantOnboardingAuditLog.upsert({ where: { attemptId }, create, update })`
unfoldable pub upsert_onboarding_audit : TenantOnboardingAuditLog → Action Unit
upsert_onboarding_audit row s = (
  ok tt,
  record s {
    db = record s.db {
      onboarding_audit_logs =
          if eqb (count (λ r. r.attempt_id == row.attempt_id) s.onboarding_audit_logs) 0
          then s.onboarding_audit_logs ++ row ∷ []
          else update_many (λ r. r.attempt_id == row.attempt_id) (λ r. row) s.onboarding_audit_logs;
    };
  },
)

unfoldable pub update_setup_tokens : (SetupToken → Bool) → (SetupToken → SetupToken) → Action ℕ
update_setup_tokens q f s = (
  ok (count q s.setup_tokens),
  record s { db = record s.db { setup_tokens = update_many q f s.setup_tokens } },
)

-- the token hash is unique
unfoldable pub create_setup_token : SetupToken → Action Unit
create_setup_token row s =
    if eqb (count (λ r. r.id == row.id || r.token_hash == row.token_hash) s.setup_tokens) 0
    then (ok tt, record s { db = record s.db { setup_tokens = s.setup_tokens ++ row ∷ [] } })
    else (err unique_violation, s)

unfoldable pub create_auth_account : AuthAccount → Action Unit
create_auth_account row s =
    if eqb (count (λ a. a.id == row.id) s.auth_accounts) 0
    then (ok tt, record s { db = record s.db { auth_accounts = s.auth_accounts ++ row ∷ [] } })
    else (err unique_violation, s)

-- the pair of tenant and account is unique
unfoldable pub create_tenant_user : TenantUser → Action Unit
create_tenant_user row s =
    if eqb
      (count
        (λ u.
          u.id == row.id
          || u.tenant_id == row.tenant_id && u.auth_account_id == row.auth_account_id)
        s.tenant_users)
      0
    then (ok tt, record s { db = record s.db { tenant_users = s.tenant_users ++ row ∷ [] } })
    else (err unique_violation, s)

unfoldable pub create_role : Role → Action Unit
create_role row s =
    if eqb (count (λ r. r.id == row.id) s.all_roles) 0
    then (ok tt, record s { db = record s.db { all_roles = s.all_roles ++ row ∷ [] } })
    else (err unique_violation, s)

-- a change of a role, which its holders see
unfoldable pub update_role : String → (Role → Role) → Action Unit
update_role id f s = (
  ok tt,
  record s {
    db = record s.db {
      all_roles = update_many (λ r. r.id == id) f s.all_roles;
      tenant_users =
          update_many (λ u. true)
            (λ u. record u { roles = update_many (λ r. r.id == id) f u.roles }) s.tenant_users;
      system_users =
          update_many (λ u. true)
            (λ u. record u { roles = update_many (λ r. r.id == id) f u.roles }) s.system_users;
    };
  },
)

-- `role.deleteMany({ where })`: nobody holds a deleted role, and invites to it name no role
unfoldable pub delete_roles : (Role → Bool) → Action Unit
delete_roles q s = (
  ok tt,
  record s {
    db = record s.db {
      all_roles = delete_many q s.all_roles;
      tenant_users =
          update_many (λ u. true) (λ u. record u { roles = delete_many q u.roles }) s.tenant_users;
      system_users =
          update_many (λ u. true) (λ u. record u { roles = delete_many q u.roles }) s.system_users;
      user_invites =
          update_many (λ i. is_some (find_first (λ r. q r && same i.role_id r.id) s.all_roles))
            (λ i. record i { role_id = none }) s.user_invites;
    };
  },
)

-- `tenantUser.delete({ where: { id } })`: its invites name no member
unfoldable pub delete_tenant_user : String → Action Unit
delete_tenant_user id s =
    if eqb (count (λ u. u.id == id) s.tenant_users) 0 then (err record_not_found, s) else (
      ok tt,
      record s {
        db = record s.db {
          tenant_users = delete_many (λ u. u.id == id) s.tenant_users;
          user_invites =
              update_many (λ i. same i.tenant_user_id id) (λ i. record i { tenant_user_id = none })
                s.user_invites;
        };
      },
    )

-- `authAccount.deleteMany({ where: { id } })`: its actors, sessions and reset codes go with it
unfoldable pub delete_auth_accounts : String → Action Unit
delete_auth_accounts id s = (
  ok tt,
  record s {
    db = record s.db {
      auth_accounts = delete_many (λ a. a.id == id) s.auth_accounts;
      tenant_users = delete_many (λ u. u.auth_account_id == id) s.tenant_users;
      system_users = delete_many (λ u. u.auth_account_id == id) s.system_users;
      refresh_tokens = delete_many (λ r. r.auth_account_id == id) s.refresh_tokens;
      password_reset_otps = delete_many (λ o. o.auth_account_id == id) s.password_reset_otps;
    };
  },
)
