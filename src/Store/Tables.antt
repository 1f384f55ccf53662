-- ===== src/Store/Tables.antt =====
-- The actions that the services are built from: readings of the clock and the random source, calls
-- on the tables, transactions and the audit trail (modules/auth/auth-audit.service.ts).
use flexi.Prelude.{
  ℕ, suc, String, ◌==◌, Bool, ◌||◌, Option, none, some, List, [], ◌∷◌, ◌++◌, if◌then◌else◌,
  or_default, truthy, eqb,
}
use flexi.Exec.{Exec, Result, ok, err, record_not_found, unique_violation}
use flexi.Store.{
  UserInvite, AuthAccount, TenantUser, SystemUser, RefreshToken, PasswordResetOtp,
  ImpersonationSession, Cls, AuthAuditLog, AuthAuditEvent, MetaValue, World, Mail,
}
use flexi.Store.Rows.{count, update_many}
use flexi.Store.Platform.{Platform, DeliveryOutcome}

-- An action of a request.
abbrev pub Action : Type 0 → Type 0
Action A = Exec World A

-- `prisma.$transaction(...)`: what a raise leaves behind is the database of before.
abbrev pub settle : {A : Type 0} → World → Result A → World → Result A × World
settle s (ok a) s' = (ok a, s')
settle s (err e) s' = (err e, record s' { db = s.db })

unfoldable pub transaction : {A : Type 0} → Action A → Action A
transaction m s = let (r, s') = m s in settle s r s'

-- `refreshToken.updateMany({ where, data })`; the answer is the count
unfoldable pub update_refresh_tokens :
    (RefreshToken → Bool) → (RefreshToken → RefreshToken) → Action ℕ
update_refresh_tokens p f s = (
  ok (count p s.refresh_tokens),
  record s { db = record s.db { refresh_tokens = update_many p f s.refresh_tokens } },
)

unfoldable pub update_password_reset_otps :
    (PasswordResetOtp → Bool) → (PasswordResetOtp → PasswordResetOtp) → Action ℕ
update_password_reset_otps p f s = (
  ok (count p s.password_reset_otps),
  record s { db = record s.db { password_reset_otps = update_many p f s.password_reset_otps } },
)

-- `authAccount.update({ where: { id }, data })`: raises where no row has the id
unfoldable pub update_auth_account : String → (AuthAccount → AuthAccount) → Action Unit
update_auth_account id f s =
    if eqb (count (λ a. a.id == id) s.auth_accounts) 0 then (err record_not_found, s) else (
      ok tt,
      record s {
        db = record s.db { auth_accounts = update_many (λ a. a.id == id) f s.auth_accounts };
      },
    )

unfoldable pub update_tenant_user : String → (TenantUser → TenantUser) → Action Unit
update_tenant_user id f s =
    if eqb (count (λ a. a.id == id) s.tenant_users) 0 then (err record_not_found, s) else (
      ok tt,
      record s {
        db = record s.db { tenant_users = update_many (λ a. a.id == id) f s.tenant_users };
      },
    )

unfoldable pub update_system_user : String → (SystemUser → SystemUser) → Action Unit
update_system_user id f s =
    if eqb (count (λ a. a.id == id) s.system_users) 0 then (err record_not_found, s) else (
      ok tt,
      record s {
        db = record s.db { system_users = update_many (λ a. a.id == id) f s.system_users };
      },
    )

-- `refreshToken.create({ data })`: the token hash is unique
unfoldable pub create_refresh_token : RefreshToken → Action Unit
create_refresh_token row s =
    if eqb (count (λ r. r.id == row.id || r.token_hash == row.token_hash) s.refresh_tokens) 0
    then (ok tt, record s { db = record s.db { refresh_tokens = s.refresh_tokens ++ row ∷ [] } })
    else (err unique_violation, s)

unfoldable pub create_password_reset_otp : PasswordResetOtp → Action Unit
create_password_reset_otp row s =
    if eqb (count (λ r. r.id == row.id) s.password_reset_otps) 0
    then (
      ok tt,
      record s { db = record s.db { password_reset_otps = s.password_reset_otps ++ row ∷ [] } },
    )
    else (err unique_violation, s)

unfoldable pub update_impersonation_sessions :
    (ImpersonationSession → Bool) → (ImpersonationSession → ImpersonationSession) → Action ℕ
update_impersonation_sessions p f s = (
  ok (count p s.impersonation_sessions),
  record s {
    db = record s.db { impersonation_sessions = update_many p f s.impersonation_sessions };
  },
)

unfoldable pub create_impersonation_session : ImpersonationSession → Action Unit
create_impersonation_session row s =
    if eqb (count (λ r. r.id == row.id) s.impersonation_sessions) 0
    then (
      ok tt,
      record s {
        db = record s.db { impersonation_sessions = s.impersonation_sessions ++ row ∷ [] };
      },
    )
    else (err unique_violation, s)

-- `userInvite.updateMany({ where, data })`
unfoldable pub update_user_invites : (UserInvite → Bool) → (UserInvite → UserInvite) → Action ℕ
update_user_invites p f s = (
  ok (count p s.user_invites),
  record s { db = record s.db { user_invites = update_many p f s.user_invites } },
)

-- `userInvite.create({ data })`: the token hash is unique
unfoldable pub create_user_invite : UserInvite → Action Unit
create_user_invite row s =
    if eqb (count (λ r. r.id == row.id || r.token_hash == row.token_hash) s.user_invites) 0
    then (ok tt, record s { db = record s.db { user_invites = s.user_invites ++ row ∷ [] } })
    else (err unique_violation, s)

-- `cls.set(...)`
unfoldable pub set_cls : (Cls → Cls) → Action Unit
set_cls f s = (ok tt, record s { cls = f s.cls })

-- `AuthAuditEntry`: what a caller of `record` passes
pub record AuthAuditEntry : Type 0 where
  pub event : AuthAuditEvent
  pub tenant_id : Option String
  pub subject_auth_account_id : Option String
  pub actor_auth_account_id : Option String
  pub impersonated : Option Bool
  pub impersonator_id : Option String
  pub metadata : List (String × MetaValue)

-- `entry.impersonatorId ?? cls.get('impersonatedBy') ?? null`
abbrev pub or_else : Option String → Option String → Option String
or_else none o = o
or_else (some s) o = some s

abbrev pub audit_row : AuthAuditEntry → World → AuthAuditLog
audit_row entry s = record {
  event = entry.event;
  tenant_id = entry.tenant_id;
  subject_auth_account_id = entry.subject_auth_account_id;
  actor_auth_account_id = entry.actor_auth_account_id;
  impersonated = or_default entry.impersonated (truthy s.cls.impersonated_by);
  impersonator_id = or_else entry.impersonator_id s.cls.impersonated_by;
  metadata = entry.metadata;
}

module _ (p : Platform) where
  open p use {clock, audit_insert, deliver}

  unfoldable pub now : Action ℕ
  now s = (ok (clock s.ticks), record s { ticks = suc s.ticks })

  -- the number of a draw, by which the platform gives the value
  unfoldable pub draw : Action ℕ
  draw s = (ok s.draws, record s { draws = suc s.draws })

  -- `record`: a failed insert is swallowed
  unfoldable pub record_audit : AuthAuditEntry → Action Unit
  record_audit entry s =
      if audit_insert s.draws
      then (
        ok tt,
        record s {
          db = record s.db { auth_audit_logs = s.auth_audit_logs ++ audit_row entry s ∷ [] };
          draws = suc s.draws;
        },
      )
      else (ok tt, record s { draws = suc s.draws })

  unfoldable pub send_mail : Mail → Action DeliveryOutcome
  send_mail m s =
      (ok (deliver s.draws), record s { outbox = s.outbox ++ m ∷ []; draws = suc s.draws })
