-- ===== src/Store/Evolution.antt =====
-- What no request undoes: revoked sessions, consumed reset codes, counted attempts, audit rows.
pub mod Rules
use flexi.Prelude.{
  ◌<◌, ◌⊎◌, ℕ, ◌≤◌, String, ◌==◌, ◌≡◌, refl, Bool, true, [], ◌∷◌, ◌++◌, ◌||◌, is_some, All,
  All-append, if◌then◌else◌, arith,
}
use flexi.Exec.{Failure, Result, ok, err, pure, raise, gets, refuse_if, ◌>>=◌}
use flexi.Exec.Evolves.{
  Preorder, Evolves, Evolves-pure, Evolves-raise, Evolves-gets, Evolves-refuse_if, Evolves-if,
  Evolves-bind,
}
use flexi.Store.{
  AuthAccount, TenantUser, SystemUser, RefreshToken, PasswordResetOtp, AuthAuditLog,
  ImpersonationSession, Cls, World, Mail,
}
use flexi.Store.Rows.{count}
use flexi.Store.Rows.Laws.{All-update_many}
use flexi.Store.Rows.Grows.{Grows, Grows-refl, Grows-trans, Grows-append, Grows-update_many}
use flexi.Store.Rows.Unique.{IsUnique, IsUnique-update_many, IsUnique-append, Lacks-of_count}
use flexi.Store.Platform.{Platform}
use flexi.Store.Tables.{
  Action, settle, transaction, update_refresh_tokens, update_password_reset_otps,
  update_auth_account, update_tenant_user, update_system_user, create_refresh_token,
  create_password_reset_otp, AuthAuditEntry, audit_row, record_audit, now, draw, send_mail, set_cls,
  update_impersonation_sessions, create_impersonation_session,
}

-- A session keeps its identity, owner and expiry, and stays revoked.
pub record TokenLater (r r' : RefreshToken) : Type 0 where
  pub id : r'.id ≡ r.id
  pub owner : r'.auth_account_id ≡ r.auth_account_id
  pub hash : r'.token_hash ≡ r.token_hash
  pub expiry : r'.expires_at ≡ r.expires_at
  pub stays_revoked : is_some r.revoked_at ≡ true → is_some r'.revoked_at ≡ true

-- A reset code keeps its identity, hash and expiry, stays consumed, and loses no failed attempt.
pub record OtpLater (o o' : PasswordResetOtp) : Type 0 where
  pub id : o'.id ≡ o.id
  pub owner : o'.auth_account_id ≡ o.auth_account_id
  pub hash : o'.otp_hash ≡ o.otp_hash
  pub expiry : o'.expires_at ≡ o.expires_at
  pub stays_consumed : is_some o.consumed_at ≡ true → is_some o'.consumed_at ≡ true
  pub attempts : o.attempt_count ≤ o'.attempt_count

pub TokenLater-preorder : Preorder TokenLater
TokenLater-preorder = record {
  reflexive = λ r. ground arith;
  transitive = λ {a} {b} {c} h k. ground arith;
}

pub OtpLater-preorder : Preorder OtpLater
OtpLater-preorder = record {
  reflexive = λ r. ground arith;
  transitive = λ {a} {b} {c} h k. ground arith;
}

abbrev pub SameRow : AuthAuditLog → AuthAuditLog → Type 0
SameRow a b = b ≡ a

pub SameRow-preorder : Preorder SameRow
SameRow-preorder = record { reflexive = λ a. refl; transitive = λ {a} {b} {c} h k. cc }

-- The primary key and the unique index of `refresh_tokens`, and the key of `password_reset_otps`.
pub record HasUniqueKeys (s : World) : Type 0 where
  pub token_ids : IsUnique (λ r. r.id) s.refresh_tokens
  pub token_hashes : IsUnique (λ r. r.token_hash) s.refresh_tokens
  pub otp_ids : IsUnique (λ o. o.id) s.password_reset_otps

-- The wrong submissions that a reset code takes before it is consumed.
abbrev pub attempt_budget : ℕ
attempt_budget = 3

pub record IsWithinBudget (o : PasswordResetOtp) : Type 0 where
  pub bounded : o.attempt_count ≤ attempt_budget
  pub spent : (o.attempt_count < attempt_budget) ⊎ (is_some o.consumed_at ≡ true)

abbrev pub KeepsBudget : World → Type 0
KeepsBudget s = All IsWithinBudget s.password_reset_otps

pub record Later (s s' : World) : Type 0 where
  pub tokens : Grows TokenLater s.refresh_tokens s'.refresh_tokens
  pub otps : Grows OtpLater s.password_reset_otps s'.password_reset_otps
  pub audits : Grows SameRow s.auth_audit_logs s'.auth_audit_logs
  pub ticks : s.ticks ≤ s'.ticks
  pub draws : s.draws ≤ s'.draws
  pub keys : HasUniqueKeys s → HasUniqueKeys s'
  pub budget : KeepsBudget s → KeepsBudget s'

pub Later-preorder : Preorder Later
Later-preorder = record {
  reflexive = λ s. record {
    tokens = Grows-refl TokenLater-preorder s.refresh_tokens;
    otps = Grows-refl OtpLater-preorder s.password_reset_otps;
    audits = Grows-refl SameRow-preorder s.auth_audit_logs;
    ticks = omega arith;
    draws = omega arith;
    keys = λ u. u;
    budget = λ b. b;
  };
  transitive = λ {a} {b} {c} h k. record {
    tokens =
        Grows-trans TokenLater-preorder a.refresh_tokens b.refresh_tokens c.refresh_tokens h.tokens
          k.tokens;
    otps =
        Grows-trans OtpLater-preorder a.password_reset_otps b.password_reset_otps
          c.password_reset_otps h.otps k.otps;
    audits =
        Grows-trans SameRow-preorder a.auth_audit_logs b.auth_audit_logs c.auth_audit_logs h.audits
          k.audits;
    ticks = omega (arith, h.ticks, k.ticks);
    draws = omega (arith, h.draws, k.draws);
    keys = λ u. k.keys (h.keys u);
    budget = λ b. k.budget (h.budget b);
  };
}

-- A state that differs in nothing of these but the readings.
pub Later-of_same :
    {s s' : World}
    → s'.refresh_tokens ≡ s.refresh_tokens
    → s'.password_reset_otps ≡ s.password_reset_otps
    → s'.auth_audit_logs ≡ s.auth_audit_logs
    → s.ticks ≤ s'.ticks
    → s.draws ≤ s'.draws
    → Later s s'
Later-of_same {s} h k l m n = record {
  tokens = rw h (Grows-refl TokenLater-preorder s.refresh_tokens);
  otps = rw k (Grows-refl OtpLater-preorder s.password_reset_otps);
  audits = rw l (Grows-refl SameRow-preorder s.auth_audit_logs);
  ticks = m;
  draws = n;
  keys = λ u. record {
    token_ids = rw h u.token_ids;
    token_hashes = rw h u.token_hashes;
    otp_ids = rw k u.otp_ids;
  };
  budget = λ b. rw k b;
}
