-- ===== src/Auth/Reset.antt =====
-- modules/auth/password-reset.service.ts: recovery of a password by an emailed code.
pub mod Trail
pub mod Outcome
pub mod Effect
pub mod Single
pub mod Issue
use flexi.Prelude.{
  ℕ, zero, suc, ◌+◌, ◌-◌, ◌*◌, ◌/◌, ◌%◌, ◌^◌, String, ◌==◌, codes, Bool, true, false, not, ◌&&◌,
  ◌||◌, Option, none, some, List, [], ◌∷◌, ◌++◌, if◌then◌else◌, is_none, is_some, ltb, leb, eqb,
  every, length, digit_text,
}
use Prim.Native.String.{◌++◌ as append}
use flexi.Exec.{raise, pure, gets, refuse_if, invalid_otp, ◌>>=◌, ◌>>◌}
use flexi.Store.{
  PasswordResetOtp, AuthAccount, TenantUser, SystemUser, World, Db, AuthAuditEvent, MetaValue, Mail,
}
use flexi.Store.Rows.{find_latest}
use flexi.Store.Platform.{Platform, DeliveryOutcome}
use flexi.Store.Tables.{
  Action, transaction, update_refresh_tokens, update_password_reset_otps, update_auth_account,
  create_password_reset_otp, now, draw, send_mail, record_audit, AuthAuditEntry,
}
use flexi.Auth.Password.{is_digit}
use flexi.Auth.Email.{normalize_email}
use flexi.Auth.Actors.{is_tenant_active, find_tenant_user_by_email, find_system_user_by_email}
use flexi.Auth.Service.{is_live_of, revoke_at, assert_password_meets_policy}

abbrev pub otp_length : ℕ
otp_length = 6

abbrev pub otp_ttl_seconds : ℕ
otp_ttl_seconds = 5 * 60

abbrev pub otp_cooldown_seconds : ℕ
otp_cooldown_seconds = 60

abbrev pub otp_max_attempts : ℕ
otp_max_attempts = 3

pub record ResetActor : Type 0 where
  pub auth_account_id : String
  pub tenant_id : Option String
  pub is_active : Bool

abbrev pub tenant_reset_actor : Db → String → Option (TenantUser × AuthAccount) → Option ResetActor
tenant_reset_actor db tenant_id none = none
tenant_reset_actor db tenant_id (some (u, a)) =
    if is_tenant_active db tenant_id
    then some (record {
      auth_account_id = u.auth_account_id;
      tenant_id = some u.tenant_id;
      is_active = u.is_active && a.is_active;
    })
    else none

abbrev pub system_reset_actor : Option (SystemUser × AuthAccount) → Option ResetActor
system_reset_actor none = none
system_reset_actor (some (u, a)) = some (record {
  auth_account_id = u.auth_account_id;
  tenant_id = none;
  is_active = u.is_active && a.is_active;
})

unfoldable pub resolve_actor : String → Option String → Db → Option ResetActor
resolve_actor email none db = system_reset_actor (find_system_user_by_email db email)
resolve_actor email (some tenant_id) db =
    tenant_reset_actor db tenant_id (find_tenant_user_by_email db email tenant_id)

-- `otp` of an account that is not consumed
abbrev pub is_live_otp_of : String → PasswordResetOtp → Bool
is_live_otp_of account o = o.auth_account_id == account && is_none o.consumed_at

abbrev pub consume_at : ℕ → PasswordResetOtp → PasswordResetOtp
consume_at t o = record o { consumed_at = some t }

-- one failed attempt; the last one of the budget consumes the code
abbrev pub fail_attempt : ℕ → ℕ → PasswordResetOtp → PasswordResetOtp
fail_attempt t attempts o = record o {
  attempt_count = attempts;
  consumed_at = if leb otp_max_attempts attempts then some t else o.consumed_at;
}

-- `/^\d{6}$/`
unfoldable pub is_otp_shaped : List ℕ → Bool
is_otp_shaped cs = every is_digit cs && eqb (length cs) otp_length

abbrev reset_outcome : String → List (String × MetaValue)
reset_outcome outcome = ("outcome", MetaValue.text outcome) ∷ []

abbrev error_value : Option String → MetaValue
error_value none = MetaValue.null
error_value (some code) = MetaValue.text code

-- `String(n).padStart(6, '0')` of a number below 10 ** 6
unfoldable pub padded : ℕ → ℕ → String
padded zero n = ""
padded (suc k) n = append (padded k (n / 10)) (digit_text (n % 10))

-- What `requestReset` leaves to run after the response.
pub record PendingDelivery : Type 0 where
  pub actor : ResetActor
  pub email : String
  pub otp : String

module _ (p : Platform) where
  open p use {cuid, random_int, bcrypt_hash, bcrypt_compare}

  unfoldable pub is_within_cooldown : String → Action Bool
  is_within_cooldown account = do
    latest ← gets (λ s.
        find_latest (λ o. o.created_at) (λ o. o.auth_account_id == account) s.password_reset_otps)
    t ← now p
    pure
        (elim latest [ none ↦ false | some o ↦ ltb t (o.created_at + otp_cooldown_seconds * 1000) ])

  unfoldable pub audit_request : ResetActor → List (String × MetaValue) → Action Unit
  audit_request actor metadata = record_audit p (record {
    event = AuthAuditEvent.forgot_password_requested;
    tenant_id = actor.tenant_id;
    subject_auth_account_id = some actor.auth_account_id;
    actor_auth_account_id = none;
    impersonated = none;
    impersonator_id = none;
    metadata = metadata;
  })

  -- at most one live code: the earlier ones are consumed in the same transaction
  unfoldable pub issue_otp : ResetActor → String → Action (Option PendingDelivery)
  issue_otp actor email = do
    n ← draw p
    let otp = padded otp_length (random_int n (10 ^ otp_length))
    t ← now p
    salt ← draw p
    transaction (do
      update_password_reset_otps (is_live_otp_of actor.auth_account_id) (consume_at t)
      created_at ← now p
      row ← draw p
      create_password_reset_otp (record {
        id = cuid row;
        auth_account_id = actor.auth_account_id;
        otp_hash = bcrypt_hash salt otp;
        expires_at = t + otp_ttl_seconds * 1000;
        consumed_at = none;
        attempt_count = 0;
        created_at = created_at;
      }))
    audit_request actor (reset_outcome "OTP_ISSUED")
    pure (some (record { actor = actor; email = email; otp = otp }))

  unfoldable pub throttle : ResetActor → Action (Option PendingDelivery)
  throttle actor = do audit_request actor (reset_outcome "THROTTLED_BY_COOLDOWN"); pure none

  unfoldable pub request_of : Option ResetActor → String → Action (Option PendingDelivery)
  request_of none email = pure none
  request_of (some actor) email = if not actor.is_active then pure none else do
    throttled ← is_within_cooldown actor.auth_account_id
    if throttled then throttle actor else issue_otp actor email

  unfoldable pub request_reset : String → Option String → Action (Option PendingDelivery)
  request_reset email tenant_id = do
    actor ← gets (λ s. resolve_actor (normalize_email p email) tenant_id s.db)
    request_of actor (normalize_email p email)

  -- runs after the response
  pub deliver_otp : PendingDelivery → Action Unit
  deliver_otp d = do
    outcome ← send_mail p (Mail.password_reset_otp d.email d.otp (otp_ttl_seconds / 60))
    audit_request d.actor (
        (
          "outcome",
          MetaValue.text (if outcome.delivered then "EMAIL_DELIVERED" else "EMAIL_FAILED"),
        )
        ∷ ("errorCode", error_value outcome.error_code)
        ∷ [])

  unfoldable pub record_failure : Option ResetActor → List (String × MetaValue) → Action Unit
  record_failure actor metadata = record_audit p (record {
    event = AuthAuditEvent.password_reset_failed;
    tenant_id = elim actor [ none ↦ none | some a ↦ a.tenant_id ];
    subject_auth_account_id = elim actor [ none ↦ none | some a ↦ some a.auth_account_id ];
    actor_auth_account_id = none;
    impersonated = none;
    impersonator_id = none;
    metadata = metadata;
  })

  unfoldable pub refuse_otp :
      {A : Type 0} → Option ResetActor → List (String × MetaValue) → Action A
  refuse_otp actor metadata = do record_failure actor metadata; raise invalid_otp

  unfoldable pub otp_matches : String → String → Bool
  otp_matches submitted hash = is_otp_shaped (codes submitted) && bcrypt_compare submitted hash

  unfoldable pub expire_otp : ResetActor → PasswordResetOtp → ℕ → Action Unit
  expire_otp actor otp t = do
    update_password_reset_otps (λ o. o.id == otp.id && is_none o.consumed_at) (consume_at t)
    refuse_otp (some actor) (("reason", MetaValue.text "OTP_EXPIRED") ∷ [])

  -- the count that was read guards the write: of two that read the same row one applies
  unfoldable pub count_attempt : ResetActor → PasswordResetOtp → ℕ → Action Unit
  count_attempt actor otp t = do
    let attempts = otp.attempt_count + 1
    update_password_reset_otps
        (λ o. o.id == otp.id && is_none o.consumed_at && eqb o.attempt_count otp.attempt_count)
        (fail_attempt t attempts)
    refuse_otp (some actor) (
        (
          "reason",
          MetaValue.text
              (if leb otp_max_attempts attempts then "ATTEMPT_BUDGET_SPENT" else "OTP_MISMATCH"),
        )
        ∷ ("attemptCount", MetaValue.num attempts)
        ∷ [])

  -- consuming the code guards the whole write
  unfoldable pub set_password : ResetActor → PasswordResetOtp → String → ℕ → Action ℕ
  set_password actor otp password_hash t = transaction (do
    consumed ←
        update_password_reset_otps (λ o. o.id == otp.id && is_none o.consumed_at) (consume_at t)
    refuse_if (eqb consumed 0) invalid_otp
    update_auth_account actor.auth_account_id
        (λ a. record a { password_hash = password_hash; must_change_password = false })
    update_refresh_tokens (is_live_of actor.auth_account_id) (revoke_at t))

  unfoldable pub complete_reset : ResetActor → PasswordResetOtp → String → ℕ → Action Unit
  complete_reset actor otp password t = do
    salt ← draw p
    revoked ← set_password actor otp (bcrypt_hash salt password) t
    record_audit p (record {
      event = AuthAuditEvent.password_reset_success;
      tenant_id = actor.tenant_id;
      subject_auth_account_id = some actor.auth_account_id;
      actor_auth_account_id = none;
      impersonated = none;
      impersonator_id = none;
      metadata = ("revokedSessionCount", MetaValue.num revoked) ∷ [];
    })

  unfoldable pub try_otp : ResetActor → PasswordResetOtp → String → String → Action Unit
  try_otp actor otp submitted password = do
    t ← now p
    if leb otp.expires_at t
        then expire_otp actor otp t
        else if not (otp_matches submitted otp.otp_hash)
        then count_attempt actor otp t
        else complete_reset actor otp password t

  unfoldable pub attempt_reset :
      Option ResetActor → Option PasswordResetOtp → String → String → Action Unit
  attempt_reset (some actor) (some otp) submitted password =
      if actor.is_active
      then try_otp actor otp submitted password
      else refuse_otp (some actor) (("reason", MetaValue.text "NO_LIVE_OTP") ∷ [])
  attempt_reset actor otp submitted password =
      refuse_otp actor (("reason", MetaValue.text "NO_LIVE_OTP") ∷ [])

  -- the account that is looked up where none matched has the empty id
  abbrev account_or_empty : Option ResetActor → String
  account_or_empty none = ""
  account_or_empty (some actor) = actor.auth_account_id

  unfoldable pub reset_password : String → String → String → Option String → Action Unit
  reset_password email submitted password tenant_id = do
    assert_password_meets_policy password
    actor ← gets (λ s. resolve_actor (normalize_email p email) tenant_id s.db)
    otp ← gets (λ s.
        find_latest (λ o. o.created_at) (is_live_otp_of (account_or_empty actor))
          s.password_reset_otps)
    attempt_reset actor otp submitted password
