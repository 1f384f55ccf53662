-- ===== src/Provisioning/Steps.antt =====
-- modules/tenants/provisioning.service.ts: the steps of provisioning a schema, and the services behind
-- them as an interface.
use flexi.Prelude.{
  ℕ, String, ◌==◌, same, Bool, false, not, ◌&&◌, Option, none, some, or_default, if◌then◌else◌, eqb,
}
use flexi.Exec.{
  Failure, Result, pure, raise, gets, refuse_if, catch_err, activation_blocked, record_not_found,
  plain_error, ◌>>=◌, ◌>>◌,
}
use flexi.Onboarding.{AttemptStatus, StepName, TenantOnboardingAttempt, SafePayload}
use flexi.Store.{Tenant, Cls}
use flexi.Store.Rows.{find_first}
use flexi.Store.Platform.{Platform, DeliveryOutcome}
use flexi.Store.Tables.{Action, now}
use flexi.Store.Setup.{update_tenants}
use flexi.Tenancy.{resolve_tenant_schema}
use flexi.Auth.Service.{lift_option}
use flexi.Provisioning.{
  Signal, is_cancelled, is_provisioning, find_attempt, succeeded_step, failed_step, tenant_step,
  throw_if_cancelled, update_attempt_step,
}
use flexi.Provisioning.Payload.{read_safe_payload}
use flexi.Provisioning.FirstAdmin.{FirstAdminDeactivationIds}
use flexi.Provisioning.SetupLink.{GeneratedSetupLink}

-- What the steps and the compensation call. Each may write and may raise.
pub record Collaborators : Type 0 where
  -- `tenantKnexService.raw('CREATE SCHEMA IF NOT EXISTS ??')` and its counterpart
  pub create_schema : String → Action Unit
  pub drop_schema : String → Action Unit
  -- `dynamicTablesService.ensureMetaTables()`, `tenantSeedService.bootstrapSeed()`
  pub ensure_meta_tables : Action Unit
  pub bootstrap_seed : Action Unit
  -- `firstAdminService`
  pub assign : String → String → Action Unit
  pub deactivate : String → Action FirstAdminDeactivationIds
  -- `setupLinkService`
  pub generate : String → Action GeneratedSetupLink
  pub revoke_all : String → Action Unit
  -- `emailDeliveryService.sendSetupInvite(email, tenantName, setupToken)`
  pub send_setup_invite : String → String → String → Action DeliveryOutcome

abbrev pub schema_context : String → String → Cls
schema_context tenant_id schema = record {
  tenant_id = some tenant_id;
  schema = some schema;
  tenant_user_id = none;
  impersonated_by = none;
  impersonation_session_id = none;
}

-- `cls.runWith({ tenantId, schema }, ...)`: the context of before is there again afterwards
unfoldable pub run_with : {A : Type 0} → Cls → Action A → Action A
run_with context m s =
    let (r, s') = m (record s { cls = context }) in (r, record s' { cls = s.cls })

abbrev pub lift_result : {A : Type 0} → Result A → Action A
lift_result r s = (r, s)

-- `resolveTenantSchema`, then the work in the context of the tenant's schema
unfoldable pub in_schema : {A : Type 0} → String → (String → Action A) → Action A
in_schema tenant_id work = do
  schema ← lift_result (resolve_tenant_schema tenant_id)
  run_with (schema_context tenant_id schema) (work schema)

-- `readAttemptSafePayload`
abbrev pub payload_of_attempt : Platform → Option TenantOnboardingAttempt → Option SafePayload
payload_of_attempt p none = none
payload_of_attempt p (some a) = read_safe_payload p a.safe_payload

-- The filter of the activation: the tenant has not failed, and its attempt is still provisioning.
abbrev pub may_activate : String → String → Option TenantOnboardingAttempt → Tenant → Bool
may_activate attempt_id tenant_id none t = false
may_activate attempt_id tenant_id (some a) t =
    t.id == tenant_id
    && not (t.status == "FAILED")
    && same t.onboarding_attempt_id attempt_id
    && is_provisioning a.status

abbrev pub set_tenant_status : String → Tenant → Tenant
set_tenant_status status t = record t { status = status }

unfoldable pub activate_tenant : String → String → Action ℕ
activate_tenant attempt_id tenant_id = do
  attempt ← gets (find_attempt attempt_id)
  update_tenants (may_activate attempt_id tenant_id attempt) (set_tenant_status "ACTIVE")

-- the code and the message of a failed activation
abbrev pub activation_error_code : Failure → String
activation_error_code Failure.activation_blocked = "ACTIVATION_BLOCKED_TENANT_FAILED"
activation_error_code _ = "ACTIVATION_FAILED"

abbrev pub activation_message : Failure → String
activation_message Failure.activation_blocked =
    "Tenant activation was blocked because the tenant is already FAILED."
activation_message _ = "Tenant activation failed."

module _ (p : Platform) (signal : Signal) (attempt_id tenant_id : String) where
  unfoldable pub record_success : StepName → Action Unit
  record_success step = do
    t ← now p
    update_attempt_step p signal attempt_id AttemptStatus.provisioning
        (succeeded_step step t (some tenant_id))

  unfoldable pub record_failure : StepName → String → String → Action Unit
  record_failure step code message = do
    t ← now p
    update_attempt_step p signal attempt_id AttemptStatus.provisioning
        (failed_step step t (some tenant_id) code message)

  -- the `catch` of a blocking step
  unfoldable pub fail_step : {A : Type 0} → StepName → String → String → Failure → Action A
  fail_step step code message e =
      if is_cancelled e then raise e else (do record_failure step code message; raise e)

  -- what a blocking step tries
  unfoldable pub try_step : {A : Type 0} → StepName → Action A → Action A
  try_step step work = do throw_if_cancelled p signal; a ← work; record_success step; pure a

  unfoldable pub blocking_step : {A : Type 0} → StepName → String → String → Action A → Action A
  blocking_step step code message work =
      catch_err (try_step step work) (fail_step step code message)

  module _ (c : Collaborators) where
    abbrev pub create_tenant_schema : Action Unit
    create_tenant_schema =
        blocking_step StepName.schema_created "SCHEMA_CREATION_FAILED"
          "Tenant schema creation failed." (in_schema tenant_id c.create_schema)

    abbrev pub bootstrap_tenant_schema : Action Unit
    bootstrap_tenant_schema =
        blocking_step StepName.bootstrap_migrated "BOOTSTRAP_MIGRATION_FAILED"
          "Tenant bootstrap migration failed." (in_schema tenant_id (λ _. c.ensure_meta_tables))

    abbrev pub bootstrap_tenant_seed : Action Unit
    bootstrap_tenant_seed =
        blocking_step StepName.bootstrap_seeded "BOOTSTRAP_SEED_FAILED"
          "Tenant bootstrap seed failed." (in_schema tenant_id (λ _. c.bootstrap_seed))

    unfoldable pub assign_from_payload : Action Unit
    assign_from_payload = do
      payload ← gets (λ s. payload_of_attempt p (find_attempt attempt_id s))
      safe ← lift_option plain_error payload
      in_schema tenant_id (λ _. c.assign tenant_id safe.first_admin_email)

    abbrev pub assign_first_admin : Action Unit
    assign_first_admin =
        blocking_step StepName.first_admin_assigned "FIRST_ADMIN_ASSIGNMENT_FAILED"
          "First Admin assignment failed." assign_from_payload

    abbrev pub generate_setup_link : Action GeneratedSetupLink
    generate_setup_link =
        blocking_step StepName.setup_link_generated "SETUP_LINK_GENERATION_FAILED"
          "Setup link generation failed." (in_schema tenant_id (λ _. c.generate tenant_id))

    -- the outcome of the delivery, recorded at the time of before it
    unfoldable pub record_delivery : ℕ → DeliveryOutcome → Action Unit
    record_delivery t outcome = update_attempt_step p signal attempt_id AttemptStatus.provisioning (
        if outcome.delivered
        then succeeded_step StepName.setup_email_sent t (some tenant_id)
        else failed_step StepName.setup_email_sent t (some tenant_id)
            (or_default outcome.error_code "SETUP_EMAIL_DELIVERY_FAILED")
            "Backup setup email delivery failed.")

    unfoldable pub deliver_setup_email : String → ℕ → Action Unit
    deliver_setup_email setup_token t = do
      throw_if_cancelled p signal
      payload ← gets (λ s. payload_of_attempt p (find_attempt attempt_id s))
      safe ← lift_option plain_error payload
      outcome ← c.send_setup_invite safe.first_admin_email safe.tenant_name setup_token
      record_delivery t outcome

    -- a failure is recorded and not raised, unless it is a cancellation
    unfoldable pub swallow_email_failure : ℕ → Failure → Action Unit
    swallow_email_failure t e =
        if is_cancelled e
        then raise e
        else catch_err
            (update_attempt_step p signal attempt_id AttemptStatus.provisioning (
              failed_step StepName.setup_email_sent t (some tenant_id) "SETUP_EMAIL_DELIVERY_FAILED"
                "Backup setup email delivery failed."))
            (λ f. if is_cancelled f then raise f else pure tt)

    unfoldable pub send_backup_email : String → Action Unit
    send_backup_email setup_token = do
      t ← now p
      catch_err (deliver_setup_email setup_token t) (swallow_email_failure t)

  -- after the conditional update, of which the count is known
  unfoldable pub finish_activation : ℕ → Action Unit
  finish_activation activated = do
    refuse_if (eqb activated 0) activation_blocked
    found ← gets (λ s. find_first (λ t. t.id == tenant_id) s.tenants)
    tenant ← lift_option record_not_found found
    t ← now p
    update_attempt_step p signal attempt_id AttemptStatus.provisioning
        (tenant_step StepName.activation t tenant)

  unfoldable pub try_activation : Action Unit
  try_activation = do
    throw_if_cancelled p signal
    activated ← activate_tenant attempt_id tenant_id
    finish_activation activated

  unfoldable pub fail_activation : Failure → Action Unit
  fail_activation e =
      fail_step StepName.activation (activation_error_code e) (activation_message e) e

  unfoldable pub activation : Action Unit
  activation = catch_err try_activation fail_activation
