-- ===== src/Provisioning/Lifecycle.antt =====
-- modules/tenants/provisioning.service.ts: the final audit row, the lifecycle of an attempt;
-- modules/tenants/provisioning.worker.ts.
use flexi.Prelude.{
  ℕ, String, ◌==◌, same, Bool, true, false, Option, none, some, List, [], ◌∷◌, if◌then◌else◌, any,
}
use Prim.Native.String.{◌++◌ as append}
use flexi.Exec.{
  Failure, pure, raise, gets, catch_err, manual_cleanup_required, provisioning_timeout, ◌>>=◌, ◌>>◌,
}
use flexi.Onboarding.{
  AttemptStatus, StepName, StepOutcome, CompensationOutcome, TenantOnboardingAttempt, SafePayload,
}
use flexi.Store.{Tenant, World}
use flexi.Store.Rows.{find_first}
use flexi.Store.Platform.{Platform}
use flexi.Store.Tables.{Action, now, draw}
use flexi.Store.Setup.{create_tenant, upsert_onboarding_audit}
use flexi.Provisioning.{
  Signal, no_signal, is_cancelled, find_attempt, status_of, outcomes_of, normalize_step_outcomes,
  succeeded_step, failed_step, tenant_step, throw_if_cancelled, update_attempt_steps,
  update_attempt_step, reset_attempt_status, claim_attempt,
}
use flexi.Provisioning.Identifier.{base36_text, without_dashes, take_text}
use flexi.Provisioning.Payload.{read_safe_payload}
use flexi.Provisioning.Compensation.{is_compensation_failed, run_compensation, mark_tenant_failed}
use flexi.Provisioning.Steps.{
  Collaborators, create_tenant_schema, bootstrap_tenant_schema, bootstrap_tenant_seed,
  assign_first_admin, generate_setup_link, send_backup_email, activation,
}

abbrev pub find_tenant_by_attempt : String → World → Option Tenant
find_tenant_by_attempt id s = find_first (λ t. same t.onboarding_attempt_id id) s.tenants

abbrev pub find_tenant_by_slug : String → World → Option Tenant
find_tenant_by_slug slug s = find_first (λ t. t.slug == slug) s.tenants

-- `isUniqueConstraintViolation`
abbrev pub is_unique_violation : Failure → Bool
is_unique_violation Failure.unique_violation = true
is_unique_violation _ = false

module _ (p : Platform) where
  unfoldable pub create_tenant_id : Action String
  create_tenant_id = do
    t ← now p
    n ← draw p
    pure (append "c" (append (base36_text t) (take_text 12 (without_dashes (p.random_uuid n)))))

  abbrev pub audit_step : ℕ → Option String → StepOutcome
  audit_step t tenant_id = succeeded_step StepName.audit_finalized t tenant_id

  unfoldable pub write_audit :
      Signal
      → String
      → Option String
      → AttemptStatus
      → Option (List CompensationOutcome)
      → Option TenantOnboardingAttempt
      → Action Unit
  write_audit signal attempt_id tenant_id final_status compensation none = pure tt
  write_audit signal attempt_id tenant_id final_status compensation (some a) = do
    upsert_onboarding_audit (record {
      attempt_id = attempt_id;
      tenant_id = tenant_id;
      actor_identity = a.actor_identity;
      request_identity = a.request_identity;
      safe_payload = a.safe_payload;
      step_outcomes = normalize_step_outcomes a.step_outcomes;
      compensation = compensation;
      final_status = final_status;
    })
    t ← now p
    update_attempt_step p signal attempt_id final_status (audit_step t tenant_id)

  unfoldable pub try_audit :
      Signal
      → String
      → Option String
      → AttemptStatus
      → Option (List CompensationOutcome)
      → Action Unit
  try_audit signal attempt_id tenant_id final_status compensation = do
    throw_if_cancelled p signal
    found ← gets (find_attempt attempt_id)
    write_audit signal attempt_id tenant_id final_status compensation found

  unfoldable pub finalize_audit :
      Signal
      → String
      → Option String
      → AttemptStatus
      → Option (List CompensationOutcome)
      → Action Unit
  finalize_audit signal attempt_id tenant_id final_status compensation =
      catch_err (try_audit signal attempt_id tenant_id final_status compensation)
        (λ e. if is_cancelled e then raise e else pure tt)

  unfoldable pub record_tenant_creation_success : String → Tenant → Action Unit
  record_tenant_creation_success attempt_id tenant = do
    t ← now p
    update_attempt_step p no_signal attempt_id AttemptStatus.provisioning
        (tenant_step StepName.tenant_creation t tenant)

  unfoldable pub record_tenant_creation_failure : String → String → String → Action Unit
  record_tenant_creation_failure attempt_id error_code message = do
    t ← now p
    update_attempt_steps p no_signal attempt_id AttemptStatus.failed (
        failed_step StepName.provisioning_start t none error_code message
        ∷ failed_step StepName.tenant_creation t none error_code message
        ∷ [])

  unfoldable pub insert_tenant : String → SafePayload → Action Tenant
  insert_tenant attempt_id payload = do
    id ← create_tenant_id
    create_tenant p.raw_conflict (record {
      id = id;
      name = payload.tenant_name;
      slug = payload.tenant_slug;
      status = "PROVISIONING";
      max_users = none;
      onboarding_attempt_id = some attempt_id;
    })

  unfoldable pub insert_unless : String → SafePayload → Option Tenant → Action Tenant
  insert_unless attempt_id payload (some t) = pure t
  insert_unless attempt_id payload none = insert_tenant attempt_id payload

  unfoldable pub create_or_resolve_tenant : Signal → String → SafePayload → Action Tenant
  create_or_resolve_tenant signal attempt_id payload = do
    throw_if_cancelled p signal
    linked ← gets (find_tenant_by_attempt attempt_id)
    insert_unless attempt_id payload linked

  module _ (c : Collaborators) where
    -- the end of a failed run: the status of the tenant and of the attempt
    unfoldable pub settle_failure : String → String → List CompensationOutcome → Action Unit
    settle_failure attempt_id tenant_id compensation =
        if any is_compensation_failed compensation
        then finalize_audit no_signal attempt_id (some tenant_id)
            AttemptStatus.failed_needs_manual_cleanup (some compensation)
        else (do
          mark_tenant_failed tenant_id
          finalize_audit no_signal attempt_id (some tenant_id) AttemptStatus.failed
              (some compensation))

    unfoldable pub try_failure : String → String → Action Unit
    try_failure attempt_id tenant_id = do
      outcomes ← gets (λ s. outcomes_of (find_attempt attempt_id s))
      compensation ← run_compensation c tenant_id outcomes
      settle_failure attempt_id tenant_id compensation

    unfoldable pub handle_provisioning_failure : String → String → Action Unit
    handle_provisioning_failure attempt_id tenant_id =
        catch_err (try_failure attempt_id tenant_id) (λ e. pure tt)

    module _ (signal : Signal) where
      -- the steps of `provisionTenantSchema`, in order
      unfoldable pub provision_steps : String → String → Action Unit
      provision_steps attempt_id tenant_id = do
        create_tenant_schema p signal attempt_id tenant_id c
        bootstrap_tenant_schema p signal attempt_id tenant_id c
        bootstrap_tenant_seed p signal attempt_id tenant_id c
        assign_first_admin p signal attempt_id tenant_id c
        link ← generate_setup_link p signal attempt_id tenant_id c
        send_backup_email p signal attempt_id tenant_id c link.setup_token
        activation p signal attempt_id tenant_id
        finalize_audit signal attempt_id (some tenant_id) AttemptStatus.succeeded none

      unfoldable pub compensate_unless_cancelled : String → String → Failure → Action Unit
      compensate_unless_cancelled attempt_id tenant_id e =
          if is_cancelled e
          then raise e
          else (do handle_provisioning_failure attempt_id tenant_id; raise e)

      unfoldable pub provision_tenant_schema : String → String → Action Unit
      provision_tenant_schema attempt_id tenant_id =
          catch_err (provision_steps attempt_id tenant_id)
            (compensate_unless_cancelled attempt_id tenant_id)

      -- a tenant is linked to the attempt
      unfoldable pub resume_provisioning : String → Tenant → Action Unit
      resume_provisioning attempt_id tenant = do
        throw_if_cancelled p signal
        record_tenant_creation_success attempt_id tenant
        provision_tenant_schema attempt_id tenant.id

      unfoldable pub resume_from : String → Tenant → Option AttemptStatus → Action Unit
      resume_from attempt_id tenant (some AttemptStatus.succeeded) = pure tt
      resume_from attempt_id tenant (some AttemptStatus.failed_needs_manual_cleanup) =
          raise manual_cleanup_required
      resume_from attempt_id tenant (some AttemptStatus.failed) = do
        reset_attempt_status attempt_id
        resume_provisioning attempt_id tenant
      resume_from attempt_id tenant (some AttemptStatus.accepted) =
          resume_provisioning attempt_id tenant
      resume_from attempt_id tenant (some AttemptStatus.provisioning) =
          resume_provisioning attempt_id tenant
      resume_from attempt_id tenant none = resume_provisioning attempt_id tenant

      -- the first `try` of a fresh attempt
      unfoldable pub create_recorded_tenant : String → SafePayload → Action (Option Tenant)
      create_recorded_tenant attempt_id payload = do
        tenant ← create_or_resolve_tenant signal attempt_id payload
        throw_if_cancelled p signal
        record_tenant_creation_success attempt_id tenant
        pure (some tenant)

      -- the tenant that has the slug, where an insert was refused
      unfoldable pub resolve_conflict : String → Option Tenant → Action Unit
      resolve_conflict attempt_id none =
          record_tenant_creation_failure attempt_id "TENANT_SLUG_CONFLICT"
            "Tenant slug is no longer available."
      resolve_conflict attempt_id (some t) =
          if same t.onboarding_attempt_id attempt_id
          then (do
            record_tenant_creation_success attempt_id t
            provision_tenant_schema attempt_id t.id)
          else record_tenant_creation_failure attempt_id "TENANT_SLUG_CONFLICT"
              "Tenant slug is no longer available."

      unfoldable pub creation_refused : String → SafePayload → Bool → Action Unit
      creation_refused attempt_id payload true = do
        existing ← gets (find_tenant_by_slug payload.tenant_slug)
        resolve_conflict attempt_id existing
      creation_refused attempt_id payload false =
          record_tenant_creation_failure attempt_id "TENANT_CREATION_FAILED"
            "Tenant creation failed before activation."

      -- its `catch`: the lifecycle ends here
      unfoldable pub creation_failed : String → SafePayload → Failure → Action (Option Tenant)
      creation_failed attempt_id payload e =
          if is_cancelled e
          then raise e
          else (do creation_refused attempt_id payload (is_unique_violation e); pure none)

      unfoldable pub provision_created : String → Option Tenant → Action Unit
      provision_created attempt_id none = pure tt
      provision_created attempt_id (some t) = provision_tenant_schema attempt_id t.id

      unfoldable pub provision_payload : String → Option SafePayload → Action Unit
      provision_payload attempt_id none =
          record_tenant_creation_failure attempt_id "INVALID_SAFE_PAYLOAD"
            "Accepted attempt payload was not safe to provision."
      provision_payload attempt_id (some payload) = do
        tenant ←
            catch_err (create_recorded_tenant attempt_id payload)
              (creation_failed attempt_id payload)
        provision_created attempt_id tenant

      unfoldable pub provision_claimed : Option TenantOnboardingAttempt → Action Unit
      provision_claimed none = pure tt
      provision_claimed (some a) = provision_payload a.id (read_safe_payload p a.safe_payload)

      unfoldable pub start_from : String → Option Tenant → Action Unit
      start_from attempt_id (some tenant) = do
        status ← gets (λ s. status_of (find_attempt attempt_id s))
        resume_from attempt_id tenant status
      start_from attempt_id none = do
        attempt ← claim_attempt p attempt_id
        provision_claimed attempt

      unfoldable pub start_lifecycle : String → Action Unit
      start_lifecycle attempt_id = do
        throw_if_cancelled p signal
        linked ← gets (find_tenant_by_attempt attempt_id)
        throw_if_cancelled p signal
        start_from attempt_id linked

    unfoldable pub finish_timeout : String → Option Tenant → Action Unit
    finish_timeout attempt_id none =
        finalize_audit no_signal attempt_id none AttemptStatus.failed none
    finish_timeout attempt_id (some t) = handle_provisioning_failure attempt_id t.id

    unfoldable pub record_provisioning_timeout : String → Action Unit
    record_provisioning_timeout attempt_id = do
      t ← now p
      update_attempt_steps p no_signal attempt_id AttemptStatus.failed (
          failed_step StepName.provisioning_start t none "PROVISIONING_TIMEOUT"
            "Tenant provisioning lifecycle start timed out."
          ∷ [])
      linked ← gets (find_tenant_by_attempt attempt_id)
      finish_timeout attempt_id linked

    -- `process`: where the timer wins the race, the lifecycle has been aborted, and what it still does
    -- up to its next look at the signal comes before the record of the timeout
    unfoldable pub process : Signal → Bool → String → Action Unit
    process signal false attempt_id = start_lifecycle signal attempt_id
    process signal true attempt_id = do
      catch_err (start_lifecycle signal attempt_id) (λ e. pure tt)
      record_provisioning_timeout attempt_id
      raise provisioning_timeout
