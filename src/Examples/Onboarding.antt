-- ===== src/Examples/Onboarding.antt =====
-- Runs of the onboarding of a tenant.
use flexi.Prelude.{
  ◌≡◌, ◌⊎◌, refl, true, false, Option, none, some, [], ◌∷◌, String, Bool, List, map, ◌==◌,
}
use Prim.Native.String.{◌++◌ as append}
use flexi.Exec.{
  Failure, ok, err, pure, raise, plain_error, catch_err, provisioning_cancelled, ◌>>=◌,
}
use flexi.Onboarding.{
  AttemptStatus, StepName, StepOutcome, TenantOnboardingAttempt, CompensationAction,
  CompensationStatus, CompensationOutcome,
}
use flexi.Store.{Tenant, World}
use flexi.Store.Rows.{find_first, count, update_many}
use flexi.Store.Tables.{transaction, now, draw, send_mail, update_tenant_user}
use flexi.Store.Setup.{
  update_tenants, update_onboarding_attempts, upsert_onboarding_audit, update_setup_tokens,
  create_setup_token, create_auth_account, create_tenant_user, create_role, update_role,
}
use flexi.Tenancy.{resolve_tenant_schema, check_name, matches_pattern, is_head, is_tail}
use flexi.Auth.Duration.{is_space}
use flexi.Auth.Email.{trim_text, trim_text_start, trim_text_end, push_kept, normalize_email}
use flexi.Provisioning.{
  no_signal, find_attempt, step_number, upsert_step_outcome, throw_if_cancelled, write_steps,
  update_attempt_steps, status_of, succeeded_step,
}
use flexi.Provisioning.Payload.{
  read_safe_payload, validate_tenant_onboarding_input, is_tenant_slug_format_valid, matches_email,
  split_at,
}
use flexi.Provisioning.FirstAdmin.{
  create_first_admin_auth_account, create_first_admin_user, resolve_first_admin, upsert_admin_role,
  grant_tenant_scope_permissions, connect_found, connect_role, assign,
}
use flexi.Provisioning.SetupLink.{generate}
use flexi.Provisioning.Steps.{
  Collaborators, run_with, in_schema, record_success, try_step, blocking_step, assign_from_payload,
  record_delivery, deliver_setup_email, send_backup_email, activate_tenant, finish_activation,
  try_activation, activation,
}
use flexi.Provisioning.Compensation.{has_succeeded, failure_detail, run_compensation}
use flexi.Provisioning.Compensation.Outcome.{
  verdicts, after_schema, after_links, after_admin, schema_to_drop, run_compensation_lem,
  run_compensation-lost_ids,
}
use flexi.Provisioning.Compensation.Settled.{
  created as has_created, compensation_fails, end_status, end_tenants,
  handle_provisioning_failure_lem,
}
use flexi.Provisioning.Kept.{services, services-Respects, Respects, Same-pure}
use flexi.Provisioning.Lifecycle.{
  write_audit, try_audit, finalize_audit, provision_steps, provision_tenant_schema,
  find_tenant_by_attempt, handle_provisioning_failure, start_lifecycle, record_provisioning_timeout,
}
use flexi.Provisioning.Activated.Run.{Provisioned, provision_tenant_schema-Provisioned}
use flexi.Provisioning.Failed.Runs.{ProvisioningJob, run_jobs, run_jobs-stays_failed}
use flexi.Provisioning.Fence.{start_lifecycle-ended}
use flexi.Provisioning.Fence.Timeout.{
  record_provisioning_timeout-ends, record_provisioning_timeout-activation,
}
use flexi.Examples.{platform, world}

-- The repository's services over statements on a schema that succeed.
abbrev collaborators : Collaborators
collaborators = services platform (λ schema. pure tt) (λ schema. pure tt) (pure tt) (pure tt)

respects : Respects collaborators
respects =
    services-Respects platform (λ schema. pure tt) (λ schema. pure tt) (pure tt) (pure tt)
      (λ schema. Same-pure tt) (λ schema. Same-pure tt) (Same-pure tt) (Same-pure tt)

abbrev attempt : AttemptStatus → TenantOnboardingAttempt
attempt status = record {
  id = "a1";
  status = status;
  provisioning_job_id = some "tenant-provisioning-a1";
  safe_payload = some (record {
    tenant_name = some " Birch ";
    tenant_slug = some "birch";
    first_admin_email = some "dora@birch.test";
    plan = some "starter";
  });
  actor_identity = "op";
  request_identity = "req-1";
  idempotency_key = "onboard-birch";
  step_outcomes = some [];
}

abbrev birch : String → Tenant
birch status = record {
  id = "b1";
  name = "Birch";
  slug = "birch";
  status = status;
  max_users = none;
  onboarding_attempt_id = some "a1";
}

-- The tenant and its attempt, in these states.
abbrev onboarding : String → AttemptStatus → World
onboarding tenant_status status = record world {
  db = record world.db {
    tenants = birch tenant_status ∷ world.tenants;
    onboarding_attempts = attempt status ∷ [];
  };
}

abbrev fresh : World
fresh = onboarding "PROVISIONING" AttemptStatus.provisioning

provisions : (provision_tenant_schema platform collaborators no_signal "a1" "b1" fresh).0 ≡ ok tt
unfolding provision_tenant_schema provision_steps catch_err ◌>>=◌ blocking_step try_step
    record_success in_schema run_with resolve_tenant_schema check_name matches_pattern is_head
    is_tail throw_if_cancelled now draw update_attempt_steps write_steps transaction
    update_onboarding_attempts find_first count update_many upsert_step_outcome step_number
    assign_from_payload read_safe_payload validate_tenant_onboarding_input
    is_tenant_slug_format_valid matches_email split_at trim_text trim_text_start trim_text_end
    push_kept is_space normalize_email assign create_first_admin_auth_account
    create_first_admin_user resolve_first_admin upsert_admin_role grant_tenant_scope_permissions
    connect_found connect_role create_auth_account create_tenant_user create_role update_role
    update_tenant_user generate update_setup_tokens create_setup_token send_backup_email
    deliver_setup_email record_delivery send_mail activation try_activation activate_tenant
    finish_activation update_tenants finalize_audit try_audit write_audit upsert_onboarding_audit
provisions = refl

provision_tenant_schema-Provisioned_example :
    Provisioned "a1" "b1"
      (provision_tenant_schema platform collaborators no_signal "a1" "b1" fresh).1
provision_tenant_schema-Provisioned_example =
    provision_tenant_schema-Provisioned platform collaborators respects no_signal "a1" "b1" fresh
      provisions

abbrev failed_world : World
failed_world = onboarding "FAILED" AttemptStatus.failed

-- Two retries of the attempt, and one that runs into its timeout.
abbrev retries : List ProvisioningJob
retries =
    record { signal = no_signal; timed_out = false; attempt_id = "a1" }
    ∷ record { signal = no_signal; timed_out = true; attempt_id = "a1" }
    ∷ record { signal = no_signal; timed_out = false; attempt_id = "a1" }
    ∷ []

birch_there : find_first (λ x. x.id == "b1") failed_world.tenants ≡ some (birch "FAILED")
unfolding find_first
birch_there = refl

run_jobs-stays_failed_example :
    (t' : Tenant) × (find_first
        (λ x. x.id == "b1")
        (run_jobs platform collaborators retries failed_world).tenants
      ≡ some t')
    × (t'.status ≡ "FAILED")
    × (t'.slug ≡ "birch")
    × (t'.onboarding_attempt_id ≡ some "a1")
run_jobs-stays_failed_example =
    run_jobs-stays_failed platform collaborators respects retries failed_world "b1" (birch "FAILED")
      birch_there refl

attempt_there : find_attempt "a1" fresh ≡ some (attempt AttemptStatus.provisioning)
unfolding find_first
attempt_there = refl

handle_provisioning_failure_example :
    let planned = schema_to_drop "b1" (has_created (attempt AttemptStatus.provisioning)) in
    let end = handle_provisioning_failure platform collaborators "a1" "b1" fresh in
    (end.0 ≡ ok tt)
    × (((dropped : Option String) × (planned ≡ ok dropped)
          × ((a' : TenantOnboardingAttempt) × (find_attempt "a1" end.1 ≡ some a')
              × (a'.status ≡ end_status (compensation_fails collaborators "b1" dropped fresh)))
          × (end.1.tenants
              ≡ end_tenants "b1"
                  (compensation_fails collaborators "b1" dropped fresh)
                  fresh.tenants))
        ⊎ ((f : Failure) × (planned ≡ err f)
            × (find_attempt "a1" end.1 ≡ some (attempt AttemptStatus.provisioning))
            × (end.1.tenants ≡ fresh.tenants)))
handle_provisioning_failure_example =
    handle_provisioning_failure_lem platform collaborators "a1" "b1" respects fresh
      (attempt AttemptStatus.provisioning) attempt_there

abbrev created : List StepOutcome
created = succeeded_step StepName.schema_created 1000 (some "b1") ∷ []

run_compensation_example :
    let planned = schema_to_drop "b1" (has_succeeded StepName.schema_created created) in
    let end = run_compensation collaborators "b1" created fresh in
    ((dropped : Option String) × (planned ≡ ok dropped)
      × ((os : List CompensationOutcome) × (end.0 ≡ ok os)
          × (map (λ o. o.status) os ≡ verdicts collaborators "b1" dropped fresh)
          × (end.1 ≡ after_schema collaborators "b1" dropped fresh)))
    ⊎ ((f : Failure) × (planned ≡ err f) × (end ≡ (err f, after_admin collaborators "b1" fresh)))
run_compensation_example = run_compensation_lem collaborators "b1" created fresh

drops : schema_to_drop "b1" (has_succeeded StepName.schema_created created) ≡ ok (some "tenant_b1")
unfolding step_number resolve_tenant_schema check_name matches_pattern is_head is_tail
drops = refl

-- An id that names no schema: compensation raises, and the handler leaves the attempt as it was.
unnamed : schema_to_drop "b-1" (has_succeeded StepName.schema_created created) ≡ err plain_error
unfolding step_number resolve_tenant_schema check_name matches_pattern is_head is_tail
unnamed = refl

-- The removal of the first administrator fails.
abbrev stuck : Collaborators
stuck = record collaborators { deactivate = λ tenant_id. raise plain_error }

cannot_deactivate : (stuck.deactivate "b1" (after_links stuck "b1" fresh)).0 ≡ err plain_error
unfolding ◌>>=◌
cannot_deactivate = refl

run_compensation-lost_ids_example :
    (links schema : CompensationOutcome) × ((run_compensation stuck "b1" created fresh).0
      ≡ ok (
          links
          ∷ record {
            step = StepName.first_admin_assigned;
            action = CompensationAction.deactivate_first_admin;
            status = CompensationStatus.failed;
            detail = some (
                failure_detail CompensationAction.deactivate_first_admin (append "tenantId=" "b1"));
          }
          ∷ schema
          ∷ []))
run_compensation-lost_ids_example =
    run_compensation-lost_ids stuck "b1" created (some "tenant_b1") fresh plain_error drops
      cannot_deactivate

abbrev done_world : World
done_world = onboarding "ACTIVE" AttemptStatus.succeeded

linked : find_tenant_by_attempt "a1" done_world ≡ some (birch "ACTIVE")
unfolding find_first
linked = refl

has_succeeded_status : status_of (find_attempt "a1" done_world) ≡ some AttemptStatus.succeeded
unfolding find_first
has_succeeded_status = refl

start_lifecycle-ended_example :
    ((start_lifecycle platform collaborators no_signal "a1" done_world).1.db ≡ done_world.db)
    × (((start_lifecycle platform collaborators no_signal "a1" done_world).0 ≡ ok tt)
        ⊎ ((start_lifecycle platform collaborators no_signal "a1" done_world).0
            ≡ err provisioning_cancelled))
start_lifecycle-ended_example =
    start_lifecycle-ended platform collaborators no_signal "a1" done_world (birch "ACTIVE")
      AttemptStatus.succeeded (ok tt) linked has_succeeded_status refl

record_provisioning_timeout-ends_example :
    ((record_provisioning_timeout platform collaborators "a1" fresh).0 ≡ ok tt)
    × ((b : TenantOnboardingAttempt) × (find_attempt "a1"
            (record_provisioning_timeout platform collaborators "a1" fresh).1
          ≡ some b)
        × ((fails : Bool) × (b.status ≡ end_status fails)))
record_provisioning_timeout-ends_example =
    record_provisioning_timeout-ends platform collaborators "a1" respects fresh
      (attempt AttemptStatus.provisioning) attempt_there

record_provisioning_timeout-activation_example :
    let s' = (record_provisioning_timeout platform collaborators "a1" fresh).1 in
    ((activation platform no_signal "a1" "b1" s').1.tenants ≡ s'.tenants)
    × ((e : Failure) × ((activation platform no_signal "a1" "b1" s').0 ≡ err e))
record_provisioning_timeout-activation_example =
    record_provisioning_timeout-activation platform collaborators "a1" respects no_signal "b1" fresh
      (attempt AttemptStatus.provisioning) attempt_there
