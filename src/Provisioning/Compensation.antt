-- ===== src/Provisioning/Compensation.antt =====
-- modules/tenants/provisioning.service.ts: what a failed run removes again.
pub mod Outcome
pub mod Settled
use flexi.Prelude.{
  ℕ, ◌+◌, ◌/◌, ◌%◌, zero, suc, String, ◌==◌, same, Bool, true, false, not, ◌&&◌, ◌||◌, Option, none,
  some, List, [], ◌∷◌, ◌++◌, or_default, if◌then◌else◌, eqb, ltb, any,
}
use Prim.Native.String.{◌++◌ as append}
use Prim.Native.Char.{code}
use flexi.Exec.{
  Failure, Result, ok, err, pure, raise, gets, refuse_if, catch_err, manual_cleanup_required,
  provisioning_timeout, unique_violation, ◌>>=◌, ◌>>◌,
}
use flexi.Onboarding.{
  AttemptStatus, StepName, StepStatus, StepOutcome, CompensationAction, CompensationStatus,
  CompensationOutcome, TenantOnboardingAttempt, SafePayload,
}
use flexi.Store.{Tenant, World}
use flexi.Store.Rows.{find_first}
use flexi.Store.Platform.{Platform}
use flexi.Store.Tables.{Action, now, draw}
use flexi.Store.Setup.{create_tenant, update_tenant, upsert_onboarding_audit}
use flexi.Tenancy.{resolve_tenant_schema}
use flexi.Auth.Service.{lift_option}
use flexi.Provisioning.{
  Signal, no_signal, is_cancelled, is_failed, same_step, find_attempt, status_of, outcomes_of,
  normalize_step_outcomes, succeeded_step, failed_step, tenant_step, throw_if_cancelled,
  update_attempt_steps, update_attempt_step, reset_attempt_status, claim_attempt,
}
use flexi.Provisioning.Payload.{read_safe_payload}
use flexi.Provisioning.FirstAdmin.{FirstAdminDeactivationIds}
use flexi.Provisioning.Steps.{
  Collaborators, schema_context, run_with, lift_result, in_schema, set_tenant_status,
  create_tenant_schema, bootstrap_tenant_schema, bootstrap_tenant_seed, assign_first_admin,
  generate_setup_link, send_backup_email, activation,
}

-- `succeeded(step)`
abbrev pub is_succeeded : StepStatus → Bool
is_succeeded StepStatus.succeeded = true
is_succeeded _ = false

abbrev pub has_succeeded : StepName → List StepOutcome → Bool
has_succeeded step outcomes = any (λ o. same_step o.step step && is_succeeded o.status) outcomes

abbrev pub is_failure : CompensationStatus → Bool
is_failure CompensationStatus.failed = true
is_failure _ = false

abbrev pub is_compensation_failed : CompensationOutcome → Bool
is_compensation_failed o = is_failure o.status

abbrev pub action_text : CompensationAction → String
action_text CompensationAction.revoke_setup_tokens = "revoke_setup_tokens"
action_text CompensationAction.deactivate_first_admin = "deactivate_first_admin"
action_text CompensationAction.drop_tenant_schema = "drop_tenant_schema"

-- `${action} failed and requires manual cleanup. Known identifiers: ${identifiers}.`
abbrev pub failure_detail : CompensationAction → String → String
failure_detail action identifiers =
    append (action_text action)
      (append " failed and requires manual cleanup. Known identifiers: " (append identifiers "."))

-- `parts.push(...)` of a known id
abbrev pub id_part : String → Option String → List String
id_part name none = []
id_part name (some id) = if id == "" then [] else append name (append "=" id) ∷ []

-- `parts.join(', ')`
abbrev pub join_parts : List String → String
join_parts [] = ""
join_parts (s ∷ []) = s
join_parts (s ∷ t ∷ ts) = append s (append ", " (join_parts (t ∷ ts)))

unfoldable pub describe_first_admin_ids : String → FirstAdminDeactivationIds → String
describe_first_admin_ids tenant_id ids = join_parts (
    append "tenantId=" tenant_id ∷ id_part "tenantUserId" ids.tenant_user_id
    ++ id_part "authAccountId" ids.auth_account_id
    ++ id_part "roleId" ids.role_id)

abbrev pub no_ids : FirstAdminDeactivationIds
no_ids = record { tenant_user_id = none; auth_account_id = none; role_id = none }

-- `runCompensationSubStep`; a `run` that raised has assigned nothing that `describeIdentifiers` reads
unfoldable pub run_compensation_sub_step :
    {A : Type 0} → StepName → CompensationAction → Action A → String → Action CompensationOutcome
run_compensation_sub_step step action run identifiers =
    catch_err
      (run >>= λ _. pure (record {
        step = step;
        action = action;
        status = CompensationStatus.succeeded;
        detail = none;
      }))
      (λ e. pure (record {
        step = step;
        action = action;
        status = CompensationStatus.failed;
        detail = some (failure_detail action identifiers);
      }))

abbrev pub skipped_drop : CompensationOutcome
skipped_drop = record {
  step = StepName.schema_created;
  action = CompensationAction.drop_tenant_schema;
  status = CompensationStatus.skipped;
  detail = some "schema_created never succeeded for this attempt.";
}

module _ (c : Collaborators) where
  -- the name of the schema is resolved before, and outside of, the sub-step
  unfoldable pub compensate_schema : String → Bool → Action CompensationOutcome
  compensate_schema tenant_id false = pure skipped_drop
  compensate_schema tenant_id true = do
    schema ← lift_result (resolve_tenant_schema tenant_id)
    run_compensation_sub_step StepName.schema_created CompensationAction.drop_tenant_schema
        (run_with (schema_context tenant_id schema) (c.drop_schema schema))
        (append "tenantId=" (append tenant_id (append ", schema=" schema)))

  unfoldable pub run_compensation : String → List StepOutcome → Action (List CompensationOutcome)
  run_compensation tenant_id outcomes = do
    links ←
        run_compensation_sub_step StepName.setup_link_generated
          CompensationAction.revoke_setup_tokens (c.revoke_all tenant_id)
          (append "tenantId=" tenant_id)
    admin ←
        run_compensation_sub_step StepName.first_admin_assigned
          CompensationAction.deactivate_first_admin (c.deactivate tenant_id)
          (describe_first_admin_ids tenant_id no_ids)
    schema ← compensate_schema tenant_id (has_succeeded StepName.schema_created outcomes)
    pure (links ∷ admin ∷ schema ∷ [])

-- `markTenantFailed`: a missing tenant is no failure
unfoldable pub mark_tenant_failed : String → Action Unit
mark_tenant_failed tenant_id =
    catch_err (update_tenant tenant_id (set_tenant_status "FAILED")) (λ e. pure tt)
