-- ===== src/Provisioning/Failed/Parts.antt =====
-- Tenants that have failed, under compensation, the audit row, the creation of a tenant and a run.
use flexi.Prelude.{String, Bool, true, false, Option, none, some, List}
use flexi.Exec.Evolves.{Evolves}
use flexi.Onboarding.{
  AttemptStatus, StepName, StepOutcome, TenantOnboardingAttempt, SafePayload, CompensationOutcome,
  CompensationAction,
}
use flexi.Store.{Tenant}
use flexi.Store.Platform.{Platform}
use flexi.Store.Tables.{Action}
use flexi.Provisioning.{Signal}
use flexi.Provisioning.Steps.{Collaborators}
use flexi.Provisioning.Compensation.{run_compensation_sub_step, compensate_schema, run_compensation}
use flexi.Provisioning.Lifecycle.{
  create_tenant_id, write_audit, try_audit, finalize_audit, record_tenant_creation_success,
  record_tenant_creation_failure, insert_tenant, insert_unless, create_or_resolve_tenant,
  settle_failure, try_failure, handle_provisioning_failure, provision_steps,
  compensate_unless_cancelled, provision_tenant_schema,
}
use flexi.Provisioning.Kept.{Respects}
use flexi.Provisioning.Failed.{KeepsFailed, kept_rules}
use flexi.Provisioning.Failed.Steps.{
  step_rules, Kept-mark_tenant_failed, Kept-activation, Kept-assign_from_payload,
  Kept-send_backup_email,
}

Kept-sub_step :
    {A : Type 0} (step : StepName) (action : CompensationAction) (run : Action A) (ids : String)
    → Evolves KeepsFailed run
    → Evolves KeepsFailed (run_compensation_sub_step step action run ids)
unfolding run_compensation_sub_step
Kept-sub_step step action run ids h = search kept_rules

module _ (c : Collaborators) (respects : Respects c) where
  Kept-compensate_schema :
      (tenant_id : String) (created : Bool)
      → Evolves KeepsFailed (compensate_schema c tenant_id created)
  unfolding compensate_schema
  Kept-compensate_schema tenant_id true = search (step_rules, Kept-sub_step)
  Kept-compensate_schema tenant_id false = search step_rules

  Kept-run_compensation :
      (tenant_id : String) (outcomes : List StepOutcome)
      → Evolves KeepsFailed (run_compensation c tenant_id outcomes)
  unfolding run_compensation
  Kept-run_compensation tenant_id outcomes =
      search (step_rules, Kept-sub_step, Kept-compensate_schema) depth 20

module _ (p : Platform) (signal : Signal) (attempt_id : String) where
  Kept-write_audit :
      (tenant_id : Option String) (status : AttemptStatus)
      (compensation : Option (List CompensationOutcome)) (a : Option TenantOnboardingAttempt)
      → Evolves KeepsFailed (write_audit p signal attempt_id tenant_id status compensation a)
  unfolding write_audit
  Kept-write_audit tenant_id status compensation none = search step_rules
  Kept-write_audit tenant_id status compensation (some a) = search step_rules depth 20

  pub Kept-finalize_audit :
      (tenant_id : Option String) (status : AttemptStatus)
      (compensation : Option (List CompensationOutcome))
      → Evolves KeepsFailed (finalize_audit p signal attempt_id tenant_id status compensation)
  unfolding finalize_audit try_audit
  Kept-finalize_audit tenant_id status compensation = search (step_rules, Kept-write_audit) depth 20

module _ (p : Platform) (attempt_id : String) where
  pub Kept-creation_success :
      (tenant : Tenant) → Evolves KeepsFailed (record_tenant_creation_success p attempt_id tenant)
  unfolding record_tenant_creation_success
  Kept-creation_success tenant = search step_rules

  pub Kept-creation_failure :
      (error_code message : String)
      → Evolves KeepsFailed (record_tenant_creation_failure p attempt_id error_code message)
  unfolding record_tenant_creation_failure
  Kept-creation_failure error_code message = search step_rules

  Kept-insert_unless :
      (payload : SafePayload) (t : Option Tenant)
      → Evolves KeepsFailed (insert_unless p attempt_id payload t)
  unfolding insert_unless insert_tenant create_tenant_id
  Kept-insert_unless payload none = search step_rules depth 20
  Kept-insert_unless payload (some t) = search step_rules

  pub Kept-create_or_resolve :
      (signal : Signal) (payload : SafePayload)
      → Evolves KeepsFailed (create_or_resolve_tenant p signal attempt_id payload)
  unfolding create_or_resolve_tenant
  Kept-create_or_resolve signal payload = search (step_rules, Kept-insert_unless)

module _ (p : Platform) (c : Collaborators) (respects : Respects c)
    (attempt_id tenant_id : String) where
  Kept-settle_failure :
      (compensation : List CompensationOutcome)
      → Evolves KeepsFailed (settle_failure p c attempt_id tenant_id compensation)
  unfolding settle_failure
  Kept-settle_failure compensation =
      search (step_rules, Kept-finalize_audit, Kept-mark_tenant_failed)

  pub Kept-handle_failure :
      Evolves KeepsFailed (handle_provisioning_failure p c attempt_id tenant_id)
  unfolding handle_provisioning_failure try_failure
  Kept-handle_failure = search (step_rules, Kept-run_compensation, Kept-settle_failure) depth 20

  Kept-provision_steps :
      (signal : Signal) → Evolves KeepsFailed (provision_steps p c signal attempt_id tenant_id)
  unfolding provision_steps
  Kept-provision_steps signal =
      search
        (
          step_rules, Kept-assign_from_payload, Kept-send_backup_email, Kept-activation,
          Kept-finalize_audit,
        )
        depth 40

  pub Kept-provision :
      (signal : Signal)
      → Evolves KeepsFailed (provision_tenant_schema p c signal attempt_id tenant_id)
  unfolding provision_tenant_schema compensate_unless_cancelled
  Kept-provision signal = search (step_rules, Kept-provision_steps, Kept-handle_failure) depth 20
