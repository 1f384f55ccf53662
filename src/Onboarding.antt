-- ===== src/Onboarding.antt =====
-- The onboarding of a tenant, as packages/shared-types/src/entities.ts and prisma/schema.prisma give its
-- records: attempts, the outcomes of their steps, compensations, setup tokens.
use flexi.Prelude.{ℕ, String, Bool, Option, List}

pub data AttemptStatus : Type 0 where
  accepted provisioning failed succeeded failed_needs_manual_cleanup : AttemptStatus

pub data StepName : Type 0 where
  permission_check payload_validation slug_availability attempt_reservation : StepName
  provisioning_start tenant_creation schema_created bootstrap_migrated : StepName
  bootstrap_seeded first_admin_assigned setup_link_generated setup_email_sent : StepName
  activation audit_finalized : StepName

pub data StepStatus : Type 0 where
  running succeeded failed : StepStatus

pub record StepOutcome : Type 0 where
  pub step : StepName
  pub status : StepStatus
  pub occurred_at : ℕ
  pub tenant_id : Option String
  pub tenant_slug : Option String
  pub tenant_status : Option String
  pub error_code : Option String
  pub message : Option String

pub data CompensationAction : Type 0 where
  revoke_setup_tokens deactivate_first_admin drop_tenant_schema : CompensationAction

pub data CompensationStatus : Type 0 where
  succeeded failed skipped : CompensationStatus

pub record CompensationOutcome : Type 0 where
  pub step : StepName
  pub action : CompensationAction
  pub status : CompensationStatus
  pub detail : Option String

-- The JSON of the column `safePayload`: a key with another value than a text is `none`.
pub record PayloadJson : Type 0 where
  pub tenant_name : Option String
  pub tenant_slug : Option String
  pub first_admin_email : Option String
  pub plan : Option String

pub record SafePayload : Type 0 where
  pub tenant_name : String
  pub tenant_slug : String
  pub first_admin_email : String
  pub plan : String

pub record TenantOnboardingAttempt : Type 0 where
  pub id : String
  pub status : AttemptStatus
  pub provisioning_job_id : Option String
  -- `none` where the JSON is no object
  pub safe_payload : Option PayloadJson
  pub actor_identity : String
  pub request_identity : String
  pub idempotency_key : String
  -- `none` where the JSON is no array, an item `none` where it is no outcome
  pub step_outcomes : Option (List (Option StepOutcome))

pub record TenantOnboardingAuditLog : Type 0 where
  pub attempt_id : String
  pub tenant_id : Option String
  pub actor_identity : String
  pub request_identity : String
  pub safe_payload : Option PayloadJson
  pub step_outcomes : List StepOutcome
  pub compensation : Option (List CompensationOutcome)
  pub final_status : AttemptStatus

pub record SetupToken : Type 0 where
  pub id : String
  pub tenant_id : String
  pub token_hash : String
  pub expires_at : ℕ
  pub revoked_at : Option ℕ
  pub used_at : Option ℕ

pub record Permission : Type 0 where
  pub code : String
  -- `scope = 'TENANT'`
  pub is_tenant_scope : Bool
