-- ===== src/Provisioning.antt =====
-- modules/tenants/provisioning.service.ts: the attempts and the outcomes of their steps. The children
-- have the steps, the compensation, the lifecycle and the services that a step calls.
pub mod Payload
pub mod Identifier
pub mod FirstAdmin
pub mod SetupLink
pub mod Steps
pub mod Compensation
pub mod Lifecycle
pub mod Kept
pub mod Intake
pub mod Failed
pub mod Recorded
pub mod Audited
pub mod Activated
pub mod Fence
use flexi.Prelude.{
  ℕ, String, ◌==◌, Bool, true, false, not, ◌&&◌, Option, none, some, List, [], ◌∷◌, ◌++◌, map,
  if◌then◌else◌, eqb,
}
use Prim.Native.String.{◌++◌ as append}
use flexi.Exec.{Failure, pure, gets, refuse_if, provisioning_cancelled, ◌>>=◌, ◌>>◌}
use flexi.Onboarding.{AttemptStatus, StepName, StepStatus, StepOutcome, TenantOnboardingAttempt}
use flexi.Store.{Tenant, World}
use flexi.Store.Rows.{find_first}
use flexi.Store.Platform.{Platform}
use flexi.Store.Tables.{Action, transaction, now}
use flexi.Store.Setup.{update_onboarding_attempts}

-- An `AbortSignal`: whether it is raised at the n-th reading of the clock or of itself.
abbrev pub Signal : Type 0
Signal = ℕ → Bool

-- a call without a signal
abbrev pub no_signal : Signal
no_signal n = false

-- `===` on the names of steps
unfoldable pub step_number : StepName → ℕ
step_number StepName.permission_check = 0
step_number StepName.payload_validation = 1
step_number StepName.slug_availability = 2
step_number StepName.attempt_reservation = 3
step_number StepName.provisioning_start = 4
step_number StepName.tenant_creation = 5
step_number StepName.schema_created = 6
step_number StepName.bootstrap_migrated = 7
step_number StepName.bootstrap_seeded = 8
step_number StepName.first_admin_assigned = 9
step_number StepName.setup_link_generated = 10
step_number StepName.setup_email_sent = 11
step_number StepName.activation = 12
step_number StepName.audit_finalized = 13

abbrev pub same_step : StepName → StepName → Bool
same_step a b = eqb (step_number a) (step_number b)

abbrev pub is_accepted : AttemptStatus → Bool
is_accepted AttemptStatus.accepted = true
is_accepted _ = false

abbrev pub is_provisioning : AttemptStatus → Bool
is_provisioning AttemptStatus.provisioning = true
is_provisioning _ = false

abbrev pub is_failed : AttemptStatus → Bool
is_failed AttemptStatus.failed = true
is_failed _ = false

abbrev pub is_terminal : AttemptStatus → Bool
is_terminal AttemptStatus.accepted = false
is_terminal AttemptStatus.provisioning = false
is_terminal _ = true

abbrev pub is_cancelled : Failure → Bool
is_cancelled Failure.provisioning_cancelled = true
is_cancelled _ = false

abbrev pub keep_outcomes : List (Option StepOutcome) → List StepOutcome
keep_outcomes [] = []
keep_outcomes (none ∷ xs) = keep_outcomes xs
keep_outcomes (some o ∷ xs) = o ∷ keep_outcomes xs

abbrev pub normalize_step_outcomes : Option (List (Option StepOutcome)) → List StepOutcome
normalize_step_outcomes none = []
normalize_step_outcomes (some xs) = keep_outcomes xs

-- of a normalised list: the first outcome of the step is replaced, or the new one comes last
unfoldable pub upsert_step_outcome : List StepOutcome → StepOutcome → List StepOutcome
upsert_step_outcome [] o = o ∷ []
upsert_step_outcome (x ∷ xs) o =
    let rest = upsert_step_outcome xs o in if same_step x.step o.step then o ∷ xs else x ∷ rest

abbrev pub upsert_all : List StepOutcome → List StepOutcome → List StepOutcome
upsert_all current [] = current
upsert_all current (o ∷ os) = upsert_all (upsert_step_outcome current o) os

abbrev pub find_attempt : String → World → Option TenantOnboardingAttempt
find_attempt id s = find_first (λ a. a.id == id) s.onboarding_attempts

-- `readAttemptStatus`
abbrev pub status_of : Option TenantOnboardingAttempt → Option AttemptStatus
status_of none = none
status_of (some a) = some a.status

-- `readAttemptStepOutcomes`
abbrev pub outcomes_of : Option TenantOnboardingAttempt → List StepOutcome
outcomes_of none = []
outcomes_of (some a) = normalize_step_outcomes a.step_outcomes

abbrev pub with_outcomes :
    AttemptStatus → List StepOutcome → TenantOnboardingAttempt → TenantOnboardingAttempt
with_outcomes status outcomes a = record a {
  status = status;
  step_outcomes = some (map some outcomes);
}

abbrev pub with_status : AttemptStatus → TenantOnboardingAttempt → TenantOnboardingAttempt
with_status status a = record a { status = status }

abbrev pub job_id_for_attempt : String → String
job_id_for_attempt id = append "tenant-provisioning-" id

abbrev pub succeeded_step : StepName → ℕ → Option String → StepOutcome
succeeded_step step t tenant_id = record {
  step = step;
  status = StepStatus.succeeded;
  occurred_at = t;
  tenant_id = tenant_id;
  tenant_slug = none;
  tenant_status = none;
  error_code = none;
  message = none;
}

abbrev pub tenant_step : StepName → ℕ → Tenant → StepOutcome
tenant_step step t tenant = record (succeeded_step step t (some tenant.id)) {
  tenant_slug = some tenant.slug;
  tenant_status = some tenant.status;
}

abbrev pub failed_step : StepName → ℕ → Option String → String → String → StepOutcome
failed_step step t tenant_id code message = record (succeeded_step step t tenant_id) {
  status = StepStatus.failed;
  error_code = some code;
  message = some message;
}

-- The attempt with the job's id, or with none, is linked to the job.
abbrev pub is_linkable : String → TenantOnboardingAttempt → Bool
is_linkable id a =
    a.id == id && (elim a.provisioning_job_id [ none ↦ true | some j ↦ j == job_id_for_attempt id ])

-- `COALESCE("provisioningJobId", job)`
abbrev pub or_job : String → Option String → Option String
or_job job none = some job
or_job job (some j) = some j

-- `enqueueAcceptedAttempt`; the queue is a parameter: whether it takes the job
unfoldable pub enqueue_accepted_attempt : (String → Bool) → String → Action Unit
enqueue_accepted_attempt add_job id = do
  linked ←
      update_onboarding_attempts (is_linkable id)
        (λ a. record a { provisioning_job_id = some (job_id_for_attempt id) })
  refuse_if (eqb linked 0) Failure.provisioning_enqueue_failed
  refuse_if (not (add_job (job_id_for_attempt id))) Failure.provisioning_enqueue_failed

-- `resetAttemptStatusToProvisioning`
unfoldable pub reset_attempt_status : String → Action ℕ
reset_attempt_status id =
    update_onboarding_attempts (λ a. a.id == id && is_failed a.status)
      (with_status AttemptStatus.provisioning)

module _ (p : Platform) (signal : Signal) where
  -- a reading of the signal is an instant like a reading of the clock
  unfoldable pub throw_if_cancelled : Action Unit
  throw_if_cancelled = do
    t ← gets (λ s. s.ticks)
    now p
    refuse_if (signal t) provisioning_cancelled

  -- the write, behind the guard on terminal attempts
  unfoldable pub write_steps :
      AttemptStatus → List StepOutcome → Option TenantOnboardingAttempt → Action Unit
  write_steps status outcomes none = pure tt
  write_steps status outcomes (some a) =
      if is_terminal a.status && not (is_terminal status) then pure tt else (do
        throw_if_cancelled
        update_onboarding_attempts (λ b. b.id == a.id)
            (with_outcomes status (upsert_all (normalize_step_outcomes a.step_outcomes) outcomes))
        pure tt)

  unfoldable pub update_attempt_steps : String → AttemptStatus → List StepOutcome → Action Unit
  update_attempt_steps id status outcomes = do
    throw_if_cancelled
    transaction
        (do throw_if_cancelled; found ← gets (find_attempt id); write_steps status outcomes found)

  abbrev pub update_attempt_step : String → AttemptStatus → StepOutcome → Action Unit
  update_attempt_step id status outcome = update_attempt_steps id status (outcome ∷ [])

module _ (p : Platform) where
  abbrev running_start : ℕ → StepOutcome
  running_start t = record (succeeded_step StepName.provisioning_start t none) {
    status = StepStatus.running;
  }

  unfoldable pub claim_found :
      String → Option TenantOnboardingAttempt → Action (Option TenantOnboardingAttempt)
  claim_found id none = pure none
  claim_found id (some a) = do
    t ← now p
    update_onboarding_attempts (λ b. b.id == id)
        (λ b.
          record (with_outcomes AttemptStatus.provisioning
            (upsert_step_outcome (normalize_step_outcomes a.step_outcomes) (running_start t)) b) {
              provisioning_job_id = or_job (job_id_for_attempt id) b.provisioning_job_id;
            })
    gets (find_attempt id)

  unfoldable pub claim_attempt : String → Action (Option TenantOnboardingAttempt)
  claim_attempt id = transaction (do
    found ← gets (λ s. find_first (λ a. a.id == id && is_accepted a.status) s.onboarding_attempts)
    claim_found id found)
