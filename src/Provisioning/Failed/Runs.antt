-- ===== src/Provisioning/Failed/Runs.antt =====
-- Tenants that have failed, under the lifecycle, the timeout and the jobs of provisioning.worker.ts.
use flexi.Prelude.{String, ◌==◌, ◌≡◌, ap, Bool, true, false, Option, none, some, [], ◌∷◌, List}
use flexi.Exec.{Failure}
use flexi.Exec.Evolves.{Evolves}
use flexi.Onboarding.{AttemptStatus, TenantOnboardingAttempt, SafePayload}
use flexi.Store.{Tenant, World}
use flexi.Store.Rows.{find_first}
use flexi.Store.Rows.Grows.{Grows-find_first}
use flexi.Store.Platform.{Platform}
use flexi.Provisioning.{Signal, claim_found, claim_attempt, reset_attempt_status}
use flexi.Provisioning.Steps.{Collaborators}
use flexi.Provisioning.Lifecycle.{
  resume_provisioning, resume_from, create_recorded_tenant, resolve_conflict, creation_refused,
  creation_failed, provision_created, provision_payload, provision_claimed, start_from,
  start_lifecycle, finish_timeout, record_provisioning_timeout, process,
}
use flexi.Provisioning.Kept.{Respects}
use flexi.Provisioning.Failed.{KeepsFailed, Kept-preorder, kept_rules}
use flexi.Provisioning.Failed.Steps.{step_rules}
use flexi.Provisioning.Failed.Parts.{
  Kept-finalize_audit, Kept-creation_success, Kept-creation_failure, Kept-create_or_resolve,
  Kept-handle_failure, Kept-provision,
}

ruleset lifecycle_rules = (
  step_rules, Kept-provision, Kept-creation_success, Kept-creation_failure, Kept-create_or_resolve,
  Kept-handle_failure, Kept-finalize_audit,
)

Kept-reset : (attempt_id : String) → Evolves KeepsFailed (reset_attempt_status attempt_id)
unfolding reset_attempt_status
Kept-reset attempt_id = search kept_rules

Kept-claim_found :
    (p : Platform) (id : String) (a : Option TenantOnboardingAttempt)
    → Evolves KeepsFailed (claim_found p id a)
unfolding claim_found
Kept-claim_found p id none = search kept_rules
Kept-claim_found p id (some a) = search kept_rules depth 20

Kept-claim_attempt : (p : Platform) (id : String) → Evolves KeepsFailed (claim_attempt p id)
unfolding claim_attempt
Kept-claim_attempt p id = search (kept_rules, Kept-claim_found)

module _ (p : Platform) (c : Collaborators) (respects : Respects c) (signal : Signal)
    (attempt_id : String) where
  Kept-resume_provisioning :
      (t : Tenant) → Evolves KeepsFailed (resume_provisioning p c signal attempt_id t)
  unfolding resume_provisioning
  Kept-resume_provisioning t = search lifecycle_rules depth 20

  Kept-resume_from :
      (t : Tenant) (status : Option AttemptStatus)
      → Evolves KeepsFailed (resume_from p c signal attempt_id t status)
  unfolding resume_from
  Kept-resume_from t (some AttemptStatus.succeeded) = search kept_rules
  Kept-resume_from t (some AttemptStatus.failed_needs_manual_cleanup) = search kept_rules
  Kept-resume_from t (some AttemptStatus.failed) =
      search (kept_rules, Kept-reset, Kept-resume_provisioning)
  Kept-resume_from t (some AttemptStatus.accepted) = Kept-resume_provisioning t
  Kept-resume_from t (some AttemptStatus.provisioning) = Kept-resume_provisioning t
  Kept-resume_from t none = Kept-resume_provisioning t

  Kept-resolve_conflict :
      (t : Option Tenant) → Evolves KeepsFailed (resolve_conflict p c signal attempt_id t)
  unfolding resolve_conflict
  Kept-resolve_conflict none = search lifecycle_rules
  Kept-resolve_conflict (some t) = search lifecycle_rules depth 20

  Kept-creation_refused :
      (payload : SafePayload) (b : Bool)
      → Evolves KeepsFailed (creation_refused p c signal attempt_id payload b)
  unfolding creation_refused
  Kept-creation_refused payload true = search (lifecycle_rules, Kept-resolve_conflict)
  Kept-creation_refused payload false = search lifecycle_rules

  Kept-creation_failed :
      (payload : SafePayload) (e : Failure)
      → Evolves KeepsFailed (creation_failed p c signal attempt_id payload e)
  unfolding creation_failed
  Kept-creation_failed payload e = search (lifecycle_rules, Kept-creation_refused)

  Kept-create_recorded :
      (payload : SafePayload)
      → Evolves KeepsFailed (create_recorded_tenant p c signal attempt_id payload)
  unfolding create_recorded_tenant
  Kept-create_recorded payload = search lifecycle_rules depth 20

  Kept-provision_created :
      (t : Option Tenant) → Evolves KeepsFailed (provision_created p c signal attempt_id t)
  unfolding provision_created
  Kept-provision_created none = search kept_rules
  Kept-provision_created (some t) = search lifecycle_rules

  Kept-provision_payload :
      (payload : Option SafePayload)
      → Evolves KeepsFailed (provision_payload p c signal attempt_id payload)
  unfolding provision_payload
  Kept-provision_payload none = search lifecycle_rules
  Kept-provision_payload (some payload) =
      search (kept_rules, Kept-create_recorded, Kept-creation_failed, Kept-provision_created) depth
        20

module _ (p : Platform) (c : Collaborators) (respects : Respects c) (signal : Signal) where
  Kept-provision_claimed :
      (a : Option TenantOnboardingAttempt) → Evolves KeepsFailed (provision_claimed p c signal a)
  unfolding provision_claimed
  Kept-provision_claimed none = search kept_rules
  Kept-provision_claimed (some a) = search (kept_rules, Kept-provision_payload)

  Kept-start_from :
      (attempt_id : String) (t : Option Tenant)
      → Evolves KeepsFailed (start_from p c signal attempt_id t)
  unfolding start_from
  Kept-start_from attempt_id none = search (kept_rules, Kept-claim_attempt, Kept-provision_claimed)
  Kept-start_from attempt_id (some t) = search (kept_rules, Kept-resume_from)

  Kept-start_lifecycle :
      (attempt_id : String) → Evolves KeepsFailed (start_lifecycle p c signal attempt_id)
  unfolding start_lifecycle
  Kept-start_lifecycle attempt_id = search (step_rules, Kept-start_from) depth 20

  Kept-finish_timeout :
      (attempt_id : String) (t : Option Tenant)
      → Evolves KeepsFailed (finish_timeout p c attempt_id t)
  unfolding finish_timeout
  Kept-finish_timeout attempt_id none = search lifecycle_rules
  Kept-finish_timeout attempt_id (some t) = search lifecycle_rules

  Kept-timeout :
      (attempt_id : String) → Evolves KeepsFailed (record_provisioning_timeout p c attempt_id)
  unfolding record_provisioning_timeout
  Kept-timeout attempt_id = search (step_rules, Kept-finish_timeout) depth 20

  Kept-process :
      (timed_out : Bool) (attempt_id : String)
      → Evolves KeepsFailed (process p c signal timed_out attempt_id)
  unfolding process
  Kept-process false attempt_id = Kept-start_lifecycle attempt_id
  Kept-process true attempt_id = search (kept_rules, Kept-start_lifecycle, Kept-timeout) depth 20

-- A job of the worker, as it comes out: when its signal is raised, whether its timer wins, its attempt.
pub record ProvisioningJob : Type 0 where
  pub signal : Signal
  pub timed_out : Bool
  pub attempt_id : String

module _ (p : Platform) (c : Collaborators) where
  -- the jobs that the queue gives, the same attempt again as often as it likes
  abbrev pub run_jobs : List ProvisioningJob → World → World
  run_jobs [] s = s
  run_jobs (j ∷ js) s = run_jobs js (process p c j.signal j.timed_out j.attempt_id s).1

  Kept-run_jobs :
      Respects c → (js : List ProvisioningJob) (s : World) → KeepsFailed s (run_jobs js s)
  Kept-run_jobs respects [] s = Kept-preorder.reflexive s
  Kept-run_jobs respects (j ∷ js) s =
      Kept-preorder.transitive ((Kept-process p c respects j.signal j.timed_out j.attempt_id).at s)
        (Kept-run_jobs respects js _)

  -- Where the services leave the tenants alone: a tenant that has failed is found failed after any jobs,
  -- with the slug and the attempt that it had. A retry after a compensated failure cannot activate it.
  pub run_jobs-stays_failed :
      (respects : Respects c) (js : List ProvisioningJob) (s : World) (id : String) (t : Tenant)
      → find_first (λ x. x.id == id) s.tenants ≡ some t
      → t.status ≡ "FAILED"
      → (t' : Tenant) × (find_first (λ x. x.id == id) (run_jobs js s).tenants ≡ some t')
        × (t'.status ≡ "FAILED")
        × (t'.slug ≡ t.slug)
        × (t'.onboarding_attempt_id ≡ t.onboarding_attempt_id)
  run_jobs-stays_failed respects js s id t found failed =
      let (t', there, later) =
        Grows-find_first (λ x. x.id == id) s.tenants (run_jobs js s).tenants t
          (λ a b r. ap (λ i. i == id) r.id) (Kept-run_jobs respects js s).tenants found in
      (t', there, later.stays_failed failed, later.slug, later.attempt)
