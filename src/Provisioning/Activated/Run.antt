-- ===== src/Provisioning/Activated/Run.antt =====
-- What a whole run of provisionTenantSchema leaves where it returns.
use flexi.Prelude.{◌<◌, String, ◌≡◌, ◌≢◌, refl, true, none, some, [], arith}
use flexi.Exec.{Failure, Result, ok, err, catch_err, ◌>>=◌}
use flexi.Exec.Outcome.{bind-ok}
use flexi.Exec.Evolves.{Evolves}
use flexi.Onboarding.{AttemptStatus, StepName, TenantOnboardingAttempt}
use flexi.Store.{World}
use flexi.Store.Rows.{count}
use flexi.Store.Platform.{Platform}
use flexi.Store.Tables.{Action}
use flexi.Provisioning.{
  Signal, step_number, find_attempt, normalize_step_outcomes, upsert_step_outcome, with_outcomes,
}
use flexi.Provisioning.Steps.{
  Collaborators, create_tenant_schema, bootstrap_tenant_schema, bootstrap_tenant_seed,
  assign_from_payload, assign_first_admin, generate_setup_link, send_backup_email, activation,
}
use flexi.Provisioning.Lifecycle.{
  try_audit, finalize_audit, provision_steps, compensate_unless_cancelled, provision_tenant_schema,
}
use flexi.Provisioning.SetupLink.{GeneratedSetupLink}
use flexi.Provisioning.Kept.{SameOnboarding, Respects, same_rules, Same-in_schema, Same-lift_option}
use flexi.Provisioning.Recorded.{recorded, recorded-upsert, keep_outcomes-some}
use flexi.Provisioning.Audited.{try_audit-ok, try_audit-err}
use flexi.Provisioning.Activated.{
  catch_err-ok, blocking_step-Has, send_backup_email-HasKept, steps_before_email,
}
use flexi.Provisioning.Activated.Activation.{required_steps, is_active_of, activation-ok}

-- What a provisioning run that returned leaves: an attempt that has succeeded and recorded every
-- required step as succeeded, and an active tenant linked to it.
pub record Provisioned (attempt_id tenant_id : String) (s : World) : Type 0 where
  pub attempt : TenantOnboardingAttempt
  pub found : find_attempt attempt_id s ≡ some attempt
  pub succeeded : attempt.status ≡ AttemptStatus.succeeded
  pub steps : recorded required_steps (normalize_step_outcomes attempt.step_outcomes) ≡ true
  pub active : 0 < count (is_active_of attempt_id tenant_id) s.tenants

module _ (p : Platform) (signal : Signal) (id tenant_id : String) where
  try_audit-Provisioned :
      (s : World) (a : TenantOnboardingAttempt)
      → find_attempt id s ≡ some a
      → recorded required_steps (normalize_step_outcomes a.step_outcomes) ≡ true
      → 0 < count (is_active_of id tenant_id) s.tenants
      → (try_audit p signal id (some tenant_id) AttemptStatus.succeeded none s).0 ≡ ok tt
      → Provisioned id tenant_id
          (try_audit p signal id (some tenant_id) AttemptStatus.succeeded none s).1
  unfolding step_number
  try_audit-Provisioned s a found all active h =
      let (o, named, found', tenants) =
        try_audit-ok p signal id (some tenant_id) AttemptStatus.succeeded none s a refl found h in
      let outcomes = upsert_step_outcome (normalize_step_outcomes a.step_outcomes) o in
      record {
        attempt = with_outcomes AttemptStatus.succeeded outcomes a;
        found = found';
        succeeded = refl;
        steps = rw (keep_outcomes-some outcomes) (
            recorded-upsert o required_steps (normalize_step_outcomes a.step_outcomes) all
              (rw named refl));
        active = rw tenants active;
      }

  finalize_audit-ok :
      (s : World) (a : TenantOnboardingAttempt)
      → find_attempt id s ≡ some a
      → recorded required_steps (normalize_step_outcomes a.step_outcomes) ≡ true
      → 0 < count (is_active_of id tenant_id) s.tenants
      → (finalize_audit p signal id (some tenant_id) AttemptStatus.succeeded none s).0 ≡ ok tt
      → Provisioned id tenant_id
          (finalize_audit p signal id (some tenant_id) AttemptStatus.succeeded none s).1
  unfolding finalize_audit catch_err ◌>>=◌
  finalize_audit-ok s a found all active h = from _ refl
    where
      audit : Action Unit
      audit = try_audit p signal id (some tenant_id) AttemptStatus.succeeded none

      from :
          (r : Result {0} Unit)
          → (audit s).0 ≡ r
          → Provisioned id tenant_id
              (finalize_audit p signal id (some tenant_id) AttemptStatus.succeeded none s).1
      from (ok _) e = rw e (try_audit-Provisioned s a found all active e)
      from (err f) e =
          let cancelled =
            try_audit-err p signal id (some tenant_id) AttemptStatus.succeeded none a s f found e in
          absurd (ground (arith, h, e, cancelled))

  compensate-raises :
      (c : Collaborators) (e : Failure) (s : World)
      → (compensate_unless_cancelled p c signal id tenant_id e s).0 ≢ ok tt
  unfolding compensate_unless_cancelled ◌>>=◌
  compensate-raises c e s = ground arith

module _ (p : Platform) (c : Collaborators) (respects : Respects c) (signal : Signal)
    (id tenant_id : String) where
  assign_from_payload-Same : Evolves SameOnboarding (assign_from_payload p signal id tenant_id c)
  unfolding assign_from_payload
  assign_from_payload-Same = search (same_rules, Same-in_schema, Same-lift_option, respects.assign)

  provision_steps-ok :
      (s : World)
      → (provision_steps p c signal id tenant_id s).0 ≡ ok tt
      → Provisioned id tenant_id (provision_steps p c signal id tenant_id s).1
  unfolding provision_steps
  provision_steps-ok s h =
      let audit = finalize_audit p signal id (some tenant_id) AttemptStatus.succeeded none in
      let m₇ = activation p signal id tenant_id >>= λ _. audit in
      let m₆ = λ (link : GeneratedSetupLink).
        send_backup_email p signal id tenant_id c link.setup_token >>= λ _. m₇ in
      let m₅ = generate_setup_link p signal id tenant_id c >>= m₆ in
      let m₄ = assign_first_admin p signal id tenant_id c >>= λ _. m₅ in
      let m₃ = bootstrap_tenant_seed p signal id tenant_id c >>= λ _. m₄ in
      let m₂ = bootstrap_tenant_schema p signal id tenant_id c >>= λ _. m₃ in
      let (_, r₁, h₁, e₁) = bind-ok (create_tenant_schema p signal id tenant_id c) (λ _. m₂) s h in
      let s₁ = (create_tenant_schema p signal id tenant_id c s).1 in
      let (_, r₂, h₂, e₂) =
        bind-ok (bootstrap_tenant_schema p signal id tenant_id c) (λ _. m₃) s₁ h₁ in
      let s₂ = (bootstrap_tenant_schema p signal id tenant_id c s₁).1 in
      let (_, r₃, h₃, e₃) =
        bind-ok (bootstrap_tenant_seed p signal id tenant_id c) (λ _. m₄) s₂ h₂ in
      let s₃ = (bootstrap_tenant_seed p signal id tenant_id c s₂).1 in
      let (_, r₄, h₄, e₄) = bind-ok (assign_first_admin p signal id tenant_id c) (λ _. m₅) s₃ h₃ in
      let s₄ = (assign_first_admin p signal id tenant_id c s₃).1 in
      let (link, r₅, h₅, e₅) = bind-ok (generate_setup_link p signal id tenant_id c) m₆ s₄ h₄ in
      let s₅ = (generate_setup_link p signal id tenant_id c s₄).1 in
      let send = send_backup_email p signal id tenant_id c link.setup_token in
      let (_, r₆, h₆, e₆) = bind-ok send (λ _. m₇) s₅ h₅ in
      let s₆ = (send s₅).1 in
      let (_, r₇, h₇, e₇) = bind-ok (activation p signal id tenant_id) (λ _. audit) s₆ h₆ in
      let s₇ = (activation p signal id tenant_id s₆).1 in
      let has₁ =
        blocking_step-Has p signal id tenant_id StepName.schema_created _ _ _ [] s tt
          (Same-in_schema tenant_id _ respects.create_schema) (record { at = λ a _ _. refl }) r₁ in
      let has₂ =
        blocking_step-Has p signal id tenant_id StepName.bootstrap_migrated _ _ _ _ s₁ tt
          (Same-in_schema tenant_id _ (λ _. respects.ensure_meta_tables)) has₁ r₂ in
      let has₃ =
        blocking_step-Has p signal id tenant_id StepName.bootstrap_seeded _ _ _ _ s₂ tt
          (Same-in_schema tenant_id _ (λ _. respects.bootstrap_seed)) has₂ r₃ in
      let has₄ =
        blocking_step-Has p signal id tenant_id StepName.first_admin_assigned _ _ _ _ s₃ tt
          assign_from_payload-Same has₃ r₄ in
      let has₅ =
        blocking_step-Has p signal id tenant_id StepName.setup_link_generated _ _ _ _ s₄ link
          (Same-in_schema tenant_id _ (λ _. respects.generate tenant_id)) has₄ r₅ in
      let has₆ =
        ((send_backup_email-HasKept p signal c respects id tenant_id link.setup_token).at s₅).kept
          has₅ in
      let (done, has₇) = activation-ok p signal id tenant_id steps_before_email s₆ has₆ r₇ in
      rw (e₁, e₂, e₃, e₄, e₅, e₆, e₇)
        (finalize_audit-ok p signal id tenant_id s₇ done.attempt done.found
          (has₇.at done.attempt done.found done.provisioning) done.active h₇)

  -- Where the services leave the tenants and the attempts alone: a provisioning run that returned leaves
  -- the attempt succeeded, each required step recorded as succeeded, and the tenant active.
  pub provision_tenant_schema-Provisioned :
      (s : World)
      → (provision_tenant_schema p c signal id tenant_id s).0 ≡ ok tt
      → Provisioned id tenant_id (provision_tenant_schema p c signal id tenant_id s).1
  unfolding provision_tenant_schema
  provision_tenant_schema-Provisioned s h =
      let (returned, e) =
        catch_err-ok (provision_steps p c signal id tenant_id)
          (compensate_unless_cancelled p c signal id tenant_id) s tt
          (compensate-raises p signal id tenant_id c) h in
      rw e (provision_steps-ok s returned)
