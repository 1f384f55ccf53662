-- ===== src/Provisioning/Fence/Timeout.antt =====
-- What recordProvisioningTimeout leaves, and activation after it.
use flexi.Prelude.{
  suc, String, ◌==◌, ◌≡◌, refl, ap, ◌∙◌, Bool, true, false, ◌&&◌, Option, none, some, [], ◌∷◌, inl,
  inr, arith, if◌then◌else◌,
}
use flexi.Exec.{Failure, ok, err, ◌>>=◌}
use flexi.Onboarding.{AttemptStatus, StepName, TenantOnboardingAttempt}
use flexi.Store.{World, Tenant}
use flexi.Store.Rows.{update_many}
use flexi.Store.Platform.{Platform}
use flexi.Store.Tables.{now}
use flexi.Provisioning.{
  Signal, no_signal, find_attempt, is_terminal, with_outcomes, update_attempt_steps,
  normalize_step_outcomes, upsert_all, failed_step,
}
use flexi.Provisioning.Steps.{Collaborators, activation}
use flexi.Provisioning.Kept.{Respects}
use flexi.Provisioning.Lifecycle.{
  find_tenant_by_attempt, finish_timeout, record_provisioning_timeout,
}
use flexi.Provisioning.Recorded.{update_attempt_steps-ok, find_attempt-written}
use flexi.Provisioning.Compensation.Settled.{
  end_status, update_attempt_steps-returns, finalize_audit-ends, handle_provisioning_failure_lem,
}
use flexi.Provisioning.Fence.{is_live_attempt, activation-fenced}

module _ (p : Platform) (c : Collaborators) (id : String) where
  is_live_attempt-ended :
      (o : Option TenantOnboardingAttempt) (a : TenantOnboardingAttempt) (fails : Bool)
      → o ≡ some a
      → a.status ≡ end_status fails
      → is_live_attempt o ≡ false
  is_live_attempt-ended o a true found status = rw (found, status) refl
  is_live_attempt-ended o a false found status = rw (found, status) refl

  finish_timeout-ends :
      Respects c
      → (t : Option Tenant) (s : World) (a : TenantOnboardingAttempt) → find_attempt id s ≡ some a
      → a.status ≡ AttemptStatus.failed
      → ((finish_timeout p c id t s).0 ≡ ok tt)
        × ((b : TenantOnboardingAttempt) × (find_attempt id (finish_timeout p c id t s).1 ≡ some b)
            × ((fails : Bool) × (b.status ≡ end_status fails)))
  unfolding finish_timeout
  finish_timeout-ends respects none s a found failed =
      let (returned, (b, there, status), _) =
        finalize_audit-ends p id none AttemptStatus.failed none s a refl found in
      (returned, (b, there, (false, status)))
  finish_timeout-ends respects (some t) s a found failed =
      let (returned, ends) = handle_provisioning_failure_lem p c id t.id respects s a found in
      (
        returned,
        elim ends [
          | inl (dropped, planned, (b, there, status), _) ↦ (b, there, (_, status))
          | inr (f, planned, there, _) ↦ (a, there, (false, failed))
        ],
      )

  -- the record of a timeout: the failure is written, then the run is ended
  timeout-written :
      (s : World) (a : TenantOnboardingAttempt)
      → find_attempt id s ≡ some a
      → (s₂ : World) × ((b : TenantOnboardingAttempt) × (find_attempt id s₂ ≡ some b)
          × (b.status ≡ AttemptStatus.failed))
        × (record_provisioning_timeout p c id s
            ≡ finish_timeout p c id (find_tenant_by_attempt id s₂) s₂)
  unfolding record_provisioning_timeout ◌>>=◌ now
  timeout-written s a found =
      let s₁ = record s { ticks = suc s.ticks } in
      let os =
        failed_step StepName.provisioning_start (p.clock s.ticks) none "PROVISIONING_TIMEOUT"
          "Tenant provisioning lifecycle start timed out."
        ∷ [] in
      let marked = update_attempt_steps-returns p id AttemptStatus.failed os s₁ in
      let s₂ = (update_attempt_steps p no_signal id AttemptStatus.failed os s₁).1 in
      let written =
        update_attempt_steps-ok p no_signal id AttemptStatus.failed os s₁ a found marked in
      let outcomes = upsert_all (normalize_step_outcomes a.step_outcomes) os in
      let after =
        update_many (λ b. b.id == a.id) (with_outcomes AttemptStatus.failed outcomes)
          s₁.onboarding_attempts in
      let passes : (is_terminal a.status && false) ≡ false = ground arith in
      let found₂ =
        find_attempt-written id AttemptStatus.failed outcomes s₁ s₂ a found
          (written ∙ ap (λ x. if x then s₁.onboarding_attempts else after) passes) in
      (s₂, (with_outcomes AttemptStatus.failed outcomes a, found₂, refl), rw marked refl)

  -- Where the services leave the tenants and the attempts alone: the record of a timeout returns for an
  -- attempt that is there, whatever the services raise, and the attempt has then failed or needs manual
  -- cleanup.
  pub record_provisioning_timeout-ends :
      (respects : Respects c) (s : World) (a : TenantOnboardingAttempt)
      → find_attempt id s ≡ some a
      → ((record_provisioning_timeout p c id s).0 ≡ ok tt)
        × ((b : TenantOnboardingAttempt) × (find_attempt id (record_provisioning_timeout p c id s).1
              ≡ some b)
            × ((fails : Bool) × (b.status ≡ end_status fails)))
  record_provisioning_timeout-ends respects s a found =
      let (s₂, (b, there, failed), whole) = timeout-written s a found in
      rw whole (finish_timeout-ends respects (find_tenant_by_attempt id s₂) s₂ b there failed)

  -- Where the services leave the tenants and the attempts alone: after the record of a timeout, the
  -- attempt being there, what is left of the lifecycle can no longer activate a tenant under it.
  pub record_provisioning_timeout-activation :
      (respects : Respects c) (signal : Signal) (tenant_id : String) (s : World)
      (a : TenantOnboardingAttempt)
      → find_attempt id s ≡ some a
      → let s' = (record_provisioning_timeout p c id s).1 in
        ((activation p signal id tenant_id s').1.tenants ≡ s'.tenants)
        × ((e : Failure) × ((activation p signal id tenant_id s').0 ≡ err e))
  record_provisioning_timeout-activation respects signal tenant_id s a found =
      let (_, (b, there, (fails, status))) = record_provisioning_timeout-ends respects s a found in
      activation-fenced p signal id tenant_id (record_provisioning_timeout p c id s).1
        (is_live_attempt-ended _ b fails there status)
