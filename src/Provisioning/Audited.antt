-- ===== src/Provisioning/Audited.antt =====
-- modules/tenants/provisioning.service.ts: what finalizeAudit leaves of the attempt.
use flexi.Prelude.{
  String, ◌==◌, ◌≡◌, refl, sym, ap, ◌∙◌, true, false, not, ◌&&◌, Option, some, List, [], ◌∷◌, arith,
  if◌then◌else◌,
}
use flexi.Exec.{Failure, ok, err, gets, ◌>>=◌}
use flexi.Exec.Outcome.{bind-ok}
use flexi.Onboarding.{
  AttemptStatus, StepName, StepOutcome, TenantOnboardingAttempt, CompensationOutcome,
}
use flexi.Store.{World}
use flexi.Store.Rows.{update_many}
use flexi.Store.Platform.{Platform}
use flexi.Store.Tables.{Action, now}
use flexi.Store.Setup.{upsert_onboarding_audit}
use flexi.Provisioning.{
  Signal, is_cancelled, is_terminal, find_attempt, throw_if_cancelled, update_attempt_step,
  normalize_step_outcomes, upsert_step_outcome, with_outcomes,
}
use flexi.Provisioning.Lifecycle.{audit_step, write_audit, try_audit}
use flexi.Provisioning.Recorded.{
  throw_if_cancelled-attempts, throw_if_cancelled-err, update_attempt_steps-err,
  update_attempt_steps-ok, update_attempt_steps-tenants, find_attempt-written,
}

throw_if_cancelled-tenants :
    (p : Platform) (signal : Signal) (s : World)
    → (throw_if_cancelled p signal s).1.tenants ≡ s.tenants
unfolding throw_if_cancelled ◌>>=◌ now
throw_if_cancelled-tenants p signal s = ground arith

module _ (p : Platform) (signal : Signal) (id : String) (tenant_id : Option String) where
  -- The audit row is written before the attempt's own outcome.
  abbrev audited :
      AttemptStatus → Option (List CompensationOutcome) → TenantOnboardingAttempt → World → World
  audited status compensation a s =
      (now p (
        (upsert_onboarding_audit
          (record {
            attempt_id = id;
            tenant_id = tenant_id;
            actor_identity = a.actor_identity;
            request_identity = a.request_identity;
            safe_payload = a.safe_payload;
            step_outcomes = normalize_step_outcomes a.step_outcomes;
            compensation = compensation;
            final_status = status;
          })
          s).1)).1

  abbrev write_end : AttemptStatus → World → Action Unit
  write_end status s =
      update_attempt_step p signal id status (audit_step p (p.clock s.ticks) tenant_id)

  write_audit-write :
      (status : AttemptStatus) (compensation : Option (List CompensationOutcome))
      (a : TenantOnboardingAttempt) (s : World)
      → (write_audit p signal id tenant_id status compensation (some a) s
          ≡ write_end status s (audited status compensation a s))
        × ((audited status compensation a s).onboarding_attempts ≡ s.onboarding_attempts)
        × ((audited status compensation a s).tenants ≡ s.tenants)
  unfolding write_audit upsert_onboarding_audit ◌>>=◌ now
  write_audit-write status compensation a s = (refl, refl, refl)

  pub try_audit-err :
      (status : AttemptStatus) (compensation : Option (List CompensationOutcome))
      (a : TenantOnboardingAttempt) (s : World) (e : Failure)
      → find_attempt id s ≡ some a
      → (try_audit p signal id tenant_id status compensation s).0 ≡ err e
      → is_cancelled e ≡ true
  unfolding try_audit ◌>>=◌
  try_audit-err status compensation a s e found h =
      let s₁ = (throw_if_cancelled p signal s).1 in
      ground (
        arith,
        throw_if_cancelled-err p signal s e,
        throw_if_cancelled-attempts p signal s,
        write_audit-write status compensation a s₁,
        update_attempt_steps-err p signal id status (audit_step p (p.clock s₁.ticks) tenant_id ∷ [])
            (audited status compensation a s₁) e,
      )

  -- A final audit that returned leaves its status and its outcome on the attempt.
  pub try_audit-ok :
      (status : AttemptStatus) (compensation : Option (List CompensationOutcome)) (s : World)
      (a : TenantOnboardingAttempt)
      → is_terminal status ≡ true
      → find_attempt id s ≡ some a
      → (try_audit p signal id tenant_id status compensation s).0 ≡ ok tt
      → (o : StepOutcome) × (o.step ≡ StepName.audit_finalized)
        × (find_attempt id (try_audit p signal id tenant_id status compensation s).1
            ≡ some (
                with_outcomes status
                  (upsert_step_outcome (normalize_step_outcomes a.step_outcomes) o)
                  a))
        × ((try_audit p signal id tenant_id status compensation s).1.tenants ≡ s.tenants)
  unfolding try_audit ◌>>=◌
  try_audit-ok status compensation s a ends found h =
      let s₁ = (throw_if_cancelled p signal s).1 in
      let s₂ = audited status compensation a s₁ in
      let o = audit_step p (p.clock s₁.ticks) tenant_id in
      let write = update_attempt_step p signal id status o s₂ in
      let (e₂, attempts, tenants) = write_audit-write status compensation a s₁ in
      let found₁ : find_attempt id s₁ ≡ some a =
        rw (throw_if_cancelled-attempts p signal s) found in
      let write_found = write_audit p signal id tenant_id status compensation in
      let (_, _, h₁, e₁) =
        bind-ok (throw_if_cancelled p signal) (λ _. gets (find_attempt id) >>= write_found) s h in
      let wrote = ap (λ x. write_found x s₁) found₁ ∙ e₂ in
      let outcomes = upsert_step_outcome (normalize_step_outcomes a.step_outcomes) o in
      let found₂ : find_attempt id s₂ ≡ some a = rw attempts found₁ in
      let written =
        update_attempt_steps-ok p signal id status (o ∷ []) s₂ a found₂
          (ap (λ x. x.0) (sym wrote) ∙ h₁) in
      let passes : (is_terminal a.status && not (is_terminal status)) ≡ false =
        ground (arith, ends) in
      let after =
        update_many (λ b. b.id == a.id) (with_outcomes status outcomes) s₂.onboarding_attempts in
      let end = e₁ ∙ ap (λ x. x.1) wrote in
      (
        o,
        refl,
        rw end (
            find_attempt-written id status outcomes s₂ write.1 a found₂
              (written ∙ ap (λ x. if x then s₂.onboarding_attempts else after) passes)),
        ap (λ x. x.tenants) end
            ∙ update_attempt_steps-tenants p signal id status (o ∷ []) s₂
            ∙ tenants
            ∙ throw_if_cancelled-tenants p signal s,
      )
