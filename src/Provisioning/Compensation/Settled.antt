-- ===== src/Provisioning/Compensation/Settled.antt =====
-- What handleProvisioningFailure leaves of the attempt and of the tenant.
use flexi.Prelude.{
  String, ◌==◌, ◌≡◌, refl, ap, ◌∙◌, Bool, true, false, Option, none, some, List, [], ◌∷◌, arith,
  Option-cases, inl, inr, any, ◌⊎◌,
}
use flexi.Exec.{Failure, Result, ok, err, catch_err, ◌>>=◌}
use flexi.Exec.Outcome.{bind-of_ok, Result-cases}
use flexi.Onboarding.{
  AttemptStatus, StepName, StepOutcome, TenantOnboardingAttempt, CompensationOutcome,
}
use flexi.Store.{World, Tenant}
use flexi.Store.Rows.{update_many}
use flexi.Store.Rows.Laws.{update_many-none}
use flexi.Store.Platform.{Platform}
use flexi.Store.Tables.{transaction, now}
use flexi.Store.Setup.{update_tenant, update_onboarding_attempts, upsert_onboarding_audit}
use flexi.Provisioning.{
  no_signal, find_attempt, is_terminal, with_outcomes, throw_if_cancelled, write_steps,
  update_attempt_steps, normalize_step_outcomes, upsert_step_outcome,
}
use flexi.Provisioning.Steps.{Collaborators, schema_context, set_tenant_status}
use flexi.Provisioning.Kept.{SameOnboarding, Same-preorder, Respects, Same-run_with}
use flexi.Provisioning.Compensation.{
  has_succeeded, is_failure, is_compensation_failed, run_compensation, mark_tenant_failed,
}
use flexi.Provisioning.Compensation.Outcome.{
  after_links, after_admin, after_schema, verdicts, links_report, admin_report,
  run_compensation-report, run_compensation-raises, schema_to_drop,
}
use flexi.Provisioning.Lifecycle.{
  write_audit, try_audit, finalize_audit, settle_failure, try_failure, handle_provisioning_failure,
}
use flexi.Provisioning.Audited.{try_audit-ok}

module _ (p : Platform) where
  pub update_attempt_steps-returns :
      (id : String) (status : AttemptStatus) (outcomes : List StepOutcome) (s : World)
      → (update_attempt_steps p no_signal id status outcomes s).0 ≡ ok tt
  unfolding update_attempt_steps write_steps transaction ◌>>=◌ throw_if_cancelled now
      update_onboarding_attempts
  update_attempt_steps-returns id status outcomes s = elim (Option-cases (find_attempt id s)) [
    | inl missing ↦ ground arith
    | inr (a, found) ↦ ground arith
  ]

  throw_if_cancelled-returns : (s : World) → (throw_if_cancelled p no_signal s).0 ≡ ok tt
  unfolding throw_if_cancelled ◌>>=◌ now
  throw_if_cancelled-returns s = ground arith

  write_audit-returns :
      (id : String) (tenant_id : Option String) (status : AttemptStatus)
      (compensation : Option (List CompensationOutcome)) (a : Option TenantOnboardingAttempt)
      (s : World)
      → (write_audit p no_signal id tenant_id status compensation a s).0 ≡ ok tt
  unfolding write_audit ◌>>=◌ upsert_onboarding_audit now
  write_audit-returns id tenant_id status compensation none s = refl
  write_audit-returns id tenant_id status compensation (some a) s =
      update_attempt_steps-returns id status _ _

  try_audit-returns :
      (id : String) (tenant_id : Option String) (status : AttemptStatus)
      (compensation : Option (List CompensationOutcome)) (s : World)
      → (try_audit p no_signal id tenant_id status compensation s).0 ≡ ok tt
  unfolding try_audit ◌>>=◌
  try_audit-returns id tenant_id status compensation s =
      let s₁ = (throw_if_cancelled p no_signal s).1 in
      ground (
        arith,
        throw_if_cancelled-returns s,
        write_audit-returns id tenant_id status compensation (find_attempt id s₁) s₁,
      )

  -- Without a signal the final audit returns, and its status stands on the attempt.
  pub finalize_audit-ends :
      (id : String) (tenant_id : Option String) (status : AttemptStatus)
      (compensation : Option (List CompensationOutcome)) (s : World) (a : TenantOnboardingAttempt)
      → is_terminal status ≡ true
      → find_attempt id s ≡ some a
      → ((finalize_audit p no_signal id tenant_id status compensation s).0 ≡ ok tt)
        × ((a' : TenantOnboardingAttempt) × (find_attempt id
                (finalize_audit p no_signal id tenant_id status compensation s).1
              ≡ some a')
            × (a'.status ≡ status))
        × ((finalize_audit p no_signal id tenant_id status compensation s).1.tenants ≡ s.tenants)
  unfolding finalize_audit catch_err
  finalize_audit-ends id tenant_id status compensation s a ends found =
      let returned = try_audit-returns id tenant_id status compensation s in
      let (o, _, found', tenants) =
        try_audit-ok p no_signal id tenant_id status compensation s a ends found returned in
      let whole : finalize_audit p no_signal id tenant_id status compensation s
          ≡ try_audit p no_signal id tenant_id status compensation s =
        ground (arith, returned) in
      (
        ap (λ x. x.0) whole ∙ returned,
        (
          with_outcomes status (upsert_step_outcome (normalize_step_outcomes a.step_outcomes) o) a,
          ap (λ x. find_attempt id x.1) whole ∙ found',
          refl,
        ),
        ap (λ x. x.1.tenants) whole ∙ tenants,
      )

mark_tenant_failed-effect :
    (tenant_id : String) (s : World)
    → ((mark_tenant_failed tenant_id s).0 ≡ ok tt)
      × ((mark_tenant_failed tenant_id s).1.onboarding_attempts ≡ s.onboarding_attempts)
      × ((mark_tenant_failed tenant_id s).1.tenants
          ≡ update_many (λ t. t.id == tenant_id) (set_tenant_status "FAILED") s.tenants)
unfolding mark_tenant_failed update_tenant catch_err ◌>>=◌
mark_tenant_failed-effect tenant_id s =
    ground (arith, update_many-none (λ t. t.id == tenant_id) (set_tenant_status "FAILED") s.tenants)

-- Whether a part of compensation failed.
abbrev pub compensation_fails : Collaborators → String → Option String → World → Bool
compensation_fails c tenant_id dropped s = any is_failure (verdicts c tenant_id dropped s)

-- whether the attempt had recorded the creation of the schema
abbrev pub created : TenantOnboardingAttempt → Bool
created a = has_succeeded StepName.schema_created (normalize_step_outcomes a.step_outcomes)

abbrev pub end_status : Bool → AttemptStatus
end_status true = AttemptStatus.failed_needs_manual_cleanup
end_status false = AttemptStatus.failed

abbrev pub end_tenants : String → Bool → List Tenant → List Tenant
end_tenants tenant_id true ts = ts
end_tenants tenant_id false ts =
    update_many (λ t. t.id == tenant_id) (set_tenant_status "FAILED") ts

module _ (p : Platform) (c : Collaborators) (id tenant_id : String) where
  -- What the end of a failed run leaves.
  abbrev Ends : Bool → World → Result {0} Unit × World → Type 0
  Ends fails s end =
      (end.0 ≡ ok tt)
      × ((a : TenantOnboardingAttempt) × (find_attempt id end.1 ≡ some a)
          × (a.status ≡ end_status fails))
      × (end.1.tenants ≡ end_tenants tenant_id fails s.tenants)

  settle_failure-Ends :
      (os : List CompensationOutcome) (fails : Bool) (s : World) (a : TenantOnboardingAttempt)
      → any is_compensation_failed os ≡ fails
      → find_attempt id s ≡ some a
      → Ends fails s (settle_failure p c id tenant_id os s)
  unfolding settle_failure
  settle_failure-Ends os true s a fails found = rw fails (
      finalize_audit-ends p id (some tenant_id) AttemptStatus.failed_needs_manual_cleanup (some os)
        s a refl found)
  settle_failure-Ends os false s a fails found =
      let (marked, attempts, tenants) = mark_tenant_failed-effect tenant_id s in
      let s₁ = (mark_tenant_failed tenant_id s).1 in
      let audit = finalize_audit p no_signal id (some tenant_id) AttemptStatus.failed (some os) in
      let (returned, there, same) =
        finalize_audit-ends p id (some tenant_id) AttemptStatus.failed (some os) s₁ a refl
          (rw attempts found) in
      rw (fails, bind-of_ok (mark_tenant_failed tenant_id) (λ _. audit) s marked)
        (returned, there, same ∙ tenants)

  try_failure-settle :
      (s : World) (a : TenantOnboardingAttempt) (os : List CompensationOutcome) (s₁ : World)
      → find_attempt id s ≡ some a
      → run_compensation c tenant_id (normalize_step_outcomes a.step_outcomes) s ≡ (ok os, s₁)
      → try_failure p c id tenant_id s ≡ settle_failure p c id tenant_id os s₁
  unfolding try_failure ◌>>=◌
  try_failure-settle s a os s₁ found e = rw (found, e) refl

  -- compensation that raises is swallowed by the handler, which then settles nothing
  handle_failure-raises :
      (s : World) (a : TenantOnboardingAttempt) (f : Failure) (s₁ : World)
      → find_attempt id s ≡ some a
      → run_compensation c tenant_id (normalize_step_outcomes a.step_outcomes) s ≡ (err f, s₁)
      → handle_provisioning_failure p c id tenant_id s ≡ (ok tt, s₁)
  unfolding handle_provisioning_failure try_failure catch_err ◌>>=◌
  handle_failure-raises s a f s₁ found e = rw (found, e) refl

  module _ (respects : Respects c) where
    after_admin-Same : (s : World) → SameOnboarding s (after_admin c tenant_id s)
    after_admin-Same s =
        Same-preorder.transitive ((respects.revoke_all tenant_id).at s)
          ((respects.deactivate tenant_id).at (after_links c tenant_id s))

    after_schema-Same :
        (dropped : Option String) (s : World)
        → SameOnboarding s (after_schema c tenant_id dropped s)
    after_schema-Same none s = after_admin-Same s
    after_schema-Same (some schema) s = Same-preorder.transitive (after_admin-Same s) (
        (Same-run_with (schema_context tenant_id schema) (c.drop_schema schema)
            (respects.drop_schema schema)).at
          (after_admin c tenant_id s))

    handle_failure-settles :
        (s : World) (a : TenantOnboardingAttempt) (dropped : Option String)
        → find_attempt id s ≡ some a
        → schema_to_drop tenant_id (created a) ≡ ok dropped
        → Ends
            (compensation_fails c tenant_id dropped s)
            s
            (handle_provisioning_failure p c id tenant_id s)
    unfolding handle_provisioning_failure catch_err
    handle_failure-settles s a dropped found planned =
        let outcomes = normalize_step_outcomes a.step_outcomes in
        let (o, e, judged) = run_compensation-report c tenant_id outcomes dropped s planned in
        let links = links_report c tenant_id s in
        let admin = admin_report c tenant_id s in
        let os = links ∷ admin ∷ o ∷ [] in
        let s₁ = after_schema c tenant_id dropped s in
        let kept = after_schema-Same dropped s in
        let (returned, there, tenants) =
          settle_failure-Ends os (compensation_fails c tenant_id dropped s) s₁ a
            (ap (λ v. any is_failure (links.status ∷ admin.status ∷ v ∷ [])) judged)
            (rw kept.attempts found) in
        let tried = try_failure-settle s a os s₁ found e in
        let whole : handle_provisioning_failure p c id tenant_id s
            ≡ settle_failure p c id tenant_id os s₁ =
          ground (arith, tried, returned) in
        rw whole (returned, there, rw kept.tenants at tenants)

    -- Where the services leave the tenants and the attempts alone: the handler of a failed run returns
    -- for an attempt that is there. Where the schema is not to be dropped, or the id of the tenant gives
    -- its name: if a part of compensation fails, the attempt needs manual cleanup and the tenants are as
    -- they were; else the attempt has failed, and the tenant with the id too. Where the id gives no name,
    -- the attempt and the tenants are as they were.
    pub handle_provisioning_failure_lem :
        (s : World) (a : TenantOnboardingAttempt)
        → find_attempt id s ≡ some a
        → let planned = schema_to_drop tenant_id (created a) in
          let end = handle_provisioning_failure p c id tenant_id s in
          (end.0 ≡ ok tt)
          × (((dropped : Option String) × (planned ≡ ok dropped)
                × ((a' : TenantOnboardingAttempt) × (find_attempt id end.1 ≡ some a')
                    × (a'.status ≡ end_status (compensation_fails c tenant_id dropped s)))
                × (end.1.tenants
                    ≡ end_tenants tenant_id (compensation_fails c tenant_id dropped s) s.tenants))
              ⊎ ((f : Failure) × (planned ≡ err f)
                  × (find_attempt id end.1 ≡ some a)
                  × (end.1.tenants ≡ s.tenants)))
    handle_provisioning_failure_lem s a found =
        elim (Result-cases (schema_to_drop tenant_id (created a))) [
          | inl (dropped, planned) ↦
              let (returned, there, tenants) = handle_failure-settles s a dropped found planned in
              (returned, inl (dropped, planned, there, tenants))
          | inr (f, planned) ↦
              let outcomes = normalize_step_outcomes a.step_outcomes in
              let whole =
                handle_failure-raises s a f (after_admin c tenant_id s) found
                  (run_compensation-raises c tenant_id outcomes s f planned) in
              let kept = after_admin-Same s in
              rw whole (refl, inr (f, planned, rw kept.attempts found, kept.tenants))
        ]
