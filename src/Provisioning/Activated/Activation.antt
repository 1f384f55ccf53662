-- ===== src/Provisioning/Activated/Activation.antt =====
-- What `activation` of modules/tenants/provisioning.service.ts leaves where it returns.
use flexi.Prelude.{
  ℕ, suc, ◌<◌, String, ◌==◌, ==_refl, same, ◌≡◌, refl, sym, ap, ◌∙◌, Bool, true, false, ◌&&◌,
  Option, none, some, List, [], ◌∷◌, arith, if◌then◌else◌, Option-cases, Bool-cases, inl, inr,
}
use flexi.Exec.{ok, ◌>>=◌}
use flexi.Exec.Outcome.{bind-ok}
use flexi.Onboarding.{AttemptStatus, StepName, StepOutcome, TenantOnboardingAttempt}
use flexi.Store.{World, Tenant}
use flexi.Store.Rows.{find_first, count, update_many}
use flexi.Store.Rows.Laws.{count-update_many_le}
use flexi.Store.Platform.{Platform}
use flexi.Store.Tables.{now}
use flexi.Store.Setup.{update_tenants}
use flexi.Provisioning.{
  Signal, is_terminal, is_provisioning, find_attempt, throw_if_cancelled, update_attempt_step,
  tenant_step, normalize_step_outcomes, upsert_step_outcome, with_outcomes,
}
use flexi.Provisioning.Steps.{
  may_activate, set_tenant_status, activate_tenant, finish_activation, try_activation,
  fail_activation, activation,
}
use flexi.Provisioning.Recorded.{
  Has, throw_if_cancelled-attempts, update_attempt_steps-ok, update_attempt_steps-tenants,
  find_attempt-written,
}
use flexi.Provisioning.Recorded.Steps.{Has-of_same, Has-succeeded}
use flexi.Provisioning.Activated.{catch_err-ok, fail_step-raises, steps_before_email}

abbrev pub required_steps : List StepName
required_steps = StepName.activation ∷ steps_before_email

-- A tenant with the id, linked to the attempt, that is active.
abbrev pub is_active_of : String → String → Tenant → Bool
is_active_of attempt_id tenant_id t =
    t.id == tenant_id && same t.onboarding_attempt_id attempt_id && t.status == "ACTIVE"

-- The conditional update of the activation touches nothing but for an attempt that is provisioning.
may_activate-count :
    (id tenant_id : String) (o : Option TenantOnboardingAttempt) (ts : List Tenant)
    → 0 < count (may_activate id tenant_id o) ts
    → (a : TenantOnboardingAttempt) × (o ≡ some a) × (is_provisioning a.status ≡ true)
unfolding count
may_activate-count id tenant_id o [] h = absurd (ground arith)
may_activate-count id tenant_id none (t ∷ ts) h =
    may_activate-count id tenant_id none ts (ground arith)
may_activate-count id tenant_id (some a) (t ∷ ts) h = elim (Bool-cases (is_provisioning a.status)) [
  | inl runs ↦ (a, refl, runs)
  | inr ended ↦ may_activate-count id tenant_id (some a) ts (ground arith)
]

-- What it touches is active afterwards.
may_activate-is_active_of :
    (id tenant_id : String) (o : Option TenantOnboardingAttempt) (t : Tenant)
    → may_activate id tenant_id o t ≡ true
    → is_active_of id tenant_id (set_tenant_status "ACTIVE" t) ≡ true
may_activate-is_active_of id tenant_id none t h = absurd (ground arith)
may_activate-is_active_of id tenant_id (some a) t h = ground (arith, ==_refl "ACTIVE")

module _ (p : Platform) (signal : Signal) (id tenant_id : String) where
  -- What an activation that returned shows and leaves.
  pub record Activation (s s' : World) : Type 0 where
    pub attempt : TenantOnboardingAttempt
    pub found : find_attempt id s' ≡ some attempt
    pub provisioning : is_terminal attempt.status ≡ false
    pub active : 0 < count (is_active_of id tenant_id) s'.tenants

  -- the last part is the write of the outcome
  finish_activation-write :
      (n : ℕ) (s : World)
      → (finish_activation p signal id tenant_id n s).0 ≡ ok tt
      → (0 < n)
        × ((t : Tenant) × (finish_activation p signal id tenant_id n s
              ≡ update_attempt_step p signal id AttemptStatus.provisioning
                  (tenant_step StepName.activation (p.clock s.ticks) t)
                  (record s { ticks = suc s.ticks })))
  unfolding finish_activation ◌>>=◌ now
  finish_activation-write n s h =
      elim (Option-cases (find_first (λ t. t.id == tenant_id) s.tenants)) [
        | inl missing ↦ absurd (ground arith)
        | inr (t, there) ↦ (ground arith, (t, ground arith))
      ]

  activate_tenant-effect :
      (s : World)
      → (activate_tenant id tenant_id s).0
        ≡ ok (count (may_activate id tenant_id (find_attempt id s)) s.tenants)
  unfolding activate_tenant update_tenants ◌>>=◌
  activate_tenant-effect s = refl

  activate_tenant-active :
      (s : World)
      → 0 < count (may_activate id tenant_id (find_attempt id s)) s.tenants
      → ((activate_tenant id tenant_id s).1.onboarding_attempts ≡ s.onboarding_attempts)
        × (0 < count (is_active_of id tenant_id) (activate_tenant id tenant_id s).1.tenants)
  unfolding activate_tenant update_tenants ◌>>=◌
  activate_tenant-active s h =
      let o = find_attempt id s in
      (
        refl,
        omega (
          arith,
          h,
          count-update_many_le (may_activate id tenant_id o) (is_active_of id tenant_id)
              (set_tenant_status "ACTIVE") s.tenants (may_activate-is_active_of id tenant_id o),
        ),
      )

  -- The write of an outcome to a live attempt leaves it provisioning, and the tenants as they were.
  write-Activation :
      (o : StepOutcome) (s : World) (a : TenantOnboardingAttempt)
      → find_attempt id s ≡ some a
      → is_provisioning a.status ≡ true
      → 0 < count (is_active_of id tenant_id) s.tenants
      → (update_attempt_step p signal id AttemptStatus.provisioning o s).0 ≡ ok tt
      → Activation s (update_attempt_step p signal id AttemptStatus.provisioning o s).1
  write-Activation o s a found runs active h =
      let outcomes = upsert_step_outcome (normalize_step_outcomes a.step_outcomes) o in
      let written =
        update_attempt_steps-ok p signal id AttemptStatus.provisioning (o ∷ []) s a found h in
      let live : (is_terminal a.status && true) ≡ false = ground (arith, runs) in
      let after =
        update_many (λ b. b.id == a.id) (with_outcomes AttemptStatus.provisioning outcomes)
          s.onboarding_attempts in
      record {
        attempt = with_outcomes AttemptStatus.provisioning outcomes a;
        found =
            find_attempt-written id AttemptStatus.provisioning outcomes s
              (update_attempt_step p signal id AttemptStatus.provisioning o s).1 a found
              (written ∙ ap (λ x. if x then s.onboarding_attempts else after) live);
        provisioning = refl;
        active =
            rw (update_attempt_steps-tenants p signal id AttemptStatus.provisioning (o ∷ []) s)
              active;
      }

  try_activation-ok :
      (steps : List StepName) (s : World)
      → Has id steps s
      → (try_activation p signal id tenant_id s).0 ≡ ok tt
      → Activation s (try_activation p signal id tenant_id s).1
        × Has id (StepName.activation ∷ steps) (try_activation p signal id tenant_id s).1
  unfolding try_activation
  try_activation-ok steps s has h =
      let finish = finish_activation p signal id tenant_id in
      let (_, _, h₁, e₁) =
        bind-ok (throw_if_cancelled p signal) (λ _. activate_tenant id tenant_id >>= finish) s h in
      let s₁ = (throw_if_cancelled p signal s).1 in
      let (n, counted, h₂, e₂) = bind-ok (activate_tenant id tenant_id) finish s₁ h₁ in
      let s₂ = (activate_tenant id tenant_id s₁).1 in
      let s₃ = record s₂ { ticks = suc s₂.ticks } in
      let (positive, (t, e₃)) = finish_activation-write n s₂ h₂ in
      let o = tenant_step StepName.activation (p.clock s₂.ticks) t in
      let some_touched : 0 < count (may_activate id tenant_id (find_attempt id s₁)) s₁.tenants =
        ground (arith, positive, counted, activate_tenant-effect s₁) in
      let (same, active) = activate_tenant-active s₁ some_touched in
      let (a, found, runs) =
        may_activate-count id tenant_id (find_attempt id s₁) s₁.tenants some_touched in
      let wrote : (update_attempt_step p signal id AttemptStatus.provisioning o s₃).0 ≡ ok tt =
        ap (λ x. x.0) (sym e₃) ∙ h₂ in
      let has₃ = Has-of_same id steps s s₃ (same ∙ throw_if_cancelled-attempts p signal s) has in
      let end = e₁ ∙ e₂ ∙ ap (λ x. x.1) e₃ in
      let done = write-Activation o s₃ a (rw same found) runs active wrote in
      (
        record {
          attempt = done.attempt;
          found = rw end done.found;
          provisioning = done.provisioning;
          active = rw end done.active;
        },
        rw end (Has-succeeded p signal id o steps s₃ refl has₃ wrote),
      )

  pub activation-ok :
      (steps : List StepName) (s : World)
      → Has id steps s
      → (activation p signal id tenant_id s).0 ≡ ok tt
      → Activation s (activation p signal id tenant_id s).1
        × Has id (StepName.activation ∷ steps) (activation p signal id tenant_id s).1
  unfolding activation fail_activation
  activation-ok steps s has h =
      let (tried, e) =
        catch_err-ok (try_activation p signal id tenant_id) (fail_activation p signal id tenant_id)
          s tt (λ f s'. fail_step-raises p signal id tenant_id StepName.activation _ _ f s' tt) h in
      let (done, has') = try_activation-ok steps s has tried in
      (
        record {
          attempt = done.attempt;
          found = rw e done.found;
          provisioning = done.provisioning;
          active = rw e done.active;
        },
        rw e has',
      )
