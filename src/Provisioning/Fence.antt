-- ===== src/Provisioning/Fence.antt =====
-- What the state of an attempt allows: resuming it, activating under it.
pub mod Timeout
use flexi.Prelude.{
  suc, String, ◌==◌, ◌≡◌, refl, ap, ◌∙◌, ◌⊎◌, inl, inr, Bool, true, false, ◌&&◌, Option, none, some,
  List, [], ◌∷◌, arith, if◌then◌else◌,
}
use flexi.Exec.{
  Failure, Result, ok, err, catch_err, manual_cleanup_required, provisioning_cancelled,
  activation_blocked, ◌>>=◌,
}
use flexi.Exec.Outcome.{Result-cases}
use flexi.Onboarding.{AttemptStatus, StepName, TenantOnboardingAttempt}
use flexi.Store.{World, Tenant}
use flexi.Store.Rows.{count, update_many}
use flexi.Store.Rows.Laws.{update_many-none}
use flexi.Store.Platform.{Platform}
use flexi.Store.Tables.{now}
use flexi.Store.Setup.{update_tenants}
use flexi.Provisioning.{
  Signal, no_signal, find_attempt, status_of, is_terminal, is_provisioning, with_outcomes,
  throw_if_cancelled, update_attempt_steps, normalize_step_outcomes, upsert_all, failed_step,
}
use flexi.Provisioning.Steps.{
  Collaborators, may_activate, activation_error_code, activation_message, set_tenant_status,
  record_failure, fail_step, activate_tenant, finish_activation, try_activation, fail_activation,
  activation,
}
use flexi.Provisioning.Kept.{Respects}
use flexi.Provisioning.Lifecycle.{
  find_tenant_by_attempt, resume_from, start_from, start_lifecycle, finish_timeout,
  record_provisioning_timeout,
}
use flexi.Provisioning.Recorded.{
  throw_if_cancelled-attempts, update_attempt_steps-ok, update_attempt_steps-tenants,
  find_attempt-written,
}
use flexi.Provisioning.Activated.{fail_step-raises}
use flexi.Provisioning.Compensation.Settled.{
  end_status, update_attempt_steps-returns, finalize_audit-ends, handle_provisioning_failure_lem,
}

-- the answers to a retry of an attempt that succeeded or needs manual cleanup
abbrev pub ended_answer : AttemptStatus → Option (Result {0} Unit)
ended_answer AttemptStatus.succeeded = some (ok tt)
ended_answer AttemptStatus.failed_needs_manual_cleanup = some (err manual_cleanup_required)
ended_answer _ = none

module _ (p : Platform) (c : Collaborators) (signal : Signal) (id : String) where
  resume_from-ended :
      (t : Tenant) (status : AttemptStatus) (answer : Result {0} Unit) (s : World)
      → ended_answer status ≡ some answer
      → resume_from p c signal id t (some status) s ≡ (answer, s)
  unfolding resume_from ◌>>=◌
  resume_from-ended t AttemptStatus.accepted answer s h = absurd (ground arith)
  resume_from-ended t AttemptStatus.provisioning answer s h = absurd (ground arith)
  resume_from-ended t AttemptStatus.failed answer s h = absurd (ground arith)
  resume_from-ended t AttemptStatus.succeeded answer s h = ground arith
  resume_from-ended t AttemptStatus.failed_needs_manual_cleanup answer s h = ground arith

  -- A retry of an attempt with a linked tenant that has succeeded or needs manual cleanup leaves the
  -- database as it was; unless it is cancelled, it returns for the former and raises for the latter.
  pub start_lifecycle-ended :
      (s : World) (t : Tenant) (status : AttemptStatus) (answer : Result {0} Unit)
      → find_tenant_by_attempt id s ≡ some t
      → status_of (find_attempt id s) ≡ some status
      → ended_answer status ≡ some answer
      → ((start_lifecycle p c signal id s).1.db ≡ s.db)
        × (((start_lifecycle p c signal id s).0 ≡ answer)
            ⊎ ((start_lifecycle p c signal id s).0 ≡ err provisioning_cancelled))
  unfolding start_lifecycle start_from throw_if_cancelled ◌>>=◌ now
  start_lifecycle-ended s t status answer linked is_at h =
      ground (arith, resume_from-ended t status answer (record s { ticks = suc (suc s.ticks) }) h)

-- an attempt that is there and still provisioning
abbrev pub is_live_attempt : Option TenantOnboardingAttempt → Bool
is_live_attempt none = false
is_live_attempt (some a) = is_provisioning a.status

may_activate-dead :
    (id tenant_id : String) (o : Option TenantOnboardingAttempt) (ts : List Tenant)
    → is_live_attempt o ≡ false
    → count (may_activate id tenant_id o) ts ≡ 0
unfolding count
may_activate-dead id tenant_id o [] h = refl
may_activate-dead id tenant_id none (t ∷ ts) h =
    ground (arith, may_activate-dead id tenant_id none ts)
may_activate-dead id tenant_id (some a) (t ∷ ts) h =
    ground (arith, may_activate-dead id tenant_id (some a) ts)

module _ (p : Platform) (signal : Signal) (id tenant_id : String) where
  activate_tenant-dead :
      (s : World)
      → is_live_attempt (find_attempt id s) ≡ false
      → ((activate_tenant id tenant_id s).0 ≡ ok 0)
        × ((activate_tenant id tenant_id s).1.tenants ≡ s.tenants)
  unfolding activate_tenant update_tenants ◌>>=◌
  activate_tenant-dead s h =
      let none_hit = may_activate-dead id tenant_id (find_attempt id s) s.tenants h in
      (
        ap ok none_hit,
        update_many-none (may_activate id tenant_id (find_attempt id s))
            (set_tenant_status "ACTIVE") s.tenants none_hit,
      )

  finish_activation-blocked :
      (s : World) → finish_activation p signal id tenant_id 0 s ≡ (err activation_blocked, s)
  unfolding finish_activation ◌>>=◌
  finish_activation-blocked s = refl

  throw_if_cancelled-tenants : (s : World) → (throw_if_cancelled p signal s).1.tenants ≡ s.tenants
  unfolding throw_if_cancelled ◌>>=◌ now
  throw_if_cancelled-tenants s = ground arith

  try_activation-dead :
      (s : World)
      → is_live_attempt (find_attempt id s) ≡ false
      → ((try_activation p signal id tenant_id s).1.tenants ≡ s.tenants)
        × ((e : Failure) × ((try_activation p signal id tenant_id s).0 ≡ err e))
  unfolding try_activation ◌>>=◌
  try_activation-dead s dead =
      let s₁ = (throw_if_cancelled p signal s).1 in
      let same = throw_if_cancelled-tenants s in
      let (none_hit, tenants) =
        activate_tenant-dead s₁ (rw (throw_if_cancelled-attempts p signal s) dead) in
      let s₂ = (activate_tenant id tenant_id s₁).1 in
      elim (Result-cases (throw_if_cancelled p signal s).0) [
        | inl (u, passed) ↦ (
          ground (arith, passed, none_hit, finish_activation-blocked s₂, tenants, same),
          (activation_blocked, ground (arith, passed, none_hit, finish_activation-blocked s₂)),
        )
        | inr (e, raised) ↦ (ground (arith, raised, same), (e, ground (arith, raised)))
      ]

  fail_step-end :
      (step : StepName) (error_code message : String) (e : Failure) (s : World)
      → ((fail_step p signal id tenant_id {A = Unit} step error_code message e s).1.tenants
          ≡ s.tenants)
        × ((f : Failure) × ((fail_step p signal id tenant_id {A = Unit} step error_code message e
                s).0
              ≡ err f))
  unfolding fail_step record_failure ◌>>=◌ now
  fail_step-end step error_code message e s =
      let o = failed_step step (p.clock s.ticks) (some tenant_id) error_code message in
      let s₁ = record s { ticks = suc s.ticks } in
      let tenants =
        update_attempt_steps-tenants p signal id AttemptStatus.provisioning (o ∷ []) s₁ in
      (
        ground (arith, tenants),
        elim (Result-cases
            (fail_step p signal id tenant_id {A = Unit} step error_code message e s).0) [
              | inl (u, returned) ↦
                  absurd
                    (fail_step-raises p signal id tenant_id step error_code message e s tt returned)
              | inr raised ↦ raised
            ],
      )

  -- An activation under an attempt that is gone or no longer provisioning raises, and leaves every
  -- tenant as it was.
  pub activation-fenced :
      (s : World)
      → is_live_attempt (find_attempt id s) ≡ false
      → ((activation p signal id tenant_id s).1.tenants ≡ s.tenants)
        × ((e : Failure) × ((activation p signal id tenant_id s).0 ≡ err e))
  unfolding activation fail_activation catch_err
  activation-fenced s dead =
      let (same, (e, raised)) = try_activation-dead s dead in
      let s₁ = (try_activation p signal id tenant_id s).1 in
      let (kept, (f, failed)) =
        fail_step-end StepName.activation (activation_error_code e) (activation_message e) e s₁ in
      (ground (arith, raised, kept, same), (f, ground (arith, raised, failed)))
