-- ===== src/Provisioning/Failed/Steps.antt =====
-- Tenants that have failed, under the steps of a run of provisionTenantSchema.
use flexi.Prelude.{
  ℕ, String, ◌==◌, ==_refl, ◌≡◌, refl, ap, Bool, true, Option, none, some, List, arith,
}
use flexi.Exec.{Failure}
use flexi.Exec.Evolves.{Evolves}
use flexi.Onboarding.{AttemptStatus, StepName, StepOutcome, TenantOnboardingAttempt}
use flexi.Store.{Tenant}
use flexi.Store.Rows.Grows.{Grows-update_many}
use flexi.Store.Platform.{Platform}
use flexi.Store.Tables.{Action}
use flexi.Store.Setup.{update_tenants, update_tenant}
use flexi.Provisioning.{Signal, throw_if_cancelled, write_steps, update_attempt_steps}
use flexi.Provisioning.Steps.{
  Collaborators, in_schema, may_activate, set_tenant_status, record_success, record_failure,
  fail_step, try_step, blocking_step, assign_from_payload, record_delivery, deliver_setup_email,
  swallow_email_failure, send_backup_email, activate_tenant, finish_activation, try_activation,
  fail_activation, activation,
}
use flexi.Provisioning.Compensation.{mark_tenant_failed}
use flexi.Provisioning.Kept.{Respects}
use flexi.Provisioning.Failed.{
  TenantLater, TenantLater-preorder, KeepsFailed, Kept-preorder, kept_rules, Kept-bind, Kept-gets,
  Kept-pure, Kept-raise, Kept-respects,
}

failed-TenantLater : (t : Tenant) → TenantLater t (set_tenant_status "FAILED" t)
failed-TenantLater t = ground arith

-- What the activation touches has not failed.
active-TenantLater :
    (attempt_id tenant_id : String) (a : Option TenantOnboardingAttempt) (t : Tenant)
    → may_activate attempt_id tenant_id a t ≡ true
    → TenantLater t (set_tenant_status "ACTIVE" t)
active-TenantLater attempt_id tenant_id none t h = absurd (ground arith)
active-TenantLater attempt_id tenant_id (some a) t h = record {
  id = refl;
  slug = refl;
  attempt = refl;
  stays_failed =
      λ failed. absurd (ground (arith, ==_refl "FAILED", ap (λ x. x == "FAILED") failed));
}

Kept-update_tenant :
    (id : String) (f : Tenant → Tenant)
    → ((t : Tenant) → TenantLater t (f t))
    → Evolves KeepsFailed (update_tenant id f)
unfolding update_tenant
Kept-update_tenant id f h = record {
  at = λ s. ground (
    arith,
    Kept-preorder.reflexive s,
    Grows-update_many TenantLater-preorder (λ t. t.id == id) f s.tenants (λ t _. h t),
  );
}

pub Kept-mark_tenant_failed : (id : String) → Evolves KeepsFailed (mark_tenant_failed id)
unfolding mark_tenant_failed
Kept-mark_tenant_failed id = search (kept_rules, Kept-update_tenant, failed-TenantLater)

Kept-update_tenants :
    (q : Tenant → Bool) (f : Tenant → Tenant)
    → ((t : Tenant) → q t ≡ true → TenantLater t (f t))
    → Evolves KeepsFailed (update_tenants q f)
unfolding update_tenants
Kept-update_tenants q f h = record {
  at = λ s. record { tenants = Grows-update_many TenantLater-preorder q f s.tenants h };
}

Kept-activate_tenant :
    (attempt_id tenant_id : String) → Evolves KeepsFailed (activate_tenant attempt_id tenant_id)
unfolding activate_tenant
Kept-activate_tenant attempt_id tenant_id =
    Kept-bind _ _ (Kept-gets _)
      (λ a. Kept-update_tenants _ _ (active-TenantLater attempt_id tenant_id a))

module _ (p : Platform) (signal : Signal) where
  pub Kept-throw_if_cancelled : Evolves KeepsFailed (throw_if_cancelled p signal)
  unfolding throw_if_cancelled
  Kept-throw_if_cancelled = search kept_rules

  Kept-write_steps :
      (status : AttemptStatus) (outcomes : List StepOutcome) (a : Option TenantOnboardingAttempt)
      → Evolves KeepsFailed (write_steps p signal status outcomes a)
  unfolding write_steps
  Kept-write_steps status outcomes none = search kept_rules
  Kept-write_steps status outcomes (some a) = search (kept_rules, Kept-throw_if_cancelled)

  pub Kept-update_attempt_steps :
      (id : String) (status : AttemptStatus) (outcomes : List StepOutcome)
      → Evolves KeepsFailed (update_attempt_steps p signal id status outcomes)
  unfolding update_attempt_steps
  Kept-update_attempt_steps id status outcomes =
      search (kept_rules, Kept-throw_if_cancelled, Kept-write_steps) depth 20

  ruleset attempt_rules = (kept_rules, Kept-throw_if_cancelled, Kept-update_attempt_steps)

  module _ (attempt_id tenant_id : String) where
    Kept-fail_step :
        {A : Type 0} (step : StepName) (error_code message : String) (e : Failure)
        → Evolves KeepsFailed
            (fail_step p signal attempt_id tenant_id {A = A} step error_code message e)
    unfolding fail_step record_failure
    Kept-fail_step step error_code message e = search attempt_rules depth 20

    pub Kept-blocking_step :
        {A : Type 0} (step : StepName) (error_code message : String) (work : Action A)
        → Evolves KeepsFailed work
        → Evolves KeepsFailed
            (blocking_step p signal attempt_id tenant_id step error_code message work)
    unfolding blocking_step try_step record_success
    Kept-blocking_step step error_code message work h =
        search (attempt_rules, Kept-fail_step) depth 20

    pub Kept-activation : Evolves KeepsFailed (activation p signal attempt_id tenant_id)
    unfolding activation try_activation finish_activation fail_activation
    Kept-activation = search (attempt_rules, Kept-fail_step, Kept-activate_tenant) depth 20

pub Kept-in_schema :
    {A : Type 0} (tenant_id : String) (work : String → Action A)
    → ((schema : String) → Evolves KeepsFailed (work schema))
    → Evolves KeepsFailed (in_schema tenant_id work)
unfolding in_schema
Kept-in_schema tenant_id work h = search kept_rules

module _ (c : Collaborators) (respects : Respects c) where
  pub Kept-create_schema : (schema : String) → Evolves KeepsFailed (c.create_schema schema)
  Kept-create_schema schema = Kept-respects (respects.create_schema schema)

  pub Kept-drop_schema : (schema : String) → Evolves KeepsFailed (c.drop_schema schema)
  Kept-drop_schema schema = Kept-respects (respects.drop_schema schema)

  pub Kept-ensure_meta_tables : Evolves KeepsFailed c.ensure_meta_tables
  Kept-ensure_meta_tables = Kept-respects respects.ensure_meta_tables

  pub Kept-bootstrap_seed : Evolves KeepsFailed c.bootstrap_seed
  Kept-bootstrap_seed = Kept-respects respects.bootstrap_seed

  pub Kept-assign : (tenant email : String) → Evolves KeepsFailed (c.assign tenant email)
  Kept-assign tenant email = Kept-respects (respects.assign tenant email)

  pub Kept-deactivate : (tenant : String) → Evolves KeepsFailed (c.deactivate tenant)
  Kept-deactivate tenant = Kept-respects (respects.deactivate tenant)

  pub Kept-generate : (tenant : String) → Evolves KeepsFailed (c.generate tenant)
  Kept-generate tenant = Kept-respects (respects.generate tenant)

  pub Kept-revoke_all : (tenant : String) → Evolves KeepsFailed (c.revoke_all tenant)
  Kept-revoke_all tenant = Kept-respects (respects.revoke_all tenant)

  pub Kept-send_setup_invite :
      (email name token : String) → Evolves KeepsFailed (c.send_setup_invite email name token)
  Kept-send_setup_invite email name token =
      Kept-respects (respects.send_setup_invite email name token)

pub ruleset step_rules = (
  kept_rules, Kept-throw_if_cancelled, Kept-update_attempt_steps, Kept-in_schema,
  Kept-blocking_step, Kept-create_schema, Kept-drop_schema, Kept-ensure_meta_tables,
  Kept-bootstrap_seed, Kept-assign, Kept-deactivate, Kept-generate, Kept-revoke_all,
  Kept-send_setup_invite,
)

module _ (p : Platform) (c : Collaborators) (respects : Respects c) (signal : Signal) where
  module _ (attempt_id tenant_id : String) where
    pub Kept-assign_from_payload :
        Evolves KeepsFailed (assign_from_payload p signal attempt_id tenant_id c)
    unfolding assign_from_payload
    Kept-assign_from_payload = search step_rules

    Kept-deliver_setup_email :
        (token : String) (t : ℕ)
        → Evolves KeepsFailed (deliver_setup_email p signal attempt_id tenant_id c token t)
    unfolding deliver_setup_email record_delivery
    Kept-deliver_setup_email token t = search step_rules depth 20

    Kept-swallow_email_failure :
        (t : ℕ) (e : Failure)
        → Evolves KeepsFailed (swallow_email_failure p signal attempt_id tenant_id c t e)
    unfolding swallow_email_failure
    Kept-swallow_email_failure t e = search step_rules depth 20

    pub Kept-send_backup_email :
        (token : String)
        → Evolves KeepsFailed (send_backup_email p signal attempt_id tenant_id c token)
    unfolding send_backup_email
    Kept-send_backup_email token =
        search (step_rules, Kept-deliver_setup_email, Kept-swallow_email_failure) depth 20
