-- ===== src/Provisioning/Failed.antt =====
-- Tenants that have failed, under the parts of modules/tenants/provisioning.service.ts: rules for actions.
pub mod Parts
pub mod Steps
pub mod Runs
use flexi.Prelude.{
  String, ◌==◌, ==_refl, ◌≡◌, refl, ap, ◌∙◌, Bool, true, false, Option, none, some, [], ◌∷◌, List,
  arith, if◌then◌else◌,
}
use flexi.Exec.{Failure, Result, ok, err, pure, raise, gets, refuse_if, catch_err, handle, ◌>>=◌}
use flexi.Exec.Evolves.{
  Preorder, Evolves, Evolves-pure, Evolves-raise, Evolves-gets, Evolves-refuse_if, Evolves-if,
  Evolves-bind,
}
use flexi.Onboarding.{
  AttemptStatus, StepName, StepOutcome, TenantOnboardingAttempt, TenantOnboardingAuditLog,
  SafePayload, CompensationOutcome, CompensationAction,
}
use flexi.Store.{Tenant, Cls, World}
use flexi.Store.Rows.Grows.{Grows, Grows-refl, Grows-trans, Grows-append, Grows-update_many}
use flexi.Store.Platform.{Platform, DeliveryOutcome}
use flexi.Store.Tables.{Action, settle, transaction, now, draw}
use flexi.Store.Setup.{
  update_tenants, create_tenant, update_tenant, update_onboarding_attempts, upsert_onboarding_audit,
}
use flexi.Auth.Service.{lift_option}
use flexi.Tenancy.{resolve_tenant_schema}
use flexi.Provisioning.{
  Signal, throw_if_cancelled, write_steps, update_attempt_steps, claim_found, claim_attempt,
  reset_attempt_status,
}
use flexi.Provisioning.Steps.{
  Collaborators, run_with, lift_result, in_schema, may_activate, set_tenant_status, record_success,
  record_failure, fail_step, try_step, blocking_step, create_tenant_schema, bootstrap_tenant_schema,
  bootstrap_tenant_seed, assign_from_payload, assign_first_admin, generate_setup_link,
  record_delivery, deliver_setup_email, swallow_email_failure, send_backup_email, activate_tenant,
  try_activation, fail_activation, activation,
}
use flexi.Provisioning.Compensation.{
  run_compensation_sub_step, compensate_schema, run_compensation, mark_tenant_failed,
}
use flexi.Provisioning.Lifecycle.{
  create_tenant_id, write_audit, try_audit, finalize_audit, record_tenant_creation_success,
  record_tenant_creation_failure, insert_tenant, insert_unless, create_or_resolve_tenant,
  settle_failure, try_failure, handle_provisioning_failure, provision_steps,
  compensate_unless_cancelled, provision_tenant_schema, resume_provisioning, resume_from,
  create_recorded_tenant, resolve_conflict, creation_refused, creation_failed, provision_created,
  provision_payload, provision_claimed, start_from, start_lifecycle, finish_timeout,
  record_provisioning_timeout, process,
}
use flexi.Provisioning.Kept.{SameOnboarding, Respects}

-- A tenant keeps its id, slug and attempt, and stays failed.
pub record TenantLater (t t' : Tenant) : Type 0 where
  pub id : t'.id ≡ t.id
  pub slug : t'.slug ≡ t.slug
  pub attempt : t'.onboarding_attempt_id ≡ t.onboarding_attempt_id
  pub stays_failed : t.status ≡ "FAILED" → t'.status ≡ "FAILED"

pub TenantLater-preorder : Preorder TenantLater
TenantLater-preorder = record {
  reflexive = λ t. ground arith;
  transitive = λ {a} {b} {c} h k. ground arith;
}

pub record KeepsFailed (s s' : World) : Type 0 where
  pub tenants : Grows TenantLater s.tenants s'.tenants

pub Kept-preorder : Preorder KeepsFailed
Kept-preorder = record {
  reflexive = λ s. record { tenants = Grows-refl TenantLater-preorder s.tenants };
  transitive = λ {a} {b} {c} h k. record {
    tenants = Grows-trans TenantLater-preorder a.tenants b.tenants c.tenants h.tenants k.tenants;
  };
}

pub Kept-pure : {A : Type 0} (a : A) → Evolves KeepsFailed (pure {S = World} a)
Kept-pure a = Evolves-pure Kept-preorder a

pub Kept-raise : {A : Type 0} (e : Failure) → Evolves KeepsFailed (raise {S = World} {A = A} e)
Kept-raise e = Evolves-raise Kept-preorder e

pub Kept-gets : {A : Type 0} (f : World → A) → Evolves KeepsFailed (gets f)
Kept-gets f = Evolves-gets Kept-preorder f

pub Kept-refuse_if : (b : Bool) (e : Failure) → Evolves KeepsFailed (refuse_if {S = World} b e)
Kept-refuse_if b e = Evolves-refuse_if Kept-preorder b e

pub Kept-if :
    {A : Type 0} (b : Bool) (m n : Action A)
    → Evolves KeepsFailed m
    → Evolves KeepsFailed n
    → Evolves KeepsFailed (if b then m else n)
Kept-if b m n h k = Evolves-if b m n h k

pub Kept-bind :
    {A B : Type 0} (m : Action A) (f : A → Action B)
    → Evolves KeepsFailed m
    → ((a : A) → Evolves KeepsFailed (f a))
    → Evolves KeepsFailed (m >>= f)
Kept-bind m f h k = Evolves-bind Kept-preorder m f h k

pub Kept-handle :
    {A : Type 0} (r : Result A) (h : Failure → Action A) (s : World)
    → ((e : Failure) → Evolves KeepsFailed (h e))
    → KeepsFailed s (handle r h s).1
Kept-handle (ok a) h s k = Kept-preorder.reflexive s
Kept-handle (err e) h s k = (k e).at s

pub Kept-catch_err :
    {A : Type 0} (m : Action A) (h : Failure → Action A)
    → Evolves KeepsFailed m
    → ((e : Failure) → Evolves KeepsFailed (h e))
    → Evolves KeepsFailed (catch_err m h)
unfolding catch_err
Kept-catch_err m h k l = record {
  at = λ s. let (r, s') = m s in Kept-preorder.transitive (k.at s) (Kept-handle r h s' l);
}

pub Kept-settle :
    {A : Type 0} (s s' : World) (r : Result A) → KeepsFailed s s' → KeepsFailed s (settle s r s').1
Kept-settle s s' (ok a) h = h
Kept-settle s s' (err e) h = record { tenants = Grows-refl TenantLater-preorder s.tenants }

pub Kept-transaction :
    {A : Type 0} (m : Action A) → Evolves KeepsFailed m → Evolves KeepsFailed (transaction m)
unfolding transaction
Kept-transaction m h = record { at = λ s. let (r, s') = m s in Kept-settle s s' r (h.at s) }

-- An action that leaves the tenants alone.
pub Kept-of_same : {s s' : World} → s'.tenants ≡ s.tenants → KeepsFailed s s'
Kept-of_same {s} h = record { tenants = rw h (Grows-refl TenantLater-preorder s.tenants) }

pub Kept-respects : {A : Type 0} {m : Action A} → Evolves SameOnboarding m → Evolves KeepsFailed m
Kept-respects h = record { at = λ s. Kept-of_same (h.at s).tenants }

pub Kept-run_with :
    {A : Type 0} (context : Cls) (m : Action A)
    → Evolves KeepsFailed m
    → Evolves KeepsFailed (run_with context m)
unfolding run_with
Kept-run_with context m h = record {
  at = λ s. record { tenants = (h.at (record s { cls = context })).tenants };
}

pub Kept-lift_option :
    {A : Type 0} (e : Failure) (o : Option A) → Evolves KeepsFailed (lift_option e o)
Kept-lift_option e none = Kept-raise e
Kept-lift_option e (some a) = Kept-pure a

pub Kept-lift_result : {A : Type 0} (r : Result A) → Evolves KeepsFailed (lift_result r)
Kept-lift_result r = record { at = λ s. Kept-preorder.reflexive s }

pub Kept-now : (p : Platform) → Evolves KeepsFailed (now p)
unfolding now
Kept-now p = record { at = λ s. Kept-of_same refl }

pub Kept-draw : (p : Platform) → Evolves KeepsFailed (draw p)
unfolding draw
Kept-draw p = record { at = λ s. Kept-of_same refl }

pub Kept-update_onboarding_attempts :
    (q : TenantOnboardingAttempt → Bool) (f : TenantOnboardingAttempt → TenantOnboardingAttempt)
    → Evolves KeepsFailed (update_onboarding_attempts q f)
unfolding update_onboarding_attempts
Kept-update_onboarding_attempts q f = record { at = λ s. Kept-of_same refl }

pub Kept-upsert_onboarding_audit :
    (row : TenantOnboardingAuditLog) → Evolves KeepsFailed (upsert_onboarding_audit row)
unfolding upsert_onboarding_audit
Kept-upsert_onboarding_audit row = record { at = λ s. Kept-of_same refl }

pub Kept-create_tenant :
    (conflict : Failure) (row : Tenant) → Evolves KeepsFailed (create_tenant conflict row)
unfolding create_tenant
Kept-create_tenant conflict row = record {
  at = λ s.
      ground
        (arith, Kept-preorder.reflexive s, Grows-append TenantLater-preorder s.tenants (row ∷ []));
}

pub ruleset kept_rules = (
  Kept-pure, Kept-raise, Kept-gets, Kept-refuse_if, Kept-if, Kept-bind, Kept-catch_err,
  Kept-transaction, Kept-run_with, Kept-lift_option, Kept-lift_result, Kept-now, Kept-draw,
  Kept-update_onboarding_attempts, Kept-upsert_onboarding_audit, Kept-create_tenant,
)
