-- ===== src/Provisioning/Activated.antt =====
-- What the steps of a run of provisionTenantSchema have recorded before the activation.
pub mod Activation
pub mod Run
use flexi.Prelude.{
  ℕ, suc, String, ◌==◌, ==_refl, ◌≡◌, ◌≢◌, refl, sym, ap, ◌∙◌, Bool, true, false, not, ◌&&◌, ◌||◌,
  Option, none, some, List, [], ◌∷◌, arith, if◌then◌else◌, eqb, Option-cases, Bool-cases, inl, inr,
}
use flexi.Exec.{
  Failure, Result, ok, err, Exec, pure, raise, gets, refuse_if, catch_err, handle, ◌>>=◌,
}
use flexi.Exec.Outcome.{bind-ok, Result-cases}
use flexi.Exec.Evolves.{
  Preorder, Evolves, Evolves-pure, Evolves-raise, Evolves-gets, Evolves-refuse_if, Evolves-if,
  Evolves-bind,
}
use flexi.Onboarding.{AttemptStatus, StepName, StepOutcome, TenantOnboardingAttempt}
use flexi.Store.{World}
use flexi.Store.Platform.{Platform, DeliveryOutcome}
use flexi.Store.Tables.{Action, transaction, now}
use flexi.Provisioning.{
  Signal, step_number, is_cancelled, find_attempt, throw_if_cancelled, write_steps,
  update_attempt_steps, update_attempt_step, succeeded_step,
}
use flexi.Provisioning.Steps.{
  Collaborators, in_schema, record_success, record_failure, fail_step, try_step, blocking_step,
  record_delivery, deliver_setup_email, swallow_email_failure, send_backup_email,
}
use flexi.Provisioning.Kept.{
  SameOnboarding, Respects, same_rules, Same-in_schema, Same-lift_option, Same-gets, Same-raise,
  Same-pure, Same-now,
}
use flexi.Provisioning.Recorded.{
  Has, throw_if_cancelled-attempts, is_kept_by, recorded, update_attempt_steps-err,
  update_attempt_steps-ok, update_attempt_steps-tenants, find_attempt-written, recorded-upsert,
}
use flexi.Provisioning.Recorded.Steps.{Has-of_same, Has-succeeded, Has-other}

-- A `try` whose `catch` always raises: what returned is the body.
pub catch_err-ok :
    {A : Type 0} (m : Action A) (h : Failure → Action A) (s : World) (a : A)
    → ((e : Failure) (s' : World) → (h e s').0 ≢ ok a)
    → (catch_err m h s).0 ≡ ok a
    → ((m s).0 ≡ ok a) × ((catch_err m h s).1 ≡ (m s).1)
unfolding catch_err
catch_err-ok {A = A} m h s a raises returned = from (m s).0 refl
  where
    from : (r : Result A) → (m s).0 ≡ r → ((m s).0 ≡ ok a) × ((catch_err m h s).1 ≡ (m s).1)
    from (ok b) e = ground (arith, e, returned)
    from (err f) e = absurd (raises f (m s).1 (ground (arith, e, returned)))

module _ (p : Platform) (signal : Signal) (attempt_id tenant_id : String) where
  pub fail_step-raises :
      {A : Type 0} (step : StepName) (error_code message : String) (e : Failure) (s : World) (a : A)
      → (fail_step p signal attempt_id tenant_id step error_code message e s).0 ≢ ok a
  unfolding fail_step ◌>>=◌
  fail_step-raises step error_code message e s a = ground arith

  record_success-Has :
      (step : StepName) (steps : List StepName) (s : World)
      → Has attempt_id steps s
      → (record_success p signal attempt_id tenant_id step s).0 ≡ ok tt
      → Has attempt_id (step ∷ steps) (record_success p signal attempt_id tenant_id step s).1
  unfolding record_success ◌>>=◌ now
  record_success-Has step steps s has h =
      let s₁ = record s { ticks = suc s.ticks } in
      Has-succeeded p signal attempt_id (succeeded_step step (p.clock s.ticks) (some tenant_id))
        steps s₁ refl (Has-of_same attempt_id steps s s₁ refl has) h

  try_step-Has :
      {A : Type 0} (step : StepName) (work : Action A) (steps : List StepName) (s : World) (a : A)
      → Evolves SameOnboarding work
      → Has attempt_id steps s
      → (try_step p signal attempt_id tenant_id step work s).0 ≡ ok a
      → Has attempt_id (step ∷ steps) (try_step p signal attempt_id tenant_id step work s).1
  unfolding try_step ◌>>=◌
  try_step-Has {A = A} step work steps s a same has h =
      let record_it = record_success p signal attempt_id tenant_id step in
      let rest : A → Action A = λ b. record_it >>= λ _. pure b in
      let (_, _, h₁, e₁) = bind-ok (throw_if_cancelled p signal) (λ _. work >>= rest) s h in
      let s₁ = (throw_if_cancelled p signal s).1 in
      let (b, _, h₂, e₂) = bind-ok work rest s₁ h₁ in
      let s₂ = (work s₁).1 in
      let (_, recorded, _, e₃) = bind-ok record_it (λ _. pure b) s₂ h₂ in
      let has₂ =
        Has-of_same attempt_id steps s s₂
          ((same.at s₁).attempts ∙ throw_if_cancelled-attempts p signal s) has in
      rw (e₁, e₂, e₃) (record_success-Has step steps s₂ has₂ recorded)

  -- A blocking step that returned has recorded its success, and lost none.
  pub blocking_step-Has :
      {A : Type 0} (step : StepName) (error_code message : String) (work : Action A)
      (steps : List StepName) (s : World) (a : A)
      → Evolves SameOnboarding work
      → Has attempt_id steps s
      → (blocking_step p signal attempt_id tenant_id step error_code message work s).0 ≡ ok a
      → Has attempt_id
          (step ∷ steps)
          (blocking_step p signal attempt_id tenant_id step error_code message work s).1
  unfolding blocking_step
  blocking_step-Has step error_code message work steps s a same has h =
      let (tried, e) =
        catch_err-ok (try_step p signal attempt_id tenant_id step work)
          (fail_step p signal attempt_id tenant_id step error_code message) s a
          (λ f s'. fail_step-raises step error_code message f s' a) h in
      rw e (try_step-Has step work steps s a same has tried)

-- What keeps the recorded steps, whether it returns or raises.
pub record HasKept (id : String) (steps : List StepName) (s s' : World) : Type 0 where
  pub kept : Has id steps s → Has id steps s'

module _ (id : String) (steps : List StepName) where
  HasKept-preorder : Preorder (HasKept id steps)
  HasKept-preorder = record {
    reflexive = λ s. record { kept = λ h. h };
    transitive = λ {a} {b} {c} h k. record { kept = λ x. k.kept (h.kept x) };
  }

  HasKept-same :
      {s s' : World} → s'.onboarding_attempts ≡ s.onboarding_attempts → HasKept id steps s s'
  HasKept-same {s} {s'} same = record { kept = Has-of_same id steps s s' same }

  HasKept-respects :
      {A : Type 0} {m : Action A} → Evolves SameOnboarding m → Evolves (HasKept id steps) m
  HasKept-respects h = record { at = λ s. HasKept-same (h.at s).attempts }

  HasKept-bind :
      {A B : Type 0} (m : Action A) (f : A → Action B)
      → Evolves (HasKept id steps) m
      → ((a : A) → Evolves (HasKept id steps) (f a))
      → Evolves (HasKept id steps) (m >>= f)
  HasKept-bind m f h k = Evolves-bind HasKept-preorder m f h k

  HasKept-handle :
      {A : Type 0} (r : Result A) (h : Failure → Action A) (s : World)
      → ((e : Failure) → Evolves (HasKept id steps) (h e))
      → HasKept id steps s (handle r h s).1
  HasKept-handle (ok a) h s k = HasKept-preorder.reflexive s
  HasKept-handle (err e) h s k = (k e).at s

  HasKept-catch_err :
      {A : Type 0} (m : Action A) (h : Failure → Action A)
      → Evolves (HasKept id steps) m
      → ((e : Failure) → Evolves (HasKept id steps) (h e))
      → Evolves (HasKept id steps) (catch_err m h)
  unfolding catch_err
  HasKept-catch_err m h k l = record {
    at = λ s. HasKept-preorder.transitive (k.at s) (HasKept-handle (m s).0 h (m s).1 l);
  }

  HasKept-write :
      (p : Platform) (signal : Signal) (o : StepOutcome)
      → is_kept_by o steps ≡ true
      → Evolves (HasKept id steps) (update_attempt_step p signal id AttemptStatus.provisioning o)
  HasKept-write p signal o kept = record { at = λ s. from s _ refl }
    where
      from :
          (s : World) (r : Result Unit)
          → (update_attempt_step p signal id AttemptStatus.provisioning o s).0 ≡ r
          → HasKept id steps s (update_attempt_step p signal id AttemptStatus.provisioning o s).1
      from s (ok _) h = record { kept = λ has. Has-other p signal id o steps s kept has h }
      from s (err e) h =
          HasKept-same
            (update_attempt_steps-err p signal id AttemptStatus.provisioning (o ∷ []) s e h).1

  HasKept-if :
      {A : Type 0} (b : Bool) (m n : Action A)
      → Evolves (HasKept id steps) m
      → Evolves (HasKept id steps) n
      → Evolves (HasKept id steps) (if b then m else n)
  HasKept-if b m n h k = Evolves-if b m n h k

is_kept_by-if :
    (b : Bool) (o o' : StepOutcome) (steps : List StepName)
    → is_kept_by o steps ≡ true
    → is_kept_by o' steps ≡ true
    → is_kept_by (if b then o else o') steps ≡ true
is_kept_by-if true o o' steps h k = h
is_kept_by-if false o o' steps h k = k

-- The steps before the backup email.
abbrev pub steps_before_email : List StepName
steps_before_email =
    StepName.setup_link_generated ∷ StepName.first_admin_assigned ∷ StepName.bootstrap_seeded
    ∷ StepName.bootstrap_migrated ∷ StepName.schema_created ∷ []

module _ (p : Platform) (signal : Signal) (c : Collaborators) (respects : Respects c)
    (id tenant_id : String) where
  pub throw-Same : Evolves SameOnboarding (throw_if_cancelled p signal)
  unfolding throw_if_cancelled
  throw-Same = search same_rules

  record_delivery-HasKept :
      (t : ℕ) (outcome : DeliveryOutcome)
      → Evolves (HasKept id steps_before_email) (record_delivery p signal id tenant_id c t outcome)
  unfolding record_delivery step_number
  record_delivery-HasKept t outcome =
      HasKept-write id steps_before_email p signal _
        (is_kept_by-if outcome.delivered _ _ steps_before_email refl refl)

  deliver_setup_email-HasKept :
      (token : String) (t : ℕ)
      → Evolves
          (HasKept id steps_before_email)
          (deliver_setup_email p signal id tenant_id c token t)
  unfolding deliver_setup_email
  deliver_setup_email-HasKept token t =
      search
        (
          HasKept-bind, HasKept-respects, throw-Same, Same-gets, Same-lift_option,
          respects.send_setup_invite, record_delivery-HasKept,
        )
        depth 20

  swallow_email_failure-HasKept :
      (t : ℕ) (e : Failure)
      → Evolves (HasKept id steps_before_email) (swallow_email_failure p signal id tenant_id c t e)
  unfolding swallow_email_failure step_number
  swallow_email_failure-HasKept t e =
      HasKept-if id steps_before_email (is_cancelled e) _ _
        (HasKept-respects id steps_before_email (Same-raise e))
        (HasKept-catch_err id steps_before_email _ _
          (HasKept-write id steps_before_email p signal _ refl)
          (λ f.
            HasKept-if id steps_before_email (is_cancelled f) _ _
              (HasKept-respects id steps_before_email (Same-raise f))
              (HasKept-respects id steps_before_email (Same-pure tt))))

  -- The backup email records its own outcome and no other, whatever becomes of it.
  pub send_backup_email-HasKept :
      (token : String)
      → Evolves (HasKept id steps_before_email) (send_backup_email p signal id tenant_id c token)
  unfolding send_backup_email
  send_backup_email-HasKept token =
      search
        (
          HasKept-bind, HasKept-respects, HasKept-catch_err, Same-now, deliver_setup_email-HasKept,
          swallow_email_failure-HasKept,
        )
        depth 20
