-- ===== src/Provisioning/Recorded.antt =====
-- Which outcomes an attempt has recorded, and what a write of some does.
pub mod Steps
pub mod View
use flexi.Prelude.{
  ℕ, suc, String, ◌==◌, ==_refl, ◌≡◌, refl, sym, ap, ◌∙◌, Bool, true, false, not, ◌&&◌, ◌||◌,
  Option, none, some, List, [], ◌∷◌, map, arith, if◌then◌else◌, eqb, every, any, ◌⊎◌, inl, inr,
  Option-cases, Bool-cases,
}
use flexi.Exec.{Failure, Result, ok, err, gets, refuse_if, ◌>>=◌}
use flexi.Exec.Outcome.{bind-ok}
use flexi.Onboarding.{AttemptStatus, StepName, StepOutcome, TenantOnboardingAttempt}
use flexi.Store.{World}
use flexi.Store.Rows.{find_first, update_many}
use flexi.Store.Rows.Laws.{find_first_sound, find_first-update_many}
use flexi.Store.Platform.{Platform}
use flexi.Store.Tables.{transaction, now}
use flexi.Store.Setup.{update_onboarding_attempts}
use flexi.Provisioning.{
  Signal, is_cancelled, upsert_all, same_step, is_terminal, keep_outcomes, normalize_step_outcomes,
  upsert_step_outcome, with_outcomes, find_attempt, throw_if_cancelled, write_steps,
  update_attempt_steps, update_attempt_step,
}
use flexi.Provisioning.Compensation.{is_succeeded, has_succeeded}

-- Of a step that had succeeded, unless the new outcome replaces it by another result.
pub has_succeeded-upsert :
    (st : StepName) (o : StepOutcome) (xs : List StepOutcome)
    → has_succeeded st xs ≡ true
    → (not (same_step o.step st) || is_succeeded o.status) ≡ true
    → has_succeeded st (upsert_step_outcome xs o) ≡ true
unfolding upsert_step_outcome
has_succeeded-upsert st o [] h k = ground arith
has_succeeded-upsert st o (x ∷ xs) h k = ground (arith, has_succeeded-upsert st o xs)

pub has_succeeded-upserted :
    (o : StepOutcome) (xs : List StepOutcome)
    → is_succeeded o.status ≡ true
    → has_succeeded o.step (upsert_step_outcome xs o) ≡ true
unfolding upsert_step_outcome
has_succeeded-upserted o [] h = ground arith
has_succeeded-upserted o (x ∷ xs) h = ground (arith, has_succeeded-upserted o xs)

-- What was written is what is read.
pub keep_outcomes-some : (xs : List StepOutcome) → keep_outcomes (map some xs) ≡ xs
keep_outcomes-some [] = refl
keep_outcomes-some (x ∷ xs) = ap (λ ys. x ∷ ys) (keep_outcomes-some xs)

abbrev pub recorded : List StepName → List StepOutcome → Bool
recorded steps outcomes = every (λ st. has_succeeded st outcomes) steps

-- The steps of which the outcome `o` does not replace a success by something else.
abbrev pub is_kept_by : StepOutcome → List StepName → Bool
is_kept_by o steps = every (λ st. not (same_step o.step st) || is_succeeded o.status) steps

pub recorded-upsert :
    (o : StepOutcome) (steps : List StepName) (xs : List StepOutcome)
    → recorded steps xs ≡ true
    → is_kept_by o steps ≡ true
    → recorded steps (upsert_step_outcome xs o) ≡ true
recorded-upsert o [] xs h k = refl
recorded-upsert o (st ∷ steps) xs h k =
    ground (arith, has_succeeded-upsert st o xs, recorded-upsert o steps xs)

-- The attempt, unless it has ended, has recorded the steps as succeeded.
pub record Has (id : String) (steps : List StepName) (s : World) : Type 0 where
  pub at :
      (a : TenantOnboardingAttempt)
      → find_attempt id s ≡ some a
      → is_terminal a.status ≡ false
      → recorded steps (normalize_step_outcomes a.step_outcomes) ≡ true

module _ (p : Platform) (signal : Signal) where
  pub throw_if_cancelled-attempts :
      (s : World) → (throw_if_cancelled p signal s).1.onboarding_attempts ≡ s.onboarding_attempts
  unfolding throw_if_cancelled ◌>>=◌ now
  throw_if_cancelled-attempts s = ground arith

  write_steps-ok :
      (status : AttemptStatus) (outcomes : List StepOutcome) (a : TenantOnboardingAttempt)
      (s : World)
      → (write_steps p signal status outcomes (some a) s).0 ≡ ok tt
      → (is_terminal a.status && not (is_terminal status)) ≡ false
      → (write_steps p signal status outcomes (some a) s).1.onboarding_attempts
        ≡ update_many
            (λ b. b.id == a.id)
            (with_outcomes status (upsert_all (normalize_step_outcomes a.step_outcomes) outcomes))
            s.onboarding_attempts
  unfolding write_steps update_onboarding_attempts throw_if_cancelled now ◌>>=◌
  write_steps-ok status outcomes a s h k = ground arith

  write_steps-refused :
      (status : AttemptStatus) (outcomes : List StepOutcome) (a : TenantOnboardingAttempt)
      (s : World)
      → (is_terminal a.status && not (is_terminal status)) ≡ true
      → (write_steps p signal status outcomes (some a) s).1 ≡ s
  unfolding write_steps ◌>>=◌
  write_steps-refused status outcomes a s k = ground arith

  -- a write that returned: the attempt has ended and is left alone, or it has the outcomes
  pub update_attempt_steps-ok :
      (id : String) (status : AttemptStatus) (outcomes : List StepOutcome) (s : World)
      (a : TenantOnboardingAttempt)
      → find_attempt id s ≡ some a
      → (update_attempt_steps p signal id status outcomes s).0 ≡ ok tt
      → (update_attempt_steps p signal id status outcomes s).1.onboarding_attempts ≡ (
          if is_terminal a.status && not (is_terminal status)
          then s.onboarding_attempts
          else update_many
              (λ b. b.id == a.id)
              (with_outcomes status (upsert_all (normalize_step_outcomes a.step_outcomes) outcomes))
              s.onboarding_attempts)
  unfolding update_attempt_steps write_steps transaction ◌>>=◌ throw_if_cancelled now
      update_onboarding_attempts
  update_attempt_steps-ok id status outcomes s a found h = ground arith

  pub update_attempt_steps-none :
      (id : String) (status : AttemptStatus) (outcomes : List StepOutcome) (s : World)
      → find_attempt id s ≡ none
      → (update_attempt_steps p signal id status outcomes s).1.onboarding_attempts
        ≡ s.onboarding_attempts
  unfolding update_attempt_steps transaction write_steps ◌>>=◌ throw_if_cancelled now
  update_attempt_steps-none id status outcomes s found = ground arith

  pub throw_if_cancelled-err :
      (s : World) (e : Failure) → (throw_if_cancelled p signal s).0 ≡ err e → is_cancelled e ≡ true
  unfolding throw_if_cancelled ◌>>=◌ now
  throw_if_cancelled-err s e h = ground arith

  write_steps-err :
      (status : AttemptStatus) (outcomes : List StepOutcome) (a : Option TenantOnboardingAttempt)
      (s : World) (e : Failure)
      → (write_steps p signal status outcomes a s).0 ≡ err e
      → is_cancelled e ≡ true
  unfolding write_steps ◌>>=◌ update_onboarding_attempts
  write_steps-err status outcomes none s e h = absurd (ground arith)
  write_steps-err status outcomes (some a) s e h = ground (arith, throw_if_cancelled-err s e)

  guarded_write-err :
      (id : String) (status : AttemptStatus) (outcomes : List StepOutcome) (s : World) (e : Failure)
      → (transaction
          (throw_if_cancelled p signal >>= λ _.
            gets (find_attempt id) >>= write_steps p signal status outcomes)
          s).0
        ≡ err e
      → (is_cancelled e ≡ true)
        × ((transaction
              (throw_if_cancelled p signal >>= λ _.
                gets (find_attempt id) >>= write_steps p signal status outcomes)
              s).1.onboarding_attempts
            ≡ s.onboarding_attempts)
  unfolding transaction ◌>>=◌
  guarded_write-err id status outcomes s e h = ground (
    arith,
    throw_if_cancelled-err s e,
    write_steps-err status outcomes (find_attempt id (throw_if_cancelled p signal s).1)
        (throw_if_cancelled p signal s).1 e,
  )

  -- a write that did not return was cancelled, and wrote nothing
  pub update_attempt_steps-err :
      (id : String) (status : AttemptStatus) (outcomes : List StepOutcome) (s : World) (e : Failure)
      → (update_attempt_steps p signal id status outcomes s).0 ≡ err e
      → (is_cancelled e ≡ true)
        × ((update_attempt_steps p signal id status outcomes s).1.onboarding_attempts
            ≡ s.onboarding_attempts)
  unfolding update_attempt_steps ◌>>=◌
  update_attempt_steps-err id status outcomes s e h = ground (
    arith,
    throw_if_cancelled-err s e,
    throw_if_cancelled-attempts s,
    guarded_write-err id status outcomes (throw_if_cancelled p signal s).1 e,
  )

  pub update_attempt_steps-tenants :
      (id : String) (status : AttemptStatus) (outcomes : List StepOutcome) (s : World)
      → (update_attempt_steps p signal id status outcomes s).1.tenants ≡ s.tenants
  unfolding update_attempt_steps write_steps transaction ◌>>=◌ throw_if_cancelled now
      update_onboarding_attempts
  update_attempt_steps-tenants id status outcomes s = elim (Option-cases (find_attempt id s)) [
    | inl missing ↦ ground arith
    | inr (a, found) ↦ ground arith
  ]

-- The row that a write finds, afterwards.
pub find_attempt-written :
    (id : String) (status : AttemptStatus) (outcomes : List StepOutcome) (s s' : World)
    (a : TenantOnboardingAttempt)
    → find_attempt id s ≡ some a
    → s'.onboarding_attempts
      ≡ update_many (λ b. b.id == a.id) (with_outcomes status outcomes) s.onboarding_attempts
    → find_attempt id s' ≡ some (with_outcomes status outcomes a)
find_attempt-written id status outcomes s s' a found written = rw written (
    find_first-update_many (λ b. b.id == id) (λ b. b.id == a.id) (with_outcomes status outcomes)
      s.onboarding_attempts a (λ b. refl) found
    ∙ ap (λ b. some (if b then with_outcomes status outcomes a else a)) (==_refl a.id))
