-- ===== src/Provisioning/Recorded/Steps.antt =====
-- Which steps an attempt has recorded as succeeded: what a write of an outcome adds, and what it keeps.
use flexi.Prelude.{
  String, ◌==◌, ◌≡◌, refl, ap, ◌∙◌, true, ◌&&◌, some, List, [], ◌∷◌, arith, if◌then◌else◌, inl, inr,
  Option-cases, Bool-cases,
}
use flexi.Exec.{ok}
use flexi.Onboarding.{AttemptStatus, StepName, StepOutcome, TenantOnboardingAttempt}
use flexi.Store.{World}
use flexi.Store.Rows.{update_many}
use flexi.Store.Platform.{Platform}
use flexi.Provisioning.{
  Signal, is_terminal, normalize_step_outcomes, upsert_step_outcome, with_outcomes, find_attempt,
  update_attempt_step,
}
use flexi.Provisioning.Compensation.{is_succeeded}
use flexi.Provisioning.Recorded.{
  has_succeeded-upserted, keep_outcomes-some, recorded, is_kept_by, recorded-upsert, Has,
  update_attempt_steps-ok, update_attempt_steps-none, find_attempt-written,
}

-- The attempts as they were.
pub Has-of_same :
    (id : String) (steps : List StepName) (s s' : World)
    → s'.onboarding_attempts ≡ s.onboarding_attempts
    → Has id steps s
    → Has id steps s'
Has-of_same id steps s s' same has = record {
  at = λ a found live. has.at a (rw same at found) live;
}

Has-written :
    (id : String) (o : StepOutcome) (steps : List StepName) (s' : World)
    (a : TenantOnboardingAttempt) (outcomes : List StepOutcome)
    → find_attempt id s' ≡ some (with_outcomes AttemptStatus.provisioning outcomes a)
    → recorded steps outcomes ≡ true
    → Has id steps s'
Has-written id o steps s' a outcomes there all = record {
  at = λ b found live.
      let same : normalize_step_outcomes b.step_outcomes ≡ outcomes =
        ground (arith, found, there, keep_outcomes-some outcomes) in
      rw same all;
}

module _ (p : Platform) (signal : Signal) (id : String) where
  -- What a write of one outcome does to the steps recorded.
  Has-write :
      (o : StepOutcome) (steps steps' : List StepName) (s : World)
      → ((xs : List StepOutcome)
          → recorded steps xs ≡ true
          → recorded steps' (upsert_step_outcome xs o) ≡ true)
      → Has id steps s
      → (update_attempt_step p signal id AttemptStatus.provisioning o s).0 ≡ ok tt
      → Has id steps' (update_attempt_step p signal id AttemptStatus.provisioning o s).1
  Has-write o steps steps' s adds has h =
      let s' = (update_attempt_step p signal id AttemptStatus.provisioning o s).1 in
      elim (Option-cases (find_attempt id s)) [
        | inl missing ↦
            let same =
              update_attempt_steps-none p signal id AttemptStatus.provisioning (o ∷ []) s missing in
            record { at = λ a found live. absurd (ground (arith, rw same at found, missing)) }
        | inr (a, found) ↦
            let written =
              update_attempt_steps-ok p signal id AttemptStatus.provisioning (o ∷ []) s a found h in
            let outcomes = upsert_step_outcome (normalize_step_outcomes a.step_outcomes) o in
            let after =
              update_many (λ b. b.id == a.id) (with_outcomes AttemptStatus.provisioning outcomes)
                s.onboarding_attempts in
            elim (Bool-cases (is_terminal a.status)) [
              | inl ended ↦
                  let same =
                    written ∙ ap (λ x. if x && true then s.onboarding_attempts else after) ended in
                  record { at = λ b there live. absurd (ground (arith, rw same at there, found)) }
              | inr runs ↦
                  Has-written id o steps' s' a outcomes
                    (find_attempt-written id AttemptStatus.provisioning outcomes s s' a found
                      (written ∙ ap (λ x. if x && true then s.onboarding_attempts else after) runs))
                    (adds (normalize_step_outcomes a.step_outcomes) (has.at a found runs))
            ]
      ]

  -- A success is recorded, and no success before it is lost.
  pub Has-succeeded :
      (o : StepOutcome) (steps : List StepName) (s : World)
      → is_succeeded o.status ≡ true
      → Has id steps s
      → (update_attempt_step p signal id AttemptStatus.provisioning o s).0 ≡ ok tt
      → Has id (o.step ∷ steps) (update_attempt_step p signal id AttemptStatus.provisioning o s).1
  Has-succeeded o steps s good has h =
      Has-write o steps (o.step ∷ steps) s
        (λ xs all.
          ground
            (arith, has_succeeded-upserted o xs good, recorded-upsert o steps xs all (kept steps)))
        has h
    where
      kept : (steps : List StepName) → is_kept_by o steps ≡ true
      kept [] = refl
      kept (st ∷ steps) = ground (arith, good, kept steps)

  -- An outcome of another step.
  pub Has-other :
      (o : StepOutcome) (steps : List StepName) (s : World)
      → is_kept_by o steps ≡ true
      → Has id steps s
      → (update_attempt_step p signal id AttemptStatus.provisioning o s).0 ≡ ok tt
      → Has id steps (update_attempt_step p signal id AttemptStatus.provisioning o s).1
  Has-other o steps s kept has h =
      Has-write o steps steps s (λ xs all. recorded-upsert o steps xs all kept) has h
