-- ===== src/Provisioning/Recorded/View.antt =====
-- The outcomes of an attempt as a map from steps: what a reader finds after any writes.
use flexi.Prelude.{
  String, ◌==◌, ◌≡◌, refl, sym, ap, ◌∙◌, false, not, ◌&&◌, Option, some, List, [], ◌∷◌, arith,
  if◌then◌else◌,
}
use flexi.Exec.{ok}
use flexi.Onboarding.{AttemptStatus, StepName, StepOutcome, TenantOnboardingAttempt}
use flexi.Store.{World}
use flexi.Store.Rows.{find_first, update_many}
use flexi.Store.Platform.{Platform}
use flexi.Provisioning.{
  Signal, same_step, is_terminal, upsert_step_outcome, upsert_all, find_attempt, outcomes_of,
  normalize_step_outcomes, with_outcomes, update_attempt_steps,
}
use flexi.Provisioning.Recorded.{keep_outcomes-some, update_attempt_steps-ok, find_attempt-written}

-- The abstract view: the outcome of each step, if it has one.
abbrev pub Outcomes : Type 0
Outcomes = StepName → Option StepOutcome

abbrev pub view : List StepOutcome → Outcomes
view xs st = find_first (λ x. same_step x.step st) xs

-- one write of the view, and any number in order
abbrev pub set : Outcomes → StepOutcome → Outcomes
set m o st = if same_step o.step st then some o else m st

abbrev pub replay : List StepOutcome → Outcomes → Outcomes
replay [] m = m
replay (o ∷ os) m = replay os (set m o)

view-upsert :
    (xs : List StepOutcome) (o : StepOutcome) (st : StepName)
    → view (upsert_step_outcome xs o) st ≡ set (view xs) o st
unfolding upsert_step_outcome find_first
view-upsert [] o st = ground arith
view-upsert (x ∷ xs) o st = ground (arith, view-upsert xs o st)

replay-same :
    (os : List StepOutcome) (m n : Outcomes) (st : StepName)
    → ((s : StepName) → m s ≡ n s)
    → replay os m st ≡ replay os n st
replay-same [] m n st h = h st
replay-same (o ∷ os) m n st h =
    replay-same os (set m o) (set n o) st
      (λ s. ap (λ v. if same_step o.step s then some o else v) (h s))

-- The list of outcomes implements the map: after any outcomes, a step has the last one of it among them,
-- or else what it had.
pub upsert_all-refines :
    (os xs : List StepOutcome) (st : StepName) → view (upsert_all xs os) st ≡ replay os (view xs) st
upsert_all-refines [] xs st = refl
upsert_all-refines (o ∷ os) xs st =
    upsert_all-refines os (upsert_step_outcome xs o) st
    ∙ replay-same os (view (upsert_step_outcome xs o)) (set (view xs) o) st (view-upsert xs o)

-- What is written is read: outcomes that were written to an attempt which has not ended, or with a final
-- status, are found under their steps when the column is read again, and every other step as before.
pub update_attempt_steps-read :
    (p : Platform) (signal : Signal) (id : String) (status : AttemptStatus) (os : List StepOutcome)
    (s : World) (a : TenantOnboardingAttempt) (st : StepName)
    → find_attempt id s ≡ some a
    → (is_terminal a.status && not (is_terminal status)) ≡ false
    → (update_attempt_steps p signal id status os s).0 ≡ ok tt
    → view (outcomes_of (find_attempt id (update_attempt_steps p signal id status os s).1)) st
      ≡ replay os (view (outcomes_of (find_attempt id s))) st
update_attempt_steps-read p signal id status os s a st found passes h =
    let outcomes = upsert_all (normalize_step_outcomes a.step_outcomes) os in
    let s' = (update_attempt_steps p signal id status os s).1 in
    let after =
      update_many (λ b. b.id == a.id) (with_outcomes status outcomes) s.onboarding_attempts in
    let there = find_attempt-written id status outcomes s s' a found (
      update_attempt_steps-ok p signal id status os s a found h
      ∙ ap (λ x. if x then s.onboarding_attempts else after) passes) in
    ap (λ o. view (outcomes_of o) st) there
    ∙ ap (λ xs. view xs st) (keep_outcomes-some outcomes)
    ∙ upsert_all-refines os (normalize_step_outcomes a.step_outcomes) st
    ∙ ap (λ o. replay os (view (outcomes_of o)) st) (sym found)
