-- ===== src/Provisioning/Intake/Keys.antt =====
-- Attempts under an idempotency key, whatever requests come.
use flexi.Prelude.{ℕ, String, ◌≡◌, refl, ◌∙◌, Bool, Option, none, some, List, [], ◌∷◌, arith}
use flexi.Exec.{Failure}
use flexi.Exec.Evolves.{Preorder, Evolves, Evolves-bind, Evolves-gets, evolves_rules}
use flexi.Onboarding.{TenantOnboardingAttempt, SafePayload}
use flexi.Store.{World}
use flexi.Store.Rows.Grows.{Grows, Grows-refl, Grows-trans, Grows-append, Grows-update_many}
use flexi.Store.Platform.{Platform}
use flexi.Store.Tables.{Action, now, draw}
use flexi.Store.Setup.{create_onboarding_attempt_row, update_onboarding_attempts}
use flexi.Provisioning.{enqueue_accepted_attempt}
use flexi.Provisioning.Intake.{
  CreateRequest, ActorIdentity, RequestContext, AttemptAnswer, or_search, enqueue_if_accepted,
  resolve_existing_attempt, find_winning_attempt, answer_winner, insert_attempt, after_conflict,
  enqueue_new, reserve, reserve_unless, create_with_key, create_onboarding_attempt,
}

-- An attempt keeps its id, its key and its payload.
pub record AttemptLater (a b : TenantOnboardingAttempt) : Type 0 where
  pub id : b.id ≡ a.id
  pub key : b.idempotency_key ≡ a.idempotency_key
  pub payload : b.safe_payload ≡ a.safe_payload

AttemptLater-preorder : Preorder AttemptLater
AttemptLater-preorder = record {
  reflexive = λ a. record { id = refl; key = refl; payload = refl };
  transitive = λ {a} {b} {c} h k. record {
    id = k.id ∙ h.id;
    key = k.key ∙ h.key;
    payload = k.payload ∙ h.payload;
  };
}

pub record KeepsAttempts (s s' : World) : Type 0 where
  pub attempts : Grows AttemptLater s.onboarding_attempts s'.onboarding_attempts

pub Keeps-preorder : Preorder KeepsAttempts
Keeps-preorder = record {
  reflexive = λ s. record { attempts = Grows-refl AttemptLater-preorder s.onboarding_attempts };
  transitive = λ {a} {b} {c} h k. record {
    attempts =
        Grows-trans AttemptLater-preorder a.onboarding_attempts b.onboarding_attempts
          c.onboarding_attempts h.attempts k.attempts;
  };
}

Keeps-now : (p : Platform) → Evolves KeepsAttempts (now p)
unfolding now
Keeps-now p = record { at = λ s. record { attempts = (Keeps-preorder.reflexive s).attempts } }

Keeps-draw : (p : Platform) → Evolves KeepsAttempts (draw p)
unfolding draw
Keeps-draw p = record { at = λ s. record { attempts = (Keeps-preorder.reflexive s).attempts } }

Keeps-create :
    (conflict : Failure) (row : TenantOnboardingAttempt)
    → Evolves KeepsAttempts (create_onboarding_attempt_row conflict row)
unfolding create_onboarding_attempt_row
Keeps-create conflict row = record {
  at = λ s. ground (
    arith,
    Keeps-preorder.reflexive s,
    Grows-append AttemptLater-preorder s.onboarding_attempts (row ∷ []),
  );
}

Keeps-update :
    (q : TenantOnboardingAttempt → Bool) (f : TenantOnboardingAttempt → TenantOnboardingAttempt)
    → ((a : TenantOnboardingAttempt) → AttemptLater a (f a))
    → Evolves KeepsAttempts (update_onboarding_attempts q f)
unfolding update_onboarding_attempts
Keeps-update q f h = record {
  at = λ s. record {
    attempts = Grows-update_many AttemptLater-preorder q f s.onboarding_attempts (λ a _. h a);
  };
}

Keeps-link :
    (q : TenantOnboardingAttempt → Bool) (job : String)
    → Evolves KeepsAttempts
        (update_onboarding_attempts q (λ a. record a { provisioning_job_id = some job }))
Keeps-link q job = Keeps-update q _ (λ a. record { id = refl; key = refl; payload = refl })

Keeps-enqueue :
    (add_job : String → Bool) (id : String)
    → Evolves KeepsAttempts (enqueue_accepted_attempt add_job id)
unfolding enqueue_accepted_attempt
Keeps-enqueue add_job id = search (evolves_rules, Keeps-preorder, Keeps-link)

ruleset keeps_rules =
    (evolves_rules, Keeps-preorder, Keeps-now, Keeps-draw, Keeps-create, Keeps-enqueue)

Keeps-or_search :
    (o : Option TenantOnboardingAttempt) (m : Action (Option TenantOnboardingAttempt))
    → Evolves KeepsAttempts m
    → Evolves KeepsAttempts (or_search o m)
unfolding or_search
Keeps-or_search none m h = h
Keeps-or_search (some a) m h = search keeps_rules

module _ (p : Platform) (add_job : String → Bool) where
  Keeps-enqueue_if_accepted :
      (a : TenantOnboardingAttempt) → Evolves KeepsAttempts (enqueue_if_accepted p add_job a)
  unfolding enqueue_if_accepted
  Keeps-enqueue_if_accepted a = search keeps_rules

  pub Keeps-resolve :
      (payload : SafePayload) (a : TenantOnboardingAttempt)
      → Evolves KeepsAttempts (resolve_existing_attempt p add_job payload a)
  unfolding resolve_existing_attempt
  Keeps-resolve payload a = search (keeps_rules, Keeps-enqueue_if_accepted)

  module _ (sees : ℕ → Bool) where
    Keeps-find_winning :
        (delays : List ℕ) (key : String)
        → Evolves KeepsAttempts (find_winning_attempt p add_job sees delays key)
    unfolding find_winning_attempt
    Keeps-find_winning [] key = search keeps_rules
    Keeps-find_winning (d ∷ delays) key =
        let rest = Keeps-find_winning delays key in
        Evolves-bind Keeps-preorder _ _ (Evolves-gets Keeps-preorder _)
          (λ seen. Evolves-bind Keeps-preorder _ _ (Keeps-now p) (λ _. Keeps-or_search seen _ rest))

    Keeps-answer_winner :
        (payload : SafePayload) (o : Option TenantOnboardingAttempt)
        → Evolves KeepsAttempts (answer_winner p add_job sees payload o)
    unfolding answer_winner
    Keeps-answer_winner payload none = search keeps_rules
    Keeps-answer_winner payload (some a) = Keeps-resolve payload a

    Keeps-after_conflict :
        (payload : SafePayload) (key : String) (e : Failure)
        → Evolves KeepsAttempts (after_conflict p add_job sees payload key e)
    unfolding after_conflict
    Keeps-after_conflict payload key e =
        search (keeps_rules, Keeps-find_winning, Keeps-answer_winner)

    Keeps-insert :
        (payload : SafePayload) (key : String) (actor : ActorIdentity) (context : RequestContext)
        → Evolves KeepsAttempts (insert_attempt p add_job sees payload key actor context)
    unfolding insert_attempt
    Keeps-insert payload key actor context = search keeps_rules

    pub Keeps-enqueue_new :
        (x : AttemptAnswer) → Evolves KeepsAttempts (enqueue_new p add_job sees x)
    unfolding enqueue_new
    Keeps-enqueue_new x = search keeps_rules

    Keeps-reserve :
        (payload : SafePayload) (key : String) (actor : ActorIdentity) (context : RequestContext)
        → Evolves KeepsAttempts (reserve p add_job sees payload key actor context)
    unfolding reserve
    Keeps-reserve payload key actor context =
        search (keeps_rules, Keeps-insert, Keeps-after_conflict, Keeps-enqueue_new) depth 20

    Keeps-reserve_unless :
        (payload : SafePayload) (key : String) (actor : ActorIdentity) (context : RequestContext)
        (o : Option TenantOnboardingAttempt)
        → Evolves KeepsAttempts (reserve_unless p add_job sees payload key actor context o)
    unfolding reserve_unless
    Keeps-reserve_unless payload key actor context none = search (keeps_rules, Keeps-reserve)
    Keeps-reserve_unless payload key actor context (some a) = Keeps-resolve payload a

    pub Keeps-create_with_key :
        (payload : SafePayload) (key : String) (actor : ActorIdentity) (context : RequestContext)
        → Evolves KeepsAttempts (create_with_key p add_job sees payload key actor context)
    unfolding create_with_key
    Keeps-create_with_key payload key actor context = search (keeps_rules, Keeps-reserve_unless)

    pub Keeps-create_attempt :
        (request : CreateRequest) (actor : ActorIdentity) (context : RequestContext)
        → Evolves KeepsAttempts (create_onboarding_attempt p add_job sees request actor context)
    unfolding create_onboarding_attempt
    Keeps-create_attempt request actor context = search (keeps_rules, Keeps-create_with_key)
