-- ===== src/Provisioning/Intake.antt =====
-- createOnboardingAttempt and checkSlugAvailability of modules/tenants/tenants.service.ts. A request
-- is served as a whole; what it sees of a concurrent insert is a parameter of `find_winning_attempt`.
pub mod Answers
pub mod Keys
pub mod Naming
use flexi.Prelude.{
  ℕ, String, ◌==◌, codes, same, Bool, true, false, not, ◌&&◌, ◌||◌, Option, none, some, List, [],
  ◌∷◌, ◌++◌, map, if◌then◌else◌, leb, eqb, every, length, or_default, is_some,
}
use flexi.Exec.{
  Failure, pure, raise, gets, refuse_if, catch_err, validation_error, forbidden,
  slug_already_in_use, idempotency_conflict, onboarding_reservation_pending, ◌>>=◌, ◌>>◌,
}
use flexi.Onboarding.{
  AttemptStatus, StepName, StepOutcome, PayloadJson, SafePayload, TenantOnboardingAttempt,
}
use flexi.Store.{World}
use flexi.Store.Rows.{find_first}
use flexi.Store.Platform.{Platform}
use flexi.Store.Tables.{Action, now, draw}
use flexi.Store.Setup.{create_onboarding_attempt_row}
use flexi.Auth.Email.{trim_text, normalize_email}
use flexi.Provisioning.{is_accepted, succeeded_step, enqueue_accepted_attempt}
use flexi.Provisioning.Payload.{
  has_no_errors, is_tenant_slug_format_valid, validate_tenant_onboarding_input,
}

-- a field of the body with another value than a text is `none`
pub record CreateRequest : Type 0 where
  pub tenant_name : Option String
  pub tenant_slug : Option String
  pub first_admin_email : Option String
  pub plan : Option String
  pub idempotency_key : Option String

pub record ActorIdentity : Type 0 where
  pub system_user_id : String
  pub identity : String

pub record RequestContext : Type 0 where
  pub request_identity : String
  -- the header
  pub idempotency_key : Option String

pub record AttemptAnswer : Type 0 where
  pub attempt : TenantOnboardingAttempt
  pub replayed : Bool

-- `normalizeCreateRequest`; a missing plan fails the validation like an unknown one
abbrev pub normalize_create_request : Platform → CreateRequest → SafePayload
normalize_create_request p r = record {
  tenant_name = trim_text (or_default r.tenant_name "");
  tenant_slug = trim_text (or_default r.tenant_slug "");
  first_admin_email = normalize_email p (or_default r.first_admin_email "");
  plan = or_default r.plan "";
}

abbrev pub non_empty : String → Option String
non_empty s = if s == "" then none else some s

abbrev pub first_key : Option String → Option String → Option String
first_key (some k) body = some k
first_key none body = body

-- `normalizeIdempotencyIdentity`: the key of the header, or else that of the body
abbrev pub normalize_idempotency_key : Option String → Option String → Option String
normalize_idempotency_key header body =
    first_key (non_empty (trim_text (or_default header "")))
      (non_empty (trim_text (or_default body "")))

-- `[A-Za-z0-9._:-]`
abbrev pub is_key_char : ℕ → Bool
is_key_char c =
    (leb b'A' c && leb c b'Z')
    || (leb b'a' c && leb c b'z')
    || (leb b'0' c && leb c b'9')
    || eqb c b'.'
    || eqb c b'_'
    || eqb c b':'
    || eqb c b'-'

-- The pattern admits ASCII only, so that the length is the number of code points.
unfoldable pub is_idempotency_key_valid : String → Bool
is_idempotency_key_valid key =
    leb 8 (length (codes key)) && leb (length (codes key)) 128 && every is_key_char (codes key)

abbrev pub has_valid_key : Option String → Bool
has_valid_key none = false
has_valid_key (some key) = is_idempotency_key_valid key

abbrev pub json_of : SafePayload → PayloadJson
json_of payload = record {
  tenant_name = some payload.tenant_name;
  tenant_slug = some payload.tenant_slug;
  first_admin_email = some payload.first_admin_email;
  plan = some payload.plan;
}

-- `safePayloadsMatch`
abbrev pub safe_payloads_match : Option PayloadJson → SafePayload → Bool
safe_payloads_match none payload = false
safe_payloads_match (some json) payload =
    same json.tenant_name payload.tenant_name
    && same json.tenant_slug payload.tenant_slug
    && same json.first_admin_email payload.first_admin_email
    && same json.plan payload.plan

abbrev pub find_by_key : String → World → Option TenantOnboardingAttempt
find_by_key key s = find_first (λ a. a.idempotency_key == key) s.onboarding_attempts

-- `isUniqueConstraintViolation`, which looks into the error of a raw query
abbrev pub is_conflict : Failure → Bool
is_conflict Failure.unique_violation = true
is_conflict Failure.raw_unique_violation = true
is_conflict _ = false

unfoldable pub or_search :
    Option TenantOnboardingAttempt
    → Action (Option TenantOnboardingAttempt)
    → Action (Option TenantOnboardingAttempt)
or_search (some a) again = pure (some a)
or_search none again = again

abbrev pub visibility_retry_delays_ms : List ℕ
visibility_retry_delays_ms = 0 ∷ 10 ∷ 25 ∷ []

abbrev pub intake_steps : ℕ → List StepOutcome
intake_steps t =
    succeeded_step StepName.permission_check t none
    ∷ succeeded_step StepName.payload_validation t none
    ∷ succeeded_step StepName.slug_availability t none
    ∷ succeeded_step StepName.attempt_reservation t none
    ∷ []

module _ (p : Platform) (add_job : String → Bool) where
  unfoldable pub enqueue_if_accepted : TenantOnboardingAttempt → Action Unit
  enqueue_if_accepted a =
      if is_accepted a.status then enqueue_accepted_attempt add_job a.id else pure tt

  unfoldable pub resolve_existing_attempt :
      SafePayload → TenantOnboardingAttempt → Action AttemptAnswer
  resolve_existing_attempt payload a = do
    refuse_if (not (safe_payloads_match a.safe_payload payload)) idempotency_conflict
    enqueue_if_accepted a
    pure (record { attempt = a; replayed = true })

  -- whether a reading sees the row that refused the insert, by the tick of the reading
  module _ (sees : ℕ → Bool) where
    unfoldable pub find_winning_attempt : List ℕ → String → Action (Option TenantOnboardingAttempt)
    find_winning_attempt [] key = pure none
    find_winning_attempt (delay ∷ delays) key = do
      seen ← gets (λ s. if sees s.ticks then find_by_key key s else none)
      now p
      or_search seen (find_winning_attempt delays key)

    unfoldable pub answer_winner :
        SafePayload → Option TenantOnboardingAttempt → Action AttemptAnswer
    answer_winner payload none = raise onboarding_reservation_pending
    answer_winner payload (some a) = resolve_existing_attempt payload a

    -- the insert, or the answer to its conflict
    unfoldable pub insert_attempt :
        SafePayload → String → ActorIdentity → RequestContext → Action TenantOnboardingAttempt
    insert_attempt payload key actor context = do
      t ← now p
      n ← draw p
      create_onboarding_attempt_row p.raw_conflict (record {
        id = p.random_uuid n;
        status = AttemptStatus.accepted;
        provisioning_job_id = none;
        safe_payload = some (json_of payload);
        actor_identity = actor.identity;
        request_identity = context.request_identity;
        idempotency_key = key;
        step_outcomes = some (map some (intake_steps t));
      })

    unfoldable pub after_conflict : SafePayload → String → Failure → Action AttemptAnswer
    after_conflict payload key e =
        if is_conflict e
        then (do
          winner ← find_winning_attempt visibility_retry_delays_ms key
          answer_winner payload winner)
        else raise e

    unfoldable pub enqueue_new : AttemptAnswer → Action AttemptAnswer
    enqueue_new answer =
        if answer.replayed
        then pure answer
        else (do enqueue_accepted_attempt add_job answer.attempt.id; pure answer)

    unfoldable pub reserve :
        SafePayload → String → ActorIdentity → RequestContext → Action AttemptAnswer
    reserve payload key actor context = do
      answer ←
          catch_err
            (insert_attempt payload key actor context >>= λ a.
              pure (record { attempt = a; replayed = false }))
            (after_conflict payload key)
      enqueue_new answer

    unfoldable pub reserve_unless :
        SafePayload
        → String
        → ActorIdentity
        → RequestContext
        → Option TenantOnboardingAttempt
        → Action AttemptAnswer
    reserve_unless payload key actor context (some a) = resolve_existing_attempt payload a
    reserve_unless payload key actor context none = do
      taken ← gets (λ s. is_some (find_first (λ t. t.slug == payload.tenant_slug) s.tenants))
      refuse_if taken slug_already_in_use
      reserve payload key actor context

    unfoldable pub create_with_key :
        SafePayload → String → ActorIdentity → RequestContext → Action AttemptAnswer
    create_with_key payload key actor context = do
      active ← gets (λ s.
          is_some (find_first (λ u. u.id == actor.system_user_id && u.is_active) s.system_users))
      refuse_if (not active) forbidden
      existing ← gets (find_by_key key)
      reserve_unless payload key actor context existing

    unfoldable pub create_onboarding_attempt :
        CreateRequest → ActorIdentity → RequestContext → Action AttemptAnswer
    create_onboarding_attempt request actor context = do
      let payload = normalize_create_request p request
      let key = normalize_idempotency_key context.idempotency_key request.idempotency_key
      refuse_if
          (not (has_no_errors (validate_tenant_onboarding_input payload) && has_valid_key key))
          validation_error
      create_with_key payload (or_default key "") actor context

-- `checkSlugAvailability`: the normalised slug and whether it is available
unfoldable pub check_slug_availability : String → Action (String × Bool)
check_slug_availability slug = do
  refuse_if (not (is_tenant_slug_format_valid (trim_text slug))) validation_error
  gets (λ s. (trim_text slug, not (is_some (find_first (λ t. t.slug == trim_text slug) s.tenants))))
