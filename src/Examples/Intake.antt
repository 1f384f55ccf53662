-- ===== src/Examples/Intake.antt =====
-- Two requests for the onboarding of a tenant under one key, and one between them.
use flexi.Prelude.{◌≡◌, refl, true, false, none, some, [], ◌∷◌, String, Bool, List}
use flexi.Exec.{idempotency_conflict, Result, ok, err, catch_err, ◌>>=◌}
use flexi.Onboarding.{AttemptStatus, SafePayload, TenantOnboardingAttempt}
use flexi.Store.{World}
use flexi.Store.Rows.{find_first, count, update_many}
use flexi.Store.Tables.{now, draw}
use flexi.Store.Setup.{create_onboarding_attempt_row, update_onboarding_attempts}
use flexi.Auth.Email.{trim_text, trim_text_start, trim_text_end, push_kept, normalize_email}
use flexi.Auth.Duration.{is_space}
use flexi.Provisioning.{enqueue_accepted_attempt}
use flexi.Provisioning.Payload.{
  validate_tenant_onboarding_input, is_tenant_slug_format_valid, matches_email, split_at,
}
use flexi.Provisioning.Intake.{
  ActorIdentity, RequestContext, AttemptAnswer, is_idempotency_key_valid, enqueue_if_accepted,
  resolve_existing_attempt, insert_attempt, enqueue_new, reserve, reserve_unless, create_with_key,
  create_onboarding_attempt,
}
use flexi.Provisioning.Intake.Naming.{
  Answers, IntakeRequest, run_intake, create_with_key-run-create_with_key,
}
use flexi.Examples.{platform, world}

abbrev payload : SafePayload
payload = record {
  tenant_name = "Birch";
  tenant_slug = "birch";
  first_admin_email = "dora@birch.test";
  plan = "starter";
}

abbrev system_actor : ActorIdentity
system_actor = record { system_user_id = "op"; identity = "op" }

abbrev context : RequestContext
context = record { request_identity = "req-1"; idempotency_key = some "onboard-birch" }

-- the queue takes every job
abbrev takes : String → Bool
takes job = true

-- another tenant, under a key of its own
abbrev others : List IntakeRequest
others =
    record {
      sees = λ n. true;
      request = record {
        tenant_name = some "Cedar";
        tenant_slug = some "cedar";
        first_admin_email = some "eve@cedar.test";
        plan = some "growth";
        idempotency_key = some "onboard-cedar";
      };
      actor = system_actor;
      context = record { request_identity = "req-2"; idempotency_key = none };
    }
    ∷ []

abbrev no_attempt : TenantOnboardingAttempt
no_attempt = record {
  id = "";
  status = AttemptStatus.failed;
  provisioning_job_id = none;
  safe_payload = none;
  actor_identity = "";
  request_identity = "";
  idempotency_key = "";
  step_outcomes = none;
}

-- The same request with another plan.
abbrev other_payload : SafePayload
other_payload = record payload { plan = "enterprise" }

abbrev answer_of : Result AttemptAnswer → AttemptAnswer
answer_of (ok x) = x
answer_of (err e) = record { attempt = no_attempt; replayed = false }

abbrev create : World → Result AttemptAnswer × World
create s = create_with_key platform takes (λ n. true) payload "onboard-birch" system_actor context s

abbrev later_world : World
later_world = run_intake platform takes others (create world).1

first_answered : (create world).0 ≡ ok (answer_of (create world).0)
unfolding create_with_key reserve_unless reserve insert_attempt create_onboarding_attempt_row
    catch_err ◌>>=◌ now draw enqueue_new enqueue_accepted_attempt update_onboarding_attempts
    find_first count update_many
first_answered = refl

create_with_key-run-create_with_key_example :
    Answers platform takes
      (answer_of (create world).0).attempt.safe_payload
      (answer_of (create world).0).attempt.id
      other_payload
      system_actor
      later_world
      (create_with_key platform takes
        (λ n. true)
        other_payload
        "onboard-birch"
        system_actor
        context
        later_world).0
create_with_key-run-create_with_key_example =
    create_with_key-run-create_with_key platform takes (λ n. true) (λ n. true) payload other_payload
      "onboard-birch" system_actor system_actor context context others world
      (answer_of (create world).0) first_answered

second_conflicts :
    (create_with_key platform takes
      (λ n. true)
      other_payload
      "onboard-birch"
      system_actor
      context
      later_world).0
    ≡ err idempotency_conflict
unfolding create_with_key reserve_unless reserve insert_attempt create_onboarding_attempt_row
    catch_err ◌>>=◌ now draw enqueue_new enqueue_accepted_attempt update_onboarding_attempts
    find_first count update_many resolve_existing_attempt enqueue_if_accepted
    create_onboarding_attempt validate_tenant_onboarding_input is_tenant_slug_format_valid
    matches_email split_at trim_text trim_text_start trim_text_end push_kept is_space
    normalize_email is_idempotency_key_valid
second_conflicts = refl
