-- ===== src/Examples/SetupLinks.antt =====
-- Runs of setup links, of the recorded outcomes and of the id of a tenant.
use flexi.Prelude.{◌≡◌, refl, true, false, none, some, [], ◌∷◌}
use flexi.Exec.{ok, err, invalid_setup_token, ◌>>=◌}
use flexi.Onboarding.{AttemptStatus, StepName, StepOutcome, TenantOnboardingAttempt, SetupToken}
use flexi.Store.{TenantUser, World, TenantUserStatus}
use flexi.Store.Rows.{find_first, count, update_many}
use flexi.Store.Tables.{transaction, now, update_tenant_user, update_auth_account}
use flexi.Store.Setup.{update_onboarding_attempts, update_setup_tokens}
use flexi.Provisioning.{
  no_signal, find_attempt, outcomes_of, succeeded_step, failed_step, upsert_all, throw_if_cancelled,
  write_steps, update_attempt_steps,
}
use flexi.Provisioning.SetupLink.{claim_admin, redeem_found, redeem_hash}
use flexi.Provisioning.SetupLink.Single.{redeem_hash-redeem_hash}
use flexi.Provisioning.SetupLink.Effect.{Claimed, redeem_hash-Claimed}
use flexi.Provisioning.Recorded.View.{view, replay, upsert_all-refines, update_attempt_steps-read}
use flexi.Examples.{platform, world}

abbrev setup_token : SetupToken
setup_token = record {
  id = "k1";
  tenant_id = "b1";
  token_hash = "#setup";
  expires_at = 90000;
  revoked_at = none;
  used_at = none;
}

abbrev dora : TenantUser
dora = record {
  id = "m4";
  tenant_id = "b1";
  auth_account_id = "dora";
  name = none;
  status = TenantUserStatus.pending_setup;
  is_active = true;
  roles = [];
}

abbrev setup_world : World
setup_world = record world {
  db = record world.db {
    auth_accounts =
        record {
          id = "dora";
          email = "dora@birch.test";
          password_hash = "$unusable";
          is_active = true;
          must_change_password = false;
        }
        ∷ world.auth_accounts;
    tenant_users = dora ∷ world.tenant_users;
    setup_tokens = setup_token ∷ [];
  };
}

redeems : (redeem_hash platform "#setup" "$Doras-secret-8!" setup_world).0 ≡ ok tt
unfolding redeem_hash redeem_found claim_admin transaction ◌>>=◌ now update_setup_tokens
    update_auth_account update_tenant_user find_first count update_many
redeems = refl

redeem_hash-Claimed_example :
    Claimed platform "#setup" "$Doras-secret-8!" setup_world
      (redeem_hash platform "#setup" "$Doras-secret-8!" setup_world).1
redeem_hash-Claimed_example =
    redeem_hash-Claimed platform "#setup" "$Doras-secret-8!" setup_world redeems

redeem_hash-redeem_hash_example :
    (redeem_hash platform "#setup" "$other"
      (redeem_hash platform "#setup" "$Doras-secret-8!" setup_world).1).0
    ≡ err invalid_setup_token
redeem_hash-redeem_hash_example =
    redeem_hash-redeem_hash platform "#setup" "$Doras-secret-8!" "$other" setup_world redeems

abbrev first_run : StepOutcome
first_run = failed_step StepName.schema_created 1000 (some "b1") "SCHEMA_CREATION_FAILED" "failed"

abbrev second_run : StepOutcome
second_run = succeeded_step StepName.schema_created 2000 (some "b1")

upsert_all-refines_example :
    view (upsert_all (first_run ∷ []) (second_run ∷ [])) StepName.schema_created
    ≡ replay (second_run ∷ []) (view (first_run ∷ [])) StepName.schema_created
upsert_all-refines_example =
    upsert_all-refines (second_run ∷ []) (first_run ∷ []) StepName.schema_created

abbrev started : TenantOnboardingAttempt
started = record {
  id = "a1";
  status = AttemptStatus.provisioning;
  provisioning_job_id = none;
  safe_payload = none;
  actor_identity = "op";
  request_identity = "req-1";
  idempotency_key = "onboard-birch";
  step_outcomes = some (some first_run ∷ none ∷ []);
}

abbrev started_world : World
started_world = record world { db = record world.db { onboarding_attempts = started ∷ [] } }

started_there : find_attempt "a1" started_world ≡ some started
unfolding find_first
started_there = refl

writes :
    (update_attempt_steps platform no_signal "a1" AttemptStatus.provisioning
      (second_run ∷ [])
      started_world).0
    ≡ ok tt
unfolding update_attempt_steps write_steps throw_if_cancelled transaction ◌>>=◌ now
    update_onboarding_attempts find_first
writes = refl

update_attempt_steps-read_example :
    view
      (outcomes_of (
        find_attempt "a1"
          (update_attempt_steps platform no_signal "a1" AttemptStatus.provisioning
            (second_run ∷ [])
            started_world).1))
      StepName.schema_created
    ≡ replay
        (second_run ∷ [])
        (view (outcomes_of (find_attempt "a1" started_world)))
        StepName.schema_created
update_attempt_steps-read_example =
    update_attempt_steps-read platform no_signal "a1" AttemptStatus.provisioning (second_run ∷ [])
      started_world started StepName.schema_created started_there refl writes
