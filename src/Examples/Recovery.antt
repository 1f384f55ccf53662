-- ===== src/Examples/Recovery.antt =====
-- Runs of password recovery and of the lifecycle operations.
use flexi.Prelude.{String, length, ◌≡◌, ◌⊎◌, refl, true, false, none, some}
use flexi.Exec.{ok, err, invalid_otp, cannot_deactivate_self, user_not_found, ◌>>=◌}
use flexi.Store.{ActorType}
use flexi.Store.Rows.{find_first, find_latest, count, update_many}
use flexi.Store.Tables.{
  now, draw, transaction, update_refresh_tokens, update_password_reset_otps, update_auth_account,
  update_tenant_user, create_password_reset_otp, record_audit, send_mail,
}
use flexi.Auth.Password.{validate_password_strength}
use flexi.Auth.Actors.{find_joined, is_tenant_active, find_tenant_user_by_email}
use flexi.Auth.Permissions.{assert_actor_permission}
use flexi.Auth.Service.{is_live_of, assert_password_meets_policy}
use flexi.Auth.Email.{normalize_email, trim_text, trim_text_start, trim_text_end, push_kept}
use flexi.Auth.Duration.{is_space}
use flexi.Auth.Reset.{
  ResetActor, PendingDelivery, resolve_actor, request_reset, reset_password, set_password,
  is_live_otp_of, complete_reset, try_otp, attempt_reset, otp_matches, request_of,
  is_within_cooldown, issue_otp, throttle, audit_request, padded, is_otp_shaped,
}
use flexi.Auth.Reset.Outcome.{Entitled}
use flexi.Auth.Reset.Effect.{IsReset, reset_password-IsReset, reset_password_uniform}
use flexi.Auth.Reset.Issue.{Issued, request_reset-Issued}
use flexi.Users.Lifecycle.{
  AccountLifecycleResponse, ForceResetPasswordResponse, deactivate, force_reset_password,
  resolve_target, set_actor_active, set_active_of, revoke_live_sessions, audit_lifecycle,
  force_target, finish_force, report_temporary_password, set_temporary_password,
  deliver_temporary_password,
}
use flexi.Users.Lifecycle.Effect.{Deactivated, active_rows, is_live_elsewhere, deactivate_lem}
use flexi.Users.Lifecycle.Forced.{Forced, force_reset_password_lem}
use flexi.Requests.{run}
use flexi.Requests.Replay.{set_password-run-set_password}
use flexi.Examples.{platform, world, anna, code, unique_keys, traffic}

abbrev new_password : String
new_password = "New-password-9!"

strong : length (validate_password_strength new_password) ≡ 0
unfolding validate_password_strength
strong = refl

resets :
    (reset_password platform "anna@acme.test" "654321" new_password (some "acme") world).0 ≡ ok tt
unfolding reset_password assert_password_meets_policy validate_password_strength attempt_reset
    try_otp complete_reset is_otp_shaped otp_matches set_password update_auth_account
    update_password_reset_otps update_refresh_tokens ◌>>=◌ resolve_actor find_tenant_user_by_email
    find_joined find_first normalize_email trim_text trim_text_end trim_text_start is_space
    push_kept is_tenant_active find_latest count update_many draw now record_audit transaction
resets = refl

reset_password-IsReset_example :
    (e : Entitled platform "anna@acme.test" "654321" new_password (some "acme") world) × IsReset
      platform e.actor e.otp new_password world
      (reset_password platform "anna@acme.test" "654321" new_password (some "acme") world).1
reset_password-IsReset_example =
    reset_password-IsReset platform "anna@acme.test" "654321" new_password (some "acme") world
      strong resets

reset_password_uniform_example :
    ((reset_password platform "nobody@acme.test" "654321" new_password (some "acme") world).0
      ≡ ok tt)
    ⊎ ((reset_password platform "nobody@acme.test" "654321" new_password (some "acme") world).0
        ≡ err invalid_otp)
reset_password_uniform_example =
    reset_password_uniform platform "nobody@acme.test" "654321" new_password (some "acme") world
      strong

abbrev anna_reset : ResetActor
anna_reset = record { auth_account_id = "anna"; tenant_id = some "acme"; is_active = true }

sets : (set_password platform anna_reset code "$x" 1000 world).0 ≡ ok 1
unfolding set_password transaction ◌>>=◌ update_password_reset_otps update_auth_account
    update_refresh_tokens count
sets = refl

set_password-run-set_password_example :
    ((set_password platform anna_reset code "$y" 2000
        (run platform (set_password platform anna_reset code "$x" 1000 world).1 traffic)).0
      ≡ err invalid_otp)
    × ((set_password platform anna_reset code "$y" 2000
          (run platform (set_password platform anna_reset code "$x" 1000 world).1 traffic)).1.db
        ≡ (run platform (set_password platform anna_reset code "$x" 1000 world).1 traffic).db)
set_password-run-set_password_example =
    set_password-run-set_password platform anna_reset anna_reset code "$x" "$y" 1000 2000 1 world
      traffic unique_keys sets

abbrev bob_delivery : PendingDelivery
bob_delivery = record {
  actor = record { auth_account_id = "bob"; tenant_id = some "acme"; is_active = true };
  email = "bob@acme.test";
  otp = "123456";
}

requests : (request_reset platform "bob@acme.test" (some "acme") world).0 ≡ ok (some bob_delivery)
unfolding request_reset request_of is_within_cooldown issue_otp throttle audit_request padded
    create_password_reset_otp update_password_reset_otps ◌>>=◌ resolve_actor
    find_tenant_user_by_email find_joined find_first normalize_email trim_text trim_text_end
    trim_text_start is_space push_kept is_tenant_active find_latest count update_many draw now
    record_audit transaction
requests = refl

request_reset-Issued_example : Issued platform "bob@acme.test" (some "acme") world bob_delivery
request_reset-Issued_example =
    request_reset-Issued platform "bob@acme.test" (some "acme") world bob_delivery requests

throttled : (request_reset platform "anna@acme.test" (some "acme") world).0 ≡ ok none
unfolding request_reset request_of is_within_cooldown issue_otp throttle audit_request padded
    create_password_reset_otp update_password_reset_otps ◌>>=◌ resolve_actor
    find_tenant_user_by_email find_joined find_first normalize_email trim_text trim_text_end
    trim_text_start is_space push_kept is_tenant_active find_latest count update_many draw now
    record_audit transaction
throttled = refl

abbrev deactivated : AccountLifecycleResponse
deactivated = record {
  user_id = "m2";
  actor_type = ActorType.tenant;
  is_active = false;
  revoked_session_count = 1;
}

deactivates : (deactivate platform "m2" anna world).0 ≡ ok deactivated
unfolding deactivate assert_actor_permission resolve_target set_actor_active set_active_of
    update_tenant_user revoke_live_sessions update_refresh_tokens audit_lifecycle record_audit
    transaction ◌>>=◌ now find_joined find_first count update_many
deactivates = refl

deactivate_example :
    (d : Deactivated platform "m2" anna world (deactivate platform "m2" anna world).1 deactivated)
    × (active_rows d.target (deactivate platform "m2" anna world).1 ≡ 0)
    × (count
          (is_live_of d.target.auth_account_id)
          (deactivate platform "m2" anna world).1.refresh_tokens
        ≡ 0)
    × (count
          (is_live_elsewhere d.target.auth_account_id)
          (deactivate platform "m2" anna world).1.refresh_tokens
        ≡ count (is_live_elsewhere d.target.auth_account_id) world.refresh_tokens)
deactivate_example = deactivate_lem platform "m2" anna world deactivated deactivates

refuses_self : (deactivate platform "m1" anna world).0 ≡ err cannot_deactivate_self
unfolding deactivate assert_actor_permission resolve_target ◌>>=◌ find_joined find_first
refuses_self = refl

abbrev forced : ForceResetPasswordResponse
forced = record {
  user_id = "m2";
  must_change_password = true;
  revoked_session_count = 1;
  email_delivered = true;
}

forces : (force_reset_password platform "m2" none anna world).0 ≡ ok forced
unfolding force_reset_password force_target finish_force report_temporary_password
    set_temporary_password deliver_temporary_password assert_actor_permission resolve_target
    update_auth_account revoke_live_sessions update_refresh_tokens update_password_reset_otps
    audit_lifecycle record_audit send_mail transaction ◌>>=◌ now draw find_joined find_first count
    update_many
forces = refl

force_reset_password_example :
    (f : Forced platform "m2" anna world
      (force_reset_password platform "m2" none anna world).1
      forced)
    × (count
          (is_live_of f.target.auth_account_id)
          (force_reset_password platform "m2" none anna world).1.refresh_tokens
        ≡ 0)
    × (count
          (is_live_otp_of f.target.auth_account_id)
          (force_reset_password platform "m2" none anna world).1.password_reset_otps
        ≡ 0)
force_reset_password_example = force_reset_password_lem platform "m2" none anna world forced forces

refuses_unknown : (force_reset_password platform "m9" none anna world).0 ≡ err user_not_found
unfolding force_reset_password assert_actor_permission resolve_target ◌>>=◌ find_joined find_first
refuses_unknown = refl
