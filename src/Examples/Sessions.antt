-- ===== src/Examples/Sessions.antt =====
-- Runs of login, rotation, listing and revocation of sessions.
use flexi.Prelude.{inl, ◌↔◌, ◌==◌, ◌≡◌, refl, true, false, ◌&&◌, none, some, [], ◌∷◌, ◌++◌, arith}
use flexi.Exec.{ok, err, invalid_refresh_token, invalid_credentials, session_not_found, ◌>>=◌}
use flexi.Store.{ActorType}
use flexi.Store.Evolution.{HasUniqueKeys, KeepsBudget}
use flexi.Store.Rows.{find_first, count, update_many}
use flexi.Store.Tables.{now, draw, create_refresh_token, update_refresh_tokens}
use flexi.Auth.Duration.{duration_to_seconds}
use flexi.Auth.Actors.{
  ResolvedActor, resolve_actor_by_auth_account_id, find_joined, is_tenant_active,
  map_tenant_user_to_actor, flatten_permissions, find_tenant_user_by_email, resolve_login_actor,
}
use flexi.Auth.Service.{
  AuthTokens, refresh, claim_refresh_token, issue_tokens, login, revoke_at, is_live_of, is_spared,
  is_live_unspared,
}
use flexi.Auth.Service.Rotation.{refresh_reuse, is_live_session}
use flexi.Auth.Service.Issue.{CanRotate, refresh_rotates}
use flexi.Auth.Service.Login.{TenantCredentials, login-TenantCredentials, login_refused_iff}
use flexi.Auth.Sessions.{revoke_session, revoke_all_sessions}
use flexi.Auth.Sessions.Revocation.{revoke_all_sessions_lem, revoke_session_foreign}
use flexi.Requests.{run}
use flexi.Requests.Replay.{refresh-run-refresh, claim-run-claim}
use flexi.Requests.Trail.{run-keeps, run-stays_revoked}
use flexi.Examples.{
  platform, world, anna, old_session, used_session, foreign_session, manager, traffic, unique_keys,
}

abbrev first_tokens : AuthTokens
first_tokens = record { access_token = "anna"; refresh_token = "anna.u0"; expires_in = 900 }

refreshes : (refresh platform "anna.old" world).0 ≡ ok first_tokens
unfolding refresh issue_tokens ◌>>=◌ now draw create_refresh_token update_refresh_tokens find_first
    count resolve_actor_by_auth_account_id find_joined is_tenant_active map_tenant_user_to_actor
    duration_to_seconds update_many
refreshes = refl

refresh-run-refresh_example :
    (refresh platform "anna.old" (run platform (refresh platform "anna.old" world).1 traffic)).0
    ≡ err invalid_refresh_token
refresh-run-refresh_example =
    refresh-run-refresh platform "anna.old" world first_tokens traffic refreshes

claims : (claim_refresh_token platform old_session world).0 ≡ ok tt
unfolding claim_refresh_token ◌>>=◌ now update_refresh_tokens count
claims = refl

claim-run-claim_example :
    (claim_refresh_token platform old_session
      (run platform (claim_refresh_token platform old_session world).1 traffic)).0
    ≡ err invalid_refresh_token
claim-run-claim_example = claim-run-claim platform old_session world traffic unique_keys claims

found_used :
    find_first (λ r. r.token_hash == platform.sha256 "anna.used") world.refresh_tokens
    ≡ some used_session
unfolding find_first
found_used = refl

refresh_reuse_example :
    ((refresh platform "anna.used" world).0 ≡ err invalid_refresh_token)
    × (count (is_live_of "anna") (refresh platform "anna.used" world).1.refresh_tokens ≡ 0)
    × (count (is_live_of "bob") (refresh platform "anna.used" world).1.refresh_tokens
        ≡ count (is_live_of "bob") world.refresh_tokens)
refresh_reuse_example =
    refresh_reuse platform "anna.used" "bob" world (record { sub = "anna"; jti = "used" })
      used_session refl found_used refl refl

within_budget : KeepsBudget world
within_budget = (record { bounded = omega arith; spent = inl (omega arith) }, tt)

run-keeps_example :
    HasUniqueKeys (run platform world traffic) × KeepsBudget (run platform world traffic)
run-keeps_example = run-keeps platform world traffic unique_keys within_budget

one_used : count (λ r. r.id == "s2") world.refresh_tokens ≡ 1
unfolding count
one_used = refl

none_live : count (is_live_session "s2") world.refresh_tokens ≡ 0
unfolding count
none_live = refl

run-stays_revoked_example :
    count (is_live_session "s2") (run platform world traffic).refresh_tokens ≡ 0
run-stays_revoked_example =
    run-stays_revoked platform "s2" world traffic unique_keys (omega (arith, one_used)) none_live

abbrev anna_actor : ResolvedActor
anna_actor = record {
  auth_account_id = "anna";
  password_hash = "$Correct-horse-1";
  is_active = true;
  actor_type = ActorType.tenant;
  tenant_id = some "acme";
  tenant_user_id = some "m1";
  system_user_id = none;
  email = "anna@acme.test";
  name = some "Anna";
  roles = "Manager" ∷ [];
  permissions = manager.permissions;
  must_change_password = false;
}

can_rotate :
    CanRotate platform "anna.old" world
      (record { sub = "anna"; jti = "old" })
      old_session
      anna_actor
      900
      604800
unfolding find_first count resolve_actor_by_auth_account_id find_joined is_tenant_active
    map_tenant_user_to_actor flatten_permissions duration_to_seconds ◌>>=◌
can_rotate = record {
  verified = refl;
  found = refl;
  live = refl;
  unexpired = omega arith;
  owned = refl;
  resolved = refl;
  active = refl;
  access_lifetime = refl;
  refresh_lifetime = refl;
  fresh = refl;
}

refresh_rotates_example :
    ((refresh platform "anna.old" world).0
      ≡ ok (record { access_token = "anna"; refresh_token = "anna.u0"; expires_in = 900 }))
    × ((refresh platform "anna.old" world).1.refresh_tokens
        ≡ update_many (is_live_session "s1") (revoke_at 1002) world.refresh_tokens
          ++ record {
            id = "c1";
            auth_account_id = "anna";
            token_hash = "#anna.u0";
            expires_at = 604801004;
            revoked_at = none;
            created_at = 1005;
          }
            ∷ [])
refresh_rotates_example =
    refresh_rotates platform "anna.old" world (record { sub = "anna"; jti = "old" }) old_session
      anna_actor 900 604800 can_rotate

revoke_all_sessions_example :
    ((revoke_all_sessions platform true anna world).0
      ≡ ok (count (is_live_unspared "anna" (some "s1")) world.refresh_tokens))
    × (count
          (is_live_unspared "anna" (some "s1"))
          (revoke_all_sessions platform true anna world).1.refresh_tokens
        ≡ 0)
    × (count
          (λ r. is_live_of "anna" r && is_spared (some "s1") r)
          (revoke_all_sessions platform true anna world).1.refresh_tokens
        ≡ count (λ r. is_live_of "anna" r && is_spared (some "s1") r) world.refresh_tokens)
    × (count (is_live_of "bob") (revoke_all_sessions platform true anna world).1.refresh_tokens
        ≡ count (is_live_of "bob") world.refresh_tokens)
revoke_all_sessions_example = revoke_all_sessions_lem platform true anna "bob" world refl

found_foreign : find_first (λ r. r.id == "s3") world.refresh_tokens ≡ some foreign_session
unfolding find_first
found_foreign = refl

no_member :
    find_first (λ u. u.auth_account_id == "zoe" && u.tenant_id == "acme") world.tenant_users ≡ none
unfolding find_first
no_member = refl

revoke_session_foreign_example :
    revoke_session platform "s3" anna world ≡ (err session_not_found, world)
revoke_session_foreign_example =
    revoke_session_foreign platform "s3" "acme" anna world foreign_session refl refl found_foreign
      refl no_member

logs_in :
    (login platform "anna@acme.test" "Correct-horse-1" (some "acme") world).0
    ≡ ok (record { access_token = "anna"; refresh_token = "anna.u0"; expires_in = 900 })
unfolding login resolve_login_actor find_tenant_user_by_email issue_tokens ◌>>=◌ now draw
    create_refresh_token find_first count find_joined is_tenant_active map_tenant_user_to_actor
    duration_to_seconds
logs_in = refl

login-TenantCredentials_example :
    TenantCredentials platform "anna@acme.test" "Correct-horse-1" "acme" world
login-TenantCredentials_example =
    login-TenantCredentials platform "anna@acme.test" "Correct-horse-1" "acme" world first_tokens
      logs_in

login_refused_iff_example :
    (login platform "anna@acme.test" "guess" (some "acme") world ≡ (err invalid_credentials, world))
    ↔ (¬ TenantCredentials platform "anna@acme.test" "guess" "acme" world)
login_refused_iff_example = login_refused_iff platform "anna@acme.test" "guess" "acme" world
