-- ===== src/Examples/Access.antt =====
-- Runs of the guard, of delegations, of the seat check and of the name checks.
use flexi.Prelude.{ℕ, ◌+◌, ◌≤◌, ◌<◌, String, ◌≡◌, ◌⊎◌, ◌↔◌, refl, false, some, []}
use flexi.Exec.{ok, err, unauthorized, quota_exceeded, ◌>>=◌}
use flexi.Store.Rows.{find_first, count}
use flexi.Store.Tables.{
  now, draw, set_cls, update_impersonation_sessions, create_impersonation_session, record_audit,
}
use flexi.Tenancy.{resolve_tenant_schema, check_name, is_head, is_tail, matches_pattern}
use flexi.Tenancy.Names.{IsIdentifier, resolve_tenant_schema-injective}
use flexi.Auth.Password.{validate_password_strength}
use flexi.Auth.Password.Policy.{IsStrong, validate_password_strength-nil_iff}
use flexi.Auth.Actors.{find_joined, is_tenant_active}
use flexi.Auth.Email.{trim_text, trim_text_start, trim_text_end, push_kept}
use flexi.Auth.Duration.{is_space}
use flexi.Auth.Guard.{
  user_of, extract_token, first_word, after_space, has_impersonation_claims, check_impersonation,
  assert_valid_impersonation, enter_tenant, establish_tenant, can_activate,
}
use flexi.Auth.Guard.Admission.{Admitted, can_activate-Admitted}
use flexi.Auth.Impersonation.{assert_system_impersonator, delegate, start_for, start, end_session}
use flexi.Auth.Impersonation.Ending.{Delegated, end_session-can_activate, start-Delegated}
use flexi.Users.Quota.{used_seats_at, resolve_max_users, assert_seats_available}
use flexi.Users.Quota.Seats.{assert_seats_available_limited}
use flexi.Examples.{platform, world, operator, delegated_claims}

admits : (can_activate platform (some "bearer delegated") world).0 ≡ ok (user_of delegated_claims)
unfolding can_activate extract_token first_word after_space assert_valid_impersonation
    check_impersonation has_impersonation_claims establish_tenant enter_tenant ◌>>=◌ now set_cls
    find_first is_tenant_active resolve_tenant_schema check_name matches_pattern is_tail is_head
admits = refl

can_activate-Admitted_example :
    Admitted platform
      (some "bearer delegated")
      world
      (can_activate platform (some "bearer delegated") world).1
      (user_of delegated_claims)
can_activate-Admitted_example =
    can_activate-Admitted platform (some "bearer delegated") world (user_of delegated_claims) admits

ends : (end_session platform (user_of delegated_claims) world).0 ≡ ok tt
unfolding end_session ◌>>=◌ now update_impersonation_sessions record_audit count
ends = refl

bearer_token : extract_token platform (some "bearer delegated") ≡ some "delegated"
unfolding extract_token first_word after_space
bearer_token = refl

end_session-can_activate_example :
    (can_activate platform
      (some "bearer delegated")
      (end_session platform (user_of delegated_claims) world).1).0
    ≡ err unauthorized
end_session-can_activate_example =
    end_session-can_activate platform (some "bearer delegated") "delegated" delegated_claims world
      refl ends bearer_token refl

starts :
    (start platform operator (some " acme") "m1" world).0
    ≡ ok (record { access_token = "anna"; expires_in = 900 })
unfolding start start_for assert_system_impersonator delegate ◌>>=◌ now draw
    create_impersonation_session record_audit count find_first find_joined is_tenant_active
    trim_text trim_text_start trim_text_end push_kept is_space
starts = refl

start-Delegated_example : Delegated platform operator (some " acme") "m1" world
start-Delegated_example =
    start-Delegated platform operator (some " acme") "m1" world
      (record { access_token = "anna"; expires_in = 900 }) starts

limit : resolve_max_users "acme" world.db ≡ some 3
unfolding resolve_max_users find_first
limit = refl

assert_seats_available_example :
    (((assert_seats_available platform "acme" 2 world).0 ≡ err quota_exceeded)
      × (3 < used_seats_at 1000 "acme" world.db + 2))
    ⊎ ((remaining : ℕ) × ((assert_seats_available platform "acme" 2 world).0
          ≡ ok (record {
            used_seats = used_seats_at 1000 "acme" world.db;
            max_users = some 3;
            remaining_seats = some remaining;
            unlimited = false;
          }))
        × (used_seats_at 1000 "acme" world.db + remaining ≡ 3)
        × (2 ≤ remaining))
assert_seats_available_example = assert_seats_available_limited platform "acme" 2 3 world limit

validate_password_strength_example :
    (validate_password_strength "Correct-horse-1" ≡ []) ↔ IsStrong "Correct-horse-1"
validate_password_strength_example = validate_password_strength-nil_iff "Correct-horse-1"

abbrev acme : String
acme = "acme"

resolves : resolve_tenant_schema "acme" ≡ ok "tenant_acme"
unfolding resolve_tenant_schema check_name matches_pattern is_tail is_head
resolves = refl

resolve_tenant_schema_example : (acme ≡ acme) × IsIdentifier "tenant_acme"
resolve_tenant_schema_example =
    resolve_tenant_schema-injective "acme" "acme" "tenant_acme" resolves resolves
