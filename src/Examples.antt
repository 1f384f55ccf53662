-- ===== src/Examples.antt =====
-- A concrete platform and a small deployment: one tenant with two members, and a system operator.
mod Sessions
mod Recovery
mod Access
mod Tables
mod Invites
mod Onboarding
mod SetupLinks
mod Intake
use Prim.Native.String.{◌++◌ as append}
use flexi.Prelude.{
  ℕ, ◌+◌, ◌%◌, String, ◌==◌, digit_text, true, false, Bool, Option, none, some, List, [], ◌∷◌,
  if◌then◌else◌, refl,
}
use flexi.Exec.{Failure}
use flexi.Store.{
  ActorType, TenantUserStatus, UserInviteStatus, Tenant, Role, AuthAccount, TenantUser, SystemUser,
  RefreshToken, PasswordResetOtp, UserInvite, ImpersonationSession, TenantSettings, Db, Cls, World,
}
use flexi.Store.Platform.{Platform, RefreshTokenPayload, AccessTokenPayload, DeliveryOutcome}
use flexi.Auth.Actors.{AuthenticatedUser}
use flexi.Store.Evolution.{HasUniqueKeys}
use flexi.Requests.{Request}

abbrev pub delegated_claims : AccessTokenPayload
delegated_claims = record {
  sub = "anna";
  actor_type = ActorType.tenant;
  tenant_id = some "acme";
  tenant_user_id = some "m1";
  system_user_id = none;
  email = "anna@acme.test";
  name = none;
  roles = [];
  permissions = [];
  session_id = none;
  must_change_password = false;
  impersonated_by = some "op";
  impersonation_session_id = some "i1";
  iat = some 100;
  exp = some 900;
}

-- Tokens are their subject; hashes are marked texts; the clock runs a millisecond per reading.
abbrev pub platform : Platform
platform = record {
  clock = λ n. 1000 + n;
  cuid = λ n. append "c" (digit_text n);
  random_uuid = λ n. append "u" (digit_text n);
  random_int = λ n m. 123456 % m;
  temporary_password = λ n. "Temporary-1!";
  random_token = λ n. append "t" (digit_text n);
  to_lower_case = λ s. s;
  sha256 = λ s. append "#" s;
  bcrypt_hash = λ n s. append "$" s;
  bcrypt_compare = λ s h. append "$" s == h;
  sign_refresh = λ payload life t. append payload.sub (append "." payload.jti);
  sign_access = λ payload life t. payload.sub;
  verify_refresh = λ t token.
      if token == "anna.old"
      then some (record { sub = "anna"; jti = "old" })
      else if token == "anna.used"
      then some (record { sub = "anna"; jti = "used" })
      else none;
  verify_access = λ t token. if token == "delegated" then some delegated_claims else none;
  audit_insert = λ n. true;
  deliver = λ n. record { delivered = true; error_code = none };
  raw_conflict = Failure.raw_unique_violation;
  jwt_access_expires_in = "15m";
  jwt_refresh_expires_in = "7d";
}

abbrev pub manager : Role
manager = record {
  id = "r1";
  tenant_id = some "acme";
  name = "Manager";
  permissions = "auth.session.manage" ∷ "tenant.user.manage" ∷ "admin.account.reset_password" ∷ [];
}

abbrev pub old_session : RefreshToken
old_session = record {
  id = "s1";
  auth_account_id = "anna";
  token_hash = "#anna.old";
  expires_at = 9000000;
  revoked_at = none;
  created_at = 10;
}

abbrev pub used_session : RefreshToken
used_session = record {
  id = "s2";
  auth_account_id = "anna";
  token_hash = "#anna.used";
  expires_at = 9000000;
  revoked_at = some 20;
  created_at = 5;
}

abbrev pub foreign_session : RefreshToken
foreign_session = record {
  id = "s3";
  auth_account_id = "zoe";
  token_hash = "#zoe.1";
  expires_at = 9000000;
  revoked_at = none;
  created_at = 7;
}

abbrev pub bob_session : RefreshToken
bob_session = record {
  id = "s4";
  auth_account_id = "bob";
  token_hash = "#bob.1";
  expires_at = 9000000;
  revoked_at = none;
  created_at = 8;
}

abbrev pub code : PasswordResetOtp
code = record {
  id = "o1";
  auth_account_id = "anna";
  otp_hash = "$654321";
  expires_at = 400000;
  consumed_at = none;
  attempt_count = 1;
  created_at = 900;
}

abbrev pub world : World
world = record {
  db = record {
    tenants =
        record {
          id = "acme";
          name = "Acme";
          slug = "acme";
          status = "ACTIVE";
          max_users = some 3;
          onboarding_attempt_id = none;
        }
        ∷ [];
    all_roles = manager ∷ [];
    auth_accounts =
        record {
          id = "anna";
          email = "anna@acme.test";
          password_hash = "$Correct-horse-1";
          is_active = true;
          must_change_password = false;
        }
        ∷ record {
          id = "bob";
          email = "bob@acme.test";
          password_hash = "$Battery-staple-2";
          is_active = true;
          must_change_password = false;
        }
        ∷ record {
          id = "op";
          email = "op@flexi.test";
          password_hash = "$Operator-pass-3";
          is_active = true;
          must_change_password = false;
        }
        ∷ [];
    tenant_users =
        record {
          id = "m1";
          tenant_id = "acme";
          auth_account_id = "anna";
          name = some "Anna";
          status = TenantUserStatus.active;
          is_active = true;
          roles = manager ∷ [];
        }
        ∷ record {
          id = "m2";
          tenant_id = "acme";
          auth_account_id = "bob";
          name = none;
          status = TenantUserStatus.active;
          is_active = true;
          roles = [];
        }
        ∷ [];
    system_users =
        record { id = "op"; auth_account_id = "op"; name = none; is_active = true; roles = [] }
        ∷ [];
    refresh_tokens = old_session ∷ used_session ∷ foreign_session ∷ bob_session ∷ [];
    password_reset_otps = code ∷ [];
    user_invites = [];
    impersonation_sessions =
        record {
          id = "i1";
          tenant_id = "acme";
          target_auth_account_id = "anna";
          target_tenant_user_id = "m1";
          impersonator_id = "op";
          expires_at = 500000;
          ended_at = none;
        }
        ∷ [];
    tenant_settings = record { tenant_id = "acme"; allow_system_impersonation = true } ∷ [];
    auth_audit_logs = [];
    all_permissions =
        record { code = "tenant.user.manage"; is_tenant_scope = true }
        ∷ record { code = "system.impersonation.create"; is_tenant_scope = false }
        ∷ [];
    setup_tokens = [];
    onboarding_attempts = [];
    onboarding_audit_logs = [];
  };
  cls = record {
    tenant_id = none;
    schema = none;
    tenant_user_id = none;
    impersonated_by = none;
    impersonation_session_id = none;
  };
  outbox = [];
  ticks = 0;
  draws = 0;
}

abbrev pub anna : AuthenticatedUser
anna = record {
  auth_account_id = "anna";
  actor_type = ActorType.tenant;
  tenant_id = some "acme";
  tenant_user_id = some "m1";
  system_user_id = none;
  email = "anna@acme.test";
  name = some "Anna";
  roles = "Manager" ∷ [];
  permissions = manager.permissions;
  session_id = some "s1";
  must_change_password = false;
  impersonated_by = none;
  impersonation_session_id = none;
}

abbrev pub operator : AuthenticatedUser
operator = record {
  auth_account_id = "op";
  actor_type = ActorType.system;
  tenant_id = none;
  tenant_user_id = none;
  system_user_id = some "op";
  email = "op@flexi.test";
  name = none;
  roles = [];
  permissions = "system.impersonation.create" ∷ [];
  session_id = none;
  must_change_password = false;
  impersonated_by = none;
  impersonation_session_id = none;
}

-- Requests of others.
abbrev pub traffic : List (Cls × Request)
traffic =
    (world.cls, Request.revoke_all_sessions true anna)
    ∷ (world.cls, Request.refresh "anna.used")
    ∷ []

pub unique_keys : HasUniqueKeys world
unique_keys = record {
  token_ids = ((refl, (refl, (refl, tt))), ((refl, (refl, tt)), ((refl, tt), (tt, tt))));
  token_hashes = ((refl, (refl, (refl, tt))), ((refl, (refl, tt)), ((refl, tt), (tt, tt))));
  otp_ids = (tt, tt);
}
