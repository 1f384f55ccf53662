-- ===== src/Auth/Permissions.antt =====
-- The permission codes of packages/shared-types/src/permissions.ts, the check of a tenant/system pair
-- (modules/users/actor-permission.ts) and the guard of a route (modules/auth/guards/permissions.guard.ts).
use flexi.Prelude.{String, includes, Bool, not, List, every}
use flexi.Exec.{refuse_if, forbidden}
use flexi.Store.{ActorType}
use flexi.Store.Tables.{Action}
use flexi.Auth.Actors.{AuthenticatedUser}

-- `[tenantCode, systemCode]`
pub record ScopedPermissionPair : Type 0 where
  pub tenant_code : String
  pub system_code : String

abbrev pub session_manage : ScopedPermissionPair
session_manage = record {
  tenant_code = "auth.session.manage";
  system_code = "system.session.manage";
}

abbrev pub user_manage : ScopedPermissionPair
user_manage = record { tenant_code = "tenant.user.manage"; system_code = "system.user.manage" }

abbrev pub account_reset_password : ScopedPermissionPair
account_reset_password = record {
  tenant_code = "admin.account.reset_password";
  system_code = "system.account.reset_password";
}

abbrev pub required_of : ScopedPermissionPair → ActorType → String
required_of pair ActorType.tenant = pair.tenant_code
required_of pair ActorType.system = pair.system_code

abbrev pub holds : AuthenticatedUser → ScopedPermissionPair → Bool
holds user pair = includes user.permissions (required_of pair user.actor_type)

unfoldable pub assert_actor_permission : AuthenticatedUser → ScopedPermissionPair → Action Unit
assert_actor_permission user pair = refuse_if (not (holds user pair)) forbidden

-- `PermissionsGuard`: every code that the route requires; a route without codes is open.
unfoldable pub permissions_guard : List String → List String → Action Unit
permissions_guard required granted =
    refuse_if (not (every (λ code. includes granted code) required)) forbidden
