-- ===== src/Auth/Sessions/Trail.antt =====
-- The methods of `SessionsService` keep what `Later` keeps.
use flexi.Prelude.{String, Bool}
use flexi.Exec.Evolves.{Evolves}
use flexi.Store.Platform.{Platform}
use flexi.Store.Evolution.{Later}
use flexi.Store.Evolution.Rules.{later_rules}
use flexi.Auth.Actors.{AuthenticatedUser}
use flexi.Auth.Permissions.{ScopedPermissionPair, assert_actor_permission}
use flexi.Auth.Service.Trail.{auth_rules}
use flexi.Auth.Sessions.{list_sessions, revoke_session, revoke_all_sessions}

pub Later-assert_actor_permission :
    (user : AuthenticatedUser) (pair : ScopedPermissionPair)
    → Evolves Later (assert_actor_permission user pair)
unfolding assert_actor_permission
Later-assert_actor_permission user pair = search later_rules

module _ (p : Platform) where
  pub Later-list_sessions : (user : AuthenticatedUser) → Evolves Later (list_sessions p user)
  unfolding list_sessions
  Later-list_sessions user = search auth_rules depth 10

  pub Later-revoke_session :
      (id : String) (user : AuthenticatedUser) → Evolves Later (revoke_session p id user)
  unfolding revoke_session
  Later-revoke_session id user = search (auth_rules, Later-assert_actor_permission) depth 20

  pub Later-revoke_all_sessions :
      (keep : Bool) (user : AuthenticatedUser) → Evolves Later (revoke_all_sessions p keep user)
  unfolding revoke_all_sessions
  Later-revoke_all_sessions keep user = search auth_rules depth 20
