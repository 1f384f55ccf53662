-- ===== src/Auth/Impersonation/Trail.antt =====
-- Delegations keep what `Later` keeps.
use flexi.Prelude.{String, Option}
use flexi.Exec.Evolves.{Evolves}
use flexi.Store.{AuthAccount, TenantUser}
use flexi.Store.Platform.{Platform}
use flexi.Store.Evolution.{Later}
use flexi.Auth.Actors.{AuthenticatedUser}
use flexi.Auth.Service.Trail.{auth_rules}
use flexi.Auth.Impersonation.{assert_system_impersonator, delegate, start_for, start, end_session}

module _ (p : Platform) where
  Later-delegate :
      (user : AuthenticatedUser) (tenant_id : String) (u : TenantUser) (a : AuthAccount)
      → Evolves Later (delegate p user tenant_id u a)
  unfolding delegate
  Later-delegate user tenant_id u a = search auth_rules depth 12

  Later-start_for :
      (user : AuthenticatedUser) (tenant_id user_id : String)
      → Evolves Later (start_for p user tenant_id user_id)
  unfolding start_for
  Later-start_for user tenant_id user_id = search (auth_rules, Later-delegate) depth 12

  pub Later-start :
      (user : AuthenticatedUser) (header : Option String) (user_id : String)
      → Evolves Later (start p user header user_id)
  unfolding start assert_system_impersonator
  Later-start user header user_id = search (auth_rules, Later-start_for) depth 10

  pub Later-end_session : (user : AuthenticatedUser) → Evolves Later (end_session p user)
  unfolding end_session
  Later-end_session user = search auth_rules depth 12
