-- ===== src/Auth/Guard/Trail.antt =====
-- The guard keeps what `Later` keeps.
use flexi.Prelude.{String, Option}
use flexi.Exec.{Result, ok, err}
use flexi.Exec.Evolves.{Evolves}
use flexi.Store.Platform.{Platform, AccessTokenPayload}
use flexi.Store.Evolution.{Later}
use flexi.Store.Evolution.Rules.{Later-pure, Later-raise}
use flexi.Auth.Service.Trail.{auth_rules}
use flexi.Auth.Guard.{
  lift_result, check_impersonation, assert_valid_impersonation, enter_tenant, establish_tenant,
  can_activate,
}

Later-lift_result : {A : Type 0} (r : Result A) → Evolves Later (lift_result r)
Later-lift_result (ok a) = Later-pure a
Later-lift_result (err e) = Later-raise e

module _ (p : Platform) where
  Later-assert_valid_impersonation :
      (payload : AccessTokenPayload) → Evolves Later (assert_valid_impersonation p payload)
  unfolding assert_valid_impersonation check_impersonation
  Later-assert_valid_impersonation payload = search auth_rules depth 10

  Later-establish_tenant :
      (payload : AccessTokenPayload) → Evolves Later (establish_tenant p payload)
  unfolding establish_tenant enter_tenant
  Later-establish_tenant payload = search (auth_rules, Later-lift_result) depth 12

  pub Later-can_activate : (header : Option String) → Evolves Later (can_activate p header)
  unfolding can_activate
  Later-can_activate header =
      search (auth_rules, Later-assert_valid_impersonation, Later-establish_tenant) depth 10
