-- ===== src/Users/Lifecycle/Trail.antt =====
-- The methods of `AccountLifecycleService` keep what `Later` keeps.
use flexi.Prelude.{ℕ, String, Bool, true, false, Option, List}
use flexi.Exec.Evolves.{Evolves}
use flexi.Store.{ActorType, MetaValue, AuthAuditEvent}
use flexi.Store.Platform.{Platform}
use flexi.Store.Evolution.{Later}
use flexi.Auth.Actors.{AuthenticatedUser}
use flexi.Auth.Service.Trail.{auth_rules}
use flexi.Auth.Sessions.Trail.{Later-assert_actor_permission}
use flexi.Auth.Reset.Trail.{Later-consume}
use flexi.Users.Lifecycle.{
  TargetActor, resolve_target, set_active_of, set_actor_active, revoke_live_sessions,
  audit_lifecycle, deactivate, activate, deliver_temporary_password, set_temporary_password,
  report_temporary_password, finish_force, force_target, force_reset_password,
}

Later-resolve_target :
    (id : String) (user : AuthenticatedUser) → Evolves Later (resolve_target id user)
unfolding resolve_target
Later-resolve_target id user = search auth_rules

Later-set_active_of :
    (k : ActorType) (id : String) (b : Bool) → Evolves Later (set_active_of k id b)
unfolding set_active_of
Later-set_active_of ActorType.tenant id b = search auth_rules
Later-set_active_of ActorType.system id b = search auth_rules

Later-set_actor_active : (t : TargetActor) (b : Bool) → Evolves Later (set_actor_active t b)
unfolding set_actor_active
Later-set_actor_active t b = Later-set_active_of t.actor_type t.user_id b

Later-revoke_live_sessions :
    (account : String) (t : ℕ) → Evolves Later (revoke_live_sessions account t)
unfolding revoke_live_sessions
Later-revoke_live_sessions account t = search auth_rules

ruleset lifecycle_rules = (
  auth_rules, Later-assert_actor_permission, Later-resolve_target, Later-set_actor_active,
  Later-revoke_live_sessions, Later-consume,
)

module _ (p : Platform) where
  Later-audit_lifecycle :
      (e : AuthAuditEvent) (t : TargetActor) (user : AuthenticatedUser)
      (m : List (String × MetaValue))
      → Evolves Later (audit_lifecycle p e t user m)
  unfolding audit_lifecycle
  Later-audit_lifecycle e t user m = search auth_rules

  Later-deliver_temporary_password :
      (b : Bool) (email password : String)
      → Evolves Later (deliver_temporary_password p b email password)
  unfolding deliver_temporary_password
  Later-deliver_temporary_password false email password = search auth_rules
  Later-deliver_temporary_password true email password = search auth_rules

  pub Later-deactivate :
      (id : String) (user : AuthenticatedUser) → Evolves Later (deactivate p id user)
  unfolding deactivate
  Later-deactivate id user = search (lifecycle_rules, Later-audit_lifecycle) depth 20

  pub Later-activate : (id : String) (user : AuthenticatedUser) → Evolves Later (activate p id user)
  unfolding activate
  Later-activate id user = search (lifecycle_rules, Later-audit_lifecycle) depth 20

  Later-set_temporary_password :
      (target : TargetActor) (hash : String) (t : ℕ)
      → Evolves Later (set_temporary_password p target hash t)
  unfolding set_temporary_password
  Later-set_temporary_password target hash t = search lifecycle_rules depth 20

  Later-report_temporary_password :
      (target : TargetActor) (user : AuthenticatedUser) (requested : Bool) (password : String)
      (n : ℕ)
      → Evolves Later (report_temporary_password p target user requested password n)
  unfolding report_temporary_password
  Later-report_temporary_password target user requested password n =
      search (lifecycle_rules, Later-audit_lifecycle, Later-deliver_temporary_password) depth 20

  pub Later-force_reset_password :
      (id : String) (send : Option Bool) (user : AuthenticatedUser)
      → Evolves Later (force_reset_password p id send user)
  unfolding force_reset_password force_target finish_force
  Later-force_reset_password id send user =
      search (lifecycle_rules, Later-set_temporary_password, Later-report_temporary_password) depth
        20
