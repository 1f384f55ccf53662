-- ===== src/Requests.antt =====
-- The requests of the authentication and lifecycle controllers, served one after the other. The parts
-- into which concurrent requests fall where they wait for the database are steps of their own.
pub mod Trail
pub mod Replay
use flexi.Prelude.{ℕ, String, Bool, Option, List, [], ◌∷◌}
use flexi.Store.{RefreshToken, PasswordResetOtp, Cls, World}
use flexi.Store.Platform.{Platform}
use flexi.Auth.Actors.{AuthenticatedUser}
use flexi.Auth.Service
use flexi.Auth.Sessions
use flexi.Auth.Reset
use flexi.Auth.Reset.{ResetActor, PendingDelivery}
use flexi.Users.Lifecycle
use flexi.Auth.Guard
use flexi.Auth.Impersonation

pub data Request : Type 0 where
  login : String → String → Option String → Request
  refresh : String → Request
  -- the two parts of `refresh` up to the conditional revoke
  look_up : String → Request
  claim : RefreshToken → Request
  logout : String → AuthenticatedUser → Request
  change_password : String → String → AuthenticatedUser → Request
  list_sessions : AuthenticatedUser → Request
  revoke_session : String → AuthenticatedUser → Request
  revoke_all_sessions : Bool → AuthenticatedUser → Request
  forgot_password : String → Option String → Request
  deliver_otp : PendingDelivery → Request
  reset_password : String → String → String → Option String → Request
  -- the transaction of `reset_password`
  set_password : ResetActor → PasswordResetOtp → String → ℕ → Request
  deactivate : String → AuthenticatedUser → Request
  activate : String → AuthenticatedUser → Request
  force_reset_password : String → Option Bool → AuthenticatedUser → Request
  -- the guard of a request, by its `Authorization` header
  authenticate : Option String → Request
  start_impersonation : AuthenticatedUser → Option String → String → Request
  end_impersonation : AuthenticatedUser → Request

module _ (p : Platform) where
  -- the world after the request, whatever it answers
  serve : Request → World → World
  serve (login email password tenant_id) s = (Service.login p email password tenant_id s).1
  serve (refresh token) s = (Service.refresh p token s).1
  serve (look_up token) s = (Service.look_up_refresh_token p token s).1
  serve (claim stored) s = (Service.claim_refresh_token p stored s).1
  serve (logout token user) s = (Service.logout p token user s).1
  serve (change_password old new user) s = (Service.change_password p old new user s).1
  serve (list_sessions user) s = (Sessions.list_sessions p user s).1
  serve (revoke_session id user) s = (Sessions.revoke_session p id user s).1
  serve (revoke_all_sessions keep user) s = (Sessions.revoke_all_sessions p keep user s).1
  serve (forgot_password email tenant_id) s = (Reset.request_reset p email tenant_id s).1
  serve (deliver_otp d) s = (Reset.deliver_otp p d s).1
  serve (reset_password email otp password tenant_id) s =
      (Reset.reset_password p email otp password tenant_id s).1
  serve (set_password actor otp hash t) s = (Reset.set_password p actor otp hash t s).1
  serve (deactivate id user) s = (Lifecycle.deactivate p id user s).1
  serve (activate id user) s = (Lifecycle.activate p id user s).1
  serve (force_reset_password id send user) s = (Lifecycle.force_reset_password p id send user s).1
  serve (authenticate header) s = (Guard.can_activate p header s).1
  serve (start_impersonation user header id) s = (Impersonation.start p user header id s).1
  serve (end_impersonation user) s = (Impersonation.end_session p user s).1

  -- each request comes with the request context that the guard has filled
  pub run : World → List (Cls × Request) → World
  run s [] = s
  run s ((cls, r) ∷ rs) = run (serve r (record s { cls = cls })) rs
