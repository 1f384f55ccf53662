-- ===== src/Auth/Service/Trail.antt =====
-- Every method of `AuthService` keeps what `Later` keeps, whether it returns or raises.
use flexi.Prelude.{ℕ, String, Bool, Option, none, some, arith}
use flexi.Exec.{Failure}
use flexi.Exec.Evolves.{Evolves}
use flexi.Store.{RefreshToken, Db, TenantUser, SystemUser, AuthAccount}
use flexi.Store.Platform.{Platform, RefreshTokenPayload}
use flexi.Store.Tables.{update_refresh_tokens}
use flexi.Store.Evolution.{TokenLater, Later}
use flexi.Store.Evolution.Rules.{later_rules, Later-raise, Later-pure, Later-update_refresh_tokens}
use flexi.Auth.Actors.{
  AuthenticatedUser, ResolvedActor, resolve_actor_by_auth_account_id, choose_actor,
}
use flexi.Auth.Service.{
  lift_option, revoke_at, assert_password_meets_policy, issue_tokens, log_in_as, login,
  kill_sessions, check_stored, look_up_refresh_token, claim_refresh_token, reissue, refresh,
  check_owned, logout, change_password,
}

pub TokenLater-revoke_at : (t : ℕ) (r : RefreshToken) → TokenLater r (revoke_at t r)
TokenLater-revoke_at t r = ground arith

pub Later-revoke :
    (t : ℕ) (q : RefreshToken → Bool) → Evolves Later (update_refresh_tokens q (revoke_at t))
Later-revoke t q = Later-update_refresh_tokens (revoke_at t) (TokenLater-revoke_at t) q

pub Later-lift_option : {A : Type 0} (e : Failure) (o : Option A) → Evolves Later (lift_option e o)
Later-lift_option e none = Later-raise e
Later-lift_option e (some a) = Later-pure a

pub Later-assert_password :
    (password : String) → Evolves Later (assert_password_meets_policy password)
unfolding assert_password_meets_policy
Later-assert_password password = search later_rules

Later-choose_actor :
    (db : Db) (t : Option (TenantUser × AuthAccount)) (u : Option (SystemUser × AuthAccount))
    → Evolves Later (choose_actor db t u)
unfolding choose_actor
Later-choose_actor db (some t) (some u) = search later_rules
Later-choose_actor db (some (t, a)) none = search later_rules
Later-choose_actor db none (some (u, a)) = search later_rules
Later-choose_actor db none none = search later_rules

pub Later-resolve : (id : String) → Evolves Later (resolve_actor_by_auth_account_id id)
unfolding resolve_actor_by_auth_account_id
Later-resolve id = search (later_rules, Later-choose_actor)

pub ruleset auth_rules = (later_rules, Later-revoke, Later-lift_option, Later-assert_password)

module _ (p : Platform) where
  pub Later-issue_tokens : (actor : ResolvedActor) → Evolves Later (issue_tokens p actor)
  unfolding issue_tokens
  Later-issue_tokens actor = search auth_rules depth 30

  Later-log_in_as :
      (password : String) (actor : Option ResolvedActor)
      → Evolves Later (log_in_as p password actor)
  unfolding log_in_as
  Later-log_in_as password none = search auth_rules
  Later-log_in_as password (some actor) = search (auth_rules, Later-issue_tokens)

  pub Later-login :
      (email password : String) (tenant_id : Option String)
      → Evolves Later (login p email password tenant_id)
  unfolding login
  Later-login email password tenant_id = search (auth_rules, Later-log_in_as)

  Later-kill_sessions : (account : String) → Evolves Later (kill_sessions p account)
  unfolding kill_sessions
  Later-kill_sessions account = search auth_rules depth 10

  Later-check_stored :
      (decoded : RefreshTokenPayload) (stored : Option RefreshToken)
      → Evolves Later (check_stored p decoded stored)
  unfolding check_stored
  Later-check_stored decoded none = search auth_rules
  Later-check_stored decoded (some stored) = search (auth_rules, Later-kill_sessions) depth 10

  pub Later-look_up_refresh_token : (token : String) → Evolves Later (look_up_refresh_token p token)
  unfolding look_up_refresh_token
  Later-look_up_refresh_token token = search (auth_rules, Later-check_stored) depth 10

  pub Later-claim_refresh_token :
      (stored : RefreshToken) → Evolves Later (claim_refresh_token p stored)
  unfolding claim_refresh_token
  Later-claim_refresh_token stored = search auth_rules depth 10

  pub Later-reissue : (actor : Option ResolvedActor) → Evolves Later (reissue p actor)
  unfolding reissue
  Later-reissue none = search auth_rules
  Later-reissue (some actor) = search (auth_rules, Later-issue_tokens)

  pub Later-refresh : (token : String) → Evolves Later (refresh p token)
  unfolding refresh
  Later-refresh token =
      search
        (
          auth_rules, Later-look_up_refresh_token, Later-claim_refresh_token, Later-resolve,
          Later-reissue,
        )
        depth 10

  Later-check_owned :
      (user : AuthenticatedUser) (found : Option RefreshToken)
      → Evolves Later (check_owned p user found)
  unfolding check_owned
  Later-check_owned user none = search auth_rules
  Later-check_owned user (some stored) = search auth_rules depth 10

  pub Later-logout :
      (token : String) (user : AuthenticatedUser) → Evolves Later (logout p token user)
  unfolding logout
  Later-logout token user = search (auth_rules, Later-check_owned) depth 10

  pub Later-change_password :
      (old new : String) (user : AuthenticatedUser) → Evolves Later (change_password p old new user)
  unfolding change_password
  Later-change_password old new user = search auth_rules depth 20
