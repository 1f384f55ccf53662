-- ===== src/Requests/Replay.antt =====
-- Replays and races of refresh tokens, between any other requests.
use flexi.Prelude.{ℕ, String, ◌≡◌, List}
use flexi.Exec.{err, invalid_refresh_token, invalid_otp, ok}
use flexi.Store.{Cls, RefreshToken, PasswordResetOtp, World}
use flexi.Store.Platform.{Platform}
use flexi.Store.Evolution.{HasUniqueKeys}
use flexi.Auth.Service.{AuthTokens, refresh, claim_refresh_token}
use flexi.Auth.Service.SingleUse.{refresh_once}
use flexi.Auth.Service.Rotation.{claim_refresh_token_once}
use flexi.Auth.Reset.{ResetActor, set_password}
use flexi.Auth.Reset.Single.{set_password_once}
use flexi.Requests.{Request, run}
use flexi.Requests.Trail.{run-Later}

module _ (p : Platform) where
  -- A refresh token serves once: after a refresh that succeeded, and whatever requests are served
  -- after it, the same token is refused.
  pub refresh-run-refresh :
      (token : String) (s : World) (tokens : AuthTokens) (rs : List (Cls × Request))
      → (refresh p token s).0 ≡ ok tokens
      → (refresh p token (run p (refresh p token s).1 rs)).0 ≡ err invalid_refresh_token
  refresh-run-refresh token s tokens rs h =
      refresh_once p token s (run p (refresh p token s).1 rs) h
        (run-Later p (refresh p token s).1 rs)

  -- Of two refreshes that looked up the same session, one claims it, where keys are unique: after a claim that succeeded, and
  -- whatever requests are served before the other one claims, that claim is refused.
  pub claim-run-claim :
      (stored : RefreshToken) (s : World) (rs : List (Cls × Request))
      → HasUniqueKeys s
      → (claim_refresh_token p stored s).0 ≡ ok tt
      → (claim_refresh_token p stored (run p (claim_refresh_token p stored s).1 rs)).0
        ≡ err invalid_refresh_token
  claim-run-claim stored s rs unique h =
      claim_refresh_token_once p stored s (run p (claim_refresh_token p stored s).1 rs) unique h
        (run-Later p (claim_refresh_token p stored s).1 rs)

  -- A reset code sets a password once, where keys are unique: after a write that succeeded, and whatever requests are served
  -- after it, a second write under the same code is refused and leaves the database as it was.
  pub set_password-run-set_password :
      (actor other : ResetActor) (otp : PasswordResetOtp) (hash hash' : String) (t t' n : ℕ)
      (s : World) (rs : List (Cls × Request))
      → HasUniqueKeys s
      → (set_password p actor otp hash t s).0 ≡ ok n
      → ((set_password p other otp hash' t' (run p (set_password p actor otp hash t s).1 rs)).0
          ≡ err invalid_otp)
        × ((set_password p other otp hash' t' (run p (set_password p actor otp hash t s).1 rs)).1.db
            ≡ (run p (set_password p actor otp hash t s).1 rs).db)
  set_password-run-set_password actor other otp hash hash' t t' n s rs unique h =
      set_password_once p actor other otp hash hash' t t' n s
        (run p (set_password p actor otp hash t s).1 rs) unique h
        (run-Later p (set_password p actor otp hash t s).1 rs)
