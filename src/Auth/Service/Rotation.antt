-- ===== src/Auth/Service/Rotation.antt =====
-- Rotation of refresh tokens: reuse of a revoked token, and at most one claim of a session.
use flexi.Prelude.{
  ◌<◌, String, ◌==◌, ◌≡◌, refl, Bool, true, false, ◌&&◌, some, arith, is_none, is_some, eq_iff,
}
use flexi.Exec.{ok, err, invalid_refresh_token, ◌>>=◌}
use flexi.Store.{RefreshToken, World}
use flexi.Store.Rows.{find_first, count, update_many}
use flexi.Store.Rows.Laws.{count-update_many_zero, count-update_many_other, count-and-le}
use flexi.Store.Rows.Claims.{still_none_live}
use flexi.Store.Platform.{Platform, RefreshTokenPayload}
use flexi.Store.Tables.{now, update_refresh_tokens}
use flexi.Store.Evolution.{Later, HasUniqueKeys}
use flexi.Auth.Service.{
  is_live_of, revoke_at, lift_option, check_stored, claim_refresh_token, refresh,
}
use flexi.Auth.Service.Trail.{Later-claim_refresh_token}

-- The rows with an id that are not revoked.
abbrev pub is_live_session : String → RefreshToken → Bool
is_live_session id r = r.id == id && is_none r.revoked_at

module _ (p : Platform) where
  -- The claim revokes the session's row, if it is live, and nothing else.
  pub tokens-claim :
      (stored : RefreshToken) (s : World)
      → (claim_refresh_token p stored s).1.refresh_tokens
        ≡ update_many (is_live_session stored.id) (revoke_at (p.clock s.ticks)) s.refresh_tokens
  unfolding claim_refresh_token ◌>>=◌ now update_refresh_tokens
  tokens-claim stored s = ground arith

  -- The claim succeeds exactly where a row of the session is live.
  claim-ok :
      (stored : RefreshToken) (s : World)
      → (claim_refresh_token p stored s).0 ≡ ok tt
      → 0 < count (is_live_session stored.id) s.refresh_tokens
  unfolding claim_refresh_token ◌>>=◌ now update_refresh_tokens
  claim-ok stored s h = ground arith

  claim-refused :
      (stored : RefreshToken) (s : World)
      → count (is_live_session stored.id) s.refresh_tokens ≡ 0
      → (claim_refresh_token p stored s).0 ≡ err invalid_refresh_token
  unfolding claim_refresh_token ◌>>=◌ now update_refresh_tokens
  claim-refused stored s h = ground arith

  -- A session is claimed once: after a claim that succeeded, and whatever other requests did since,
  -- a second claim of the same session fails.
  pub claim_refresh_token_once :
      (stored : RefreshToken) (s later : World)
      → HasUniqueKeys s
      → (claim_refresh_token p stored s).0 ≡ ok tt
      → Later (claim_refresh_token p stored s).1 later
      → (claim_refresh_token p stored later).0 ≡ err invalid_refresh_token
  claim_refresh_token_once stored s later u claimed l =
      let t = p.clock s.ticks in
      let live = is_live_session stored.id in
      let none_live =
        count-update_many_zero live (revoke_at t) s.refresh_tokens (λ r h. ground arith) in
      let kept =
        count-update_many_other (λ r. r.id == stored.id) live (revoke_at t) s.refresh_tokens
          (λ r h. refl) in
      let one_live = claim-ok stored s claimed in
      let some_row =
        count-and-le (λ r. r.id == stored.id) (λ r. is_none r.revoked_at) s.refresh_tokens in
      let keys = l.keys (((Later-claim_refresh_token p stored).at s).keys u) in
      claim-refused stored later (
        still_none_live (λ r. r.id) (λ r. is_none r.revoked_at) (λ r r' h. ground arith)
          (λ r r' h k. ground arith) stored.id (update_many live (revoke_at t) s.refresh_tokens)
          later.refresh_tokens (rw (tokens-claim stored s) at l.tokens) keys.token_ids
          (omega (arith, kept, one_live, some_row)) none_live)

  -- Reuse of a revoked token: the answer is the plain refusal, no session of the token's owner is
  -- left live, and the live sessions of every other account are as many as before.
  pub refresh_reuse :
      (token other : String) (s : World) (decoded : RefreshTokenPayload) (stored : RefreshToken)
      → p.verify_refresh (p.clock s.ticks) token ≡ some decoded
      → find_first (λ r. r.token_hash == p.sha256 token) s.refresh_tokens ≡ some stored
      → is_some stored.revoked_at ≡ true
      → (stored.auth_account_id == other) ≡ false
      → ((refresh p token s).0 ≡ err invalid_refresh_token)
        × (count (is_live_of stored.auth_account_id) (refresh p token s).1.refresh_tokens ≡ 0)
        × (count (is_live_of other) (refresh p token s).1.refresh_tokens
            ≡ count (is_live_of other) s.refresh_tokens)
  unfolding refresh ◌>>=◌ now update_refresh_tokens
  refresh_reuse token other s decoded stored verified found reused different =
      rw (verified, lift_option)
        (rw (found, check_stored)
          (rw reused (
            refl,
            count-update_many_zero (is_live_of stored.auth_account_id) (revoke_at _)
                s.refresh_tokens (λ r h. ground arith),
            count-update_many_other (is_live_of other) (is_live_of stored.auth_account_id)
                (revoke_at _) s.refresh_tokens
                (λ r h. ground (
                  arith,
                  eq_iff r.auth_account_id stored.auth_account_id,
                  eq_iff stored.auth_account_id other,
                )),
          )))
