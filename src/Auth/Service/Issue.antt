-- ===== src/Auth/Service/Issue.antt =====
-- When tokens are issued, and what is issued.
use flexi.Prelude.{
  ℕ, suc, ◌+◌, ◌*◌, ◌≤◌, String, ◌==◌, ==_refl, ◌≡◌, refl, ap, ◌∙◌, true, ◌||◌, Option, none, some,
  List, [], ◌∷◌, ◌++◌, arith, eq_iff, if◌then◌else◌,
}
use flexi.Exec.{ok, raise, invalid_refresh_token, ◌>>=◌}
use flexi.Store.{RefreshToken, World}
use flexi.Store.Rows.{find_first, count, update_many}
use flexi.Store.Rows.Laws.{count-update_many_other, count-pos}
use flexi.Store.Platform.{Platform, RefreshTokenPayload}
use flexi.Store.Tables.{now, draw, create_refresh_token, update_refresh_tokens}
use flexi.Auth.Duration.{duration_to_seconds}
use flexi.Auth.Actors.{
  ResolvedActor, resolve_actor_by_auth_account_id, choose_actor, is_tenant_active,
}
use flexi.Auth.Service.{
  revoke_at, access_payload, issue_tokens, check_stored, look_up_refresh_token, claim_refresh_token,
  reissue, refresh,
}
use flexi.Auth.Service.Rotation.{is_live_session}

module _ (p : Platform) where
  open p use {cuid, random_uuid, sha256, sign_refresh, sign_access, clock, verify_refresh}

  -- The refresh token that is minted in a state.
  abbrev minted : String → World → String
  minted account s =
      sign_refresh (record { sub = account; jti = random_uuid s.draws }) p.jwt_refresh_expires_in
        (clock s.ticks)

  -- The row of the minted token, valid for `seconds`.
  abbrev minted_row : String → ℕ → World → RefreshToken
  minted_row account seconds s = record {
    id = cuid (suc s.draws);
    auth_account_id = account;
    token_hash = sha256 (minted account s);
    expires_at = clock (suc s.ticks) + seconds * 1000;
    revoked_at = none;
    created_at = clock (suc (suc s.ticks));
  }

  -- The identifier and the hash of the minted token are new.
  abbrev IsFresh : String → World → Type 0
  IsFresh account s =
      count (λ r. r.id == cuid (suc s.draws) || r.token_hash == sha256 (minted account s))
        s.refresh_tokens
      ≡ 0

  -- With configured lifetimes that parse and a fresh token, the tokens are issued: one session is
  -- added, live, of the actor's account, and the access token carries the actor and that session.
  issue_tokens_lem :
      (actor : ResolvedActor) (s : World) (access_seconds refresh_seconds : ℕ)
      → duration_to_seconds p.jwt_access_expires_in ≡ some access_seconds
      → duration_to_seconds p.jwt_refresh_expires_in ≡ some refresh_seconds
      → IsFresh actor.auth_account_id s
      → ((issue_tokens p actor s).0
          ≡ ok (record {
            access_token =
                sign_access
                  (access_payload p actor (cuid (suc s.draws)))
                  p.jwt_access_expires_in
                  (clock (suc (suc (suc s.ticks))));
            refresh_token = minted actor.auth_account_id s;
            expires_in = access_seconds;
          }))
        × ((issue_tokens p actor s).1.refresh_tokens
            ≡ s.refresh_tokens ++ minted_row actor.auth_account_id refresh_seconds s ∷ [])
  unfolding issue_tokens ◌>>=◌ now draw create_refresh_token
  issue_tokens_lem actor s a r access refresh fresh = ground arith

  -- The token that a rotation begun in `s` mints, three readings of the clock later.
  abbrev next_token : String → World → String
  next_token account s =
      sign_refresh (record { sub = account; jti = random_uuid s.draws }) p.jwt_refresh_expires_in
        (clock (suc (suc (suc s.ticks))))

  -- What a rotation needs: the token verifies, its row is live, unexpired and the payload's subject
  -- owns it; the account's actor is there and active; the lifetimes parse; the new token is fresh.
  pub record CanRotate (token : String) (s : World) (decoded : RefreshTokenPayload)
      (stored : RefreshToken) (actor : ResolvedActor) (access_seconds refresh_seconds : ℕ)
      : Type 0 where
    pub verified : verify_refresh (clock s.ticks) token ≡ some decoded
    pub found : find_first (λ r. r.token_hash == sha256 token) s.refresh_tokens ≡ some stored
    pub live : stored.revoked_at ≡ none
    pub unexpired : clock (suc s.ticks) ≤ stored.expires_at
    pub owned : stored.auth_account_id ≡ decoded.sub
    pub resolved : (resolve_actor_by_auth_account_id stored.auth_account_id s).0 ≡ ok (some actor)
    pub active : actor.is_active ≡ true
    pub access_lifetime : duration_to_seconds p.jwt_access_expires_in ≡ some access_seconds
    pub refresh_lifetime : duration_to_seconds p.jwt_refresh_expires_in ≡ some refresh_seconds
    pub fresh :
        count
          (λ r.
            r.id == cuid (suc s.draws)
            || r.token_hash == sha256 (next_token actor.auth_account_id s))
          s.refresh_tokens
        ≡ 0

  -- The actor of an account depends on neither the sessions nor the clock.
  resolve-frame :
      (id : String) (s : World) (tokens : List RefreshToken) (ticks : ℕ)
      (found : Option ResolvedActor)
      → (resolve_actor_by_auth_account_id id s).0 ≡ ok found
      → resolve_actor_by_auth_account_id id
          (record s { db = record s.db { refresh_tokens = tokens }; ticks = ticks })
        ≡ (ok found, record s { db = record s.db { refresh_tokens = tokens }; ticks = ticks })
  unfolding resolve_actor_by_auth_account_id choose_actor ◌>>=◌ is_tenant_active
  resolve-frame id s tokens ticks found h = ground arith

  reissue-active :
      (actor : ResolvedActor)
      → actor.is_active ≡ true
      → reissue p (some actor) ≡ issue_tokens p actor
  unfolding reissue
  reissue-active actor h =
      ap (λ b. if b then issue_tokens p actor else raise invalid_refresh_token) h

  -- The state when the token's session is claimed.
  abbrev claimed : RefreshToken → World → World
  claimed stored s = record s {
    db = record s.db {
      refresh_tokens =
          update_many (is_live_session stored.id) (revoke_at (clock (suc (suc s.ticks))))
            s.refresh_tokens;
    };
    ticks = suc (suc (suc s.ticks));
  }

  module _ (token : String) (s : World) (decoded : RefreshTokenPayload) (stored : RefreshToken)
      (actor : ResolvedActor) (access_seconds refresh_seconds : ℕ)
      (can : CanRotate token s decoded stored actor access_seconds refresh_seconds) where
    refresh-claimed : refresh p token s ≡ reissue p (some actor) (claimed stored s)
    unfolding refresh look_up_refresh_token check_stored claim_refresh_token ◌>>=◌ now
        update_refresh_tokens
    refresh-claimed =
        let one_live =
          count-pos (λ r. r.token_hash == sha256 token) (is_live_session stored.id) s.refresh_tokens
            stored can.found (ground (arith, ==_refl stored.id, can.live)) in
        let tokens =
          update_many (is_live_session stored.id) (revoke_at (clock (suc (suc s.ticks))))
            s.refresh_tokens in
        ground (
          arith,
          one_live,
          can.verified,
          can.found,
          can.live,
          can.unexpired,
          can.owned,
          eq_iff stored.auth_account_id decoded.sub,
          resolve-frame stored.auth_account_id s tokens (suc (suc (suc s.ticks))) (some actor)
              can.resolved,
        )

    -- The rotation succeeds: the session of the presented token is revoked, the other sessions are
    -- untouched, and one live session of the actor's account is added, with the hash of the refresh
    -- token that the answer carries.
    pub refresh_rotates :
        ((refresh p token s).0
          ≡ ok (record {
            access_token =
                sign_access
                  (access_payload p actor (cuid (suc s.draws)))
                  p.jwt_access_expires_in
                  (clock (suc (suc (suc (suc (suc (suc s.ticks)))))));
            refresh_token = next_token actor.auth_account_id s;
            expires_in = access_seconds;
          }))
        × ((refresh p token s).1.refresh_tokens
            ≡ update_many
                (is_live_session stored.id)
                (revoke_at (clock (suc (suc s.ticks))))
                s.refresh_tokens
              ++ record {
                id = cuid (suc s.draws);
                auth_account_id = actor.auth_account_id;
                token_hash = sha256 (next_token actor.auth_account_id s);
                expires_at = clock (suc (suc (suc (suc s.ticks)))) + refresh_seconds * 1000;
                revoked_at = none;
                created_at = clock (suc (suc (suc (suc (suc s.ticks)))));
              }
                ∷ [])
    refresh_rotates =
        let fresh =
          count-update_many_other
            (λ r.
              r.id == cuid (suc s.draws)
              || r.token_hash == sha256 (next_token actor.auth_account_id s))
            (is_live_session stored.id) (revoke_at (clock (suc (suc s.ticks)))) s.refresh_tokens
            (λ r h. refl) in
        rw refresh-claimed (
          rw (reissue-active actor can.active) (
            issue_tokens_lem actor (claimed stored s) access_seconds refresh_seconds
              can.access_lifetime can.refresh_lifetime (fresh ∙ can.fresh)))
