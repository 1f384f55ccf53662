-- ===== src/Auth/Service/SingleUse.antt =====
-- A refresh token serves once.
use flexi.Prelude.{
  suc, ◌≤◌, String, ◌==◌, ==_refl, ◌≡◌, refl, Bool, true, some, arith, is_none, is_some,
}
use flexi.Exec.{ok, err, invalid_refresh_token, ◌>>=◌, Evolves.Evolves}
use flexi.Exec.Outcome.{bind-ok}
use flexi.Store.{RefreshToken, World}
use flexi.Store.Rows.{find_first}
use flexi.Store.Rows.Laws.{find_first-update_many}
use flexi.Store.Rows.Grows.{Grows-find_first}
use flexi.Store.Platform.{Platform}
use flexi.Store.Tables.{now, update_refresh_tokens}
use flexi.Store.Evolution.{Later}
use flexi.Store.Evolution.Rules.{later_rules}
use flexi.Auth.Actors.{resolve_actor_by_auth_account_id}
use flexi.Auth.Service.{
  AuthTokens, revoke_at, kill_sessions, check_stored, look_up_refresh_token, claim_refresh_token,
  reissue, refresh,
}
use flexi.Auth.Service.Trail.{Later-resolve, Later-reissue}
use flexi.Auth.Service.Rotation.{is_live_session, tokens-claim}

module _ (p : Platform) where
  abbrev has_hash_of : String → RefreshToken → Bool
  has_hash_of token r = r.token_hash == p.sha256 token

  -- What a look-up that succeeded has checked.
  pub record LookedUp (token : String) (s : World) (stored : RefreshToken) : Type 0 where
    pub found : find_first (has_hash_of token) s.refresh_tokens ≡ some stored
    pub live : is_none stored.revoked_at ≡ true
    pub unexpired : p.clock (suc s.ticks) ≤ stored.expires_at
    pub unchanged : (look_up_refresh_token p token s).1.refresh_tokens ≡ s.refresh_tokens

  look_up-ok :
      (token : String) (s : World) (stored : RefreshToken)
      → (look_up_refresh_token p token s).0 ≡ ok stored
      → LookedUp token s stored
  unfolding look_up_refresh_token check_stored kill_sessions ◌>>=◌ now update_refresh_tokens
  look_up-ok token s stored h = ground arith

  -- A token whose row is revoked, or that no longer verifies, is refused.
  refresh-revoked :
      (token : String) (s : World) (stored : RefreshToken)
      → find_first (has_hash_of token) s.refresh_tokens ≡ some stored
      → is_some stored.revoked_at ≡ true
      → (refresh p token s).0 ≡ err invalid_refresh_token
  unfolding refresh look_up_refresh_token check_stored kill_sessions ◌>>=◌ now update_refresh_tokens
  refresh-revoked token s stored found revoked = ground arith

  after_claim :
      (stored : RefreshToken)
      → Evolves Later
          (do actor ← resolve_actor_by_auth_account_id stored.auth_account_id; reissue p actor)
  after_claim stored = search (later_rules, Later-resolve, Later-reissue)

  -- The token's row, and that it is revoked.
  abbrev HasRevoked : String → World → Type 0
  HasRevoked token s =
      (stored : RefreshToken) × (find_first (has_hash_of token) s.refresh_tokens ≡ some stored)
      × (is_some stored.revoked_at ≡ true)

  HasRevoked-claim :
      (token : String) (stored : RefreshToken) (s : World)
      → find_first (has_hash_of token) s.refresh_tokens ≡ some stored
      → is_none stored.revoked_at ≡ true
      → HasRevoked token (claim_refresh_token p stored s).1
  HasRevoked-claim token stored s found live =
      let t = p.clock s.ticks in
      let updated =
        find_first-update_many (has_hash_of token) (is_live_session stored.id) (revoke_at t)
          s.refresh_tokens stored (λ r. refl) found in
      (
        revoke_at t stored,
        rw (tokens-claim p stored s) (ground (arith, updated, ==_refl stored.id)),
        refl,
      )

  HasRevoked-Later :
      (token : String) (s s' : World) → HasRevoked token s → Later s s' → HasRevoked token s'
  HasRevoked-Later token s s' (stored, found, revoked) l =
      let (now_stored, found', later) =
        Grows-find_first (has_hash_of token) s.refresh_tokens s'.refresh_tokens stored
          (λ a b same. ground (arith, same.hash)) l.tokens found in
      (now_stored, found', later.stays_revoked revoked)

  -- A refresh that succeeded leaves the row of its token revoked.
  refresh-HasRevoked :
      (token : String) (s : World) {tokens : AuthTokens}
      → (refresh p token s).0 ≡ ok tokens
      → HasRevoked token (refresh p token s).1
  unfolding refresh
  refresh-HasRevoked token s h =
      let (stored, looked_up, h', end) = bind-ok _ _ s h in
      let s₁ = (look_up_refresh_token p token s).1 in
      let (_, claimed, h'', end') = bind-ok _ _ s₁ h' in
      let checked = look_up-ok token s stored looked_up in
      let s₂ = (claim_refresh_token p stored s₁).1 in
      let revoked =
        HasRevoked-claim token stored s₁ (rw checked.unchanged checked.found) checked.live in
      rw end (rw end' (HasRevoked-Later token s₂ _ revoked ((after_claim stored).at s₂)))

  -- A refresh token serves once: after a refresh that succeeded, and whatever other requests did
  -- since, presenting the same token again is refused.
  pub refresh_once :
      (token : String) (s later : World) {tokens : AuthTokens}
      → (refresh p token s).0 ≡ ok tokens
      → Later (refresh p token s).1 later
      → (refresh p token later).0 ≡ err invalid_refresh_token
  refresh_once token s later h l =
      let (stored, found, revoked) =
        HasRevoked-Later token (refresh p token s).1 later (refresh-HasRevoked token s h) l in
      refresh-revoked token later stored found revoked
