-- ===== src/Auth/Sessions/Revocation.antt =====
-- What the revocation of sessions reaches, and what it leaves alone.
use flexi.Prelude.{String, ◌==◌, ◌≡◌, Bool, false, ◌&&◌, none, some, arith, eq_iff, if◌then◌else◌}
use flexi.Exec.{ok, err, session_not_found, forbidden, ◌>>=◌}
use flexi.Store.{ActorType, RefreshToken, World}
use flexi.Store.Rows.{find_first, count, update_many}
use flexi.Store.Rows.Laws.{count-update_many_zero, count-update_many_other}
use flexi.Store.Platform.{Platform}
use flexi.Store.Tables.{now, update_refresh_tokens, record_audit}
use flexi.Auth.Actors.{AuthenticatedUser}
use flexi.Auth.Permissions.{session_manage, holds, assert_actor_permission}
use flexi.Auth.Service.{is_live_of, is_spared, is_live_unspared, revoke_at}
use flexi.Auth.Sessions.{can_manage_account, revoke_session, revoke_all_sessions, kept_session}

module _ (p : Platform) where
  tokens-revoke_all :
      (keep : Bool) (user : AuthenticatedUser) (s : World)
      → ((revoke_all_sessions p keep user s).0
          ≡ ok (
              count
                (is_live_unspared user.auth_account_id (kept_session p keep user))
                s.refresh_tokens))
        × ((revoke_all_sessions p keep user s).1.refresh_tokens
            ≡ update_many
                (is_live_unspared user.auth_account_id (kept_session p keep user))
                (revoke_at (p.clock s.ticks))
                s.refresh_tokens)
  unfolding revoke_all_sessions ◌>>=◌ now update_refresh_tokens record_audit
  tokens-revoke_all keep user s = ground arith

  -- Revoking all sessions answers how many were live and not spared; none of those is live after it;
  -- the spared one, if it was live, still is; and every other account has its live sessions.
  pub revoke_all_sessions_lem :
      (keep : Bool) (user : AuthenticatedUser) (other : String) (s : World)
      → (user.auth_account_id == other) ≡ false
      → ((revoke_all_sessions p keep user s).0
          ≡ ok (
              count
                (is_live_unspared user.auth_account_id (kept_session p keep user))
                s.refresh_tokens))
        × (count
              (is_live_unspared user.auth_account_id (kept_session p keep user))
              (revoke_all_sessions p keep user s).1.refresh_tokens
            ≡ 0)
        × (count
              (λ r. is_live_of user.auth_account_id r && is_spared (kept_session p keep user) r)
              (revoke_all_sessions p keep user s).1.refresh_tokens
            ≡ count
                (λ r. is_live_of user.auth_account_id r && is_spared (kept_session p keep user) r)
                s.refresh_tokens)
        × (count (is_live_of other) (revoke_all_sessions p keep user s).1.refresh_tokens
            ≡ count (is_live_of other) s.refresh_tokens)
  revoke_all_sessions_lem keep user other s different =
      let kept = kept_session p keep user in
      let account = user.auth_account_id in
      let t = p.clock s.ticks in
      let hit = is_live_unspared account kept in
      let (answer, tokens) = tokens-revoke_all keep user s in
      (
        answer,
        rw tokens (count-update_many_zero hit (revoke_at t) s.refresh_tokens (λ r h. ground arith)),
        rw tokens (
            count-update_many_other (λ r. is_live_of account r && is_spared kept r) hit
              (revoke_at t) s.refresh_tokens (λ r h. ground arith)),
        rw tokens (
            count-update_many_other (is_live_of other) hit (revoke_at t) s.refresh_tokens
              (λ r h. ground (arith, eq_iff r.auth_account_id account, eq_iff account other))),
      )

  -- The account belongs to no member of the tenant.
  abbrev IsForeign : String → String → World → Type 0
  IsForeign tenant_id account s =
      find_first (λ u. u.auth_account_id == account && u.tenant_id == tenant_id) s.tenant_users
      ≡ none

  -- A tenant caller cannot touch a session of an account outside the tenant, whatever permissions the
  -- caller holds: nothing of the world changes, and the answer is that of a session that does not exist
  -- (or that of a caller without the permission).
  pub revoke_session_foreign :
      (id tenant_id : String) (user : AuthenticatedUser) (s : World) (session : RefreshToken)
      → user.actor_type ≡ ActorType.tenant
      → user.tenant_id ≡ some tenant_id
      → find_first (λ r. r.id == id) s.refresh_tokens ≡ some session
      → (session.auth_account_id == user.auth_account_id) ≡ false
      → IsForeign tenant_id session.auth_account_id s
      → revoke_session p id user s
        ≡ (if holds user session_manage then (err session_not_found, s) else (err forbidden, s))
  unfolding revoke_session assert_actor_permission can_manage_account ◌>>=◌
  revoke_session_foreign id tenant_id user s session actor tenant found other foreign = ground arith

  -- Where no session has the id, a caller with the permission gets the same answer as for a foreign one.
  pub revoke_session_missing :
      (id : String) (user : AuthenticatedUser) (s : World)
      → find_first (λ r. r.id == id) s.refresh_tokens ≡ none
      → revoke_session p id user s
        ≡ (if holds user session_manage then (err session_not_found, s) else (err forbidden, s))
  unfolding revoke_session assert_actor_permission ◌>>=◌
  revoke_session_missing id user s missing = ground arith
