-- ===== src/Users/Lifecycle/Effect.antt =====
-- What the lifecycle operations change, and on whom they act.
use flexi.Prelude.{
  ℕ, String, ◌==◌, ◌≡◌, inl, inr, Bool, true, false, not, ◌&&◌, some, arith, if◌then◌else◌, is_none,
  Option-cases,
}
use flexi.Exec.{ok, ◌>>=◌}
use flexi.Store.{ActorType, RefreshToken, World}
use flexi.Store.Rows.{count, update_many}
use flexi.Store.Rows.Laws.{count-update_many_zero, count-update_many_none, count-update_many_other}
use flexi.Store.Platform.{Platform}
use flexi.Store.Tables.{
  transaction, now, record_audit, update_refresh_tokens, update_tenant_user, update_system_user,
}
use flexi.Auth.Actors.{AuthenticatedUser}
use flexi.Auth.Permissions.{user_manage, holds, assert_actor_permission}
use flexi.Auth.Service.{is_live_of, revoke_at}
use flexi.Users.Lifecycle.{
  TargetActor, find_target, resolve_target, set_active_of, set_actor_active, revoke_live_sessions,
  AccountLifecycleResponse, audit_lifecycle, deactivate,
}

abbrev pub is_member : TargetActor → Bool
is_member target = elim target.actor_type [ ActorType.tenant ↦ true | ActorType.system ↦ false ]

-- A member of a tenant, or a system user, with the id that is still active.
abbrev pub active_rows : TargetActor → World → ℕ
active_rows target s =
    if is_member target
    then count (λ u. u.id == target.user_id && u.is_active) s.tenant_users
    else count (λ u. u.id == target.user_id && u.is_active) s.system_users

-- The live sessions of the other accounts.
abbrev pub is_live_elsewhere : String → RefreshToken → Bool
is_live_elsewhere account r = not (r.auth_account_id == account) && is_none r.revoked_at

module _ (p : Platform) where
  -- What a deactivation that returned shows and leaves.
  pub record Deactivated (user_id : String) (user : AuthenticatedUser) (s s' : World)
      (r : AccountLifecycleResponse) : Type 0 where
    pub target : TargetActor
    pub resolved : find_target user.actor_type user_id user.tenant_id s.db ≡ some target
    pub permitted : holds user user_manage ≡ true
    pub not_self : (target.auth_account_id == user.auth_account_id) ≡ false
    pub tokens :
        s'.refresh_tokens
        ≡ update_many
            (is_live_of target.auth_account_id)
            (revoke_at (p.clock s.ticks))
            s.refresh_tokens
    pub members : s'.tenant_users ≡ (
        if is_member target
        then update_many
            (λ u. u.id == target.user_id)
            (λ u. record u { is_active = false })
            s.tenant_users
        else s.tenant_users)
    pub operators : s'.system_users ≡ (
        if is_member target
        then s.system_users
        else update_many
            (λ u. u.id == target.user_id)
            (λ u. record u { is_active = false })
            s.system_users)
    pub response : r ≡ record {
      user_id = target.user_id;
      actor_type = target.actor_type;
      is_active = false;
      revoked_session_count = count (is_live_of target.auth_account_id) s.refresh_tokens;
    }

  deactivate-ok :
      (user_id : String) (user : AuthenticatedUser) (s : World) (r : AccountLifecycleResponse)
      → (deactivate p user_id user s).0 ≡ ok r
      → Deactivated user_id user s (deactivate p user_id user s).1 r
  unfolding deactivate assert_actor_permission resolve_target ◌>>=◌ now transaction set_actor_active
      set_active_of update_tenant_user update_system_user revoke_live_sessions update_refresh_tokens
      audit_lifecycle record_audit
  deactivate-ok user_id user s r h =
      elim (Option-cases (find_target user.actor_type user_id user.tenant_id s.db)) [
        | inl missing ↦ absurd (ground arith)
        | inr (target, e) ↦ record {
          target = target;
          resolved = e;
          permitted = ground arith;
          not_self = ground arith;
          tokens = ground arith;
          members = ground arith;
          operators = ground arith;
          response = ground arith;
        }
      ]

  none_active_member :
      (target : TargetActor) (s : World)
      → count
          (λ u. u.id == target.user_id && u.is_active)
          (update_many
            (λ u. u.id == target.user_id)
            (λ u. record u { is_active = false })
            s.tenant_users)
        ≡ 0
  none_active_member target s =
      count-update_many_none (λ u. u.id == target.user_id && u.is_active)
        (λ u. u.id == target.user_id) (λ u. record u { is_active = false }) s.tenant_users
        (λ u h. ground arith) (λ u h. ground arith)

  none_active_operator :
      (target : TargetActor) (s : World)
      → count
          (λ u. u.id == target.user_id && u.is_active)
          (update_many
            (λ u. u.id == target.user_id)
            (λ u. record u { is_active = false })
            s.system_users)
        ≡ 0
  none_active_operator target s =
      count-update_many_none (λ u. u.id == target.user_id && u.is_active)
        (λ u. u.id == target.user_id) (λ u. record u { is_active = false }) s.system_users
        (λ u h. ground arith) (λ u h. ground arith)

  no_active_row :
      (user_id : String) (user : AuthenticatedUser) (s s' : World) (r : AccountLifecycleResponse)
      → (d : Deactivated user_id user s s' r) → active_rows d.target s' ≡ 0
  no_active_row user_id user s s' r d = ground (
    arith,
    d.members,
    d.operators,
    none_active_member d.target s,
    none_active_operator d.target s,
  )

  -- A deactivation that returned acted on someone else than the caller, under the permission; it
  -- answers how many live sessions it revoked; no row of the actor is active and no session of the
  -- account live after it; and the live sessions of the other accounts are as many as before.
  pub deactivate_lem :
      (user_id : String) (user : AuthenticatedUser) (s : World) (r : AccountLifecycleResponse)
      → (deactivate p user_id user s).0 ≡ ok r
      → (d : Deactivated user_id user s (deactivate p user_id user s).1 r) × (active_rows d.target
            (deactivate p user_id user s).1
          ≡ 0)
        × (count
              (is_live_of d.target.auth_account_id)
              (deactivate p user_id user s).1.refresh_tokens
            ≡ 0)
        × (count
              (is_live_elsewhere d.target.auth_account_id)
              (deactivate p user_id user s).1.refresh_tokens
            ≡ count (is_live_elsewhere d.target.auth_account_id) s.refresh_tokens)
  deactivate_lem user_id user s r h =
      let d = deactivate-ok user_id user s r h in
      let account = d.target.auth_account_id in
      let t = p.clock s.ticks in
      (
        d,
        no_active_row user_id user s _ r d,
        rw d.tokens (
            count-update_many_zero (is_live_of account) (revoke_at t) s.refresh_tokens
              (λ r h. ground arith)),
        rw d.tokens (
            count-update_many_other (is_live_elsewhere account) (is_live_of account) (revoke_at t)
              s.refresh_tokens (λ r h. ground arith)),
      )
