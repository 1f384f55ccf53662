-- ===== src/Auth/Sessions.antt =====
-- modules/auth/sessions.service.ts: the inventory of sessions and their revocation.
pub mod Trail
pub mod Revocation
pub mod Listing
use flexi.Prelude.{
  ℕ, String, ◌==◌, includes, truthy, same, Bool, true, false, not, ◌&&◌, Option, none, some, List,
  [], ◌∷◌, map, if◌then◌else◌, is_none, is_some, ltb,
}
use flexi.Exec.{raise, pure, gets, refuse_if, session_not_found, ◌>>=◌, ◌>>◌}
use flexi.Store.{ActorType, RefreshToken, World, Db, AuthAuditEvent, MetaValue}
use flexi.Store.Rows.{find_first, find_many, order_desc}
use flexi.Store.Platform.{Platform}
use flexi.Store.Tables.{Action, update_refresh_tokens, now, record_audit, AuthAuditEntry}
use flexi.Auth.Actors.{AuthenticatedUser}
use flexi.Auth.Service.{lift_option, is_live_of, is_live_unspared, revoke_at}
use flexi.Auth.Permissions.{session_manage, user_manage, holds, assert_actor_permission}

-- One row of the listing: no token and no hash. Times stay in milliseconds.
pub record SessionItem : Type 0 where
  pub id : String
  pub created_at : ℕ
  pub expires_at : ℕ
  pub current : Bool

abbrev pub to_session_item : AuthenticatedUser → RefreshToken → SessionItem
to_session_item user r = record {
  id = r.id;
  created_at = r.created_at;
  expires_at = r.expires_at;
  current = same user.session_id r.id;
}

-- A column compared with an optional value: the data client leaves an absent one out of the filter.
abbrev pub matches_optional : Option String → String → Bool
matches_optional none column = true
matches_optional (some value) column = column == value

-- a member of the caller's tenant, or a system user, behind the account
abbrev pub has_target : AuthenticatedUser → ActorType → String → Db → Bool
has_target user ActorType.tenant target db = is_some (
    find_first (λ u. u.auth_account_id == target && matches_optional user.tenant_id u.tenant_id)
      db.tenant_users)
has_target user ActorType.system target db =
    is_some (find_first (λ u. u.auth_account_id == target) db.system_users)

unfoldable pub can_manage_account : AuthenticatedUser → String → Db → Bool
can_manage_account user target db =
    holds user user_manage && has_target user user.actor_type target db

module _ (p : Platform) where
  unfoldable pub list_sessions : AuthenticatedUser → Action (List SessionItem)
  list_sessions user = do
    t ← now p
    sessions ← gets (λ s.
        order_desc (λ r. r.created_at)
          (find_many (λ r. is_live_of user.auth_account_id r && ltb t r.expires_at)
            s.refresh_tokens))
    pure (map (to_session_item user) sessions)

  unfoldable pub revoke_session : String → AuthenticatedUser → Action ℕ
  revoke_session session_id user = do
    assert_actor_permission user session_manage
    found ← gets (λ s. find_first (λ r. r.id == session_id) s.refresh_tokens)
    session ← lift_option session_not_found found
    let is_self = session.auth_account_id == user.auth_account_id
    manages ← gets (λ s. can_manage_account user session.auth_account_id s.db)
    refuse_if (not is_self && not manages) session_not_found
    t ← now p
    revoked ← update_refresh_tokens (λ r. r.id == session.id && is_none r.revoked_at) (revoke_at t)
    record_audit p (record {
      event = AuthAuditEvent.session_revoked;
      tenant_id = user.tenant_id;
      subject_auth_account_id = some session.auth_account_id;
      actor_auth_account_id = if is_self then none else some user.auth_account_id;
      impersonated = none;
      impersonator_id = none;
      metadata = ("revokedCount", MetaValue.num revoked) ∷ ("self", MetaValue.flag is_self) ∷ [];
    })
    pure revoked

  abbrev kept_session : Bool → AuthenticatedUser → Option String
  kept_session keep_current user = if keep_current then user.session_id else none

  unfoldable pub revoke_all_sessions : Bool → AuthenticatedUser → Action ℕ
  revoke_all_sessions keep_current user = do
    let kept = kept_session keep_current user
    t ← now p
    revoked ← update_refresh_tokens (is_live_unspared user.auth_account_id kept) (revoke_at t)
    record_audit p (record {
      event = AuthAuditEvent.all_sessions_revoked;
      tenant_id = user.tenant_id;
      subject_auth_account_id = some user.auth_account_id;
      actor_auth_account_id = none;
      impersonated = none;
      impersonator_id = none;
      metadata =
          ("revokedCount", MetaValue.num revoked)
          ∷ ("keptCurrent", MetaValue.flag (truthy kept))
          ∷ [];
    })
    pure revoked
