-- ===== src/Users/Invites.antt =====
-- modules/users/user-invite.service.ts: invites to a tenant, sent again, withdrawn and redeemed.
pub mod Redemption
use flexi.Prelude.{
  ℕ, ◌+◌, ◌*◌, String, ◌==◌, same, truthy, Bool, true, false, not, ◌&&◌, ◌||◌, Option, none, some,
  List, [], ◌∷◌, ◌++◌, if◌then◌else◌, leb, ltb, eqb, any, is_some,
}
use flexi.Exec.{
  raise, pure, gets, refuse_if, forbidden, validation_error, tenant_not_found, invite_not_found,
  invite_not_pending, invite_token_expired, record_not_found, ◌>>=◌, ◌>>◌,
}
use flexi.Store.{
  ActorType, TenantUserStatus, UserInviteStatus, Tenant, Role, TenantUser, UserInvite, World, Db,
  AuthAuditEvent, MetaValue, Mail,
}
use flexi.Store.Rows.{find_first}
use flexi.Store.Platform.{Platform, DeliveryOutcome}
use flexi.Store.Tables.{
  Action, transaction, update_user_invites, create_user_invite, update_auth_account,
  update_tenant_user, now, draw, send_mail, record_audit, AuthAuditEntry,
}
use flexi.Auth.Actors.{AuthenticatedUser}
use flexi.Auth.Email.{trim_text}
use flexi.Auth.Guard.{is_tenant, text_of}
use flexi.Auth.Service.{lift_option, assert_password_meets_policy}
use flexi.Users.Quota.{is_pending, is_invited, assert_seats_available}

abbrev pub user_invite_ttl_hours : ℕ
user_invite_ttl_hours = 72

pub record TenantActor : Type 0 where
  pub tenant_id : String
  pub auth_account_id : String
  pub tenant_user_id : Option String

unfoldable pub require_tenant_actor : AuthenticatedUser → Action TenantActor
require_tenant_actor user = do
  refuse_if (not (is_tenant user.actor_type) || not (truthy user.tenant_id)) forbidden
  pure (record {
    tenant_id = text_of user.tenant_id;
    auth_account_id = user.auth_account_id;
    tenant_user_id = user.tenant_user_id;
  })

unfoldable pub require_invite : String → String → Action UserInvite
require_invite invite_id tenant_id = do
  found ← gets (λ s. find_first (λ i. i.id == invite_id && i.tenant_id == tenant_id) s.user_invites)
  lift_option invite_not_found found

unfoldable pub require_active_tenant : String → Action Tenant
require_active_tenant tenant_id = do
  found ← gets (λ s. find_first (λ t. t.id == tenant_id && t.status == "ACTIVE") s.tenants)
  lift_option tenant_not_found found

abbrev pub is_pending_invite : String → UserInvite → Bool
is_pending_invite id i = i.id == id && is_pending i.status

abbrev pub retire_at : ℕ → UserInvite → UserInvite
retire_at t i = record i { status = UserInviteStatus.revoked; revoked_at = some t }

abbrev pub use_at : ℕ → UserInvite → UserInvite
use_at t i = record i { status = UserInviteStatus.used; used_at = some t }

-- the other pending invites of the membership
abbrev pub is_other_pending : String → String → UserInvite → Bool
is_other_pending user_id id i =
    same i.tenant_user_id user_id && not (i.id == id) && is_pending i.status

abbrev pub is_revoked : UserInviteStatus → Bool
is_revoked UserInviteStatus.revoked = true
is_revoked _ = false

-- `{ roles: { connect: { id } } }`: raises where no role has the id; a role is held once
abbrev connect : Option Role → TenantUser → TenantUser
connect none u = u
connect (some r) u = record u {
  roles = if any (λ q. q.id == r.id) u.roles then u.roles else u.roles ++ r ∷ [];
}

abbrev pub activate_member : String → Option Role → TenantUser → TenantUser
activate_member name role u = record (connect role u) {
  name = some name;
  status = TenantUserStatus.active;
  is_active = true;
}

abbrev pub delete_member : TenantUser → TenantUser
delete_member u = record u { status = TenantUserStatus.deleted; is_active = false }

unfoldable pub role_to_grant : Option String → Action (Option Role)
role_to_grant role_id =
    if truthy role_id
    then (do
      found ← gets (λ s. find_first (λ r. r.id == text_of role_id) s.all_roles)
      role ← lift_option record_not_found found
      pure (some role))
    else pure none

-- the filter of the invite that a redemption found
abbrev pub is_redeemable : ℕ → UserInvite → Bool
is_redeemable t i = truthy i.tenant_user_id && is_pending i.status && ltb t i.expires_at

pub record RedeemedInvite : Type 0 where
  pub tenant_id : String
  pub user_id : String
  pub auth_account_id : String
  pub email : String
  pub invite_id : String

module _ (p : Platform) where
  abbrev pub audit_invite :
      AuthAuditEvent
      → String
      → Option String
      → Option String
      → List (String × MetaValue)
      → Action Unit
  audit_invite event tenant_id subject actor metadata = record_audit p (record {
    event = event;
    tenant_id = some tenant_id;
    subject_auth_account_id = subject;
    actor_auth_account_id = actor;
    impersonated = none;
    impersonator_id = none;
    metadata = metadata;
  })

  -- the membership and its other invites go with the invite
  unfoldable pub release_member : Option String → String → ℕ → Action Unit
  release_member user_id invite_id t =
      if truthy user_id
      then (do
        update_tenant_user (text_of user_id) delete_member
        update_user_invites (is_other_pending (text_of user_id) invite_id) (retire_at t)
        pure tt)
      else pure tt

  unfoldable pub withdraw : UserInvite → Action UserInvite
  withdraw existing = transaction (do
    t ← now p
    consumed ← update_user_invites (is_pending_invite existing.id) (retire_at t)
    refuse_if (not (eqb consumed 1)) invite_not_pending
    release_member existing.tenant_user_id existing.id t
    found ← gets (λ s. find_first (λ i. i.id == existing.id) s.user_invites)
    lift_option record_not_found found)

  -- the answer is the invite's row
  unfoldable pub revoke_invite : String → AuthenticatedUser → Action UserInvite
  revoke_invite invite_id user = do
    actor ← require_tenant_actor user
    existing ← require_invite invite_id actor.tenant_id
    if is_revoked existing.status then pure existing else (do
      refuse_if (not (is_pending existing.status)) invite_not_pending
      revoked ← withdraw existing
      audit_invite AuthAuditEvent.user_invite_revoked actor.tenant_id none
          (some actor.auth_account_id)
          (("inviteId", MetaValue.text existing.id) ∷ ("email", MetaValue.text existing.email) ∷ [])
      pure revoked)

  unfoldable pub replace_invite : UserInvite → TenantActor → String → String → ℕ → Action UserInvite
  replace_invite existing actor row token expires_at = transaction (do
    t ← now p
    retired ← update_user_invites (is_pending_invite existing.id) (retire_at t)
    refuse_if (not (eqb retired 1)) invite_not_pending
    created_at ← now p
    let invite : UserInvite = record {
      id = row;
      tenant_id = actor.tenant_id;
      email = existing.email;
      role_id = existing.role_id;
      tenant_user_id = existing.tenant_user_id;
      token_hash = p.sha256 token;
      expires_at = expires_at;
      status = UserInviteStatus.pending;
      used_at = none;
      revoked_at = none;
      invited_by_id = actor.tenant_user_id;
      created_at = created_at;
    }
    create_user_invite invite
    pure invite)

  -- the new row and whether it was delivered
  unfoldable pub resend_invite : String → AuthenticatedUser → Action (UserInvite × Bool)
  resend_invite invite_id user = do
    actor ← require_tenant_actor user
    existing ← require_invite invite_id actor.tenant_id
    refuse_if (not (is_pending existing.status)) invite_not_pending
    refuse_if (not (truthy existing.tenant_user_id)) invite_not_pending
    t ← now p
    if leb existing.expires_at t
        then (assert_seats_available p actor.tenant_id 1 >>= λ _. pure tt)
        else pure tt
    tenant ← require_active_tenant actor.tenant_id
    n ← draw p
    minted_at ← now p
    row ← draw p
    invite ←
        replace_invite existing actor (p.cuid row) (p.random_token n)
          (minted_at + user_invite_ttl_hours * 60 * 60 * 1000)
    outcome ←
        send_mail p
          (Mail.user_invite invite.email tenant.name (p.random_token n) user_invite_ttl_hours)
    audit_invite AuthAuditEvent.user_invite_resent invite.tenant_id none
        (some actor.auth_account_id)
        (("inviteId", MetaValue.text invite.id)
          ∷ ("email", MetaValue.text invite.email)
          ∷ ("emailDelivered", MetaValue.flag outcome.delivered)
          ∷ [])
    pure (invite, outcome.delivered)

  -- the writes of a redemption, once the invite and the membership are found
  unfoldable pub claim_member :
      UserInvite → TenantUser → String → String → ℕ → Action RedeemedInvite
  claim_member invite u name password_hash t = do
    consumed ←
        update_user_invites (λ i. i.id == invite.id && is_pending i.status && ltb t i.expires_at)
          (use_at t)
    refuse_if (not (eqb consumed 1)) invite_token_expired
    update_auth_account u.auth_account_id
        (λ a. record a { password_hash = password_hash; must_change_password = false })
    role ← role_to_grant invite.role_id
    update_tenant_user u.id (activate_member name role)
    update_user_invites (is_other_pending u.id invite.id) (retire_at t)
    pure (record {
      tenant_id = invite.tenant_id;
      user_id = u.id;
      auth_account_id = u.auth_account_id;
      email = invite.email;
      invite_id = invite.id;
    })

  unfoldable pub redeem_found : UserInvite → String → String → ℕ → Action RedeemedInvite
  redeem_found invite name password_hash t = do
    active ← gets (λ s.
        is_some (find_first (λ x. x.id == invite.tenant_id && x.status == "ACTIVE") s.tenants))
    refuse_if (not (is_redeemable t invite) || not active) invite_token_expired
    found ← gets (λ s.
        find_first
          (λ u.
            u.id == text_of invite.tenant_user_id
            && u.tenant_id == invite.tenant_id
            && is_invited u.status)
          s.tenant_users)
    u ← lift_option invite_token_expired found
    claim_member invite u name password_hash t

  unfoldable pub redeem_token : String → String → String → Action RedeemedInvite
  redeem_token token name password_hash = transaction (do
    t ← now p
    found ← gets (λ s. find_first (λ i. i.token_hash == p.sha256 token) s.user_invites)
    invite ← lift_option invite_token_expired found
    redeem_found invite name password_hash t)

  unfoldable pub redeem_invite : String → String → String → String → Action RedeemedInvite
  redeem_invite token full_name password confirm_password = do
    refuse_if (not (password == confirm_password)) validation_error
    assert_password_meets_policy password
    refuse_if (trim_text full_name == "") validation_error
    salt ← draw p
    redeemed ← redeem_token token (trim_text full_name) (p.bcrypt_hash salt password)
    audit_invite AuthAuditEvent.user_invite_redeemed redeemed.tenant_id
        (some redeemed.auth_account_id) none
        (("inviteId", MetaValue.text redeemed.invite_id)
          ∷ ("email", MetaValue.text redeemed.email)
          ∷ [])
    pure redeemed
