-- ===== src/Auth/Service.antt =====
-- modules/auth/auth.service.ts: login, rotation of refresh tokens, logout, change of password, me.
-- `refresh` is cut where it waits for the database, so that what other requests do in between can be
-- stated.
pub mod Trail
pub mod Rotation
pub mod SingleUse
pub mod Issue
pub mod Login
use flexi.Prelude.{
  ℕ, ◌+◌, ◌*◌, String, ◌==◌, includes, truthy, same, Bool, true, false, not, ◌&&◌, ◌||◌, Option,
  none, some, List, [], ◌∷◌, if◌then◌else◌, is_none, is_some, ltb, eqb, length,
}
use flexi.Exec.{
  raise, pure, gets, refuse_if, plain_error, invalid_credentials, invalid_refresh_token, forbidden,
  password_policy_violation, Failure, ◌>>=◌, ◌>>◌,
}
use flexi.Store.{ActorType, RefreshToken, AuthAccount, World, AuthAuditEvent, MetaValue}
use flexi.Store.Rows.{find_first}
use flexi.Store.Platform.{Platform, RefreshTokenPayload, AccessTokenPayload}
use flexi.Store.Tables.{
  Action, transaction, update_refresh_tokens, update_auth_account, create_refresh_token, now, draw,
  record_audit, AuthAuditEntry,
}
use flexi.Auth.Password.{validate_password_strength}
use flexi.Auth.Duration.{duration_to_seconds}
use flexi.Auth.Actors.{
  AuthenticatedUser, ResolvedActor, resolve_login_actor, resolve_actor_by_auth_account_id,
}

pub record AuthTokens : Type 0 where
  pub access_token : String
  pub refresh_token : String
  pub expires_in : ℕ

abbrev pub lift_option : {A : Type 0} → Failure → Option A → Action A
lift_option e none s = raise e s
lift_option e (some a) s = pure a s

abbrev pub revoke_at : ℕ → RefreshToken → RefreshToken
revoke_at t r = record r { revoked_at = some t }

-- A filter of live rows of one account; `spared` is the `id: { not }` clause, left out when falsy.
abbrev pub is_live_of : String → RefreshToken → Bool
is_live_of account r = r.auth_account_id == account && is_none r.revoked_at

abbrev pub is_spared : Option String → RefreshToken → Bool
is_spared none r = false
is_spared (some id) r = not (id == "") && r.id == id

abbrev pub is_live_unspared : String → Option String → RefreshToken → Bool
is_live_unspared account spared r = is_live_of account r && not (is_spared spared r)

unfoldable pub assert_password_meets_policy : String → Action Unit
assert_password_meets_policy password =
    refuse_if (not (eqb (length (validate_password_strength password)) 0)) password_policy_violation

module _ (p : Platform) where
  open p use {
    cuid, random_uuid, sha256, bcrypt_hash, bcrypt_compare, sign_refresh, sign_access,
    verify_refresh, jwt_access_expires_in, jwt_refresh_expires_in,
  }

  -- the token and the id of its row, which is the session
  pub issue_refresh_token : String → Action (String × String)
  issue_refresh_token auth_account_id = do
    uuid ← draw p
    signed_at ← now p
    let token =
        sign_refresh (record { sub = auth_account_id; jti = random_uuid uuid })
          jwt_refresh_expires_in signed_at
    t ← now p
    seconds ← lift_option plain_error (duration_to_seconds jwt_refresh_expires_in)
    created_at ← now p
    row ← draw p
    create_refresh_token (record {
      id = cuid row;
      auth_account_id = auth_account_id;
      token_hash = sha256 token;
      expires_at = t + seconds * 1000;
      revoked_at = none;
      created_at = created_at;
    })
    pure (token, cuid row)

  abbrev pub access_payload : ResolvedActor → String → AccessTokenPayload
  access_payload actor session_id = record {
    sub = actor.auth_account_id;
    actor_type = actor.actor_type;
    tenant_id = actor.tenant_id;
    tenant_user_id = actor.tenant_user_id;
    system_user_id = actor.system_user_id;
    email = actor.email;
    name = actor.name;
    roles = actor.roles;
    permissions = actor.permissions;
    session_id = some session_id;
    must_change_password = actor.must_change_password;
    impersonated_by = none;
    impersonation_session_id = none;
    iat = none;
    exp = none;
  }

  unfoldable pub issue_tokens : ResolvedActor → Action AuthTokens
  unfolding issue_refresh_token
  issue_tokens actor = do
    (token, session_id) ← issue_refresh_token actor.auth_account_id
    signed_at ← now p
    let access = sign_access (access_payload actor session_id) jwt_access_expires_in signed_at
    seconds ← lift_option plain_error (duration_to_seconds jwt_access_expires_in)
    pure (record { access_token = access; refresh_token = token; expires_in = seconds })

  -- an actor that is missing or inactive costs a comparison too, whose result is dropped
  log_in_as : String → Option ResolvedActor → Action AuthTokens
  log_in_as password none = raise invalid_credentials
  log_in_as password (some actor) =
      if actor.is_active && bcrypt_compare password actor.password_hash
      then issue_tokens actor
      else raise invalid_credentials

  unfoldable pub login : String → String → Option String → Action AuthTokens
  unfolding log_in_as
  login email password tenant_id = do
    actor ← gets (λ s. resolve_login_actor email tenant_id s.db)
    log_in_as password actor

  -- the kill switch: every live session of the account that owns the reused token
  kill_sessions : String → Action RefreshToken
  kill_sessions account = do
    t ← now p
    update_refresh_tokens (is_live_of account) (revoke_at t)
    raise invalid_refresh_token

  check_stored : RefreshTokenPayload → Option RefreshToken → Action RefreshToken
  unfolding kill_sessions
  check_stored decoded none = raise invalid_refresh_token
  check_stored decoded (some stored) =
      if is_some stored.revoked_at then kill_sessions stored.auth_account_id else do
        t ← now p
        refuse_if (ltb stored.expires_at t || not (stored.auth_account_id == decoded.sub))
            invalid_refresh_token
        pure stored

  -- the first part of `refresh`: verify, look up, detect reuse, check expiry and owner
  pub look_up_refresh_token : String → Action RefreshToken
  unfolding check_stored
  look_up_refresh_token token = do
    t ← now p
    decoded ← lift_option invalid_refresh_token (verify_refresh t token)
    stored ← gets (λ s. find_first (λ r. r.token_hash == sha256 token) s.refresh_tokens)
    check_stored decoded stored

  -- the second part: the conditional revoke
  unfoldable pub claim_refresh_token : RefreshToken → Action Unit
  claim_refresh_token stored = do
    t ← now p
    revoked ← update_refresh_tokens (λ r. r.id == stored.id && is_none r.revoked_at) (revoke_at t)
    refuse_if (eqb revoked 0) invalid_refresh_token

  pub reissue : Option ResolvedActor → Action AuthTokens
  reissue none = raise invalid_refresh_token
  reissue (some actor) = if actor.is_active then issue_tokens actor else raise invalid_refresh_token

  unfoldable pub refresh : String → Action AuthTokens
  unfolding look_up_refresh_token claim_refresh_token reissue
  refresh token = do
    stored ← look_up_refresh_token token
    claim_refresh_token stored
    actor ← resolve_actor_by_auth_account_id stored.auth_account_id
    reissue actor

  -- `stored` is live and owned by the caller
  check_owned : AuthenticatedUser → Option RefreshToken → Action RefreshToken
  check_owned user none = raise invalid_refresh_token
  check_owned user (some stored) = do
    refuse_if (is_some stored.revoked_at || not (stored.auth_account_id == user.auth_account_id))
        invalid_refresh_token
    pure stored

  pub logout : String → AuthenticatedUser → Action Unit
  unfolding check_owned
  logout token user = do
    found ← gets (λ s. find_first (λ r. r.token_hash == sha256 token) s.refresh_tokens)
    stored ← check_owned user found
    t ← now p
    update_refresh_tokens (λ r. r.id == stored.id) (revoke_at t)
    pure tt

  pub change_password : String → String → AuthenticatedUser → Action Unit
  change_password current_password new_password user = do
    assert_password_meets_policy new_password
    found ← gets (λ s. find_first (λ a. a.id == user.auth_account_id) s.auth_accounts)
    account ← lift_option invalid_credentials found
    refuse_if (not (bcrypt_compare current_password account.password_hash)) invalid_credentials
    salt ← draw p
    t ← now p
    revoked ← transaction (do
      update_auth_account account.id (λ a. record a {
        password_hash = bcrypt_hash salt new_password;
        must_change_password = false;
      })
      update_refresh_tokens (is_live_unspared account.id user.session_id) (revoke_at t))
    record_audit p (record {
      event = AuthAuditEvent.password_changed;
      tenant_id = user.tenant_id;
      subject_auth_account_id = some account.id;
      actor_auth_account_id = none;
      impersonated = none;
      impersonator_id = none;
      metadata = ("revokedSessionCount", MetaValue.num revoked) ∷ [];
    })

-- the permission that `GET /api/auth/me` wants of an actor
abbrev me_permission : ActorType → String
me_permission ActorType.tenant = "auth.me.read"
me_permission ActorType.system = "system.me.read"

pub me : AuthenticatedUser → Action AuthenticatedUser
me user = do
  refuse_if (not (includes user.permissions (me_permission user.actor_type))) forbidden
  pure user
