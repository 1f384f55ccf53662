-- ===== src/Auth/Guard.antt =====
-- modules/auth/guards/jwt-auth.guard.ts: who a request comes from, and for which tenant.
pub mod Admission
pub mod Trail
use Prim.Native.Char.{code}
use flexi.Prelude.{
  ℕ, ◌-◌, ◌*◌, String, ◌==◌, truthy, Bool, true, false, not, ◌&&◌, ◌||◌, Option, none, some,
  if◌then◌else◌, is_none, is_some, ltb, eqb, or_default,
}
use flexi.Exec.{Result, ok, err, raise, pure, gets, refuse_if, unauthorized, Failure, ◌>>=◌, ◌>>◌}
use flexi.Store.{ActorType, ImpersonationSession, World}
use flexi.Store.Rows.{find_first}
use flexi.Store.Platform.{Platform, AccessTokenPayload}
use flexi.Store.Tables.{Action, now, set_cls}
use flexi.Tenancy.{resolve_tenant_schema}
use flexi.Auth.Actors.{AuthenticatedUser, is_tenant_active}
use flexi.Auth.Service.{lift_option}

-- the first piece of `header.split(' ')`
unfoldable pub first_word : String → String
first_word String.[] = ""
first_word (String.◌∷◌ c s) =
    let rest = first_word s in if eqb (code c) 32 then "" else String.◌∷◌ c rest

-- what stands behind the first space, if there is one
unfoldable pub after_space : String → Option String
after_space String.[] = none
after_space (String.◌∷◌ c s) = let rest = after_space s in if eqb (code c) 32 then some s else rest

abbrev pub lift_result : {A : Type 0} → Result A → Action A
lift_result (ok a) s = pure a s
lift_result (err e) s = raise e s

abbrev pub user_of : AccessTokenPayload → AuthenticatedUser
user_of payload = record {
  auth_account_id = payload.sub;
  actor_type = payload.actor_type;
  tenant_id = payload.tenant_id;
  tenant_user_id = payload.tenant_user_id;
  system_user_id = payload.system_user_id;
  email = payload.email;
  name = payload.name;
  roles = payload.roles;
  permissions = payload.permissions;
  session_id = payload.session_id;
  must_change_password = payload.must_change_password;
  impersonated_by = payload.impersonated_by;
  impersonation_session_id = payload.impersonation_session_id;
}

abbrev pub is_tenant : ActorType → Bool
is_tenant ActorType.tenant = true
is_tenant ActorType.system = false

-- a claim in seconds: missing and zero are falsy alike
abbrev pub seconds : Option ℕ → ℕ
seconds o = or_default o 0

-- the claims that the guard wants of a delegated token, in a window of fifteen minutes
unfoldable pub has_impersonation_claims : AccessTokenPayload → Bool
has_impersonation_claims payload =
    truthy payload.impersonated_by
    && truthy payload.impersonation_session_id
    && is_tenant payload.actor_type
    && truthy payload.tenant_id
    && truthy payload.tenant_user_id
    && not (eqb (seconds payload.iat) 0)
    && not (eqb (seconds payload.exp) 0)
    && not (ltb (15 * 60) (seconds payload.exp - seconds payload.iat))

-- a text claim that is there
abbrev pub text_of : Option String → String
text_of o = or_default o ""

-- the row of a delegated token that has not ended or expired
abbrev pub is_live_impersonation : AccessTokenPayload → ℕ → ImpersonationSession → Bool
is_live_impersonation payload t i =
    i.id == text_of payload.impersonation_session_id
    && i.tenant_id == text_of payload.tenant_id
    && i.target_tenant_user_id == text_of payload.tenant_user_id
    && i.impersonator_id == text_of payload.impersonated_by
    && is_none i.ended_at
    && ltb t i.expires_at

module _ (p : Platform) where
  bearer : String → String → Option String
  bearer scheme token =
      if p.to_lower_case scheme == "bearer" && not (token == "") then some token else none

  second_word : Option String → String
  second_word none = ""
  second_word (some rest) = first_word rest

  unfoldable pub extract_token : Option String → Option String
  unfolding bearer second_word
  extract_token none = none
  extract_token (some header) = bearer (first_word header) (second_word (after_space header))

  unfoldable pub check_impersonation : AccessTokenPayload → Action Unit
  check_impersonation payload = do
    refuse_if (not (has_impersonation_claims payload)) unauthorized
    t ← now p
    found ← gets (λ s. find_first (is_live_impersonation payload t) s.impersonation_sessions)
    refuse_if (is_none found) unauthorized

  unfoldable pub assert_valid_impersonation : AccessTokenPayload → Action Unit
  assert_valid_impersonation payload =
      if truthy payload.impersonated_by || truthy payload.impersonation_session_id
      then check_impersonation payload
      else pure tt

  unfoldable pub enter_tenant : AccessTokenPayload → String → Action Unit
  enter_tenant payload tenant_id = do
    active ← gets (λ s. is_tenant_active s.db tenant_id)
    refuse_if (not active) unauthorized
    set_cls (λ c. record c { tenant_id = some tenant_id })
    schema ← lift_result (resolve_tenant_schema tenant_id)
    set_cls (λ c. record c {
      schema = some schema;
      tenant_user_id =
          if truthy payload.tenant_user_id then payload.tenant_user_id else c.tenant_user_id;
      impersonated_by =
          if truthy payload.impersonated_by then payload.impersonated_by else c.impersonated_by;
      impersonation_session_id =
          if truthy payload.impersonated_by
          then payload.impersonation_session_id
          else c.impersonation_session_id;
    })

  unfoldable pub establish_tenant : AccessTokenPayload → Action Unit
  establish_tenant payload =
      if truthy payload.tenant_id then enter_tenant payload (text_of payload.tenant_id) else pure tt

  -- `request.user` is the answer
  unfoldable pub can_activate : Option String → Action AuthenticatedUser
  can_activate header = do
    token ← lift_option unauthorized (extract_token header)
    t ← now p
    payload ← lift_option unauthorized (p.verify_access t token)
    assert_valid_impersonation payload
    establish_tenant payload
    pure (user_of payload)
