-- ===== src/Store/Platform.antt =====
-- What the services call and the repository does not implement: the clock, random identifiers,
-- SHA-256, bcrypt, the signing and checking of tokens, the mail transport, and configuration.
use flexi.Prelude.{ℕ, String, Bool, Option, List}
use flexi.Exec.{Failure}
use flexi.Store.{ActorType}

pub record RefreshTokenPayload : Type 0 where
  pub sub : String
  pub jti : String

pub record AccessTokenPayload : Type 0 where
  pub sub : String
  pub actor_type : ActorType
  pub tenant_id : Option String
  pub tenant_user_id : Option String
  pub system_user_id : Option String
  pub email : String
  pub name : Option String
  pub roles : List String
  pub permissions : List String
  pub session_id : Option String
  pub must_change_password : Bool
  pub impersonated_by : Option String
  pub impersonation_session_id : Option String
  -- seconds; set by the signer
  pub iat : Option ℕ
  pub exp : Option ℕ

pub record DeliveryOutcome : Type 0 where
  pub delivered : Bool
  pub error_code : Option String

pub record Platform : Type 0 where
  -- the n-th reading of the clock, in milliseconds
  pub clock : ℕ → ℕ
  -- what the n-th draw of the random source gives
  pub cuid : ℕ → String
  pub random_uuid : ℕ → String
  pub random_int : ℕ → ℕ → ℕ
  pub temporary_password : ℕ → String
  -- `randomBytes(32).toString('base64url')`
  pub random_token : ℕ → String
  -- `toLowerCase` of the whole of Unicode
  pub to_lower_case : String → String
  pub sha256 : String → String
  -- salted by a draw
  pub bcrypt_hash : ℕ → String → String
  pub bcrypt_compare : String → String → Bool
  -- payload, lifetime, time of signing
  pub sign_refresh : RefreshTokenPayload → String → ℕ → String
  pub sign_access : AccessTokenPayload → String → ℕ → String
  -- time of checking, token; `none` where the library throws
  pub verify_refresh : ℕ → String → Option RefreshTokenPayload
  pub verify_access : ℕ → String → Option AccessTokenPayload
  -- whether the insert of an audit row at this draw succeeds
  pub audit_insert : ℕ → Bool
  pub deliver : ℕ → DeliveryOutcome
  -- what `$queryRaw` raises where a unique index refuses a row
  pub raw_conflict : Failure
  pub jwt_access_expires_in : String
  pub jwt_refresh_expires_in : String
