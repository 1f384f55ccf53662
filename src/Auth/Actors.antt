-- ===== src/Auth/Actors.antt =====
-- Which actor stands behind an account: the rows and the resolution of modules/auth/auth.service.ts.
pub mod Joins
use flexi.Prelude.{
  ℕ, String, ◌==◌, includes, Bool, true, false, ◌&&◌, Option, none, some, List, [], ◌∷◌, ◌++◌, map,
  if◌then◌else◌, is_some,
}
use flexi.Exec.{raise, pure, gets, internal_server_error, ◌>>=◌, ◌>>◌}
use flexi.Store.{ActorType, Role, Tenant, AuthAccount, TenantUser, SystemUser, Db, World}
use flexi.Store.Rows.{find_first}
use flexi.Store.Tables.{Action}

-- The caller of a request, as `JwtAuthGuard` builds it from the access token.
pub record AuthenticatedUser : Type 0 where
  pub auth_account_id : String
  pub actor_type : ActorType
  pub tenant_id : Option String
  pub tenant_user_id : Option String
  pub system_user_id : Option String
  pub email : String
  pub name : Option String
  pub roles : List String
  pub permissions : List String
  pub session_id : Option String
  pub must_change_password : Bool
  pub impersonated_by : Option String
  pub impersonation_session_id : Option String

pub record ResolvedActor : Type 0 where
  pub auth_account_id : String
  pub password_hash : String
  pub is_active : Bool
  pub actor_type : ActorType
  pub tenant_id : Option String
  pub tenant_user_id : Option String
  pub system_user_id : Option String
  pub email : String
  pub name : Option String
  pub roles : List String
  pub permissions : List String
  pub must_change_password : Bool

-- `findFirst({ where, include: { authAccount: true } })`: the first row whose account is there and
-- satisfies the filter, with that account
unfoldable pub find_joined :
    {A : Type 0}
    → (A → String)
    → (A → AuthAccount → Bool)
    → List AuthAccount
    → List A
    → Option (A × AuthAccount)
find_joined account_id p accounts [] = none
find_joined account_id p accounts (x ∷ xs) =
    let rest = find_joined account_id p accounts xs in
    elim (find_first (λ a. a.id == account_id x) accounts) [
      | none ↦ rest
      | some a ↦ if p x a then some (x, a) else rest
    ]

unfoldable pub is_tenant_active : Db → String → Bool
is_tenant_active db tenant_id =
    is_some (find_first (λ t. t.id == tenant_id && t.status == "ACTIVE") db.tenants)

-- A `Set` keeps the order of first insertion.
abbrev add_codes : List String → List String → List String
add_codes codes [] = codes
add_codes codes (c ∷ cs) = add_codes (if includes codes c then codes else codes ++ c ∷ []) cs

abbrev add_roles : List String → List Role → List String
add_roles codes [] = codes
add_roles codes (r ∷ rs) = add_roles (add_codes codes r.permissions) rs

unfoldable pub flatten_permissions : List Role → List String
flatten_permissions roles = add_roles [] roles

unfoldable pub map_tenant_user_to_actor : TenantUser → AuthAccount → ResolvedActor
map_tenant_user_to_actor u account = record {
  auth_account_id = u.auth_account_id;
  password_hash = account.password_hash;
  is_active = account.is_active && u.is_active;
  actor_type = ActorType.tenant;
  tenant_id = some u.tenant_id;
  tenant_user_id = some u.id;
  system_user_id = none;
  email = account.email;
  name = u.name;
  roles = map (λ r. r.name) u.roles;
  permissions = flatten_permissions u.roles;
  must_change_password = account.must_change_password;
}

unfoldable pub map_system_user_to_actor : SystemUser → AuthAccount → ResolvedActor
map_system_user_to_actor u account = record {
  auth_account_id = u.auth_account_id;
  password_hash = account.password_hash;
  is_active = account.is_active && u.is_active;
  actor_type = ActorType.system;
  tenant_id = none;
  tenant_user_id = none;
  system_user_id = some u.id;
  email = account.email;
  name = u.name;
  roles = map (λ r. r.name) u.roles;
  permissions = flatten_permissions u.roles;
  must_change_password = account.must_change_password;
}

unfoldable pub find_tenant_user_by_email : Db → String → String → Option (TenantUser × AuthAccount)
find_tenant_user_by_email db email tenant_id =
    find_joined (λ u. u.auth_account_id) (λ u a. u.tenant_id == tenant_id && a.email == email)
      db.auth_accounts db.tenant_users

unfoldable pub find_system_user_by_email : Db → String → Option (SystemUser × AuthAccount)
find_system_user_by_email db email =
    find_joined (λ u. u.auth_account_id) (λ u a. a.email == email) db.auth_accounts db.system_users

unfoldable pub resolve_tenant_actor : String → String → Db → Option ResolvedActor
resolve_tenant_actor email tenant_id db = elim (find_tenant_user_by_email db email tenant_id) [
  | none ↦ none
  | some (u, a) ↦
      if is_tenant_active db tenant_id then some (map_tenant_user_to_actor u a) else none
]

unfoldable pub resolve_system_actor : String → Db → Option ResolvedActor
resolve_system_actor email db = elim (find_system_user_by_email db email) [
  | none ↦ none
  | some (u, a) ↦ some (map_system_user_to_actor u a)
]

-- The header `x-tenant-id` decides by its presence.
unfoldable pub resolve_login_actor : String → Option String → Db → Option ResolvedActor
unfolding resolve_tenant_actor resolve_system_actor
resolve_login_actor email none db = resolve_system_actor email db
resolve_login_actor email (some tenant_id) db = resolve_tenant_actor email tenant_id db

abbrev tenant_user_of_account : Db → String → Option (TenantUser × AuthAccount)
tenant_user_of_account db id =
    find_joined (λ u. u.auth_account_id) (λ u a. u.auth_account_id == id) db.auth_accounts
      db.tenant_users

abbrev system_user_of_account : Db → String → Option (SystemUser × AuthAccount)
system_user_of_account db id =
    find_joined (λ u. u.auth_account_id) (λ u a. u.auth_account_id == id) db.auth_accounts
      db.system_users

-- `resolveActorByAuthAccountId` after its two reads: both found is an integrity violation
unfoldable pub choose_actor :
    Db
    → Option (TenantUser × AuthAccount)
    → Option (SystemUser × AuthAccount)
    → Action (Option ResolvedActor)
choose_actor db (some t) (some u) = raise internal_server_error
choose_actor db (some (u, a)) none =
    pure (if is_tenant_active db u.tenant_id then some (map_tenant_user_to_actor u a) else none)
choose_actor db none (some (u, a)) = pure (some (map_system_user_to_actor u a))
choose_actor db none none = pure none

unfoldable pub resolve_actor_by_auth_account_id : String → Action (Option ResolvedActor)
unfolding choose_actor
resolve_actor_by_auth_account_id id = do
  db ← gets (λ s. s.db)
  choose_actor db (tenant_user_of_account db id) (system_user_of_account db id)
