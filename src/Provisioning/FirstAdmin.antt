-- ===== src/Provisioning/FirstAdmin.antt =====
-- modules/tenants/first-admin.service.ts: the first administrator of a tenant, made and removed.
use flexi.Prelude.{
  String, ◌==◌, same, Bool, true, false, ◌&&◌, Option, none, some, List, [], ◌∷◌, ◌++◌,
  if◌then◌else◌, any, includes,
}
use flexi.Exec.{pure, raise, gets, refuse_if, internal_server_error, record_not_found, ◌>>=◌, ◌>>◌}
use flexi.Onboarding.{Permission}
use flexi.Store.{TenantUserStatus, Role, TenantUser, World}
use flexi.Store.Rows.{find_first}
use flexi.Store.Platform.{Platform}
use flexi.Store.Tables.{Action, transaction, draw, update_tenant_user}
use flexi.Store.Setup.{
  create_auth_account, create_tenant_user, create_role, update_role, delete_roles,
  delete_tenant_user, delete_auth_accounts,
}

abbrev pub tenant_admin_role_name : String
tenant_admin_role_name = "TENANT_ADMIN"

pub record FirstAdminDeactivationIds : Type 0 where
  pub tenant_user_id : Option String
  pub auth_account_id : Option String
  pub role_id : Option String

abbrev pub is_user_of : String → TenantUser → Bool
is_user_of tenant_id u = u.tenant_id == tenant_id

abbrev pub is_admin_role_of : String → Role → Bool
is_admin_role_of tenant_id r = same r.tenant_id tenant_id && r.name == tenant_admin_role_name

-- an account with the address that a system user has
abbrev pub has_system_user : String → World → Bool
has_system_user email s =
    any (λ u. any (λ a. a.id == u.auth_account_id && a.email == email) s.auth_accounts)
      s.system_users

-- `rolePermission.upsert` of one permission
abbrev pub grant : String → List String → List String
grant code codes = if includes codes code then codes else codes ++ code ∷ []

abbrev pub grant_tenant_scope : List Permission → List String → List String
grant_tenant_scope [] codes = codes
grant_tenant_scope (q ∷ qs) codes =
    grant_tenant_scope qs (if q.is_tenant_scope then grant q.code codes else codes)

abbrev pub hold : Role → TenantUser → TenantUser
hold r u = record u {
  roles = if any (λ q. q.id == r.id) u.roles then u.roles else u.roles ++ r ∷ [];
}

unfoldable pub grant_tenant_scope_permissions : String → Action Unit
grant_tenant_scope_permissions role_id = do
  permissions ← gets (λ s. s.all_permissions)
  update_role role_id (λ r. record r { permissions = grant_tenant_scope permissions r.permissions })

-- `{ roles: { connect: [{ id }] } }`: raises where no role has the id
unfoldable pub connect_found : String → Option Role → Action Unit
connect_found user_id none = raise record_not_found
connect_found user_id (some role) = update_tenant_user user_id (hold role)

unfoldable pub connect_role : String → String → Action Unit
connect_role user_id role_id = do
  found ← gets (λ s. find_first (λ r. r.id == role_id) s.all_roles)
  connect_found user_id found

module _ (p : Platform) where
  unfoldable pub create_first_admin_auth_account : String → Action String
  create_first_admin_auth_account email = do
    taken ← gets (has_system_user email)
    refuse_if taken internal_server_error
    placeholder ← draw p
    salt ← draw p
    row ← draw p
    create_auth_account (record {
      id = p.cuid row;
      email = email;
      password_hash = p.bcrypt_hash salt (p.random_uuid placeholder);
      is_active = true;
      must_change_password = false;
    })
    pure (p.cuid row)

  unfoldable pub create_first_admin_user : String → String → Action TenantUser
  create_first_admin_user tenant_id auth_account_id = do
    row ← draw p
    let user : TenantUser = record {
      id = p.cuid row;
      tenant_id = tenant_id;
      auth_account_id = auth_account_id;
      name = none;
      status = TenantUserStatus.pending_setup;
      is_active = true;
      roles = [];
    }
    create_tenant_user user
    pure user

  -- the existing member, or a new account and a new member
  unfoldable pub resolve_first_admin : String → String → Option TenantUser → Action TenantUser
  resolve_first_admin tenant_id email (some u) = pure u
  resolve_first_admin tenant_id email none = do
    account ← create_first_admin_auth_account email
    create_first_admin_user tenant_id account

  -- `role.upsert` on the pair of tenant and name, with an empty update
  unfoldable pub upsert_admin_role : String → Option Role → Action Role
  upsert_admin_role tenant_id (some r) = pure r
  upsert_admin_role tenant_id none = do
    row ← draw p
    let role : Role = record {
      id = p.cuid row;
      tenant_id = some tenant_id;
      name = tenant_admin_role_name;
      permissions = [];
    }
    create_role role
    pure role

  unfoldable pub assign : String → String → Action Unit
  assign tenant_id first_admin_email = transaction (do
    existing ← gets (λ s. find_first (is_user_of tenant_id) s.tenant_users)
    user ← resolve_first_admin tenant_id first_admin_email existing
    found ← gets (λ s. find_first (is_admin_role_of tenant_id) s.all_roles)
    role ← upsert_admin_role tenant_id found
    grant_tenant_scope_permissions role.id
    connect_role user.id role.id)

abbrev role_id_of : Option Role → Option String
role_id_of none = none
role_id_of (some r) = some r.id

abbrev found_ids : Option Role → Option TenantUser → FirstAdminDeactivationIds
found_ids role none = record {
  tenant_user_id = none;
  auth_account_id = none;
  role_id = role_id_of role;
}
found_ids role (some u) = record {
  tenant_user_id = some u.id;
  auth_account_id = some u.auth_account_id;
  role_id = role_id_of role;
}

unfoldable pub remove_member : Option TenantUser → Action Unit
remove_member none = pure tt
remove_member (some u) = do delete_tenant_user u.id; delete_auth_accounts u.auth_account_id

-- `deactivate`; the answer is lost where the transaction raises
unfoldable pub deactivate : String → Action FirstAdminDeactivationIds
deactivate tenant_id = do
  role ← gets (λ s. find_first (is_admin_role_of tenant_id) s.all_roles)
  user ← gets (λ s. find_first (is_user_of tenant_id) s.tenant_users)
  transaction (do remove_member user; delete_roles (is_admin_role_of tenant_id))
  pure (found_ids role user)
