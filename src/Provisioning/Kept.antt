-- ===== src/Provisioning/Kept.antt =====
-- The tables that the services behind the steps leave alone, as laws and for the services of modules/tenants.
use flexi.Prelude.{String, ◌≡◌, refl, ◌∙◌, Bool, Option, none, some, arith}
use flexi.Exec.{Failure, Result, ok, err, pure, raise, gets, refuse_if, ◌>>=◌}
use flexi.Exec.Evolves.{
  Preorder, Evolves, Evolves-pure, Evolves-raise, Evolves-gets, Evolves-refuse_if, Evolves-bind,
}
use flexi.Onboarding.{SetupToken}
use flexi.Store.{Role, AuthAccount, TenantUser, Cls, World, Mail}
use flexi.Store.Platform.{Platform}
use flexi.Store.Tables.{Action, settle, transaction, now, draw, send_mail, update_tenant_user}
use flexi.Store.Setup.{
  update_setup_tokens, create_setup_token, create_auth_account, create_tenant_user, create_role,
  update_role, delete_roles, delete_tenant_user, delete_auth_accounts,
}
use flexi.Provisioning.FirstAdmin.{
  create_first_admin_auth_account, create_first_admin_user, resolve_first_admin, upsert_admin_role,
  grant_tenant_scope_permissions, connect_found, connect_role, assign, remove_member, deactivate,
}
use flexi.Provisioning.SetupLink.{generate, revoke_all}
use flexi.Auth.Service.{lift_option}
use flexi.Provisioning.Steps.{Collaborators, run_with, in_schema}

pub record SameOnboarding (s s' : World) : Type 0 where
  pub tenants : s'.tenants ≡ s.tenants
  pub attempts : s'.onboarding_attempts ≡ s.onboarding_attempts

pub Same-preorder : Preorder SameOnboarding
Same-preorder = record {
  reflexive = λ s. record { tenants = refl; attempts = refl };
  transitive = λ {a} {b} {c} h k. record {
    tenants = k.tenants ∙ h.tenants;
    attempts = k.attempts ∙ h.attempts;
  };
}

pub Same-pure : {A : Type 0} (a : A) → Evolves SameOnboarding (pure {S = World} a)
Same-pure a = Evolves-pure Same-preorder a

pub Same-raise : {A : Type 0} (e : Failure) → Evolves SameOnboarding (raise {S = World} {A = A} e)
Same-raise e = Evolves-raise Same-preorder e

pub Same-gets : {A : Type 0} (f : World → A) → Evolves SameOnboarding (gets f)
Same-gets f = Evolves-gets Same-preorder f

pub Same-refuse_if : (b : Bool) (e : Failure) → Evolves SameOnboarding (refuse_if {S = World} b e)
Same-refuse_if b e = Evolves-refuse_if Same-preorder b e

pub Same-bind :
    {A B : Type 0} (m : Action A) (f : A → Action B)
    → Evolves SameOnboarding m
    → ((a : A) → Evolves SameOnboarding (f a))
    → Evolves SameOnboarding (m >>= f)
Same-bind m f h k = Evolves-bind Same-preorder m f h k

pub Same-settle :
    {A : Type 0} (s s' : World) (r : Result A)
    → SameOnboarding s s'
    → SameOnboarding s (settle s r s').1
Same-settle s s' (ok a) h = h
Same-settle s s' (err e) h = record { tenants = refl; attempts = refl }

pub Same-transaction :
    {A : Type 0} (m : Action A) → Evolves SameOnboarding m → Evolves SameOnboarding (transaction m)
unfolding transaction
Same-transaction m h = record { at = λ s. let (r, s') = m s in Same-settle s s' r (h.at s) }

module _ (p : Platform) where
  pub Same-now : Evolves SameOnboarding (now p)
  unfolding now
  Same-now = record { at = λ s. record { tenants = refl; attempts = refl } }

  pub Same-draw : Evolves SameOnboarding (draw p)
  unfolding draw
  Same-draw = record { at = λ s. record { tenants = refl; attempts = refl } }

  pub Same-send_mail : (m : Mail) → Evolves SameOnboarding (send_mail p m)
  unfolding send_mail
  Same-send_mail m = record { at = λ s. record { tenants = refl; attempts = refl } }

pub Same-update_setup_tokens :
    (q : SetupToken → Bool) (f : SetupToken → SetupToken)
    → Evolves SameOnboarding (update_setup_tokens q f)
unfolding update_setup_tokens
Same-update_setup_tokens q f = record { at = λ s. record { tenants = refl; attempts = refl } }

pub Same-create_setup_token : (row : SetupToken) → Evolves SameOnboarding (create_setup_token row)
unfolding create_setup_token
Same-create_setup_token row = record { at = λ s. ground (arith, Same-preorder.reflexive s) }

pub Same-create_auth_account :
    (row : AuthAccount) → Evolves SameOnboarding (create_auth_account row)
unfolding create_auth_account
Same-create_auth_account row = record { at = λ s. ground (arith, Same-preorder.reflexive s) }

pub Same-create_tenant_user : (row : TenantUser) → Evolves SameOnboarding (create_tenant_user row)
unfolding create_tenant_user
Same-create_tenant_user row = record { at = λ s. ground (arith, Same-preorder.reflexive s) }

pub Same-update_tenant_user :
    (id : String) (f : TenantUser → TenantUser) → Evolves SameOnboarding (update_tenant_user id f)
unfolding update_tenant_user
Same-update_tenant_user id f = record { at = λ s. ground (arith, Same-preorder.reflexive s) }

pub Same-create_role : (row : Role) → Evolves SameOnboarding (create_role row)
unfolding create_role
Same-create_role row = record { at = λ s. ground (arith, Same-preorder.reflexive s) }

pub Same-update_role : (id : String) (f : Role → Role) → Evolves SameOnboarding (update_role id f)
unfolding update_role
Same-update_role id f = record { at = λ s. record { tenants = refl; attempts = refl } }

pub Same-delete_roles : (q : Role → Bool) → Evolves SameOnboarding (delete_roles q)
unfolding delete_roles
Same-delete_roles q = record { at = λ s. record { tenants = refl; attempts = refl } }

pub Same-delete_tenant_user : (id : String) → Evolves SameOnboarding (delete_tenant_user id)
unfolding delete_tenant_user
Same-delete_tenant_user id = record { at = λ s. ground (arith, Same-preorder.reflexive s) }

pub Same-delete_auth_accounts : (id : String) → Evolves SameOnboarding (delete_auth_accounts id)
unfolding delete_auth_accounts
Same-delete_auth_accounts id = record { at = λ s. record { tenants = refl; attempts = refl } }

pub ruleset same_rules = (
  Same-pure, Same-raise, Same-gets, Same-refuse_if, Same-bind, Same-transaction, Same-now,
  Same-draw, Same-send_mail, Same-update_setup_tokens, Same-create_setup_token,
  Same-create_auth_account, Same-create_tenant_user, Same-update_tenant_user, Same-create_role,
  Same-update_role, Same-delete_roles, Same-delete_tenant_user, Same-delete_auth_accounts,
)

pub Same-run_with :
    {A : Type 0} (context : Cls) (m : Action A)
    → Evolves SameOnboarding m
    → Evolves SameOnboarding (run_with context m)
unfolding run_with
Same-run_with context m h = record {
  at = λ s.
      let same = h.at (record s { cls = context }) in
      record { tenants = same.tenants; attempts = same.attempts };
}

pub Same-in_schema :
    {A : Type 0} (tenant_id : String) (work : String → Action A)
    → ((schema : String) → Evolves SameOnboarding (work schema))
    → Evolves SameOnboarding (in_schema tenant_id work)
unfolding in_schema
Same-in_schema tenant_id work h =
    Same-bind _ _ (record { at = λ s. Same-preorder.reflexive s })
      (λ schema. Same-run_with _ _ (h schema))

pub Same-lift_option :
    {A : Type 0} (e : Failure) (o : Option A) → Evolves SameOnboarding (lift_option e o)
Same-lift_option e none = Same-raise e
Same-lift_option e (some a) = Same-pure a

-- What the lifecycle relies on.
pub record Respects (c : Collaborators) : Type 0 where
  pub create_schema : (schema : String) → Evolves SameOnboarding (c.create_schema schema)
  pub drop_schema : (schema : String) → Evolves SameOnboarding (c.drop_schema schema)
  pub ensure_meta_tables : Evolves SameOnboarding c.ensure_meta_tables
  pub bootstrap_seed : Evolves SameOnboarding c.bootstrap_seed
  pub assign : (tenant email : String) → Evolves SameOnboarding (c.assign tenant email)
  pub deactivate : (tenant : String) → Evolves SameOnboarding (c.deactivate tenant)
  pub generate : (tenant : String) → Evolves SameOnboarding (c.generate tenant)
  pub revoke_all : (tenant : String) → Evolves SameOnboarding (c.revoke_all tenant)
  pub send_setup_invite :
      (email name token : String) → Evolves SameOnboarding (c.send_setup_invite email name token)

module _ (p : Platform) where
  Same-resolve_first_admin :
      (tenant email : String) (u : Option TenantUser)
      → Evolves SameOnboarding (resolve_first_admin p tenant email u)
  unfolding resolve_first_admin create_first_admin_auth_account create_first_admin_user
  Same-resolve_first_admin tenant email none = search same_rules depth 30
  Same-resolve_first_admin tenant email (some u) = search same_rules

  Same-upsert_admin_role :
      (tenant : String) (r : Option Role) → Evolves SameOnboarding (upsert_admin_role p tenant r)
  unfolding upsert_admin_role
  Same-upsert_admin_role tenant none = search same_rules depth 30
  Same-upsert_admin_role tenant (some r) = search same_rules

  Same-connect_found :
      (user : String) (r : Option Role) → Evolves SameOnboarding (connect_found user r)
  unfolding connect_found
  Same-connect_found user none = search same_rules
  Same-connect_found user (some r) = search same_rules

  Same-connect_role : (user role : String) → Evolves SameOnboarding (connect_role user role)
  unfolding connect_role
  Same-connect_role user role = search (same_rules, Same-connect_found)

  Same-assign : (tenant email : String) → Evolves SameOnboarding (assign p tenant email)
  unfolding assign grant_tenant_scope_permissions
  Same-assign tenant email =
      search (same_rules, Same-resolve_first_admin, Same-upsert_admin_role, Same-connect_role) depth
        30

  Same-remove_member : (u : Option TenantUser) → Evolves SameOnboarding (remove_member u)
  unfolding remove_member
  Same-remove_member none = search same_rules
  Same-remove_member (some u) = search same_rules

  Same-deactivate : (tenant : String) → Evolves SameOnboarding (deactivate tenant)
  unfolding deactivate
  Same-deactivate tenant = search (same_rules, Same-remove_member) depth 30

  Same-generate : (tenant : String) → Evolves SameOnboarding (generate p tenant)
  unfolding generate
  Same-generate tenant = search same_rules depth 40

  Same-revoke_all : (tenant : String) → Evolves SameOnboarding (revoke_all p tenant)
  unfolding revoke_all
  Same-revoke_all tenant = search same_rules depth 20

  -- The services of the repository, with the statements on a schema as parameters.
  abbrev pub services :
      (create drop : String → Action Unit) → (migrate seed : Action Unit) → Collaborators
  services create drop migrate seed = record {
    create_schema = create;
    drop_schema = drop;
    ensure_meta_tables = migrate;
    bootstrap_seed = seed;
    assign = assign p;
    deactivate = deactivate;
    generate = generate p;
    revoke_all = revoke_all p;
    send_setup_invite = λ email name token. send_mail p (Mail.setup_invite email name token);
  }

  -- They respect the onboarding where the statements on a schema do.
  pub services-Respects :
      (create drop : String → Action Unit) (migrate seed : Action Unit)
      → ((schema : String) → Evolves SameOnboarding (create schema))
      → ((schema : String) → Evolves SameOnboarding (drop schema))
      → Evolves SameOnboarding migrate
      → Evolves SameOnboarding seed
      → Respects (services create drop migrate seed)
  services-Respects create drop migrate seed h k l m = record {
    create_schema = h;
    drop_schema = k;
    ensure_meta_tables = l;
    bootstrap_seed = m;
    assign = Same-assign;
    deactivate = Same-deactivate;
    generate = Same-generate;
    revoke_all = Same-revoke_all;
    send_setup_invite = λ email name token. Same-send_mail p _;
  }
