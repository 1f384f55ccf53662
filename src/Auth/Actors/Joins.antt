-- ===== src/Auth/Actors/Joins.antt =====
-- What a join with the accounts finds.
use flexi.Prelude.{
  ◌<◌, String, ◌==◌, ◌≡◌, Bool, true, ◌&&◌, some, List, [], ◌∷◌, arith, Option-cases, inl, inr,
}
use flexi.Store.{AuthAccount, Tenant, Db}
use flexi.Store.Rows.{count, find_first}
use flexi.Store.Rows.Laws.{find_first_sound, count-pos}
use flexi.Auth.Actors.{find_joined, is_tenant_active}

-- The pair satisfies the filter, and the account is the one that the row names.
pub find_joined_sound :
    {A : Type 0} (account_id : A → String) (p : A → AuthAccount → Bool)
    (accounts : List AuthAccount) (xs : List A) (x : A) (a : AuthAccount)
    → find_joined account_id p accounts xs ≡ some (x, a)
    → (p x a ≡ true) × ((a.id == account_id x) ≡ true)
unfolding find_joined
find_joined_sound account_id p accounts [] x a h = ground arith
find_joined_sound account_id p accounts (y ∷ xs) x a h = ground (
  arith,
  find_first_sound (λ b. b.id == account_id y) accounts a,
  find_joined_sound account_id p accounts xs x a,
)

-- The account that a join found is there, under the id that the row names.
pub find_joined-account :
    {A : Type 0} (account_id : A → String) (p : A → AuthAccount → Bool)
    (accounts : List AuthAccount) (xs : List A) (x : A) (a : AuthAccount)
    → find_joined account_id p accounts xs ≡ some (x, a)
    → 0 < count (λ b. b.id == account_id x) accounts
unfolding find_joined
find_joined-account account_id p accounts [] x a h = absurd (ground arith)
find_joined-account account_id p accounts (y ∷ xs) x a h = ground (
  arith,
  find_first_sound (λ b. b.id == account_id y) accounts a,
  count-pos (λ b. b.id == account_id y) (λ b. b.id == account_id y) accounts a,
  find_joined-account account_id p accounts xs x a,
)

-- The row of a tenant that is active.
pub is_tenant_active-row :
    (db : Db) (tenant_id : String)
    → is_tenant_active db tenant_id ≡ true
    → (t : Tenant) × (find_first (λ t. t.id == tenant_id && t.status == "ACTIVE") db.tenants
        ≡ some t)
unfolding is_tenant_active
is_tenant_active-row db tenant_id h =
    elim (Option-cases (find_first (λ t. t.id == tenant_id && t.status == "ACTIVE") db.tenants)) [
      | inl missing ↦ absurd (ground arith)
      | inr found ↦ found
    ]
