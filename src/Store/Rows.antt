-- ===== src/Store/Rows.antt =====
-- Rows of a table: the filters, updates and counts of the data client's calls.
pub mod Laws
pub mod Grows
pub mod Unique
pub mod Order
pub mod Claims
use flexi.Prelude.{
  ℕ, zero, suc, ◌+◌, ◌≡◌, refl, Bool, true, false, not, ◌&&◌, Option, none, some, List, [], ◌∷◌,
  ◌++◌, arith, ltb, leb, if◌then◌else◌,
}

module _ {ℓ} {A : Type ℓ} where
  -- `findFirst({ where })`, `findUnique({ where })`
  unfoldable pub find_first : (A → Bool) → List A → Option A
  find_first p [] = none
  find_first p (x ∷ xs) = if p x then some x else find_first p xs

  -- `findFirst({ where, orderBy: { createdAt: 'desc' } })`: of equal times the earlier row
  abbrev newer : (A → ℕ) → A → Option A → A
  newer time x none = x
  newer time x (some y) = if ltb (time x) (time y) then y else x

  unfoldable pub find_latest : (A → ℕ) → (A → Bool) → List A → Option A
  find_latest time p [] = none
  find_latest time p (x ∷ xs) =
      let rest = find_latest time p xs in if p x then some (newer time x rest) else rest

  unfoldable pub count : (A → Bool) → List A → ℕ
  count p [] = 0
  count p (x ∷ xs) = (if p x then 1 else 0) + count p xs

  -- `updateMany({ where, data })`
  unfoldable pub update_many : (A → Bool) → (A → A) → List A → List A
  update_many p f [] = []
  update_many p f (x ∷ xs) = (if p x then f x else x) ∷ update_many p f xs

  -- `deleteMany({ where })`
  unfoldable pub delete_many : (A → Bool) → List A → List A
  delete_many p [] = []
  delete_many p (x ∷ xs) = let rest = delete_many p xs in if p x then rest else x ∷ rest

  -- `findMany({ where })`
  unfoldable pub find_many : (A → Bool) → List A → List A
  find_many p [] = []
  find_many p (x ∷ xs) = let rest = find_many p xs in if p x then x ∷ rest else rest

  -- `orderBy: { createdAt: 'desc' }`
  insert_desc : (A → ℕ) → A → List A → List A
  insert_desc time x [] = x ∷ []
  insert_desc time x (y ∷ ys) =
      if ltb (time x) (time y) then y ∷ insert_desc time x ys else x ∷ y ∷ ys

  unfoldable pub order_desc : (A → ℕ) → List A → List A
  unfolding insert_desc
  order_desc time [] = []
  order_desc time (x ∷ xs) = insert_desc time x (order_desc time xs)
