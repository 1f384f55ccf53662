-- ===== src/Store/Rows/Order.antt =====
-- Filtering and ordering of rows.
use flexi.Prelude.{ℕ, ◌≤◌, List, [], ◌∷◌, arith, ltb, Bool-cases, inl, inr}
use mathlib.Core.List.{Perm}
use mathlib.Core.List.Perm
use flexi.Store.Rows.{insert_desc, order_desc}

module _ {ℓ} {A : Type ℓ} (time : A → ℕ) where
  abbrev pub IsDescending : List A → Type 0
  IsDescending [] = Unit
  IsDescending (x ∷ []) = Unit
  IsDescending (x ∷ y ∷ ys) = (time y ≤ time x) × IsDescending (y ∷ ys)

module _ {ℓ} {A : Type ℓ} (time : A → ℕ) where
  insert_desc-IsDescending :
      (x : A) (xs : List A) → IsDescending time xs → IsDescending time (insert_desc time x xs)
  unfolding insert_desc
  insert_desc-IsDescending x [] h = tt
  insert_desc-IsDescending x (y ∷ []) h = ground arith
  insert_desc-IsDescending x (y ∷ z ∷ zs) h =
      ground (arith, insert_desc-IsDescending x (z ∷ zs) h.1)

  pub order_desc-IsDescending : (xs : List A) → IsDescending time (order_desc time xs)
  unfolding order_desc
  order_desc-IsDescending [] = tt
  order_desc-IsDescending (x ∷ xs) =
      insert_desc-IsDescending x (order_desc time xs) (order_desc-IsDescending xs)

  insert_desc-perm : (x : A) (xs : List A) → Perm (insert_desc time x xs) (x ∷ xs)
  unfolding insert_desc
  insert_desc-perm x [] = Perm.refl _
  insert_desc-perm x (y ∷ ys) = elim (Bool-cases (ltb (time x) (time y))) [
    | inl later ↦ rw later (Perm.trans (Perm.cons y (insert_desc-perm x ys)) (Perm.swap x y ys))
    | inr first ↦ rw first (Perm.refl _)
  ]

  -- Ordering rearranges and loses nothing.
  pub order_desc-perm : (xs : List A) → Perm (order_desc time xs) xs
  unfolding order_desc
  order_desc-perm [] = Perm.refl _
  order_desc-perm (x ∷ xs) =
      Perm.trans (insert_desc-perm x (order_desc time xs)) (Perm.cons x (order_desc-perm xs))
