-- ===== src/Store/Rows/Grows.antt =====
-- A table that keeps its rows: each old row is still there, related to what it was, and new rows
-- stand behind the old.
use mathlib.Core.Path.{subst}
use flexi.Prelude.{
  Bool-cases, inl, inr, some, ◌≡◌, refl, Bool, true, false, List, [], ◌∷◌, ◌++◌, arith,
  if◌then◌else◌,
}
use flexi.Store.Rows.{update_many, find_first}
use flexi.Exec.Evolves.{Preorder}

module _ {ℓ} {A : Type ℓ} (R : A → A → Type 0) where
  abbrev pub Grows : List A → List A → Type 0
  Grows [] ys = Unit
  Grows (x ∷ xs) [] = ⊥
  Grows (x ∷ xs) (y ∷ ys) = R x y × Grows xs ys

module _ {ℓ} {A : Type ℓ} {R : A → A → Type 0} (P : Preorder R) where
  pub Grows-refl : (xs : List A) → Grows R xs xs
  Grows-refl [] = tt
  Grows-refl (x ∷ xs) = (P.reflexive x, Grows-refl xs)

  pub Grows-trans : (xs ys zs : List A) → Grows R xs ys → Grows R ys zs → Grows R xs zs
  Grows-trans [] ys zs h k = tt
  Grows-trans (x ∷ xs) [] zs h k = absurd h
  Grows-trans (x ∷ xs) (y ∷ ys) [] h k = absurd k
  Grows-trans (x ∷ xs) (y ∷ ys) (z ∷ zs) h k = (P.transitive h.0 k.0, Grows-trans xs ys zs h.1 k.1)

  pub Grows-append : (xs ys : List A) → Grows R xs (xs ++ ys)
  Grows-append [] ys = tt
  Grows-append (x ∷ xs) ys = (P.reflexive x, Grows-append xs ys)

  pub Grows-update_many :
      (p : A → Bool) (f : A → A) (xs : List A)
      → ((x : A) → p x ≡ true → R x (f x))
      → Grows R xs (update_many p f xs)
  unfolding update_many
  Grows-update_many p f [] h = tt
  Grows-update_many p f (x ∷ xs) h = (step (p x) refl, Grows-update_many p f xs h)
    where
      step : (b : Bool) → p x ≡ b → R x (if b then f x else x)
      step true e = h x e
      step false e = P.reflexive x

-- A row that a filter on kept columns finds is found later, as what became of it.
pub Grows-find_first {ℓ} :
    {A : Type ℓ} {R : A → A → Type 0} (p : A → Bool) (xs ys : List A) (x : A)
    → ((a b : A) → R a b → p b ≡ p a)
    → Grows R xs ys
    → find_first p xs ≡ some x
    → (y : A) × (find_first p ys ≡ some y) × R x y
unfolding find_first
Grows-find_first p [] ys x h g found = absurd (ground arith)
Grows-find_first p (z ∷ xs) [] x h g found = absurd g
Grows-find_first {R = R} p (z ∷ xs) (y ∷ ys) x h (later, g) found = elim (Bool-cases (p z)) [
  | inl passes ↦ (y, rw (h z y later) (rw passes), subst (λ w. R w y) (ground arith) later)
  | inr fails ↦
      let (w, there, becomes) = Grows-find_first p xs ys x h g (rw fails at found) in
      (w, rw (h z y later) (rw fails there), becomes)
]
