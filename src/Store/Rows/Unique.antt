-- ===== src/Store/Rows/Unique.antt =====
-- A column without repetitions: the primary keys and the unique indexes of the schema.
use flexi.Prelude.{
  String, ◌==◌, ◌≡◌, refl, Bool, true, false, ◌&&◌, List, [], ◌∷◌, ◌++◌, arith, eq_iff,
}
use flexi.Store.Rows.{update_many, count}

module _ {ℓ} {A : Type ℓ} (key : A → String) where
  abbrev pub Lacks : String → List A → Type 0
  Lacks k [] = Unit
  Lacks k (x ∷ xs) = ((key x == k) ≡ false) × Lacks k xs

  abbrev pub IsUnique : List A → Type 0
  IsUnique [] = Unit
  IsUnique (x ∷ xs) = Lacks (key x) xs × IsUnique xs

module _ {ℓ} {A : Type ℓ} (key : A → String) where
  Lacks-update_many :
      (k : String) (p : A → Bool) (f : A → A) (xs : List A)
      → ((x : A) → key (f x) ≡ key x)
      → Lacks key k xs
      → Lacks key k (update_many p f xs)
  unfolding update_many
  Lacks-update_many k p f [] h l = tt
  Lacks-update_many k p f (x ∷ xs) h l = (ground (arith, h x), Lacks-update_many k p f xs h l.1)

  pub IsUnique-update_many :
      (p : A → Bool) (f : A → A) (xs : List A)
      → ((x : A) → key (f x) ≡ key x)
      → IsUnique key xs
      → IsUnique key (update_many p f xs)
  unfolding update_many
  IsUnique-update_many p f [] h u = tt
  IsUnique-update_many p f (x ∷ xs) h u = (
    ground (
      arith,
      h x,
      Lacks-update_many (key x) p f xs h u.0,
      Lacks-update_many (key (f x)) p f xs h,
    ),
    IsUnique-update_many p f xs h u.1,
  )

  Lacks-append :
      (k : String) (xs : List A) (y : A)
      → Lacks key k xs
      → (key y == k) ≡ false
      → Lacks key k (xs ++ y ∷ [])
  Lacks-append k [] y l h = (h, tt)
  Lacks-append k (x ∷ xs) y l h = (l.0, Lacks-append k xs y l.1 h)

  -- A row whose key no row has may be added.
  pub IsUnique-append :
      (xs : List A) (y : A) → IsUnique key xs → Lacks key (key y) xs → IsUnique key (xs ++ y ∷ [])
  IsUnique-append [] y u l = (tt, tt)
  IsUnique-append (x ∷ xs) y u l = (
    Lacks-append (key x) xs y u.0
        (ground (arith, l.0, eq_iff (key x) (key y), eq_iff (key y) (key x))),
    IsUnique-append xs y u.1 l.1,
  )

  -- No row passes a test that the key passes on every row with it.
  pub Lacks-of_count :
      (k : String) (p : A → Bool) (xs : List A)
      → ((x : A) → (key x == k) ≡ true → p x ≡ true)
      → count p xs ≡ 0
      → Lacks key k xs
  unfolding count
  Lacks-of_count k p [] h c = tt
  Lacks-of_count k p (x ∷ xs) h c = (ground (arith, h x), Lacks-of_count k p xs h (ground arith))

  pub count-Lacks :
      (k : String) (q : A → Bool) (xs : List A)
      → Lacks key k xs
      → count (λ x. key x == k && q x) xs ≡ 0
  unfolding count
  count-Lacks k q [] l = refl
  count-Lacks k q (x ∷ xs) l = ground (arith, count-Lacks k q xs l.1)
