-- ===== src/Store/Rows/Laws.antt =====
-- What the calls on rows do to one another.
use flexi.Prelude.{
  ◌+◌, ◌≤◌, ◌<◌, ◌≡◌, refl, Bool, true, false, ◌&&◌, none, some, List, [], ◌∷◌, ◌++◌, arith,
  if◌then◌else◌, All, Bool-cases, inl, inr,
}
use flexi.Store.Rows.{find_first, find_many, count, update_many}

module _ {ℓ} {A : Type ℓ} where
  -- What is found satisfies the filter.
  pub find_first_sound :
      (p : A → Bool) (xs : List A) (x : A) → find_first p xs ≡ some x → p x ≡ true
  unfolding find_first
  find_first_sound p [] x h = ground arith
  find_first_sound p (y ∷ xs) x h = ground (arith, find_first_sound p xs x)

  pub find_first-none-count : (p : A → Bool) (xs : List A) → find_first p xs ≡ none → count p xs ≡ 0
  unfolding find_first count
  find_first-none-count p [] h = refl
  find_first-none-count p (y ∷ xs) h = ground (arith, find_first-none-count p xs)

  -- An update that takes every row it touches out of the filter leaves nothing behind.
  pub count-update_many_zero :
      (p : A → Bool) (f : A → A) (xs : List A)
      → ((x : A) → p x ≡ true → p (f x) ≡ false)
      → count p (update_many p f xs) ≡ 0
  unfolding count update_many
  count-update_many_zero p f [] h = refl
  count-update_many_zero p f (x ∷ xs) h = ground (arith, count-update_many_zero p f xs h, h x)

  -- An update after which no row passes a filter: neither those that it touches nor the others.
  pub count-update_many_none :
      (q p : A → Bool) (f : A → A) (xs : List A)
      → ((x : A) → p x ≡ true → q (f x) ≡ false)
      → ((x : A) → p x ≡ false → q x ≡ false)
      → count q (update_many p f xs) ≡ 0
  unfolding count update_many
  count-update_many_none q p f [] h k = refl
  count-update_many_none q p f (x ∷ xs) h k =
      ground (arith, count-update_many_none q p f xs h k, h x, k x)

  -- Likewise nothing is found.
  pub find_first-update_many-none :
      (q p : A → Bool) (f : A → A) (xs : List A)
      → ((x : A) → p x ≡ true → q (f x) ≡ false)
      → ((x : A) → p x ≡ false → q x ≡ false)
      → find_first q (update_many p f xs) ≡ none
  unfolding find_first update_many
  find_first-update_many-none q p f [] h k = refl
  find_first-update_many-none q p f (x ∷ xs) h k =
      ground (arith, find_first-update_many-none q p f xs h k, h x, k x)

  -- A filter that an update does not affect counts as before.
  pub count-update_many_other :
      (q p : A → Bool) (f : A → A) (xs : List A)
      → ((x : A) → p x ≡ true → q (f x) ≡ q x)
      → count q (update_many p f xs) ≡ count q xs
  unfolding count update_many
  count-update_many_other q p f [] h = refl
  count-update_many_other q p f (x ∷ xs) h = ground (arith, count-update_many_other q p f xs h, h x)

  -- What an update touches passes the filter that it establishes.
  pub count-update_many_le :
      (p q : A → Bool) (f : A → A) (xs : List A)
      → ((x : A) → p x ≡ true → q (f x) ≡ true)
      → count p xs ≤ count q (update_many p f xs)
  unfolding count update_many
  count-update_many_le p q f [] h = omega arith
  count-update_many_le p q f (x ∷ xs) h = elim (Bool-cases (p x)) [
    | inl hit ↦ rw hit (rw (h x hit) (omega (arith, count-update_many_le p q f xs h)))
    | inr miss ↦ rw miss (ground (arith, count-update_many_le p q f xs h))
  ]

  pub count-append : (p : A → Bool) (xs ys : List A) → count p (xs ++ ys) ≡ count p xs + count p ys
  unfolding count
  count-append p [] ys = omega arith
  count-append p (x ∷ xs) ys = omega (arith, count-append p xs ys)

  -- With no row in the filter an update changes nothing.
  pub update_many-none :
      (p : A → Bool) (f : A → A) (xs : List A) → count p xs ≡ 0 → update_many p f xs ≡ xs
  unfolding count update_many
  update_many-none p f [] h = refl
  update_many-none p f (x ∷ xs) h = ground (arith, update_many-none p f xs)

  -- A narrower filter finds no more rows.
  pub count-and-le : (p q : A → Bool) (xs : List A) → count (λ x. p x && q x) xs ≤ count p xs
  unfolding count
  count-and-le p q [] = omega arith
  count-and-le p q (x ∷ xs) = ground (arith, count-and-le p q xs)

  -- What is found after an update that does not touch the filter's columns.
  pub find_first-update_many :
      (p q : A → Bool) (f : A → A) (xs : List A) (x : A)
      → ((y : A) → p (f y) ≡ p y)
      → find_first p xs ≡ some x
      → find_first p (update_many q f xs) ≡ some (if q x then f x else x)
  unfolding find_first update_many
  find_first-update_many p q f [] x h found = ground arith
  find_first-update_many p q f (y ∷ xs) x h found =
      ground (arith, h y, find_first-update_many p q f xs x h)

  -- An update of rows outside a filter, which stay outside, leaves the rows in it.
  pub find_many-update_many :
      (r q : A → Bool) (f : A → A) (xs : List A)
      → ((x : A) → q x ≡ true → r x ≡ false)
      → ((x : A) → q x ≡ true → r (f x) ≡ false)
      → find_many r (update_many q f xs) ≡ find_many r xs
  unfolding find_many update_many
  find_many-update_many r q f [] h k = refl
  find_many-update_many r q f (x ∷ xs) h k =
      ground (arith, find_many-update_many r q f xs h k, h x, k x)

  -- A row that was found is counted by every filter that it passes.
  pub count-pos :
      (p q : A → Bool) (xs : List A) (x : A)
      → find_first p xs ≡ some x
      → q x ≡ true
      → 0 < count q xs
  unfolding find_first count
  count-pos p q [] x found h = absurd (ground arith)
  count-pos p q (y ∷ xs) x found h = ground (arith, count-pos p q xs x)

-- What holds of every row still does after an update that keeps it where it applies.
pub All-update_many {ℓ κ} :
    {A : Type ℓ} (P : A → Type κ) (q : A → Bool) (f : A → A) (xs : List A)
    → ((x : A) → q x ≡ true → P x → P (f x))
    → All P xs
    → All P (update_many q f xs)
unfolding update_many
All-update_many P q f [] h all = tt
All-update_many P q f (x ∷ xs) h (now, all) = elim (Bool-cases (q x)) [
  | inl hit ↦ rw hit (h x hit now, All-update_many P q f xs h all)
  | inr miss ↦ rw miss (now, All-update_many P q f xs h all)
]
