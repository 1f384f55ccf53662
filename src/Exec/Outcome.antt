-- ===== src/Exec/Outcome.antt =====
-- What is known of the parts of a `do` block from its outcome.
use flexi.Prelude.{◌≡◌, refl, arith, ◌⊎◌, inl, inr}
use flexi.Exec.{Failure, Result, ok, err, Exec, continue, ◌>>=◌}

module _ {S A B : Type 0} where
  continue-ok :
      (r : Result A) (f : A → Exec S B) (s : S) {b : B}
      → (continue r f s).0 ≡ ok b
      → (a : A) × (r ≡ ok a) × ((f a s).0 ≡ ok b) × ((continue r f s).1 ≡ (f a s).1)
  continue-ok (ok a) f s h = (a, refl, h, refl)
  continue-ok (err e) f s h = cc

  -- A block that returned: so did its first action, and the rest from there.
  pub bind-ok :
      (m : Exec S A) (f : A → Exec S B) (s : S) {b : B}
      → ((m >>= f) s).0 ≡ ok b
      → (a : A) × ((m s).0 ≡ ok a) × ((f a (m s).1).0 ≡ ok b) × (((m >>= f) s).1 ≡ (f a (m s).1).1)
  unfolding ◌>>=◌
  bind-ok m f s h = continue-ok (m s).0 f (m s).1 h

  -- A block whose first action raised.
  pub bind-err :
      (m : Exec S A) (f : A → Exec S B) (s : S) {e : Failure}
      → (m s).0 ≡ err e
      → (((m >>= f) s).0 ≡ err e) × (((m >>= f) s).1 ≡ (m s).1)
  unfolding ◌>>=◌
  bind-err m f s h = ground arith

  -- A block whose first action returned.
  pub bind-of_ok :
      (m : Exec S A) (f : A → Exec S B) (s : S) {a : A} → (m s).0 ≡ ok a → (m >>= f) s ≡ f a (m s).1
  unfolding ◌>>=◌
  bind-of_ok m f s h = rw (h, continue)

pub Result-cases :
    {A : Type 0} (r : Result A) → ((a : A) × (r ≡ ok a)) ⊎ ((e : Failure) × (r ≡ err e))
Result-cases (ok a) = inl (a, refl)
Result-cases (err e) = inr (e, refl)
