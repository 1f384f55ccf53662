-- ===== src/Exec/Evolves.antt =====
-- Properties of every run of an action, with one rule for each way to build an action.
use flexi.Prelude.{Bool, true, false, if◌then◌else◌}
use flexi.Exec.{
  Failure, Result, ok, err, Exec, pure, raise, gets, state, refuse_if, continue, handle, catch_err,
  ◌>>=◌,
}

-- A preorder on states or on rows.
pub record Preorder {ℓ κ} {S : Type ℓ} (R : S → S → Type κ) : Type (ℓ ⊔ κ) where
  pub reflexive : (s : S) → R s s
  pub transitive : {a b c : S} → R a b → R b c → R a c

-- Every run of `m` goes from a state to one related to it, whether it returns or raises.
pub record Evolves {ℓ κ} {S A : Type ℓ} (R : S → S → Type κ) (m : Exec S A) : Type (ℓ ⊔ κ) where
  pub at : (s : S) → R s (m s).1

module _ {ℓ κ} {S A : Type ℓ} {R : S → S → Type κ} (P : Preorder R) where
  pub Evolves-pure : (a : A) → Evolves R (pure {S = S} a)
  unfolding pure
  Evolves-pure a = record { at = λ s. P.reflexive s }

  pub Evolves-raise : (e : Failure) → Evolves R (raise {S = S} {A = A} e)
  unfolding raise
  Evolves-raise e = record { at = λ s. P.reflexive s }

  pub Evolves-gets : (f : S → A) → Evolves R (gets f)
  unfolding gets
  Evolves-gets f = record { at = λ s. P.reflexive s }

module _ {ℓ κ} {S : Type ℓ} {R : S → S → Type κ} (P : Preorder R) where
  pub Evolves-refuse_if : (b : Bool) (e : Failure) → Evolves R (refuse_if {S = S} b e)
  Evolves-refuse_if true e = record { at = λ s. P.reflexive s }
  Evolves-refuse_if false e = record { at = λ s. P.reflexive s }

module _ {ℓ κ} {S A : Type ℓ} {R : S → S → Type κ} where
  pub Evolves-state : (f : S → A × S) → ((s : S) → R s (f s).1) → Evolves R (state f)
  unfolding state
  Evolves-state f h = record { at = λ s. h s }

  pub Evolves-if :
      (b : Bool) (m n : Exec S A) → Evolves R m → Evolves R n → Evolves R (if b then m else n)
  Evolves-if true m n km kn = km
  Evolves-if false m n km kn = kn

module _ {ℓ κ} {S A B : Type ℓ} {R : S → S → Type κ} (P : Preorder R) where
  Evolves-continue :
      (r : Result A) (f : A → Exec S B) (s : S)
      → ((a : A) → Evolves R (f a))
      → R s (continue r f s).1
  Evolves-continue (ok a) f s h = (h a).at s
  Evolves-continue (err e) f s h = P.reflexive s

  pub Evolves-bind :
      (m : Exec S A) (f : A → Exec S B)
      → Evolves R m
      → ((a : A) → Evolves R (f a))
      → Evolves R (m >>= f)
  unfolding ◌>>=◌
  Evolves-bind m f km kf = record {
    at = λ s. let (r, s') = m s in P.transitive (km.at s) (Evolves-continue r f s' kf);
  }

module _ {ℓ κ} {S A : Type ℓ} {R : S → S → Type κ} (P : Preorder R) where
  Evolves-handle :
      (r : Result A) (h : Failure → Exec S A) (s : S)
      → ((e : Failure) → Evolves R (h e))
      → R s (handle r h s).1
  Evolves-handle (ok a) h s k = P.reflexive s
  Evolves-handle (err e) h s k = (k e).at s

  pub Evolves-catch_err :
      (m : Exec S A) (h : Failure → Exec S A)
      → Evolves R m
      → ((e : Failure) → Evolves R (h e))
      → Evolves R (catch_err m h)
  unfolding catch_err
  Evolves-catch_err m h k l = record {
    at = λ s. let (r, s') = m s in P.transitive (k.at s) (Evolves-handle r h s' l);
  }

-- To be searched beside the preorder itself and the rules of its own actions.
pub ruleset evolves_rules = (
  Evolves-pure, Evolves-raise, Evolves-gets, Evolves-refuse_if, Evolves-if, Evolves-bind,
  Evolves-catch_err,
)
