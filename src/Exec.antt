-- ===== src/Exec.antt =====
-- Requests: a method reads and writes the world and returns a result or raises. What was written
-- before a raise stays written, unless a transaction rolls it back.
pub mod Evolves
pub mod Outcome
use mathlib.Core.Path.{◌≡◌, refl, fun_ext}
use flexi.Prelude.{Bool, true, false}

-- The exceptions that the services raise, by the error code of the response.
pub data Failure : Type 0 where
  invalid_credentials invalid_refresh_token forbidden session_not_found user_not_found : Failure
  cannot_deactivate_self invalid_otp password_policy_violation unauthorized : Failure
  internal_server_error quota_exceeded impersonation_not_allowed validation_error : Failure
  email_already_exists tenant_not_found invite_not_found invite_not_pending : Failure
  invite_token_expired table_not_found first_admin_not_found : Failure
  invalid_setup_token provisioning_enqueue_failed : Failure
  slug_already_in_use idempotency_conflict onboarding_reservation_pending : Failure
  -- the error classes of tenants/provisioning.service.ts and provisioning.worker.ts
  activation_blocked manual_cleanup_required provisioning_cancelled : Failure
  provisioning_timeout : Failure
  -- a unique index refused a row (P2002), or an update found no row (P2025)
  unique_violation record_not_found : Failure
  -- a unique index refused a row of a raw query (P2010, which carries PostgreSQL's 23505)
  raw_unique_violation : Failure
  -- `new Error(...)` that no handler catches
  plain_error : Failure

pub data Result {ℓ} (A : Type ℓ) : Type ℓ where
  ok : A → Result A
  err : Failure → Result A

abbrev pub Exec {ℓ} : Type ℓ → Type ℓ → Type ℓ
Exec S A = S → Result A × S

module _ {ℓ} {S A : Type ℓ} where
  pub pure : A → Exec S A
  pure a s = (ok a, s)

  pub raise : Failure → Exec S A
  raise e s = (err e, s)

  pub gets : (S → A) → Exec S A
  gets f s = (ok (f s), s)

  -- an update of the state that also answers
  pub state : (S → A × S) → Exec S A
  state f s = let (a, s') = f s in (ok a, s')

module _ {ℓ} {S A B : Type ℓ} where
  abbrev pub continue : Result A → (A → Exec S B) → Exec S B
  continue (ok a) f s = f a s
  continue (err e) f s = (err e, s)

  infixl 10 ◌>>=◌ ◌>>◌
  -- opening this opens `pure`, `raise`, `gets` and `state` too
  unfoldable pub ◌>>=◌ : Exec S A → (A → Exec S B) → Exec S B
  unfolding pure raise gets state
  ◌>>=◌ m f s = let (r, s') = m s in continue r f s'

  abbrev pub ◌>>◌ : Exec S A → Exec S B → Exec S B
  m >> n = m >>= λ _. n

-- `if (refused) throw failure;`
abbrev pub refuse_if {ℓ} : {S : Type ℓ} → Bool → Failure → Exec S Unit
refuse_if true e s = (err e, s)
refuse_if false e s = (ok tt, s)

abbrev pub handle {ℓ} : {S A : Type ℓ} → Result A → (Failure → Exec S A) → Exec S A
handle (ok a) h s = (ok a, s)
handle (err e) h s = h e s

-- `try { m } catch (error) { handler }`
unfoldable pub catch_err {ℓ} : {S A : Type ℓ} → Exec S A → (Failure → Exec S A) → Exec S A
catch_err m h s = let (r, s') = m s in handle r h s'
