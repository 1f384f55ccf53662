-- ===== src/Auth/Reset/Trail.antt =====
-- The methods of `PasswordResetService` keep what `Later` keeps.
use flexi.Prelude.{
  ℕ, ◌+◌, String, refl, Bool, ◌&&◌, Option, none, some, List, arith, eqb, is_none, ◌==◌,
}
use flexi.Exec.Evolves.{Evolves}
use flexi.Store.{PasswordResetOtp, MetaValue}
use flexi.Store.Platform.{Platform}
use flexi.Store.Tables.{update_password_reset_otps}
use flexi.Store.Evolution.{Later}
use flexi.Store.Evolution.Rules.{Later-update_password_reset_otps}
use flexi.Auth.Service.Trail.{auth_rules}
use flexi.Auth.Reset.{
  ResetActor, PendingDelivery, consume_at, fail_attempt, is_within_cooldown, audit_request,
  issue_otp, throttle, request_of, request_reset, deliver_otp, record_failure, refuse_otp,
  expire_otp, count_attempt, set_password, complete_reset, try_otp, attempt_reset, reset_password,
}

pub Later-consume :
    (t : ℕ) (q : PasswordResetOtp → Bool)
    → Evolves Later (update_password_reset_otps q (consume_at t))
Later-consume t q =
    Later-update_password_reset_otps q (consume_at t) (λ o h. ground arith) (λ o. refl)
      (λ o h b. ground arith)

-- The write of a failed attempt: its filter applies to the row only as it was read.
pub Later-fail_attempt :
    (t n : ℕ) (id : String)
    → Evolves Later (
        update_password_reset_otps
          (λ o. o.id == id && is_none o.consumed_at && eqb o.attempt_count n)
          (fail_attempt t (n + 1)))
Later-fail_attempt t n id =
    Later-update_password_reset_otps _ (fail_attempt t (n + 1)) (λ o h. ground arith) (λ o. refl)
      (λ o h b. ground arith)

ruleset reset_rules = (auth_rules, Later-consume, Later-fail_attempt, refl)

module _ (p : Platform) where
  Later-audit_request :
      (a : ResetActor) (m : List (String × MetaValue)) → Evolves Later (audit_request p a m)
  unfolding audit_request
  Later-audit_request a m = search reset_rules

  Later-is_within_cooldown : (account : String) → Evolves Later (is_within_cooldown p account)
  unfolding is_within_cooldown
  Later-is_within_cooldown account = search reset_rules depth 10

  Later-issue_otp : (a : ResetActor) (email : String) → Evolves Later (issue_otp p a email)
  unfolding issue_otp
  Later-issue_otp a email = search (reset_rules, Later-audit_request) depth 20

  Later-throttle : (a : ResetActor) → Evolves Later (throttle p a)
  unfolding throttle
  Later-throttle a = search (reset_rules, Later-audit_request)

  Later-request_of : (a : Option ResetActor) (email : String) → Evolves Later (request_of p a email)
  unfolding request_of
  Later-request_of none email = search reset_rules
  Later-request_of (some a) email =
      search (reset_rules, Later-is_within_cooldown, Later-throttle, Later-issue_otp) depth 10

  pub Later-request_reset :
      (email : String) (tenant_id : Option String) → Evolves Later (request_reset p email tenant_id)
  unfolding request_reset
  Later-request_reset email tenant_id = search (reset_rules, Later-request_of)

  pub Later-deliver_otp : (d : PendingDelivery) → Evolves Later (deliver_otp p d)
  unfolding deliver_otp
  Later-deliver_otp d = search (reset_rules, Later-audit_request)

  Later-refuse_otp :
      {A : Type 0} (a : Option ResetActor) (m : List (String × MetaValue))
      → Evolves Later (refuse_otp p {A = A} a m)
  unfolding refuse_otp record_failure
  Later-refuse_otp a m = search reset_rules

  Later-expire_otp :
      (a : ResetActor) (o : PasswordResetOtp) (t : ℕ) → Evolves Later (expire_otp p a o t)
  unfolding expire_otp
  Later-expire_otp a o t = search (reset_rules, Later-refuse_otp)

  Later-count_attempt :
      (a : ResetActor) (o : PasswordResetOtp) (t : ℕ) → Evolves Later (count_attempt p a o t)
  unfolding count_attempt
  Later-count_attempt a o t = search (reset_rules, Later-refuse_otp)

  pub Later-set_password :
      (a : ResetActor) (o : PasswordResetOtp) (hash : String) (t : ℕ)
      → Evolves Later (set_password p a o hash t)
  unfolding set_password
  Later-set_password a o hash t = search reset_rules depth 10

  Later-complete_reset :
      (a : ResetActor) (o : PasswordResetOtp) (password : String) (t : ℕ)
      → Evolves Later (complete_reset p a o password t)
  unfolding complete_reset
  Later-complete_reset a o password t = search (reset_rules, Later-set_password) depth 10

  Later-try_otp :
      (a : ResetActor) (o : PasswordResetOtp) (submitted password : String)
      → Evolves Later (try_otp p a o submitted password)
  unfolding try_otp
  Later-try_otp a o submitted password =
      search (reset_rules, Later-expire_otp, Later-count_attempt, Later-complete_reset) depth 10

  Later-attempt_reset :
      (a : Option ResetActor) (o : Option PasswordResetOtp) (submitted password : String)
      → Evolves Later (attempt_reset p a o submitted password)
  unfolding attempt_reset
  Later-attempt_reset (some a) (some o) submitted password =
      search (reset_rules, Later-try_otp, Later-refuse_otp)
  Later-attempt_reset _ _ submitted password = search (reset_rules, Later-refuse_otp)

  pub Later-reset_password :
      (email submitted password : String) (tenant_id : Option String)
      → Evolves Later (reset_password p email submitted password tenant_id)
  unfolding reset_password
  Later-reset_password email submitted password tenant_id =
      search (reset_rules, Later-attempt_reset) depth 10
