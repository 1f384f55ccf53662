-- ===== src/Auth/Reset/Single.antt =====
-- A reset code sets a password once.
use flexi.Prelude.{ℕ, ◌<◌, String, ◌==◌, ◌≡◌, refl, Bool, ◌&&◌, arith, is_none}
use flexi.Exec.{ok, err, invalid_otp, ◌>>=◌}
use flexi.Store.{PasswordResetOtp, World}
use flexi.Store.Rows.{count, update_many}
use flexi.Store.Rows.Laws.{count-update_many_zero, count-update_many_other, count-and-le}
use flexi.Store.Rows.Claims.{still_none_live}
use flexi.Store.Platform.{Platform}
use flexi.Store.Tables.{
  transaction, update_refresh_tokens, update_password_reset_otps, update_auth_account,
}
use flexi.Store.Evolution.{Later, HasUniqueKeys}
use flexi.Auth.Reset.{ResetActor, consume_at, set_password}
use flexi.Auth.Reset.Trail.{Later-set_password}

-- The rows with an id that are not consumed.
abbrev pub is_live_code : String → PasswordResetOtp → Bool
is_live_code id o = o.id == id && is_none o.consumed_at

module _ (p : Platform) where
  -- The write that succeeded found the code live and consumed it.
  set_password-ok :
      (actor : ResetActor) (otp : PasswordResetOtp) (hash : String) (t n : ℕ) (s : World)
      → (set_password p actor otp hash t s).0 ≡ ok n
      → (0 < count (is_live_code otp.id) s.password_reset_otps)
        × ((set_password p actor otp hash t s).1.password_reset_otps
            ≡ update_many (is_live_code otp.id) (consume_at t) s.password_reset_otps)
  unfolding set_password transaction ◌>>=◌ update_password_reset_otps update_auth_account
      update_refresh_tokens
  set_password-ok actor otp hash t n s h = ground arith

  -- With the code consumed the write fails and the transaction leaves the database as it was.
  set_password-spent :
      (actor : ResetActor) (otp : PasswordResetOtp) (hash : String) (t : ℕ) (s : World)
      → count (is_live_code otp.id) s.password_reset_otps ≡ 0
      → ((set_password p actor otp hash t s).0 ≡ err invalid_otp)
        × ((set_password p actor otp hash t s).1.db ≡ s.db)
  unfolding set_password transaction ◌>>=◌ update_password_reset_otps update_auth_account
      update_refresh_tokens
  set_password-spent actor otp hash t s h = ground arith

  pub set_password_once :
      (actor other : ResetActor) (otp : PasswordResetOtp) (hash hash' : String) (t t' n : ℕ)
      (s later : World)
      → HasUniqueKeys s
      → (set_password p actor otp hash t s).0 ≡ ok n
      → Later (set_password p actor otp hash t s).1 later
      → ((set_password p other otp hash' t' later).0 ≡ err invalid_otp)
        × ((set_password p other otp hash' t' later).1.db ≡ later.db)
  set_password_once actor other otp hash hash' t t' n s later u done l =
      let live = is_live_code otp.id in
      let (one_live, otps) = set_password-ok actor otp hash t n s done in
      let none_live =
        count-update_many_zero live (consume_at t) s.password_reset_otps (λ o h. ground arith) in
      let kept =
        count-update_many_other (λ o. o.id == otp.id) live (consume_at t) s.password_reset_otps
          (λ o h. refl) in
      let some_row =
        count-and-le (λ o. o.id == otp.id) (λ o. is_none o.consumed_at) s.password_reset_otps in
      let keys = l.keys (((Later-set_password p actor otp hash t).at s).keys u) in
      set_password-spent other otp hash' t' later (
        still_none_live (λ o. o.id) (λ o. is_none o.consumed_at) (λ o o' h. ground arith)
          (λ o o' h k. ground arith) otp.id (update_many live (consume_at t) s.password_reset_otps)
          later.password_reset_otps (rw otps at l.otps) keys.otp_ids
          (omega (arith, kept, one_live, some_row)) none_live)
