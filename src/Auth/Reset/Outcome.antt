-- ===== src/Auth/Reset/Outcome.antt =====
-- How `resetPassword` ends.
use flexi.Prelude.{
  ℕ, suc, ◌<◌, String, ◌==◌, ◌≡◌, ◌≢◌, refl, sym, ap, ◌∙◌, ◌⊎◌, inl, inr, true, false, ◌&&◌, Option,
  none, some, List, [], ◌∷◌, arith, if◌then◌else◌, is_none, leb, length, Bool-cases,
}
use flexi.Exec.{ok, err, invalid_otp, password_policy_violation, ◌>>=◌}
use flexi.Store.{PasswordResetOtp, World, MetaValue}
use flexi.Store.Rows.{find_latest, count, update_many}
use flexi.Store.Platform.{Platform}
use flexi.Store.Tables.{
  now, draw, transaction, update_refresh_tokens, update_password_reset_otps, update_auth_account,
  record_audit,
}
use flexi.Auth.Password.{validate_password_strength}
use flexi.Auth.Email.{normalize_email}
use flexi.Auth.Service.{is_live_of, revoke_at, assert_password_meets_policy}
use flexi.Auth.Reset.{
  ResetActor, is_live_otp_of, consume_at, resolve_actor, otp_matches, record_failure, refuse_otp,
  expire_otp, count_attempt, set_password, complete_reset, try_otp, attempt_reset, account_or_empty,
  reset_password,
}

module _ (p : Platform) where
  -- What a completed reset wrote.
  pub record Written (actor : ResetActor) (otp : PasswordResetOtp) (password : String) (t : ℕ)
      (s s' : World) : Type 0 where
    pub tokens :
        s'.refresh_tokens
        ≡ update_many (is_live_of actor.auth_account_id) (revoke_at t) s.refresh_tokens
    pub otps :
        s'.password_reset_otps
        ≡ update_many
            (λ o. o.id == otp.id && is_none o.consumed_at)
            (consume_at t)
            s.password_reset_otps
    pub accounts :
        s'.auth_accounts
        ≡ update_many
            (λ a. a.id == actor.auth_account_id)
            (λ a. record a {
              password_hash = p.bcrypt_hash s.draws password;
              must_change_password = false;
            })
            s.auth_accounts

  pub complete_reset-ok :
      (actor : ResetActor) (otp : PasswordResetOtp) (password : String) (t : ℕ) (s : World)
      → (complete_reset p actor otp password t s).0 ≡ ok tt
      → Written actor otp password t s (complete_reset p actor otp password t s).1
  unfolding complete_reset set_password ◌>>=◌ draw transaction update_password_reset_otps
      update_auth_account update_refresh_tokens record_audit
  complete_reset-ok actor otp password t s h = ground arith

  -- Where the actor's account exists, a reset completes or its code was consumed by another one.
  pub complete_reset_answers :
      (actor : ResetActor) (otp : PasswordResetOtp) (password : String) (t : ℕ) (s : World)
      → 0 < count (λ a. a.id == actor.auth_account_id) s.auth_accounts
      → ((complete_reset p actor otp password t s).0 ≡ ok tt)
        ⊎ ((complete_reset p actor otp password t s).0 ≡ err invalid_otp)
  unfolding complete_reset set_password ◌>>=◌ draw transaction update_password_reset_otps
      update_auth_account update_refresh_tokens record_audit
  complete_reset_answers actor otp password t s h = ground arith

  refuse_otp_lem :
      (actor : Option ResetActor) (m : List (String × MetaValue)) (s : World)
      → (refuse_otp p {A = Unit} actor m s).0 ≡ err invalid_otp
  unfolding refuse_otp record_failure ◌>>=◌ record_audit
  refuse_otp_lem actor m s = ground arith

  -- The live code that a reset of the actor looks up.
  abbrev found_otp : ResetActor → World → Option PasswordResetOtp
  found_otp actor s =
      find_latest (λ o. o.created_at) (is_live_otp_of actor.auth_account_id) s.password_reset_otps

  -- What a reset that completed shows of the request: the address names an active actor, whose latest
  -- live code has not expired and was submitted, and the new password is strong.
  pub record Entitled (email submitted password : String) (tenant_id : Option String) (s : World)
      : Type 0 where
    pub actor : ResetActor
    pub otp : PasswordResetOtp
    pub strong : length (validate_password_strength password) ≡ 0
    pub resolved : resolve_actor (normalize_email p email) tenant_id s.db ≡ some actor
    pub active : actor.is_active ≡ true
    pub found : found_otp actor s ≡ some otp
    pub unexpired : p.clock s.ticks < otp.expires_at
    pub matches : otp_matches p submitted otp.otp_hash ≡ true
    pub compared : p.bcrypt_compare submitted otp.otp_hash ≡ true
    pub completed :
        reset_password p email submitted password tenant_id s
        ≡ complete_reset p actor otp password (p.clock s.ticks) (record s { ticks = suc s.ticks })

  otp_matches-compared :
      (submitted hash : String)
      → otp_matches p submitted hash ≡ true
      → p.bcrypt_compare submitted hash ≡ true
  unfolding otp_matches
  otp_matches-compared submitted hash h = ground arith

  expire_otp_lem :
      (actor : ResetActor) (otp : PasswordResetOtp) (t : ℕ) (s : World)
      → (expire_otp p actor otp t s).0 ≡ err invalid_otp
  unfolding expire_otp refuse_otp record_failure ◌>>=◌ update_password_reset_otps record_audit
  expire_otp_lem actor otp t s = ground arith

  count_attempt_lem :
      (actor : ResetActor) (otp : PasswordResetOtp) (t : ℕ) (s : World)
      → (count_attempt p actor otp t s).0 ≡ err invalid_otp
  unfolding count_attempt refuse_otp record_failure ◌>>=◌ update_password_reset_otps record_audit
  count_attempt_lem actor otp t s = ground arith

  -- The submission passed every check and went on to complete the reset.
  pub record Completes (actor : Option ResetActor) (otp : Option PasswordResetOtp)
      (submitted password : String) (s : World) : Type 0 where
    pub a : ResetActor
    pub o : PasswordResetOtp
    pub resolved : actor ≡ some a
    pub found : otp ≡ some o
    pub active : a.is_active ≡ true
    pub unexpired : p.clock s.ticks < o.expires_at
    pub matches : otp_matches p submitted o.otp_hash ≡ true
    pub completed :
        attempt_reset p actor otp submitted password s
        ≡ complete_reset p a o password (p.clock s.ticks) (record s { ticks = suc s.ticks })

  try_otp_cases :
      (a : ResetActor) (o : PasswordResetOtp) (submitted password : String) (s : World)
      → ((try_otp p a o submitted password s).0 ≡ err invalid_otp)
        ⊎ ((p.clock s.ticks < o.expires_at)
            × (otp_matches p submitted o.otp_hash ≡ true)
            × (try_otp p a o submitted password s
                ≡ complete_reset p a o password
                    (p.clock s.ticks)
                    (record s { ticks = suc s.ticks })))
  unfolding try_otp ◌>>=◌ now
  try_otp_cases a o submitted password s =
      let s' = record s { ticks = suc s.ticks } in
      let t = p.clock s.ticks in
      elim (Bool-cases (leb o.expires_at t)) [
        | inl expired ↦ inl (rw expired (expire_otp_lem a o t s'))
        | inr fresh ↦ elim (Bool-cases (otp_matches p submitted o.otp_hash)) [
          | inl hit ↦ inr (ground arith, hit, rw (fresh, hit) refl)
          | inr miss ↦ inl (rw (fresh, miss) (count_attempt_lem a o t s'))
        ]
      ]

  attempt_reset-active :
      (a : ResetActor) (o : PasswordResetOtp) (submitted password : String)
      → a.is_active ≡ true
      → attempt_reset p (some a) (some o) submitted password ≡ try_otp p a o submitted password
  unfolding attempt_reset
  attempt_reset-active a o submitted password h =
      ap
        (λ b.
          if b
          then try_otp p a o submitted password
          else refuse_otp p (some a) (("reason", MetaValue.text "NO_LIVE_OTP") ∷ []))
        h

  attempt_reset-inactive :
      (a : ResetActor) (o : PasswordResetOtp) (submitted password : String)
      → a.is_active ≡ false
      → attempt_reset p (some a) (some o) submitted password
        ≡ refuse_otp p (some a) (("reason", MetaValue.text "NO_LIVE_OTP") ∷ [])
  unfolding attempt_reset
  attempt_reset-inactive a o submitted password h =
      ap
        (λ b.
          if b
          then try_otp p a o submitted password
          else refuse_otp p (some a) (("reason", MetaValue.text "NO_LIVE_OTP") ∷ []))
        h

  -- A submission either is refused as a wrong code or completes the reset.
  pub attempt_reset_cases :
      (actor : Option ResetActor) (otp : Option PasswordResetOtp) (submitted password : String)
      (s : World)
      → ((attempt_reset p actor otp submitted password s).0 ≡ err invalid_otp)
        ⊎ Completes actor otp submitted password s
  unfolding attempt_reset
  attempt_reset_cases none otp submitted password s = inl (refuse_otp_lem none _ s)
  attempt_reset_cases (some a) none submitted password s = inl (refuse_otp_lem (some a) _ s)
  attempt_reset_cases (some a) (some o) submitted password s = elim (Bool-cases a.is_active) [
    | inr inactive ↦ inl (
        ap (λ m. (m s).0) (attempt_reset-inactive a o submitted password inactive)
        ∙ refuse_otp_lem (some a) _ s)
    | inl active ↦
        let tried = ap (λ m. m s) (attempt_reset-active a o submitted password active) in
        elim (try_otp_cases a o submitted password s) [
          | inl refused ↦ inl (ap (λ r. r.0) tried ∙ refused)
          | inr (unexpired, matches, completed) ↦ inr (record {
            a = a;
            o = o;
            resolved = refl;
            found = refl;
            active = active;
            unexpired = unexpired;
            matches = matches;
            completed = tried ∙ completed;
          })
        ]
  ]

  -- With a strong password a reset either is refused as a wrong code, whatever is wrong with the
  -- address, the account or the code, or the request is entitled and goes on to complete.
  pub reset_password_cases :
      (email submitted password : String) (tenant_id : Option String) (s : World)
      → length (validate_password_strength password) ≡ 0
      → ((reset_password p email submitted password tenant_id s).0 ≡ err invalid_otp)
        ⊎ Entitled email submitted password tenant_id s
  unfolding reset_password assert_password_meets_policy ◌>>=◌
  reset_password_cases email submitted password tenant_id s strong =
      let actor = resolve_actor (normalize_email p email) tenant_id s.db in
      let otp =
        find_latest (λ o. o.created_at) (is_live_otp_of (account_or_empty p actor))
          s.password_reset_otps in
      elim (attempt_reset_cases actor otp submitted password s) [
        | inl refused ↦ inl (ground (arith, refused))
        | inr c ↦ inr (record {
          actor = c.a;
          otp = c.o;
          strong = strong;
          resolved = c.resolved;
          active = c.active;
          found =
              ap
                (λ x.
                  find_latest (λ o. o.created_at) (is_live_otp_of (account_or_empty p x))
                    s.password_reset_otps)
                (sym c.resolved)
              ∙ c.found;
          unexpired = c.unexpired;
          matches = c.matches;
          compared = otp_matches-compared submitted c.o.otp_hash c.matches;
          completed = ground (arith, c.completed);
        })
      ]

  -- A weak password is refused before anything is read or written.
  pub reset_password_weak :
      (email submitted password : String) (tenant_id : Option String) (s : World)
      → length (validate_password_strength password) ≢ 0
      → reset_password p email submitted password tenant_id s ≡ (err password_policy_violation, s)
  unfolding reset_password assert_password_meets_policy ◌>>=◌
  reset_password_weak email submitted password tenant_id s weak = ground arith
