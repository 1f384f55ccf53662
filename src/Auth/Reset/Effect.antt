-- ===== src/Auth/Reset/Effect.antt =====
-- What a password reset changes.
use flexi.Prelude.{
  ℕ, suc, ◌<◌, String, ◌==◌, ◌≡◌, sym, ap, ◌∙◌, ◌⊎◌, inl, inr, false, ◌&&◌, Option, none, some,
  arith, is_none, length, Option-cases,
}
use flexi.Exec.{ok, err, invalid_otp}
use flexi.Store.{PasswordResetOtp, Db, World}
use flexi.Store.Rows.{count, update_many}
use flexi.Store.Rows.Laws.{count-update_many_zero}
use flexi.Store.Platform.{Platform}
use flexi.Auth.Password.{validate_password_strength}
use flexi.Auth.Email.{normalize_email}
use flexi.Auth.Actors.{find_tenant_user_by_email, find_system_user_by_email}
use flexi.Auth.Actors.Joins.{find_joined-account}
use flexi.Auth.Service.{is_live_of, revoke_at}
use flexi.Auth.Reset.{ResetActor, consume_at, resolve_actor, reset_password}
use flexi.Auth.Reset.Outcome.{
  Written, complete_reset-ok, complete_reset_answers, Entitled, reset_password_cases,
}

-- The account of an actor that was resolved exists.
pub resolve_actor-account :
    (email : String) (tenant_id : Option String) (db : Db) (actor : ResetActor)
    → resolve_actor email tenant_id db ≡ some actor
    → 0 < count (λ a. a.id == actor.auth_account_id) db.auth_accounts
unfolding resolve_actor
resolve_actor-account email none db actor h =
    elim (Option-cases (find_system_user_by_email db email)) [
      | inl missing ↦ absurd (ground arith)
      | inr ((u, a), e) ↦ ground (
        arith,
        find_joined-account (λ u. u.auth_account_id) (λ u a. a.email == email) db.auth_accounts
            db.system_users u a (unfold find_system_user_by_email in e),
      )
    ]
resolve_actor-account email (some tenant_id) db actor h =
    elim (Option-cases (find_tenant_user_by_email db email tenant_id)) [
      | inl missing ↦ absurd (ground arith)
      | inr ((u, a), e) ↦ ground (
        arith,
        find_joined-account (λ u. u.auth_account_id)
            (λ u a. u.tenant_id == tenant_id && a.email == email) db.auth_accounts db.tenant_users u
            a (unfold find_tenant_user_by_email in e),
      )
    ]

module _ (p : Platform) where
  -- The account after a reset: the new hash, no forced change, no live session.
  pub record IsReset (actor : ResetActor) (otp : PasswordResetOtp) (password : String)
      (s s' : World) : Type 0 where
    pub no_session : count (is_live_of actor.auth_account_id) s'.refresh_tokens ≡ 0
    pub code_consumed :
        count (λ o. o.id == otp.id && is_none o.consumed_at) s'.password_reset_otps ≡ 0
    pub new_password :
        s'.auth_accounts
        ≡ update_many
            (λ a. a.id == actor.auth_account_id)
            (λ a. record a {
              password_hash = p.bcrypt_hash s.draws password;
              must_change_password = false;
            })
            s.auth_accounts

  Written-IsReset :
      (actor : ResetActor) (otp : PasswordResetOtp) (password : String) (t : ℕ) (s s' : World)
      → Written p actor otp password t s s'
      → IsReset actor otp password s s'
  Written-IsReset actor otp password t s s' w = record {
    no_session = rw w.tokens (
        count-update_many_zero (is_live_of actor.auth_account_id) (revoke_at t) s.refresh_tokens
          (λ r h. ground arith));
    code_consumed = rw w.otps (
        count-update_many_zero (λ o. o.id == otp.id && is_none o.consumed_at) (consume_at t)
          s.password_reset_otps (λ o h. ground arith));
    new_password = w.accounts;
  }

  IsReset-along :
      (actor : ResetActor) (otp : PasswordResetOtp) (password : String) (s : World) {s' s'' : World}
      → s'' ≡ s'
      → IsReset actor otp password (record s { ticks = suc s.ticks }) s'
      → IsReset actor otp password s s''
  IsReset-along actor otp password s e r = rw e (record {
    no_session = r.no_session;
    code_consumed = r.code_consumed;
    new_password = r.new_password;
  })

  -- A reset that returned was entitled; after it the account has the new password and no live session,
  -- and the code that was submitted is consumed.
  pub reset_password-IsReset :
      (email submitted password : String) (tenant_id : Option String) (s : World)
      → length (validate_password_strength password) ≡ 0
      → (reset_password p email submitted password tenant_id s).0 ≡ ok tt
      → (e : Entitled p email submitted password tenant_id s) × IsReset e.actor e.otp password s
          (reset_password p email submitted password tenant_id s).1
  reset_password-IsReset email submitted password tenant_id s strong h =
      elim (reset_password_cases p email submitted password tenant_id s strong) [
        | inl refused ↦ absurd (ground arith)
        | inr e ↦
            let s₁ = record s { ticks = suc s.ticks } in
            let t = p.clock s.ticks in
            let done =
              complete_reset-ok p e.actor e.otp password t s₁
                (ap (λ r. r.0) (sym e.completed) ∙ h) in
            (
              e,
              IsReset-along e.actor e.otp password s (ap (λ r. r.1) e.completed)
                  (Written-IsReset e.actor e.otp password t s₁ _ done),
            )
      ]

  -- With a strong password the answer to a reset tells success or a wrong code, and nothing else:
  -- not whether the address, the tenant or the account exists.
  pub reset_password_uniform :
      (email submitted password : String) (tenant_id : Option String) (s : World)
      → length (validate_password_strength password) ≡ 0
      → ((reset_password p email submitted password tenant_id s).0 ≡ ok tt)
        ⊎ ((reset_password p email submitted password tenant_id s).0 ≡ err invalid_otp)
  reset_password_uniform email submitted password tenant_id s strong =
      elim (reset_password_cases p email submitted password tenant_id s strong) [
        | inl refused ↦ inr refused
        | inr e ↦
            elim (complete_reset_answers p e.actor e.otp password (p.clock s.ticks)
              (record s { ticks = suc s.ticks })
              (resolve_actor-account (normalize_email p email) tenant_id s.db e.actor e.resolved)) [
                | inl done ↦ inl (ap (λ r. r.0) e.completed ∙ done)
                | inr refused ↦ inr (ap (λ r. r.0) e.completed ∙ refused)
              ]
      ]
