-- ===== src/Users/Lifecycle/Forced.antt =====
-- Forced resets of a password, and refusals of the lifecycle operations.
use flexi.Prelude.{
  ℕ, suc, String, ◌==◌, ◌≡◌, refl, ap, ◌∙◌, ◌⊎◌, Bool-cases, Bool, true, false, ◌&&◌, Option, some,
  arith, Option-cases, inl, inr, or_default,
}
use flexi.Exec.{Failure, ok, err, user_not_found, forbidden, ◌>>=◌}
use flexi.Exec.Outcome.{bind-ok, bind-err, bind-of_ok, Result-cases}
use flexi.Store.{World}
use flexi.Store.Rows.{count, update_many}
use flexi.Store.Rows.Laws.{count-update_many_zero}
use flexi.Store.Platform.{Platform}
use flexi.Store.Tables.{
  transaction, now, draw, send_mail, record_audit, update_refresh_tokens,
  update_password_reset_otps, update_auth_account, update_tenant_user, update_system_user,
}
use flexi.Auth.Actors.{AuthenticatedUser}
use flexi.Auth.Permissions.{account_reset_password, holds, assert_actor_permission}
use flexi.Auth.Service.{is_live_of, revoke_at}
use flexi.Auth.Reset.{is_live_otp_of, consume_at}
use flexi.Users.Lifecycle.{
  TargetActor, find_target, resolve_target, set_active_of, set_actor_active, revoke_live_sessions,
  ForceResetPasswordResponse, audit_lifecycle, deactivate, deliver_temporary_password,
  set_temporary_password, report_temporary_password, finish_force, force_target,
  force_reset_password,
}

module _ (p : Platform) where
  -- What a forced reset that returned shows and leaves.
  pub record Forced (user_id : String) (user : AuthenticatedUser) (s s' : World)
      (r : ForceResetPasswordResponse) : Type 0 where
    pub target : TargetActor
    pub resolved : find_target user.actor_type user_id user.tenant_id s.db ≡ some target
    pub permitted : holds user account_reset_password ≡ true
    pub accounts :
        s'.auth_accounts
        ≡ update_many
            (λ a. a.id == target.auth_account_id)
            (λ a. record a {
              password_hash = p.bcrypt_hash (suc s.draws) (p.temporary_password s.draws);
              must_change_password = true;
            })
            s.auth_accounts
    pub tokens :
        s'.refresh_tokens
        ≡ update_many
            (is_live_of target.auth_account_id)
            (revoke_at (p.clock s.ticks))
            s.refresh_tokens
    pub otps :
        s'.password_reset_otps
        ≡ update_many
            (is_live_otp_of target.auth_account_id)
            (consume_at (p.clock s.ticks))
            s.password_reset_otps
    pub counted :
        r.revoked_session_count ≡ count (is_live_of target.auth_account_id) s.refresh_tokens

  set_temporary_password-ok :
      (target : TargetActor) (hash : String) (t n : ℕ) (s : World)
      → (set_temporary_password p target hash t s).0 ≡ ok n
      → ((set_temporary_password p target hash t s).1.auth_accounts
          ≡ update_many
              (λ a. a.id == target.auth_account_id)
              (λ a. record a { password_hash = hash; must_change_password = true })
              s.auth_accounts)
        × ((set_temporary_password p target hash t s).1.refresh_tokens
            ≡ update_many (is_live_of target.auth_account_id) (revoke_at t) s.refresh_tokens)
        × ((set_temporary_password p target hash t s).1.password_reset_otps ≡ s.password_reset_otps)
        × (n ≡ count (is_live_of target.auth_account_id) s.refresh_tokens)
  unfolding set_temporary_password ◌>>=◌ transaction update_auth_account revoke_live_sessions
      update_refresh_tokens
  set_temporary_password-ok target hash t n s h = ground arith

  set_temporary_password-refused :
      (target : TargetActor) (hash : String) (t : ℕ) (s : World) (e : Failure)
      → (set_temporary_password p target hash t s).0 ≡ err e
      → (set_temporary_password p target hash t s).1.db ≡ s.db
  unfolding set_temporary_password ◌>>=◌ transaction update_auth_account revoke_live_sessions
      update_refresh_tokens
  set_temporary_password-refused target hash t s e h = ground arith

  report_temporary_password-ok :
      (target : TargetActor) (user : AuthenticatedUser) (requested : Bool) (password : String)
      (n : ℕ) (s : World)
      → ((report_temporary_password p target user requested password n s).0
          ≡ ok (record {
            user_id = target.user_id;
            must_change_password = true;
            revoked_session_count = n;
            email_delivered = requested && (p.deliver s.draws).delivered;
          }))
        × ((report_temporary_password p target user requested password n s).1.auth_accounts
            ≡ s.auth_accounts)
        × ((report_temporary_password p target user requested password n s).1.refresh_tokens
            ≡ s.refresh_tokens)
        × ((report_temporary_password p target user requested password n s).1.password_reset_otps
            ≡ s.password_reset_otps)
  unfolding report_temporary_password ◌>>=◌ deliver_temporary_password send_mail audit_lifecycle
      record_audit
  report_temporary_password-ok target user false password n s =
      (ground arith, ground arith, ground arith, ground arith)
  report_temporary_password-ok target user true password n s =
      (ground arith, ground arith, ground arith, ground arith)

  finish_force-ok :
      (target : TargetActor) (requested : Bool) (user : AuthenticatedUser) (password : String)
      (t n : ℕ) (s : World)
      → ((finish_force p target requested user password t n s).0
          ≡ ok (record {
            user_id = target.user_id;
            must_change_password = true;
            revoked_session_count = n;
            email_delivered = requested && (p.deliver s.draws).delivered;
          }))
        × ((finish_force p target requested user password t n s).1.auth_accounts ≡ s.auth_accounts)
        × ((finish_force p target requested user password t n s).1.refresh_tokens
            ≡ s.refresh_tokens)
        × ((finish_force p target requested user password t n s).1.password_reset_otps
            ≡ update_many
                (is_live_otp_of target.auth_account_id)
                (consume_at t)
                s.password_reset_otps)
  unfolding finish_force ◌>>=◌ update_password_reset_otps
  finish_force-ok target requested user password t n s =
      report_temporary_password-ok target user requested password n (record s {
        db = record s.db {
          password_reset_otps =
              update_many (is_live_otp_of target.auth_account_id) (consume_at t)
                s.password_reset_otps;
        };
      })

  -- The state after the two draws and the reading of the clock.
  abbrev drawn : World → World
  drawn s = record s { draws = suc (suc s.draws); ticks = suc s.ticks }

  force_target-drawn :
      (target : TargetActor) (requested : Bool) (user : AuthenticatedUser) (s : World)
      → force_target p target requested user s
        ≡ (set_temporary_password p target
                (p.bcrypt_hash (suc s.draws) (p.temporary_password s.draws))
                (p.clock s.ticks)
              >>= finish_force p target requested user
                  (p.temporary_password s.draws)
                  (p.clock s.ticks))
            (drawn s)
  unfolding force_target ◌>>=◌ now draw
  force_target-drawn target requested user s = refl

  -- The permission and the scope are checked first; what fails there leaves the world as it was.
  force_reset_password-cases :
      (user_id : String) (send : Option Bool) (user : AuthenticatedUser) (s : World)
      → ((e : Failure) × (force_reset_password p user_id send user s ≡ (err e, s)))
        ⊎ ((target : TargetActor) × (find_target user.actor_type user_id user.tenant_id s.db
              ≡ some target)
            × (holds user account_reset_password ≡ true)
            × (force_reset_password p user_id send user s
                ≡ force_target p target (or_default send true) user s))
  unfolding force_reset_password assert_actor_permission resolve_target ◌>>=◌
  force_reset_password-cases user_id send user s =
      elim (Bool-cases (holds user account_reset_password)) [
        | inr denied ↦ inl (forbidden, rw denied refl)
        | inl permitted ↦
            elim (Option-cases (find_target user.actor_type user_id user.tenant_id s.db)) [
              | inl missing ↦ inl (user_not_found, rw permitted (rw missing refl))
              | inr (target, e) ↦ inr (target, e, permitted, rw permitted (rw e refl))
            ]
      ]

  Forced-of :
      (user_id : String) (send : Option Bool) (user : AuthenticatedUser) (s : World)
      (r : ForceResetPasswordResponse) (target : TargetActor)
      → find_target user.actor_type user_id user.tenant_id s.db ≡ some target
      → holds user account_reset_password ≡ true
      → (force_target p target (or_default send true) user s).0 ≡ ok r
      → Forced user_id user s (force_target p target (or_default send true) user s).1 r
  Forced-of user_id send user s r target e permitted h =
      let hash = p.bcrypt_hash (suc s.draws) (p.temporary_password s.draws) in
      let t = p.clock s.ticks in
      let m = set_temporary_password p target hash t in
      let requested = or_default send true in
      let f = finish_force p target requested user (p.temporary_password s.draws) t in
      let step = force_target-drawn target requested user s in
      let (n, set, finished, end) = bind-ok m f (drawn s) (rw step at h) in
      let (accounts, tokens, otps, counted) =
        set_temporary_password-ok target hash t n (drawn s) set in
      let (answer, accounts', tokens', otps') =
        finish_force-ok target requested user (p.temporary_password s.draws) t n (m (drawn s)).1 in
      rw (step, end)
        (record {
          target = target;
          resolved = e;
          permitted = permitted;
          accounts = accounts' ∙ accounts;
          tokens = tokens' ∙ tokens;
          otps =
              otps' ∙ ap (update_many (is_live_otp_of target.auth_account_id) (consume_at t)) otps;
          counted = ground (arith, answer, finished, counted);
        })

  force_reset_password-ok :
      (user_id : String) (send : Option Bool) (user : AuthenticatedUser) (s : World)
      (r : ForceResetPasswordResponse)
      → (force_reset_password p user_id send user s).0 ≡ ok r
      → Forced user_id user s (force_reset_password p user_id send user s).1 r
  force_reset_password-ok user_id send user s r h =
      elim (force_reset_password-cases user_id send user s) [
        | inl (e, refused) ↦ absurd (ground arith)
        | inr (target, e, permitted, same) ↦
            rw same (Forced-of user_id send user s r target e permitted (rw same at h))
      ]

  -- A forced reset that returned sets a fresh temporary password that must be changed, and leaves the
  -- account neither a live session nor a live reset code.
  pub force_reset_password_lem :
      (user_id : String) (send : Option Bool) (user : AuthenticatedUser) (s : World)
      (r : ForceResetPasswordResponse)
      → (force_reset_password p user_id send user s).0 ≡ ok r
      → (f : Forced user_id user s (force_reset_password p user_id send user s).1 r) × (count
            (is_live_of f.target.auth_account_id)
            (force_reset_password p user_id send user s).1.refresh_tokens
          ≡ 0)
        × (count
              (is_live_otp_of f.target.auth_account_id)
              (force_reset_password p user_id send user s).1.password_reset_otps
            ≡ 0)
  force_reset_password_lem user_id send user s r h =
      let f = force_reset_password-ok user_id send user s r h in
      let account = f.target.auth_account_id in
      let t = p.clock s.ticks in
      (
        f,
        rw f.tokens (
            count-update_many_zero (is_live_of account) (revoke_at t) s.refresh_tokens
              (λ r h. ground arith)),
        rw f.otps (
            count-update_many_zero (is_live_otp_of account) (consume_at t) s.password_reset_otps
              (λ o h. ground arith)),
      )

  -- A deactivation that raised left the database as it was.
  pub deactivate_refused :
      (user_id : String) (user : AuthenticatedUser) (s : World) (e : Failure)
      → (deactivate p user_id user s).0 ≡ err e
      → (deactivate p user_id user s).1.db ≡ s.db
  unfolding deactivate assert_actor_permission resolve_target ◌>>=◌ now transaction set_actor_active
      set_active_of update_tenant_user update_system_user revoke_live_sessions update_refresh_tokens
      audit_lifecycle record_audit
  deactivate_refused user_id user s e h =
      elim (Option-cases (find_target user.actor_type user_id user.tenant_id s.db)) [
        | inl missing ↦ ground arith
        | inr (target, found) ↦ ground arith
      ]

  force_target-refused :
      (target : TargetActor) (requested : Bool) (user : AuthenticatedUser) (s : World) (e : Failure)
      → (force_target p target requested user s).0 ≡ err e
      → (force_target p target requested user s).1.db ≡ s.db
  force_target-refused target requested user s e h =
      let hash = p.bcrypt_hash (suc s.draws) (p.temporary_password s.draws) in
      let t = p.clock s.ticks in
      let m = set_temporary_password p target hash t in
      let f = finish_force p target requested user (p.temporary_password s.draws) t in
      let step = force_target-drawn target requested user s in
      elim (Result-cases (m (drawn s)).0) [
        | inr (e', refused) ↦
            rw (step, (bind-err m f (drawn s) refused).1)
              (set_temporary_password-refused target hash t (drawn s) e' refused)
        | inl (n, set) ↦ absurd (
            ground (
              arith,
              step,
              bind-of_ok m f (drawn s) set,
              finish_force-ok target requested user (p.temporary_password s.draws) t n
                  (m (drawn s)).1,
            ))
      ]

  -- A forced reset that raised left the database as it was.
  pub force_reset_password_refused :
      (user_id : String) (send : Option Bool) (user : AuthenticatedUser) (s : World) (e : Failure)
      → (force_reset_password p user_id send user s).0 ≡ err e
      → (force_reset_password p user_id send user s).1.db ≡ s.db
  force_reset_password_refused user_id send user s e h =
      elim (force_reset_password-cases user_id send user s) [
        | inl (_, refused) ↦ ap (λ r. r.1.db) refused
        | inr (target, _, _, same) ↦
            ap (λ r. r.1.db) same
            ∙ force_target-refused target (or_default send true) user s e (rw same at h)
      ]
