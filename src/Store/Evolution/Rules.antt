-- ===== src/Store/Evolution/Rules.antt =====
-- The rules for what no request undoes, one for each way to build an action and each call on a table.
use flexi.Prelude.{
  String, ◌==◌, ◌≡◌, refl, Bool, true, [], ◌∷◌, ◌++◌, ◌||◌, All-append, if◌then◌else◌, arith,
}
use flexi.Exec.{Failure, Result, ok, err, pure, raise, gets, refuse_if, ◌>>=◌}
use flexi.Exec.Evolves.{
  Evolves, Evolves-pure, Evolves-raise, Evolves-gets, Evolves-refuse_if, Evolves-if, Evolves-bind,
}
use flexi.Store.{
  AuthAccount, TenantUser, SystemUser, RefreshToken, PasswordResetOtp, ImpersonationSession, Cls,
  World, Mail,
}
use flexi.Store.Rows.{count}
use flexi.Store.Rows.Laws.{All-update_many}
use flexi.Store.Rows.Grows.{Grows-refl, Grows-append, Grows-update_many}
use flexi.Store.Rows.Unique.{IsUnique-update_many, IsUnique-append, Lacks-of_count}
use flexi.Store.Platform.{Platform}
use flexi.Store.Tables.{
  Action, settle, transaction, update_refresh_tokens, update_password_reset_otps,
  update_auth_account, update_tenant_user, update_system_user, create_refresh_token,
  create_password_reset_otp, AuthAuditEntry, audit_row, record_audit, now, draw, send_mail, set_cls,
  update_impersonation_sessions, create_impersonation_session,
}
use flexi.Store.Evolution.{
  TokenLater, OtpLater, TokenLater-preorder, OtpLater-preorder, SameRow-preorder, IsWithinBudget,
  Later, Later-preorder, Later-of_same,
}

-- The rules, one for each way to build an action.
pub Later-pure : {A : Type 0} (a : A) → Evolves Later (pure {S = World} a)
Later-pure a = Evolves-pure Later-preorder a

pub Later-raise : {A : Type 0} (e : Failure) → Evolves Later (raise {S = World} {A = A} e)
Later-raise e = Evolves-raise Later-preorder e

pub Later-gets : {A : Type 0} (f : World → A) → Evolves Later (gets f)
Later-gets f = Evolves-gets Later-preorder f

pub Later-refuse_if : (b : Bool) (e : Failure) → Evolves Later (refuse_if {S = World} b e)
Later-refuse_if b e = Evolves-refuse_if Later-preorder b e

pub Later-if :
    {A : Type 0} (b : Bool) (m n : Action A)
    → Evolves Later m
    → Evolves Later n
    → Evolves Later (if b then m else n)
Later-if b m n h k = Evolves-if b m n h k

pub Later-bind :
    {A B : Type 0} (m : Action A) (f : A → Action B)
    → Evolves Later m
    → ((a : A) → Evolves Later (f a))
    → Evolves Later (m >>= f)
Later-bind m f h k = Evolves-bind Later-preorder m f h k

pub Later-now : (p : Platform) → Evolves Later (now p)
unfolding now
Later-now p = record { at = λ s. Later-of_same refl refl refl (omega arith) (omega arith) }

pub Later-draw : (p : Platform) → Evolves Later (draw p)
unfolding draw
Later-draw p = record { at = λ s. Later-of_same refl refl refl (omega arith) (omega arith) }

pub Later-send_mail : (p : Platform) (m : Mail) → Evolves Later (send_mail p m)
unfolding send_mail
Later-send_mail p m = record { at = λ s. Later-of_same refl refl refl (omega arith) (omega arith) }

-- What a transaction that raised leaves of the database is what was there before.
Later-settle : {A : Type 0} (s s' : World) (r : Result A) → Later s s' → Later s (settle s r s').1
Later-settle s s' (ok a) h = h
Later-settle s s' (err e) h = Later-of_same refl refl refl h.ticks h.draws

pub Later-transaction :
    {A : Type 0} (m : Action A) → Evolves Later m → Evolves Later (transaction m)
unfolding transaction
Later-transaction m h = record { at = λ s. let (r, s') = m s in Later-settle s s' r (h.at s) }

module _ (f : RefreshToken → RefreshToken) (later : (r : RefreshToken) → TokenLater r (f r)) where
  pub Later-update_refresh_tokens :
      (q : RefreshToken → Bool) → Evolves Later (update_refresh_tokens q f)
  unfolding update_refresh_tokens
  Later-update_refresh_tokens q = record {
    at = λ s. record {
      tokens = Grows-update_many TokenLater-preorder q f s.refresh_tokens (λ r _. later r);
      otps = Grows-refl OtpLater-preorder s.password_reset_otps;
      audits = Grows-refl SameRow-preorder s.auth_audit_logs;
      ticks = omega arith;
      draws = omega arith;
      keys = λ u. record {
        token_ids =
            IsUnique-update_many (λ r. r.id) q f s.refresh_tokens (λ r. (later r).id) u.token_ids;
        token_hashes =
            IsUnique-update_many (λ r. r.token_hash) q f s.refresh_tokens (λ r. (later r).hash)
              u.token_hashes;
        otp_ids = u.otp_ids;
      };
      budget = λ b. b;
    };
  }

module _ (q : PasswordResetOtp → Bool) (f : PasswordResetOtp → PasswordResetOtp)
    (later : (o : PasswordResetOtp) → q o ≡ true → OtpLater o (f o))
    (same_id : (o : PasswordResetOtp) → (f o).id ≡ o.id)
    (within : (o : PasswordResetOtp) → q o ≡ true → IsWithinBudget o → IsWithinBudget (f o)) where
  pub Later-update_password_reset_otps : Evolves Later (update_password_reset_otps q f)
  unfolding update_password_reset_otps
  Later-update_password_reset_otps = record {
    at = λ s. record {
      tokens = Grows-refl TokenLater-preorder s.refresh_tokens;
      otps = Grows-update_many OtpLater-preorder q f s.password_reset_otps later;
      audits = Grows-refl SameRow-preorder s.auth_audit_logs;
      ticks = omega arith;
      draws = omega arith;
      keys = λ u. record {
        token_ids = u.token_ids;
        token_hashes = u.token_hashes;
        otp_ids = IsUnique-update_many (λ o. o.id) q f s.password_reset_otps same_id u.otp_ids;
      };
      budget = λ b. All-update_many IsWithinBudget q f s.password_reset_otps within b;
    };
  }

pub Later-update_auth_account :
    (id : String) (f : AuthAccount → AuthAccount) → Evolves Later (update_auth_account id f)
unfolding update_auth_account
Later-update_auth_account id f = record { at = λ s. ground (arith, Later-preorder.reflexive s) }

pub Later-update_tenant_user :
    (id : String) (f : TenantUser → TenantUser) → Evolves Later (update_tenant_user id f)
unfolding update_tenant_user
Later-update_tenant_user id f = record { at = λ s. ground (arith, Later-preorder.reflexive s) }

pub Later-update_system_user :
    (id : String) (f : SystemUser → SystemUser) → Evolves Later (update_system_user id f)
unfolding update_system_user
Later-update_system_user id f = record { at = λ s. ground (arith, Later-preorder.reflexive s) }

pub Later-update_impersonation_sessions :
    (q : ImpersonationSession → Bool) (f : ImpersonationSession → ImpersonationSession)
    → Evolves Later (update_impersonation_sessions q f)
unfolding update_impersonation_sessions
Later-update_impersonation_sessions q f = record {
  at = λ s. ground (arith, Later-preorder.reflexive s);
}

pub Later-create_impersonation_session :
    (row : ImpersonationSession) → Evolves Later (create_impersonation_session row)
unfolding create_impersonation_session
Later-create_impersonation_session row = record {
  at = λ s. ground (arith, Later-preorder.reflexive s);
}

pub Later-set_cls : (f : Cls → Cls) → Evolves Later (set_cls f)
unfolding set_cls
Later-set_cls f = record { at = λ s. Later-of_same refl refl refl (omega arith) (omega arith) }

-- A new row with a fresh key.
token_added :
    (s : World) (row : RefreshToken)
    → count (λ r. r.id == row.id || r.token_hash == row.token_hash) s.refresh_tokens ≡ 0
    → Later s (record s { db = record s.db { refresh_tokens = s.refresh_tokens ++ row ∷ [] } })
token_added s row fresh = record {
  tokens = Grows-append TokenLater-preorder s.refresh_tokens (row ∷ []);
  otps = Grows-refl OtpLater-preorder s.password_reset_otps;
  audits = Grows-refl SameRow-preorder s.auth_audit_logs;
  ticks = omega arith;
  draws = omega arith;
  keys = λ u. record {
    token_ids =
        IsUnique-append (λ r. r.id) s.refresh_tokens row u.token_ids
          (Lacks-of_count (λ r. r.id) row.id _ s.refresh_tokens (λ x h. ground arith) fresh);
    token_hashes =
        IsUnique-append (λ r. r.token_hash) s.refresh_tokens row u.token_hashes
          (Lacks-of_count (λ r. r.token_hash) row.token_hash _ s.refresh_tokens
            (λ x h. ground arith) fresh);
    otp_ids = u.otp_ids;
  };
  budget = λ b. b;
}

otp_added :
    (s : World) (row : PasswordResetOtp)
    → row.attempt_count ≡ 0
    → count (λ r. r.id == row.id) s.password_reset_otps ≡ 0
    → Later s
        (record s { db = record s.db { password_reset_otps = s.password_reset_otps ++ row ∷ [] } })
otp_added s row untried fresh = record {
  tokens = Grows-refl TokenLater-preorder s.refresh_tokens;
  otps = Grows-append OtpLater-preorder s.password_reset_otps (row ∷ []);
  audits = Grows-refl SameRow-preorder s.auth_audit_logs;
  ticks = omega arith;
  draws = omega arith;
  keys = λ u. record {
    token_ids = u.token_ids;
    token_hashes = u.token_hashes;
    otp_ids =
        IsUnique-append (λ o. o.id) s.password_reset_otps row u.otp_ids
          (Lacks-of_count (λ o. o.id) row.id _ s.password_reset_otps (λ x h. h) fresh);
  };
  budget = λ b.
      All-append IsWithinBudget s.password_reset_otps (row ∷ []) b (ground (arith, untried), tt);
}

pub Later-create_refresh_token : (row : RefreshToken) → Evolves Later (create_refresh_token row)
unfolding create_refresh_token
Later-create_refresh_token row = record {
  at = λ s. ground (arith, Later-preorder.reflexive s, token_added s row);
}

pub Later-create_password_reset_otp :
    (row : PasswordResetOtp) → row.attempt_count ≡ 0 → Evolves Later (create_password_reset_otp row)
unfolding create_password_reset_otp
Later-create_password_reset_otp row untried = record {
  at = λ s. ground (arith, Later-preorder.reflexive s, otp_added s row untried);
}

pub Later-record_audit : (p : Platform) (e : AuthAuditEntry) → Evolves Later (record_audit p e)
unfolding record_audit
Later-record_audit p e = record {
  at = λ s. ground (
    arith,
    Later-preorder.reflexive s,
    Grows-append SameRow-preorder s.auth_audit_logs (audit_row e s ∷ []),
  );
}

pub ruleset later_rules = (
  Later-pure, Later-raise, Later-gets, Later-refuse_if, Later-if, Later-bind, Later-now, Later-draw,
  Later-send_mail, Later-transaction, Later-update_auth_account, Later-update_tenant_user,
  Later-update_system_user, Later-create_refresh_token, Later-create_password_reset_otp,
  Later-record_audit, Later-update_impersonation_sessions, Later-create_impersonation_session,
  Later-set_cls,
)
