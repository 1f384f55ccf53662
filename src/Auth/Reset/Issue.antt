-- ===== src/Auth/Reset/Issue.antt =====
-- What a request for a reset code does.
use flexi.Prelude.{
  ℕ, suc, ◌+◌, ◌*◌, ◌≤◌, ◌^◌, String, ◌==◌, ==_refl, ◌≡◌, refl, true, false, Option, none, some, [],
  ◌∷◌, ◌++◌, arith, Option-cases, ◌⊎◌, inl, inr,
}
use flexi.Exec.{ok, ◌>>=◌}
use flexi.Store.{PasswordResetOtp, World}
use flexi.Store.Rows.{count, find_latest, update_many}
use flexi.Store.Rows.Laws.{count-update_many_zero, count-append}
use flexi.Store.Platform.{Platform}
use flexi.Store.Tables.{
  now, draw, transaction, update_password_reset_otps, create_password_reset_otp, record_audit,
}
use flexi.Auth.Email.{normalize_email}
use flexi.Auth.Reset.{
  ResetActor, PendingDelivery, is_live_otp_of, consume_at, resolve_actor, padded, otp_length,
  otp_ttl_seconds, otp_cooldown_seconds, is_within_cooldown, audit_request, issue_otp, throttle,
  request_of, request_reset,
}

module _ (p : Platform) where
  abbrev pub latest_code : String → World → Option PasswordResetOtp
  latest_code account s =
      find_latest (λ o. o.created_at) (λ o. o.auth_account_id == account) s.password_reset_otps

  abbrev issued_code : World → String
  issued_code s = padded otp_length (p.random_int s.draws (10 ^ otp_length))

  abbrev issued_row : ResetActor → World → PasswordResetOtp
  issued_row actor s = record {
    id = p.cuid (suc (suc s.draws));
    auth_account_id = actor.auth_account_id;
    otp_hash = p.bcrypt_hash (suc s.draws) (issued_code s);
    expires_at = p.clock s.ticks + otp_ttl_seconds * 1000;
    consumed_at = none;
    attempt_count = 0;
    created_at = p.clock (suc s.ticks);
  }

  issue_otp-ok :
      (actor : ResetActor) (email : String) (s : World) (d : Option PendingDelivery)
      → (issue_otp p actor email s).0 ≡ ok d
      → ((issue_otp p actor email s).1.password_reset_otps
          ≡ update_many
              (is_live_otp_of actor.auth_account_id)
              (consume_at (p.clock s.ticks))
              s.password_reset_otps
            ++ issued_row actor s ∷ [])
        × (d ≡ some (record { actor = actor; email = email; otp = issued_code s }))
  unfolding issue_otp audit_request transaction ◌>>=◌ now draw update_password_reset_otps
      create_password_reset_otp record_audit
  issue_otp-ok actor email s d h = ground arith

  one_live_code :
      (actor : ResetActor) (t : ℕ) (s : World)
      → count (is_live_otp_of actor.auth_account_id) (
          update_many (is_live_otp_of actor.auth_account_id) (consume_at t) s.password_reset_otps
          ++ issued_row actor s ∷ [])
        ≡ 1
  unfolding count
  one_live_code actor t s =
      let live = is_live_otp_of actor.auth_account_id in
      let before = update_many live (consume_at t) s.password_reset_otps in
      ground (
        arith,
        ==_refl actor.auth_account_id,
        count-append live before (issued_row actor s ∷ []),
        count-update_many_zero live (consume_at t) s.password_reset_otps (λ o h. ground arith),
      )

  issue_otp-one :
      (actor : ResetActor) (email : String) (s : World) (d : Option PendingDelivery)
      → (issue_otp p actor email s).0 ≡ ok d
      → count
          (is_live_otp_of actor.auth_account_id)
          (issue_otp p actor email s).1.password_reset_otps
        ≡ 1
  issue_otp-one actor email s d h =
      rw (issue_otp-ok actor email s d h).0 (one_live_code actor (p.clock s.ticks) s)

  issue_otp-actor :
      (actor : ResetActor) (email : String) (s : World) (d : PendingDelivery)
      → (issue_otp p actor email s).0 ≡ ok (some d)
      → d.actor ≡ actor
  issue_otp-actor actor email s d h = ground (arith, issue_otp-ok actor email s (some d) h)

  -- The account has no code, or its latest is older than the cooldown.
  abbrev IsCool : String → World → Type 0
  IsCool account s =
      (latest_code account s ≡ none)
      ⊎ ((o : PasswordResetOtp) × (latest_code account s ≡ some o)
          × (o.created_at + otp_cooldown_seconds * 1000 ≤ p.clock s.ticks))

  -- What a request that is answered with a code to deliver shows and does: the address names an active
  -- actor whose latest code is older than the cooldown, and that actor's account has one live code.
  pub record Issued (email : String) (tenant_id : Option String) (s : World) (d : PendingDelivery)
      : Type 0 where
    pub resolved : resolve_actor (normalize_email p email) tenant_id s.db ≡ some d.actor
    pub active : d.actor.is_active ≡ true
    pub cool : IsCool d.actor.auth_account_id s
    pub one_live :
        count
          (is_live_otp_of d.actor.auth_account_id)
          (request_reset p email tenant_id s).1.password_reset_otps
        ≡ 1

  -- The cases of a request: the actor is missing or inactive, or throttled, or a code is issued.
  request_of-some :
      (actor : ResetActor) (email : String) (s : World) (d : PendingDelivery)
      → (request_of p (some actor) email s).0 ≡ ok (some d)
      → (actor.is_active ≡ true)
        × ((is_within_cooldown p actor.auth_account_id s).0 ≡ ok false)
        × ((issue_otp p actor email (record s { ticks = suc s.ticks })).0 ≡ ok (some d))
        × ((request_of p (some actor) email s).1
            ≡ (issue_otp p actor email (record s { ticks = suc s.ticks })).1)
  unfolding request_of is_within_cooldown ◌>>=◌ now throttle audit_request record_audit
  request_of-some actor email s d h = ground arith

  is_within_cooldown-false :
      (account : String) (s : World)
      → (is_within_cooldown p account s).0 ≡ ok false
      → IsCool account s
  unfolding is_within_cooldown ◌>>=◌ now
  is_within_cooldown-false account s h = elim (Option-cases (latest_code account s)) [
    | inl missing ↦ inl missing
    | inr (o, found) ↦ inr (o, found, ground arith)
  ]

  request_reset-none :
      (email : String) (tenant_id : Option String) (s : World)
      → resolve_actor (normalize_email p email) tenant_id s.db ≡ none
      → request_reset p email tenant_id s ≡ (ok none, s)
  unfolding request_reset request_of ◌>>=◌
  request_reset-none email tenant_id s h = rw h refl

  request_reset-some :
      (email : String) (tenant_id : Option String) (s : World) (actor : ResetActor)
      → resolve_actor (normalize_email p email) tenant_id s.db ≡ some actor
      → request_reset p email tenant_id s ≡ request_of p (some actor) (normalize_email p email) s
  unfolding request_reset ◌>>=◌
  request_reset-some email tenant_id s actor h = rw h refl

  Issued-of :
      (email : String) (tenant_id : Option String) (s : World) (d : PendingDelivery)
      (actor : ResetActor)
      → resolve_actor (normalize_email p email) tenant_id s.db ≡ some actor
      → (request_of p (some actor) (normalize_email p email) s).0 ≡ ok (some d)
      → Issued email tenant_id s d
  Issued-of email tenant_id s d actor e h =
      let (active, cool, issued, end) = request_of-some actor (normalize_email p email) s d h in
      let s' = record s { ticks = suc s.ticks } in
      let same = issue_otp-actor actor (normalize_email p email) s' d issued in
      record {
        resolved = rw same e;
        active = rw same active;
        cool = rw same (is_within_cooldown-false actor.auth_account_id s cool);
        one_live =
            rw (request_reset-some email tenant_id s actor e)
              (rw (same, end) (issue_otp-one actor (normalize_email p email) s' (some d) issued));
      }

  -- A request that is answered with a code to deliver named an active actor whose cooldown is over, and
  -- leaves that actor's account with exactly one live code: the earlier ones are consumed.
  pub request_reset-Issued :
      (email : String) (tenant_id : Option String) (s : World) (d : PendingDelivery)
      → (request_reset p email tenant_id s).0 ≡ ok (some d)
      → Issued email tenant_id s d
  request_reset-Issued email tenant_id s d h =
      elim (Option-cases (resolve_actor (normalize_email p email) tenant_id s.db)) [
        | inl missing ↦ absurd (ground (arith, request_reset-none email tenant_id s missing))
        | inr (actor, e) ↦
            Issued-of email tenant_id s d actor e
              (rw (request_reset-some email tenant_id s actor e) at h)
      ]

  request_of-none :
      (actor : ResetActor) (email : String) (s : World)
      → (request_of p (some actor) email s).0 ≡ ok none
      → (request_of p (some actor) email s).1.password_reset_otps ≡ s.password_reset_otps
  unfolding request_of is_within_cooldown ◌>>=◌ now throttle audit_request record_audit
  request_of-none actor email s h =
      ground (arith, issue_otp-ok actor email (record s { ticks = suc s.ticks }) none)

  -- A request that is answered without a code to deliver leaves every code as it was.
  pub request_reset-unchanged :
      (email : String) (tenant_id : Option String) (s : World)
      → (request_reset p email tenant_id s).0 ≡ ok none
      → (request_reset p email tenant_id s).1.password_reset_otps ≡ s.password_reset_otps
  request_reset-unchanged email tenant_id s h =
      elim (Option-cases (resolve_actor (normalize_email p email) tenant_id s.db)) [
        | inl missing ↦ rw (request_reset-none email tenant_id s missing) refl
        | inr (actor, e) ↦
            let same = request_reset-some email tenant_id s actor e in
            rw same (request_of-none actor (normalize_email p email) s (rw same at h))
      ]
