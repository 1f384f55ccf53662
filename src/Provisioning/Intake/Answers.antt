-- ===== src/Provisioning/Intake/Answers.antt =====
-- What an answered request of createOnboardingAttempt leaves under its idempotency key.
use flexi.Prelude.{
  ℕ, suc, String, ◌==◌, ==_refl, ◌≡◌, ◌≢◌, refl, sym, ap, ◌∙◌, Bool, true, false, ◌&&◌, ◌||◌, ◌⊎◌,
  inl, inr, Option, none, some, List, [], ◌∷◌, ◌++◌, arith,
}
use flexi.Exec.{
  Failure, Result, ok, err, pure, catch_err, forbidden, idempotency_conflict,
  provisioning_enqueue_failed, ◌>>=◌,
}
use flexi.Exec.Outcome.{bind-ok, Result-cases}
use flexi.Provisioning.{enqueue_accepted_attempt}
use flexi.Onboarding.{TenantOnboardingAttempt, SafePayload}
use flexi.Store.{World, SystemUser}
use flexi.Store.Rows.{find_first, count}
use flexi.Store.Rows.Grows.{Grows-find_first}
use flexi.Store.Platform.{Platform}
use flexi.Store.Tables.{Action, now, draw}
use flexi.Store.Setup.{create_onboarding_attempt_row, update_onboarding_attempts}
use flexi.Provisioning.Intake.{
  ActorIdentity, RequestContext, AttemptAnswer, is_conflict, find_by_key, safe_payloads_match,
  or_search, resolve_existing_attempt, enqueue_if_accepted, find_winning_attempt, answer_winner,
  visibility_retry_delays_ms, insert_attempt, after_conflict, enqueue_new, reserve, reserve_unless,
  create_with_key,
}
use flexi.Provisioning.Intake.Keys.{KeepsAttempts, Keeps-resolve, Keeps-enqueue_new}

-- The key names the attempt of the answer.
pub record Names (key : String) (x : AttemptAnswer) (s : World) : Type 0 where
  pub attempt : TenantOnboardingAttempt
  pub found : find_by_key key s ≡ some attempt
  pub id : attempt.id ≡ x.attempt.id
  pub payload : attempt.safe_payload ≡ x.attempt.safe_payload

pub Names-later :
    (key : String) (x : AttemptAnswer) (s s' : World)
    → KeepsAttempts s s'
    → Names key x s
    → Names key x s'
Names-later key x s s' kept n =
    let (b, there, later) =
      Grows-find_first (λ a. a.idempotency_key == key) s.onboarding_attempts s'.onboarding_attempts
        n.attempt (λ a b r. ap (λ k. k == key) r.key) kept.attempts n.found in
    record { attempt = b; found = there; id = later.id ∙ n.id; payload = later.payload ∙ n.payload }

-- a fresh key finds the row that was added
find_by_key-added :
    (row : TenantOnboardingAttempt) (rows : List TenantOnboardingAttempt)
    → count (λ a. a.id == row.id || a.idempotency_key == row.idempotency_key) rows ≡ 0
    → find_first (λ a. a.idempotency_key == row.idempotency_key) (rows ++ row ∷ []) ≡ some row
unfolding count find_first
find_by_key-added row [] h = ground (arith, ==_refl row.idempotency_key)
find_by_key-added row (a ∷ rows) h = ground (arith, find_by_key-added row rows)

create_row-found :
    (conflict : Failure) (row a : TenantOnboardingAttempt) (s : World)
    → (create_onboarding_attempt_row conflict row s).0 ≡ ok a
    → find_by_key row.idempotency_key (create_onboarding_attempt_row conflict row s).1 ≡ some a
unfolding create_onboarding_attempt_row
create_row-found conflict row a s h = ground (arith, find_by_key-added row s.onboarding_attempts)

module _ (p : Platform) (add_job : String → Bool) where
  resolve-ok :
      (payload : SafePayload) (a : TenantOnboardingAttempt) (s : World) (x : AttemptAnswer)
      → (resolve_existing_attempt p add_job payload a s).0 ≡ ok x
      → (x.attempt ≡ a) × (safe_payloads_match a.safe_payload payload ≡ true)
  unfolding resolve_existing_attempt ◌>>=◌
  resolve-ok payload a s x h = ground arith

  enqueue-answer :
      (a : TenantOnboardingAttempt) (s : World)
      → ((enqueue_if_accepted p add_job a s).0 ≡ ok tt)
        ⊎ ((enqueue_if_accepted p add_job a s).0 ≡ err provisioning_enqueue_failed)
  unfolding enqueue_if_accepted enqueue_accepted_attempt update_onboarding_attempts ◌>>=◌
  enqueue-answer a s = elim (Result-cases (enqueue_if_accepted p add_job a s).0) [
    | inl (_, e) ↦ inl e
    | inr (f, e) ↦ inr (ground arith)
  ]

  pub resolve-conflict :
      (payload : SafePayload) (a : TenantOnboardingAttempt) (s : World)
      → safe_payloads_match a.safe_payload payload ≡ false
      → (resolve_existing_attempt p add_job payload a s).0 ≡ err idempotency_conflict
  unfolding resolve_existing_attempt ◌>>=◌
  resolve-conflict payload a s h = ground arith

  pub resolve-answer :
      (payload : SafePayload) (a : TenantOnboardingAttempt) (s : World)
      → safe_payloads_match a.safe_payload payload ≡ true
      → ((resolve_existing_attempt p add_job payload a s).0
          ≡ ok (record { attempt = a; replayed = true }))
        ⊎ ((resolve_existing_attempt p add_job payload a s).0 ≡ err provisioning_enqueue_failed)
  unfolding resolve_existing_attempt ◌>>=◌
  resolve-answer payload a s h = elim (enqueue-answer a s) [
    | inl e ↦ inl (ground (arith, e))
    | inr e ↦ inr (ground (arith, e))
  ]

  resolve-Names :
      (key : String) (payload : SafePayload) (a : TenantOnboardingAttempt) (s : World)
      (x : AttemptAnswer)
      → find_by_key key s ≡ some a
      → (resolve_existing_attempt p add_job payload a s).0 ≡ ok x
      → Names key x (resolve_existing_attempt p add_job payload a s).1
  resolve-Names key payload a s x found h =
      let (same, _) = resolve-ok payload a s x h in
      Names-later key x s (resolve_existing_attempt p add_job payload a s).1
        ((Keeps-resolve p add_job payload a).at s)
        (record {
          attempt = a;
          found = found;
          id = ap (λ b. b.id) (sym same);
          payload = ap (λ b. b.safe_payload) (sym same);
        })

  module _ (sees : ℕ → Bool) where
    find_winning-found :
        (delays : List ℕ) (key : String) (s : World) (a : TenantOnboardingAttempt)
        → (find_winning_attempt p add_job sees delays key s).0 ≡ ok (some a)
        → find_by_key key (find_winning_attempt p add_job sees delays key s).1 ≡ some a
    unfolding find_winning_attempt ◌>>=◌ now or_search
    find_winning-found [] key s a h = absurd (ground arith)
    find_winning-found (d ∷ delays) key s a h =
        let s₁ = record s { ticks = suc s.ticks } in
        ground (arith, find_winning-found delays key s₁ a)

    insert-ok :
        (payload : SafePayload) (key : String) (actor : ActorIdentity) (context : RequestContext)
        (s : World) (a : TenantOnboardingAttempt)
        → (insert_attempt p add_job sees payload key actor context s).0 ≡ ok a
        → find_by_key key (insert_attempt p add_job sees payload key actor context s).1 ≡ some a
    unfolding insert_attempt ◌>>=◌ now draw
    insert-ok payload key actor context s a h = create_row-found _ _ a _ h

    after_conflict-true :
        (payload : SafePayload) (key : String) (e : Failure)
        → is_conflict e ≡ true
        → after_conflict p add_job sees payload key e ≡ (
            find_winning_attempt p add_job sees visibility_retry_delays_ms key
            >>= answer_winner p add_job sees payload)
    unfolding after_conflict
    after_conflict-true payload key e h = rw h refl

    after_conflict-false :
        (payload : SafePayload) (key : String) (e : Failure) (s : World) (x : AttemptAnswer)
        → is_conflict e ≡ false
        → (after_conflict p add_job sees payload key e s).0 ≢ ok x
    unfolding after_conflict ◌>>=◌
    after_conflict-false payload key e s x h returned = ground arith

    answer_winner-Names :
        (payload : SafePayload) (key : String) (o : Option TenantOnboardingAttempt) (s : World)
        (x : AttemptAnswer)
        → ((a : TenantOnboardingAttempt) → o ≡ some a → find_by_key key s ≡ some a)
        → (answer_winner p add_job sees payload o s).0 ≡ ok x
        → Names key x (answer_winner p add_job sees payload o s).1
    unfolding answer_winner ◌>>=◌
    answer_winner-Names payload key none s x seen h = absurd (ground arith)
    answer_winner-Names payload key (some a) s x seen h =
        resolve-Names key payload a s x (seen a refl) h

    find_answer-Names :
        (payload : SafePayload) (key : String) (s : World) (x : AttemptAnswer)
        → ((find_winning_attempt p add_job sees visibility_retry_delays_ms key
              >>= answer_winner p add_job sees payload)
            s).0
          ≡ ok x
        → Names key x
            ((find_winning_attempt p add_job sees visibility_retry_delays_ms key
                >>= answer_winner p add_job sees payload)
              s).1
    find_answer-Names payload key s x h =
        let find = find_winning_attempt p add_job sees visibility_retry_delays_ms key in
        let (o, seen, answered, end) = bind-ok find (answer_winner p add_job sees payload) s h in
        rw end (
          answer_winner-Names payload key o (find s).1 x
            (λ a e. find_winning-found visibility_retry_delays_ms key s a (seen ∙ ap ok e))
            answered)

    after_conflict-Names :
        (payload : SafePayload) (key : String) (e : Failure) (s : World) (x : AttemptAnswer)
        → (after_conflict p add_job sees payload key e s).0 ≡ ok x
        → Names key x (after_conflict p add_job sees payload key e s).1
    after_conflict-Names payload key e s x h = from (is_conflict e) refl
      where
        from :
            (b : Bool)
            → is_conflict e ≡ b
            → Names key x (after_conflict p add_job sees payload key e s).1
        from true is_one =
            let whole = after_conflict-true payload key e is_one in
            rw whole (find_answer-Names payload key s x (rw whole at h))
        from false other = absurd (after_conflict-false payload key e s x other h)

    try_insert-Names :
        (payload : SafePayload) (key : String) (actor : ActorIdentity) (context : RequestContext)
        (s : World) (x : AttemptAnswer)
        → (catch_err
            (insert_attempt p add_job sees payload key actor context >>= λ a.
              pure (record { attempt = a; replayed = false }))
            (after_conflict p add_job sees payload key)
            s).0
          ≡ ok x
        → Names key x
            (catch_err
              (insert_attempt p add_job sees payload key actor context >>= λ a.
                pure (record { attempt = a; replayed = false }))
              (after_conflict p add_job sees payload key)
              s).1
    unfolding catch_err ◌>>=◌
    try_insert-Names payload key actor context s x h = from (insert s).0 refl
      where
        insert : Action TenantOnboardingAttempt
        insert = insert_attempt p add_job sees payload key actor context

        tried : World → Result AttemptAnswer × World
        tried w =
            catch_err (insert >>= λ a. pure (record { attempt = a; replayed = false }))
              (after_conflict p add_job sees payload key) w

        from : (r : Result TenantOnboardingAttempt) → (insert s).0 ≡ r → Names key x (tried s).1
        from (ok a) e =
            let new : AttemptAnswer = record { attempt = a; replayed = false } in
            let whole : tried s ≡ (ok new, (insert s).1) = rw e refl in
            let same : new ≡ x = ground (arith, whole, h) in
            rw whole (record {
              attempt = a;
              found = insert-ok payload key actor context s a e;
              id = ap (λ y. y.attempt.id) same;
              payload = ap (λ y. y.attempt.safe_payload) same;
            })
        from (err f) e =
            let whole : tried s ≡ after_conflict p add_job sees payload key f (insert s).1 =
              rw e refl in
            rw whole
              (after_conflict-Names payload key f (insert s).1 x (ap (λ y. y.0) (sym whole) ∙ h))

    enqueue_new-same :
        (y x : AttemptAnswer) (s : World) → (enqueue_new p add_job sees y s).0 ≡ ok x → x ≡ y
    unfolding enqueue_new ◌>>=◌
    enqueue_new-same y x s h = ground arith

    reserve-Names :
        (payload : SafePayload) (key : String) (actor : ActorIdentity) (context : RequestContext)
        (s : World) (x : AttemptAnswer)
        → (reserve p add_job sees payload key actor context s).0 ≡ ok x
        → Names key x (reserve p add_job sees payload key actor context s).1
    unfolding reserve
    reserve-Names payload key actor context s x h =
        let try_insert =
          catch_err
            (insert_attempt p add_job sees payload key actor context >>= λ a.
              pure (record { attempt = a; replayed = false }))
            (after_conflict p add_job sees payload key) in
        let (y, tried, h₁, end) = bind-ok try_insert (enqueue_new p add_job sees) s h in
        let s₁ = (try_insert s).1 in
        let same = enqueue_new-same y x s₁ h₁ in
        let named = try_insert-Names payload key actor context s x (tried ∙ ap ok (sym same)) in
        rw end (
          Names-later key x s₁ (enqueue_new p add_job sees y s₁).1
            ((Keeps-enqueue_new p add_job sees y).at s₁) named)

    reserve_existing :
        (payload : SafePayload) (key : String) (actor : ActorIdentity) (context : RequestContext)
        (a : TenantOnboardingAttempt)
        → reserve_unless p add_job sees payload key actor context (some a)
          ≡ resolve_existing_attempt p add_job payload a
    unfolding reserve_unless
    reserve_existing payload key actor context a = refl

    reserve_when_free :
        (payload : SafePayload) (key : String) (actor : ActorIdentity) (context : RequestContext)
        (s : World) (x : AttemptAnswer)
        → (reserve_unless p add_job sees payload key actor context none s).0 ≡ ok x
        → reserve_unless p add_job sees payload key actor context none s
          ≡ reserve p add_job sees payload key actor context s
    unfolding reserve_unless ◌>>=◌
    reserve_when_free payload key actor context s x h = ground arith

    reserve_unless-Names :
        (payload : SafePayload) (key : String) (actor : ActorIdentity) (context : RequestContext)
        (o : Option TenantOnboardingAttempt) (s : World) (x : AttemptAnswer)
        → find_by_key key s ≡ o
        → (reserve_unless p add_job sees payload key actor context o s).0 ≡ ok x
        → Names key x (reserve_unless p add_job sees payload key actor context o s).1
    reserve_unless-Names payload key actor context (some a) s x found h =
        rw (reserve_existing payload key actor context a) (
          resolve-Names key payload a s x found
            (rw (reserve_existing payload key actor context a) at h))
    reserve_unless-Names payload key actor context none s x found h =
        let whole = reserve_when_free payload key actor context s x h in
        rw whole (reserve-Names payload key actor context s x (rw whole at h))

    with_key-reserve :
        (payload : SafePayload) (key : String) (actor : ActorIdentity) (context : RequestContext)
        (s : World) (x : AttemptAnswer)
        → (create_with_key p add_job sees payload key actor context s).0 ≡ ok x
        → create_with_key p add_job sees payload key actor context s
          ≡ reserve_unless p add_job sees payload key actor context (find_by_key key s) s
    unfolding create_with_key ◌>>=◌
    with_key-reserve payload key actor context s x h = ground arith

    pub create_with_key-Names :
        (payload : SafePayload) (key : String) (actor : ActorIdentity) (context : RequestContext)
        (s : World) (x : AttemptAnswer)
        → (create_with_key p add_job sees payload key actor context s).0 ≡ ok x
        → Names key x (create_with_key p add_job sees payload key actor context s).1
    create_with_key-Names payload key actor context s x h =
        let whole = with_key-reserve payload key actor context s x h in
        rw whole (
          reserve_unless-Names payload key actor context (find_by_key key s) s x refl
            (rw whole at h))

    pub create_with_key-forbidden :
        (payload : SafePayload) (key : String) (actor : ActorIdentity) (context : RequestContext)
        (s : World)
        → find_first (λ u. u.id == actor.system_user_id && u.is_active) s.system_users ≡ none
        → (create_with_key p add_job sees payload key actor context s).0 ≡ err forbidden
    unfolding create_with_key ◌>>=◌
    create_with_key-forbidden payload key actor context s h = ground arith

    -- a request of an active actor that finds the key is answered from its attempt
    pub create_with_key-resolve :
        (payload : SafePayload) (key : String) (actor : ActorIdentity) (context : RequestContext)
        (s : World) (u : SystemUser) (a : TenantOnboardingAttempt)
        → find_first (λ v. v.id == actor.system_user_id && v.is_active) s.system_users ≡ some u
        → find_by_key key s ≡ some a
        → create_with_key p add_job sees payload key actor context s
          ≡ resolve_existing_attempt p add_job payload a s
    unfolding create_with_key reserve_unless ◌>>=◌
    create_with_key-resolve payload key actor context s u a active found =
        ground (arith, active, found)
