-- ===== src/Provisioning/Intake/Naming.antt =====
-- createOnboardingAttempt under one idempotency key, with requests of others in between.
use flexi.Prelude.{
  ℕ, String, ◌==◌, ==_refl, ◌&&◌, ◌⊎◌, inl, inr, Option-cases, Bool-cases, same, eq_iff, ◌≡◌, refl,
  ap, ◌∙◌, Bool, true, Option, none, some, List, [], ◌∷◌, arith,
}
use flexi.Exec.{Result, ok, err, forbidden, idempotency_conflict, provisioning_enqueue_failed}
use flexi.Store.Rows.{find_first}
use flexi.Onboarding.{PayloadJson, SafePayload}
use flexi.Store.{World}
use flexi.Store.Platform.{Platform}
use flexi.Provisioning.Intake.{
  CreateRequest, ActorIdentity, RequestContext, AttemptAnswer, safe_payloads_match,
  resolve_existing_attempt, create_with_key, create_onboarding_attempt,
}
use flexi.Provisioning.Intake.Keys.{KeepsAttempts, Keeps-preorder, Keeps-create_attempt}
use flexi.Provisioning.Intake.Answers.{
  Names-later, Names, create_with_key-Names, create_with_key-forbidden, create_with_key-resolve,
  resolve-answer, resolve-conflict,
}

-- The stored payload has the fields of a request's, each as a text.
pub record Carries (stored : Option PayloadJson) (payload : SafePayload) : Type 0 where
  pub json : PayloadJson
  pub stored_json : stored ≡ some json
  pub tenant_name : json.tenant_name ≡ some payload.tenant_name
  pub tenant_slug : json.tenant_slug ≡ some payload.tenant_slug
  pub first_admin_email : json.first_admin_email ≡ some payload.first_admin_email
  pub plan : json.plan ≡ some payload.plan

same-some : (o : Option String) (t : String) → same o t ≡ true → o ≡ some t
same-some none t h = absurd (ground arith)
same-some (some u) t h = ap some ((eq_iff u t).0 h)

match-Carries :
    (stored : Option PayloadJson) (payload : SafePayload)
    → safe_payloads_match stored payload ≡ true
    → Carries stored payload
match-Carries none payload h = absurd (ground arith)
match-Carries (some json) payload h = record {
  json = json;
  stored_json = refl;
  tenant_name = same-some json.tenant_name payload.tenant_name (ground arith);
  tenant_slug = same-some json.tenant_slug payload.tenant_slug (ground arith);
  first_admin_email = same-some json.first_admin_email payload.first_admin_email (ground arith);
  plan = same-some json.plan payload.plan (ground arith);
}

some-same : (o : Option String) (t : String) → o ≡ some t → same o t ≡ true
some-same o t h = rw h (==_refl t)

Carries-match :
    (stored : Option PayloadJson) (payload : SafePayload)
    → Carries stored payload
    → safe_payloads_match stored payload ≡ true
Carries-match stored payload c =
    rw
      (
        c.stored_json,
        some-same c.json.tenant_name payload.tenant_name c.tenant_name,
        some-same c.json.tenant_slug payload.tenant_slug c.tenant_slug,
        some-same c.json.first_admin_email payload.first_admin_email c.first_admin_email,
        some-same c.json.plan payload.plan c.plan,
      )
      refl

-- Requests of others, each with what its readings see of rows that other transactions wrote.
pub record IntakeRequest : Type 0 where
  pub sees : ℕ → Bool
  pub request : CreateRequest
  pub actor : ActorIdentity
  pub context : RequestContext

module _ (p : Platform) (add_job : String → Bool) where
  abbrev pub run_intake : List IntakeRequest → World → World
  run_intake [] s = s
  run_intake (r ∷ rs) s =
      run_intake rs (create_onboarding_attempt p add_job r.sees r.request r.actor r.context s).1

  Keeps-run_intake : (rs : List IntakeRequest) (s : World) → KeepsAttempts s (run_intake rs s)
  Keeps-run_intake [] s = Keeps-preorder.reflexive s
  Keeps-run_intake (r ∷ rs) s =
      Keeps-preorder.transitive
        ((Keeps-create_attempt p add_job r.sees r.request r.actor r.context).at s)
        (Keeps-run_intake rs _)

  -- The answers to a request under a key that names an attempt, whose actor may have become inactive.
  abbrev pub Answers :
      Option PayloadJson
      → String
      → SafePayload
      → ActorIdentity
      → World
      → Result AttemptAnswer
      → Type 0
  Answers stored id payload actor s r =
      ((find_first (λ u. u.id == actor.system_user_id && u.is_active) s.system_users ≡ none)
        × (r ≡ err forbidden))
      ⊎ (((¬ Carries stored payload) × (r ≡ err idempotency_conflict))
          ⊎ (Carries stored payload
              × (((x' : AttemptAnswer) × (r ≡ ok x') × (x'.attempt.id ≡ id))
                  ⊎ (r ≡ err provisioning_enqueue_failed))))

  resolve-Answers :
      (payload : SafePayload) (key : String) (actor : ActorIdentity) (s s₁ : World)
      (x : AttemptAnswer) (d : Names key x s)
      → Answers x.attempt.safe_payload x.attempt.id payload actor s₁
          (resolve_existing_attempt p add_job payload d.attempt s).0
  resolve-Answers payload key actor s s₁ x d =
      let stored = x.attempt.safe_payload in
      let matched = ap (λ json. safe_payloads_match json payload) d.payload in
      elim (Bool-cases (safe_payloads_match stored payload)) [
        | inl h ↦ inr (
            inr (
              match-Carries stored payload h,
              elim (resolve-answer p add_job payload d.attempt s (matched ∙ h)) [
                | inl e ↦ inl (record { attempt = d.attempt; replayed = true }, e, d.id)
                | inr e ↦ inr e
              ],
            ))
        | inr h ↦ inr (
            inl (
              λ c. absurd (ground (arith, Carries-match stored payload c)),
              resolve-conflict p add_job payload d.attempt s (matched ∙ h),
            ))
      ]

  -- After a validated request under a key was answered, and whatever requests come between: a request
  -- under the same key is refused as forbidden where its actor is no active operator, as a conflict where
  -- a field of its payload differs from that of the attempt, and else is answered with that attempt,
  -- unless the job of the attempt cannot be queued.
  pub create_with_key-run-create_with_key :
      (sees sees' : ℕ → Bool) (payload payload' : SafePayload) (key : String)
      (actor actor' : ActorIdentity) (context context' : RequestContext) (rs : List IntakeRequest)
      (s : World) (x : AttemptAnswer)
      → (create_with_key p add_job sees payload key actor context s).0 ≡ ok x
      → let s' = run_intake rs (create_with_key p add_job sees payload key actor context s).1 in
        Answers x.attempt.safe_payload x.attempt.id payload' actor' s'
          (create_with_key p add_job sees' payload' key actor' context' s').0
  create_with_key-run-create_with_key sees sees' payload payload' key actor actor' context context'
        rs s x h =
      let s₁ = (create_with_key p add_job sees payload key actor context s).1 in
      let s₂ = run_intake rs s₁ in
      let named =
        Names-later key x s₁ s₂ (Keeps-run_intake rs s₁)
          (create_with_key-Names p add_job sees payload key actor context s x h) in
      elim (Option-cases
        (find_first (λ u. u.id == actor'.system_user_id && u.is_active) s₂.system_users)) [
          | inl missing ↦ inl (
            missing,
            create_with_key-forbidden p add_job sees' payload' key actor' context' s₂ missing,
          )
          | inr (u, active) ↦
              rw
                (create_with_key-resolve p add_job sees' payload' key actor' context' s₂ u
                  named.attempt active named.found)
                (resolve-Answers payload' key actor' s₂ s₂ x named)
        ]
