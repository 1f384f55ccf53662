-- ===== src/Provisioning/Compensation/Outcome.antt =====
-- What runCompensation of modules/tenants/provisioning.service.ts does, reports and raises.
use flexi.Prelude.{
  String, ◌≡◌, refl, ap, ◌∙◌, Bool, true, false, Option, none, some, List, [], ◌∷◌, map, ◌⊎◌, inl,
  inr, arith,
}
use Prim.Native.String.{◌++◌ as append}
use flexi.Exec.{Failure, Result, ok, err, pure, catch_err, ◌>>=◌}
use flexi.Exec.Outcome.{Result-cases}
use flexi.Onboarding.{
  StepName, StepOutcome, CompensationAction, CompensationStatus, CompensationOutcome,
}
use flexi.Store.{World}
use flexi.Store.Tables.{Action}
use flexi.Tenancy.{resolve_tenant_schema}
use flexi.Provisioning.Steps.{Collaborators, schema_context, run_with}
use flexi.Provisioning.Compensation.{
  has_succeeded, failure_detail, describe_first_admin_ids, no_ids, run_compensation_sub_step,
  skipped_drop, compensate_schema, run_compensation,
}

abbrev pub verdict : {A : Type 0} → Result A → CompensationStatus
verdict (ok a) = CompensationStatus.succeeded
verdict (err e) = CompensationStatus.failed

abbrev pub detail_of : {A : Type 0} → CompensationAction → String → Result A → Option String
detail_of action ids (ok a) = none
detail_of action ids (err e) = some (failure_detail action ids)

abbrev pub report :
    {A : Type 0} → StepName → CompensationAction → String → Result A → CompensationOutcome
report step action ids r = record {
  step = step;
  action = action;
  status = verdict r;
  detail = detail_of action ids r;
}

sub_step-report :
    {A : Type 0} (step : StepName) (action : CompensationAction) (run : Action A) (ids : String)
    (s : World)
    → run_compensation_sub_step step action run ids s
      ≡ (ok (report step action ids (run s).0), (run s).1)
unfolding run_compensation_sub_step catch_err ◌>>=◌
sub_step-report {A = A} step action run ids s = from (run s).0 refl
  where
    from :
        (r : Result A)
        → (run s).0 ≡ r
        → run_compensation_sub_step step action run ids s
          ≡ (ok (report step action ids (run s).0), (run s).1)
    from (ok a) e = rw e refl
    from (err f) e = rw e refl

abbrev pub named : Result String → Result (Option String)
named (ok schema) = ok (some schema)
named (err e) = err e

-- what a name that was given stands for
abbrev Names : Result String → Option String → Type 0
Names r none = ⊥
Names r (some schema) = r ≡ ok schema

named-some : (r : Result String) (dropped : Option String) → named r ≡ ok dropped → Names r dropped
named-some (ok schema) none h = absurd (ground arith)
named-some (ok schema) (some other) h = ground arith
named-some (err e) none h = absurd (ground arith)
named-some (err e) (some other) h = absurd (ground arith)

-- The schema to drop: none where its creation was not recorded, an error where the id of the tenant
-- gives no name of a schema.
abbrev pub schema_to_drop : String → Bool → Result (Option String)
schema_to_drop tenant_id false = ok none
schema_to_drop tenant_id true = named (resolve_tenant_schema tenant_id)

module _ (c : Collaborators) (tenant_id : String) where
  -- the states between the parts
  abbrev pub after_links : World → World
  after_links s = (c.revoke_all tenant_id s).1

  abbrev pub after_admin : World → World
  after_admin s = (c.deactivate tenant_id (after_links s)).1

  -- the statement that drops a schema, in the context of the tenant
  abbrev pub drop : String → World → Result {0} Unit × World
  drop schema = run_with (schema_context tenant_id schema) (c.drop_schema schema)

  abbrev pub after_schema : Option String → World → World
  after_schema none s = after_admin s
  after_schema (some schema) s = (drop schema (after_admin s)).1

  abbrev pub schema_verdict : Option String → World → CompensationStatus
  schema_verdict none s = CompensationStatus.skipped
  schema_verdict (some schema) s = verdict (drop schema (after_admin s)).0

  -- what compensation answers, in order
  abbrev pub verdicts : Option String → World → List CompensationStatus
  verdicts dropped s =
      verdict (c.revoke_all tenant_id s).0
      ∷ verdict (c.deactivate tenant_id (after_links s)).0
      ∷ schema_verdict dropped s
      ∷ []

  schema-report :
      (created : Bool) (dropped : Option String) (s : World)
      → schema_to_drop tenant_id created ≡ ok dropped
      → (o : CompensationOutcome) × (compensate_schema c tenant_id created (after_admin s)
          ≡ (ok o, after_schema dropped s))
        × (o.status ≡ schema_verdict dropped s)
  unfolding compensate_schema ◌>>=◌
  schema-report false none s h = (skipped_drop, refl, refl)
  schema-report false (some schema) s h = absurd (ground arith)
  schema-report true none s h = absurd (named-some (resolve_tenant_schema tenant_id) none h)
  schema-report true (some schema) s h =
      let ids = append "tenantId=" (append tenant_id (append ", schema=" schema)) in
      (
        report StepName.schema_created CompensationAction.drop_tenant_schema ids
            (drop schema (after_admin s)).0,
        rw (named-some (resolve_tenant_schema tenant_id) (some schema) h) (
            sub_step-report StepName.schema_created CompensationAction.drop_tenant_schema
              (drop schema) ids (after_admin s)),
        refl,
      )

  schema-raises :
      (created : Bool) (s : World) (f : Failure)
      → schema_to_drop tenant_id created ≡ err f
      → compensate_schema c tenant_id created (after_admin s) ≡ (err f, after_admin s)
  unfolding compensate_schema ◌>>=◌
  schema-raises false s f h = absurd (ground arith)
  schema-raises true s f h = elim (Result-cases (resolve_tenant_schema tenant_id)) [
    | inl (schema, e) ↦ absurd (ground (arith, e))
    | inr (g, e) ↦ ground (arith, e)
  ]

  abbrev pub links_report : World → CompensationOutcome
  links_report s =
      report StepName.setup_link_generated CompensationAction.revoke_setup_tokens
        (append "tenantId=" tenant_id) (c.revoke_all tenant_id s).0

  abbrev pub admin_report : World → CompensationOutcome
  admin_report s =
      report StepName.first_admin_assigned CompensationAction.deactivate_first_admin
        (describe_first_admin_ids tenant_id no_ids) (c.deactivate tenant_id (after_links s)).0

  -- the first two parts, and then the schema
  compensation-parts :
      (outcomes : List StepOutcome) (s : World)
      → run_compensation c tenant_id outcomes s
        ≡ (compensate_schema c tenant_id (has_succeeded StepName.schema_created outcomes) >>= λ o.
              pure (links_report s ∷ admin_report s ∷ o ∷ []))
            (after_admin s)
  unfolding run_compensation ◌>>=◌
  compensation-parts outcomes s =
      let e₁ =
        sub_step-report StepName.setup_link_generated CompensationAction.revoke_setup_tokens
          (c.revoke_all tenant_id) (append "tenantId=" tenant_id) s in
      let e₂ =
        sub_step-report StepName.first_admin_assigned CompensationAction.deactivate_first_admin
          (c.deactivate tenant_id) (describe_first_admin_ids tenant_id no_ids) (after_links s) in
      rw (e₁, e₂) refl

  pub run_compensation-report :
      (outcomes : List StepOutcome) (dropped : Option String) (s : World)
      → schema_to_drop tenant_id (has_succeeded StepName.schema_created outcomes) ≡ ok dropped
      → (o : CompensationOutcome) × (run_compensation c tenant_id outcomes s
          ≡ (ok (links_report s ∷ admin_report s ∷ o ∷ []), after_schema dropped s))
        × (o.status ≡ schema_verdict dropped s)
  unfolding ◌>>=◌
  run_compensation-report outcomes dropped s h =
      let created = has_succeeded StepName.schema_created outcomes in
      let (o, e, judged) = schema-report created dropped s h in
      (o, compensation-parts outcomes s ∙ rw e refl, judged)

  pub run_compensation-raises :
      (outcomes : List StepOutcome) (s : World) (f : Failure)
      → schema_to_drop tenant_id (has_succeeded StepName.schema_created outcomes) ≡ err f
      → run_compensation c tenant_id outcomes s ≡ (err f, after_admin s)
  unfolding ◌>>=◌
  run_compensation-raises outcomes s f h =
      compensation-parts outcomes s
      ∙ rw (schema-raises (has_succeeded StepName.schema_created outcomes) s f h) refl

  -- Compensation revokes the setup tokens, then removes the first administrator, each whether or not the
  -- other fails. Where the schema is not to be dropped, or the id of the tenant gives its name, it drops
  -- the schema where its creation was recorded, and answers for each part, in this order, whether it
  -- succeeded, failed or was skipped. Else it raises, after the first two parts.
  pub run_compensation_lem :
      (outcomes : List StepOutcome) (s : World)
      → let planned = schema_to_drop tenant_id (has_succeeded StepName.schema_created outcomes) in
        let end = run_compensation c tenant_id outcomes s in
        ((dropped : Option String) × (planned ≡ ok dropped)
          × ((os : List CompensationOutcome) × (end.0 ≡ ok os)
              × (map (λ o. o.status) os ≡ verdicts dropped s)
              × (end.1 ≡ after_schema dropped s)))
        ⊎ ((f : Failure) × (planned ≡ err f) × (end ≡ (err f, after_admin s)))
  run_compensation_lem outcomes s =
      elim (Result-cases
        (schema_to_drop tenant_id (has_succeeded StepName.schema_created outcomes))) [
          | inl (dropped, h) ↦
              let (o, e, judged) = run_compensation-report outcomes dropped s h in
              inl (
                dropped,
                h,
                (
                  links_report s ∷ admin_report s ∷ o ∷ [],
                  ap (λ x. x.0) e,
                  ap
                      (λ v.
                        verdict (c.revoke_all tenant_id s).0
                        ∷ verdict (c.deactivate tenant_id (after_links s)).0
                        ∷ v
                        ∷ [])
                      judged,
                  ap (λ x. x.1) e,
                ),
              )
          | inr (f, h) ↦ inr (f, h, run_compensation-raises outcomes s f h)
        ]

  -- Where the removal of the first administrator raises, and the schema is not to be dropped or its name
  -- is given, what compensation reports of the removal names the tenant alone, and none of the
  -- identifiers that the removal had found.
  pub run_compensation-lost_ids :
      (outcomes : List StepOutcome) (dropped : Option String) (s : World) (e : Failure)
      → schema_to_drop tenant_id (has_succeeded StepName.schema_created outcomes) ≡ ok dropped
      → (c.deactivate tenant_id (after_links s)).0 ≡ err e
      → (links schema : CompensationOutcome) × ((run_compensation c tenant_id outcomes s).0
          ≡ ok (
              links
              ∷ record {
                step = StepName.first_admin_assigned;
                action = CompensationAction.deactivate_first_admin;
                status = CompensationStatus.failed;
                detail = some (
                    failure_detail CompensationAction.deactivate_first_admin
                      (append "tenantId=" tenant_id));
              }
              ∷ schema
              ∷ []))
  unfolding describe_first_admin_ids
  run_compensation-lost_ids outcomes dropped s e planned failed =
      let (o, reported, _) = run_compensation-report outcomes dropped s planned in
      (
        links_report s,
        o,
        ap (λ x. x.0) reported
            ∙ ap
                (λ r. ok (
                  links_report s
                  ∷ report StepName.first_admin_assigned CompensationAction.deactivate_first_admin
                      (append "tenantId=" tenant_id) r
                  ∷ o
                  ∷ []))
                failed,
      )
