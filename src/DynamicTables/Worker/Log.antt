-- ===== src/DynamicTables/Worker/Log.antt =====
-- The log of migrations: one row for every step that was tried.
use flexi.Prelude.{
  ℕ, suc, String, ◌≡◌, refl, sym, ap, ◌∙◌, Bool, Option, none, some, List, [], ◌∷◌, ◌++◌, map,
  arith,
}
use mathlib.Core.List.{append_assoc, append-nil}
use flexi.Exec.{ok, err, Failure, ◌>>=◌}
use flexi.DynamicTables.{ColumnType, Cell, FieldEditStep}
use flexi.DynamicTables.Catalog.{
  MigrationStatus, MetaMigration, Catalog, FieldEditJob, record_migration,
}
use flexi.DynamicTables.Worker.{ddl_transaction, execute_on, migration_of, run_step, run_steps}

module _ (convert : ColumnType → ColumnType → Cell → Option Cell) (times_out : ℕ → Bool) where
  -- Executing a step touches no log.
  execute_on-log :
      (table : String) (step : FieldEditStep) (s : Catalog)
      → (execute_on convert times_out table step s).1.meta_migrations ≡ s.meta_migrations
  unfolding execute_on
  execute_on-log table step s = ground arith

  run_step-ok :
      (job : FieldEditJob) (step : FieldEditStep) (s : Catalog)
      → (run_step convert times_out job step s).0 ≡ ok tt
      → (run_step convert times_out job step s).1.meta_migrations
        ≡ s.meta_migrations
          ++ migration_of convert times_out job step MigrationStatus.completed none ∷ []
  unfolding run_step ddl_transaction record_migration
  run_step-ok job step s h = ground (arith, execute_on-log job.table_name step s)

  -- A step that fails changes nothing but the log, which tells of the failure.
  pub run_step-failed :
      (job : FieldEditJob) (step : FieldEditStep) (s : Catalog) (e : Failure)
      → (run_step convert times_out job step s).0 ≡ err e
      → (run_step convert times_out job step s).1 ≡ record s {
        meta_migrations =
            s.meta_migrations
            ++ migration_of convert times_out job step MigrationStatus.failed (some e) ∷ [];
        transactions = suc s.transactions;
      }
  unfolding run_step ddl_transaction record_migration
  run_step-failed job step s e h = ground arith

  -- The row of a step that was completed.
  abbrev pub done : FieldEditJob → FieldEditStep → MetaMigration
  done job step = migration_of convert times_out job step MigrationStatus.completed none

  run_steps-nil :
      (job : FieldEditJob) (s : Catalog) → run_steps convert times_out job [] s ≡ (ok tt, s)
  unfolding run_steps ◌>>=◌
  run_steps-nil job s = refl

  run_steps-cons :
      (job : FieldEditJob) (step : FieldEditStep) (steps : List FieldEditStep) (s : Catalog)
      → (run_steps convert times_out job (step ∷ steps) s).0 ≡ ok tt
      → ((run_step convert times_out job step s).0 ≡ ok tt)
        × ((run_steps convert times_out job steps (run_step convert times_out job step s).1).0
            ≡ ok tt)
        × ((run_steps convert times_out job (step ∷ steps) s).1
            ≡ (run_steps convert times_out job steps (run_step convert times_out job step s).1).1)
  unfolding run_steps ◌>>=◌
  run_steps-cons job step steps s h = ground arith

  -- A run of steps that succeeded appended one completed row for each step, in order, and nothing else.
  pub run_steps-log :
      (job : FieldEditJob) (steps : List FieldEditStep) (s : Catalog)
      → (run_steps convert times_out job steps s).0 ≡ ok tt
      → (run_steps convert times_out job steps s).1.meta_migrations
        ≡ s.meta_migrations ++ map (done job) steps
  run_steps-log job [] s h =
      ap (λ r. r.1.meta_migrations) (run_steps-nil job s) ∙ sym (append-nil s.meta_migrations)
  run_steps-log job (step ∷ steps) s h =
      let (first, rest, end) = run_steps-cons job step steps s h in
      let s' = (run_step convert times_out job step s).1 in
      ap (λ r. r.meta_migrations) end
      ∙ run_steps-log job steps s' rest
      ∙ ap (λ l. l ++ map (done job) steps) (run_step-ok job step s first)
      ∙ append_assoc s.meta_migrations (done job step ∷ []) (map (done job) steps)
