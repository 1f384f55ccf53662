-- ===== src/DynamicTables/Worker.antt =====
-- modules/dynamic-tables/ddl-worker.ts: jobs that change the tables of one tenant's schema.
pub mod Log
pub mod Retry
use flexi.Prelude.{
  ℕ, String, ◌==◌, length, Bool, true, false, Option, none, some, List, [], ◌∷◌, ◌++◌,
  if◌then◌else◌,
}
use flexi.Exec.{Result, ok, err, pure, plain_error, Failure, ◌>>=◌, ◌>>◌}
use flexi.Store.Rows.{find_first}
use flexi.DynamicTables.{ColumnType, Cell, Table, FieldEditStep, execute_step}
use flexi.DynamicTables.Catalog.{
  MigrationStatus, MetaMigration, Catalog, CreateTableJob, FieldEditJob, Ddl, owner_column,
  describe_step, describe_create, kind_of, record_migration, upsert_table, create_table,
  upsert_fields, apply_effects, is_vacuous, has_table, place, create_placed, settle_ddl,
}

module _ (convert : ColumnType → ColumnType → Cell → Option Cell) (times_out : ℕ → Bool) where
  -- the n-th transaction may run into a timeout; what fails is rolled back
  unfoldable pub ddl_transaction : {A : Type 0} → Ddl A → Ddl A
  ddl_transaction m s = settle_ddl s (times_out s.transactions) (m s)

  abbrev pub execute_found : FieldEditStep → Catalog → Option Table → Result {0} Unit × Catalog
  execute_found step s none = if is_vacuous step then (ok tt, s) else (err plain_error, s)
  execute_found step s (some t) = place s (execute_step convert step t)

  unfoldable pub execute_on : String → FieldEditStep → Ddl Unit
  execute_on table step s = execute_found step s (find_first (λ t. t.name == table) s.tables)

  abbrev pub migration_of :
      FieldEditJob → FieldEditStep → MigrationStatus → Option Failure → MetaMigration
  migration_of job step status error = record {
    table_id = some job.table_id;
    job_id = job.job_id;
    operation = kind_of step;
    statement = describe_step job.table_name step;
    status = status;
    error = error;
  }

  -- what follows a step's transaction: its row in the log, and the raise that ends the job
  abbrev pub log_step :
      FieldEditJob → FieldEditStep → Result {0} Unit × Catalog → Result {0} Unit × Catalog
  log_step job step (ok a, s) =
      record_migration (migration_of job step MigrationStatus.completed none) s
  log_step job step (err e, s) =
      (err e, (record_migration (migration_of job step MigrationStatus.failed (some e)) s).1)

  unfoldable pub run_step : FieldEditJob → FieldEditStep → Ddl Unit
  run_step job step s = log_step job step (ddl_transaction (execute_on job.table_name step) s)

  unfoldable pub run_steps : FieldEditJob → List FieldEditStep → Ddl Unit
  run_steps job [] = pure tt
  run_steps job (step ∷ steps) = do run_step job step; run_steps job steps

  unfoldable pub apply_metadata : FieldEditJob → Ddl Unit
  apply_metadata job s = (
    ok tt,
    record s { meta_fields = apply_effects job.table_id job.metadata_effects s.meta_fields },
  )

  unfoldable pub process_field_edit : FieldEditJob → Ddl Unit
  process_field_edit job = do run_steps job job.steps; ddl_transaction (apply_metadata job)

  unfoldable pub ensure_table : CreateTableJob → Ddl Unit
  ensure_table job s =
      if has_table job.table_name s.tables
      then (ok tt, s)
      else create_placed s (create_table job.table_name job.fields)

  unfoldable pub upsert_metadata : CreateTableJob → Ddl Unit
  upsert_metadata job s = (
    ok tt,
    record s {
      meta_tables =
          upsert_table
            (record {
              id = job.table_id;
              name = job.table_name;
              slug = job.table_name;
              description = job.description;
              owner_column = owner_column;
            })
            s.meta_tables;
      meta_fields = upsert_fields job.table_id job.fields s.meta_fields;
    },
  )

  abbrev pub create_migration : CreateTableJob → MigrationStatus → Option Failure → MetaMigration
  create_migration job status error = record {
    table_id = some job.table_id;
    job_id = job.job_id;
    operation = "create-table";
    statement = describe_create job.table_name (length job.fields);
    status = status;
    error = error;
  }

  abbrev pub log_create : CreateTableJob → Result {0} Unit × Catalog → Result {0} Unit × Catalog
  log_create job (ok a, s) =
      record_migration (create_migration job MigrationStatus.completed none) s
  log_create job (err e, s) =
      (err e, (record_migration (create_migration job MigrationStatus.failed (some e)) s).1)

  unfoldable pub process_create_table : CreateTableJob → Ddl Unit
  process_create_table job s =
      log_create job (ddl_transaction (ensure_table job >>= λ _. upsert_metadata job) s)
