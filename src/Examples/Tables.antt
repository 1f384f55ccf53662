-- ===== src/Examples/Tables.antt =====
-- Runs of the jobs that change a tenant's tables.
use flexi.Prelude.{ℕ, ◌≡◌, refl, Bool, true, false, Option, none, some, List, [], ◌∷◌, eqb}
use flexi.Exec.{ok, err, plain_error, ◌>>=◌}
use flexi.Store.Rows.{find_first, update_many, delete_many}
use flexi.DynamicTables.{
  FieldDataType, ColumnType, Cell, Column, Table, FieldEditStep, drop, backfill, execute_step,
  run_plan, modify_steps,
}
use flexi.DynamicTables.Steps.{cutover_again}
use flexi.DynamicTables.Modify.{modify_steps-resume}
use flexi.DynamicTables.Catalog.{
  Catalog, CreateTableJob, FieldEditJob, record_migration, create_table,
}
use flexi.DynamicTables.Worker.{
  ddl_transaction, execute_on, run_step, run_steps, ensure_table, upsert_metadata,
  process_create_table,
}
use flexi.DynamicTables.Worker.Retry.{process_create_table-again}

-- A conversion that keeps every cell, and transactions of which the fifth runs into a timeout.
abbrev convert : ColumnType → ColumnType → Cell → Option Cell
convert from to c = some c

abbrev times_out : ℕ → Bool
times_out n = eqb n 4

abbrev price : Column
price = record {
  name = "price";
  column_type = ColumnType.varchar;
  not_null = true;
  cells = Cell.value "10" ∷ [];
}

abbrev items : Table
items = record { name = "items"; row_count = 1; columns = price ∷ [] }

abbrev shadow : List Cell → Column
shadow cells = record {
  name = "price__shadow";
  column_type = ColumnType.decimal;
  not_null = false;
  cells = cells;
}

abbrev expanded : Table
expanded = record items { columns = price ∷ shadow (Cell.null ∷ []) ∷ [] }

abbrev filled : Table
filled = record items { columns = price ∷ shadow (Cell.value "10" ∷ []) ∷ [] }

abbrev contracted : Table
contracted = record items {
  columns = record (shadow (Cell.value "10" ∷ [])) { name = "price" } ∷ [];
}

adds_shadow :
    execute_step convert
      (FieldEditStep.add_shadow_column "price__shadow" FieldDataType.number)
      items
    ≡ ok expanded
unfolding execute_step
adds_shadow = refl

fills :
    execute_step convert (FieldEditStep.backfill_column "price" "price__shadow") expanded
    ≡ ok filled
unfolding execute_step backfill find_first update_many
fills = refl

modify_steps-resume_example :
    (run_plan
        (execute_step convert)
        (modify_steps "price" "price__shadow" FieldDataType.number)
        expanded
      ≡ run_plan
          (execute_step convert)
          (modify_steps "price" "price__shadow" FieldDataType.number)
          items)
    × (run_plan
          (execute_step convert)
          (modify_steps "price" "price__shadow" FieldDataType.number)
          filled
        ≡ run_plan
            (execute_step convert)
            (modify_steps "price" "price__shadow" FieldDataType.number)
            items)
modify_steps-resume_example =
    modify_steps-resume convert "price" "price__shadow" FieldDataType.number items expanded filled
      refl adds_shadow fills

cuts_over :
    execute_step convert (FieldEditStep.cutover_column "price" "price__shadow" "price") filled
    ≡ ok contracted
unfolding execute_step update_many delete_many
cuts_over = refl

cutover_again_example :
    execute_step convert (FieldEditStep.cutover_column "price" "price__shadow" "price") contracted
    ≡ ok (record contracted { columns = drop "price" contracted.columns })
cutover_again_example =
    cutover_again convert "price" "price__shadow" filled contracted refl refl cuts_over

abbrev catalog : Catalog
catalog = record {
  tables = items ∷ [];
  meta_tables = [];
  meta_fields = [];
  meta_migrations = [];
  transactions = 0;
}

abbrev edit : FieldEditJob
edit = record {
  job_id = "j1";
  tenant_id = "acme";
  table_id = "t1";
  table_name = "items";
  steps = modify_steps "price" "price__shadow" FieldDataType.number;
  metadata_effects = [];
}

runs : (run_steps convert times_out edit edit.steps catalog).0 ≡ ok tt
unfolding run_steps run_step ddl_transaction execute_on execute_step backfill find_first update_many
    delete_many record_migration ◌>>=◌
runs = refl

abbrev missing : FieldEditStep
missing = FieldEditStep.backfill_column "cost" "price"

fails : (run_step convert times_out edit missing catalog).0 ≡ err plain_error
unfolding run_step ddl_transaction execute_on execute_step backfill find_first record_migration
fails = refl

abbrev orders : CreateTableJob
orders = record {
  job_id = "j2";
  tenant_id = "acme";
  table_id = "t2";
  table_name = "orders";
  description = none;
  fields =
      record { name = "title"; data_type = FieldDataType.string; required = true; config = none }
      ∷ [];
}

creates : (process_create_table convert times_out orders catalog).0 ≡ ok tt
unfolding process_create_table ddl_transaction ensure_table upsert_metadata create_table
    record_migration find_first ◌>>=◌
creates = refl

in_time : times_out (process_create_table convert times_out orders catalog).1.transactions ≡ false
unfolding process_create_table ddl_transaction ensure_table upsert_metadata create_table
    record_migration find_first ◌>>=◌
in_time = refl

process_create_table-again_example :
    ((process_create_table convert times_out orders
        (process_create_table convert times_out orders catalog).1).0
      ≡ ok tt)
    × ((process_create_table convert times_out orders
          (process_create_table convert times_out orders catalog).1).1.tables
        ≡ (process_create_table convert times_out orders catalog).1.tables)
process_create_table-again_example =
    process_create_table-again convert times_out orders catalog creates in_time
