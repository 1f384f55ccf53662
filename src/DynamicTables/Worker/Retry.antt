-- ===== src/DynamicTables/Worker/Retry.antt =====
-- A job that creates a table, run again.
use flexi.Prelude.{
  ℕ, String, ◌==◌, ==_refl, ◌≡◌, refl, ◌∙◌, Bool, true, false, Option, List, [], ◌∷◌, ◌++◌, arith,
  inl, inr, eq_iff,
}
use flexi.Exec.{Result, ok, err, ◌>>=◌}
use flexi.Exec.Outcome.{Result-cases}
use flexi.Store.Rows.{find_first}
use flexi.DynamicTables.{ColumnType, Cell, Table, alter_add, then_result, add_typed, column_type_of}
use flexi.DynamicTables.Catalog.{
  Catalog, CreateTableJob, JobField, record_migration, create_table, has_table, add_timestamps,
  add_owner, complete_fields, add_fields, owner_column,
}
use flexi.DynamicTables.Worker.{
  ddl_transaction, ensure_table, upsert_metadata, process_create_table,
}

then-ok :
    {A B : Type 0} (r : Result A) (f : A → Result B) (b : B)
    → then_result r f ≡ ok b
    → (a : A) × (r ≡ ok a) × (f a ≡ ok b)
then-ok (ok a) f b h = (a, refl, h)
then-ok (err e) f b h = absurd (ground arith)

alter_add-name :
    (name : String) (required : Bool) (t t' : Table) (type : ColumnType)
    → alter_add name required t type ≡ ok t'
    → t'.name ≡ t.name
alter_add-name name required t t' type h = ground arith

-- The new table has the job's name.
add_fields-name :
    (fields : List JobField) (t t' : Table) → add_fields fields t ≡ ok t' → t'.name ≡ t.name
add_fields-name [] t t' h = ground arith
add_fields-name (f ∷ fs) t t' h =
    let (t₁, added, rest) =
      then-ok (add_typed f.name f.data_type f.required t) (add_fields fs) t' h in
    let (type, _, altered) =
      then-ok (column_type_of f.data_type) (alter_add f.name f.required t) t₁ added in
    add_fields-name fs t₁ t' rest ∙ alter_add-name f.name f.required t t₁ type altered

add_timestamps-name : (t t' : Table) → add_timestamps t ≡ ok t' → t'.name ≡ t.name
add_timestamps-name t t' h =
    let (t₁, created, updated) =
      then-ok (alter_add "created_at" true t ColumnType.timestamp)
        (λ t. alter_add "updated_at" true t ColumnType.timestamp) t' h in
    alter_add-name "updated_at" true t₁ t' ColumnType.timestamp updated
    ∙ alter_add-name "created_at" true t t₁ ColumnType.timestamp created

create_table-name :
    (name : String) (fields : List JobField) (t : Table)
    → create_table name fields ≡ ok t
    → t.name ≡ name
unfolding create_table
create_table-name name fields t h =
    let empty : Table = record { name = name; row_count = 0; columns = [] } in
    let (t₁, keyed, h₁) =
      then-ok (alter_add "id" true empty ColumnType.increments) (add_owner fields) t h in
    let (t₂, owned, h₂) =
      then-ok (alter_add owner_column true t₁ ColumnType.varchar) (complete_fields fields) t h₁ in
    let (t₃, fielded, h₃) = then-ok (add_fields fields t₂) add_timestamps t h₂ in
    add_timestamps-name t₃ t h₃
    ∙ add_fields-name fields t₂ t₃ fielded
    ∙ alter_add-name owner_column true t₁ t₂ ColumnType.varchar owned
    ∙ alter_add-name "id" true empty t₁ ColumnType.increments keyed

has_table-append :
    (name : String) (tables : List Table) (t : Table)
    → (t.name == name) ≡ true
    → has_table name (tables ++ t ∷ []) ≡ true
unfolding find_first
has_table-append name [] t h = ground arith
has_table-append name (u ∷ tables) t h = ground (arith, has_table-append name tables t h)

module _ (convert : ColumnType → ColumnType → Cell → Option Cell) (times_out : ℕ → Bool) where
  ensure_table-has :
      (job : CreateTableJob) (s : Catalog)
      → (ensure_table convert times_out job s).0 ≡ ok tt
      → has_table job.table_name (ensure_table convert times_out job s).1.tables ≡ true
  unfolding ensure_table
  ensure_table-has job s h = elim (Result-cases (create_table job.table_name job.fields)) [
    | inl (t, created) ↦ ground (
      arith,
      has_table-append job.table_name s.tables t,
      ==_refl job.table_name,
      create_table-name job.table_name job.fields t created,
      eq_iff t.name job.table_name,
    )
    | inr (e, refused) ↦ ground arith
  ]

  process_create_table-has :
      (job : CreateTableJob) (s : Catalog)
      → (process_create_table convert times_out job s).0 ≡ ok tt
      → has_table job.table_name (process_create_table convert times_out job s).1.tables ≡ true
  unfolding process_create_table ddl_transaction ◌>>=◌ upsert_metadata record_migration
  process_create_table-has job s h = ground (arith, ensure_table-has job s)

  process_create_table-kept :
      (job : CreateTableJob) (s : Catalog)
      → has_table job.table_name s.tables ≡ true
      → times_out s.transactions ≡ false
      → ((process_create_table convert times_out job s).0 ≡ ok tt)
        × ((process_create_table convert times_out job s).1.tables ≡ s.tables)
  unfolding process_create_table ddl_transaction ◌>>=◌ upsert_metadata record_migration ensure_table
  process_create_table-kept job s there in_time = ground arith

  -- A job that created its table, run again: unless a timeout stops it, it completes, and every table,
  -- with its columns and rows, is as the first run left it.
  pub process_create_table-again :
      (job : CreateTableJob) (s : Catalog)
      → (process_create_table convert times_out job s).0 ≡ ok tt
      → times_out (process_create_table convert times_out job s).1.transactions ≡ false
      → ((process_create_table convert times_out job
            (process_create_table convert times_out job s).1).0
          ≡ ok tt)
        × ((process_create_table convert times_out job
              (process_create_table convert times_out job s).1).1.tables
            ≡ (process_create_table convert times_out job s).1.tables)
  process_create_table-again job s h in_time =
      process_create_table-kept job (process_create_table convert times_out job s).1
        (process_create_table-has job s h) in_time
