-- ===== src/DynamicTables/Catalog.antt =====
-- modules/dynamic-tables/: what a tenant's schema holds beside its tables, and what a job carries.
use Prim.Native.String.{◌++◌ as append}
use flexi.Prelude.{
  ℕ, suc, String, ◌==◌, decimal_text, Bool, true, false, ◌&&◌, Option, none, List, [], ◌∷◌, ◌++◌,
  if◌then◌else◌, is_some,
}
use flexi.Exec.{Exec, Result, ok, err, plain_error, Failure}
use flexi.Store.Rows.{find_first, update_many, delete_many}
use flexi.DynamicTables.{
  FieldDataType, ColumnType, Table, FieldEditStep, alter_add, then_result, add_typed,
}

pub data MigrationStatus : Type 0 where
  completed failed : MigrationStatus

pub record MetaTable : Type 0 where
  pub id : String
  pub name : String
  pub slug : String
  pub description : Option String
  pub owner_column : String

pub record MetaField : Type 0 where
  pub table_id : String
  pub name : String
  pub slug : String
  pub data_type : FieldDataType
  pub required : Bool
  -- the JSON of the field's configuration
  pub config : Option String
  pub relation_target_table_id : Option String

pub record MetaMigration : Type 0 where
  pub table_id : Option String
  pub job_id : String
  pub operation : String
  pub statement : String
  pub status : MigrationStatus
  pub error : Option Failure

-- One tenant's schema, and how many transactions were begun in it.
pub record Catalog : Type 0 where
  pub tables : List Table
  pub meta_tables : List MetaTable
  pub meta_fields : List MetaField
  pub meta_migrations : List MetaMigration
  pub transactions : ℕ

pub record JobField : Type 0 where
  pub name : String
  pub data_type : FieldDataType
  pub required : Bool
  pub config : Option String

pub record CreateTableJob : Type 0 where
  pub job_id : String
  pub tenant_id : String
  pub table_id : String
  pub table_name : String
  pub description : Option String
  pub fields : List JobField

pub data FieldMetadataEffect : Type 0 where
  upsert_field :
      String → String → FieldDataType → Bool → Option String → Option String → FieldMetadataEffect
  remove_field : String → FieldMetadataEffect

pub record FieldEditJob : Type 0 where
  pub job_id : String
  pub tenant_id : String
  pub table_id : String
  pub table_name : String
  pub steps : List FieldEditStep
  pub metadata_effects : List FieldMetadataEffect

abbrev pub owner_column : String
owner_column = "owner_user_id"

abbrev pub quoted : String → String
quoted name = append "\"" (append name "\"")

pub describe_step : String → FieldEditStep → String
describe_step table (FieldEditStep.add_column name type required) =
    append "ADD COLUMN " (append (quoted name) (append " on " (quoted table)))
describe_step table (FieldEditStep.add_relation_column name target required) =
    append "ADD COLUMN " (
      append (quoted name) (
        append " (FK -> "
          (append (quoted target) (append ", ON DELETE SET NULL) on " (quoted table)))))
describe_step table (FieldEditStep.drop_column name) =
    append "DROP COLUMN " (append (quoted name) (append " on " (quoted table)))
describe_step table (FieldEditStep.add_shadow_column name type) =
    append "ADD COLUMN " (append (quoted name) (append " (shadow) on " (quoted table)))
describe_step table (FieldEditStep.backfill_column source shadow) = append "BACKFILL " (
    append (quoted shadow)
      (append " FROM " (append (quoted source) (append " on " (quoted table)))))
describe_step table (FieldEditStep.cutover_column source shadow final) = append "CUTOVER " (
    append (quoted shadow) (
      append " -> " (
        append (quoted final)
          (append " (drop " (append (quoted source) (append ") on " (quoted table)))))))

pub kind_of : FieldEditStep → String
kind_of (FieldEditStep.add_column name type required) = "add-column"
kind_of (FieldEditStep.add_relation_column name target required) = "add-relation-column"
kind_of (FieldEditStep.drop_column name) = "drop-column"
kind_of (FieldEditStep.add_shadow_column name type) = "add-shadow-column"
kind_of (FieldEditStep.backfill_column source shadow) = "backfill-column"
kind_of (FieldEditStep.cutover_column source shadow final) = "cutover-column"

-- `CREATE TABLE "..." (...n field(s))`
abbrev pub describe_create : String → ℕ → String
describe_create table n =
    append "CREATE TABLE "
      (append (quoted table) (append " (..." (append (decimal_text n) " field(s))")))

-- A job's action.
abbrev pub Ddl : Type 0 → Type 0
Ddl A = Exec Catalog A

unfoldable pub record_migration : MetaMigration → Ddl Unit
record_migration row s = (ok tt, record s { meta_migrations = s.meta_migrations ++ row ∷ [] })

-- `upsertMetaTable`
abbrev pub upsert_table : MetaTable → List MetaTable → List MetaTable
upsert_table row rows =
    if is_some (find_first (λ t. t.id == row.id) rows)
    then update_many (λ t. t.id == row.id) (λ t. row) rows
    else rows ++ row ∷ []

-- `upsertMetaField`
abbrev pub is_same_field : MetaField → MetaField → Bool
is_same_field row f = f.table_id == row.table_id && f.slug == row.slug

abbrev pub upsert_meta_field : MetaField → List MetaField → List MetaField
upsert_meta_field row rows =
    if is_some (find_first (is_same_field row) rows)
    then update_many (is_same_field row) (λ f. row) rows
    else rows ++ row ∷ []

-- `CREATE TABLE`, as columns added to a table without rows
abbrev pub add_fields : List JobField → Table → Result Table
add_fields [] t = ok t
add_fields (f ∷ fs) t = then_result (add_typed f.name f.data_type f.required t) (add_fields fs)

abbrev pub add_timestamps : Table → Result Table
add_timestamps t =
    then_result (alter_add "created_at" true t ColumnType.timestamp)
      (λ t. alter_add "updated_at" true t ColumnType.timestamp)

abbrev pub complete_fields : List JobField → Table → Result Table
complete_fields fields t = then_result (add_fields fields t) add_timestamps

abbrev pub add_owner : List JobField → Table → Result Table
add_owner fields t =
    then_result (alter_add owner_column true t ColumnType.varchar) (complete_fields fields)

unfoldable pub create_table : String → List JobField → Result Table
create_table name fields =
    then_result
      (alter_add "id" true (record { name = name; row_count = 0; columns = [] })
        ColumnType.increments)
      (add_owner fields)

abbrev pub field_row : String → JobField → MetaField
field_row table_id f = record {
  table_id = table_id;
  name = f.name;
  slug = f.name;
  data_type = f.data_type;
  required = f.required;
  config = f.config;
  relation_target_table_id = none;
}

abbrev pub upsert_fields : String → List JobField → List MetaField → List MetaField
upsert_fields table_id [] rows = rows
upsert_fields table_id (f ∷ fs) rows =
    upsert_fields table_id fs (upsert_meta_field (field_row table_id f) rows)

abbrev pub apply_effect : String → FieldMetadataEffect → List MetaField → List MetaField
apply_effect table_id (FieldMetadataEffect.upsert_field name slug type required config target)
      rows =
    upsert_meta_field
      (record {
        table_id = table_id;
        name = name;
        slug = slug;
        data_type = type;
        required = required;
        config = config;
        relation_target_table_id = target;
      })
      rows
apply_effect table_id (FieldMetadataEffect.remove_field slug) rows =
    delete_many (λ f. f.table_id == table_id && f.slug == slug) rows

abbrev pub apply_effects : String → List FieldMetadataEffect → List MetaField → List MetaField
apply_effects table_id [] rows = rows
apply_effects table_id (e ∷ es) rows = apply_effects table_id es (apply_effect table_id e rows)

-- A step on a table that is not there: `hasColumn` answers no, and only a statement fails.
abbrev pub is_vacuous : FieldEditStep → Bool
is_vacuous (FieldEditStep.drop_column name) = true
is_vacuous (FieldEditStep.cutover_column source shadow final) = true
is_vacuous _ = false

abbrev pub has_table : String → List Table → Bool
has_table name tables = is_some (find_first (λ t. t.name == name) tables)

abbrev pub put_table : Table → Catalog → Catalog
put_table t s = record s { tables = update_many (λ u. u.name == t.name) (λ u. t) s.tables }

abbrev pub place : Catalog → Result Table → Result {0} Unit × Catalog
place s (ok t) = (ok tt, put_table t s)
place s (err e) = (err e, s)

abbrev pub create_placed : Catalog → Result Table → Result {0} Unit × Catalog
create_placed s (ok t) = (ok tt, record s { tables = s.tables ++ t ∷ [] })
create_placed s (err e) = (err e, s)

abbrev pub settle_ddl : {A : Type 0} → Catalog → Bool → Result A × Catalog → Result A × Catalog
settle_ddl s true r = (err plain_error, record s { transactions = suc s.transactions })
settle_ddl s false (ok a, s') = (ok a, record s' { transactions = suc s.transactions })
settle_ddl s false (err e, s') = (err e, record s { transactions = suc s.transactions })
