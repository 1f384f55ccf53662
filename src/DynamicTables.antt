-- ===== src/DynamicTables.antt =====
-- modules/dynamic-tables/: the tables that a tenant defines. Columns, the steps of an edit, and the
-- planning of an edit.
pub mod Steps
pub mod Modify
pub mod Catalog
pub mod Worker
use Prim.Native.String.{◌++◌ as append}
use flexi.Prelude.{
  ℕ, zero, suc, String, ◌==◌, Bool, true, false, not, ◌&&◌, ◌||◌, Option, none, some, List, [], ◌∷◌,
  ◌++◌, if◌then◌else◌, or_default, is_some, any, eqb,
}
use flexi.Exec.{Result, ok, err, plain_error, validation_error, table_not_found, Failure}
use flexi.Store.Rows.{find_first, update_many, delete_many}
use flexi.Tenancy.{sanitize_identifier}

-- `FieldDataType` of packages/shared-types/src/enums.ts
pub data FieldDataType : Type 0 where
  string text number boolean date datetime json email url select relation : FieldDataType

-- The type of a column: those of `addTypedColumn`, and the reference of `addRelationColumn`.
pub data ColumnType : Type 0 where
  varchar text_column decimal boolean_column date_column timestamp jsonb increments : ColumnType
  -- `integer ... references <table>(id)`
  reference : String → ColumnType

pub data Cell : Type 0 where
  null : Cell
  value : String → Cell

pub record Column : Type 0 where
  pub name : String
  pub column_type : ColumnType
  pub not_null : Bool
  pub cells : List Cell

-- Every column has a cell for every row.
pub record Table : Type 0 where
  pub name : String
  pub row_count : ℕ
  pub columns : List Column

pub data FieldEditStep : Type 0 where
  add_column : String → FieldDataType → Bool → FieldEditStep
  drop_column : String → FieldEditStep
  add_shadow_column : String → FieldDataType → FieldEditStep
  -- source, shadow
  backfill_column : String → String → FieldEditStep
  -- source, shadow, final
  cutover_column : String → String → String → FieldEditStep
  -- column, target table, required
  add_relation_column : String → String → Bool → FieldEditStep

-- The type that `addTypedColumn` gives a field; it refuses a relation.
abbrev pub column_type_of : FieldDataType → Result ColumnType
column_type_of FieldDataType.string = ok ColumnType.varchar
column_type_of FieldDataType.email = ok ColumnType.varchar
column_type_of FieldDataType.url = ok ColumnType.varchar
column_type_of FieldDataType.select = ok ColumnType.varchar
column_type_of FieldDataType.text = ok ColumnType.text_column
column_type_of FieldDataType.number = ok ColumnType.decimal
column_type_of FieldDataType.boolean = ok ColumnType.boolean_column
column_type_of FieldDataType.date = ok ColumnType.date_column
column_type_of FieldDataType.datetime = ok ColumnType.timestamp
column_type_of FieldDataType.json = ok ColumnType.jsonb
column_type_of FieldDataType.relation = err plain_error

abbrev pub has_column : String → List Column → Bool
has_column name columns = any (λ c. c.name == name) columns

abbrev pub nulls : ℕ → List Cell
nulls zero = []
nulls (suc n) = Cell.null ∷ nulls n

-- `ALTER TABLE ... ADD COLUMN`: a column of the name, or rows that would violate NOT NULL, refuse it
abbrev pub alter_add : String → Bool → Table → ColumnType → Result Table
alter_add name not_null t type =
    if has_column name t.columns || (not_null && not (eqb t.row_count 0))
    then err plain_error
    else ok (record t {
      columns =
          t.columns
          ++ record {
            name = name;
            column_type = type;
            not_null = not_null;
            cells = nulls t.row_count;
          }
            ∷ [];
    })

abbrev pub then_result : {A B : Type 0} → Result A → (A → Result B) → Result B
then_result (ok a) f = f a
then_result (err e) f = err e

abbrev pub add_typed : String → FieldDataType → Bool → Table → Result Table
add_typed name type not_null t = then_result (column_type_of type) (alter_add name not_null t)

abbrev pub drop : String → List Column → List Column
drop name columns = delete_many (λ c. c.name == name) columns

abbrev pub renamed : String → Column → Column
renamed name c = record c { name = name }

abbrev pub rename : String → String → Table → Result Table
rename name final t =
    if has_column final t.columns
    then err plain_error
    else ok (record t { columns = update_many (λ c. c.name == name) (renamed final) t.columns })

module _ (convert : ColumnType → ColumnType → Cell → Option Cell) where
  -- the assignment cast of every cell, which fails with the first that has no value in the type
  abbrev pub convert_all : ColumnType → ColumnType → List Cell → Option (List Cell)
  convert_all from to [] = some []
  convert_all from to (c ∷ cs) =
      let rest = convert_all from to cs in
      elim (convert from to c) [
        | none ↦ none
        | some d ↦ elim rest [ none ↦ none | some ds ↦ some (d ∷ ds) ]
      ]

  abbrev pub copied : List Column → String → Column → Option (List Cell) → Result (List Column)
  copied columns shadow_name shadow none = err plain_error
  copied columns shadow_name shadow (some cells) =
      ok (update_many (λ c. c.name == shadow_name) (λ c. record c { cells = cells }) columns)

  abbrev pub backfill_from :
      List Column → String → Option Column → Option Column → Result (List Column)
  backfill_from columns shadow_name (some source) (some shadow) =
      copied columns shadow_name shadow
        (convert_all source.column_type shadow.column_type source.cells)
  backfill_from columns shadow_name source shadow = err plain_error

  -- `UPDATE ... SET shadow = source`: a missing column is an error
  unfoldable pub backfill : String → String → List Column → Result (List Column)
  backfill source shadow columns =
      backfill_from columns shadow (find_first (λ c. c.name == source) columns)
        (find_first (λ c. c.name == shadow) columns)

  abbrev pub with_columns : Table → Result (List Column) → Result Table
  with_columns t (ok columns) = ok (record t { columns = columns })
  with_columns t (err e) = err e

  abbrev pub cutover : String → String → String → Table → Result Table
  cutover source shadow final t =
      let source_exists = has_column source t.columns in
      let shadow_exists = has_column shadow t.columns in
      let dropped = if source_exists then record t { columns = drop source t.columns } else t in
      if not source_exists && not shadow_exists
      then ok t
      else if shadow_exists
      then rename shadow final dropped
      else ok dropped

  unfoldable pub execute_step : FieldEditStep → Table → Result Table
  execute_step (add_column name type required) t =
      if has_column name t.columns then ok t else add_typed name type required t
  execute_step (add_relation_column name target required) t =
      if has_column name t.columns
      then ok t
      else alter_add name required t (ColumnType.reference target)
  execute_step (drop_column name) t =
      if has_column name t.columns then ok (record t { columns = drop name t.columns }) else ok t
  execute_step (add_shadow_column name type) t =
      if has_column name t.columns then ok t else add_typed name type false t
  execute_step (backfill_column source shadow) t = with_columns t (backfill source shadow t.columns)
  execute_step (cutover_column source shadow final) t = cutover source shadow final t

abbrev pub run_plan :
    (FieldEditStep → Table → Result Table) → List FieldEditStep → Table → Result Table
run_plan execute [] t = ok t
run_plan execute (step ∷ steps) t = then_result (execute step t) (run_plan execute steps)

-- `buildShadowColumnName`
unfoldable pub build_shadow_column_name : String → Result String
build_shadow_column_name column = elim (sanitize_identifier (append column "__shadow")) [
  | ok name ↦ ok name
  | err e ↦ err validation_error
]

-- the steps that `buildFieldEditSteps` plans for a change of a column's type
abbrev pub modify_steps : String → String → FieldDataType → List FieldEditStep
modify_steps column shadow type =
    FieldEditStep.add_shadow_column shadow type
    ∷ FieldEditStep.backfill_column column shadow
    ∷ FieldEditStep.cutover_column column shadow column
    ∷ []
