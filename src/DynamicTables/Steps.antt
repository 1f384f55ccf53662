-- ===== src/DynamicTables/Steps.antt =====
-- What the steps of an edit do when a job runs them again.
use flexi.Prelude.{
  String, ◌==◌, ==_refl, ◌≡◌, refl, Bool, true, false, ◌||◌, Option, List, [], ◌∷◌, ◌++◌, arith,
  eq_iff,
}
use flexi.Exec.{Result, ok, err}
use flexi.Store.Rows.{delete_many, update_many}
use flexi.DynamicTables.{
  ColumnType, Cell, Column, Table, FieldEditStep, column_type_of, has_column, alter_add,
  then_result, nulls, renamed, drop, execute_step,
}

has_column-append :
    (name : String) (xs ys : List Column)
    → has_column name (xs ++ ys) ≡ (has_column name xs || has_column name ys)
has_column-append name [] ys = refl
has_column-append name (x ∷ xs) ys = ground (arith, has_column-append name xs ys)

has_column-drop : (name : String) (xs : List Column) → has_column name (drop name xs) ≡ false
unfolding delete_many
has_column-drop name [] = refl
has_column-drop name (x ∷ xs) = ground (arith, has_column-drop name xs)

-- The steps that ask first whether their column is there.
abbrev pub is_guarded : FieldEditStep → Bool
is_guarded (FieldEditStep.backfill_column source shadow) = false
is_guarded (FieldEditStep.cutover_column source shadow final) = false
is_guarded _ = true

module _ (convert : ColumnType → ColumnType → Cell → Option Cell) where
  added_has_column :
      (name : String) (required : Bool) (t t' : Table) (type : ColumnType)
      → alter_add name required t type ≡ ok t'
      → has_column name t'.columns ≡ true
  added_has_column name required t t' type h = ground (
    arith,
    ==_refl name,
    has_column-append name t.columns (
        record { name = name; column_type = type; not_null = required; cells = nulls t.row_count }
        ∷ []),
  )

  pub typed_has_column :
      (name : String) (required : Bool) (t t' : Table) (type : Result ColumnType)
      → then_result type (alter_add name required t) ≡ ok t'
      → has_column name t'.columns ≡ true
  typed_has_column name required t t' (ok type) h = added_has_column name required t t' type h
  typed_has_column name required t t' (err e) h = absurd (ground arith)

  -- A step that asks first, once done, is done: run again it succeeds and changes nothing.
  pub execute_step_again :
      (step : FieldEditStep) (t t' : Table)
      → is_guarded step ≡ true
      → execute_step convert step t ≡ ok t'
      → execute_step convert step t' ≡ ok t'
  unfolding execute_step
  execute_step_again (FieldEditStep.add_column name type required) t t' g h =
      ground (arith, typed_has_column name required t t' (column_type_of type))
  execute_step_again (FieldEditStep.add_relation_column name target required) t t' g h =
      ground (arith, added_has_column name required t t' (ColumnType.reference target))
  execute_step_again (FieldEditStep.drop_column name) t t' g h =
      ground (arith, has_column-drop name t.columns)
  execute_step_again (FieldEditStep.add_shadow_column name type) t t' g h =
      ground (arith, typed_has_column name false t t' (column_type_of type))
  execute_step_again (FieldEditStep.backfill_column source shadow) t t' g h = absurd (ground arith)
  execute_step_again (FieldEditStep.cutover_column source shadow final) t t' g h =
      absurd (ground arith)

  shadow_renamed :
      (name shadow : String) (columns : List Column)
      → (name == shadow) ≡ false
      → has_column shadow (update_many (λ c. c.name == shadow) (renamed name) columns) ≡ false
  unfolding update_many
  shadow_renamed name shadow [] h = refl
  shadow_renamed name shadow (c ∷ columns) h = ground (arith, shadow_renamed name shadow columns h)

  final_renamed :
      (name shadow : String) (columns : List Column)
      → has_column shadow columns ≡ true
      → has_column name (update_many (λ c. c.name == shadow) (renamed name) columns) ≡ true
  unfolding update_many
  final_renamed name shadow [] h = absurd (ground arith)
  final_renamed name shadow (c ∷ columns) h =
      ground (arith, ==_refl name, final_renamed name shadow columns)

  shadow_kept :
      (name shadow : String) (columns : List Column)
      → (name == shadow) ≡ false
      → has_column shadow (drop name columns) ≡ has_column shadow columns
  unfolding delete_many
  shadow_kept name shadow [] h = refl
  shadow_kept name shadow (c ∷ columns) h = ground (
    arith,
    eq_iff c.name name,
    eq_iff c.name shadow,
    eq_iff name shadow,
    shadow_kept name shadow columns h,
  )

  -- The cutover of an edit, which names one column as source and as final: where the shadow is there,
  -- it leaves the column, with the shadow's type and cells, and no shadow.
  cutover_own :
      (name shadow : String) (t t' : Table)
      → (name == shadow) ≡ false
      → has_column shadow t.columns ≡ true
      → execute_step convert (FieldEditStep.cutover_column name shadow name) t ≡ ok t'
      → (has_column name t'.columns ≡ true) × (has_column shadow t'.columns ≡ false)
  unfolding execute_step
  cutover_own name shadow t t' differ there h = ground (
    arith,
    shadow_kept name shadow t.columns differ,
    shadow_renamed name shadow t.columns differ,
    final_renamed name shadow t.columns,
    shadow_renamed name shadow (drop name t.columns) differ,
    final_renamed name shadow (drop name t.columns),
  )

  cutover_without_shadow :
      (name shadow : String) (t : Table)
      → has_column name t.columns ≡ true
      → has_column shadow t.columns ≡ false
      → execute_step convert (FieldEditStep.cutover_column name shadow name) t
        ≡ ok (record t { columns = drop name t.columns })
  unfolding execute_step
  cutover_without_shadow name shadow t present gone = rw (present, gone) refl

  -- A cutover that names one column as source and as final, of a shadow of another name that is there,
  -- once done and run again by itself, drops the column that it has made.
  pub cutover_again :
      (name shadow : String) (t t' : Table)
      → (name == shadow) ≡ false
      → has_column shadow t.columns ≡ true
      → execute_step convert (FieldEditStep.cutover_column name shadow name) t ≡ ok t'
      → execute_step convert (FieldEditStep.cutover_column name shadow name) t'
        ≡ ok (record t' { columns = drop name t'.columns })
  cutover_again name shadow t t' differ there h =
      let (present, gone) = cutover_own name shadow t t' differ there h in
      cutover_without_shadow name shadow t' present gone
