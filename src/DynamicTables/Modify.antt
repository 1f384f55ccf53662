-- ===== src/DynamicTables/Modify.antt =====
-- The steps of a change of type, when a job runs them again from the first.
use flexi.Prelude.{
  String, ◌==◌, ◌≡◌, refl, ap, ◌∙◌, true, false, Option, some, List, [], ◌∷◌, arith, Option-cases,
  inl, inr, eq_iff,
}
use flexi.Exec.{ok}
use flexi.Store.Rows.{find_first, update_many}
use flexi.DynamicTables.{
  FieldDataType, ColumnType, Cell, Column, Table, FieldEditStep, has_column, convert_all, backfill,
  execute_step, run_plan, modify_steps, column_type_of,
}
use flexi.Exec.Outcome.{Result-cases}
use flexi.DynamicTables.Steps.{typed_has_column}

abbrev set_cells : List Cell → Column → Column
set_cells cells c = record c { cells = cells }

update_twice :
    (name : String) (cells : List Cell) (columns : List Column)
    → update_many
        (λ c. c.name == name)
        (set_cells cells)
        (update_many (λ c. c.name == name) (set_cells cells) columns)
      ≡ update_many (λ c. c.name == name) (set_cells cells) columns
unfolding update_many
update_twice name cells [] = refl
update_twice name cells (c ∷ columns) = ground (arith, update_twice name cells columns)

find_other :
    (name other : String) (cells : List Cell) (columns : List Column)
    → (other == name) ≡ false
    → find_first
        (λ c. c.name == other)
        (update_many (λ c. c.name == name) (set_cells cells) columns)
      ≡ find_first (λ c. c.name == other) columns
unfolding update_many find_first
find_other name other cells [] h = refl
find_other name other cells (c ∷ columns) h = ground (
  arith,
  find_other name other cells columns h,
  eq_iff c.name name,
  eq_iff c.name other,
  eq_iff other name,
)

find_same :
    (name : String) (cells : List Cell) (columns : List Column) (c : Column)
    → find_first (λ c. c.name == name) columns ≡ some c
    → find_first (λ c. c.name == name) (update_many (λ c. c.name == name) (set_cells cells) columns)
      ≡ some (set_cells cells c)
unfolding update_many find_first
find_same name cells [] c h = ground arith
find_same name cells (d ∷ columns) c h = ground (arith, find_same name cells columns c)

same_columns :
    (name other : String) (cells : List Cell) (columns : List Column)
    → has_column other (update_many (λ c. c.name == name) (set_cells cells) columns)
      ≡ has_column other columns
unfolding update_many
same_columns name other cells [] = refl
same_columns name other cells (c ∷ columns) = ground (arith, same_columns name other cells columns)

module _ (convert : ColumnType → ColumnType → Cell → Option Cell) where
  -- What a backfill that succeeded found and wrote.
  record Filled (source shadow : String) (columns columns' : List Column) : Type 0 where
    from : Column
    to : Column
    cells : List Cell
    found_from : find_first (λ c. c.name == source) columns ≡ some from
    found_to : find_first (λ c. c.name == shadow) columns ≡ some to
    converted : convert_all convert from.column_type to.column_type from.cells ≡ some cells
    written : columns' ≡ update_many (λ c. c.name == shadow) (set_cells cells) columns

  backfill-ok :
      (source shadow : String) (columns columns' : List Column)
      → backfill convert source shadow columns ≡ ok columns'
      → Filled source shadow columns columns'
  unfolding backfill
  backfill-ok source shadow columns columns' h =
      elim (Option-cases (find_first (λ c. c.name == source) columns)) [
        | inl missing ↦ absurd (ground arith)
        | inr (from, found_from) ↦
            elim (Option-cases (find_first (λ c. c.name == shadow) columns)) [
              | inl missing ↦ absurd (ground arith)
              | inr (to, found_to) ↦
                  elim (Option-cases
                    (convert_all convert from.column_type to.column_type from.cells)) [
                      | inl failed ↦ absurd (ground arith)
                      | inr (cells, converted) ↦ record {
                        from = from;
                        to = to;
                        cells = cells;
                        found_from = found_from;
                        found_to = found_to;
                        converted = converted;
                        written = ground arith;
                      }
                    ]
            ]
      ]

  backfill-filled :
      (source shadow : String) (columns : List Column) (from to : Column) (cells : List Cell)
      → find_first (λ c. c.name == source) columns ≡ some from
      → find_first (λ c. c.name == shadow) columns ≡ some to
      → convert_all convert from.column_type to.column_type from.cells ≡ some cells
      → backfill convert source shadow columns
        ≡ ok (update_many (λ c. c.name == shadow) (set_cells cells) columns)
  unfolding backfill
  backfill-filled source shadow columns from to cells h k l = rw (h, k) (rw l refl)

  backfill_again :
      (source shadow : String) (columns columns' : List Column)
      → (source == shadow) ≡ false
      → backfill convert source shadow columns ≡ ok columns'
      → backfill convert source shadow columns' ≡ ok columns'
  backfill_again source shadow columns columns' differ h =
      let f = backfill-ok source shadow columns columns' h in
      let filled = update_many (λ c. c.name == shadow) (set_cells f.cells) columns in
      rw f.written (
        backfill-filled source shadow filled f.from (set_cells f.cells f.to) f.cells
          (find_other shadow source f.cells columns differ ∙ f.found_from)
          (find_same shadow f.cells columns f.to f.found_to) f.converted
        ∙ ap ok (update_twice shadow f.cells columns))

  backfill_step_again :
      (source shadow : String) (t t' : Table)
      → (source == shadow) ≡ false
      → execute_step convert (FieldEditStep.backfill_column source shadow) t ≡ ok t'
      → execute_step convert (FieldEditStep.backfill_column source shadow) t' ≡ ok t'
  unfolding execute_step
  backfill_step_again source shadow t t' differ h =
      ground (arith, backfill_again source shadow t.columns t'.columns differ)

  backfill_step-keeps :
      (source shadow other : String) (t t' : Table)
      → execute_step convert (FieldEditStep.backfill_column source shadow) t ≡ ok t'
      → has_column other t'.columns ≡ has_column other t.columns
  unfolding execute_step
  backfill_step-keeps source shadow other t t' h =
      elim (Result-cases (backfill convert source shadow t.columns)) [
        | inl (columns, filled) ↦
            let f = backfill-ok source shadow t.columns columns filled in
            ground (arith, f.written, same_columns shadow other f.cells t.columns)
        | inr (e, refused) ↦ absurd (ground arith)
      ]

  shadow_step-has :
      (shadow : String) (type : FieldDataType) (t t' : Table)
      → execute_step convert (FieldEditStep.add_shadow_column shadow type) t ≡ ok t'
      → has_column shadow t'.columns ≡ true
  unfolding execute_step
  shadow_step-has shadow type t t' h =
      ground (arith, typed_has_column convert shadow false t t' (column_type_of type))

  shadow_step-there :
      (shadow : String) (type : FieldDataType) (t : Table)
      → has_column shadow t.columns ≡ true
      → execute_step convert (FieldEditStep.add_shadow_column shadow type) t ≡ ok t
  unfolding execute_step
  shadow_step-there shadow type t h = rw h refl

  -- Where the shadow's name is another than the column's: a change of type that stopped after its first or its second step, run again from the first step,
  -- ends as the uninterrupted change does, success or failure alike.
  pub modify_steps-resume :
      (column shadow : String) (type : FieldDataType) (t t₁ t₂ : Table)
      → (column == shadow) ≡ false
      → execute_step convert (FieldEditStep.add_shadow_column shadow type) t ≡ ok t₁
      → execute_step convert (FieldEditStep.backfill_column column shadow) t₁ ≡ ok t₂
      → (run_plan (execute_step convert) (modify_steps column shadow type) t₁
          ≡ run_plan (execute_step convert) (modify_steps column shadow type) t)
        × (run_plan (execute_step convert) (modify_steps column shadow type) t₂
            ≡ run_plan (execute_step convert) (modify_steps column shadow type) t)
  modify_steps-resume column shadow type t t₁ t₂ differ h k =
      let add_again = shadow_step-there shadow type t₁ (shadow_step-has shadow type t t₁ h) in
      let there =
        backfill_step-keeps column shadow shadow t₁ t₂ k ∙ shadow_step-has shadow type t t₁ h in
      let add_third = shadow_step-there shadow type t₂ there in
      let fill_again = backfill_step_again column shadow t₁ t₂ differ k in
      (rw (h, add_again) refl, rw (h, k, add_third, fill_again) refl)
