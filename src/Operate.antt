-- ===== src/Operate.antt =====
-- The checks of include/sql/executer/operator.h on the names of a statement, and its INSERT: the
-- values are put in the order of the table's columns and stored in one column after the other.
pub mod Row
use tiny_dbms.Base.{
  ℕ, zero, suc, ◌+◌, Bool, true, false, not, ◌&&◌, List, [], ◌∷◌, ◌++◌, Option, none, some, ◌==◌,
  ◌=str=◌, if◌then◌else◌, length, get_elem?, codes, take, drop, Result, ok, raise, fault,
  out_of_range, ◌>>=◌,
}
use tiny_dbms.Memory.Words.{rounds, is_negative}
use tiny_dbms.Value.{build_default_value, Value, ValueType, get_enum_type, copy}
use tiny_dbms.Value.Compare.{Floats}
use tiny_dbms.Value.Convert.{init_value}
use tiny_dbms.Table.{ColumnTable, Columns}
use tiny_dbms.Sql.{Column, SqlState, success, failure, unsubmit, parse_error, SqlResponse}
use tiny_dbms.Storage.Watcher.{LockWatcher, Progress, finished, Step}
use tiny_dbms.Access.{Db, get_table, array_at, insert_into_table, answer, ◌>>→◌}

-- CheckColumn from column `i` on, `n` columns being left: the type of the first that has the name.
unfoldable pub check_loop : ℕ → ℕ → Columns → List ℕ → Result (Option ValueType)
check_loop zero i columns col_name = ok none
check_loop (suc n) i columns col_name = do
  name ← array_at columns.column_name_array i
  elim (name =str= col_name) [
    | false ↦ check_loop n (suc i) columns col_name
    | true ↦ do
      type_number ← array_at columns.column_type_array i
      value_type ← get_enum_type type_number
      ok (some value_type)
  ]

-- The column gets the type that the table gives it.
unfoldable pub check_column : ColumnTable → Column → Result (Bool × Column)
check_column table column = do
  found ← check_loop (rounds table.column_size) 0 table.columns column.col_name
  elim found [
    | none ↦ ok (false, column)
    | some t ↦ ok (true, record column { value_type = some t })
  ]

-- The columns up to the first that is not in the table are changed.
unfoldable pub check_cols_exists : ColumnTable → List Column → Result (Bool × List Column)
check_cols_exists table [] = ok (true, [])
check_cols_exists table (item ∷ columns) = do
  (found, item') ← check_column table item
  elim found [
    | false ↦ ok (false, item' ∷ columns)
    | true ↦ do (all, columns') ← check_cols_exists table columns; ok (all, item' ∷ columns')
  ]

-- CheckTableExists is the loop of GetTable.
abbrev pub check_table_exists : Db → List ℕ → Option ColumnTable
check_table_exists db table_name = get_table db.tables table_name

-- FindValue: the place of the first column with the name; `none` is -1.
unfoldable pub find_value : List ℕ → List Column → ℕ → Option ℕ
find_value col_name [] i = none
find_value col_name (column ∷ columns) i =
    let rest = find_value col_name columns (suc i) in
    if column.col_name =str= col_name then some i else rest

abbrev pub set {ℓ} : {A : Type ℓ} → List A → ℕ → A → List A
set [] i v = []
set (x ∷ xs) zero v = v ∷ xs
set (x ∷ xs) (suc i) v = x ∷ set xs i v

module _ (fl : Floats) where
  -- The cell of one column of the table: a default, or the value given for it, which is converted
  -- where it stands. `none` is the answer that a value cannot be converted.
  unfoldable pub param_cell :
      ColumnTable → ℕ → List Column → List Value → Result (Option (Value × List Value))
  param_cell table i columns values = do
    name ← array_at table.columns.column_name_array i
    type_number ← array_at table.columns.column_type_array i
    type ← get_enum_type type_number
    elim (find_value name columns 0) [
      | none ↦ do v ← build_default_value type; ok (some (v, values))
      | some position ↦ (elim (get_elem? values position) [
        | none ↦ raise out_of_range
        | some raw ↦ do
          (converted, v) ← init_value fl raw type
          elim converted [
            | false ↦ ok none
            | true ↦ do v' ← copy v; ok (some (v', set values position v))
          ]
      ])
    ]

  -- JointParamRow from column `i` on, `n` columns being left: the cells of the row.
  unfoldable pub joint_param_row :
      ℕ → ℕ → ColumnTable → List Column → List Value → Result (Option (List Value))
  joint_param_row zero i table columns values = ok (some [])
  joint_param_row (suc n) i table columns values = do
    cell ← param_cell table i columns values
    elim cell [
      | none ↦ ok none
      | some (v, values') ↦ do
        rest ← joint_param_row n (suc i) table columns values'
        elim rest [ none ↦ ok none | some row ↦ ok (some (v ∷ row)) ]
    ]

abbrev pub is_success : SqlState → Bool
is_success success = true
is_success failure = false
is_success unsubmit = false
is_success parse_error = false

-- The loop of InsertRow from column `i` on: the row goes into one column after the other, and the
-- first that refuses its value ends it.
unfoldable pub insert_cells :
    ℕ → ℕ → LockWatcher → Db → ColumnTable → List Value → SqlResponse → Step (Bool × SqlResponse)
insert_cells fuel i w db table [] response = ok (w, finished (true, response))
insert_cells fuel i w db table (v ∷ values) response = do
  name ← array_at table.columns.column_name_array i
  insert_into_table fuel w db table.table_name name v response >>→ λ w' response'.
      (elim (is_success response'.sql_state) [
        | false ↦ ok (w', finished (false, response'))
        | true ↦ insert_cells fuel (suc i) w' db table values response'
      ])

-- The amount of values, a size_t, is compared with column_size; a negative one equals none.
unfoldable pub insert_row :
    ℕ → LockWatcher → Db → ColumnTable → List Value → SqlResponse → Step (Bool × SqlResponse)
insert_row fuel w db table values response =
    if length values == table.column_size && not (is_negative table.column_size)
    then insert_cells fuel 0 w db table values response
    else ok (
      w,
      finished (false, answer failure (codes "Values amount not equal table's column amount!")),
    )

abbrev pub can_not_find : List ℕ → Db → SqlResponse
can_not_find table_name db =
    answer failure (codes "Can not find " ++ (table_name ++ (codes " in db " ++ db.db_name)))

-- A new response has its state from the zero that `new SqlResponse()` sets, UNSUBMIT, and no text.
unfoldable pub insert :
    Floats → ℕ → LockWatcher → Db → List ℕ → List Column → List Value → Step SqlResponse
insert fl fuel w db table_name columns values = elim (get_table db.tables table_name) [
  | none ↦ ok (w, finished (can_not_find table_name db))
  | some table ↦ do
    (found, columns') ← check_cols_exists table columns
    elim found [
      | false ↦ ok (w, finished (can_not_find table_name db))
      | true ↦ do
        row ← joint_param_row fl (rounds table.column_size) 0 table columns' values
        elim row [
          | none ↦ ok (w, finished (answer failure (codes "Can not convert value to column type!")))
          | some row_values ↦
              insert_row fuel w db table row_values (answer unsubmit []) >>→ λ w' (done, response).
              (elim done [
                | false ↦ ok (w', finished response)
                | true ↦ ok (w', finished (record response { sql_state = success }))
              ])
        ]
    ]
]
