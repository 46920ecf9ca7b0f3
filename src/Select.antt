-- ===== src/Select.antt =====
-- include/sql/executer/optimizer.h: how a SELECT on one table is executed, and the text that answers it.
pub mod Spec
pub mod Answer
pub mod Loads
pub mod Texts
pub mod Rows
use tiny_dbms.Base.{
  ℕ, zero, suc, ◌+◌, Bool, true, false, not, ◌&&◌, List, [], ◌∷◌, ◌++◌, map, Option, none, some,
  ltb, ◌==◌, ◌=str=◌, if◌then◌else◌, length, get_elem?, codes, take, Result, ok, raise, fault,
  ◌>>=◌,
}
use tiny_dbms.StdMap.{find, assign, string_key}
use tiny_dbms.Memory.Words.{rounds}
use tiny_dbms.Value.{Value, ValueType, raw_value_t, of_raw, get_enum_type}
use tiny_dbms.Value.Compare.{Floats}
use tiny_dbms.Value.Convert.{init_value, to_string, size_to_string}
use tiny_dbms.Table.{ColumnTable, Columns}
use tiny_dbms.Sql.{Column, CompareCondition, Comparator, success, failure, SqlResponse}
use tiny_dbms.Ast.{SelectFromOneTableSql}
use tiny_dbms.Scan.{Tagged}
use tiny_dbms.Join.{Row, inner_join_columns}
use tiny_dbms.Storage.Watcher.{LockWatcher, Progress, finished, Step}
use tiny_dbms.Access.{Db, get_table, array_at, filter_load, answer, ◌>>→◌}
use tiny_dbms.Operate.{check_table_exists, check_cols_exists}

-- GetColumnValueType looks at the columns from the last to the first, and then once more, at number
-- -1, which is outside of the array.
unfoldable pub type_loop : ℕ → Columns → List ℕ → Result ValueType
type_loop zero columns col_name = fault
type_loop (suc k) columns col_name = do
  name ← array_at columns.column_name_array k
  elim (name =str= col_name) [
    | false ↦ type_loop k columns col_name
    | true ↦ do type_number ← array_at columns.column_type_array k; get_enum_type type_number
  ]

-- The loop is not entered for a negative amount.
unfoldable pub get_column_value_type : ℕ → Columns → List ℕ → Result ValueType
get_column_value_type column_size columns col_name =
    if ltb column_size 2_147_483_648 then type_loop column_size columns col_name else ok raw_value_t

-- BuildAllCols from column `i` on, `n` columns being left.
unfoldable pub build_all_cols : ℕ → ℕ → Columns → Result (List Column)
build_all_cols zero i columns = ok []
build_all_cols (suc n) i columns = do
  name ← array_at columns.column_name_array i
  type_number ← array_at columns.column_type_array i
  type ← get_enum_type type_number
  rest ← build_all_cols n (suc i) columns
  ok (record { col_name = name; value_type = some type; col_length = none } ∷ rest)

unfoldable pub set_condition_cols_value_type :
    ColumnTable → List CompareCondition → Result (List CompareCondition)
set_condition_cols_value_type table [] = ok []
set_condition_cols_value_type table (c ∷ conditions) = do
  type ← get_column_value_type table.column_size table.columns c.col.col_name
  rest ← set_condition_cols_value_type table conditions
  ok (record c { col = record c.col { value_type = some type } } ∷ rest)

-- The columns are copies, so that their types are not kept.
unfoldable pub check_conditions_cols_exist : ColumnTable → List CompareCondition → Result Bool
check_conditions_cols_exist table conditions = do
  (found, cols) ← check_cols_exists table (map (λ (c : CompareCondition). c.col) conditions)
  ok found

-- The conditions on each column, in their order.
unfoldable pub init_condition_map :
    List (List ℕ × List CompareCondition)
    → List CompareCondition
    → List (List ℕ × List CompareCondition)
init_condition_map conditions_map [] = conditions_map
init_condition_map conditions_map (c ∷ conditions) =
    init_condition_map
      (assign c.col.col_name
        (elim (find c.col.col_name conditions_map) [ none ↦ c ∷ [] | some cs ↦ cs ++ (c ∷ []) ])
        conditions_map)
      conditions

-- GetConditionOnCol takes the first of the conditions on the column.
unfoldable pub get_condition_on_col :
    List (List ℕ × List CompareCondition) → List ℕ → Result (Option CompareCondition)
get_condition_on_col conditions_map col_name = elim (find col_name conditions_map) [
  | none ↦ ok none
  | some [] ↦ fault
  | some (c ∷ cs) ↦ ok (some c)
]

-- CheckColSelected on the map that InitSelectedColsMap has made of the columns.
unfoldable pub check_col_selected : List Column → List ℕ → Bool
check_col_selected [] col_name = false
check_col_selected (c ∷ columns) col_name =
    let rest = check_col_selected columns col_name in
    if c.col_name =str= col_name then true else rest

-- MergeUsedCols: the columns of conditions that are not selected are added; the map stays as it was.
unfoldable pub merge_used_cols : List Column → List CompareCondition → List Column → List Column
merge_used_cols selected [] columns = columns
merge_used_cols selected (c ∷ conditions) columns =
    merge_used_cols selected conditions
      (if check_col_selected selected c.col.col_name then columns else columns ++ (c.col ∷ []))

-- `SerializeRowsHeader(vector<Column>&)`.
unfoldable pub serialize_rows_header : List ℕ → List Column → List ℕ
serialize_rows_header header_str [] = header_str
serialize_rows_header header_str (c ∷ columns) =
    serialize_rows_header (header_str ++ (c.col_name ++ codes " | ")) columns

module _ (fl : Floats) where
  -- include/meta/value_tag.h: Row::ToString(selected_amount), from one value on.
  unfoldable pub values_to_string : ℕ → List Value → List ℕ → Result (List ℕ)
  values_to_string zero values result = ok result
  values_to_string (suc selected_amount) [] result = ok result
  values_to_string (suc selected_amount) (item ∷ values) result = do
    text ← to_string fl item
    values_to_string selected_amount values (result ++ (text ++ codes " | "))

  unfoldable pub row_to_string : ℕ → Row → Result (List ℕ)
  row_to_string selected_amount row = values_to_string selected_amount row.values (codes "| ")

  unfoldable pub row_to_string_with_tag : ℕ → Row → Result (List ℕ)
  row_to_string_with_tag selected_amount row =
      values_to_string selected_amount row.values
        (size_to_string row.tag ++ (codes ": " ++ codes "| "))

  unfoldable pub serialize_data : List Row → ℕ → Bool → List ℕ → Result (List ℕ)
  serialize_data [] amount tag_open records_data = ok records_data
  serialize_data (item ∷ result) amount tag_open records_data = do
    text ← elim tag_open [
      | true ↦ row_to_string_with_tag amount item
      | false ↦ row_to_string amount item
    ]
    serialize_data result amount tag_open (records_data ++ (text ++ codes "\n"))

  -- What FilterLoad is called with. That InitValue fails is not noticed: the value stays raw.
  unfoldable pub load_argument :
      List (List ℕ × List CompareCondition) → Column → Result (Option (Comparator × Value))
  load_argument conditions_map column = do
    con ← get_condition_on_col conditions_map column.col_name
    elim con [
      | none ↦ ok none
      | some c ↦ (elim column.value_type [
        | none ↦ fault
        | some type ↦ do
          (converted, comp_val) ← init_value fl (of_raw c.compare_value) type
          ok (some (c.condition, comp_val))
      ])
    ]

  unfoldable pub load_columns :
      ℕ
      → LockWatcher
      → Db
      → List ℕ
      → List (List ℕ × List CompareCondition)
      → List Column
      → List (List Tagged)
      → Step (List (List Tagged))
  load_columns fuel w db table_name conditions_map [] cols = ok (w, finished cols)
  load_columns fuel w db table_name conditions_map (column ∷ columns) cols = do
    argument ← load_argument conditions_map column
    filter_load fl fuel w db table_name column.col_name argument >>→ λ w' col_records.
        load_columns fuel w' db table_name conditions_map columns (cols ++ (col_records ∷ []))

  abbrev pub not_exist : List ℕ → SqlResponse
  not_exist table_name = answer failure (codes "table " ++ (table_name ++ codes " not exist"))

  unfoldable pub select_cols_with_condition :
      ℕ → LockWatcher → Db → List ℕ → List Column → List CompareCondition → Step SqlResponse
  select_cols_with_condition fuel w db table_name columns conditions =
      elim (check_table_exists db table_name) [
        | none ↦ ok (w, finished (not_exist table_name))
        | some table ↦ do
          conditions' ← set_condition_cols_value_type table conditions
          let conditions_map = init_condition_map [] conditions'
          let columns' = merge_used_cols columns conditions' columns
          load_columns fuel w db table_name conditions_map columns' [] >>→ λ w' cols. (do
            rows ← inner_join_columns [] cols
            text ← serialize_data rows (length columns) false []
            ok (
              w',
              finished (
                  answer success
                    (serialize_rows_header (codes "| ") columns' ++ (codes "\n" ++ text))),
            ))
      ]

  -- SELECT of all columns, and of some. A column that the table does not have is answered through a
  -- pointer that is not set.
  unfoldable pub select_all :
      ℕ → LockWatcher → Db → SelectFromOneTableSql → ColumnTable → Step SqlResponse
  select_all fuel w db sql table = do
    selected_columns ← build_all_cols (rounds table.column_size) 0 table.columns
    conditions ← set_condition_cols_value_type table sql.compare_vector
    select_cols_with_condition fuel w db sql.table_name selected_columns conditions

  unfoldable pub select_some :
      ℕ → LockWatcher → Db → SelectFromOneTableSql → ColumnTable → Step SqlResponse
  select_some fuel w db sql table = do
    (found, columns) ← check_cols_exists table sql.columns
    elim found [
      | false ↦ fault
      | true ↦ do
        conditions_found ← check_conditions_cols_exist table sql.compare_vector
        elim conditions_found [
          | false ↦ fault
          | true ↦ select_cols_with_condition fuel w db sql.table_name columns sql.compare_vector
        ]
    ]

  unfoldable pub execute_select : ℕ → LockWatcher → Db → SelectFromOneTableSql → Step SqlResponse
  execute_select fuel w db sql = elim (get_table db.tables sql.table_name) [
    | none ↦
        ok (w, finished (answer failure (codes "Db don't have table named " ++ sql.table_name)))
    | some table ↦ (elim sql.columns [
      | [] ↦ select_some fuel w db sql table
      | c ∷ [] ↦
          if c.col_name =str= codes "*"
          then select_all fuel w db sql table
          else select_some fuel w db sql table
      | c ∷ d ∷ columns ↦ select_some fuel w db sql table
    ])
  ]

  -- SelectCols, the same with no conditions and all values of the rows.
  unfoldable pub load_all_columns :
      ℕ → LockWatcher → Db → List ℕ → List Column → List (List Tagged) → Step (List (List Tagged))
  load_all_columns fuel w db table_name [] cols = ok (w, finished cols)
  load_all_columns fuel w db table_name (column ∷ columns) cols =
      filter_load fl fuel w db table_name column.col_name none >>→ λ w' col_records.
      load_all_columns fuel w' db table_name columns (cols ++ (col_records ∷ []))

  unfoldable pub serialize_all_data : List Row → List ℕ → Result (List ℕ)
  serialize_all_data [] records_data = ok records_data
  serialize_all_data (item ∷ result) records_data = do
    text ← row_to_string (length item.values) item
    serialize_all_data result (records_data ++ (text ++ codes "\n"))

  unfoldable pub select_cols : ℕ → LockWatcher → Db → List ℕ → List Column → Step SqlResponse
  select_cols fuel w db table_name columns = elim (check_table_exists db table_name) [
    | none ↦ ok (w, finished (not_exist table_name))
    | some table ↦ load_all_columns fuel w db table_name columns [] >>→ λ w' cols. (do
      rows ← inner_join_columns [] cols
      text ← serialize_all_data rows []
      ok (
        w',
        finished
            (answer success (serialize_rows_header (codes "| ") columns ++ (codes "\n" ++ text))),
      ))
  ]
