-- ===== src/Select/Rows.antt =====
-- SelectColsWithCondition: the rows that answer a SELECT, over columns that stand in their file, one
-- thread at work.
use tiny_dbms.Base.{
  ℕ, ◌<◌, ◌^◌, ◌≡◌, ap, ◌∙◌, List, [], ◌∷◌, ◌++◌, append_assoc, some, length, codes, ok,
}
use tiny_dbms.StdMap.{find, string_key}
use tiny_dbms.Memory.Buffer.{Buffer}
use tiny_dbms.Value.Compare.{Floats}
use tiny_dbms.DataBlock.{block_size}
use tiny_dbms.Table.{ColumnTable}
use tiny_dbms.Sql.{Column, CompareCondition, success}
use tiny_dbms.Scan.{Tagged}
use tiny_dbms.Join.{Row, inner_join_columns}
use tiny_dbms.Join.Columns.{RowsAscending, values_at}
use tiny_dbms.Join.Inner as Inner
use tiny_dbms.Join.Inner.{inner_join_columns_lem}
use tiny_dbms.Storage.Files.{Files, get_table_data_file}
use tiny_dbms.Storage.Pool.{BlockSlot}
use tiny_dbms.Storage.Watcher.{LockWatcher, finished}
use tiny_dbms.Access.{Db, get_table, answer, ◌>>→◌}
use tiny_dbms.Access.Chain.{resting}
use tiny_dbms.Select.{
  load_columns, select_cols_with_condition, set_condition_cols_value_type, init_condition_map,
  merge_used_cols, serialize_rows_header,
}
use tiny_dbms.Select.Spec.{AllTyped, set_types_lem, Unselected, merge_used_cols_lem}
use tiny_dbms.Select.Answer.{
  barred_names, serialize_rows_header_lem, HasText, HaveTexts, lines, serialize_data_lem,
}
use tiny_dbms.Select.Texts.{rows_hold}
use tiny_dbms.Select.Loads.{LoadsAll, LoadsAll-Ascending, LoadsAll-texts, load_columns_lem}

module _ (fl : Floats) (db : Db) (table_name install_path : List ℕ) (rest : List BlockSlot)
    (files : Files) (file : Buffer) (fuel : ℕ) (columns more : List Column)
    (conditions typed : List CompareCondition) (table : ColumnTable) where
  abbrev its_columns : List Column
  its_columns = columns ++ more

  abbrev its_answer : (rows : List Row) → HaveTexts fl rows → List ℕ
  its_answer rows texts =
      codes "| "
      ++ (barred_names its_columns ++ (codes "\n" ++ lines fl (length columns) rows texts))

  select_step :
      (w w1 : LockWatcher) (cols : List (List Tagged)) (rows : List Row) (texts : HaveTexts fl rows)
      → get_table db.tables table_name ≡ some table
      → set_condition_cols_value_type table conditions ≡ ok typed
      → merge_used_cols columns typed columns ≡ its_columns
      → load_columns fl fuel w db table_name (init_condition_map [] typed) its_columns []
        ≡ ok (w1, finished cols)
      → inner_join_columns [] cols ≡ ok rows
      → select_cols_with_condition fl fuel w db table_name columns conditions
        ≡ ok (w1, finished (answer success (its_answer rows texts)))
  unfolding select_cols_with_condition ◌>>→◌
  select_step w w1 cols rows texts found types merged loads joins =
      let text = serialize_data_lem fl rows (length columns) texts [] in
      let header : (serialize_rows_header (codes "| ") its_columns
            ++ (codes "\n" ++ lines fl (length columns) rows texts)
          ≡ its_answer rows texts) =
        ap (λ z. z ++ (codes "\n" ++ lines fl (length columns) rows texts))
          (serialize_rows_header_lem its_columns (codes "| "))
        ∙ append_assoc (codes "| ") (barred_names its_columns)
            (codes "\n" ++ lines fl (length columns) rows texts) in
      cc

  -- A SELECT with conditions, over columns that stand in the data file, answers SUCCESS, with one
  -- row for exactly the tags that the values of every column have, in the order of the tags. The columns
  -- are the selected ones and behind them those of the conditions that are not selected, one for each
  -- such condition. Each condition takes the type of the last column of its name, and a column gives the
  -- values that the first condition on it selects, or all without one. The answer has the names of
  -- all those columns and as many values of each row as columns were selected, a bar behind each
  -- name and value and a line for each row. Every block is given back, where no other thread has one.
  -- The table has less than 2^31 columns, the text of a condition reads as a value of the type that its
  -- column is given here, of which the column stores values, the comparisons are defined, and there is
  -- fuel for the blocks of each column.
  pub select_cols_with_condition_lem :
      (present : find (get_table_data_file install_path db.db_name table_name) files ≡ some file)
      (memory : Buffer) (read_list : List ℕ) (times : ℕ) (col : List Tagged)
      (cols : List (List Tagged))
      → length memory ≡ block_size
      → get_table db.tables table_name ≡ some table
      → table.column_size < 2 ^ 31
      → AllTyped table conditions typed
      → Unselected columns typed more
      → LoadsAll fl db table_name install_path rest files file fuel typed its_columns (col ∷ cols)
      → (rows : List Row) × (texts : HaveTexts fl rows) × (memory' : Buffer) × (read_list' : List ℕ)
        × (times' : ℕ) × (select_cols_with_condition fl fuel
              (resting db table_name install_path rest files file present memory read_list times)
              db
              table_name
              columns
              conditions
            ≡ ok (
              resting db table_name install_path rest files file present memory' read_list' times',
              finished (answer success (its_answer rows texts)),
            ))
        × RowsAscending 0 rows
        × ((j : ℕ) → values_at j rows ≡ Inner.all_values j (col ∷ cols))
        × (length memory' ≡ block_size)
  select_cols_with_condition_lem present memory read_list times col cols sized found small types
        others loads =
      let (memory', read_list', times', done, sized') =
        load_columns_lem fl db table_name install_path rest files file fuel typed present
          its_columns (col ∷ cols) [] memory read_list times sized loads in
      let (rows, joined, ascending, values) = inner_join_columns_lem col cols (
        LoadsAll-Ascending fl db table_name install_path rest files file fuel typed its_columns
          (col ∷ cols) loads) in
      let texts : HaveTexts fl rows = rows_hold (HasText fl) rows (col ∷ cols) ascending values (
        LoadsAll-texts fl db table_name install_path rest files file fuel typed its_columns
          (col ∷ cols) loads) in
      (
        rows,
        texts,
        memory',
        read_list',
        times',
        select_step _ _ (col ∷ cols) rows texts found
            (set_types_lem table conditions typed small types)
            (merge_used_cols_lem columns typed more columns others) done joined,
        ascending,
        values,
        sized',
      )
