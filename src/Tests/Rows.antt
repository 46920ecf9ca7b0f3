-- ===== src/Tests/Rows.antt =====
-- Rows that are made, stored and selected, in the table of one column.
use tiny_dbms.Base.{
  ℕ, ◌≡◌, refl, inl, true, List, [], ◌∷◌, ◌++◌, arith, length, ok, ◌>>=◌, codes, none, some,
  ◌=str=◌,
}
use tiny_dbms.Memory.Words.{int_bytes}
use tiny_dbms.Memory.Buffer.{Buffer}
use tiny_dbms.StdMap.{string_key}
use tiny_dbms.Value.{Value, of_int, of_raw, int_t, get_enum_type, enum_number}
use tiny_dbms.Value.Compare.{compare_values}
use tiny_dbms.Value.Convert.{stoi, digits_to_int, read_digits, init_value, get_string_value}
use tiny_dbms.Value.Convert.Decimal.{init_value-get_string_value}
use tiny_dbms.DataBlock.{block_size}
use tiny_dbms.Sql.{SqlResponse, Column, CompareCondition, success, bigger}
use tiny_dbms.Scan.{Tagged}
use tiny_dbms.Scan.Spec.{passes, numbered, kept, com_result}
use tiny_dbms.Join.{Row}
use tiny_dbms.Join.Columns.{RowsAscending, values_at}
use tiny_dbms.Join.Inner as Inner
use tiny_dbms.Storage.Watcher.{LockWatcher, finished}
use tiny_dbms.Storage.Cycle.{at_rest, unused}
use tiny_dbms.Access.{array_at, answer, filter_load, insert_into_table}
use tiny_dbms.Access.Chain.{all_values, resting}
use tiny_dbms.Access.Reread.{insert-then-load}
use tiny_dbms.Operate.{joint_param_row}
use tiny_dbms.Operate.Row.{Cell, AllWanted, from_text, named_here, int_read, joint_param_row_lem}
use tiny_dbms.Ast.{local_column, new_column}
use tiny_dbms.Select.{select_cols_with_condition}
use tiny_dbms.Select.Spec.{AllTyped, last_named, selected_already, no_more, first_on}
use tiny_dbms.Select.Answer.{HaveTexts, lines}
use tiny_dbms.Select.Loads.{selected_of, LoadsAll}
use tiny_dbms.Select.Rows.{select_cols_with_condition_lem}
use tiny_dbms.Sql.Response.{serialize, deserialize, received, serialize-deserialize_response}
use tiny_dbms.Tests.Blocks.{nine-IsStored, length-nine}
use tiny_dbms.Tests.Scans.{some_floats}
use tiny_dbms.Tests.Columns.{
  users, shop, users_found, root, files, file, present, file-Aligned, chain, id_holds, slot_memory,
  slot_sized, no_answer,
}

-- -12.
init_value-get_string_value_example :
    (text : List ℕ) × (get_string_value some_floats (of_int 4_294_967_284) ≡ ok text)
    × (init_value some_floats (of_raw text) int_t
        ≡ ok (true, record (of_int 4_294_967_284) { raw_value = text }))
init_value-get_string_value_example =
    init_value-get_string_value some_floats 4_294_967_284 (omega arith)

insert-then-load_example :
    (w : LockWatcher) × (w' : LockWatcher) × (before : List Value) × (after : List Value)
    × (insert_into_table 3
          (at_rest (unused slot_memory ∷ unused slot_memory ∷ []) [] 0 files root)
          shop
          (codes "users")
          (codes "id")
          (record (of_int 9) { raw_value = codes "9" })
          no_answer
        ≡ ok (w, finished (record no_answer { sql_state = success })))
    × (all_values chain ≡ before ++ after)
    × (filter_load some_floats 4 w shop (codes "users") (codes "id") none
        ≡ ok (w', finished (numbered 0 (before ++ (of_int 9 ∷ after)))))
unfolding array_at enum_number get_enum_type id_holds
insert-then-load_example =
    insert-then-load some_floats shop (codes "users") (codes "id") root [] files file 1 int_t
      (of_int 9) nine-IsStored (codes "9") chain id_holds slot_memory slot_memory [] 0 3 no_answer
      present file-Aligned refl refl refl (tt, tt) (omega (arith, length-nine)) slot_sized
      slot_sized (omega arith) (omega arith)

-- INSERT INTO users (id) VALUES (7): the row is 7.
abbrev id_columns : List Column
id_columns = new_column (codes "id") ∷ []

abbrev seven_cell : Cell
seven_cell = record {
  name = codes "id";
  type = int_t;
  value = record (of_int 7) { raw_value = codes "7" };
}

seven_wanted : AllWanted some_floats id_columns users (of_raw (codes "7") ∷ []) 0 (seven_cell ∷ [])
unfolding array_at enum_number stoi digits_to_int read_digits of_int ◌=str=◌
seven_wanted = (
  refl,
  refl,
  from_text 0 (codes "7") (named_here (new_column (codes "id")) [] refl) refl (int_read 7 refl),
  tt,
  tt,
)

joint_param_row_lem_example :
    joint_param_row some_floats 1 0 users id_columns (of_raw (codes "7") ∷ [])
    ≡ ok (some (seven_cell.value ∷ []))
joint_param_row_lem_example =
    joint_param_row_lem some_floats id_columns users (of_raw (codes "7") ∷ []) 0 (seven_cell ∷ [])
      seven_wanted

-- SELECT id FROM users WHERE id > 5.
abbrev above_five : List CompareCondition
above_five =
    record { col = local_column (codes "id"); condition = bigger; compare_value = codes "5" } ∷ []

abbrev above_five_typed : List CompareCondition
above_five_typed =
    record {
      col = record (local_column (codes "id")) { value_type = some int_t };
      condition = bigger;
      compare_value = codes "5";
    }
    ∷ []

above_five_types : AllTyped users above_five above_five_typed
unfolding array_at enum_number
above_five_types = ((int_t, last_named 0 int_t refl refl, refl), tt)

abbrev five : Value
five = record (of_int 5) { raw_value = codes "5" }

abbrev above : List Tagged
above = kept (λ u. passes bigger (com_result some_floats u five)) 0 (all_values chain)

abbrev above_condition : CompareCondition
above_condition = record {
  col = record (local_column (codes "id")) { value_type = some int_t };
  condition = bigger;
  compare_value = codes "5";
}

id_loads :
    LoadsAll some_floats shop
      (codes "users")
      root
      (unused slot_memory ∷ [])
      files
      file
      3
      above_five_typed
      id_columns
      (above ∷ [])
unfolding stoi digits_to_int read_digits of_int compare_values
id_loads = (
  selected_of above_condition int_t five chain (first_on above_condition [] refl) refl
      (int_read 5 refl) id_holds ((2, refl), tt) (omega arith),
  tt,
)

select_cols_with_condition_lem_example :
    (rows : List Row) × (texts : HaveTexts some_floats rows) × (memory' : Buffer)
    × (read_list' : List ℕ) × (times' : ℕ) × (select_cols_with_condition some_floats 3
          (resting shop
            (codes "users")
            root
            (unused slot_memory ∷ [])
            files
            file
            present
            slot_memory
            []
            0)
          shop
          (codes "users")
          id_columns
          above_five
        ≡ ok (
          resting shop
              (codes "users")
              root
              (unused slot_memory ∷ [])
              files
              file
              present
              memory'
              read_list'
              times',
          finished (
              answer success
                (codes "| " ++ (codes "id | " ++ (codes "\n" ++ lines some_floats 1 rows texts)))),
        ))
    × RowsAscending 0 rows
    × ((j : ℕ) → values_at j rows ≡ Inner.all_values j (above ∷ []))
    × (length memory' ≡ block_size)
select_cols_with_condition_lem_example =
    select_cols_with_condition_lem some_floats shop (codes "users") root (unused slot_memory ∷ [])
      files file 3 id_columns [] above_five above_five_typed users present slot_memory [] 0 above []
      slot_sized users_found (omega arith) above_five_types
      (selected_already above_condition [] [] (inl refl) no_more) id_loads

-- An answer whose text ends with a zero byte.
abbrev fine : SqlResponse
fine = record { sql_state = success; information = codes "ok" ++ (0 ∷ []) }

serialize-deserialize_response_example :
    (serialize fine slot_memory >>= λ w. deserialize w.0)
    ≡ (received fine.information >>= λ text. ok (record fine { information = text }))
unfolding int_bytes
serialize-deserialize_response_example =
    serialize-deserialize_response fine slot_memory (omega (arith, slot_sized))
      (omega (arith, slot_sized))
