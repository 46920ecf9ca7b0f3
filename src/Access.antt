-- ===== src/Access.antt =====
-- The parts of include/sql/executer/operator.h that walk the chain of blocks of a column: the
-- look-ups in a database, the loads that filter, and InsertIntoTable.
pub mod Lookup
pub mod Chain
pub mod Load
pub mod Filter
pub mod Grow
pub mod Steps
pub mod Place
pub mod Insert
pub mod Reread
use tiny_dbms.Base.{
  ℕ, zero, suc, ◌+◌, Bool, true, false, not, List, [], ◌∷◌, ◌==◌, ◌=str=◌, if◌then◌else◌, get_elem?,
  codes, replicate, Option, none, some, Result, ok, raise, fault, missing_column, null_block,
  out_of_fuel, require, in_bounds, ◌>>=◌, ◌>>◌,
}
use tiny_dbms.Memory.Words.{rounds, lt_int, add_int}
use tiny_dbms.Value.{Value, ValueType, get_enum_type, enum_number, get_value_length, serialize}
use tiny_dbms.Value.Compare.{Floats}
use tiny_dbms.DataBlock.{DataBlock, have_space, init_block, insert_data}
use tiny_dbms.Table.{ColumnTable, Columns}
use tiny_dbms.Sql.{Comparator, SqlState, SqlResponse, success, failure}
use tiny_dbms.Scan.{Tagged, Scanned, serialize_op, filter_op, filter_equal_op}
use tiny_dbms.Storage.Watcher.{
  LockWatcher, Progress, finished, waits_for_map, waits_for_slot, waits_for_space, Step, Loaded,
  load_block_for_read, load_block_for_write, release_reading_block, release_writing_block,
  create_new_block,
}

-- include/meta/db/db.h, the fields that the look-ups read.
pub record Db : Type 0 where
  pub db_name : List ℕ
  pub tables : List ColumnTable

-- What follows a call that has returned. A thread that waits goes no further.
infixl 5 ◌>>→◌
unfoldable pub ◌>>→◌ {ℓ κ} :
    {A : Type ℓ} {B : Type κ} → Step A → (LockWatcher → A → Step B) → Step B
m >>→ f = m >>= λ (w, p). elim p [
  | finished a ↦ f w a
  | waits_for_map ↦ ok (w, waits_for_map)
  | waits_for_slot ↦ ok (w, waits_for_slot)
  | waits_for_space ↦ ok (w, waits_for_space)
]

unfoldable pub array_at {ℓ} : {A : Type ℓ} → List A → ℕ → Result A
array_at array i = elim (get_elem? array i) [ none ↦ fault | some a ↦ ok a ]

unfoldable pub get_table : List ColumnTable → List ℕ → Option ColumnTable
get_table [] table_name = none
get_table (t ∷ tables) table_name =
    let rest = get_table tables table_name in if t.table_name =str= table_name then some t else rest

-- The loop over the names; `column_offset` is still 0 if none is the name.
unfoldable pub column_loop : ℕ → ℕ → List (List ℕ) → List ℕ → Result ℕ
column_loop zero i names column_name = ok 0
column_loop (suc n) i [] column_name = fault
column_loop (suc n) i (name ∷ names) column_name =
    let rest = column_loop n (suc i) names column_name in
    if name =str= column_name then ok i else rest

unfoldable pub get_column : Db → List ℕ → List ℕ → Result (Option (ColumnTable × ℕ))
get_column db table_name column_name = elim (get_table db.tables table_name) [
  | none ↦ ok none
  | some table ↦
      (column_loop (rounds table.column_size) 0 table.columns.column_name_array column_name
        >>= λ column_offset.
            if lt_int column_offset table.column_size
            then ok (some (table, column_offset))
            else ok none)
]

-- The members of a block on the stack are set by the load before they are read.
abbrev pub no_block : DataBlock
no_block = record {
  field_length = 0;
  field_data_nums = 0;
  last_record_start_address = 0;
  next_block_pointer = 0;
  memory = [];
}

-- The block and its address. Whether another one follows is the test of its pointer.
unfoldable pub load_first_data_block_for_read :
    LockWatcher → Db → List ℕ → List ℕ → DataBlock → Step (Loaded × ℕ)
load_first_data_block_for_read w db table_name col_name block = do
  found ← get_column db table_name col_name
  elim found [
    | none ↦ raise missing_column
    | some (table, column_offset) ↦ do
      first_block_offset ← array_at table.columns.column_storage_address_array column_offset
      load_block_for_read w db.db_name table_name first_block_offset block >>→ λ w' loaded.
          ok (w', finished (loaded, first_block_offset))
  ]

unfoldable pub load_data_blocks_for_read : LockWatcher → Db → List ℕ → ℕ → DataBlock → Step Loaded
load_data_blocks_for_read w db table_name block_address block =
    if block_address == 0
    then raise null_block
    else load_block_for_read w db.db_name table_name block_address block

-- What a load does with each block.
abbrev pub BlockOp : Type 0
BlockOp = DataBlock → List Tagged → ℕ → Result Scanned

module _ (op : BlockOp) (db : Db) (table_name : List ℕ) where
  -- `while (has_next)`.
  unfoldable pub filter_rest : ℕ → LockWatcher → DataBlock → List Tagged → ℕ → Step (List Tagged)
  filter_rest zero w block results tag = raise out_of_fuel
  filter_rest (suc fuel) w block results tag =
      if block.next_block_pointer == 0
      then ok (w, finished results)
      else (load_data_blocks_for_read w db table_name block.next_block_pointer block
          >>→ λ w' (block', i).
              (op block' results tag >>= λ (results', tag').
              (release_reading_block w' db.db_name table_name block.next_block_pointer
                >>→ λ w'' done. filter_rest fuel w'' block' results' tag')))

  unfoldable pub filter_blocks : ℕ → LockWatcher → List ℕ → Step (List Tagged)
  filter_blocks fuel w col_name =
      load_first_data_block_for_read w db table_name col_name no_block
      >>→ λ w' ((block, i), first_block_offset).
          (op block [] 0 >>= λ (results, tag).
          (release_reading_block w' db.db_name table_name first_block_offset >>→ λ w'' done.
          filter_rest fuel w'' block results tag))

unfoldable pub filter_equal :
    Floats → ℕ → LockWatcher → Db → List ℕ → List ℕ → Value → Step (List Tagged)
filter_equal fl fuel w db table_name col_name eq_value =
    filter_blocks (λ b. filter_equal_op fl b eq_value) db table_name fuel w col_name

-- With no comparator the look-up of the column's type is not tested: a null table is read.
unfoldable pub filter_load :
    Floats
    → ℕ
    → LockWatcher
    → Db
    → List ℕ
    → List ℕ
    → Option (Comparator × Value)
    → Step (List Tagged)
filter_load fl fuel w db table_name col_name none = do
  found ← get_column db table_name col_name
  elim found [
    | none ↦ fault
    | some (table, column_offset) ↦ do
      type_number ← array_at table.columns.column_type_array column_offset
      value_type ← get_enum_type type_number
      filter_blocks (λ b. serialize_op b value_type) db table_name fuel w col_name
  ]
filter_load fl fuel w db table_name col_name (some (comparator, compare_value)) =
    filter_blocks (λ b. filter_op fl b comparator compare_value) db table_name fuel w col_name

abbrev pub answer : SqlState → List ℕ → SqlResponse
answer state text = record { sql_state = state; information = text }

-- `while (data_block->next_block_pointer != 0x0)`: the last block of the chain, with its address.
unfoldable pub last_block : ℕ → LockWatcher → Db → List ℕ → ℕ → Loaded → Step (Loaded × ℕ)
last_block zero w db table_name read_offset loaded = raise out_of_fuel
last_block (suc fuel) w db table_name read_offset (block, i) =
    if block.next_block_pointer == 0
    then ok (w, finished ((block, i), read_offset))
    else (release_writing_block w db.db_name table_name read_offset (block, i) >>→ λ w' done.
        (load_block_for_write w' db.db_name table_name block.next_block_pointer block
          >>→ λ w'' loaded. last_block fuel w'' db table_name block.next_block_pointer loaded))

-- `InsertData` and the release of the block that it went to.
unfoldable pub insert_and_release :
    LockWatcher → Db → List ℕ → ℕ → Loaded → List ℕ → ℕ → Step (Unit {0})
insert_and_release w db table_name read_offset (block, i) value_c data_size = do
  block' ← insert_data block value_c data_size
  release_writing_block w db.db_name table_name read_offset (block', i)

-- A full block is followed by a new one. The column type VCHAR has the number 2.
unfoldable pub insert_in_last :
    LockWatcher → Db → List ℕ → ℕ → ℕ → Loaded → List ℕ → ℕ → Step (Unit {0})
insert_in_last w db table_name column_type read_offset (block, i) value_c data_size =
    if have_space block data_size
    then insert_and_release w db table_name read_offset (block, i) value_c data_size
    else (create_new_block w db.db_name table_name no_block
        >>→ λ w' ((new_block, j), new_block_offset).
            (let new_block' = init_block new_block (if column_type == 2 then 0 else data_size) in
              release_writing_block w' db.db_name table_name read_offset
                (record block { next_block_pointer = new_block_offset }, i)
              >>→ λ w'' done.
                  insert_and_release w'' db table_name new_block_offset (new_block', j) value_c
                    data_size))

-- The answer is written into the response; SUCCESS leaves its text.
unfoldable pub insert_into_table :
    ℕ → LockWatcher → Db → List ℕ → List ℕ → Value → SqlResponse → Step SqlResponse
insert_into_table fuel w db table_name column_name insert_value sql_response = do
  found ← get_column db table_name column_name
  elim found [
    | none ↦ ok (w, finished (answer failure (codes "Can not find table or column!")))
    | some (table, column_offset) ↦ do
      column_type ← array_at table.columns.column_type_array column_offset
      if not (enum_number insert_value.value_type == column_type)
          then ok (w, finished (answer failure (codes "Insert value is not column type!")))
          else do
            let data_size = get_value_length insert_value
            value_c ← serialize insert_value (replicate data_size 0) 0
            read_offset ← array_at table.columns.column_storage_address_array column_offset
            load_block_for_write w db.db_name table.table_name read_offset no_block >>→ λ w1 loaded.
                (last_block fuel w1 db table.table_name read_offset loaded
                  >>→ λ w2 (last, last_offset).
                      (insert_in_last w2 db table.table_name column_type last_offset last value_c
                          data_size
                        >>→ λ w3 done.
                            ok (w3, finished (record sql_response { sql_state = success }))))
  ]
