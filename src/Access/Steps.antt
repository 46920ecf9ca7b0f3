-- ===== src/Access/Steps.antt =====
-- The rounds of InsertIntoTable, each from what its calls return.
use tiny_dbms.Base.{
  ℕ, suc, ◌≡◌, refl, ap, ◌∙◌, sym, List, arith, ok, raise, fault, some, false, true, ◌==◌,
  if◌then◌else◌, replicate,
}
use tiny_dbms.Memory.Words.{IsInt, IsSize}
use tiny_dbms.StdMap.{string_key}
use tiny_dbms.Value.{Value, enum_number, get_value_length, serialize as serialize_value}
use tiny_dbms.Table.{ColumnTable}
use tiny_dbms.Sql.{SqlResponse, success}
use tiny_dbms.DataBlock.{DataBlock, have_space, insert_data, init_block}
use tiny_dbms.Storage.Watcher.{
  LockWatcher, finished, waits_for_map, waits_for_slot, waits_for_space, Step, Loaded,
  load_block_for_write, release_writing_block, create_new_block,
}
use tiny_dbms.Access.{
  insert_into_table, array_at, get_column, Db, last_block, insert_in_last, insert_and_release,
  no_block, ◌>>→◌,
}

pub size-IsInt : (column_type size : ℕ) → IsSize size → IsInt (if column_type == 2 then 0 else size)
size-IsInt column_type size small = ground arith

pub empty_link : (b : DataBlock) (size : ℕ) → (init_block b size).next_block_pointer ≡ 0
unfolding init_block
empty_link b size = refl

-- One round of the search for the last block.
pub advance :
    {B : Type 0} (db : Db) (table_name : List ℕ) (fuel offset a i : ℕ) (w w' w'' : LockWatcher)
    (block : DataBlock) (loaded : Loaded) (k : LockWatcher → Loaded × ℕ → Step B)
    → block.next_block_pointer ≡ a
    → (a == 0) ≡ false
    → release_writing_block w db.db_name table_name offset (block, i) ≡ ok (w', finished tt)
    → load_block_for_write w' db.db_name table_name a block ≡ ok (w'', finished loaded)
    → (last_block (suc fuel) w db table_name offset (block, i) >>→ k)
      ≡ (last_block fuel w'' db table_name a loaded >>→ k)
unfolding last_block ◌>>→◌
advance db table_name fuel offset a i w w' w'' block loaded k e nonnull releases loads =
    let here = ap (λ n. n == 0) e ∙ nonnull in
    let loads' = ap (λ n. load_block_for_write w' db.db_name table_name n block) e ∙ loads in
    let same = ap (λ n. last_block fuel w'' db table_name n loaded >>→ k) e in
    rw (here, releases, loads') same

-- The search ends at the last block.
pub stop :
    {B : Type 0} (db : Db) (table_name : List ℕ) (fuel offset i : ℕ) (w : LockWatcher)
    (block : DataBlock) (k : LockWatcher → Loaded × ℕ → Step B)
    → block.next_block_pointer ≡ 0
    → (last_block (suc fuel) w db table_name offset (block, i) >>→ k) ≡ k w ((block, i), offset)
unfolding last_block ◌>>→◌
stop db table_name fuel offset i w block k e =
    let here : (block.next_block_pointer == 0) ≡ true = ap (λ n. n == 0) e in rw here refl

-- The two ways to insert.
pub with_room :
    (db : Db) (table_name : List ℕ) (column_type offset i : ℕ) (w : LockWatcher)
    (block block' : DataBlock) (value_c : List ℕ) (size : ℕ) (outcome : Step (Unit {0}))
    → have_space block size ≡ true
    → insert_data block value_c size ≡ ok block'
    → release_writing_block w db.db_name table_name offset (block', i) ≡ outcome
    → insert_in_last w db table_name column_type offset (block, i) value_c size ≡ outcome
unfolding insert_in_last insert_and_release
with_room db table_name column_type offset i w block block' value_c size outcome room inserts
      releases =
    rw (room, inserts) releases

pub without_room :
    (db : Db) (table_name : List ℕ) (column_type offset i j address : ℕ) (w w1 w2 : LockWatcher)
    (block made made' : DataBlock) (value_c : List ℕ) (size : ℕ) (outcome : Step (Unit {0}))
    → have_space block size ≡ false
    → create_new_block w db.db_name table_name no_block ≡ ok (w1, finished ((made, j), address))
    → release_writing_block w1 db.db_name table_name offset
        (record block { next_block_pointer = address }, i)
      ≡ ok (w2, finished tt)
    → insert_data (init_block made (if column_type == 2 then 0 else size)) value_c size ≡ ok made'
    → release_writing_block w2 db.db_name table_name address (made', j) ≡ outcome
    → insert_in_last w db table_name column_type offset (block, i) value_c size ≡ outcome
unfolding insert_in_last insert_and_release ◌>>→◌
without_room db table_name column_type offset i j address w w1 w2 block made made' value_c size
      outcome full creates links inserts releases =
    rw (full, creates, links, inserts) releases

pub bind_assoc :
    {A B C : Type 0} (m : Step A) (f : LockWatcher → A → Step B) (g : LockWatcher → B → Step C)
    → ((m >>→ f) >>→ g) ≡ (m >>→ λ w a. (f w a >>→ g))
unfolding ◌>>→◌
bind_assoc (ok (w, finished a)) f g = refl
bind_assoc (ok (w, waits_for_map)) f g = refl
bind_assoc (ok (w, waits_for_slot)) f g = refl
bind_assoc (ok (w, waits_for_space)) f g = refl
bind_assoc (raise e) f g = refl
bind_assoc fault f g = refl

pub bind_finished :
    {A B : Type 0} (m : Step A) (w : LockWatcher) (a : A) (f : LockWatcher → A → Step B)
    → m ≡ ok (w, finished a)
    → (m >>→ f) ≡ f w a
unfolding ◌>>→◌
bind_finished m w a f e = rw e refl

-- InsertIntoTable from what its calls return.
pub table_step :
    (db : Db) (table_name column_name : List ℕ) (table : ColumnTable)
    (column_offset column_type size a fuel : ℕ) (w w1 w3 : LockWatcher) (v : Value) (bytes : List ℕ)
    (loaded : Loaded) (response : SqlResponse)
    → get_column db table_name column_name ≡ ok (some (table, column_offset))
    → array_at table.columns.column_type_array column_offset ≡ ok column_type
    → (enum_number v.value_type == column_type) ≡ true
    → get_value_length v ≡ size
    → serialize_value v (replicate size 0) 0 ≡ ok bytes
    → array_at table.columns.column_storage_address_array column_offset ≡ ok a
    → load_block_for_write w db.db_name table.table_name a no_block ≡ ok (w1, finished loaded)
    → (last_block fuel w1 db table.table_name a loaded >>→ λ w2 (last, last_offset).
        insert_in_last w2 db table.table_name column_type last_offset last bytes size)
      ≡ ok (w3, finished tt)
    → insert_into_table fuel w db table_name column_name v response
      ≡ ok (w3, finished (record response { sql_state = success }))
unfolding insert_into_table
table_step db table_name column_name table column_offset column_type size a fuel w w1 w3 v bytes
      loaded response looked_up typed same long serialized begins loads runs =
    let tail =
      sym (
        bind_assoc (last_block fuel w1 db table.table_name a loaded)
          (λ w2 (last, last_offset).
            insert_in_last w2 db table.table_name column_type last_offset last bytes size)
          (λ w3 done. ok (w3, finished (record response { sql_state = success }))))
      ∙ bind_finished _ w3 tt _ runs in
    rw (looked_up, typed, same, long, serialized, begins) (bind_finished _ w1 loaded _ loads ∙ tail)
