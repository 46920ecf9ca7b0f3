-- ===== src/Tests/Columns.antt =====
-- A database with one table of one column, whose file holds one block.
use tiny_dbms.Base.{
  ℕ, ◌≡◌, ◌≢◌, refl, ap, ◌∙◌, true, false, List, [], ◌∷◌, arith, length, ok, codes, none, some,
  str_eq_refl, replicate, length-replicate,
}
use tiny_dbms.Memory.Buffer.{Buffer}
use tiny_dbms.StdMap.{find, assign, string_key, find-assign_self}
use tiny_dbms.Value.{of_int, int_t, enum_number, get_enum_type}
use tiny_dbms.DataBlock.{DataBlock, block_size, serialize, deserialize_from_buffer}
use tiny_dbms.DataBlock.Layout.{Holds}
use tiny_dbms.Sql.{SqlResponse, unsubmit, success, bigger}
use tiny_dbms.Table.{ColumnTable}
use tiny_dbms.Table.Bytes.{IsTable}
use tiny_dbms.Scan.Spec.{passes, numbered, kept, com_result}
use tiny_dbms.Storage.Files.{Files, write_back_block, get_table_data_file}
use tiny_dbms.Storage.Pool.{slot_at, sign_key, Lock, free, shared, exclusive}
use tiny_dbms.Storage.Disk.{StoredAt, StoredAt-next, StoredAt-written, length-behind}
use tiny_dbms.Storage.Watcher.{
  LockWatcher, finished, waits_for_map, waits_for_slot, get_sign, with_slot, load_block_for_read,
  load_block_for_write, release_reading_block, release_writing_block,
}
use tiny_dbms.Storage.Deadlock.{load_held-deadlock, load_shared-locks}
use tiny_dbms.DataBlock.Header.{serialize-Holds}
use tiny_dbms.Storage.Cycle.{at_rest, unused}
use tiny_dbms.Access.{Db, get_table, get_column, array_at, filter_load, insert_into_table}
use tiny_dbms.Access.Lookup.{first_place, get_column_lem}
use tiny_dbms.Access.Chain.{Chain, all_values, resting}
use tiny_dbms.Access.Filter.{ColumnHolds, filter_load_compare, filter_load_all}
use tiny_dbms.Access.Grow.{Aligned, Inserted}
use tiny_dbms.Access.Insert.{insert_into_table_lem}
use tiny_dbms.Tests.Blocks.{
  first_block, first_block-Holds, first_block_next, seven, seven-IsStored, nine-IsStored,
  length-nine,
}
use tiny_dbms.Tests.Scans.{some_floats, seven_five}

abbrev pub users : ColumnTable
users = record {
  table_name = codes "users";
  table_type = 0;
  column_size = 1;
  columns = record {
    column_name_array = codes "id" ∷ [];
    column_type_array = 0 ∷ [];
    column_length_array = 4 ∷ [];
    column_index_type_array = 0 ∷ [];
    column_storage_address_array = 0 ∷ [];
  };
}

pub users-IsTable : IsTable users
users-IsTable = record {
  size = omega arith;
  type_fits = omega arith;
  names = refl;
  types = refl;
  lengths = refl;
  index_types = refl;
  addresses = refl;
  type_ints = (omega arith, tt);
  length_ints = (omega arith, tt);
  index_type_ints = (omega arith, tt);
  address_ints = (omega arith, tt);
}

abbrev pub shop : Db
shop = record { db_name = codes "shop"; tables = users ∷ [] }

pub users_found : get_table shop.tables (codes "users") ≡ some users
unfolding get_table
users_found = rw (str_eq_refl (codes "users")) refl

get_column_lem_example :
    get_column shop (codes "users") (codes "id")
    ≡ ok (some (users, first_place (codes "id") (codes "id" ∷ []) 0))
get_column_lem_example =
    get_column_lem shop (codes "users") (codes "id") users users-IsTable users_found (omega arith)

first_id : first_place (codes "id") (codes "id" ∷ []) 0 ≡ 0
unfolding first_place
first_id = rw (str_eq_refl (codes "id")) refl

pub id_column : get_column shop (codes "users") (codes "id") ≡ ok (some (users, 0))
id_column =
    get_column_lem shop (codes "users") (codes "id") users users-IsTable users_found (omega arith)
    ∙ ap (λ k. ok (some (users, k))) first_id

abbrev disk_block :
    (c : DataBlock) × (serialize first_block ≡ ok c)
    × (length c.memory ≡ block_size)
    × StoredAt (write_back_block [] 0 c.memory) 0 first_block.next_block_pointer (seven ∷ [])
disk_block =
    StoredAt-written [] 0 first_block (seven ∷ []) first_block-Holds (omega arith) (omega arith)

abbrev pub file : Buffer
file = write_back_block [] 0 disk_block.0.memory

abbrev pub root : List ℕ
root = codes "/db"

abbrev pub path : List ℕ
path = get_table_data_file root (codes "shop") (codes "users")

abbrev pub files : Files
files = assign path file []

pub present : find path files ≡ some file
present = find-assign_self path file []

pub file-Aligned : Aligned file 1
file-Aligned = record {
  blocks =
      length-behind [] 0 disk_block.0.memory disk_block.2 (omega arith) (omega arith) (omega arith)
      ∙ omega arith;
  reachable = omega arith;
}

abbrev pub chain : Chain
chain = (0, of_int 7 ∷ []) ∷ []

unfoldable pub id_holds : ColumnHolds shop (codes "users") (codes "id") file int_t chain
unfolding array_at
id_holds = record {
  table = users;
  column_offset = 0;
  address = 0;
  first = of_int 7 ∷ [];
  others = [];
  looked_up = id_column;
  begins = refl;
  shape = refl;
  stands = (
    (
      seven ∷ [],
      StoredAt-next file 0 _ _ (seven ∷ []) first_block_next disk_block.3,
      ((seven-IsStored, refl), tt),
    ),
    (tt, tt),
  );
  few = omega arith;
}

abbrev pub slot_memory : Buffer
slot_memory = replicate 4096 0

pub slot_sized : length slot_memory ≡ block_size
slot_sized = length-replicate {A = ℕ} 4096 0

abbrev at_work : Buffer → List ℕ → ℕ → LockWatcher
at_work memory read_list times =
    resting shop (codes "users") root (unused slot_memory ∷ []) files file present memory read_list
      times

filter_load_compare_example :
    (memory' : Buffer) × (read_list' : List ℕ) × (times' : ℕ) × (filter_load some_floats 3
        (at_work slot_memory [] 0)
        shop
        (codes "users")
        (codes "id")
        (some (bigger, of_int 5))
      ≡ ok (
        at_work memory' read_list' times',
        finished
            (kept (λ v. passes bigger (com_result some_floats v (of_int 5))) 0 (all_values chain)),
      ))
    × (length memory' ≡ block_size)
unfolding of_int
filter_load_compare_example =
    filter_load_compare some_floats shop (codes "users") (codes "id") root (unused slot_memory ∷ [])
      files file present slot_memory [] 0 3 slot_sized bigger (of_int 5) chain id_holds
      (seven_five, tt) (omega arith)

filter_load_all_example :
    (memory' : Buffer) × (read_list' : List ℕ) × (times' : ℕ) × (filter_load some_floats 3
        (at_work slot_memory [] 0)
        shop
        (codes "users")
        (codes "id")
        none
      ≡ ok (at_work memory' read_list' times', finished (numbered 0 (all_values chain))))
    × (length memory' ≡ block_size)
unfolding array_at get_enum_type id_holds
filter_load_all_example =
    filter_load_all some_floats shop (codes "users") (codes "id") root (unused slot_memory ∷ [])
      files file present slot_memory [] 0 3 slot_sized int_t chain 0 id_holds refl refl
      (omega arith)

abbrev pub no_answer : SqlResponse
no_answer = record { sql_state = unsubmit; information = [] }

insert_into_table_lem_example :
    Inserted
      (insert_into_table 3
        (at_rest (unused slot_memory ∷ unused slot_memory ∷ []) [] 0 files root)
        shop
        (codes "users")
        (codes "id")
        (record (of_int 9) { raw_value = codes "9" })
        no_answer)
      (record no_answer { sql_state = success })
      root
      (get_table_data_file root (codes "shop") (codes "users"))
      []
      files
      file
      int_t
      (of_int 9)
      chain
unfolding array_at enum_number id_holds
insert_into_table_lem_example =
    insert_into_table_lem shop (codes "users") (codes "id") root [] files file 1 int_t (of_int 9)
      nine-IsStored (codes "9") chain id_holds slot_memory slot_memory [] 0 3 no_answer present
      file-Aligned refl refl (tt, tt) (omega (arith, length-nine)) slot_sized slot_sized
      (omega arith)

-- A watcher that has lent block 0 of the file, to a writer or to a reader.
abbrev lending : Lock → LockWatcher
lending l = record {
  pool = record {
    slots =
        record { memory = slot_memory; in_use = some true; user_amount = some 1; lock = l } ∷ [];
    slots_read_list = [];
    no_space_failure_times = some 0;
  };
  slots_map = assign (get_sign (codes "shop") (codes "users") 0) 0 [];
  map_locked = false;
  files = files;
  install_path = root;
}

lent_sign :
    (l : Lock) → find (get_sign (codes "shop") (codes "users") 0) (lending l).slots_map ≡ some 0
lent_sign l = find-assign_self (get_sign (codes "shop") (codes "users") 0) 0 []

not_free : exclusive ≢ free
not_free e = ground arith

load_held-deadlock_example :
    (stuck : LockWatcher) × (load_block_for_write
        (lending exclusive)
        (codes "shop")
        (codes "users")
        0
        first_block
      ≡ ok (stuck, waits_for_slot))
    × (release_reading_block stuck (codes "shop") (codes "users") 0 ≡ ok (stuck, waits_for_map))
    × (release_writing_block stuck (codes "shop") (codes "users") 0 (first_block, 0)
        ≡ ok (
          with_slot stuck 0 (record {
            memory = disk_block.0.memory;
            in_use = some true;
            user_amount = some 1;
            lock = exclusive;
          }),
          waits_for_map,
        ))
unfolding slot_at
load_held-deadlock_example =
    load_held-deadlock (lending exclusive) (codes "shop") (codes "users") 0 0 0 first_block
      first_block disk_block.0
      (record { memory = slot_memory; in_use = some true; user_amount = some 1; lock = exclusive })
      (record { memory = slot_memory; in_use = some true; user_amount = some 1; lock = exclusive })
      refl (lent_sign exclusive) refl not_free disk_block.1 refl

-- The bytes of a stored block stand in the slot of a reader.
abbrev saved :
    (c : DataBlock) × (serialize first_block ≡ ok c)
    × Holds c (seven ∷ [])
    × ((d : DataBlock) → deserialize_from_buffer d c.memory ≡ ok (record c { memory = d.memory }))
    × (c.next_block_pointer ≡ first_block.next_block_pointer)
saved = serialize-Holds first_block (seven ∷ []) first_block-Holds

abbrev reading : LockWatcher
reading = record (lending (shared 0)) {
  pool = record {
    slots =
        record {
          memory = saved.0.memory;
          in_use = some true;
          user_amount = some 1;
          lock = shared 0;
        }
        ∷ [];
    slots_read_list = [];
    no_space_failure_times = some 0;
  };
}

load_shared-locks_example :
    (after : LockWatcher) × (load_block_for_read reading
        (codes "shop")
        (codes "users")
        0
        first_block
      ≡ ok (after, finished (saved.0, 0)))
    × (release_reading_block after (codes "shop") (codes "users") 0 ≡ ok (after, waits_for_map))
unfolding slot_at
load_shared-locks_example =
    load_shared-locks reading (codes "shop") (codes "users") 0 0 0 1 first_block saved.0
      (record {
        memory = saved.0.memory;
        in_use = some true;
        user_amount = some 1;
        lock = shared 0;
      })
      refl (lent_sign (shared 0)) refl refl refl
      (saved.3 (record first_block { memory = saved.0.memory }))
