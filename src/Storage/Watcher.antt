-- ===== src/Storage/Watcher.antt =====
-- include/storage/memory/lock_watcher.cpp for data blocks: a step for each call that a thread makes.
-- A call holds the mutex of the map from beginning to end, unless it waits or forgets to unlock.
use tiny_dbms.Base.{
  ℕ, zero, suc, Bool, true, false, List, ◌==◌, if◌then◌else◌, Option, none, some, Result, ok, fault,
  ◌>>=◌,
}
use tiny_dbms.Memory.Words.{add_int, sub_int}
use tiny_dbms.StdMap.{find, assign, erase, string_key}
use tiny_dbms.DataBlock.{DataBlock, deserialize_from_buffer, serialize}
use tiny_dbms.Storage.Files.{
  Files, open_data_file, get_table_data_file, read_from_file, write_back_block,
  get_new_block_address,
}
use tiny_dbms.Storage.Pool.{
  Lock, free, shared, exclusive, SlotSign, BlockSlot, BufferPool, slot_at, set_slot, known,
  get_free_slot, release_slot, clear, sign_key,
}

-- The map's mutex is locked or not. No throw of a call is caught by the threads that go on after it.
pub record LockWatcher : Type 0 where
  pub pool : BufferPool
  pub slots_map : List (SlotSign × ℕ)
  pub map_locked : Bool
  pub files : Files
  pub install_path : List ℕ

-- How far a call gets: it returns, or the thread waits for a mutex or for the pool to have space.
pub data Progress {ℓ} (A : Type ℓ) : Type ℓ where
  finished : A → Progress A
  waits_for_map waits_for_slot waits_for_space : Progress A

abbrev pub Step {ℓ} : Type ℓ → Type ℓ
Step A = Result (LockWatcher × Progress A)

-- The block, and the slot that its data pointer points into.
abbrev pub Loaded : Type 0
Loaded = DataBlock × ℕ

unfoldable pub get_sign : List ℕ → List ℕ → ℕ → SlotSign
get_sign db_name table_name offset = record {
  db_name = db_name;
  table_name = table_name;
  block_offset = offset;
}

-- `shared n` is held by n + 1 readers.
unfoldable pub lock_shared : Lock → Option Lock
lock_shared free = some (shared 0)
lock_shared (shared n) = some (shared (suc n))
lock_shared exclusive = none

unfoldable pub lock_exclusive : Lock → Option Lock
lock_exclusive free = some exclusive
lock_exclusive (shared n) = none
lock_exclusive exclusive = none

-- Unlocking what is not locked is undefined behaviour.
unfoldable pub unlock_shared : Lock → Result Lock
unlock_shared (shared zero) = ok free
unlock_shared (shared (suc n)) = ok (shared n)
unlock_shared free = fault
unlock_shared exclusive = fault

unfoldable pub unlock_exclusive : Lock → Result Lock
unlock_exclusive exclusive = ok free
unlock_exclusive free = fault
unlock_exclusive (shared n) = fault

abbrev pub with_slot : LockWatcher → ℕ → BlockSlot → LockWatcher
with_slot w i slot = record w { pool = record w.pool { slots = set_slot w.pool.slots i slot } }

-- The sign is in the map: the call returns with the mutex of the map locked.
unfoldable pub load_present :
    (Lock → Option Lock) → (Option ℕ → Result ℕ) → LockWatcher → ℕ → DataBlock → Step Loaded
load_present acquire users w i block = do
  slot ← slot_at w.pool.slots i
  elim (acquire slot.lock) [
    | none ↦ ok (record w { map_locked = true }, waits_for_slot)
    | some l ↦ do
      amount ← users slot.user_amount
      let taken = record slot { lock = l; in_use = some true; user_amount = some amount }
      loaded ← deserialize_from_buffer (record block { memory = slot.memory }) slot.memory
      ok (record (with_slot w i taken) { map_locked = true }, finished (loaded, i))
  ]

-- The sign is not in the map: a free slot is taken, and the block is read from the file.
unfoldable pub load_absent :
    (Lock → Option Lock) → (Option ℕ → Result ℕ) → LockWatcher → SlotSign → DataBlock → Step Loaded
load_absent acquire users w sign block = do
  (pool, found) ← get_free_slot w.pool
  elim found [
    | none ↦ ok (record w { pool = pool }, waits_for_space)
    | some i ↦ do
      slot ← slot_at pool.slots i
      elim (acquire slot.lock) [
        | none ↦ ok (record w { pool = pool; map_locked = true }, waits_for_slot)
        | some l ↦ do
          amount ← users slot.user_amount
          file ←
              open_data_file (get_table_data_file w.install_path sign.db_name sign.table_name)
                w.files
          let memory = read_from_file file sign.block_offset slot.memory
          loaded ← deserialize_from_buffer (record block { memory = memory }) memory
          let taken = record slot {
            memory = memory;
            lock = l;
            in_use = some true;
            user_amount = some amount;
          }
          ok (
            record (with_slot (record w { pool = pool }) i taken) {
              slots_map = assign sign i w.slots_map;
            },
            finished (loaded, i),
          )
      ]
  ]

unfoldable pub load_block :
    (Lock → Option Lock) → (Option ℕ → Result ℕ) → LockWatcher → SlotSign → DataBlock → Step Loaded
load_block acquire users w sign block =
    if w.map_locked then ok (w, waits_for_map) else elim (find sign w.slots_map) [
      | some i ↦ load_present acquire users w i block
      | none ↦ load_absent acquire users w sign block
    ]

-- A reader is counted; a writer is the only user.
abbrev pub one_user_more : Option ℕ → Result ℕ
one_user_more users = do n ← known users; ok (add_int n 1)

abbrev pub one_user : Option ℕ → Result ℕ
one_user users = ok 1

unfoldable pub load_block_for_read : LockWatcher → List ℕ → List ℕ → ℕ → DataBlock → Step Loaded
unfolding load_block
load_block_for_read w db_name table_name offset block =
    load_block lock_shared one_user_more w (get_sign db_name table_name offset) block

unfoldable pub load_block_for_write : LockWatcher → List ℕ → List ℕ → ℕ → DataBlock → Step Loaded
unfolding load_block
load_block_for_write w db_name table_name offset block =
    load_block lock_exclusive one_user w (get_sign db_name table_name offset) block

-- The entry of the map is erased whether or not other readers remain.
unfoldable pub release_reading_block : LockWatcher → List ℕ → List ℕ → ℕ → Step (Unit {0})
release_reading_block w db_name table_name offset =
    if w.map_locked
    then ok (w, waits_for_map)
    else elim (find (get_sign db_name table_name offset) w.slots_map) [
      | none ↦ ok (w, finished tt)
      | some i ↦ do
        slot ← slot_at w.pool.slots i
        l ← unlock_shared slot.lock
        amount ← known slot.user_amount
        let users = sub_int amount 1
        let left = record slot {
          user_amount = some users;
          in_use = (if users == 0 then some false else slot.in_use);
          lock = l;
        }
        ok (
          record (with_slot w i left) {
            slots_map = erase (get_sign db_name table_name offset) w.slots_map;
          },
          finished tt,
        )
    ]

-- The header is serialized into the slot that the block's pointer points into; what is written is
-- the slot that the map holds.
unfoldable pub release_writing_block : LockWatcher → List ℕ → List ℕ → ℕ → Loaded → Step (Unit {0})
release_writing_block w db_name table_name offset (block, i) = do
  stored ← serialize block
  own ← slot_at w.pool.slots i
  let w' = with_slot w i (record own { memory = stored.memory })
  if w'.map_locked
      then ok (w', waits_for_map)
      else elim (find (get_sign db_name table_name offset) w'.slots_map) [
        | none ↦ ok (w', finished tt)
        | some j ↦ do
          slot ← slot_at w'.pool.slots j
          file ← open_data_file (get_table_data_file w.install_path db_name table_name) w'.files
          l ← unlock_exclusive slot.lock
          let left = record (release_slot slot) { lock = l }
          ok (
            record (with_slot w' j left) {
              slots_map = erase (get_sign db_name table_name offset) w'.slots_map;
              files =
                  assign (get_table_data_file w.install_path db_name table_name)
                    (write_back_block file offset slot.memory) w'.files;
            },
            finished tt,
          )
      ]

-- The new block is cleared, its address computed from the length of the file; nothing is written.
unfoldable pub create_new_block : LockWatcher → List ℕ → List ℕ → DataBlock → Step (Loaded × ℕ)
create_new_block w db_name table_name block =
    if w.map_locked
    then ok (w, waits_for_map)
    else let (files, address) =
        get_new_block_address (get_table_data_file w.install_path db_name table_name) w.files in
      do
        (pool, found) ← get_free_slot w.pool
        elim found [
          | none ↦ ok (record w { pool = pool; files = files }, waits_for_space)
          | some i ↦ do
            slot ← slot_at pool.slots i
            elim (lock_exclusive slot.lock) [
              | none ↦
                  ok (record w { pool = pool; files = files; map_locked = true }, waits_for_slot)
              | some l ↦ do
                amount ← known slot.user_amount
                let taken = clear (record slot {
                  lock = l;
                  in_use = some true;
                  user_amount = some (add_int amount 1);
                })
                ok (
                  record (with_slot (record w { pool = pool; files = files }) i taken) {
                    slots_map = assign (get_sign db_name table_name address) i w.slots_map;
                  },
                  finished ((record block { memory = taken.memory }, i), address),
                )
            ]
        ]
