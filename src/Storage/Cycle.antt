-- ===== src/Storage/Cycle.antt =====
-- One thread that takes a block and gives it back, when nobody else has one.
use tiny_dbms.Base.{
  ℕ, ◌+◌, ◌*◌, ◌^◌, ◌≤◌, ◌<◌, ◌≡◌, refl, ◌∙◌, sym, true, false, List, [], ◌∷◌, ◌++◌, arith, length,
  codes, some, ok, str_eq_refl,
}
use tiny_dbms.Memory.Words.{is_negative-size}
use native.Mathlib.Nat.{mod-eq_of_lt}
use tiny_dbms.Memory.Buffer.{Buffer, slice, length-slice, patch_full}
use tiny_dbms.StdMap.{find, assign, erase, string_key}
use tiny_dbms.DataBlock.{DataBlock, block_size, deserialize_from_buffer, serialize}
use tiny_dbms.Storage.Files.{
  Files, open_file, open_data_file, get_table_data_file, get_default_table_path, read_from_file,
  write_back_block, after_last_dot,
}
use tiny_dbms.Storage.Pool.{
  Lock, free, shared, exclusive, SlotSign, BlockSlot, slot_at, set_slot, get_free_slot, first_free,
  read_one, release_slot, sign_key, same_sign_refl,
}
use tiny_dbms.Storage.Watcher.{
  LockWatcher, finished, get_sign, lock_shared, lock_exclusive, unlock_shared, unlock_exclusive,
  load_absent, load_block, load_block_for_read, load_block_for_write, release_reading_block,
  release_writing_block,
}

-- A watcher that has lent no block.
abbrev pub at_rest : List BlockSlot → List ℕ → ℕ → Files → List ℕ → LockWatcher
at_rest slots slots_read_list times files install_path = record {
  pool = record {
    slots = slots;
    slots_read_list = slots_read_list;
    no_space_failure_times = some times;
  };
  slots_map = [];
  map_locked = false;
  files = files;
  install_path = install_path;
}

-- A slot that nobody uses.
abbrev pub unused : Buffer → BlockSlot
unused memory = record { memory = memory; in_use = some false; user_amount = some 0; lock = free }

last_dot-append :
    (xs ds best : List ℕ) → after_last_dot (xs ++ (46 ∷ ds)) best ≡ after_last_dot ds ds
unfolding after_last_dot
last_dot-append [] ds best = refl
last_dot-append (x ∷ xs) ds best = last_dot-append xs ds _

-- The path of a data file has the suffix that the open function wants.
pub open_data_file_lem :
    (install_path db_name table_name : List ℕ) (files : Files) (file : Buffer)
    → find (get_table_data_file install_path db_name table_name) files ≡ some file
    → open_data_file (get_table_data_file install_path db_name table_name) files ≡ ok file
unfolding open_data_file open_file get_table_data_file after_last_dot
open_data_file_lem install_path db_name table_name files file h =
    let front = get_default_table_path install_path db_name ++ (codes "/data/" ++ table_name) in
    rw (
      last_dot-append front (codes "data") (front ++ codes ".data"),
      str_eq_refl (codes ".data"),
      h,
    )

module _ (install_path db_name table_name : List ℕ) (memory : Buffer) (rest : List BlockSlot)
    (slots_read_list : List ℕ) (times : ℕ) (files : Files) (file : Buffer)
    (present : find (get_table_data_file install_path db_name table_name) files ≡ some file)
    (sized : length memory ≡ block_size) (offset : ℕ)
    (low : offset * block_size + block_size < 2 ^ 31)
    (within : offset * block_size + block_size ≤ length file) where
  abbrev bytes : Buffer
  bytes = slice file (offset * block_size) block_size

  read_bytes : read_from_file file offset memory ≡ bytes
  unfolding read_from_file
  read_bytes =
      rw
        (
          mod-eq_of_lt {n = offset * block_size} {m = 2 ^ 32} (omega arith),
          is_negative-size (offset * block_size) (omega arith),
        )
        (patch_full memory bytes
          (length-slice file (offset * block_size) block_size within ∙ sym sized))

  abbrev start : LockWatcher
  start = at_rest (unused memory ∷ rest) slots_read_list times files install_path

  abbrev sign : SlotSign
  sign = record { db_name = db_name; table_name = table_name; block_offset = offset }

  -- The watcher with the block lent to one reader, or to a writer.
  abbrev pub lent : Lock → LockWatcher
  lent l = record {
    pool = record {
      slots = record { memory = bytes; in_use = some true; user_amount = some 1; lock = l } ∷ rest;
      slots_read_list = read_one 0 slots_read_list;
      no_space_failure_times = some 0;
    };
    slots_map = (sign, 0) ∷ [];
    map_locked = false;
    files = files;
    install_path = install_path;
  }

  module _ (block loaded : DataBlock)
      (parsed : deserialize_from_buffer (record block { memory = bytes }) bytes ≡ ok loaded) where
    pub load_read :
        load_block_for_read start db_name table_name offset block
        ≡ ok (lent (shared 0), finished (loaded, 0))
    unfolding load_block_for_read load_block load_absent get_free_slot first_free slot_at set_slot
        find assign get_sign lock_shared
    load_read =
        rw
          (
            open_data_file_lem install_path db_name table_name files file present,
            read_bytes,
            parsed,
          )
          refl

    pub load_write :
        load_block_for_write start db_name table_name offset block
        ≡ ok (lent exclusive, finished (loaded, 0))
    unfolding load_block_for_write load_block load_absent get_free_slot first_free slot_at set_slot
        find assign get_sign lock_exclusive
    load_write =
        rw
          (
            open_data_file_lem install_path db_name table_name files file present,
            read_bytes,
            parsed,
          )
          refl

  pub release_read :
      release_reading_block (lent (shared 0)) db_name table_name offset
      ≡ ok (
        at_rest (unused bytes ∷ rest) (read_one 0 slots_read_list) 0 files install_path,
        finished tt,
      )
  unfolding release_reading_block slot_at set_slot find erase get_sign unlock_shared
  release_read = rw (same_sign_refl sign, same_sign_refl sign) refl

  -- Any block that can be serialized and points into the slot.
  module _ (block stored : DataBlock) (serialized : serialize block ≡ ok stored) where
    pub release_write :
        release_writing_block (lent exclusive) db_name table_name offset (block, 0)
        ≡ ok (
          at_rest
              (unused stored.memory ∷ rest)
              (read_one 0 slots_read_list)
              0
              (assign
                (get_table_data_file install_path db_name table_name)
                (write_back_block file offset stored.memory)
                files)
              install_path,
          finished tt,
        )
    unfolding release_writing_block release_slot slot_at set_slot find erase get_sign
        unlock_exclusive
    release_write =
        rw
          (
            serialized,
            same_sign_refl sign,
            open_data_file_lem install_path db_name table_name files file present,
            same_sign_refl sign,
          )
          refl
