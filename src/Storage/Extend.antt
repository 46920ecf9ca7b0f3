-- ===== src/Storage/Extend.antt =====
-- One thread that holds the last block of a file for writing and makes a new one behind it.
use tiny_dbms.Base.{
  ℕ, ◌^◌, ◌<◌, ◌≡◌, refl, true, false, List, [], ◌∷◌, arith, replicate, some, ok, str_eq_refl,
}
use tiny_dbms.Memory.Buffer.{Buffer}
use tiny_dbms.StdMap.{find, assign, erase, string_key, string_before}
use tiny_dbms.DataBlock.{DataBlock, block_size, serialize}
use tiny_dbms.Storage.Files.{
  Files, get_table_data_file, write_back_block, get_new_block_address, new_block_address,
}
use tiny_dbms.Storage.Pool.{
  exclusive, SlotSign, BlockSlot, slot_at, set_slot, get_free_slot, first_free, read_one,
  release_slot, clear, sign_key, sign_before, same_sign, same_sign_refl,
}
use tiny_dbms.Storage.Watcher.{
  LockWatcher, finished, get_sign, lock_exclusive, unlock_exclusive, create_new_block,
  release_writing_block,
}
use tiny_dbms.Storage.Cycle.{at_rest, unused, open_data_file_lem}

string_before_refl : (xs : List ℕ) → string_before xs xs ≡ false
unfolding string_before
string_before_refl [] = refl
string_before_refl (x ∷ xs) = ground (arith, string_before_refl xs)

abbrev zeros : Buffer
zeros = replicate block_size 0

module _ (install_path db_name table_name : List ℕ) (memory bytes : Buffer) (rest : List BlockSlot)
    (read_list : List ℕ) (times : ℕ) (files : Files) (file : Buffer)
    (present : find (get_table_data_file install_path db_name table_name) files ≡ some file)
    (a n : ℕ) (fresh : new_block_address file ≡ n) (below : a < n) (small : n < 2 ^ 31) where
  abbrev sign_at : ℕ → SlotSign
  sign_at k = record { db_name = db_name; table_name = table_name; block_offset = k }

  abbrev path : List ℕ
  path = get_table_data_file install_path db_name table_name

  abbrev pub writing : Buffer → BlockSlot
  writing content = record {
    memory = content;
    in_use = some true;
    user_amount = some 1;
    lock = exclusive;
  }

  -- The last block alone is lent, and then both.
  abbrev pub lent_last : LockWatcher
  lent_last = record {
    pool = record {
      slots = writing bytes ∷ unused memory ∷ rest;
      slots_read_list = read_list;
      no_space_failure_times = some times;
    };
    slots_map = (sign_at a, 0) ∷ [];
    map_locked = false;
    files = files;
    install_path = install_path;
  }

  abbrev pub lent_both : LockWatcher
  lent_both = record {
    pool = record {
      slots = writing bytes ∷ writing zeros ∷ rest;
      slots_read_list = read_one 1 read_list;
      no_space_failure_times = some 0;
    };
    slots_map = (sign_at a, 0) ∷ (sign_at n, 1) ∷ [];
    map_locked = false;
    files = files;
    install_path = install_path;
  }

  abbrev pub lent_new : Buffer → Files → LockWatcher
  lent_new content fs = record {
    pool = record {
      slots = unused content ∷ writing zeros ∷ rest;
      slots_read_list = read_one 1 read_list;
      no_space_failure_times = some 0;
    };
    slots_map = (sign_at n, 1) ∷ [];
    map_locked = false;
    files = fs;
    install_path = install_path;
  }

  other_sign : same_sign (sign_at a) (sign_at n) ≡ false
  other_sign = ground (arith, str_eq_refl db_name, str_eq_refl table_name)

  other_sign' : same_sign (sign_at n) (sign_at a) ≡ false
  other_sign' = ground (arith, str_eq_refl db_name, str_eq_refl table_name)

  behind : sign_before (sign_at n) (sign_at a) ≡ false
  unfolding sign_before
  behind = rw (string_before_refl db_name, string_before_refl table_name) (ground arith)

  both : assign {V = ℕ} (sign_at n) 1 ((sign_at a, 0) ∷ []) ≡ (sign_at a, 0) ∷ (sign_at n, 1) ∷ []
  unfolding assign
  both = rw (other_sign, behind) refl

  made : get_new_block_address path files ≡ (files, n)
  unfolding get_new_block_address
  made = rw (get_new_block_address, present, fresh) refl

  pub create_lem :
      (block : DataBlock)
      → create_new_block lent_last db_name table_name block
        ≡ ok (lent_both, finished ((record block { memory = zeros }, 1), n))
  unfolding create_new_block get_new_block_address get_free_slot first_free slot_at set_slot
      get_sign lock_exclusive clear
  create_lem block = rw (made, both) refl

  module _ (block stored : DataBlock) (serialized : serialize block ≡ ok stored) where
    pub release_last :
        release_writing_block lent_both db_name table_name a (block, 0)
        ≡ ok (
          lent_new stored.memory (assign path (write_back_block file a stored.memory) files),
          finished tt,
        )
    unfolding release_writing_block release_slot slot_at set_slot find erase get_sign
        unlock_exclusive
    release_last =
        rw
          (
            serialized,
            same_sign_refl (sign_at a),
            open_data_file_lem install_path db_name table_name files file present,
            same_sign_refl (sign_at a),
            other_sign',
          )
          refl

    pub release_new :
        (content : Buffer) (fs : Files) (file' : Buffer)
        → find path fs ≡ some file'
        → release_writing_block (lent_new content fs) db_name table_name n (block, 1)
          ≡ ok (
            at_rest
                (unused content ∷ unused stored.memory ∷ rest)
                (read_one 1 read_list)
                0
                (assign path (write_back_block file' n stored.memory) fs)
                install_path,
            finished tt,
          )
    unfolding release_writing_block release_slot slot_at set_slot find erase get_sign
        unlock_exclusive
    release_new content fs file' present' =
        rw
          (
            serialized,
            same_sign_refl (sign_at n),
            open_data_file_lem install_path db_name table_name fs file' present',
            same_sign_refl (sign_at n),
          )
          refl
