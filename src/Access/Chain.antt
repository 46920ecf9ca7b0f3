-- ===== src/Access/Chain.antt =====
-- A column as its data file stores it: a chain of blocks, each with values of the column's type.
use tiny_dbms.Base.{ℕ, ◌*◌, ◌≡◌, ◌≢◌, List, [], ◌∷◌, ◌++◌, length, ok, some}
use tiny_dbms.Memory.Buffer.{Buffer, length-slice}
use tiny_dbms.StdMap.{find, string_key}
use tiny_dbms.Value.{ValueType, Value}
use tiny_dbms.DataBlock.{DataBlock, block_size}
use tiny_dbms.Scan.Spec.{Matches, Stores}
use tiny_dbms.Storage.Files.{Files, get_table_data_file}
use tiny_dbms.Storage.Pool.{BlockSlot, shared, read_one}
use tiny_dbms.Storage.Disk.{StoredAt, block_bytes}
use tiny_dbms.Storage.Cycle.{at_rest, unused, load_read, release_read, lent}
use tiny_dbms.Storage.Watcher.{LockWatcher, finished, load_block_for_read, release_reading_block}
use tiny_dbms.Access.{Db}

-- The address of each block and its values, the newest first.
abbrev pub Chain : Type 0
Chain = List (ℕ × List Value)

abbrev pub next_address : Chain → ℕ
next_address [] = 0
next_address ((a, vs) ∷ cs) = a

-- The last block links to address 0, so no other block that is linked to has this address.
abbrev pub Linked : Chain → Type 0
Linked [] = Unit {0}
Linked ((a, vs) ∷ cs) = a ≢ 0

abbrev pub ValuesAt : Buffer → ℕ → ℕ → ValueType → List Value → Type 0
ValuesAt file a next t vs = (rs : List (List ℕ)) × StoredAt file a next rs × Matches t vs rs

abbrev pub ChainAt : Buffer → ValueType → Chain → Type 0
ChainAt file t [] = Unit {0}
ChainAt file t ((a, vs) ∷ cs) =
    ValuesAt file a (next_address cs) t vs × (Linked cs × ChainAt file t cs)

-- All values of the column, in the order in which a load meets them.
abbrev pub all_values : Chain → List Value
all_values [] = []
all_values ((a, vs) ∷ cs) = vs ++ all_values cs

module _ (db : Db) (table_name install_path : List ℕ) (rest : List BlockSlot) (files : Files)
    (file : Buffer)
    (present : find (get_table_data_file install_path db.db_name table_name) files
      ≡ some file) where
  -- The watcher at rest, with the memory of its first slot.
  abbrev pub resting : Buffer → List ℕ → ℕ → LockWatcher
  resting memory read_list times = at_rest (unused memory ∷ rest) read_list times files install_path

  -- A reader takes a stored block and gives it back.
  pub read_cycle :
      (memory : Buffer) (read_list : List ℕ) (times a next : ℕ) (t : ValueType) (vs : List Value)
      (block : DataBlock)
      → length memory ≡ block_size
      → ValuesAt file a next t vs
      → (b : DataBlock) × (w : LockWatcher) × (load_block_for_read
            (resting memory read_list times)
            db.db_name
            table_name
            a
            block
          ≡ ok (w, finished (b, 0)))
        × (release_reading_block w db.db_name table_name a
            ≡ ok (resting (block_bytes file a) (read_one 0 read_list) 0, finished tt))
        × Stores b t vs
        × (b.next_block_pointer ≡ next)
        × (length (block_bytes file a) ≡ block_size)
  read_cycle memory read_list times a next t vs block sized (rs, stored, m) =
      let (b, parsed, holds, link) = stored.parsed block in
      (
        b,
        lent install_path db.db_name table_name memory rest read_list times files file present sized
            a stored.reachable stored.within (shared 0),
        load_read install_path db.db_name table_name memory rest read_list times files file present
            sized a stored.reachable stored.within block b parsed,
        release_read install_path db.db_name table_name memory rest read_list times files file
            present sized a stored.reachable stored.within,
        (rs, holds, m),
        link,
        length-slice file (a * block_size) block_size stored.within,
      )
