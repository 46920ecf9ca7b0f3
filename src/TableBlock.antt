-- ===== src/TableBlock.antt =====
-- include/meta/block/table_block.h: a 4096-byte block of table headers. Twelve bytes and an address for
-- each table stand at its front, and the tables are packed against its end, the oldest last.
pub mod Placed
pub mod InsertTable
pub mod Header
use tiny_dbms.Base.{
  ℕ, zero, suc, ◌+◌, ◌-◌, ◌%◌, Bool, true, false, not, List, [], ◌∷◌, ◌++◌, ◌==◌, if◌then◌else◌,
  leb, get_elem?, take, length, Option, none, some, Result, ok, fault, bad_length, require,
  in_bounds, ◌>>=◌, ◌>>◌,
}
use tiny_dbms.Memory.Words.{int_mod, add_int, sub_int, lt_int, is_negative, rounds, int_bytes}
use tiny_dbms.Memory.Buffer.{Buffer}
use tiny_dbms.Memory.Cursor.{put, put_ints}
use tiny_dbms.Memory.Reader.{get_int, get_ints}
use tiny_dbms.DataBlock.{block_size}
use tiny_dbms.Table.{ColumnTable, get_length, serialize}

-- `memory` is the 4096 bytes that the member `data` points to.
pub record TableBlock : Type 0 where
  pub table_amount : ℕ
  pub free_space : ℕ
  pub next_block_pointer : ℕ
  pub tables_begin_address : List ℕ
  pub memory : Buffer

-- `tables_begin_address[table_amount - 1]`.
unfoldable pub last_address : TableBlock → Result ℕ
last_address b = elim (get_elem? b.tables_begin_address (sub_int b.table_amount 1)) [
  | none ↦ fault
  | some a ↦ ok a
]

-- The twelve bytes of the header are counted, the addresses behind them are not.
unfoldable pub cal_and_update_free_space : TableBlock → Result TableBlock
cal_and_update_free_space b =
    if b.table_amount == 0
    then ok (record b { free_space = block_size - 12 })
    else (last_address b >>= λ a.
        ok (record b { free_space = sub_int (block_size - 12) (sub_int block_size a) }))

unfoldable pub init_block : TableBlock → Result TableBlock
init_block b = do
  b' ← cal_and_update_free_space (record b { table_amount = 0 })
  ok (record b' { next_block_pointer = 0 })

-- The address, if there is room for the table.
unfoldable pub cal_begin_address : TableBlock → ℕ → Result (TableBlock × Option ℕ)
cal_begin_address b table_length = do
  b' ← cal_and_update_free_space b
  if lt_int b'.free_space table_length
      then ok (b', none)
      else if b'.table_amount == 0
      then ok (b', some (sub_int block_size table_length))
      else (last_address b' >>= λ a. ok (b', some (sub_int a table_length)))

-- The addresses are copied into a longer array; with no table yet the array is made anew.
unfoldable pub insert_table : TableBlock → ColumnTable → Result (TableBlock × Bool)
insert_table b table = do
  len ← get_length table
  (b', found) ← cal_begin_address b len
  elim found [
    | none ↦ ok (b', false)
    | some insert_address ↦ do
      in_bounds (leb (rounds b'.table_amount) (length b'.tables_begin_address))
      (memory, written) ← serialize table b'.memory insert_address
      ok (
        record b' {
          table_amount = add_int b'.table_amount 1;
          tables_begin_address =
              take (rounds b'.table_amount) b'.tables_begin_address ++ (insert_address ∷ []);
          memory = memory;
        },
        true,
      )
  ]

unfoldable pub serialize_header : TableBlock → Result TableBlock
serialize_header b = do
  w1 ← put 0 (int_bytes b.table_amount) (b.memory, 0)
  w2 ← put 0 (int_bytes b.free_space) w1
  w3 ← put 0 (int_bytes b.next_block_pointer) w2
  (memory, offset) ← put_ints 0 (rounds b.table_amount) b.tables_begin_address w3
  ok (record b { memory = memory })

unfoldable pub deserialize_from_buffer : TableBlock → Buffer → Result TableBlock
deserialize_from_buffer b buffer = do
  (amount, o1) ← get_int buffer 0
  (space, o2) ← get_int buffer o1
  (next, o3) ← get_int buffer o2
  require (not (is_negative amount)) bad_length
  (addresses, o4) ← get_ints amount buffer o3
  cal_and_update_free_space (record b {
    table_amount = amount;
    free_space = space;
    next_block_pointer = next;
    tables_begin_address = addresses;
  })
