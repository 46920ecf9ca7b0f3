-- ===== src/DataBlock.antt =====
-- include/meta/block/data_block.h: a 4096-byte block of one column. Sixteen bytes of header stand at
-- its front, and the records are packed against its end, the newest first.
pub mod Layout
pub mod Header
pub mod Insert
pub mod Delete
use tiny_dbms.Base.{
  ℕ, zero, suc, ◌+◌, ◌-◌, ◌*◌, ◌%◌, ◌^◌, ◌≡◌, Bool, true, false, not, ◌||◌, List, [], ◌∷◌, ltb, leb,
  ◌==◌, if◌then◌else◌, length, Result, ok, raise, fault, block_full, address_not_in_block, ◌>>=◌,
  ◌>>◌, in_bounds, require,
}
use tiny_dbms.Memory.Words.{int_mod, sizeof_int, add_int, sub_int, lt_int, to_size_t}
use tiny_dbms.Memory.Buffer.{Buffer, store, load, store_int, load_int}

abbrev pub block_size : ℕ
block_size = 4096

-- `memory` is the 4096 bytes that the member `data` points to.
pub record DataBlock : Type 0 where
  pub field_length : ℕ
  pub field_data_nums : ℕ
  pub last_record_start_address : ℕ
  pub next_block_pointer : ℕ
  pub memory : Buffer

unfoldable pub init_block : DataBlock → ℕ → DataBlock
init_block b value_length = record b {
  field_length = value_length;
  field_data_nums = 0;
  last_record_start_address = block_size;
  next_block_pointer = 0;
}

-- The address, and whether it is accepted. The test compares an `int` with a `size_t`.
unfoldable pub cal_begin_address : DataBlock → ℕ → ℕ × Bool
cal_begin_address b data_size =
    let address = sub_int b.last_record_start_address data_size in
    (address, not (ltb (to_size_t address) (2 * sizeof_int + 2 * sizeof_int)))

-- No caller uses a block again whose insertion has thrown.
unfoldable pub insert_data : DataBlock → List ℕ → ℕ → Result DataBlock
insert_data b bytes data_size =
    let (address, fits) = cal_begin_address b data_size in
    do
      require fits block_full
      record_bytes ← load bytes 0 data_size
      memory' ← store b.memory address record_bytes
      ok (record b {
        field_data_nums = add_int b.field_data_nums 1;
        last_record_start_address = address;
        memory = memory';
      })

unfoldable pub serialize : DataBlock → Result DataBlock
serialize b = do
  m1 ← store_int b.memory 0 b.field_length
  m2 ← store_int m1 4 b.field_data_nums
  m3 ← store_int m2 8 b.last_record_start_address
  m4 ← store_int m3 12 b.next_block_pointer
  ok (record b { memory = m4 })

unfoldable pub deserialize_from_buffer : DataBlock → Buffer → Result DataBlock
deserialize_from_buffer b buffer = do
  len ← load_int buffer 0
  nums ← load_int buffer 4
  last ← load_int buffer 8
  next ← load_int buffer 12
  ok (record b {
    field_length = len;
    field_data_nums = nums;
    last_record_start_address = last;
    next_block_pointer = next;
  })

-- The sum is a `size_t`, and is returned as an `int`.
unfoldable pub get_space_cost : DataBlock → ℕ
get_space_cost b =
    (2 * sizeof_int + 2 * sizeof_int + to_size_t (sub_int block_size b.last_record_start_address))
    % int_mod

unfoldable pub have_space : DataBlock → ℕ → Bool
unfolding get_space_cost
have_space b value_length = lt_int value_length (sub_int block_size (get_space_cost b))

-- The absolute value of an `int`: `x % y != 0` on `int` depends on no sign.
abbrev pub magnitude : ℕ → ℕ
magnitude x = if ltb x (2 ^ 31) then x else int_mod - x

unfoldable pub check_data_exist : DataBlock → ℕ → Result Bool
check_data_exist b data_address =
    if lt_int data_address (sub_int block_size ((b.field_length * b.field_data_nums) % int_mod))
    then ok false
    else if b.field_length == 0
    then fault
    else ok
        (magnitude (add_int (sub_int block_size data_address) 1) % magnitude b.field_length == 0)

-- `while (segment_end >= segment_begin)` by the rounds that it makes.
move_loop : ℕ → Buffer → ℕ → ℕ → Result Buffer
move_loop zero memory segment_end copy_address = ok memory
move_loop (suc n) memory segment_end copy_address = do
  byte ← load memory copy_address 1
  memory' ← store memory segment_end byte
  move_loop n memory' (sub_int segment_end 1) (sub_int copy_address 1)

unfoldable pub move_data : Buffer → ℕ → ℕ → ℕ → Result Buffer
unfolding move_loop
move_data memory segment_begin segment_end offset =
    let count =
      if lt_int segment_end segment_begin then 0 else sub_int segment_end segment_begin + 1 in
    move_loop count memory segment_end (add_int segment_end offset)

unfoldable pub delete_data : DataBlock → ℕ → Result DataBlock
unfolding check_data_exist
delete_data b data_address = do
  exists ← check_data_exist b data_address
  require exists address_not_in_block
  let start_address = sub_int block_size ((b.field_data_nums * b.field_length) % int_mod)
  memory' ←
      if start_address == data_address
      then ok b.memory
      else move_data b.memory start_address (sub_int data_address 1) b.field_length
  serialize (record b { field_data_nums = sub_int b.field_data_nums 1; memory = memory' })
