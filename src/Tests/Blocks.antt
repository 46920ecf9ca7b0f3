-- ===== src/Tests/Blocks.antt =====
-- A data block with two values of an INT column, and one with two texts.
use tiny_dbms.Base.{
  ℕ, ◌+◌, ◌*◌, ◌-◌, ◌<◌, ◌≡◌, sym, ◌∙◌, ◌↔◌, length-append, true, List, [], ◌∷◌, arith, length,
  replicate, length-replicate, ok, raise, fault, block_full, address_not_in_block, codes,
}
use tiny_dbms.Value.{
  of_int, get_value_length, of_chars, int_t, vchar_t, serialize, serialize_value_from_buffer,
}
use tiny_dbms.Value.Encode.{
  IsStored, int_stored, text_stored, encoding, get_value_length_lem, serialize_round_trip,
}
use tiny_dbms.DataBlock.{
  DataBlock, block_size, init_block, have_space, insert_data, serialize as serialize_block,
  delete_data, deserialize_from_buffer,
}
use tiny_dbms.DataBlock.Layout.{Holds, image}
use tiny_dbms.DataBlock.Header.{serialize-Holds}
use tiny_dbms.DataBlock.Insert.{
  init_block-Holds, have_space_iff, insert_data-Holds, insert_data_full, insert_data_overrun,
}
use tiny_dbms.DataBlock.Delete.{delete_data_refuses}

abbrev pub fresh : DataBlock
fresh = record {
  field_length = 0;
  field_data_nums = 0;
  last_record_start_address = 0;
  next_block_pointer = 0;
  memory = replicate 4096 0;
}

abbrev pub empty : DataBlock
empty = init_block fresh 4

pub empty-Holds : Holds empty []
empty-Holds = init_block-Holds fresh 4 (length-replicate {A = ℕ} 4096 0) (omega arith)

pub seven-IsStored : IsStored int_t (of_int 7)
seven-IsStored = int_stored 7 (omega arith)

pub nine-IsStored : IsStored int_t (of_int 9)
nine-IsStored = int_stored 9 (omega arith)

abbrev pub seven : List ℕ
seven = encoding seven-IsStored

abbrev pub nine : List ℕ
nine = encoding nine-IsStored

pub length-seven : length seven ≡ 4
unfolding get_value_length of_int
length-seven = sym (get_value_length_lem seven-IsStored)

pub length-nine : length nine ≡ 4
unfolding get_value_length of_int
length-nine = sym (get_value_length_lem nine-IsStored)

-- The block after one insertion, and after two.
pub with_seven :
    (c : DataBlock) × (insert_data empty seven (length seven) ≡ ok c)
    × Holds c (seven ∷ [])
    × (c.next_block_pointer ≡ empty.next_block_pointer)
    × (c.field_length ≡ empty.field_length)
with_seven =
    insert_data-Holds empty [] seven empty-Holds (omega (arith, length-seven))
      (omega (arith, length-seven))
      ((have_space_iff empty [] empty-Holds (length seven) (omega (arith, length-seven))).1
        (omega (arith, length-seven)))

abbrev pub first_block : DataBlock
first_block = with_seven.0

pub first_block-Holds : Holds first_block (seven ∷ [])
first_block-Holds = with_seven.2

first_block_length : first_block.field_length ≡ 4
unfolding init_block
first_block_length = with_seven.4

pub first_block_next : first_block.next_block_pointer ≡ 0
unfolding init_block
first_block_next = with_seven.3

insert_data-Holds_example :
    (c : DataBlock) × (insert_data first_block nine (length nine) ≡ ok c)
    × Holds c (nine ∷ seven ∷ [])
    × (c.next_block_pointer ≡ first_block.next_block_pointer)
    × (c.field_length ≡ first_block.field_length)
insert_data-Holds_example =
    insert_data-Holds first_block (seven ∷ []) nine first_block-Holds (omega (arith, length-nine))
      (omega (arith, length-nine))
      ((have_space_iff first_block (seven ∷ []) first_block-Holds (length nine)
          (omega (arith, length-nine))).1
        (omega (arith, length-nine, length-seven, length-append seven [])))

have_space_iff_example :
    (have_space first_block 4 ≡ true) ↔ (16 + length (image (seven ∷ [])) + 4 < block_size)
have_space_iff_example = have_space_iff first_block (seven ∷ []) first_block-Holds 4 (omega arith)

serialize-Holds_example :
    (c : DataBlock) × (serialize_block first_block ≡ ok c)
    × Holds c (seven ∷ [])
    × ((d : DataBlock) → deserialize_from_buffer d c.memory ≡ ok (record c { memory = d.memory }))
    × (c.next_block_pointer ≡ first_block.next_block_pointer)
serialize-Holds_example = serialize-Holds first_block (seven ∷ []) first_block-Holds

-- A block with 18 bytes in front of its only record.
abbrev pub large : List ℕ
large = replicate 4078 1

length-large : length large ≡ 4078
length-large = length-replicate {A = ℕ} 4078 1

full_block :
    (c : DataBlock) × (insert_data empty large (length large) ≡ ok c)
    × Holds c (large ∷ [])
    × (c.next_block_pointer ≡ empty.next_block_pointer)
    × (c.field_length ≡ empty.field_length)
full_block =
    insert_data-Holds empty [] large empty-Holds (omega (arith, length-large))
      (omega (arith, length-large))
      ((have_space_iff empty [] empty-Holds (length large) (omega (arith, length-large))).1
        (omega (arith, length-large)))

full_address : full_block.0.last_record_start_address ≡ 18
full_address = omega (arith, full_block.2.packed, length-large, length-append large [])

insert_data_full_example : insert_data full_block.0 nine (length nine) ≡ raise block_full
insert_data_full_example =
    insert_data_full full_block.0 (large ∷ []) nine full_block.2
      (omega (arith, full_address, length-nine)) (omega (arith, full_address, length-nine))

insert_data_overrun_example : insert_data full_block.0 large (length large) ≡ fault
insert_data_overrun_example =
    insert_data_overrun full_block.0 (large ∷ []) large full_block.2 (omega (arith, length-large))
      (omega (arith, full_address, length-large))

delete_data_refuses_example :
    delete_data first_block (block_size - 1 * first_block.field_length) ≡ raise address_not_in_block
delete_data_refuses_example =
    delete_data_refuses first_block (seven ∷ []) 1 first_block-Holds
      (length-seven ∙ sym first_block_length, tt) (omega (arith, first_block_length)) (omega arith)
      (omega arith)

serialize_round_trip_example :
    (after : List ℕ) × (serialize (of_chars (codes "ab")) (replicate 64 0) 5 ≡ ok after)
    × (length after ≡ length (replicate {A = ℕ} 64 0))
    × (serialize_value_from_buffer vchar_t after 5 ≡ ok (of_chars (codes "ab")))
unfolding get_value_length of_chars
serialize_round_trip_example =
    serialize_round_trip (text_stored (codes "ab") (omega arith)) (replicate 64 0) 5 (omega arith)
      (omega arith)
