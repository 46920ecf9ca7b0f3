-- ===== src/DataBlock/Insert.antt =====
-- `InitBlock`, `HaveSpace` and `InsertData` against the list of records that the block stores.
use tiny_dbms.Base.{
  ℕ, ◌+◌, ◌-◌, ◌^◌, ◌≤◌, ◌<◌, ◌≡◌, ◌∙◌, refl, ◌↔◌, true, List, [], ◌∷◌, arith, length,
  length-append, ok, raise, fault, block_full,
}
use tiny_dbms.Memory.Words.{IsInt, IsSize, sub_int, sub_int-le, add_int-lt}
use tiny_dbms.Memory.Buffer.{
  patch, store, store_ok, load_ok, length-patch, slice-patch_self, slice-patch_above, slice_join,
  slice_empty, slice_whole,
}
use tiny_dbms.DataBlock.{
  DataBlock, block_size, init_block, have_space, insert_data, cal_begin_address,
}
use tiny_dbms.DataBlock.Layout.{Holds, image, length-le-image}

-- A freshly initialised block stores nothing.
pub init_block-Holds :
    (b : DataBlock) (value_length : ℕ)
    → length b.memory ≡ block_size
    → IsInt value_length
    → Holds (init_block b value_length) []
unfolding init_block
init_block-Holds b value_length sized small = record {
  sized = sized;
  length_int = small;
  next_int = omega arith;
  counted = refl;
  nonempty = tt;
  above_header = omega arith;
  packed = omega arith;
  stored = slice_empty b.memory block_size;
}

module _ (b : DataBlock) (rs : List (List ℕ)) (holds : Holds b rs) where
  -- `HaveSpace` holds exactly when a byte stays free between the header and the new record.
  pub have_space_iff :
      (n : ℕ) → IsSize n → (have_space b n ≡ true) ↔ (16 + length (image rs) + n < block_size)
  unfolding have_space
  have_space_iff n small = (λ h. ground arith, λ h. ground arith)

  module _ (bytes : List ℕ) (positive : 0 < length bytes)
      (fits : 16 + length bytes ≤ b.last_record_start_address) where
    abbrev address : ℕ
    address = b.last_record_start_address - length bytes

    abbrev inserted : DataBlock
    inserted = record b {
      field_data_nums = b.field_data_nums + 1;
      last_record_start_address = address;
      memory = patch b.memory address bytes;
    }

    last_small : b.last_record_start_address < 4097
    last_small = omega (arith, holds.packed)

    address_lem : sub_int b.last_record_start_address (length bytes) ≡ address
    address_lem =
        sub_int-le b.last_record_start_address (length bytes) (omega arith)
          (omega (arith, last_small))

    accepted : cal_begin_address b (length bytes) ≡ (address, true)
    unfolding cal_begin_address
    accepted = rw address_lem (ground (arith, last_small))

    within : address + length bytes ≤ length b.memory
    within = omega (arith, holds.sized, last_small)

    insert_data-inserted : insert_data b bytes (length bytes) ≡ ok inserted
    unfolding insert_data
    insert_data-inserted = rw (
      accepted,
      load_ok bytes 0 (length bytes) (omega arith),
      slice_whole bytes,
      store_ok b.memory address bytes within,
      add_int-lt b.field_data_nums 1
          (omega (arith, holds.counted, holds.packed, length-le-image rs holds.nonempty)),
    )

    inserted-Holds : Holds inserted (bytes ∷ rs)
    inserted-Holds = record {
      sized = length-patch b.memory address bytes within ∙ holds.sized;
      length_int = holds.length_int;
      next_int = holds.next_int;
      counted = omega (arith, holds.counted);
      nonempty = (positive, holds.nonempty);
      above_header = omega arith;
      packed = omega (arith, length-append bytes (image rs), holds.packed);
      stored =
          slice_join (patch b.memory address bytes) address b.last_record_start_address bytes
            (image rs) (slice-patch_self b.memory address bytes within) (omega arith)
            (slice-patch_above b.memory address bytes b.last_record_start_address
                (length (image rs)) (omega arith)
              ∙ holds.stored)
            (rw (length-patch b.memory address bytes within, length-append bytes (image rs))
              (omega (arith, holds.sized, holds.packed)));
    }

-- A record for which `HaveSpace` answers true is inserted: the block then stores it in front of the
-- records that it stored, and its link to the next block is as before.
pub insert_data-Holds :
    (b : DataBlock) (rs : List (List ℕ)) (bytes : List ℕ)
    → Holds b rs
    → 0 < length bytes
    → IsSize (length bytes)
    → have_space b (length bytes) ≡ true
    → (c : DataBlock) × (insert_data b bytes (length bytes) ≡ ok c)
      × Holds c (bytes ∷ rs)
      × (c.next_block_pointer ≡ b.next_block_pointer)
      × (c.field_length ≡ b.field_length)
insert_data-Holds b rs bytes holds positive small room =
    let roomy = (have_space_iff b rs holds (length bytes) small).0 room in
    let fits : 16 + length bytes ≤ b.last_record_start_address =
      omega (arith, roomy, holds.packed) in
    (
      inserted b rs holds bytes positive fits,
      insert_data-inserted b rs holds bytes positive fits,
      inserted-Holds b rs holds bytes positive fits,
      refl,
      refl,
    )

-- InsertData of a record that is not longer than the room in front of the others, the header included,
-- but would reach into the header, throws.
pub insert_data_full :
    (b : DataBlock) (rs : List (List ℕ)) (bytes : List ℕ)
    → Holds b rs
    → length bytes ≤ b.last_record_start_address
    → b.last_record_start_address < 16 + length bytes
    → insert_data b bytes (length bytes) ≡ raise block_full
unfolding insert_data cal_begin_address
insert_data_full b rs bytes holds h k =
    rw (sub_int-le b.last_record_start_address (length bytes) h (omega (arith, holds.packed)))
      (ground (arith, holds.packed))

overrun_address :
    (last size : ℕ)
    → last < 4097
    → IsSize size
    → last < size
    → (2 ^ 31 ≤ sub_int last size) × (sub_int last size < 2 ^ 32)
overrun_address last size h small k = (omega arith, omega arith)

-- A record longer than all the room in front of the others is not refused: its negative address
-- passes the test of `CalBeginAddress` as a large `size_t`, and `memcpy` writes outside the block.
pub insert_data_overrun :
    (b : DataBlock) (rs : List (List ℕ)) (bytes : List ℕ)
    → Holds b rs
    → IsSize (length bytes)
    → b.last_record_start_address < length bytes
    → insert_data b bytes (length bytes) ≡ fault
unfolding insert_data cal_begin_address store
insert_data_overrun b rs bytes holds small h =
    let (low, high) =
      overrun_address b.last_record_start_address (length bytes) (omega (arith, holds.packed)) small
        h in
    rw (load_ok bytes 0 (length bytes) (omega arith)) (ground (arith, holds.sized, low, high))
