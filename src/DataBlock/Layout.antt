-- ===== src/DataBlock/Layout.antt =====
-- What a block of include/meta/block/data_block.h stores, apart from its bytes: a list of records,
-- the newest first.
use tiny_dbms.Base.{ℕ, ◌+◌, ◌≤◌, ◌<◌, ◌≡◌, List, [], ◌∷◌, ◌++◌, arith, length, length-append, All}
use tiny_dbms.Memory.Words.{IsInt}
use tiny_dbms.Memory.Buffer.{slice}
use tiny_dbms.DataBlock.{DataBlock, block_size}

abbrev pub image : List (List ℕ) → List ℕ
image [] = []
image (r ∷ rs) = r ++ image rs

-- Every record has a byte at least, so their number is below the number of bytes.
pub length-le-image :
    (rs : List (List ℕ)) → All (λ r. 0 < length r) rs → length rs ≤ length (image rs)
length-le-image [] h = omega arith
length-le-image (r ∷ rs) h = omega (arith, length-append r (image rs), length-le-image rs h.1)

-- The block is well formed and stores the records `rs`.
pub record Holds (b : DataBlock) (rs : List (List ℕ)) : Type 0 where
  pub sized : length b.memory ≡ block_size
  pub length_int : IsInt b.field_length
  pub next_int : IsInt b.next_block_pointer
  pub counted : b.field_data_nums ≡ length rs
  pub nonempty : All (λ r. 0 < length r) rs
  pub above_header : 16 ≤ b.last_record_start_address
  pub packed : b.last_record_start_address + length (image rs) ≡ block_size
  pub stored : slice b.memory b.last_record_start_address (length (image rs)) ≡ image rs
