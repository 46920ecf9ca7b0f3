-- ===== src/TableBlock/InsertTable.antt =====
-- InsertTable, on each branch, and the header that is written behind it.
use tiny_dbms.Base.{
  ℕ, suc, ◌+◌, ◌-◌, ◌≤◌, ◌<◌, ◌*◌, ◌≡◌, refl, ap, ◌∙◌, true, false, List, [], ◌∷◌, ◌++◌, arith,
  length, length-append, get_elem?, some, none, ok, ◌==◌, le→leb,
}
use tiny_dbms.Memory.Words.{IsSize, sub_int, sub_int-le, add_int, add_int-lt, lt_int}
use tiny_dbms.Memory.Buffer.{Buffer, patch, length-patch}
use tiny_dbms.Memory.Slices.{take_all}
use tiny_dbms.DataBlock.{block_size}
use tiny_dbms.Table.{ColumnTable}
use tiny_dbms.Table.Bytes.{IsTable, table_bytes, length-table_bytes, rounds_size, get_length_lem}
use tiny_dbms.Table.RoundTrip.{serialize-table_bytes}
use tiny_dbms.TableBlock.{
  TableBlock, last_address, cal_and_update_free_space, cal_begin_address, insert_table,
}
use tiny_dbms.TableBlock.Placed.{Placed, bottom, Placed-more, last-bottom, bottom-snoc}

last_lem :
    (c : TableBlock) (a : ℕ) (ads : List ℕ)
    → c.table_amount ≡ suc (length ads)
    → length ads < 5000
    → c.tables_begin_address ≡ a ∷ ads
    → last_address c ≡ ok (bottom block_size (a ∷ ads))
unfolding last_address
last_lem c a ads e few shape =
    let index : sub_int c.table_amount 1 ≡ length ads = omega (arith, e, few) in
    let found =
      ap (λ xs. get_elem? xs (sub_int c.table_amount 1)) shape
      ∙ ap (λ k. get_elem? (a ∷ ads) k) index
      ∙ last-bottom block_size a ads in
    rw (last_address, found) refl

nonzero : (n m : ℕ) → n ≡ suc m → (n == 0) ≡ false
nonzero n m e = ground arith

-- The bytes between the twelve of the header and the lowest table.
pub update_lem :
    (c : TableBlock) (ads : List ℕ)
    → c.tables_begin_address ≡ ads
    → c.table_amount ≡ length ads
    → length ads < 5000
    → 12 ≤ bottom block_size ads
    → bottom block_size ads ≤ block_size
    → cal_and_update_free_space c ≡ ok (record c { free_space = bottom block_size ads - 12 })
unfolding cal_and_update_free_space
update_lem c [] shape e few above below = rw e refl
update_lem c (a ∷ ads) shape e few above below =
    rw (nonzero c.table_amount (length ads) e, last_lem c a ads e (omega (arith, few)) shape)
      (ap (λ n. ok (record c { free_space = n })) (omega (arith, above, below)))

begin_lem :
    (c : TableBlock) (ads : List ℕ) (len : ℕ)
    → c.tables_begin_address ≡ ads
    → c.table_amount ≡ length ads
    → length ads < 5000
    → 12 + len ≤ bottom block_size ads
    → bottom block_size ads ≤ block_size
    → cal_begin_address c len
      ≡ ok
          (record c { free_space = bottom block_size ads - 12 }, some (bottom block_size ads - len))
unfolding cal_begin_address
begin_lem c [] len shape e few fits below =
    let room : lt_int 4084 len ≡ false = ground arith in
    let place : sub_int block_size len ≡ block_size - len =
      sub_int-le block_size len (omega arith) (omega arith) in
    let none_yet : (c.table_amount == 0) ≡ true = ap (λ n. n == 0) e in
    rw (update_lem c [] shape e few (omega arith) below, room, none_yet, place) refl
begin_lem c (a ∷ ads) len shape e few fits below =
    let room : lt_int (bottom a ads - 12) len ≡ false = ground arith in
    let place : sub_int (bottom a ads) len ≡ bottom a ads - len =
      sub_int-le (bottom a ads) len (omega arith) (omega arith) in
    let updated = record c { free_space = bottom a ads - 12 } in
    rw
      (
        update_lem c (a ∷ ads) shape e few (omega arith) below,
        room,
        nonzero c.table_amount (length ads) e,
        last_lem updated a ads e (omega (arith, few)) shape,
        place,
      )
      refl

-- No room.
full_lem :
    (c : TableBlock) (ads : List ℕ) (len : ℕ)
    → c.tables_begin_address ≡ ads
    → c.table_amount ≡ length ads
    → length ads < 5000
    → 12 ≤ bottom block_size ads
    → bottom block_size ads < 12 + len
    → IsSize len
    → bottom block_size ads ≤ block_size
    → cal_begin_address c len ≡ ok (record c { free_space = bottom block_size ads - 12 }, none)
unfolding cal_begin_address
full_lem c ads len shape e few above big small below =
    let room : lt_int (bottom block_size ads - 12) len ≡ true = ground arith in
    rw (update_lem c ads shape e few above below, room) refl

-- The block stores these tables, the oldest first.
pub record StoresTables (b : TableBlock) (ts : List ColumnTable) : Type 0 where
  pub sized : length b.memory ≡ block_size
  pub counted : b.table_amount ≡ length b.tables_begin_address
  pub placed : Placed b.memory block_size b.tables_begin_address ts
  pub above : 12 ≤ bottom block_size b.tables_begin_address

-- Each table has twelve bytes at least.
pub few_tables :
    (memory : Buffer) (top : ℕ) (ads : List ℕ) (ts : List ColumnTable)
    → Placed memory top ads ts
    → 12 * length ads + bottom top ads ≤ top
few_tables memory top [] ts p = omega arith
few_tables memory top (a ∷ ads) [] p = absurd p
few_tables memory top (a ∷ ads) (t ∷ ts) (e, (s, (w, p))) =
    omega (arith, e, length-table_bytes t w, few_tables memory a ads ts p)

-- InsertTable of a well-formed table whose bytes fit between the twelve of the header and the lowest
-- table answers true, and the block then stores the table behind the others, which it keeps.
pub insert_table-StoresTables :
    (b : TableBlock) (ts : List ColumnTable) (table : ColumnTable)
    → StoresTables b ts
    → IsTable table
    → 12 + length (table_bytes table) ≤ bottom block_size b.tables_begin_address
    → (c : TableBlock) × (insert_table b table ≡ ok (c, true))
      × StoresTables c (ts ++ (table ∷ []))
      × (c.next_block_pointer ≡ b.next_block_pointer)
unfolding insert_table
insert_table-StoresTables b ts table h w fits =
    let ads = b.tables_begin_address in
    let low = bottom block_size ads in
    let few = few_tables b.memory block_size ads ts h.placed in
    let bytes = table_bytes table in
    let new = low - length bytes in
    let small : IsSize (length b.memory) = omega (arith, h.sized) in
    let place : new + length bytes ≤ length b.memory = omega (arith, fits, few, h.sized) in
    let (stores, counts) = serialize-table_bytes table w b.memory new small place in
    let rounds_all = rounds_size b.table_amount (omega (arith, h.counted, few)) in
    let within = le→leb b.table_amount (length ads) (omega (arith, h.counted)) in
    let all = take_all ads b.table_amount (omega (arith, h.counted)) in
    let more =
      Placed-more b.memory block_size ads ts new table h.placed w (omega (arith, fits))
        (omega (arith, h.sized)) small in
    (
      record b {
        table_amount = add_int b.table_amount 1;
        free_space = low - 12;
        tables_begin_address = ads ++ (new ∷ []);
        memory = patch b.memory new bytes;
      },
      rw
          (
            counts,
            begin_lem b ads (length bytes) refl h.counted (omega (arith, few)) fits
                (omega (arith, few)),
            rounds_all,
            within,
            stores,
            all,
          )
          refl,
      record {
        sized = length-patch b.memory new bytes place ∙ h.sized;
        counted =
            add_int-lt b.table_amount 1 (omega (arith, h.counted, few))
            ∙ omega (arith, h.counted, length-append ads (new ∷ []));
        placed = more;
        above = rw (bottom-snoc block_size ads new) (omega (arith, fits));
      },
      refl,
    )

-- InsertTable of a table that is too long answers false and changes no byte of the block.
pub insert_table_full :
    (b : TableBlock) (ts : List ColumnTable) (table : ColumnTable)
    → StoresTables b ts
    → IsTable table
    → IsSize (length (table_bytes table))
    → bottom block_size b.tables_begin_address < 12 + length (table_bytes table)
    → insert_table b table
      ≡ ok (record b { free_space = bottom block_size b.tables_begin_address - 12 }, false)
unfolding insert_table
insert_table_full b ts table h w small big =
    let few = few_tables b.memory block_size b.tables_begin_address ts h.placed in
    rw
      (
        get_length_lem table w (omega (arith, small)),
        full_lem b b.tables_begin_address (length (table_bytes table)) refl h.counted
            (omega (arith, few)) h.above big small (omega (arith, few)),
      )
      refl
