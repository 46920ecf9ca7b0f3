-- ===== src/TableBlock/Header.antt =====
-- The header of a block of tables, and reading the tables back.
use tiny_dbms.Base.{
  ℕ, ◌+◌, ◌-◌, ◌≤◌, ◌*◌, ◌≡◌, refl, ap, ◌∙◌, sym, List, [], ◌++◌, append_assoc, append-nil, arith,
  length, length-append, map, ok,
}
use tiny_dbms.Memory.Words.{IsSize, IsInt, int_bytes, length-int_bytes, is_negative-size}
use tiny_dbms.Memory.Buffer.{Buffer, patch, length-patch, slice-patch_self}
use tiny_dbms.Memory.Cursor.{put_lem, put_ints_lem, ints, length-ints}
use tiny_dbms.Memory.Reader.{Stands, Stands-rest, get_int_lem, get_ints, get_ints_lem}
use tiny_dbms.DataBlock.{block_size}
use tiny_dbms.Table.{ColumnTable, deserialize}
use tiny_dbms.Table.Bytes.{rounds_size, start_writer}
use tiny_dbms.TableBlock.{TableBlock, serialize_header, deserialize_from_buffer}
use tiny_dbms.TableBlock.Placed.{bottom, Placed-kept, addresses-IsInt, All-read}
use tiny_dbms.TableBlock.InsertTable.{StoresTables, few_tables, update_lem}

Stands-same :
    (memory : Buffer) (offset : ℕ) (bs cs : List ℕ)
    → bs ≡ cs
    → Stands memory offset bs
    → Stands memory offset cs
Stands-same memory offset bs cs e s = rw (sym e) s

module _ (b : TableBlock) (ts : List ColumnTable) (h : StoresTables b ts)
    (space : IsInt b.free_space) (next : IsInt b.next_block_pointer)
    (room : 12 + 4 * length b.tables_begin_address ≤ bottom block_size b.tables_begin_address) where
  abbrev ads : List ℕ
  ads = b.tables_begin_address

  abbrev front : List ℕ
  front = (int_bytes b.table_amount ++ int_bytes b.free_space) ++ int_bytes b.next_block_pointer

  abbrev header : List ℕ
  header = front ++ ints ads

  length-front : length front ≡ 12
  length-front = omega (
    arith,
    length-append (int_bytes b.table_amount ++ int_bytes b.free_space)
        (int_bytes b.next_block_pointer),
    length-append (int_bytes b.table_amount) (int_bytes b.free_space),
    length-int_bytes b.table_amount,
    length-int_bytes b.free_space,
    length-int_bytes b.next_block_pointer,
  )

  length-header : length header ≡ 12 + 4 * length ads
  length-header = omega (arith, length-append front (ints ads), length-front, length-ints ads)

  few : 12 * length ads + bottom block_size ads ≤ block_size
  few = few_tables b.memory block_size ads ts h.placed

  small : IsSize (length b.memory)
  small = omega (arith, h.sized)

  abbrev stored : TableBlock
  stored = record b { memory = patch b.memory 0 header }

  serialize_lem : serialize_header b ≡ ok stored
  unfolding serialize_header
  serialize_lem =
      let a1 = int_bytes b.table_amount in
      let a2 = a1 ++ int_bytes b.free_space in
      let l2 = length-append a1 (int_bytes b.free_space) in
      let l3 = length-append a2 (int_bytes b.next_block_pointer) in
      let four1 = length-int_bytes b.table_amount in
      let four2 = length-int_bytes b.free_space in
      rw
        (
          start_writer b.memory 0 small,
          put_lem b.memory 0 small [] a1 (omega (arith, four1, few, h.sized)),
          put_lem b.memory 0 small a1 (int_bytes b.free_space)
              (omega (arith, four1, l2, four2, few, h.sized)),
          put_lem b.memory 0 small a2 (int_bytes b.next_block_pointer)
              (omega (arith, length-front, h.sized)),
          rounds_size b.table_amount (omega (arith, h.counted, few)) ∙ h.counted,
          put_ints_lem b.memory 0 small ads front
              (omega (arith, length-header, room, few, h.sized)),
        )
        refl

  header_lem : Stands stored.memory 0 header
  header_lem =
      let size =
        length-patch b.memory 0 header (omega (arith, length-header, room, few, h.sized)) in
      record {
        same =
            slice-patch_self b.memory 0 header (omega (arith, length-header, room, few, h.sized));
        within = omega (arith, size, length-header, room, few, h.sized);
        small = omega (arith, size, h.sized);
      }

  deserialize_lem :
      (d : TableBlock)
      → deserialize_from_buffer d stored.memory
        ≡ ok (record d {
          table_amount = b.table_amount;
          free_space = bottom block_size ads - 12;
          next_block_pointer = b.next_block_pointer;
          tables_begin_address = ads;
        })
  unfolding deserialize_from_buffer
  deserialize_lem d =
      let i1 = int_bytes b.table_amount in
      let i2 = int_bytes b.free_space in
      let i3 = int_bytes b.next_block_pointer in
      let m = stored.memory in
      let s0 : Stands m 0 (i1 ++ (i2 ++ (i3 ++ ints ads))) =
        Stands-same m 0 _ _
          (append_assoc (i1 ++ i2) i3 (ints ads) ∙ append_assoc i1 i2 (i3 ++ ints ads))
          header_lem in
      let s1 = Stands-rest m 0 i1 (i2 ++ (i3 ++ ints ads)) s0 in
      let s2 = Stands-rest m (0 + length i1) i2 (i3 ++ ints ads) s1 in
      let s3 = Stands-rest m (0 + length i1 + length i2) i3 (ints ads) s2 in
      let s4 : Stands m (0 + length i1 + length i2 + length i3) (ints ads ++ []) =
        Stands-same m _ _ _ (sym (append-nil (ints ads))) s3 in
      let amount : IsSize b.table_amount = omega (arith, h.counted, few) in
      let loaded = record d {
        table_amount = b.table_amount;
        free_space = b.free_space;
        next_block_pointer = b.next_block_pointer;
        tables_begin_address = ads;
      } in
      let read_ints =
        ap (λ n. get_ints n m (0 + length i1 + length i2 + length i3)) h.counted
        ∙ get_ints_lem ads m (0 + length i1 + length i2 + length i3) []
            (addresses-IsInt b.memory block_size ads ts h.placed (omega arith)) s4 in
      rw
        (
          get_int_lem m 0 b.table_amount (i2 ++ (i3 ++ ints ads)) (omega (arith, amount)) s0,
          get_int_lem m (0 + length i1) b.free_space (i3 ++ ints ads) space s1,
          get_int_lem m (0 + length i1 + length i2) b.next_block_pointer (ints ads) next s2,
          is_negative-size b.table_amount amount,
          read_ints,
        )
        (update_lem loaded ads refl h.counted (omega (arith, few)) h.above (omega (arith, few)))

  -- Where the header with all its addresses ends below the lowest table, SerializeHeader writes it and
  -- keeps the tables: DeserializeFromBuffer finds the amount, the link and the addresses again, and
  -- each table can be read back from its address.
  pub serialize_header-StoresTables :
      (c : TableBlock) × (serialize_header b ≡ ok c)
      × ((d : TableBlock)
          → deserialize_from_buffer d c.memory
            ≡ ok (record d {
              table_amount = b.table_amount;
              free_space = bottom block_size b.tables_begin_address - 12;
              next_block_pointer = b.next_block_pointer;
              tables_begin_address = b.tables_begin_address;
            }))
      × (map (λ a. deserialize c.memory a) b.tables_begin_address ≡ map ok ts)
  serialize_header-StoresTables = (
    stored,
    serialize_lem,
    deserialize_lem,
    All-read stored.memory block_size ads ts (
        Placed-kept b.memory block_size ads ts header h.placed (omega (arith, length-header, room))
          (omega (arith, h.sized)) small),
  )
