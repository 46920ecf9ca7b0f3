-- ===== src/Table/RoundTrip.antt =====
-- That reading the bytes of a table header back gives the table.
use tiny_dbms.Base.{
  append-nil, ℕ, ◌+◌, ◌≤◌, ◌<◌, ◌^◌, ◌≡◌, refl, ap, ◌∙◌, sym, List, [], ◌∷◌, ◌++◌, arith, length,
  length-append, All, ok, ◌>>=◌,
}
use native.Mathlib.Nat.{mod-eq_of_lt}
use tiny_dbms.Memory.Words.{IsInt, IsSize, int_bytes, is_negative-size}
use tiny_dbms.Memory.Buffer.{Buffer, patch, slice-patch_self, length-patch}
use tiny_dbms.Memory.Cursor.{
  put_lem, put_ints, put_ints_lem, put_texts, put_texts_lem, ints, texts, after,
}
use tiny_dbms.Memory.Reader.{
  Stands, Stands-first, Stands-rest, get_int_lem, get_text_lem, get_ints, get_ints_lem, get_texts,
  get_texts_lem,
}
use tiny_dbms.Table.{ColumnTable, get_length, serialize, deserialize}
use tiny_dbms.Table.Bytes.{
  IsTable, table_bytes, written, written-table_bytes, get_length_lem, start_writer, rounds_size,
}

-- Room for the written bytes is room for each first part of them.
room :
    (done more : List ℕ) (begin n : ℕ) → begin + length (done ++ more) ≤ n → begin + length done ≤ n
room done more begin n h = omega (arith, length-append done more)

module _ (base : Buffer) (begin : ℕ) (small : IsSize (length base)) where
  put_sized :
      (array done : List ℕ) (n : ℕ)
      → length array ≡ n
      → begin + length (done ++ ints array) ≤ length base
      → put_ints begin n array (after base begin small done)
        ≡ ok (after base begin small (done ++ ints array))
  put_sized array done n e h =
      ap (λ m. put_ints begin m array (after base begin small done)) (sym e)
      ∙ put_ints_lem base begin small array done h

  put_sized_texts :
      (array : List (List ℕ)) (done : List ℕ) (n : ℕ)
      → length array ≡ n
      → begin + length (done ++ texts array) ≤ length base
      → put_texts begin n array (after base begin small done)
        ≡ ok (after base begin small (done ++ texts array))
  put_sized_texts array done n e h =
      ap (λ m. put_texts begin m array (after base begin small done)) (sym e)
      ∙ put_texts_lem base begin small array done h

module _ (table : ColumnTable) (w : IsTable table) (buffer : Buffer) (begin : ℕ)
    (small : IsSize (length buffer))
    (fits : begin + length (table_bytes table) ≤ length buffer) where
  -- A table with as many elements in each array as columns, stored where the buffer has room, is stored
  -- as its name with the length before it, its type, the number of its columns, their names, each with
  -- its length before it, and their types, lengths, index types and addresses. GetLength counts these
  -- bytes, and the rest of the buffer keeps its bytes.
  pub serialize-table_bytes :
      (serialize table buffer begin
        ≡ ok (patch buffer begin (table_bytes table), length (table_bytes table)))
      × (get_length table ≡ ok (length (table_bytes table)))
  unfolding serialize
  serialize-table_bytes =
      let c = table.columns in
      let d1 = int_bytes (length table.table_name) in
      let d2 = d1 ++ table.table_name in
      let d3 = d2 ++ int_bytes table.table_type in
      let d4 = d3 ++ int_bytes table.column_size in
      let d5 = d4 ++ texts c.column_name_array in
      let d6 = d5 ++ ints c.column_type_array in
      let d7 = d6 ++ ints c.column_length_array in
      let d8 = d7 ++ ints c.column_index_type_array in
      let whole = written-table_bytes table in
      let r9 : begin + length (written table) ≤ length buffer = rw whole fits in
      let r8 = room d8 (ints c.column_storage_address_array) begin (length buffer) r9 in
      let r7 = room d7 (ints c.column_index_type_array) begin (length buffer) r8 in
      let r6 = room d6 (ints c.column_length_array) begin (length buffer) r7 in
      let r5 = room d5 (ints c.column_type_array) begin (length buffer) r6 in
      let r4 = room d4 (texts c.column_name_array) begin (length buffer) r5 in
      let r3 = room d3 (int_bytes table.column_size) begin (length buffer) r4 in
      let r2 = room d2 (int_bytes table.table_type) begin (length buffer) r3 in
      let r1 = room d1 table.table_name begin (length buffer) r2 in
      let named = length-append d1 table.table_name in
      (
        rw
            (
              rounds_size table.column_size w.size,
              mod-eq_of_lt {n = length table.table_name} {m = 2 ^ 32} (omega (arith, named)),
              start_writer buffer begin small,
              put_lem buffer begin small [] d1 r1,
              put_lem buffer begin small d1 table.table_name r2,
              put_lem buffer begin small d2 (int_bytes table.table_type) r3,
              put_lem buffer begin small d3 (int_bytes table.column_size) r4,
              put_sized_texts buffer begin small c.column_name_array d4 table.column_size w.names
                  r5,
              put_sized buffer begin small c.column_type_array d5 table.column_size w.types r6,
              put_sized buffer begin small c.column_length_array d6 table.column_size w.lengths r7,
              put_sized buffer begin small c.column_index_type_array d7 table.column_size
                  w.index_types r8,
              put_sized buffer begin small c.column_storage_address_array d8 table.column_size
                  w.addresses r9,
            )
            (ap (λ bs. ok (after buffer begin small bs)) whole),
        get_length_lem table w (omega arith),
      )

got_sized :
    (array : List ℕ) (n : ℕ) (buffer : Buffer) (offset : ℕ) (rest : List ℕ)
    → length array ≡ n
    → All IsInt array
    → Stands buffer offset (ints array ++ rest)
    → get_ints n buffer offset ≡ ok (array, offset + length (ints array))
got_sized array n buffer offset rest e h s =
    ap (λ m. get_ints m buffer offset) (sym e) ∙ get_ints_lem array buffer offset rest h s

-- The names of a header that stands in a buffer are shorter than the buffer.
names_fit :
    (array : List (List ℕ)) (n : ℕ)
    → length (texts array) ≤ n
    → n < 2 ^ 31
    → All (λ text. IsInt (length text)) array
names_fit [] n h small = tt
names_fit (text ∷ array) n h small =
    let whole = length-append (int_bytes (length text)) (text ++ texts array) in
    let rest = length-append text (texts array) in
    (omega (arith, whole, rest), names_fit array n (omega (arith, whole, rest)) small)

got_texts :
    (array : List (List ℕ)) (n : ℕ) (buffer : Buffer) (offset : ℕ) (rest : List ℕ)
    → length array ≡ n
    → Stands buffer offset (texts array ++ rest)
    → get_texts n buffer offset ≡ ok (array, offset + length (texts array))
got_texts array n buffer offset rest e s =
    let here = Stands-first buffer offset (texts array) rest s in
    ap (λ m. get_texts m buffer offset) (sym e)
    ∙ get_texts_lem array buffer offset rest
        (names_fit array (length buffer) (omega (arith, here.within)) here.small) s

module _ (table : ColumnTable) (w : IsTable table) (buffer : Buffer) (offset : ℕ)
    (stands : Stands buffer offset (table_bytes table)) where
  -- Where the bytes of a table stand in a buffer, deserialize reads the table back.
  pub deserialize-table_bytes : deserialize buffer offset ≡ ok table
  unfolding deserialize
  deserialize-table_bytes =
      let c = table.columns in
      let b1 = int_bytes (length table.table_name) in
      let b3 = int_bytes table.table_type in
      let b4 = int_bytes table.column_size in
      let b9 = ints c.column_storage_address_array in
      let t8 = ints c.column_index_type_array ++ b9 in
      let t7 = ints c.column_length_array ++ t8 in
      let t6 = ints c.column_type_array ++ t7 in
      let t5 = texts c.column_name_array ++ t6 in
      let o1 = offset + length b1 in
      let o2 = o1 + length table.table_name in
      let o3 = o2 + length b3 in
      let o4 = o3 + length b4 in
      let o5 = o4 + length (texts c.column_name_array) in
      let o6 = o5 + length (ints c.column_type_array) in
      let o7 = o6 + length (ints c.column_length_array) in
      let o8 = o7 + length (ints c.column_index_type_array) in
      let s1 = Stands-rest buffer offset b1 (table.table_name ++ (b3 ++ (b4 ++ t5))) stands in
      let s2 = Stands-rest buffer o1 table.table_name (b3 ++ (b4 ++ t5)) s1 in
      let s3 = Stands-rest buffer o2 b3 (b4 ++ t5) s2 in
      let s4 = Stands-rest buffer o3 b4 t5 s3 in
      let s5 = Stands-rest buffer o4 (texts c.column_name_array) t6 s4 in
      let s6 = Stands-rest buffer o5 (ints c.column_type_array) t7 s5 in
      let s7 = Stands-rest buffer o6 (ints c.column_length_array) t8 s6 in
      let s8 = Stands-rest buffer o7 (ints c.column_index_type_array) b9 s7 in
      let named = Stands-first buffer o1 table.table_name (b3 ++ (b4 ++ t5)) s1 in
      let last : Stands buffer o8 (b9 ++ []) = rw (append-nil b9) s8 in
      rw
        (
          get_int_lem buffer offset (length table.table_name)
              (table.table_name ++ (b3 ++ (b4 ++ t5))) (omega (arith, named.within, named.small))
              stands,
          get_text_lem buffer o1 table.table_name (b3 ++ (b4 ++ t5)) s1,
          get_int_lem buffer o2 table.table_type (b4 ++ t5) w.type_fits s2,
          get_int_lem buffer o3 table.column_size t5 (omega (arith, w.size)) s3,
          is_negative-size table.column_size w.size,
          got_texts c.column_name_array table.column_size buffer o4 t6 w.names s4,
          got_sized c.column_type_array table.column_size buffer o5 t7 w.types w.type_ints s5,
          got_sized c.column_length_array table.column_size buffer o6 t8 w.lengths w.length_ints s6,
          got_sized c.column_index_type_array table.column_size buffer o7 b9 w.index_types
              w.index_type_ints s7,
          got_sized c.column_storage_address_array table.column_size buffer o8 [] w.addresses
              w.address_ints last,
        )
        refl

-- What serialize writes into a buffer with room for it, deserialize reads back as the same table.
pub serialize-deserialize :
    (table : ColumnTable) (buffer : Buffer) (begin : ℕ)
    → IsTable table
    → IsSize (length buffer)
    → begin + length (table_bytes table) ≤ length buffer
    → (serialize table buffer begin >>= λ w. deserialize w.0 begin) ≡ ok table
serialize-deserialize table buffer begin w small fits =
    let size = length-patch buffer begin (table_bytes table) fits in
    rw ((serialize-table_bytes table w buffer begin small fits).0) (
      deserialize-table_bytes table w (patch buffer begin (table_bytes table)) begin (record {
        same = slice-patch_self buffer begin (table_bytes table) fits;
        within = omega (arith, size);
        small = omega (arith, size);
      }))
