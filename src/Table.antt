-- ===== src/Table.antt =====
-- include/meta/table/column_table.h and include/meta/column/column_array.h: the header of a table.
pub mod Bytes
pub mod RoundTrip
pub mod Grow
use tiny_dbms.Base.{
  ℕ, zero, suc, ◌+◌, ◌*◌, ◌%◌, not, List, [], ◌∷◌, ◌++◌, length, Result, ok, fault, bad_length,
  require, ◌>>=◌, ◌>>◌, if◌then◌else◌, ◌==◌,
}
use tiny_dbms.Memory.Words.{int_mod, sizeof_int, add_int, int_bytes, is_negative, rounds}
use tiny_dbms.Memory.Buffer.{Buffer}
use tiny_dbms.Memory.Cursor.{Writer, put, put_ints, put_texts}
use tiny_dbms.Memory.Reader.{get_int, get_text, get_ints, get_texts}

-- Five arrays, as lists of their elements.
pub record Columns : Type 0 where
  pub column_name_array : List (List ℕ)
  pub column_type_array : List ℕ
  pub column_length_array : List ℕ
  pub column_index_type_array : List ℕ
  pub column_storage_address_array : List ℕ

pub record ColumnTable : Type 0 where
  pub table_name : List ℕ
  pub table_type : ℕ
  pub column_size : ℕ
  pub columns : Columns

abbrev pub no_columns : Columns
no_columns = record {
  column_name_array = [];
  column_type_array = [];
  column_length_array = [];
  column_index_type_array = [];
  column_storage_address_array = [];
}

-- The first `n` elements, copied one by one into a longer array, and one more.
unfoldable pub grown {ℓ} : {A : Type ℓ} → ℕ → List A → A → Result (List A)
grown zero array x = ok (x ∷ [])
grown (suc n) [] x = fault
grown (suc n) (y ∷ array) x = do rest ← grown n array x; ok (y ∷ rest)

-- With no column yet all five arrays are made anew.
unfoldable pub insert_column : ColumnTable → List ℕ → ℕ → ℕ → ℕ → ℕ → Result ColumnTable
insert_column table column_name column_type column_length column_index_type column_storage_address =
    let n = rounds table.column_size in
    do
      names ← grown n table.columns.column_name_array column_name
      types ← grown n table.columns.column_type_array column_type
      lengths ← grown n table.columns.column_length_array column_length
      index_types ← grown n table.columns.column_index_type_array column_index_type
      addresses ← grown n table.columns.column_storage_address_array column_storage_address
      ok (record table {
        column_size = add_int table.column_size 1;
        columns = record {
          column_name_array = names;
          column_type_array = types;
          column_length_array = lengths;
          column_index_type_array = index_types;
          column_storage_address_array = addresses;
        };
      })

-- The sum over the names, each with the four bytes of its length.
unfoldable pub names_length : ℕ → List (List ℕ) → ℕ → Result ℕ
names_length zero names total = ok total
names_length (suc n) [] total = fault
names_length (suc n) (name ∷ names) total =
    names_length n names ((total + sizeof_int + length name) % int_mod)

-- The sums are `size_t`, and each is stored in an `int`.
unfoldable pub get_length : ColumnTable → Result ℕ
get_length table = do
  named ←
      names_length (rounds table.column_size) table.columns.column_name_array
        ((sizeof_int + length table.table_name + sizeof_int + sizeof_int) % int_mod)
  ok ((named + 4 * (table.column_size * sizeof_int)) % int_mod)

-- The buffer, and the returned offset.
unfoldable pub serialize : ColumnTable → Buffer → ℕ → Result Writer
serialize table buffer begin_offset =
    let n = rounds table.column_size in
    do
      w1 ← put begin_offset (int_bytes (length table.table_name % int_mod)) (buffer, 0)
      w2 ← put begin_offset table.table_name w1
      w3 ← put begin_offset (int_bytes table.table_type) w2
      w4 ← put begin_offset (int_bytes table.column_size) w3
      w5 ← put_texts begin_offset n table.columns.column_name_array w4
      w6 ← put_ints begin_offset n table.columns.column_type_array w5
      w7 ← put_ints begin_offset n table.columns.column_length_array w6
      w8 ← put_ints begin_offset n table.columns.column_index_type_array w7
      put_ints begin_offset n table.columns.column_storage_address_array w8

-- `new string[column_size]` throws on a negative size. The object's former state is overwritten.
unfoldable pub deserialize : Buffer → ℕ → Result ColumnTable
deserialize buffer read_offset = do
  (table_name_size, o1) ← get_int buffer read_offset
  (table_name, o2) ← get_text buffer table_name_size o1
  (table_type, o3) ← get_int buffer o2
  (column_size, o4) ← get_int buffer o3
  require (not (is_negative column_size)) bad_length
  (names, o5) ← get_texts column_size buffer o4
  (types, o6) ← get_ints column_size buffer o5
  (lengths, o7) ← get_ints column_size buffer o6
  (index_types, o8) ← get_ints column_size buffer o7
  (addresses, o9) ← get_ints column_size buffer o8
  ok (record {
    table_name = table_name;
    table_type = table_type;
    column_size = column_size;
    columns = record {
      column_name_array = names;
      column_type_array = types;
      column_length_array = lengths;
      column_index_type_array = index_types;
      column_storage_address_array = addresses;
    };
  })
