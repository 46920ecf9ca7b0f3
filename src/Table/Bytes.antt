-- ===== src/Table/Bytes.antt =====
-- The layout of a table header in the table block, which get_length measures.
use tiny_dbms.Base.{
  ℕ, ◌+◌, ◌*◌, ◌<◌, ◌^◌, ◌≡◌, refl, ap, ◌∙◌, sym, List, [], ◌∷◌, ◌++◌, append_assoc, arith, length,
  length-append, All, ok,
}
use native.Mathlib.Nat.{mod-eq_of_lt}
use tiny_dbms.Memory.Words.{IsInt, IsSize, int_mod, int_bytes, length-int_bytes, rounds}
use tiny_dbms.Memory.Buffer.{Buffer, patch_nothing}
use tiny_dbms.Memory.Cursor.{ints, texts, length-ints, after}
use tiny_dbms.Table.{Columns, ColumnTable, names_length, get_length}

-- Each array holds `column_size` elements, and every number is an `int`.
pub record IsTable (table : ColumnTable) : Type 0 where
  pub size : IsSize table.column_size
  pub type_fits : IsInt table.table_type
  pub names : length table.columns.column_name_array ≡ table.column_size
  pub types : length table.columns.column_type_array ≡ table.column_size
  pub lengths : length table.columns.column_length_array ≡ table.column_size
  pub index_types : length table.columns.column_index_type_array ≡ table.column_size
  pub addresses : length table.columns.column_storage_address_array ≡ table.column_size
  pub type_ints : All IsInt table.columns.column_type_array
  pub length_ints : All IsInt table.columns.column_length_array
  pub index_type_ints : All IsInt table.columns.column_index_type_array
  pub address_ints : All IsInt table.columns.column_storage_address_array

-- The arrays in the order of the comment at the top of the source, with a length before each name. The
-- comment leaves out the type of the table, which stands between its name and the number of columns.
abbrev pub arrays_bytes : Columns → List ℕ
arrays_bytes columns =
    texts columns.column_name_array
    ++ (ints columns.column_type_array
        ++ (ints columns.column_length_array
            ++ (ints columns.column_index_type_array ++ ints columns.column_storage_address_array)))

abbrev pub table_bytes : ColumnTable → List ℕ
table_bytes table =
    int_bytes (length table.table_name)
    ++ (table.table_name
        ++ (int_bytes table.table_type
            ++ (int_bytes table.column_size ++ arrays_bytes table.columns)))

-- The same bytes as the writer joins them, one piece after the other.
abbrev pub written : ColumnTable → List ℕ
written table =
    ((((((((int_bytes (length table.table_name) ++ table.table_name) ++ int_bytes table.table_type)
                ++ int_bytes table.column_size)
              ++ texts table.columns.column_name_array)
            ++ ints table.columns.column_type_array)
          ++ ints table.columns.column_length_array)
        ++ ints table.columns.column_index_type_array)
      ++ ints table.columns.column_storage_address_array)

module _ {ℓ} {A : Type ℓ} where
  regroup4 : (a b c d : List A) → ((a ++ b) ++ c) ++ d ≡ a ++ (b ++ (c ++ d))
  regroup4 a b c d = rw (append_assoc (a ++ b) c d, append_assoc a b (c ++ d)) refl

  regroup :
      (a b c d e f g h i : List A)
      → (((((((a ++ b) ++ c) ++ d) ++ e) ++ f) ++ g) ++ h) ++ i
        ≡ a ++ (b ++ (c ++ (d ++ (e ++ (f ++ (g ++ (h ++ i)))))))
  regroup a b c d e f g h i =
      let front = ((a ++ b) ++ c) ++ d in
      regroup4 ((front ++ e) ++ f) g h i
      ∙ regroup4 front e f (g ++ (h ++ i))
      ∙ append_assoc ((a ++ b) ++ c) d (e ++ (f ++ (g ++ (h ++ i))))
      ∙ regroup4 a b c (d ++ (e ++ (f ++ (g ++ (h ++ i)))))

pub written-table_bytes : (table : ColumnTable) → written table ≡ table_bytes table
written-table_bytes table =
    regroup (int_bytes (length table.table_name)) table.table_name (int_bytes table.table_type)
      (int_bytes table.column_size) (texts table.columns.column_name_array)
      (ints table.columns.column_type_array) (ints table.columns.column_length_array)
      (ints table.columns.column_index_type_array) (ints table.columns.column_storage_address_array)

length-arrays_bytes :
    (table : ColumnTable)
    → IsTable table
    → length (arrays_bytes table.columns)
      ≡ length (texts table.columns.column_name_array) + 16 * table.column_size
length-arrays_bytes table w =
    let c = table.columns in
    let a = ints c.column_type_array in
    let b = ints c.column_length_array in
    let d = ints c.column_index_type_array in
    let e = ints c.column_storage_address_array in
    omega (
      arith,
      length-append (texts c.column_name_array) (a ++ (b ++ (d ++ e))),
      length-append a (b ++ (d ++ e)),
      length-append b (d ++ e),
      length-append d e,
      length-ints c.column_type_array,
      length-ints c.column_length_array,
      length-ints c.column_index_type_array,
      length-ints c.column_storage_address_array,
      w.types,
      w.lengths,
      w.index_types,
      w.addresses,
    )

pub length-table_bytes :
    (table : ColumnTable)
    → IsTable table
    → length (table_bytes table)
      ≡ 12
        + length table.table_name
        + length (texts table.columns.column_name_array)
        + 16 * table.column_size
length-table_bytes table w =
    let size = int_bytes table.column_size ++ arrays_bytes table.columns in
    omega (
      arith,
      length-append table.table_name (int_bytes table.table_type ++ size),
      length-arrays_bytes table w,
      length-int_bytes (length table.table_name),
      length-int_bytes table.table_type,
      length-int_bytes table.column_size,
      length-append (int_bytes (length table.table_name))
          (table.table_name ++ (int_bytes table.table_type ++ size)),
      length-append (int_bytes table.table_type) size,
      length-append (int_bytes table.column_size) (arrays_bytes table.columns),
    )

names_length_lem :
    (names : List (List ℕ)) (total : ℕ)
    → total + length (texts names) < int_mod
    → names_length (length names) names total ≡ ok (total + length (texts names))
unfolding names_length
names_length_lem [] total h = ground arith
names_length_lem (name ∷ names) total h =
    let whole = length-append (int_bytes (length name)) (name ++ texts names) in
    let rest = length-append name (texts names) in
    let four = length-int_bytes (length name) in
    ap (λ t. names_length (length names) names t)
      (mod-eq_of_lt {n = total + 4 + length name} {m = 2 ^ 32} (omega (arith, whole, rest, four)))
    ∙ names_length_lem names (total + 4 + length name) (omega (arith, whole, rest, four))
    ∙ ap ok (omega (arith, whole, rest, four))

pub rounds_size : (n : ℕ) → IsSize n → rounds n ≡ n
rounds_size n h = ground arith

pub get_length_lem :
    (table : ColumnTable)
    → IsTable table
    → length (table_bytes table) < int_mod
    → get_length table ≡ ok (length (table_bytes table))
unfolding get_length
get_length_lem table w h =
    let total = length-table_bytes table w in
    let c = table.columns in
    let start = 4 + length table.table_name + 4 + 4 in
    rw
      (
        rounds_size table.column_size w.size,
        sym w.names,
        mod-eq_of_lt {n = start} {m = 2 ^ 32} (omega (arith, total)),
        names_length_lem c.column_name_array start (omega (arith, total)),
        w.names,
      )
      (ap ok (omega (arith, total)))

-- The writer that serialize starts from.
pub start_writer :
    (buffer : Buffer) (begin : ℕ) (small : IsSize (length buffer))
    → (buffer, 0) ≡ after buffer begin small []
start_writer buffer begin small = rw (patch_nothing buffer begin) refl
