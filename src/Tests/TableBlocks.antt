-- ===== src/Tests/TableBlocks.antt =====
-- A block with the header of one table.
use tiny_dbms.Base.{
  ℕ, ◌+◌, ◌*◌, ◌-◌, ◌≡◌, refl, ap, ◌∙◌, true, false, List, [], ◌∷◌, ◌++◌, arith, length,
  length-append, replicate, length-replicate, ok, codes, map,
}
use tiny_dbms.Memory.Buffer.{Buffer, patch, length-patch}
use tiny_dbms.Memory.Words.{int_bytes, length-int_bytes}
use tiny_dbms.Memory.Cursor.{texts}
use tiny_dbms.DataBlock.{block_size}
use tiny_dbms.Table.{ColumnTable, deserialize}
use tiny_dbms.Table.Bytes.{IsTable, table_bytes, length-table_bytes}
use tiny_dbms.TableBlock.{TableBlock, insert_table, serialize_header, deserialize_from_buffer}
use tiny_dbms.TableBlock.Placed.{Placed-more, bottom}
use tiny_dbms.TableBlock.InsertTable.{StoresTables, insert_table-StoresTables, insert_table_full}
use tiny_dbms.TableBlock.Header.{serialize_header-StoresTables}
use tiny_dbms.Tests.Columns.{users, users-IsTable}

abbrev users_texts : List ℕ
users_texts = texts (codes "id" ∷ [])

length-users_texts : length users_texts ≡ 6
length-users_texts = omega (
  arith,
  length-append (int_bytes 2) (codes "id" ++ []),
  length-int_bytes 2,
  length-append (codes "id") [],
)

length-users : length (table_bytes users) ≡ 39
length-users = length-table_bytes users users-IsTable ∙ omega (arith, length-users_texts)

abbrev blank : Buffer
blank = replicate 4096 0

length-blank : length blank ≡ 4096
length-blank = length-replicate {A = ℕ} 4096 0

abbrev one_table : TableBlock
one_table = record {
  table_amount = 1;
  free_space = 4045;
  next_block_pointer = 0;
  tables_begin_address = 4057 ∷ [];
  memory = patch blank 4057 (table_bytes users);
}

one_table-StoresTables : StoresTables one_table (users ∷ [])
one_table-StoresTables = record {
  sized =
      length-patch blank 4057 (table_bytes users) (omega (arith, length-users, length-blank))
      ∙ length-blank;
  counted = refl;
  placed =
      Placed-more blank block_size [] [] 4057 users tt users-IsTable (omega (arith, length-users))
        (omega (arith, length-blank)) (omega (arith, length-blank));
  above = omega arith;
}

insert_table-StoresTables_example :
    (c : TableBlock) × (insert_table one_table users ≡ ok (c, true))
    × StoresTables c ((users ∷ []) ++ (users ∷ []))
    × (c.next_block_pointer ≡ one_table.next_block_pointer)
insert_table-StoresTables_example =
    insert_table-StoresTables one_table (users ∷ []) users one_table-StoresTables users-IsTable
      (omega (arith, length-users))

abbrev long_name : ColumnTable
long_name = record users { table_name = replicate 5000 97 }

long_name-IsTable : IsTable long_name
long_name-IsTable = record {
  size = omega arith;
  type_fits = omega arith;
  names = refl;
  types = refl;
  lengths = refl;
  index_types = refl;
  addresses = refl;
  type_ints = (omega arith, tt);
  length_ints = (omega arith, tt);
  index_type_ints = (omega arith, tt);
  address_ints = (omega arith, tt);
}

length-long_name : length (table_bytes long_name) ≡ 12 + 5000 + length users_texts + 16 * 1
length-long_name =
    length-table_bytes long_name long_name-IsTable
    ∙ ap (λ n. 12 + n + length users_texts + 16 * 1) (length-replicate {A = ℕ} 5000 97)

insert_table_full_example :
    insert_table one_table long_name
    ≡ ok (
      record one_table { free_space = bottom block_size one_table.tables_begin_address - 12 },
      false,
    )
insert_table_full_example =
    insert_table_full one_table (users ∷ []) long_name one_table-StoresTables long_name-IsTable
      (omega (arith, length-long_name, length-users_texts))
      (omega (arith, length-long_name, length-users_texts))

serialize_header-StoresTables_example :
    (c : TableBlock) × (serialize_header one_table ≡ ok c)
    × ((d : TableBlock)
        → deserialize_from_buffer d c.memory
          ≡ ok (record d {
            table_amount = one_table.table_amount;
            free_space = bottom block_size one_table.tables_begin_address - 12;
            next_block_pointer = one_table.next_block_pointer;
            tables_begin_address = one_table.tables_begin_address;
          }))
    × (map (λ a. deserialize c.memory a) one_table.tables_begin_address ≡ map ok (users ∷ []))
serialize_header-StoresTables_example =
    serialize_header-StoresTables one_table (users ∷ []) one_table-StoresTables (omega arith)
      (omega arith) (omega arith)
