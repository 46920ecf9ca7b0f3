-- ===== src/Tests/Joins.antt =====
-- Joins of columns, and the header of a table.
use tiny_dbms.Base.{
  ℕ, ◌+◌, ◌≤◌, ◌≡◌, refl, List, [], ◌∷◌, arith, length, replicate, ok, codes, ◌>>=◌,
}
use tiny_dbms.Memory.Words.{int_bytes}
use tiny_dbms.Value.{of_int, of_chars}
use tiny_dbms.Scan.{Tagged}
use tiny_dbms.Join.{Row, inner_join_columns}
use tiny_dbms.Join.Columns.{Ascending, RowsAscending, values_at}
use tiny_dbms.Join.Inner.{all_values, inner_join_columns_lem}
use tiny_dbms.Memory.Buffer.{patch}
use tiny_dbms.Table.{ColumnTable, get_length, serialize, deserialize, insert_column}
use tiny_dbms.Table.Bytes.{IsTable, table_bytes}
use tiny_dbms.Table.RoundTrip.{serialize-table_bytes, serialize-deserialize}
use tiny_dbms.Table.Grow.{with_column, insert_column-IsTable}

abbrev ids : List Tagged
ids = (1, of_int 10) ∷ (2, of_int 20) ∷ (4, of_int 40) ∷ []

abbrev names : List Tagged
names = (2, of_chars (codes "b")) ∷ (3, of_chars (codes "c")) ∷ (4, of_chars (codes "d")) ∷ []

ids-Ascending : Ascending 0 ids
ids-Ascending = (omega arith, (omega arith, (omega arith, tt)))

names-Ascending : Ascending 0 names
names-Ascending = (omega arith, (omega arith, (omega arith, tt)))

inner_join_columns_lem_example :
    (rows : List Row) × (inner_join_columns [] (ids ∷ names ∷ ids ∷ []) ≡ ok rows)
    × RowsAscending 0 rows
    × ((j : ℕ) → values_at j rows ≡ all_values j (ids ∷ names ∷ ids ∷ []))
inner_join_columns_lem_example =
    inner_join_columns_lem ids (names ∷ ids ∷ [])
      (ids-Ascending, (names-Ascending, (ids-Ascending, tt)))

abbrev users : ColumnTable
users = record {
  table_name = codes "users";
  table_type = 0;
  column_size = 1;
  columns = record {
    column_name_array = codes "id" ∷ [];
    column_type_array = 0 ∷ [];
    column_length_array = 4 ∷ [];
    column_index_type_array = 0 ∷ [];
    column_storage_address_array = 2 ∷ [];
  };
}

users-IsTable : IsTable users
users-IsTable = record {
  size = omega arith;
  type_fits = omega arith;
  names = refl;
  types = refl;
  lengths = refl;
  index_types = refl;
  addresses = refl;
  type_ints = (omega arith, tt);
  length_ints = (omega arith, tt);
  index_type_ints = (omega arith, tt);
  address_ints = (omega arith, tt);
}

users_fit : 10 + length (table_bytes users) ≤ length (replicate {A = ℕ} 64 0)
unfolding int_bytes
users_fit = omega arith

serialize-table_bytes_example :
    (serialize users (replicate 64 0) 10
      ≡ ok (patch (replicate 64 0) 10 (table_bytes users), length (table_bytes users)))
    × (get_length users ≡ ok (length (table_bytes users)))
serialize-table_bytes_example =
    serialize-table_bytes users users-IsTable (replicate 64 0) 10 (omega arith) users_fit

serialize-deserialize_example :
    (serialize users (replicate 64 0) 10 >>= λ w. deserialize w.0 10) ≡ ok users
serialize-deserialize_example =
    serialize-deserialize users (replicate 64 0) 10 users-IsTable (omega arith) users_fit

insert_column-IsTable_example :
    (insert_column users (codes "name") 2 50 0 3 ≡ ok (with_column users (codes "name") 2 50 0 3))
    × IsTable (with_column users (codes "name") 2 50 0 3)
insert_column-IsTable_example =
    insert_column-IsTable users users-IsTable (codes "name") 2 50 0 3 (omega arith) (omega arith)
      (omega arith) (omega arith) (omega arith)
