-- ===== src/Access/Lookup.antt =====
-- What GetTable and GetColumn find.
use tiny_dbms.Base.{
  ℕ, suc, ◌+◌, ◌≤◌, ◌<◌, ◌≡◌, refl, ap, ◌∙◌, sym, Bool-cases, inl, inr, List, [], ◌∷◌, arith,
  length, ok, none, some, ◌=str=◌, str_eq→eq, if◌then◌else◌,
}
use tiny_dbms.Table.{ColumnTable}
use tiny_dbms.Table.Bytes.{IsTable, rounds_size}
use tiny_dbms.Access.{Db, get_table, get_column, column_loop}

pub get_table_named :
    (tables : List ColumnTable) (table_name : List ℕ) (table : ColumnTable)
    → get_table tables table_name ≡ some table
    → table.table_name ≡ table_name
unfolding get_table
get_table_named [] table_name table h = ground arith
get_table_named (t ∷ tables) table_name table h =
    elim (Bool-cases (t.table_name =str= table_name)) [
      | inl e ↦
          let here : some t ≡ some table = rw e at h in
          ap_name (some_eq t table here) (str_eq→eq t.table_name table_name e)
      | inr e ↦ get_table_named tables table_name table (rw e at h)
    ]
  where
    some_eq : (a b : ColumnTable) → some a ≡ some b → a ≡ b
    some_eq a b e = ap (λ o. elim o [ none ↦ a | some x ↦ x ]) e

    ap_name : {a b : ColumnTable} {n : List ℕ} → a ≡ b → a.table_name ≡ n → b.table_name ≡ n
    ap_name e k = rw (sym e) k

-- The first place of a name, or 0 if no column has it.
unfoldable pub first_place : List ℕ → List (List ℕ) → ℕ → ℕ
first_place column_name [] i = 0
first_place column_name (name ∷ names) i =
    let rest = first_place column_name names (suc i) in if name =str= column_name then i else rest

column_loop_lem :
    (names : List (List ℕ)) (column_name : List ℕ) (i : ℕ)
    → column_loop (length names) i names column_name ≡ ok (first_place column_name names i)
unfolding column_loop first_place
column_loop_lem [] column_name i = refl
column_loop_lem (name ∷ names) column_name i =
    ground (arith, column_loop_lem names column_name (suc i))

first_place-lt :
    (column_name : List ℕ) (names : List (List ℕ)) (i n : ℕ)
    → i + length names ≤ n
    → 0 < n
    → first_place column_name names i < n
unfolding first_place
first_place-lt column_name [] i n h k = k
first_place-lt column_name (name ∷ names) i n h k =
    ground (arith, first_place-lt column_name names (suc i) n)

module _ (db : Db) (table_name column_name : List ℕ) (table : ColumnTable) (w : IsTable table)
    (found : get_table db.tables table_name ≡ some table) where
  -- In a well-formed table with at least one column, GetColumn finds the first column that has the
  -- name; where no column has it, it answers with the first column of the table as if it had been found.
  pub get_column_lem :
      0 < table.column_size
      → get_column db table_name column_name
        ≡ ok (some (table, first_place column_name table.columns.column_name_array 0))
  unfolding get_column
  get_column_lem some_column =
      let below =
        first_place-lt column_name table.columns.column_name_array 0 table.column_size
          (omega (arith, w.names)) some_column in
      let loop =
        ap (λ n. column_loop n 0 table.columns.column_name_array column_name)
          (rounds_size table.column_size w.size ∙ sym w.names)
        ∙ column_loop_lem table.columns.column_name_array column_name 0 in
      rw (get_column, found, loop) (ground (arith, below, w.size))
