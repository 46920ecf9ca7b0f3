-- ===== src/Table/Grow.antt =====
-- InsertColumn adds one column at the end of all five arrays.
use tiny_dbms.Base.{
  ℕ, zero, suc, ◌≡◌, refl, List, [], ◌∷◌, ◌++◌, arith, length, length-append, All, ok,
}
use tiny_dbms.Memory.Words.{IsInt, IsSize, add_int-lt}
use tiny_dbms.Table.{ColumnTable, grown, insert_column}
use tiny_dbms.Table.Bytes.{IsTable, rounds_size}

grown_lem {ℓ} :
    {A : Type ℓ}
    → (array : List A) (n : ℕ) (x : A) → length array ≡ n
    → grown n array x ≡ ok (array ++ (x ∷ []))
unfolding grown
grown_lem [] zero x e = refl
grown_lem [] (suc n) x e = absurd (omega arith)
grown_lem (y ∷ array) zero x e = absurd (omega arith)
grown_lem (y ∷ array) (suc n) x e = rw (grown_lem array n x (omega arith)) refl

All-snoc {ℓ} :
    {A : Type ℓ}
    → (P : A → Type ℓ) (array : List A) (x : A) → All P array
    → P x
    → All P (array ++ (x ∷ []))
All-snoc P [] x h hx = (hx, tt)
All-snoc P (y ∷ array) x (hy, h) hx = (hy, All-snoc P array x h hx)

abbrev pub with_column : ColumnTable → List ℕ → ℕ → ℕ → ℕ → ℕ → ColumnTable
with_column table name type size index_type address = record table {
  column_size = suc table.column_size;
  columns = record {
    column_name_array = table.columns.column_name_array ++ (name ∷ []);
    column_type_array = table.columns.column_type_array ++ (type ∷ []);
    column_length_array = table.columns.column_length_array ++ (size ∷ []);
    column_index_type_array = table.columns.column_index_type_array ++ (index_type ∷ []);
    column_storage_address_array = table.columns.column_storage_address_array ++ (address ∷ []);
  };
}

module _ (table : ColumnTable) (w : IsTable table) (name : List ℕ)
    (type size index_type address : ℕ) (type_int : IsInt type) (size-IsInt : IsInt size)
    (index_int : IsInt index_type) (address_int : IsInt address)
    (more : IsSize (suc table.column_size)) where
  -- While the amount of columns stays an int, insert_column puts the column behind the others,
  -- keeps those as they are, and the table well formed.
  pub insert_column-IsTable :
      (insert_column table name type size index_type address
        ≡ ok (with_column table name type size index_type address))
      × IsTable (with_column table name type size index_type address)
  unfolding insert_column
  insert_column-IsTable =
      let c = table.columns in
      (
        rw
            (
              rounds_size table.column_size w.size,
              grown_lem c.column_name_array table.column_size name w.names,
              grown_lem c.column_type_array table.column_size type w.types,
              grown_lem c.column_length_array table.column_size size w.lengths,
              grown_lem c.column_index_type_array table.column_size index_type w.index_types,
              grown_lem c.column_storage_address_array table.column_size address w.addresses,
              add_int-lt table.column_size 1 (omega (arith, more)),
            )
            (ground arith),
        record {
          size = more;
          type_fits = w.type_fits;
          names = omega (arith, w.names, length-append c.column_name_array (name ∷ []));
          types = omega (arith, w.types, length-append c.column_type_array (type ∷ []));
          lengths = omega (arith, w.lengths, length-append c.column_length_array (size ∷ []));
          index_types =
              omega
                (arith, w.index_types, length-append c.column_index_type_array (index_type ∷ []));
          addresses =
              omega
                (arith, w.addresses, length-append c.column_storage_address_array (address ∷ []));
          type_ints = All-snoc IsInt c.column_type_array type w.type_ints type_int;
          length_ints = All-snoc IsInt c.column_length_array size w.length_ints size-IsInt;
          index_type_ints =
              All-snoc IsInt c.column_index_type_array index_type w.index_type_ints index_int;
          address_ints =
              All-snoc IsInt c.column_storage_address_array address w.address_ints address_int;
        },
      )
