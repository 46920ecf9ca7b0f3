-- ===== src/Access/Reread.antt =====
-- InsertIntoTable, and then FilterLoad of the same column: the value is among those that are loaded.
use std.Path.{subst}
use tiny_dbms.Base.{
  ℕ, suc, ◌+◌, ◌≤◌, ◌<◌, ◌^◌, ◌≡◌, refl, ap, ◌∙◌, sym, List, [], ◌∷◌, ◌++◌, append_assoc, arith,
  length, length-append, ok, some, none,
}
use tiny_dbms.Memory.Buffer.{Buffer}
use tiny_dbms.StdMap.{find, string_key}
use tiny_dbms.Value.{ValueType, Value, enum_number, get_enum_type}
use tiny_dbms.Value.Compare.{Floats}
use tiny_dbms.Value.Encode.{IsStored, encoding}
use tiny_dbms.DataBlock.{block_size}
use tiny_dbms.Scan.Spec.{numbered}
use tiny_dbms.Storage.Files.{Files, get_table_data_file}
use tiny_dbms.Storage.Pool.{BlockSlot}
use tiny_dbms.Storage.Watcher.{LockWatcher, finished}
use tiny_dbms.Storage.Cycle.{at_rest, unused}
use tiny_dbms.Access.{Db, array_at, insert_into_table, filter_load}
use tiny_dbms.Access.Chain.{Chain, ChainAt, next_address, all_values}
use tiny_dbms.Access.Grow.{Grown, in_last, in_new, further, Distinct, Aligned}
use tiny_dbms.Access.Filter.{ColumnHolds, filter_load_all}
use tiny_dbms.Access.Insert.{insert_into_table_lem}
use tiny_dbms.Sql.{SqlResponse, success}

-- The values of a chain that has grown are those from before, with the new one among them.
Grown-values :
    (v : Value) (cs cs' : Chain)
    → Grown v cs cs'
    → (before : List Value) × (after : List Value) × (all_values cs ≡ before ++ after)
      × (all_values cs' ≡ before ++ (v ∷ after))
Grown-values v _ _ (in_last a vs) = ([], vs ++ [], refl, refl)
Grown-values v _ _ (in_new a n vs) = (vs, [], refl, refl)
Grown-values v _ _ (further a vs {cs} {cs'} g) =
    let (before, after, old, new) = Grown-values v cs cs' g in
    (
      vs ++ before,
      after,
      ap (◌++◌ vs) old ∙ sym (append_assoc vs before after),
      ap (◌++◌ vs) new ∙ sym (append_assoc vs before (v ∷ after)),
    )

Grown-block :
    (v : Value) (cs cs' : Chain)
    → Grown v cs cs'
    → (a : ℕ) × (vs : List Value) × (others : Chain) × (cs' ≡ (a, vs) ∷ others)
Grown-block v _ _ (in_last a vs) = (a, v ∷ vs, [], refl)
Grown-block v _ _ (in_new a n vs) = (a, vs, (n, v ∷ []) ∷ [], refl)
Grown-block v _ _ (further a vs {cs} {cs'} g) = (a, vs, cs', refl)

length-Grown : (v : Value) (cs cs' : Chain) → Grown v cs cs' → length cs' ≤ suc (length cs)
length-Grown v _ _ (in_last a vs) = omega arith
length-Grown v _ _ (in_new a n vs) = omega arith
length-Grown v _ _ (further a vs {cs} {cs'} g) = omega (arith, length-Grown v cs cs' g)

-- The column holds the chain that has grown, at the address that the header of the table knows.
Grown-ColumnHolds :
    (db : Db) (table_name col_name : List ℕ) (file file' : Buffer) (t : ValueType) (v : Value)
    (cs cs' : Chain) (c : ColumnHolds db table_name col_name file t cs)
    → Grown v cs cs'
    → next_address cs' ≡ next_address cs
    → ChainAt file' t cs'
    → suc (length (all_values cs)) < 2 ^ 64
    → (c' : ColumnHolds db table_name col_name file' t cs') × (c'.table ≡ c.table)
      × (c'.column_offset ≡ c.column_offset)
Grown-ColumnHolds db table_name col_name file file' t v cs cs' c grown begins stands few =
    let (a, vs, others, shape) = Grown-block v cs cs' grown in
    let (before, after, old, new) = Grown-values v cs cs' grown in
    let address : (a ≡ c.address) =
      sym (ap next_address shape) ∙ begins ∙ ap next_address c.shape in
    (
      record {
        table = c.table;
        column_offset = c.column_offset;
        address = a;
        first = vs;
        others = others;
        looked_up = c.looked_up;
        begins = c.begins ∙ ap ok (sym address);
        shape = shape;
        stands = subst (ChainAt file' t) shape stands;
        few = omega (
          arith,
          few,
          ap (λ z. length (all_values z)) shape,
          ap length old,
          ap length new,
          length-append before after,
          length-append before (v ∷ after),
        );
      },
      refl,
      refl,
    )

-- Where InsertIntoTable stores a value in a column, FilterLoad without a comparator over the state that
-- it leaves returns the values that the column had with the new one, without its raw text, among them,
-- numbered in the order of the chain. The conditions are those of InsertIntoTable, with the numbers of
-- the header that name the type and less than 2^64 values; one more unit of fuel is enough for the load.
pub insert-then-load :
    (fl : Floats) (db : Db) (table_name col_name install_path : List ℕ) (rest : List BlockSlot)
    (files : Files) (file : Buffer) (n : ℕ) (t : ValueType) (v : Value) (s : IsStored t v)
    (raw : List ℕ) (cs : Chain) (c : ColumnHolds db table_name col_name file t cs)
    (memory second : Buffer) (read_list : List ℕ) (times fuel : ℕ) (response : SqlResponse)
    → find (get_table_data_file install_path db.db_name table_name) files ≡ some file
    → Aligned file n
    → array_at c.table.columns.column_type_array c.column_offset ≡ ok (enum_number t)
    → get_enum_type (enum_number t) ≡ ok t
    → c.table.table_name ≡ table_name
    → Distinct cs
    → 16 + length (encoding s) < block_size
    → length memory ≡ block_size
    → length second ≡ block_size
    → length cs ≤ fuel
    → suc (length (all_values cs)) < 2 ^ 64
    → (w : LockWatcher) × (w' : LockWatcher) × (before : List Value) × (after : List Value)
      × (insert_into_table fuel
            (at_rest (unused memory ∷ unused second ∷ rest) read_list times files install_path)
            db
            table_name
            col_name
            (record v { raw_value = raw })
            response
          ≡ ok (w, finished (record response { sql_state = success })))
      × (all_values cs ≡ before ++ after)
      × (filter_load fl (suc fuel) w db table_name col_name none
          ≡ ok (w', finished (numbered 0 (before ++ (v ∷ after)))))
insert-then-load fl db table_name col_name install_path rest files file n t v s raw cs c memory
      second read_list times fuel response present aligned typed enumerated named distinct fits
      sized sized2 enough few =
    let i =
      insert_into_table_lem db table_name col_name install_path rest files file n t v s raw cs c
        memory second read_list times fuel response present aligned typed named distinct fits sized
        sized2 enough in
    let (before, after, old, new) = Grown-values v cs i.chain' i.grown in
    let (c', same_table, same_offset) =
      Grown-ColumnHolds db table_name col_name file i.file' t v cs i.chain' c i.grown i.begins
        i.stands few in
    let (memory', read_list', times', done, sized') =
      filter_load_all fl db table_name col_name install_path (unused i.second ∷ rest) i.files'
        i.file' i.present i.first i.read_list i.times (suc fuel) i.first_sized t i.chain'
        (enum_number t) c' (rw (same_table, same_offset) typed) enumerated
        (omega (arith, enough, length-Grown v cs i.chain' i.grown)) in
    (
      _,
      _,
      before,
      after,
      i.returns,
      old,
      done
          ∙ ap
              (λ vs. ok (
                at_rest (unused memory' ∷ unused i.second ∷ rest) read_list' times' i.files'
                    install_path,
                finished (numbered 0 vs),
              ))
              new,
    )
