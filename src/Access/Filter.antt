-- ===== src/Access/Filter.antt =====
-- FilterLoad on a whole column, with a comparator and without.
use tiny_dbms.Base.{
  ℕ, ◌+◌, ◌^◌, ◌≤◌, ◌<◌, ◌≡◌, refl, ap, ◌∙◌, sym, List, [], ◌∷◌, ◌++◌, arith, length, ok, none,
  some, All, Bool, Bool-cases, inl, inr,
}
use tiny_dbms.Memory.Buffer.{Buffer}
use tiny_dbms.StdMap.{find, string_key}
use tiny_dbms.Value.{ValueType, Value, get_enum_type}
use tiny_dbms.Value.Compare.{Floats}
use tiny_dbms.DataBlock.{block_size}
use tiny_dbms.Sql.{Comparator}
use tiny_dbms.Scan.{serialize_op, filter_op}
use tiny_dbms.Scan.Spec.{passes, numbered, kept, com_result, Comparable}
use tiny_dbms.Scan.Correct.{serialize_op_lem, filter_op_lem}
use tiny_dbms.Storage.Files.{Files, get_table_data_file}
use tiny_dbms.Storage.Pool.{BlockSlot}
use tiny_dbms.Storage.Watcher.{finished}
use tiny_dbms.Table.{ColumnTable}
use tiny_dbms.Access.{Db, filter_load, get_column, array_at}
use tiny_dbms.Access.Chain.{Chain, ChainAt, all_values, resting}
use tiny_dbms.Access.Load.{outs, AllGood, filter_blocks_lem}

kept-append :
    (p : Value → Bool) (vs ws : List Value) (tag : ℕ)
    → kept p tag (vs ++ ws) ≡ kept p tag vs ++ kept p (tag + length vs) ws
kept-append p [] ws tag = ap (λ n. kept p n ws) (omega arith)
kept-append p (v ∷ vs) ws tag =
    let shift : kept p (tag + 1 + length vs) ws ≡ kept p (tag + length (v ∷ vs)) ws =
      ap (λ n. kept p n ws) (omega arith) in
    elim (Bool-cases (p v)) [
      | inl h ↦
          rw (h, kept-append p vs ws (tag + 1))
            (ap (λ rs. (tag, v) ∷ (kept p (tag + 1) vs ++ rs)) shift)
      | inr h ↦ rw (h, kept-append p vs ws (tag + 1)) (ap (λ rs. kept p (tag + 1) vs ++ rs) shift)
    ]

numbered-append :
    (vs ws : List Value) (tag : ℕ)
    → numbered tag (vs ++ ws) ≡ numbered tag vs ++ numbered (tag + length vs) ws
numbered-append [] ws tag = ap (λ n. numbered n ws) (omega arith)
numbered-append (v ∷ vs) ws tag =
    ap (λ rs. (tag, v) ∷ rs)
      (numbered-append vs ws (tag + 1)
        ∙ ap (λ n. numbered (tag + 1) vs ++ numbered n ws) (omega arith))

outs-kept :
    (p : Value → Bool) (cs : Chain) (tag : ℕ)
    → outs (λ vs n. kept p n vs) cs tag ≡ kept p tag (all_values cs)
outs-kept p [] tag = refl
outs-kept p ((a, vs) ∷ cs) tag =
    ap (λ rs. kept p tag vs ++ rs) (outs-kept p cs (tag + length vs))
    ∙ sym (kept-append p vs (all_values cs) tag)

outs-numbered :
    (cs : Chain) (tag : ℕ) → outs (λ vs n. numbered n vs) cs tag ≡ numbered tag (all_values cs)
outs-numbered [] tag = refl
outs-numbered ((a, vs) ∷ cs) tag =
    ap (λ rs. numbered tag vs ++ rs) (outs-numbered cs (tag + length vs))
    ∙ sym (numbered-append vs (all_values cs) tag)

All-blocks : (P : Value → Type 0) (cs : Chain) → All P (all_values cs) → AllGood (All P) cs
All-blocks P [] h = tt
All-blocks P ((a, vs) ∷ cs) h =
    let (here, there) = All-split P vs (all_values cs) h in (here, All-blocks P cs there)
  where
    All-split : (P : Value → Type 0) (vs ws : List Value) → All P (vs ++ ws) → All P vs × All P ws
    All-split P [] ws h = (tt, h)
    All-split P (v ∷ vs) ws (hv, h) = let (front, back) = All-split P vs ws h in ((hv, front), back)

AllGood-trivial : (cs : Chain) → AllGood (λ vs. Unit {0}) cs
AllGood-trivial [] = tt
AllGood-trivial ((a, vs) ∷ cs) = (tt, AllGood-trivial cs)

-- A column of a database: where its chain of blocks begins, and what it stores.
pub record ColumnHolds (db : Db) (table_name col_name : List ℕ) (file : Buffer) (t : ValueType)
    (cs : Chain) : Type 0 where
  pub table : ColumnTable
  pub column_offset : ℕ
  pub address : ℕ
  pub first : List Value
  pub others : Chain
  pub looked_up : get_column db table_name col_name ≡ ok (some (table, column_offset))
  pub begins : array_at table.columns.column_storage_address_array column_offset ≡ ok address
  pub shape : cs ≡ (address, first) ∷ others
  pub stands : ChainAt file t ((address, first) ∷ others)
  pub few : length (all_values ((address, first) ∷ others)) < 2 ^ 64

module _ (fl : Floats) (db : Db) (table_name col_name install_path : List ℕ) (rest : List BlockSlot)
    (files : Files) (file : Buffer)
    (present : find (get_table_data_file install_path db.db_name table_name) files ≡ some file)
    (memory : Buffer) (read_list : List ℕ) (times fuel : ℕ)
    (sized : length memory ≡ block_size) where
  -- With a comparator, FilterLoad over a column that stores values of the given value's own type, all
  -- of which can be compared with it, returns exactly those whose comparison is positive for `>`,
  -- negative for `<`, zero for `=` or not zero for `!=`, in the order of the chain and each with its
  -- place among all values of the column as its tag, and gives back every block that it took, where no
  -- other thread has one. Fuel for the blocks of the chain is enough.
  pub filter_load_compare :
      (comparator : Comparator) (compare_value : Value) (cs : Chain)
      → ColumnHolds db table_name col_name file compare_value.value_type cs
      → All (λ v. Comparable fl v compare_value) (all_values cs)
      → length cs ≤ fuel
      → (memory' : Buffer) × (read_list' : List ℕ) × (times' : ℕ) × (filter_load fl fuel
            (resting db table_name install_path rest files file present memory read_list times)
            db
            table_name
            col_name
            (some (comparator, compare_value))
          ≡ ok (
            resting db table_name install_path rest files file present memory' read_list' times',
            finished
                (kept (λ v. passes comparator (com_result fl v compare_value)) 0 (all_values cs)),
          ))
        × (length memory' ≡ block_size)
  unfolding filter_load
  filter_load_compare comparator compare_value cs c comparable enough =
      let t = compare_value.value_type in
      let p = λ (v : Value). passes comparator (com_result fl v compare_value) in
      let good = All-blocks (λ v. Comparable fl v compare_value) cs comparable in
      let (memory', read_list', times', done, sized') =
        filter_blocks_lem (λ b. filter_op fl b comparator compare_value) (λ vs n. kept p n vs) t
          (All (λ v. Comparable fl v compare_value))
          (λ b vs results tag stores g h.
            filter_op_lem fl comparator compare_value b vs results tag stores g h)
          db table_name install_path rest files file present col_name c.table c.column_offset
          c.address c.first c.others c.looked_up c.begins c.stands (rw c.shape at good) c.few memory
          read_list times fuel sized (omega (arith, ap length c.shape)) in
      (
        memory',
        read_list',
        times',
        done
            ∙ ap
                (λ rs. ok (
                  resting db table_name install_path rest files file present memory' read_list'
                      times',
                  finished rs,
                ))
                (outs-kept p ((c.address, c.first) ∷ c.others) 0
                  ∙ ap (λ chain. kept p 0 (all_values chain)) (sym c.shape)),
        sized',
      )

  -- Without a comparator it returns all values of the column, numbered in the order of the chain,
  -- where the header of the table gives the type of the values, and gives back every block that it
  -- took, where no other thread has one. Fuel for the blocks of the chain is enough.
  pub filter_load_all :
      (t : ValueType) (cs : Chain) (type_number : ℕ)
      (c : ColumnHolds db table_name col_name file t cs)
      → array_at c.table.columns.column_type_array c.column_offset ≡ ok type_number
      → get_enum_type type_number ≡ ok t
      → length cs ≤ fuel
      → (memory' : Buffer) × (read_list' : List ℕ) × (times' : ℕ) × (filter_load fl fuel
            (resting db table_name install_path rest files file present memory read_list times)
            db
            table_name
            col_name
            none
          ≡ ok (
            resting db table_name install_path rest files file present memory' read_list' times',
            finished (numbered 0 (all_values cs)),
          ))
        × (length memory' ≡ block_size)
  unfolding filter_load
  filter_load_all t cs type_number c typed enumerated enough =
      let (memory', read_list', times', done, sized') =
        filter_blocks_lem (λ b. serialize_op b t) (λ vs n. numbered n vs) t (λ vs. Unit {0})
          (λ b vs results tag stores g h. serialize_op_lem b t vs results tag stores h) db
          table_name install_path rest files file present col_name c.table c.column_offset c.address
          c.first c.others c.looked_up c.begins c.stands
          (AllGood-trivial ((c.address, c.first) ∷ c.others)) c.few memory read_list times fuel
          sized (omega (arith, ap length c.shape)) in
      (
        memory',
        read_list',
        times',
        rw (c.looked_up, typed, enumerated)
            (done
              ∙ ap
                  (λ rs. ok (
                    resting db table_name install_path rest files file present memory' read_list'
                        times',
                    finished rs,
                  ))
                  (outs-numbered ((c.address, c.first) ∷ c.others) 0
                    ∙ ap (λ chain. numbered 0 (all_values chain)) (sym c.shape))),
        sized',
      )
