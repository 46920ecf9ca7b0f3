-- ===== src/Select/Loads.antt =====
-- The loop of SelectColsWithCondition over the columns: what is loaded for each of them, one thread at
-- work.
use tiny_dbms.Base.{
  ℕ, ◌+◌, ◌≤◌, ◌≡◌, refl, ap, ◌∙◌, sym, inl, inr, Bool, Bool-cases, List, [], ◌∷◌, ◌++◌,
  append_assoc, append-nil, All, Option, none, some, length, arith, ok,
}
use tiny_dbms.StdMap.{find, string_key}
use tiny_dbms.Memory.Buffer.{Buffer}
use tiny_dbms.Value.{Value, ValueType, get_enum_type}
use tiny_dbms.Value.Compare.{Floats}
use tiny_dbms.DataBlock.{block_size}
use tiny_dbms.Sql.{Column, CompareCondition, Comparator}
use tiny_dbms.Scan.{Tagged}
use tiny_dbms.Scan.Spec.{passes, numbered, kept, com_result, Comparable}
use tiny_dbms.Join.Columns.{Ascending}
use tiny_dbms.Storage.Files.{Files, get_table_data_file}
use tiny_dbms.Storage.Pool.{BlockSlot}
use tiny_dbms.Storage.Watcher.{LockWatcher, finished}
use tiny_dbms.Access.{Db, array_at, filter_load, ◌>>→◌}
use tiny_dbms.Access.Chain.{Chain, ChainAt, all_values, resting}
use tiny_dbms.Access.Filter.{ColumnHolds, filter_load_compare, filter_load_all}
use tiny_dbms.Operate.Row.{Reads, init-Reads}
use tiny_dbms.Select.{load_argument, load_columns, init_condition_map}
use tiny_dbms.Select.Spec.{FirstOn, NoneOn, condition_none, condition_first}
use tiny_dbms.Select.Answer.{HasText}
use tiny_dbms.Select.Texts.{AllTagged, numbered_hold, kept_hold, chain_texts}
use std.Path.{subst}

-- A scan numbers its values upwards.
numbered-Ascending : (tag : ℕ) (vs : List Value) → Ascending tag (numbered tag vs)
numbered-Ascending tag [] = tt
numbered-Ascending tag (v ∷ vs) = (omega arith, numbered-Ascending (tag + 1) vs)

Ascending-mono : (lo hi : ℕ) (col : List Tagged) → lo ≤ hi → Ascending hi col → Ascending lo col
Ascending-mono lo hi [] h a = tt
Ascending-mono lo hi ((t, v) ∷ col) h (le, a) = (omega (arith, h, le), a)

kept-Ascending : (p : Value → Bool) (tag : ℕ) (vs : List Value) → Ascending tag (kept p tag vs)
kept-Ascending p tag [] = tt
kept-Ascending p tag (v ∷ vs) = elim (Bool-cases (p v)) [
  | inl h ↦ rw h (omega arith, kept-Ascending p (tag + 1) vs)
  | inr h ↦ rw h (
      Ascending-mono tag (tag + 1) (kept p (tag + 1) vs) (omega arith)
        (kept-Ascending p (tag + 1) vs))
]

module _ (fl : Floats) (db : Db) (table_name install_path : List ℕ) (rest : List BlockSlot)
    (files : Files) (file : Buffer) (fuel : ℕ) (typed : List CompareCondition) where
  abbrev conditions_map : List (List ℕ × List CompareCondition)
  conditions_map = init_condition_map [] typed

  -- What is to be loaded for a column, each value with its place among all values of the column: all of
  -- them where no condition is on the column, and else those that the first condition on it selects,
  -- against the value of the column's type that the text of the condition stands for.
  pub data Loads (column : Column) : List Tagged → Type 0 where
    all_of :
        (t : ValueType) (cs : Chain) (type_number : ℕ)
        (c : ColumnHolds db table_name column.col_name file t cs)
        → NoneOn column.col_name typed
        → array_at c.table.columns.column_type_array c.column_offset ≡ ok type_number
        → get_enum_type type_number ≡ ok t
        → length cs ≤ fuel
        → Loads column (numbered 0 (all_values cs))
    selected_of :
        (c : CompareCondition) (t : ValueType) (v : Value) (cs : Chain)
        → FirstOn column.col_name typed c
        → column.value_type ≡ some t
        → Reads fl c.compare_value t v
        → ColumnHolds db table_name column.col_name file v.value_type cs
        → All (λ u. Comparable fl u v) (all_values cs)
        → length cs ≤ fuel
        → Loads column (kept (λ u. passes c.condition (com_result fl u v)) 0 (all_values cs))

  abbrev pub LoadsAll : List Column → List (List Tagged) → Type 0
  LoadsAll [] [] = Unit
  LoadsAll [] (col ∷ cols) = ⊥
  LoadsAll (column ∷ columns) [] = ⊥
  LoadsAll (column ∷ columns) (col ∷ cols) = Loads column col × LoadsAll columns cols

  Loads-Ascending : (column : Column) (col : List Tagged) → Loads column col → Ascending 0 col
  Loads-Ascending column _ (all_of t cs n c a b d e) = numbered-Ascending 0 (all_values cs)
  Loads-Ascending column _ (selected_of c t v cs a b d holds e f) =
      kept-Ascending (λ u. passes c.condition (com_result fl u v)) 0 (all_values cs)

  no_argument :
      (column : Column)
      → NoneOn column.col_name typed
      → load_argument fl conditions_map column ≡ ok none
  unfolding load_argument
  no_argument column h = rw (condition_none column.col_name typed h) refl

  first_argument :
      (column : Column) (c : CompareCondition) (t : ValueType) (v : Value)
      → FirstOn column.col_name typed c
      → column.value_type ≡ some t
      → Reads fl c.compare_value t v
      → load_argument fl conditions_map column ≡ ok (some (c.condition, v))
  unfolding load_argument
  first_argument column c t v first typed_as reads =
      let (read, copied) = init-Reads fl c.compare_value t v reads in
      rw (condition_first column.col_name typed c first, typed_as, read) refl

  chain_of :
      (name : List ℕ) (t : ValueType) (cs : Chain)
      → ColumnHolds db table_name name file t cs
      → All (HasText fl) (all_values cs)
  chain_of name t cs c =
      chain_texts fl file t cs (subst (λ z. ChainAt file t z) (sym c.shape) c.stands)

  Loads-texts :
      (column : Column) (col : List Tagged) → Loads column col → AllTagged (HasText fl) col
  Loads-texts column _ (all_of t cs n c a b d e) =
      numbered_hold (HasText fl) 0 (all_values cs) (chain_of column.col_name t cs c)
  Loads-texts column _ (selected_of c t v cs a b d holds e f) =
      kept_hold (HasText fl) (λ u. passes c.condition (com_result fl u v)) 0 (all_values cs)
        (chain_of column.col_name v.value_type cs holds)

  pub LoadsAll-texts :
      (columns : List Column) (cols : List (List Tagged))
      → LoadsAll columns cols
      → All (AllTagged (HasText fl)) cols
  LoadsAll-texts [] [] loads = tt
  LoadsAll-texts [] (col ∷ cols) loads = absurd loads
  LoadsAll-texts (column ∷ columns) [] loads = absurd loads
  LoadsAll-texts (column ∷ columns) (col ∷ cols) (one, loads) =
      (Loads-texts column col one, LoadsAll-texts columns cols loads)

  pub LoadsAll-Ascending :
      (columns : List Column) (cols : List (List Tagged))
      → LoadsAll columns cols
      → All (Ascending 0) cols
  LoadsAll-Ascending [] [] loads = tt
  LoadsAll-Ascending [] (col ∷ cols) loads = absurd loads
  LoadsAll-Ascending (column ∷ columns) [] loads = absurd loads
  LoadsAll-Ascending (column ∷ columns) (col ∷ cols) (one, loads) =
      (Loads-Ascending column col one, LoadsAll-Ascending columns cols loads)

  load_step :
      (column : Column) (columns : List Column) (col : List Tagged) (before : List (List Tagged))
      (w w1 : LockWatcher) (argument : Option (Comparator × Value))
      → load_argument fl conditions_map column ≡ ok argument
      → filter_load fl fuel w db table_name column.col_name argument ≡ ok (w1, finished col)
      → load_columns fl fuel w db table_name conditions_map (column ∷ columns) before
        ≡ load_columns fl fuel w1 db table_name conditions_map columns (before ++ (col ∷ []))
  unfolding load_columns ◌>>→◌
  load_step column columns col before w w1 argument argued loaded = cc

  module _
      (present : find (get_table_data_file install_path db.db_name table_name) files
        ≡ some file) where
    -- FilterLoad of one column, and the watcher at rest again.
    load_one :
        (column : Column) (col : List Tagged) (memory : Buffer) (read_list : List ℕ) (times : ℕ)
        → length memory ≡ block_size
        → Loads column col
        → (argument : Option (Comparator × Value)) × (memory' : Buffer) × (read_list' : List ℕ)
          × (times' : ℕ) × (load_argument fl conditions_map column ≡ ok argument)
          × (filter_load fl fuel
                (resting db table_name install_path rest files file present memory read_list times)
                db
                table_name
                column.col_name
                argument
              ≡ ok (
                resting db table_name install_path rest files file present memory' read_list'
                    times',
                finished col,
              ))
          × (length memory' ≡ block_size)
    load_one column _ memory read_list times sized
          (all_of t cs n c unconditional typed enumerated enough) =
        let (memory', read_list', times', done, sized') =
          filter_load_all fl db table_name column.col_name install_path rest files file present
            memory read_list times fuel sized t cs n c typed enumerated enough in
        (none, memory', read_list', times', no_argument column unconditional, done, sized')
    load_one column _ memory read_list times sized
          (selected_of c t v cs first typed_as reads holds comparable enough) =
        let (memory', read_list', times', done, sized') =
          filter_load_compare fl db table_name column.col_name install_path rest files file present
            memory read_list times fuel sized c.condition v cs holds comparable enough in
        (
          some (c.condition, v),
          memory',
          read_list',
          times',
          first_argument column c t v first typed_as reads,
          done,
          sized',
        )

    pub load_columns_lem :
        (columns : List Column) (cols before : List (List Tagged)) (memory : Buffer)
        (read_list : List ℕ) (times : ℕ)
        → length memory ≡ block_size
        → LoadsAll columns cols
        → (memory' : Buffer) × (read_list' : List ℕ) × (times' : ℕ) × (load_columns fl fuel
              (resting db table_name install_path rest files file present memory read_list times)
              db
              table_name
              conditions_map
              columns
              before
            ≡ ok (
              resting db table_name install_path rest files file present memory' read_list' times',
              finished (before ++ cols),
            ))
          × (length memory' ≡ block_size)
    unfolding load_columns
    load_columns_lem [] [] before memory read_list times sized loads =
        (memory, read_list, times, rw (append-nil before) refl, sized)
    load_columns_lem [] (col ∷ cols) before memory read_list times sized loads = absurd loads
    load_columns_lem (column ∷ columns) [] before memory read_list times sized loads = absurd loads
    load_columns_lem (column ∷ columns) (col ∷ cols) before memory read_list times sized
          (one, loads) =
        let (argument, memory1, read_list1, times1, argued, loaded, sized1) =
          load_one column col memory read_list times sized one in
        let (memory', read_list', times', done, sized') =
          load_columns_lem columns cols (before ++ (col ∷ [])) memory1 read_list1 times1 sized1
            loads in
        (
          memory',
          read_list',
          times',
          load_step column columns col before _ _ argument argued loaded
              ∙ done
              ∙ ap
                  (λ z. ok (
                    resting db table_name install_path rest files file present memory' read_list'
                        times',
                    finished z,
                  ))
                  (append_assoc before (col ∷ []) cols),
          sized',
        )
