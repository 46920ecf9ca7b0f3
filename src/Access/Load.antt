-- ===== src/Access/Load.antt =====
-- What FilterLoad and FilterEqual return for a column whose chain of blocks stands in its file.
use tiny_dbms.Base.{
  ℕ, zero, suc, ◌+◌, ◌^◌, ◌<◌, ◌≡◌, refl, ap, ◌∙◌, List, [], ◌∷◌, ◌++◌, append_assoc, append-nil,
  arith, length, ok, some, ◌==◌, false, length-append,
}
use tiny_dbms.Memory.Buffer.{Buffer}
use tiny_dbms.StdMap.{find, string_key}
use tiny_dbms.Value.{ValueType, Value}
use tiny_dbms.DataBlock.{DataBlock, block_size}
use tiny_dbms.Scan.{Tagged}
use tiny_dbms.Scan.Spec.{Stores}
use tiny_dbms.Storage.Files.{Files, get_table_data_file}
use tiny_dbms.Storage.Pool.{BlockSlot, read_one}
use tiny_dbms.Storage.Disk.{block_bytes}
use tiny_dbms.Storage.Watcher.{LockWatcher, finished, load_block_for_read, release_reading_block}
use tiny_dbms.Table.{ColumnTable}
use tiny_dbms.Access.{
  Db, BlockOp, filter_rest, filter_blocks, load_data_blocks_for_read,
  load_first_data_block_for_read, get_column, array_at, no_block, ◌>>→◌,
}
use tiny_dbms.Access.Chain.{Chain, next_address, Linked, ChainAt, all_values, resting, read_cycle}

-- One round of the loop.
round :
    (op : BlockOp) (db : Db) (table_name : List ℕ) (fuel a i : ℕ) (w w' w'' : LockWatcher)
    (block b : DataBlock) (results results' : List Tagged) (tag tag' : ℕ)
    → block.next_block_pointer ≡ a
    → (a == 0) ≡ false
    → load_block_for_read w db.db_name table_name a block ≡ ok (w', finished (b, i))
    → op b results tag ≡ ok (results', tag')
    → release_reading_block w' db.db_name table_name a ≡ ok (w'', finished tt)
    → filter_rest op db table_name (suc fuel) w block results tag
      ≡ filter_rest op db table_name fuel w'' b results' tag'
unfolding filter_rest load_data_blocks_for_read ◌>>→◌
round op db table_name fuel a i w w' w'' block b results results' tag tag' e nonnull loads runs
      releases =
    let here = ap (λ n. n == 0) e ∙ nonnull in
    let loads' = ap (λ n. load_block_for_read w db.db_name table_name n block) e ∙ loads in
    let releases' = ap (λ n. release_reading_block w' db.db_name table_name n) e ∙ releases in
    rw (here, loads', runs, releases') refl

-- A condition on the values of each block, and what an operation returns for block after block.
abbrev pub AllGood : (List Value → Type 0) → Chain → Type 0
AllGood Good [] = Unit {0}
AllGood Good ((a, vs) ∷ cs) = Good vs × AllGood Good cs

abbrev pub outs : (List Value → ℕ → List Tagged) → Chain → ℕ → List Tagged
outs out [] tag = []
outs out ((a, vs) ∷ cs) tag = out vs tag ++ outs out cs (tag + length vs)

-- An operation on a block that appends some tagged values and counts the tag on.
module _ (op : BlockOp) (out : List Value → ℕ → List Tagged) (t : ValueType)
    (Good : List Value → Type 0)
    (op_lem : (b : DataBlock) (vs : List Value) (results : List Tagged) (tag : ℕ)
      → Stores b t vs
      → Good vs
      → tag + length vs < 2 ^ 64
      → op b results tag ≡ ok (results ++ out vs tag, tag + length vs))
    (db : Db) (table_name install_path : List ℕ) (rest : List BlockSlot) (files : Files)
    (file : Buffer)
    (present : find (get_table_data_file install_path db.db_name table_name) files
      ≡ some file) where
  abbrev at : Buffer → List ℕ → ℕ → LockWatcher
  at memory read_list times =
      resting db table_name install_path rest files file present memory read_list times

  rest_lem :
      (cs : Chain) (fuel : ℕ) (memory : Buffer) (read_list : List ℕ) (times : ℕ) (block : DataBlock)
      (results : List Tagged) (tag : ℕ)
      → ChainAt file t cs
      → Linked cs
      → AllGood Good cs
      → length cs < fuel
      → tag + length (all_values cs) < 2 ^ 64
      → length memory ≡ block_size
      → block.next_block_pointer ≡ next_address cs
      → (memory' : Buffer) × (read_list' : List ℕ) × (times' : ℕ) × (filter_rest op db table_name
            fuel
            (at memory read_list times)
            block
            results
            tag
          ≡ ok (at memory' read_list' times', finished (results ++ outs out cs tag)))
        × (length memory' ≡ block_size)
  unfolding filter_rest
  rest_lem [] zero memory read_list times block results tag c linked g fuel_h h sized link =
      absurd (omega arith)
  rest_lem [] (suc fuel) memory read_list times block results tag c linked g fuel_h h sized link =
      (memory, read_list, times, rw (link, append-nil results) refl, sized)
  rest_lem ((a, vs) ∷ cs) zero memory read_list times block results tag c linked g fuel_h h sized
        link =
      absurd (omega arith)
  rest_lem ((a, vs) ∷ cs) (suc fuel) memory read_list times block results tag (here, (linked', c))
        linked (gv, g) fuel_h h sized link =
      let total = length-append vs (all_values cs) in
      let (b, w, loads, releases, stores, link', sized') =
        read_cycle db table_name install_path rest files file present memory read_list times a
          (next_address cs) t vs block sized here in
      let (memory', read_list', times', goes_on, sized'') =
        rest_lem cs fuel (block_bytes file a) (read_one 0 read_list) 0 b (results ++ out vs tag)
          (tag + length vs) c linked' g (omega arith) (omega (arith, total)) sized' link' in
      (
        memory',
        read_list',
        times',
        round op db table_name fuel a 0 (at memory read_list times) w
              (at (block_bytes file a) (read_one 0 read_list) 0) block b results
              (results ++ out vs tag) tag (tag + length vs) link (ground arith) loads
              (op_lem b vs results tag stores gv (omega (arith, total))) releases
            ∙ goes_on
            ∙ ap (λ rs. ok (at memory' read_list' times', finished rs))
                (append_assoc results (out vs tag) (outs out cs (tag + length vs))),
        sized'',
      )

  -- The chain begins at the address that the look-up of the column gives.
  module _ (col_name : List ℕ) (table : ColumnTable) (column_offset a : ℕ) (vs : List Value)
      (cs : Chain)
      (looked_up : get_column db table_name col_name ≡ ok (some (table, column_offset)))
      (begins : array_at table.columns.column_storage_address_array column_offset ≡ ok a)
      (stands : ChainAt file t ((a, vs) ∷ cs)) (good : AllGood Good ((a, vs) ∷ cs))
      (few : length (all_values ((a, vs) ∷ cs)) < 2 ^ 64) where
    pub filter_blocks_lem :
        (memory : Buffer) (read_list : List ℕ) (times fuel : ℕ)
        → length memory ≡ block_size
        → length cs < fuel
        → (memory' : Buffer) × (read_list' : List ℕ) × (times' : ℕ) × (filter_blocks op db
              table_name fuel
              (at memory read_list times)
              col_name
            ≡ ok (at memory' read_list' times', finished (outs out ((a, vs) ∷ cs) 0)))
          × (length memory' ≡ block_size)
    unfolding filter_blocks load_first_data_block_for_read ◌>>→◌
    filter_blocks_lem memory read_list times fuel sized enough =
        let total = length-append vs (all_values cs) in
        let (b, w, loads, releases, stores, link, sized') =
          read_cycle db table_name install_path rest files file present memory read_list times a
            (next_address cs) t vs no_block sized stands.0 in
        let (memory', read_list', times', goes_on, sized'') =
          rest_lem cs fuel (block_bytes file a) (read_one 0 read_list) 0 b (out vs 0)
            (0 + length vs) stands.1.1 stands.1.0 good.1 enough (omega (arith, total, few)) sized'
            link in
        (
          memory',
          read_list',
          times',
          rw
              (
                looked_up,
                begins,
                loads,
                op_lem b vs [] 0 stores good.0 (omega (arith, total, few)),
                releases,
              )
              goes_on,
          sized'',
        )
