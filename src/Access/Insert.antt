-- ===== src/Access/Insert.antt =====
-- InsertIntoTable on a column whose chain of blocks stands in its file, one thread at work.
use std.Path.{subst}
use tiny_dbms.Base.{
  ℕ, zero, suc, ◌+◌, ◌*◌, ◌≤◌, ◌<◌, ◌≡◌, ◌≢◌, refl, ap, ◌∙◌, sym, List, [], ◌∷◌, arith, length, ok,
  some, false, true, Bool-cases, inl, inr, ◌==◌, length-replicate, replicate,
}
use tiny_dbms.Memory.Buffer.{Buffer}
use tiny_dbms.StdMap.{find, assign, string_key, find-assign_self, find-assign_other}
use tiny_dbms.Value.{
  ValueType, Value, of_int, of_float, of_chars, enum_number, serialize, get_value_length,
}
use tiny_dbms.Value.Encode.{
  IsStored, int_stored, float_stored, text_stored, encoding, get_value_length_lem, serialize_exact,
}
use tiny_dbms.DataBlock.{DataBlock, block_size, have_space}
use tiny_dbms.Storage.Files.{Files, write_back_block, get_table_data_file}
use tiny_dbms.Storage.Pool.{BlockSlot, exclusive, read_one}
use tiny_dbms.Storage.Disk.{StoredAt-written, StoredAt-kept, StoredAt-next, length-over}
use tiny_dbms.Storage.Watcher.{LockWatcher, Step, Loaded, load_block_for_write}
use tiny_dbms.Storage.Cycle.{at_rest, unused, lent, load_write, release_write}
use tiny_dbms.Access.{insert_into_table, array_at, Db, last_block, insert_in_last, no_block, ◌>>→◌}
use tiny_dbms.Access.Chain.{Chain, Linked, next_address}
use tiny_dbms.Access.Grow.{further, Distinct, Aligned, ChainAt-kept, Inserted}
use tiny_dbms.Access.Steps.{advance, table_step}
use tiny_dbms.Access.Filter.{ColumnHolds}
use tiny_dbms.Sql.{SqlResponse, success}
use tiny_dbms.Access.Place.{path, go, Taken, held, into_last, into_new}

nonnull : (a : ℕ) → a ≢ 0 → (a == 0) ≡ false
nonnull a ne = ground arith

Linked-next : (cs : Chain) (k : ℕ) → next_address cs ≡ k → k ≢ 0 → Linked cs
Linked-next [] k e ne = tt
Linked-next ((a, vs) ∷ cs) k e ne = rw e ne

module _ (db : Db) (table_name install_path : List ℕ) (rest : List BlockSlot) (t : ValueType)
    (v : Value) (s : IsStored t v) (column_type : ℕ)
    (fits : 16 + length (encoding s) < block_size) where
  abbrev run : ℕ → LockWatcher → ℕ → Loaded → Step (Unit {0})
  run fuel w offset loaded =
      go db table_name install_path rest t v s column_type fits fuel w offset loaded

  abbrev its_path : List ℕ
  its_path = path db table_name install_path rest t v s column_type fits

  abbrev Held : Files → Buffer → ℕ → ℕ → List Value → Chain → DataBlock → List (List ℕ) → Type 0
  Held files file n a vs cs b rs =
      Taken db table_name install_path rest t v s column_type fits files file n a vs cs b rs

  from_block :
      (cs : Chain) (files : Files) (file : Buffer) (n a : ℕ) (vs : List Value) (b : DataBlock)
      (rs : List (List ℕ)) (memory second : Buffer) (sized : length memory ≡ block_size)
      (sized2 : length second ≡ block_size) (read_list : List ℕ) (times fuel : ℕ)
      (taken : Held files file n a vs cs b rs)
      → length cs < fuel
      → Inserted
          (run fuel
            (held db table_name install_path rest t v s column_type fits files file n a vs b rs
              memory second sized sized2 read_list times taken.present
              (next_address cs)
              taken.stored)
            a
            (b, 0))
          tt
          install_path
          its_path
          rest
          files
          file
          t
          v
          ((a, vs) ∷ cs)
  from_block [] files file n a vs b rs memory second sized sized2 read_list times zero taken
        enough =
      absurd (omega (arith, enough))
  from_block [] files file n a vs b rs memory second sized sized2 read_list times (suc fuel) taken
        enough =
      elim (Bool-cases (have_space b (length (encoding s)))) [
        | inl room ↦
            into_last db table_name install_path rest t v s column_type fits files file n a vs b rs
              memory second sized sized2 read_list times fuel taken room
        | inr full ↦
            into_new db table_name install_path rest t v s column_type fits files file n a vs b rs
              memory second sized sized2 read_list times fuel taken full
      ]
  from_block (c ∷ cs) files file n a vs b rs memory second sized sized2 read_list times zero taken
        enough =
      absurd (omega (arith, enough))
  from_block ((a2, vs2) ∷ cs) files file n a vs b rs memory second sized sized2 read_list times
        (suc fuel) taken enough =
      let inside : a * block_size ≤ length file = omega (arith, taken.stored.within) in
      let (c, done, sized', stored') =
        StoredAt-written file a b rs taken.holds taken.stored.reachable inside in
      let file1 = write_back_block file a c.memory in
      let files1 = assign its_path file1 files in
      let over =
        length-over file a c.memory sized' taken.stored.reachable inside taken.stored.within in
      let keep = StoredAt-kept file a c.memory sized' taken.stored.reachable inside in
      let present1 = find-assign_self its_path file1 files in
      let ((rs2, stored2, m2), (linked2, others2)) =
        ChainAt-kept file a c.memory t ((a2, vs2) ∷ cs) sized' taken.stored.reachable inside
          taken.distinct.0 taken.others in
      let (b2, parsed, holds2, link2) = stored2.parsed b in
      let w =
        held db table_name install_path rest t v s column_type fits files file n a vs b rs memory
          second sized sized2 read_list times taken.present a2 taken.stored in
      let inserted =
        from_block cs files1 file1 n a2 vs2 b2 rs2 c.memory second sized' sized2
          (read_one 0 read_list) 0 fuel
          (record {
            present = present1;
            aligned = record {
              blocks = over ∙ taken.aligned.blocks;
              reachable = taken.aligned.reachable;
            };
            stored = stored2;
            holds = holds2;
            link = link2;
            values = m2;
            linked = linked2;
            others = others2;
            distinct = taken.distinct.1;
          })
          (omega (arith, enough)) in
      record {
        first = inserted.first;
        second = inserted.second;
        read_list = inserted.read_list;
        times = inserted.times;
        files' = inserted.files';
        file' = inserted.file';
        chain' = (a, vs) ∷ inserted.chain';
        returns =
            advance db table_name fuel a a2 0 w _ _ b (b2, 0) _ taken.link (nonnull a2 taken.linked)
              (release_write install_path db.db_name table_name memory (unused second ∷ rest)
                read_list times files file taken.present sized a taken.stored.reachable
                taken.stored.within b c done)
              (load_write install_path db.db_name table_name c.memory (unused second ∷ rest)
                (read_one 0 read_list) 0 files1 file1 present1 sized' a2 stored2.reachable
                stored2.within b b2 parsed)
            ∙ inserted.returns;
        first_sized = inserted.first_sized;
        second_sized = inserted.second_sized;
        present = inserted.present;
        grown = further a vs inserted.grown;
        begins = refl;
        stands = (
          (
            rs,
            StoredAt-next inserted.file' a _ _ rs (sym inserted.begins) (
                inserted.kept a a2 rs taken.distinct.0
                  (StoredAt-next file1 a _ _ rs taken.link stored')),
            taken.values,
          ),
          (Linked-next inserted.chain' a2 inserted.begins taken.linked, inserted.stands),
        );
        kept = λ x next qs absent st. inserted.kept x next qs absent.1 (keep x next qs absent.0 st);
        others =
            λ other ne. inserted.others other ne ∙ find-assign_other its_path other file1 files ne;
      }

stored_type : {t : ValueType} {v : Value} → IsStored t v → v.value_type ≡ t
unfolding of_int of_float of_chars
stored_type (int_stored n h) = refl
stored_type (float_stored n h) = refl
stored_type (text_stored text h) = refl

same_number : (n : ℕ) → (n == n) ≡ true
same_number n = ground arith

insert_stored :
    (db : Db) (table_name col_name install_path : List ℕ) (rest : List BlockSlot) (files : Files)
    (file : Buffer) (n : ℕ) (t : ValueType) (v : Value) (s : IsStored t v) (cs : Chain)
    (c : ColumnHolds db table_name col_name file t cs) (memory second : Buffer) (read_list : List ℕ)
    (times fuel : ℕ) (response : SqlResponse)
    → find (get_table_data_file install_path db.db_name table_name) files ≡ some file
    → Aligned file n
    → array_at c.table.columns.column_type_array c.column_offset ≡ ok (enum_number t)
    → c.table.table_name ≡ table_name
    → Distinct cs
    → 16 + length (encoding s) < block_size
    → length memory ≡ block_size
    → length second ≡ block_size
    → length cs ≤ fuel
    → Inserted
        (insert_into_table fuel
          (at_rest (unused memory ∷ unused second ∷ rest) read_list times files install_path)
          db
          table_name
          col_name
          v
          response)
        (record response { sql_state = success })
        install_path
        (get_table_data_file install_path db.db_name table_name)
        rest
        files
        file
        t
        v
        cs
unfolding insert_into_table
insert_stored db table_name col_name install_path rest files file n t v s cs c memory second
      read_list times fuel response present aligned typed named distinct fits sized sized2 enough =
    let ((rs, stored, m), (linked, others)) = c.stands in
    let (b, parsed, holds, link) = stored.parsed no_block in
    let inserted =
      from_block db table_name install_path rest t v s (enum_number t) fits c.others files file n
        c.address c.first b rs memory second sized sized2 read_list times fuel
        (record {
          present = present;
          aligned = aligned;
          stored = stored;
          holds = holds;
          link = link;
          values = m;
          linked = linked;
          others = others;
          distinct = rw c.shape at distinct;
        })
        (omega (arith, enough, ap length c.shape)) in
    let loads =
      load_write install_path db.db_name table_name memory (unused second ∷ rest) read_list times
        files file present sized c.address stored.reachable stored.within no_block b parsed in
    let before =
      at_rest (unused memory ∷ unused second ∷ rest) read_list times files install_path in
    let taken =
      lent install_path db.db_name table_name memory (unused second ∷ rest) read_list times files
        file present sized c.address stored.reachable stored.within exclusive in
    rw c.shape (record {
      first = inserted.first;
      second = inserted.second;
      read_list = inserted.read_list;
      times = inserted.times;
      files' = inserted.files';
      file' = inserted.file';
      chain' = inserted.chain';
      returns =
          table_step db table_name col_name c.table c.column_offset (enum_number t)
            (length (encoding s)) c.address fuel _ _ _ v (encoding s) (b, 0) response c.looked_up
            typed
            (ap (λ k. enum_number k == enum_number t) (stored_type s) ∙ same_number (enum_number t))
            (get_value_length_lem s)
            (serialize_exact s (replicate (length (encoding s)) 0)
              (length-replicate {A = ℕ} (length (encoding s)) 0 ∙ sym (get_value_length_lem s)))
            c.begins
            (ap (λ name. load_block_for_write before db.db_name name c.address no_block) named
              ∙ loads)
            (ap
                (λ name.
                  last_block fuel taken db name c.address (b, 0) >>→ λ w2 (last, last_offset).
                  insert_in_last w2 db name (enum_number t) last_offset last (encoding s)
                    (length (encoding s)))
                named
              ∙ inserted.returns);
      first_sized = inserted.first_sized;
      second_sized = inserted.second_sized;
      present = inserted.present;
      grown = inserted.grown;
      begins = inserted.begins;
      stands = inserted.stands;
      kept = inserted.kept;
      others = inserted.others;
    })

-- The raw text of a value, which InitValue keeps, is not looked at.
insert_text :
    (fuel : ℕ) (w : LockWatcher) (db : Db) (table_name col_name : List ℕ) (t : ValueType)
    (v : Value) (s : IsStored t v) (raw : List ℕ) (response : SqlResponse)
    → insert_into_table fuel w db table_name col_name (record v { raw_value = raw }) response
      ≡ insert_into_table fuel w db table_name col_name v response
unfolding insert_into_table serialize get_value_length of_int of_float of_chars
insert_text fuel w db table_name col_name t v (int_stored n h) raw response = refl
insert_text fuel w db table_name col_name t v (float_stored n h) raw response = refl
insert_text fuel w db table_name col_name t v (text_stored text h) raw response = refl

-- InsertIntoTable of a value of the column's type, with any raw text that it was read from, on a column
-- whose chain of blocks stands in its data file, answers SUCCESS and gives back every block; the chain
-- then holds the value, without its raw text, in front of the values of its last block, or alone in a
-- new block behind it; all blocks of other columns and all other files are as before. The data file
-- consists of whole blocks and its addresses stay ints with one more, no other thread has a block, two
-- slots are free, the record fits into an empty block, no two blocks of the chain have one address, and
-- fuel for the blocks of the chain is enough.
pub insert_into_table_lem :
    (db : Db) (table_name col_name install_path : List ℕ) (rest : List BlockSlot) (files : Files)
    (file : Buffer) (n : ℕ) (t : ValueType) (v : Value) (s : IsStored t v) (raw : List ℕ)
    (cs : Chain) (c : ColumnHolds db table_name col_name file t cs) (memory second : Buffer)
    (read_list : List ℕ) (times fuel : ℕ) (response : SqlResponse)
    → find (get_table_data_file install_path db.db_name table_name) files ≡ some file
    → Aligned file n
    → array_at c.table.columns.column_type_array c.column_offset ≡ ok (enum_number t)
    → c.table.table_name ≡ table_name
    → Distinct cs
    → 16 + length (encoding s) < block_size
    → length memory ≡ block_size
    → length second ≡ block_size
    → length cs ≤ fuel
    → Inserted
        (insert_into_table fuel
          (at_rest (unused memory ∷ unused second ∷ rest) read_list times files install_path)
          db
          table_name
          col_name
          (record v { raw_value = raw })
          response)
        (record response { sql_state = success })
        install_path
        (get_table_data_file install_path db.db_name table_name)
        rest
        files
        file
        t
        v
        cs
insert_into_table_lem db table_name col_name install_path rest files file n t v s raw cs c memory
      second read_list times fuel response present aligned typed named distinct fits sized sized2
      enough =
    subst
      (λ run.
        Inserted run (record response { sql_state = success }) install_path
          (get_table_data_file install_path db.db_name table_name) rest files file t v cs)
      (sym (
        insert_text fuel
          (at_rest (unused memory ∷ unused second ∷ rest) read_list times files install_path) db
          table_name col_name t v s raw response))
      (insert_stored db table_name col_name install_path rest files file n t v s cs c memory second
        read_list times fuel response present aligned typed named distinct fits sized sized2 enough)
