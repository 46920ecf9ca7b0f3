-- ===== src/Access/Place.antt =====
-- The last block of a chain takes the value, or links to a new block that does.
use tiny_dbms.Base.{
  ℕ, suc, ◌+◌, ◌^◌, ◌<◌, ◌≡◌, refl, ◌∙◌, List, [], ◌∷◌, arith, length, some, false, true, ◌==◌,
  if◌then◌else◌, length-replicate, replicate,
}
use tiny_dbms.Memory.Buffer.{Buffer}
use tiny_dbms.StdMap.{find, assign, string_key, find-assign_self, find-assign_other}
use tiny_dbms.Value.{ValueType, Value}
use tiny_dbms.Value.Encode.{IsStored, encoding, encoding_positive}
use tiny_dbms.DataBlock.{DataBlock, block_size, have_space, init_block}
use tiny_dbms.DataBlock.Layout.{Holds}
use tiny_dbms.DataBlock.Insert.{insert_data-Holds, init_block-Holds, have_space_iff}
use tiny_dbms.Scan.Spec.{Matches}
use tiny_dbms.Storage.Files.{Files, write_back_block, get_table_data_file}
use tiny_dbms.Storage.Pool.{BlockSlot, exclusive, read_one}
use tiny_dbms.Storage.Disk.{StoredAt, StoredAt-written, StoredAt-kept, block_bytes, length-over}
use tiny_dbms.Storage.Watcher.{LockWatcher, Step, Loaded}
use tiny_dbms.Storage.Cycle.{unused, lent, release_write}
use tiny_dbms.Storage.Extend.{create_lem, release_last, release_new}
use tiny_dbms.Access.{Db, last_block, insert_in_last, no_block, ◌>>→◌}
use tiny_dbms.Access.Chain.{Chain, ChainAt, Linked, next_address}
use tiny_dbms.Access.Grow.{in_last, in_new, Distinct, Aligned, Aligned-address, Inserted}
use tiny_dbms.Access.Steps.{size-IsInt, empty_link, stop, with_room, without_room}

module _ (db : Db) (table_name install_path : List ℕ) (rest : List BlockSlot) (t : ValueType)
    (v : Value) (s : IsStored t v) (column_type : ℕ)
    (fits : 16 + length (encoding s) < block_size) where
  abbrev pub path : List ℕ
  path = get_table_data_file install_path db.db_name table_name

  abbrev pub bytes : List ℕ
  bytes = encoding s

  -- What InsertIntoTable does once the first block is loaded.
  abbrev pub go : ℕ → LockWatcher → ℕ → Loaded → Step (Unit {0})
  go fuel w offset loaded =
      last_block fuel w db table_name offset loaded >>→ λ w2 (last, last_offset).
      insert_in_last w2 db table_name column_type last_offset last bytes (length bytes)

  -- A block that the thread has taken for writing: the first block of what is left of the chain.
  pub record Taken (files : Files) (file : Buffer) (n a : ℕ) (vs : List Value) (cs : Chain)
      (b : DataBlock) (rs : List (List ℕ)) : Type 0 where
    pub present : find path files ≡ some file
    pub aligned : Aligned file n
    pub stored : StoredAt file a (next_address cs) rs
    pub holds : Holds b rs
    pub link : b.next_block_pointer ≡ next_address cs
    pub values : Matches t vs rs
    pub linked : Linked cs
    pub others : ChainAt file t cs
    pub distinct : Distinct ((a, vs) ∷ cs)

  module _ (files : Files) (file : Buffer) (n a : ℕ) (vs : List Value) (b : DataBlock)
      (rs : List (List ℕ)) (memory second : Buffer) (sized : length memory ≡ block_size)
      (sized2 : length second ≡ block_size) (read_list : List ℕ) (times : ℕ) where
    abbrev pub held :
        (find path files ≡ some file) → (next : ℕ) → StoredAt file a next rs → LockWatcher
    held present next st =
        lent install_path db.db_name table_name memory (unused second ∷ rest) read_list times files
          file present sized a st.reachable st.within exclusive

    -- The last block has room.
    pub into_last :
        (fuel : ℕ) (taken : Taken files file n a vs [] b rs)
        → have_space b (length bytes) ≡ true
        → Inserted
            (go (suc fuel) (held taken.present 0 taken.stored) a (b, 0))
            tt
            install_path
            path
            rest
            files
            file
            t
            v
            ((a, vs) ∷ [])
    into_last fuel taken room =
        let (long, small) = encoding_positive s in
        let (b', inserts, holds', link', _) =
          insert_data-Holds b rs bytes taken.holds (omega (arith, long)) small room in
        let (c, done, sized', stored') =
          StoredAt-written file a b' (bytes ∷ rs) holds' taken.stored.reachable
            (omega (arith, taken.stored.within)) in
        let file' = write_back_block file a c.memory in
        record {
          first = c.memory;
          second = second;
          read_list = read_one 0 read_list;
          times = 0;
          files' = assign path file' files;
          file' = file';
          chain' = (a, v ∷ vs) ∷ [];
          returns =
              stop db table_name fuel a 0 (held taken.present 0 taken.stored) b _ taken.link
              ∙ with_room db table_name column_type a 0 (held taken.present 0 taken.stored) b b'
                  bytes (length bytes) _ room inserts
                  (release_write install_path db.db_name table_name memory (unused second ∷ rest)
                    read_list times files file taken.present sized a taken.stored.reachable
                    taken.stored.within b' c done);
          first_sized = sized';
          second_sized = sized2;
          present = find-assign_self path file' files;
          grown = in_last a vs;
          begins = refl;
          stands = (
            (bytes ∷ rs, rw (link' ∙ taken.link) at stored', ((s, refl), taken.values)),
            (tt, tt),
          );
          kept = λ x next qs absent st.
              StoredAt-kept file a c.memory sized' taken.stored.reachable
                (omega (arith, taken.stored.within)) x next qs absent.0 st;
          others = λ other ne. find-assign_other path other file' files ne;
        }

    -- The last block is full: it is linked to a new one, which takes the value.
    pub into_new :
        (fuel : ℕ) (taken : Taken files file n a vs [] b rs)
        → have_space b (length bytes) ≡ false
        → Inserted
            (go (suc fuel) (held taken.present 0 taken.stored) a (b, 0))
            tt
            install_path
            path
            rest
            files
            file
            t
            v
            ((a, vs) ∷ [])
    into_new fuel taken full =
        let (long, small) = encoding_positive s in
        let below : a < n = omega (arith, taken.aligned.blocks, taken.stored.within) in
        let low : n < 2 ^ 31 = omega (arith, taken.aligned.reachable) in
        let address = Aligned-address file n taken.aligned in
        let linked = record b { next_block_pointer = n } in
        let linked-Holds : Holds linked rs = record {
          sized = taken.holds.sized;
          length_int = taken.holds.length_int;
          next_int = omega (arith, low);
          counted = taken.holds.counted;
          nonempty = taken.holds.nonempty;
          above_header = taken.holds.above_header;
          packed = taken.holds.packed;
          stored = taken.holds.stored;
        } in
        let (c1, done1, sized1, stored1) =
          StoredAt-written file a linked rs linked-Holds taken.stored.reachable
            (omega (arith, taken.stored.within)) in
        let file1 = write_back_block file a c1.memory in
        let files1 = assign path file1 files in
        let over =
          length-over file a c1.memory sized1 taken.stored.reachable
            (omega (arith, taken.stored.within)) taken.stored.within in
        let value_length = if column_type == 2 then 0 else length bytes in
        let made = record no_block { memory = replicate block_size 0 } in
        let empty = init_block made value_length in
        let empty-Holds =
          init_block-Holds made value_length (length-replicate {A = ℕ} block_size 0)
            (size-IsInt column_type (length bytes) small) in
        let (b2, inserts, holds2, link2, _) =
          insert_data-Holds empty [] bytes empty-Holds (omega (arith, long)) small
            ((have_space_iff empty [] empty-Holds (length bytes) small).1 (omega (arith, fits))) in
        let (c2, done2, sized2', stored2) =
          StoredAt-written file1 n b2 (bytes ∷ []) holds2 taken.aligned.reachable
            (omega (arith, over, taken.aligned.blocks)) in
        let file2 = write_back_block file1 n c2.memory in
        let keep1 =
          StoredAt-kept file a c1.memory sized1 taken.stored.reachable
            (omega (arith, taken.stored.within)) in
        let keep2 =
          StoredAt-kept file1 n c2.memory sized2' taken.aligned.reachable
            (omega (arith, over, taken.aligned.blocks)) in
        let w = held taken.present 0 taken.stored in
        record {
          first = c1.memory;
          second = c2.memory;
          read_list = read_one 1 (read_one 0 read_list);
          times = 0;
          files' = assign path file2 files1;
          file' = file2;
          chain' = (a, vs) ∷ (n, v ∷ []) ∷ [];
          returns =
              stop db table_name fuel a 0 w b _ taken.link
              ∙ without_room db table_name column_type a 0 1 n w _ _ b made b2 bytes (length bytes)
                  _ full
                  (create_lem install_path db.db_name table_name second (block_bytes file a) rest
                    (read_one 0 read_list) 0 files file taken.present a n address below low
                    no_block)
                  (release_last install_path db.db_name table_name second (block_bytes file a) rest
                    (read_one 0 read_list) 0 files file taken.present a n address below low linked
                    c1 done1)
                  inserts
                  (release_new install_path db.db_name table_name second (block_bytes file a) rest
                    (read_one 0 read_list) 0 files file taken.present a n address below low b2 c2
                    done2 c1.memory files1 file1 (find-assign_self path file1 files));
          first_sized = sized1;
          second_sized = sized2';
          present = find-assign_self path file2 files1;
          grown = in_new a n vs;
          begins = refl;
          stands = (
            (rs, keep2 a n rs (λ e. absurd (omega (arith, e, below))) stored1, taken.values),
            (
              (λ e. absurd (omega (arith, e, below))),
              (
                (bytes ∷ [], rw (link2 ∙ empty_link made value_length) at stored2, ((s, refl), tt)),
                (tt, tt),
              ),
            ),
          );
          kept = λ x next qs absent st.
              keep2 x next qs (λ e. absurd (omega (arith, e, st.within, taken.aligned.blocks)))
                (keep1 x next qs absent.0 st);
          others = λ other ne.
              find-assign_other path other file2 files1 ne
              ∙ find-assign_other path other file1 files ne;
        }
