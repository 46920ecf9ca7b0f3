-- ===== src/Scan/Correct.antt =====
-- The scans return the values of the block, the newest first, with consecutive tags.
use tiny_dbms.Base.{
  ℕ, suc, ◌+◌, ◌^◌, ◌≤◌, ◌<◌, ◌≡◌, refl, ap, ◌∙◌, sym, Bool, true, false, List, [], ◌∷◌, ◌++◌,
  append_assoc, append-nil, arith, length, length-append, All, if◌then◌else◌, ok,
}
use tiny_dbms.Memory.Words.{add_int, rounds, IsSize}
use tiny_dbms.Memory.Buffer.{Buffer, slice, slice_split}
use tiny_dbms.Value.{ValueType, Value, get_value_length, serialize_value_from_buffer}
use tiny_dbms.Value.Encode.{
  IsStored, encoding, get_value_length_lem, serialize_value_from_buffer_lem, copy_stored,
}
use tiny_dbms.Value.Compare.{Floats}
use tiny_dbms.Sql.{Comparator}
use tiny_dbms.DataBlock.{DataBlock}
use tiny_dbms.DataBlock.Layout.{Holds, image, length-le-image}
use tiny_dbms.Scan.{Tagged, next_tag, serialize_loop, serialize_op, push_if, filter_loop, filter_op}
use tiny_dbms.Scan.Spec.{
  passes, selects-passes, Matches, Stores, numbered, kept, com_result, Comparable, com_result_lem,
}

-- The records `rs` stand in memory from `off` on.
pub record StandsAt (memory : Buffer) (off : ℕ) (rs : List (List ℕ)) : Type 0 where
  bytes : slice memory off (length (image rs)) ≡ image rs
  within : off + length (image rs) ≤ length memory
  small : IsSize (length memory)

length-Matches :
    (t : ValueType) (vs : List Value) (rs : List (List ℕ)) → Matches t vs rs → length rs ≡ length vs
length-Matches t [] [] m = refl
length-Matches t [] (r ∷ rs) m = absurd m
length-Matches t (v ∷ vs) [] m = absurd m
length-Matches t (v ∷ vs) (r ∷ rs) m = ap suc (length-Matches t vs rs m.1)

-- One step of every scan: the first value is read, and the offset moves to the others.
module _ (t : ValueType) (v : Value) (r : List ℕ) (rs : List (List ℕ)) (memory : Buffer) (off : ℕ)
    (s : IsStored t v) (e : r ≡ encoding s) (stands : StandsAt memory off (r ∷ rs)) where
  step_split :
      (slice memory off (length r) ≡ r)
      × (slice memory (off + length r) (length (image rs)) ≡ image rs)
  step_split = slice_split memory off (off + length r) r (image rs) stands.bytes refl stands.within

  step_total : off + length r + length (image rs) ≤ length memory
  step_total = omega (arith, length-append r (image rs), stands.within)

  pub step_read : serialize_value_from_buffer t memory off ≡ ok v
  step_read =
      serialize_value_from_buffer_lem s memory off (rw (← e) (omega (arith, step_total)))
        (rw e at step_split.0)

  step_offset : add_int off (get_value_length v) ≡ off + length r
  step_offset =
      let same : get_value_length v ≡ length r = get_value_length_lem s ∙ ap length (sym e) in
      omega (arith, same, step_total, stands.small)

  pub step_rest : StandsAt memory (add_int off (get_value_length v)) rs
  step_rest =
      rw step_offset (record { bytes = step_split.1; within = step_total; small = stands.small })

pub next_tag-lt : (tag n : ℕ) → tag + suc n < 2 ^ 64 → next_tag tag ≡ tag + 1
next_tag-lt tag n h = omega arith

move_in :
    (results : List Tagged) (x : Tagged) (rest : List Tagged)
    → (results ++ (x ∷ [])) ++ rest ≡ results ++ (x ∷ rest)
move_in results x rest = append_assoc results (x ∷ []) rest

serialize_loop_lem :
    (t : ValueType) (vs : List Value) (rs : List (List ℕ)) (memory : Buffer) (off : ℕ)
    (results : List Tagged) (tag : ℕ)
    → Matches t vs rs
    → StandsAt memory off rs
    → tag + length vs < 2 ^ 64
    → serialize_loop (length vs) t memory off results tag
      ≡ ok (results ++ numbered tag vs, tag + length vs)
unfolding serialize_loop
serialize_loop_lem t [] [] memory off results tag m stands h = ground (arith, append-nil results)
serialize_loop_lem t [] (r ∷ rs) memory off results tag m stands h = absurd m
serialize_loop_lem t (v ∷ vs) [] memory off results tag m stands h = absurd m
serialize_loop_lem t (v ∷ vs) (r ∷ rs) memory off results tag ((s, e), m) stands h =
    rw (step_read t v r rs memory off s e stands, copy_stored s, next_tag-lt tag (length vs) h)
      (serialize_loop_lem t vs rs memory (add_int off (get_value_length v))
          (results ++ ((tag, v) ∷ [])) (tag + 1) m (step_rest t v r rs memory off s e stands)
          (omega arith)
        ∙ ground (arith, move_in results (tag, v) (numbered (tag + 1) vs)))

module _ (b : DataBlock) (t : ValueType) (vs : List Value) (rs : List (List ℕ)) (holds : Holds b rs)
    (m : Matches t vs rs) where
  pub stands_in_block : StandsAt b.memory b.last_record_start_address rs
  stands_in_block = record {
    bytes = holds.stored;
    within = omega (arith, holds.packed, holds.sized);
    small = omega (arith, holds.sized);
  }

  pub count_lem : rounds b.field_data_nums ≡ length vs
  count_lem =
      let same = length-Matches t vs rs m in
      ground (arith, same, holds.counted, holds.packed, length-le-image rs holds.nonempty)

-- `SerializeOp` appends all values of the block, the newest first, each with its tag, and counts
-- the tag on by their number.
pub serialize_op_lem :
    (b : DataBlock) (t : ValueType) (vs : List Value) (results : List Tagged) (tag : ℕ)
    → Stores b t vs
    → tag + length vs < 2 ^ 64
    → serialize_op b t results tag ≡ ok (results ++ numbered tag vs, tag + length vs)
unfolding serialize_op
serialize_op_lem b t vs results tag (rs, holds, m) h = rw (count_lem b t vs rs holds m) (
    serialize_loop_lem t vs rs b.memory b.last_record_start_address results tag m
      (stands_in_block b t vs rs holds m) h)

pub push_if_lem :
    {t : ValueType} {v : Value} (s : IsStored t v) (p : Bool) (tag : ℕ) (results rest : List Tagged)
    → (after : List Tagged) × (push_if p tag v results ≡ ok after)
      × (after ++ rest ≡ results ++ (if p then (tag, v) ∷ rest else rest))
unfolding push_if
push_if_lem {v} s true tag results rest =
    (results ++ ((tag, v) ∷ []), rw (copy_stored s), move_in results (tag, v) rest)
push_if_lem s false tag results rest = (results, refl, refl)

module _ (fl : Floats) (comparator : Comparator) (compare_val : Value) where
  abbrev selected : Value → Bool
  selected v = passes comparator (com_result fl v compare_val)

  filter_loop_lem :
      (vs : List Value) (rs : List (List ℕ)) (memory : Buffer) (off : ℕ) (results : List Tagged)
      (tag : ℕ)
      → Matches compare_val.value_type vs rs
      → All (λ v. Comparable fl v compare_val) vs
      → StandsAt memory off rs
      → tag + length vs < 2 ^ 64
      → filter_loop fl (length vs) memory off comparator compare_val results tag
        ≡ ok (results ++ kept selected tag vs, tag + length vs)
  unfolding filter_loop
  filter_loop_lem [] [] memory off results tag m c stands h = ground (arith, append-nil results)
  filter_loop_lem [] (r ∷ rs) memory off results tag m c stands h = absurd m
  filter_loop_lem (v ∷ vs) [] memory off results tag m c stands h = absurd m
  filter_loop_lem (v ∷ vs) (r ∷ rs) memory off results tag ((s, e), m) (c, cs) stands h =
      let (after, pushed, order) =
        push_if_lem s (selected v) tag results (kept selected (tag + 1) vs) in
      rw
        (
          step_read compare_val.value_type v r rs memory off s e stands,
          com_result_lem fl v compare_val c,
          selects-passes comparator (com_result fl v compare_val),
          pushed,
          next_tag-lt tag (length vs) h,
        )
        (filter_loop_lem vs rs memory (add_int off (get_value_length v)) after (tag + 1) m cs
            (step_rest compare_val.value_type v r rs memory off s e stands) (omega arith)
          ∙ ground (arith, order))

  -- `FilterOp` on a block that stores values of the given value's own type, all of which can be compared
  -- with it, appends exactly those whose comparison is positive for `>`, negative for `<`, zero for `=`
  -- or not zero for `!=`, the newest first, each with its tag, and counts the tag on by the number of
  -- values.
  pub filter_op_lem :
      (b : DataBlock) (vs : List Value) (results : List Tagged) (tag : ℕ)
      → Stores b compare_val.value_type vs
      → All (λ v. Comparable fl v compare_val) vs
      → tag + length vs < 2 ^ 64
      → filter_op fl b comparator compare_val results tag
        ≡ ok (results ++ kept selected tag vs, tag + length vs)
  unfolding filter_op
  filter_op_lem b vs results tag (rs, holds, m) c h =
      rw (count_lem b compare_val.value_type vs rs holds m) (
        filter_loop_lem vs rs b.memory b.last_record_start_address results tag m c
          (stands_in_block b compare_val.value_type vs rs holds m) h)
