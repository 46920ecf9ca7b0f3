-- ===== src/Scan.antt =====
-- The scans of one data block in include/sql/executer/operator.h: `FilterEqualOp`, `FilterOp` and
-- `SerializeOp`. A scan appends to the results so far and counts the tag on.
pub mod Spec
pub mod Correct
pub mod Equal
use tiny_dbms.Base.{
  ℕ, zero, suc, ◌+◌, ◌%◌, ◌^◌, Bool, true, false, not, List, [], ◌∷◌, ◌++◌, ◌==◌, if◌then◌else◌,
  Result, ok, ◌>>=◌,
}
use tiny_dbms.Memory.Words.{add_int, lt_int, rounds}
use tiny_dbms.Memory.Buffer.{Buffer}
use tiny_dbms.Value.{ValueType, Value, copy, get_value_length, serialize_value_from_buffer}
use tiny_dbms.Value.Compare.{Floats, compare_values}
use tiny_dbms.Sql.{Comparator, bigger, less, equal, not_equal}
use tiny_dbms.DataBlock.{DataBlock}

-- std::pair<default_long_int, Value>.
abbrev pub Tagged : Type 0
Tagged = ℕ × Value

-- The results, and the tag of the next value.
abbrev pub Scanned : Type 0
Scanned = List Tagged × ℕ

abbrev pub next_tag : ℕ → ℕ
next_tag tag = (tag + 1) % 2 ^ 64

serialize_loop : ℕ → ValueType → Buffer → ℕ → List Tagged → ℕ → Result Scanned
serialize_loop zero t memory value_offset results tag = ok (results, tag)
serialize_loop (suc n) t memory value_offset results tag = do
  new_val ← serialize_value_from_buffer t memory value_offset
  kept ← copy new_val
  serialize_loop n t memory (add_int value_offset (get_value_length new_val))
      (results ++ ((tag, kept) ∷ [])) (next_tag tag)

unfoldable pub serialize_op : DataBlock → ValueType → List Tagged → ℕ → Result Scanned
unfolding serialize_loop
serialize_op block value_type results tag =
    serialize_loop (rounds block.field_data_nums) value_type block.memory
      block.last_record_start_address results tag

-- The switch on the comparator, by the sign of the comparison.
unfoldable pub selects : Comparator → ℕ → Bool
selects bigger com_result = lt_int 0 com_result
selects less com_result = lt_int com_result 0
selects equal com_result = com_result == 0
selects not_equal com_result = not (com_result == 0)

-- `result_values.push_back(value_tag(tag_offset, *new_val))` under the test.
unfoldable pub push_if : Bool → ℕ → Value → List Tagged → Result (List Tagged)
push_if true tag new_val results = do kept ← copy new_val; ok (results ++ ((tag, kept) ∷ []))
push_if false tag new_val results = ok results

module _ (fl : Floats) where
  filter_loop : ℕ → Buffer → ℕ → Comparator → Value → List Tagged → ℕ → Result Scanned
  filter_loop zero memory value_offset comparator compare_val results tag = ok (results, tag)
  filter_loop (suc n) memory value_offset comparator compare_val results tag = do
    new_val ← serialize_value_from_buffer compare_val.value_type memory value_offset
    com_result ← compare_values fl new_val compare_val
    results' ← push_if (selects comparator com_result) tag new_val results
    filter_loop n memory (add_int value_offset (get_value_length new_val)) comparator compare_val
        results' (next_tag tag)

  unfoldable pub filter_op : DataBlock → Comparator → Value → List Tagged → ℕ → Result Scanned
  unfolding filter_loop
  filter_op block comparator compare_val results tag =
      filter_loop (rounds block.field_data_nums) block.memory block.last_record_start_address
        comparator compare_val results tag

  filter_equal_loop : ℕ → Buffer → ℕ → Value → List Tagged → ℕ → Result Scanned
  filter_equal_loop zero memory value_offset equal_val results tag = ok (results, tag)
  filter_equal_loop (suc n) memory value_offset equal_val results tag = do
    new_val ← serialize_value_from_buffer equal_val.value_type memory value_offset
    com_result ← compare_values fl equal_val new_val
    results' ← push_if (com_result == 0) tag new_val results
    filter_equal_loop n memory (add_int value_offset (get_value_length new_val)) equal_val results'
        (next_tag tag)

  unfoldable pub filter_equal_op : DataBlock → Value → List Tagged → ℕ → Result Scanned
  unfolding filter_equal_loop
  filter_equal_op block equal_val results tag =
      filter_equal_loop (rounds block.field_data_nums) block.memory block.last_record_start_address
        equal_val results tag
