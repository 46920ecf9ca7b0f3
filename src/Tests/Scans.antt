-- ===== src/Tests/Scans.antt =====
-- Scans of a block, and comparisons.
use tiny_dbms.Base.{
  ℕ, ◌+◌, ◌≡◌, refl, sym, false, List, [], ◌∷◌, ◌++◌, arith, length, ◌==◌, if◌then◌else◌, ok, fault,
  codes, map,
}
use tiny_dbms.Memory.Words.{lt_int}
use tiny_dbms.Value.{of_int, of_chars, int_t, vchar_t, get_value_length}
use tiny_dbms.Value.Encode.{IsStored, text_stored, encoding, get_value_length_lem}
use tiny_dbms.Value.Compare.{Floats, compare_values}
use tiny_dbms.Value.Compare.Order.{compare_int_sign}
use tiny_dbms.Value.Compare.Texts.{compare_texts, verdict, first_difference, HasNoZero}
use tiny_dbms.Sql.{bigger}
use tiny_dbms.DataBlock.{DataBlock, insert_data}
use tiny_dbms.DataBlock.Layout.{Holds}
use tiny_dbms.DataBlock.Insert.{insert_data-Holds, have_space_iff}
use tiny_dbms.Scan.{serialize_op, filter_op, filter_equal_op}
use tiny_dbms.Scan.Spec.{passes, Stores, numbered, kept, com_result, Comparable}
use tiny_dbms.Scan.Correct.{serialize_op_lem, filter_op_lem}
use tiny_dbms.Scan.Equal.{filter_equal_op_texts, clash}
use tiny_dbms.Tests.Blocks.{
  empty, empty-Holds, first_block, first_block-Holds, seven-IsStored, seven,
}

-- Any function will do for the float operations, since no float is compared here.
abbrev pub some_floats : Floats
some_floats = record {
  of_int_float = λ n. n;
  less = λ x y. false;
  stof = λ text. ok 0;
  float_to_string = λ x. [];
  truncate = λ x. x;
}

first_block-Stores : Stores first_block int_t (of_int 7 ∷ [])
first_block-Stores = (seven ∷ [], first_block-Holds, ((seven-IsStored, refl), tt))

serialize_op_lem_example :
    serialize_op first_block int_t [] 3
    ≡ ok ([] ++ numbered 3 (of_int 7 ∷ []), 3 + length (of_int 7 ∷ []))
serialize_op_lem_example =
    serialize_op_lem first_block int_t (of_int 7 ∷ []) [] 3 first_block-Stores (omega arith)

pub seven_five : Comparable some_floats (of_int 7) (of_int 5)
unfolding compare_values of_int
seven_five = (2, refl)

filter_op_lem_example :
    filter_op some_floats first_block bigger (of_int 5) [] 3
    ≡ ok (
      [] ++ kept (λ v. passes bigger (com_result some_floats v (of_int 5))) 3 (of_int 7 ∷ []),
      3 + length (of_int 7 ∷ []),
    )
unfolding of_int
filter_op_lem_example =
    filter_op_lem some_floats bigger (of_int 5) first_block (of_int 7 ∷ []) [] 3 first_block-Stores
      (seven_five, tt) (omega arith)

compare_int_sign_example :
    (n : ℕ) × (compare_values some_floats (of_int 7) (of_int 5) ≡ ok n)
    × (lt_int n 0 ≡ lt_int 7 5)
    × (lt_int 0 n ≡ lt_int 5 7)
    × ((n == 0) ≡ (7 == 5))
compare_int_sign_example =
    compare_int_sign some_floats 7 5 (omega arith) (omega arith) (omega arith) (omega arith)

plain_ab : HasNoZero (codes "ab")
plain_ab = (λ e. ground arith, (λ e. ground arith, tt))

compare_texts_example :
    compare_values some_floats (of_chars (codes "ab")) (of_chars (codes "abc"))
    ≡ verdict (first_difference (codes "ab") (codes "abc"))
compare_texts_example = compare_texts some_floats (codes "ab") (codes "abc") plain_ab

abc-IsStored : IsStored vchar_t (of_chars (codes "abc"))
abc-IsStored = text_stored (codes "abc") (omega arith)

abbrev abc : List ℕ
abc = encoding abc-IsStored

length-abc : length abc ≡ 7
unfolding get_value_length of_chars
length-abc = sym (get_value_length_lem abc-IsStored)

text_block :
    (c : DataBlock) × (insert_data empty abc (length abc) ≡ ok c)
    × Holds c (abc ∷ [])
    × (c.next_block_pointer ≡ empty.next_block_pointer)
    × (c.field_length ≡ empty.field_length)
text_block =
    insert_data-Holds empty [] abc empty-Holds (omega (arith, length-abc))
      (omega (arith, length-abc))
      ((have_space_iff empty [] empty-Holds (length abc) (omega (arith, length-abc))).1
        (omega (arith, length-abc)))

text_block-Stores : Stores text_block.0 vchar_t (map of_chars (codes "abc" ∷ []))
text_block-Stores = (abc ∷ [], text_block.2, ((abc-IsStored, refl), tt))

filter_equal_op_texts_example :
    filter_equal_op some_floats text_block.0 (of_chars (codes "ab")) [] 0 ≡ (
      if clash (codes "ab") (codes "abc" ∷ [])
      then fault
      else ok ([], 0 + length (codes "abc" ∷ [])))
filter_equal_op_texts_example =
    filter_equal_op_texts some_floats (codes "ab") plain_ab text_block.0 (codes "abc" ∷ []) [] 0
      text_block-Stores (omega arith)
