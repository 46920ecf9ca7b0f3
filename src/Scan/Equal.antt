-- ===== src/Scan/Equal.antt =====
-- `FilterEqualOp`, and what becomes of it on a column of texts.
use tiny_dbms.Base.{
  ℕ, suc, ◌+◌, ◌^◌, ◌<◌, ◌≡◌, refl, ap, ◌∙◌, Bool, true, false, List, [], ◌∷◌, ◌++◌, append-nil,
  map, none, some, arith, ltb, length, All, ◌==◌, if◌then◌else◌, ok, fault, Option-cases, inl, inr,
}
use tiny_dbms.Memory.Words.{add_int}
use tiny_dbms.Memory.Buffer.{Buffer}
use tiny_dbms.Value.{vchar_t, Value, of_chars, get_value_length}
use tiny_dbms.Value.Compare.{Floats}
use tiny_dbms.Value.Compare.Texts.{first_difference, HasNoZero, compare_texts, verdict}
use tiny_dbms.Value.Compare.{minus_one}
use tiny_dbms.DataBlock.{DataBlock}
use tiny_dbms.Scan.{Tagged, push_if, filter_equal_loop, filter_equal_op}
use tiny_dbms.Scan.Spec.{Matches, Stores, kept, com_result, Comparable, com_result_lem}
use tiny_dbms.Scan.Correct.{
  StandsAt, step_read, step_rest, next_tag-lt, push_if_lem, count_lem, stands_in_block,
}

module _ (fl : Floats) (equal_val : Value) where
  abbrev pub equals : Value → Bool
  equals v = com_result fl equal_val v == 0

  equal_loop_lem :
      (vs : List Value) (rs : List (List ℕ)) (memory : Buffer) (off : ℕ) (results : List Tagged)
      (tag : ℕ)
      → Matches equal_val.value_type vs rs
      → All (λ v. Comparable fl equal_val v) vs
      → StandsAt memory off rs
      → tag + length vs < 2 ^ 64
      → filter_equal_loop fl (length vs) memory off equal_val results tag
        ≡ ok (results ++ kept equals tag vs, tag + length vs)
  unfolding filter_equal_loop
  equal_loop_lem [] [] memory off results tag m c stands h = ground (arith, append-nil results)
  equal_loop_lem [] (r ∷ rs) memory off results tag m c stands h = absurd m
  equal_loop_lem (v ∷ vs) [] memory off results tag m c stands h = absurd m
  equal_loop_lem (v ∷ vs) (r ∷ rs) memory off results tag ((s, e), m) (c, cs) stands h =
      let (after, pushed, order) =
        push_if_lem s (equals v) tag results (kept equals (tag + 1) vs) in
      rw
        (
          step_read equal_val.value_type v r rs memory off s e stands,
          com_result_lem fl equal_val v c,
          pushed,
          next_tag-lt tag (length vs) h,
        )
        (equal_loop_lem vs rs memory (add_int off (get_value_length v)) after (tag + 1) m cs
            (step_rest equal_val.value_type v r rs memory off s e stands) (omega arith)
          ∙ ground (arith, order))

  -- `FilterEqualOp` appends the values of the block that compare as equal to the given value, each
  -- with its tag, where every value of the block can be compared with it.
  pub filter_equal_op_lem :
      (b : DataBlock) (vs : List Value) (results : List Tagged) (tag : ℕ)
      → Stores b equal_val.value_type vs
      → All (λ v. Comparable fl equal_val v) vs
      → tag + length vs < 2 ^ 64
      → filter_equal_op fl b equal_val results tag
        ≡ ok (results ++ kept equals tag vs, tag + length vs)
  unfolding filter_equal_op
  filter_equal_op_lem b vs results tag (rs, holds, m) c h =
      rw (count_lem b equal_val.value_type vs rs holds m) (
        equal_loop_lem vs rs b.memory b.last_record_start_address results tag m c
          (stands_in_block b equal_val.value_type vs rs holds m) h)

decided : (a c : ℕ) → (n : ℕ) × (verdict (some (a, c)) ≡ ok n) × ((n == 0) ≡ false)
decided a c = (if ltb a c then minus_one else 1, ground arith, ground arith)

length-map : (texts : List (List ℕ)) → length (map of_chars texts) ≡ length texts
length-map [] = refl
length-map (x ∷ xs) = ap suc (length-map xs)

-- Some text of the list is the beginning of the name, or the name the beginning of it.
pub clash : List ℕ → List (List ℕ) → Bool
clash name [] = false
clash name (text ∷ texts) = elim (first_difference name text) [
  | none ↦ true
  | some d ↦ clash name texts
]

module _ (fl : Floats) (name : List ℕ) (plain : HasNoZero name) where
  texts_loop_lem :
      (texts : List (List ℕ)) (rs : List (List ℕ)) (memory : Buffer) (off : ℕ)
      (results : List Tagged) (tag : ℕ)
      → Matches vchar_t (map of_chars texts) rs
      → StandsAt memory off rs
      → tag + length texts < 2 ^ 64
      → filter_equal_loop fl (length texts) memory off (of_chars name) results tag
        ≡ (if clash name texts then fault else ok (results, tag + length texts))
  unfolding filter_equal_loop clash of_chars push_if
  texts_loop_lem [] [] memory off results tag m stands h = ground arith
  texts_loop_lem [] (r ∷ rs) memory off results tag m stands h = absurd m
  texts_loop_lem (x ∷ xs) [] memory off results tag m stands h = absurd m
  texts_loop_lem (x ∷ xs) (r ∷ rs) memory off results tag ((s, e), m) stands h =
      let read = step_read vchar_t (of_chars x) r rs memory off s e stands in
      let rest =
        texts_loop_lem xs rs memory (add_int off (get_value_length (of_chars x))) results (tag + 1)
          m (step_rest vchar_t (of_chars x) r rs memory off s e stands) (omega arith) in
      elim (Option-cases (first_difference name x)) [
        | inl d ↦ rw (read, compare_texts fl name x plain, d) (ground (arith, d))
        | inr ((a, c), d) ↦
            let (n, value, nonzero) = decided a c in
            rw
              (
                read,
                compare_texts fl name x plain,
                d,
                value,
                nonzero,
                next_tag-lt tag (length xs) h,
              )
              (rest ∙ ground (arith, d))
      ]

  -- On a block of texts the scan for a name with no zero byte never finds one: it reads past the end
  -- of an array if some text of the block equals the name, begins with it or is a beginning of it,
  -- and otherwise leaves the results as they were.
  pub filter_equal_op_texts :
      (b : DataBlock) (texts : List (List ℕ)) (results : List Tagged) (tag : ℕ)
      → Stores b vchar_t (map of_chars texts)
      → tag + length texts < 2 ^ 64
      → filter_equal_op fl b (of_chars name) results tag
        ≡ (if clash name texts then fault else ok (results, tag + length texts))
  unfolding filter_equal_op
  filter_equal_op_texts b texts results tag (rs, holds, m) h =
      rw (count_lem b vchar_t (map of_chars texts) rs holds m ∙ length-map texts) (
        texts_loop_lem texts rs b.memory b.last_record_start_address results tag m
          (stands_in_block b vchar_t (map of_chars texts) rs holds m) h)
