-- ===== src/Select/Answer.antt =====
-- The text of the answer to a SELECT, in words of its own: the names of the columns, and the values of
-- the rows.
use tiny_dbms.Base.{
  ℕ, zero, suc, ◌<◌, ◌^◌, ◌≡◌, refl, ap, ◌∙◌, sym, false, List, [], ◌∷◌, ◌++◌, append_assoc,
  append-nil, All, length, arith, codes, ok,
}
use native.Mathlib.Nat.{mod-eq_of_lt}
use tiny_dbms.Memory.Words.{is_negative-size}
use tiny_dbms.Memory.Buffer.{load_ok, slice_whole}
use tiny_dbms.StdMap.{string_key}
use tiny_dbms.Value.{Value, of_int, of_float, of_chars}
use tiny_dbms.Value.Compare.{Floats}
use tiny_dbms.Value.Convert.{int_to_string, to_string}
use tiny_dbms.Sql.{Column}
use tiny_dbms.Join.{Row}
use tiny_dbms.Select.{values_to_string, row_to_string, serialize_data, serialize_rows_header}

-- The names of the columns, a bar behind each.
abbrev pub barred_names : List Column → List ℕ
barred_names [] = []
barred_names (c ∷ columns) = c.col_name ++ (codes " | " ++ barred_names columns)

pub serialize_rows_header_lem :
    (columns : List Column) (before : List ℕ)
    → serialize_rows_header before columns ≡ before ++ barred_names columns
unfolding serialize_rows_header
serialize_rows_header_lem [] before = sym (append-nil before)
serialize_rows_header_lem (c ∷ columns) before =
    serialize_rows_header_lem columns (before ++ (c.col_name ++ codes " | "))
    ∙ append_assoc before (c.col_name ++ codes " | ") (barred_names columns)
    ∙ ap (◌++◌ before) (append_assoc c.col_name (codes " | ") (barred_names columns))

module _ (fl : Floats) where
  -- The text of a value: the decimal digits of an INT, what the language prints for a FLOAT, and the
  -- characters of a VCHAR.
  pub data PrintsAs : Value → List ℕ → Type 0 where
    int_text : (n : ℕ) → PrintsAs (of_int n) (int_to_string n)
    float_text : (x : ℕ) → PrintsAs (of_float x) (fl.float_to_string x)
    chars_text : (text : List ℕ) → length text < 2 ^ 31 → PrintsAs (of_chars text) text

  abbrev pub HasText : Value → Type 0
  HasText v = (text : List ℕ) × PrintsAs v text

  to_string_lem : (v : Value) (text : List ℕ) → PrintsAs v text → to_string fl v ≡ ok text
  unfolding to_string of_int of_float of_chars
  to_string_lem _ _ (int_text n) = refl
  to_string_lem _ _ (float_text x) = refl
  to_string_lem _ _ (chars_text text short) =
      rw
        (
          mod-eq_of_lt {n = length text} {m = 2 ^ 32} (omega (arith, short)),
          is_negative-size (length text) short,
          load_ok text 0 (length text) (omega arith),
          slice_whole text,
        )
        refl

  -- At most `n` values, a bar behind each, and the rows, a line each.
  abbrev pub barred : ℕ → (vs : List Value) → All HasText vs → List ℕ
  barred zero vs texts = []
  barred (suc n) [] texts = []
  barred (suc n) (v ∷ vs) ((text, prints), texts) = text ++ (codes " | " ++ barred n vs texts)

  abbrev pub HaveTexts : List Row → Type 0
  HaveTexts rows = All (λ (r : Row). All HasText r.values) rows

  abbrev pub lines : ℕ → (rows : List Row) → HaveTexts rows → List ℕ
  lines n [] texts = []
  lines n (r ∷ rows) (t, texts) =
      codes "| " ++ (barred n r.values t ++ (codes "\n" ++ lines n rows texts))

  values_to_string_lem :
      (n : ℕ) (vs : List Value) (texts : All HasText vs) (before : List ℕ)
      → values_to_string fl n vs before ≡ ok (before ++ barred n vs texts)
  unfolding values_to_string
  values_to_string_lem zero vs texts before = ap ok (sym (append-nil before))
  values_to_string_lem (suc n) [] texts before = ap ok (sym (append-nil before))
  values_to_string_lem (suc n) (v ∷ vs) ((text, prints), texts) before =
      rw (to_string_lem v text prints) (
        values_to_string_lem n vs texts (before ++ (text ++ codes " | "))
        ∙ ap ok (
            append_assoc before (text ++ codes " | ") (barred n vs texts)
            ∙ ap (◌++◌ before) (append_assoc text (codes " | ") (barred n vs texts))))

  pub serialize_data_lem :
      (rows : List Row) (n : ℕ) (texts : HaveTexts rows) (before : List ℕ)
      → serialize_data fl rows n false before ≡ ok (before ++ lines n rows texts)
  unfolding serialize_data row_to_string
  serialize_data_lem [] n texts before = ap ok (sym (append-nil before))
  serialize_data_lem (r ∷ rows) n (t, texts) before =
      let line = codes "| " ++ barred n r.values t in
      rw (values_to_string_lem n r.values t (codes "| ")) (
        serialize_data_lem rows n texts (before ++ (line ++ codes "\n"))
        ∙ ap ok (
            append_assoc before (line ++ codes "\n") (lines n rows texts)
            ∙ ap (◌++◌ before) (
                append_assoc line (codes "\n") (lines n rows texts)
                ∙ append_assoc (codes "| ") (barred n r.values t)
                    (codes "\n" ++ lines n rows texts))))
