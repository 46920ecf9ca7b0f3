-- ===== src/Value/Compare.antt =====
-- `Compare` of include/meta/value.h. Floats are the language's; what the code does with them is the
-- record `Floats`, over their 32-bit patterns.
pub mod Order
pub mod Texts
use tiny_dbms.Base.{
  ℕ, ◌-◌, ◌^◌, ◌%◌, ◌+◌, Bool, true, false, List, [], ◌∷◌, Option, ltb, leb, ◌&&◌, ◌==◌,
  if◌then◌else◌, Result, ok, raise, fault, unsupported_type, ◌>>=◌,
}
use tiny_dbms.Memory.Words.{sub_int, int_mod, is_negative}
use tiny_dbms.Value.{ValueType, int_t, float_t, vchar_t, raw_value_t, Value, deref, c_string}

pub record Floats : Type 0 where
  pub of_int_float : ℕ → ℕ
  pub less : ℕ → ℕ → Bool
  pub stof : List ℕ → Result ℕ
  pub float_to_string : ℕ → List ℕ
  pub truncate : ℕ → ℕ

abbrev pub minus_one : ℕ
minus_one = int_mod - 1

-- `strcmp` promises the sign of its result only; 1 and -1 stand for it. A read past the end of an
-- array is undefined behaviour.
unfoldable pub strcmp : List ℕ → List ℕ → Result ℕ
strcmp [] ys = fault
strcmp (x ∷ xs) [] = fault
strcmp (x ∷ xs) (y ∷ ys) =
    let rest = strcmp xs ys in
    if x == y then (if x == 0 then ok 0 else rest) else if ltb x y then ok minus_one else ok 1

-- The difference of two ints. One that is no int is undefined behaviour.
unfoldable pub difference : ℕ → ℕ → Result ℕ
difference a b =
    let x = (a + 2 ^ 31) % int_mod in
    let y = (b + 2 ^ 31) % int_mod in
    if leb y (x + 2 ^ 31) && ltb x (y + 2 ^ 31) then ok (sub_int a b) else fault

module _ (fl : Floats) where
  -- `(x > y) - (x < y)`.
  unfoldable pub three_way : ℕ → ℕ → ℕ
  three_way x y = sub_int (if fl.less y x then 1 else 0) (if fl.less x y then 1 else 0)

  -- The number in the union of an INT or FLOAT value, as a float.
  unfoldable pub as_float : Value → ℕ
  as_float v = elim v.value_type [ int_t ↦ fl.of_int_float v.num_value | _ ↦ v.num_value ]

  unfoldable pub text_float : Value → Result ℕ
  text_float v = do array ← deref v.string_value; text ← c_string array; fl.stof text

  compare_as : ValueType → ValueType → Value → Value → Result ℕ
  unfolding difference three_way as_float text_float
  compare_as int_t int_t a b = difference a.num_value b.num_value
  compare_as float_t float_t a b = ok (three_way a.num_value b.num_value)
  compare_as vchar_t vchar_t a b = do x ← deref a.string_value; y ← deref b.string_value; strcmp x y
  compare_as int_t float_t a b = ok (three_way (as_float a) (as_float b))
  compare_as float_t int_t a b = ok (three_way (as_float a) (as_float b))
  compare_as int_t vchar_t a b = do y ← text_float b; ok (three_way (as_float a) y)
  compare_as float_t vchar_t a b = do y ← text_float b; ok (three_way (as_float a) y)
  compare_as vchar_t int_t a b = do x ← text_float a; ok (three_way x (as_float b))
  compare_as vchar_t float_t a b = do x ← text_float a; ok (three_way x (as_float b))
  compare_as _ _ a b = raise unsupported_type

  unfoldable pub compare_values : Value → Value → Result ℕ
  unfolding compare_as
  compare_values a b = compare_as a.value_type b.value_type a b
