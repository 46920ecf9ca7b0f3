-- ===== src/Value/Convert.antt =====
-- include/meta/value.h: the conversions between the text of a statement, a value, and the text of an
-- answer, with the decimal notation of std::stoi and std::to_string.
pub mod Decimal
use tiny_dbms.Base.{
  ℕ, zero, suc, ◌+◌, ◌-◌, ◌*◌, ◌/◌, ◌%◌, ◌^◌, Bool, true, false, List, [], ◌∷◌, ◌++◌, Option, none,
  some, ltb, leb, ◌==◌, ◌&&◌, ◌||◌, if◌then◌else◌, length, codes, Result, ok, raise, fault,
  not_a_number, out_of_range, unsupported_type, bad_length, ◌>>=◌,
}
use tiny_dbms.Memory.Words.{int_mod, is_negative}
use tiny_dbms.Memory.Buffer.{load}
use tiny_dbms.Value.{
  ValueType, int_t, float_t, vchar_t, raw_value_t, Value, of_int, of_float, of_chars, deref,
  c_string,
}
use tiny_dbms.Value.Compare.{Floats}

abbrev pub is_digit : ℕ → Bool
is_digit c = leb 48 c && leb c 57

abbrev pub is_space : ℕ → Bool
is_space c = (leb 9 c && leb c 13) || c == 32

-- The value of the digits that a text starts with, behind those whose value is `acc`.
unfoldable pub read_digits : ℕ → List ℕ → ℕ
read_digits acc [] = acc
read_digits acc (c ∷ cs) =
    let rest = read_digits (acc * 10 + (c - 48)) cs in if is_digit c then rest else acc

-- A number needs a digit, and has to be an int; `negative` numbers go one further.
unfoldable pub digits_to_int : Bool → List ℕ → Result ℕ
digits_to_int negative [] = raise not_a_number
digits_to_int negative (c ∷ cs) =
    let n = read_digits 0 (c ∷ cs) in
    if is_digit c
    then (elim negative [
      | false ↦ if ltb n (2 ^ 31) then ok n else raise out_of_range
      | true ↦ if leb n (2 ^ 31) then ok ((int_mod - n) % int_mod) else raise out_of_range
    ])
    else raise not_a_number

-- std::stoi: white space, a sign, and digits; what follows them is ignored. The signs are 43 and 45.
unfoldable pub stoi : List ℕ → Result ℕ
stoi [] = raise not_a_number
stoi (c ∷ cs) =
    let rest = stoi cs in
    if is_space c
    then rest
    else if c == 45
    then digits_to_int true cs
    else if c == 43
    then digits_to_int false cs
    else digits_to_int false (c ∷ cs)

-- std::to_string: the digits of a number in front of a text, on fuel for the number of digits.
unfoldable pub decimal : ℕ → ℕ → List ℕ → List ℕ
decimal zero n text = text
decimal (suc fuel) n text =
    let more = decimal fuel (n / 10) ((48 + n % 10) ∷ text) in
    if ltb n 10 then (48 + n) ∷ text else more

-- An int has ten digits at most.
unfoldable pub int_to_string : ℕ → List ℕ
int_to_string n = if is_negative n then 45 ∷ decimal 10 (int_mod - n) [] else decimal 10 n []

-- The tag of a row, a size_t, has twenty.
unfoldable pub size_to_string : ℕ → List ℕ
size_to_string n = decimal 20 n []

module _ (fl : Floats) where
  -- InitValue answers whether the text can be read; if not, the value is as before.
  init_value_as : ValueType → Value → Result (Bool × Value)
  init_value_as int_t v = elim (stoi v.raw_value) [
    | ok n ↦ ok (true, record v { num_value = n; value_type = int_t })
    | raise e ↦ ok (false, v)
    | fault ↦ fault
  ]
  init_value_as float_t v = elim (fl.stof v.raw_value) [
    | ok x ↦ ok (true, record v { num_value = x; value_type = float_t })
    | raise e ↦ ok (false, v)
    | fault ↦ fault
  ]
  init_value_as vchar_t v = ok (
    true,
    record v {
      num_value = length v.raw_value % int_mod;
      string_value = some v.raw_value;
      value_type = vchar_t;
    },
  )
  init_value_as raw_value_t v = ok (false, v)

  unfoldable pub init_value : Value → ValueType → Result (Bool × Value)
  unfolding init_value_as
  init_value v type = init_value_as type v

  -- What std::stoi or std::stof throws is caught, and an exception of the code is thrown instead.
  rethrown : Result ℕ → Result ℕ
  rethrown (ok n) = ok n
  rethrown (raise e) = raise not_a_number
  rethrown fault = fault

  get_int_value_as : ValueType → Value → Result ℕ
  get_int_value_as int_t v = ok v.num_value
  get_int_value_as float_t v = ok (fl.truncate v.num_value)
  get_int_value_as vchar_t v = do
    array ← deref v.string_value
    text ← c_string array
    rethrown (stoi text)
  get_int_value_as raw_value_t v = raise unsupported_type

  unfoldable pub get_int_value : Value → Result ℕ
  unfolding get_int_value_as rethrown
  get_int_value v = get_int_value_as v.value_type v

  get_float_value_as : ValueType → Value → Result ℕ
  get_float_value_as int_t v = ok (fl.of_int_float v.num_value)
  get_float_value_as float_t v = ok v.num_value
  get_float_value_as vchar_t v = do
    array ← deref v.string_value
    text ← c_string array
    rethrown (fl.stof text)
  get_float_value_as raw_value_t v = raise unsupported_type

  unfoldable pub get_float_value : Value → Result ℕ
  unfolding get_float_value_as rethrown
  get_float_value v = get_float_value_as v.value_type v

  get_string_value_as : ValueType → Value → Result (List ℕ)
  get_string_value_as int_t v = ok (int_to_string v.num_value)
  get_string_value_as float_t v = ok (fl.float_to_string v.num_value)
  get_string_value_as vchar_t v = do array ← deref v.string_value; c_string array
  get_string_value_as raw_value_t v = raise unsupported_type

  unfoldable pub get_string_value : Value → Result (List ℕ)
  unfolding get_string_value_as
  get_string_value v = get_string_value_as v.value_type v

  -- A negative length is a size_t that no string can have.
  to_string_as : ValueType → Value → Result (List ℕ)
  to_string_as int_t v = ok (int_to_string v.num_value)
  to_string_as float_t v = ok (fl.float_to_string v.num_value)
  to_string_as vchar_t v =
      if is_negative v.num_value
      then raise bad_length
      else (do array ← deref v.string_value; load array 0 v.num_value)
  to_string_as raw_value_t v = ok v.raw_value

  unfoldable pub to_string : Value → Result (List ℕ)
  unfolding to_string_as
  to_string v = to_string_as v.value_type v
