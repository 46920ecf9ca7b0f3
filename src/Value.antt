-- ===== src/Value.antt =====
-- include/meta/value.h: the values of a column, their bytes, and their conversion from SQL text.
pub mod Encode
pub mod Compare
pub mod Convert
use tiny_dbms.Base.{
  ℕ, zero, suc, ◌+◌, ◌-◌, ◌*◌, ◌%◌, ◌^◌, ◌≡◌, Bool, true, false, not, List, [], ◌∷◌, ◌++◌, Option,
  none, some, ltb, leb, ◌==◌, ◌=str=◌, if◌then◌else◌, length, codes, Result, ok, raise, fault,
  raw_serialized, unsupported_type, bad_length, unknown_type_name, ◌>>=◌, ◌>>◌, in_bounds, require,
}
use tiny_dbms.Memory.Words.{int_mod, sizeof_int, add_int, sub_int, is_negative}
use tiny_dbms.Memory.Buffer.{Buffer, store, load, store_int, load_int}

pub data ValueType : Type 0 where
  int_t float_t vchar_t raw_value_t : ValueType

-- `num_value` is the bit pattern of the union of an `int` and a `float`; `string_value` is the array
-- that the pointer owns, or `none` for a null pointer. A string is the list of its bytes.
pub record Value : Type 0 where
  pub value_type : ValueType
  pub num_value : ℕ
  pub string_value : Option (List ℕ)
  pub raw_value : List ℕ

-- The constructors. The union of a raw value is left uninitialised by the source and not read before
-- `InitValue` sets it; it is 0 here.
unfoldable pub of_raw : List ℕ → Value
of_raw text = record {
  value_type = raw_value_t;
  num_value = 0;
  string_value = none;
  raw_value = text;
}

unfoldable pub of_int : ℕ → Value
of_int n = record { value_type = int_t; num_value = n; string_value = none; raw_value = [] }

unfoldable pub of_float : ℕ → Value
of_float x = record { value_type = float_t; num_value = x; string_value = none; raw_value = [] }

unfoldable pub of_chars : List ℕ → Value
of_chars text = record {
  value_type = vchar_t;
  num_value = length text % int_mod;
  string_value = some text;
  raw_value = [];
}

-- A read through a null pointer is undefined behaviour.
abbrev pub deref : Option (List ℕ) → Result (List ℕ)
deref none = fault
deref (some text) = ok text

-- `Value(const Value& other)` copies as many characters as the length field says.
unfoldable pub copy : Value → Result Value
copy other = elim other.string_value [
  | none ↦ ok (record other { string_value = none })
  | some text ↦ do
    text' ← load text 0 other.num_value
    ok (record other { string_value = some text' })
]

serialize_as : ValueType → Value → Buffer → ℕ → Result Buffer
serialize_as vchar_t v buffer offset = do
  buffer' ← store_int buffer offset v.num_value
  text ← deref v.string_value
  chars ← load text 0 v.num_value
  store buffer' (add_int offset sizeof_int) chars
serialize_as raw_value_t v buffer offset = raise raw_serialized
serialize_as int_t v buffer offset = store_int buffer offset v.num_value
serialize_as float_t v buffer offset = store_int buffer offset v.num_value

unfoldable pub serialize : Value → Buffer → ℕ → Result Buffer
unfolding serialize_as
serialize v buffer offset = serialize_as v.value_type v buffer offset

length_as : ValueType → Value → ℕ
length_as vchar_t v = add_int sizeof_int v.num_value
length_as raw_value_t v = length v.raw_value % int_mod
length_as int_t v = sizeof_int
length_as float_t v = sizeof_int

unfoldable pub get_value_length : Value → ℕ
unfolding length_as
get_value_length v = length_as v.value_type v

-- The member `Deserialize` allocates one character, `new char(n)`, for a string of any length.
deserialize_as : ValueType → Value → Buffer → ℕ → ℕ → Result Value
deserialize_as vchar_t v buffer offset n = do
  text ← load buffer (add_int offset sizeof_int) n
  allocated ← store (0 ∷ []) 0 text
  ok (record v { num_value = n; string_value = some allocated })
deserialize_as _ v buffer offset n = ok (record v { num_value = n })

unfoldable pub deserialize : Value → Buffer → ℕ → Result Value
unfolding deserialize_as
deserialize v buffer offset = do
  n ← load_int buffer offset
  deserialize_as v.value_type v buffer offset n

-- The cast of a number that names no enumerator leaves later switches without a case: `fault`.
unfoldable pub get_enum_type : ℕ → Result ValueType
get_enum_type zero = ok int_t
get_enum_type (suc zero) = ok float_t
get_enum_type (suc (suc zero)) = ok vchar_t
get_enum_type (suc (suc (suc zero))) = ok raw_value_t
get_enum_type (suc (suc (suc (suc n)))) = fault

-- The number of an enumerator, as comparisons with a stored column type use it.
unfoldable pub enum_number : ValueType → ℕ
enum_number int_t = 0
enum_number float_t = 1
enum_number vchar_t = 2
enum_number raw_value_t = 3

unfoldable pub get_value_type_length : ValueType → ℕ
get_value_type_length int_t = 4
get_value_type_length float_t = 4
get_value_type_length vchar_t = 50
get_value_type_length raw_value_t = 50

unfoldable pub get_value_type_from_str : List ℕ → Result ValueType
get_value_type_from_str value_str =
    if value_str =str= codes "INT"
    then ok int_t
    else if value_str =str= codes "FLOAT"
    then ok float_t
    else if value_str =str= codes "VCHAR"
    then ok vchar_t
    else raise unknown_type_name

-- A C string as a std::string: up to the first zero. Without one the read leaves the array.
unfoldable pub c_string : List ℕ → Result (List ℕ)
c_string [] = fault
c_string (c ∷ cs) =
    let rest = c_string cs in if c == 0 then ok [] else (rest >>= λ text. ok (c ∷ text))

unfoldable pub serialize_value_from_buffer : ValueType → Buffer → ℕ → Result Value
serialize_value_from_buffer int_t buffer offset = do n ← load_int buffer offset; ok (of_int n)
serialize_value_from_buffer float_t buffer offset = do n ← load_int buffer offset; ok (of_float n)
serialize_value_from_buffer vchar_t buffer offset = do
  str_length ← load_int buffer offset
  require (not (is_negative str_length)) bad_length
  text ← load buffer (offset + sizeof_int) str_length
  ok (of_chars text)
serialize_value_from_buffer raw_value_t buffer offset = do
  raw ← load buffer offset 50
  text ← c_string raw
  ok (of_raw text)

unfoldable pub build_default_value : ValueType → Result Value
build_default_value int_t = ok (of_int 0)
build_default_value float_t = ok (of_float 0)
build_default_value vchar_t = ok (of_chars (32 ∷ []))
build_default_value raw_value_t = raise unsupported_type
