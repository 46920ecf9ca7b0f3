-- ===== src/Value/Encode.antt =====
-- The bytes of a value: `Serialize` and `GetValueLength` against `SerializeValueFromBuffer`.
use tiny_dbms.Base.{
  ℕ, ◌+◌, ◌^◌, ◌≤◌, ◌≡◌, refl, ◌∙◌, sym, ap, List, ◌++◌, arith, length, length-append, ok,
}
use native.Mathlib.Nat.{mod-eq_of_lt}
use tiny_dbms.Memory.Words.{
  IsInt, IsSize, is_negative-size, int_bytes, length-int_bytes, add_int-lt,
}
use tiny_dbms.Memory.Buffer.{
  Buffer, slice, patch, store_int_ok, store_ok, load_ok, load_int_at, length-patch,
  slice-patch_self, slice-patch_below, slice_split, slice_join, slice_whole,
}
use tiny_dbms.Value.{
  ValueType, int_t, float_t, vchar_t, Value, of_int, of_float, of_chars, serialize,
  get_value_length, serialize_value_from_buffer, copy,
}

-- The values that a column of each type stores.
pub data IsStored : ValueType → Value → Type 0 where
  int_stored : (n : ℕ) → IsInt n → IsStored int_t (of_int n)
  float_stored : (n : ℕ) → IsInt n → IsStored float_t (of_float n)
  text_stored : (text : List ℕ) → IsSize (4 + length text) → IsStored vchar_t (of_chars text)

-- Four bytes of a number, or four bytes of a length and the characters.
pub encoding : {t : ValueType} {v : Value} → IsStored t v → List ℕ
encoding (int_stored n h) = int_bytes n
encoding (float_stored n h) = int_bytes n
encoding (text_stored text h) = int_bytes (length text) ++ text

pub encoding_positive :
    {t : ValueType} {v : Value} (s : IsStored t v)
    → (4 ≤ length (encoding s)) × IsSize (length (encoding s))
unfolding encoding
encoding_positive (int_stored n h) = omega (arith, length-int_bytes n)
encoding_positive (float_stored n h) = omega (arith, length-int_bytes n)
encoding_positive (text_stored text h) =
    omega (arith, length-append (int_bytes (length text)) text, length-int_bytes (length text))

-- `GetValueLength` is the number of bytes.
pub get_value_length_lem :
    {t : ValueType} {v : Value} (s : IsStored t v) → get_value_length v ≡ length (encoding s)
unfolding encoding get_value_length of_int of_float of_chars
get_value_length_lem (int_stored n h) = sym (length-int_bytes n)
get_value_length_lem (float_stored n h) = sym (length-int_bytes n)
get_value_length_lem (text_stored text h) =
    omega (arith, length-append (int_bytes (length text)) text, length-int_bytes (length text))

-- A value is read back where its bytes stand.
pub serialize_value_from_buffer_lem :
    {t : ValueType} {v : Value} (s : IsStored t v) (buffer : Buffer) (offset : ℕ)
    → offset + length (encoding s) ≤ length buffer
    → slice buffer offset (length (encoding s)) ≡ encoding s
    → serialize_value_from_buffer t buffer offset ≡ ok v
unfolding encoding serialize_value_from_buffer
serialize_value_from_buffer_lem (int_stored n h) buffer offset fits at = rw (
    load_int_at buffer offset n h (omega (arith, length-int_bytes n))
      (rw (length-int_bytes n) at at))
serialize_value_from_buffer_lem (float_stored n h) buffer offset fits at = rw (
    load_int_at buffer offset n h (omega (arith, length-int_bytes n))
      (rw (length-int_bytes n) at at))
serialize_value_from_buffer_lem (text_stored text h) buffer offset fits at =
    let bytes = int_bytes (length text) in
    let total = length-append bytes text in
    let four = length-int_bytes (length text) in
    let (front, back) =
      slice_split buffer offset (offset + 4) bytes text at (omega (arith, four)) fits in
    rw (
      load_int_at buffer offset (length text) (omega arith) (omega (arith, total, four))
          (rw four at front),
      is_negative-size (length text) (omega arith),
      load_ok buffer (offset + 4) (length text) (omega (arith, total, four)),
      back,
    )

-- `Serialize` writes these bytes at the offset, and nothing else of the buffer changes in length.
serialize_lem :
    {t : ValueType} {v : Value} (s : IsStored t v) (buffer : Buffer) (offset : ℕ)
    → offset + length (encoding s) ≤ length buffer
    → IsSize (length buffer)
    → (after : Buffer) × (serialize v buffer offset ≡ ok after)
      × (slice after offset (length (encoding s)) ≡ encoding s)
      × (length after ≡ length buffer)
unfolding encoding serialize of_int of_float of_chars
serialize_lem (int_stored n h) buffer offset fits small = (
  patch buffer offset (int_bytes n),
  store_int_ok buffer offset n (omega (arith, length-int_bytes n)),
  slice-patch_self buffer offset (int_bytes n) fits,
  length-patch buffer offset (int_bytes n) fits,
)
serialize_lem (float_stored n h) buffer offset fits small = (
  patch buffer offset (int_bytes n),
  store_int_ok buffer offset n (omega (arith, length-int_bytes n)),
  slice-patch_self buffer offset (int_bytes n) fits,
  length-patch buffer offset (int_bytes n) fits,
)
serialize_lem (text_stored text h) buffer offset fits small =
    let bytes = int_bytes (length text) in
    let total = length-append bytes text in
    let four = length-int_bytes (length text) in
    let m = patch buffer offset bytes in
    let size = length-patch buffer offset bytes (omega (arith, total)) in
    let size' = length-patch m (offset + 4) text (omega (arith, total, four, size)) in
    (
      patch m (offset + 4) text,
      rw (
        mod-eq_of_lt {n = length text} {m = 2 ^ 32} (omega arith),
        store_int_ok buffer offset (length text) (omega (arith, total, four)),
        load_ok text 0 (length text) (omega arith),
        slice_whole text,
        add_int-lt offset 4 (omega (arith, total, four)),
        store_ok m (offset + 4) text (omega (arith, total, four, size)),
      ),
      slice_join (patch m (offset + 4) text) offset (offset + 4) bytes text
          (slice-patch_below m (offset + 4) text offset (length bytes) (omega (arith, four))
            ∙ slice-patch_self buffer offset bytes (omega (arith, total)))
          (omega (arith, four))
          (slice-patch_self m (offset + 4) text (omega (arith, total, four, size)))
          (omega (arith, total, size, size')),
      size' ∙ size,
    )

-- A value that a column stores is written by `Serialize` at any offset with room, takes as many
-- bytes as `GetValueLength` says, and is read back from there by `SerializeValueFromBuffer`.
pub serialize_round_trip :
    {t : ValueType} {v : Value} (s : IsStored t v) (buffer : Buffer) (offset : ℕ)
    → offset + get_value_length v ≤ length buffer
    → IsSize (length buffer)
    → (after : Buffer) × (serialize v buffer offset ≡ ok after)
      × (length after ≡ length buffer)
      × (serialize_value_from_buffer t after offset ≡ ok v)
serialize_round_trip s buffer offset fits small =
    let (after, done, stands, size) =
      serialize_lem s buffer offset (omega (arith, get_value_length_lem s)) small in
    (
      after,
      done,
      size,
      serialize_value_from_buffer_lem s after offset (omega (arith, get_value_length_lem s, size))
          stands,
    )

-- Into a buffer of just `GetValueLength` bytes.
pub serialize_exact :
    {t : ValueType} {v : Value} (s : IsStored t v) (buffer : Buffer)
    → length buffer ≡ get_value_length v
    → serialize v buffer 0 ≡ ok (encoding s)
serialize_exact s buffer size =
    let long = get_value_length_lem s in
    let (after, done, stands, kept) =
      serialize_lem s buffer 0 (omega (arith, long)) (omega (arith, long, encoding_positive s)) in
    let same : length (encoding s) ≡ length after = omega (arith, long, kept) in
    done ∙ ap ok (sym (slice_whole after) ∙ rw same at stands)

pub copy_stored : {t : ValueType} {v : Value} → IsStored t v → copy v ≡ ok v
unfolding copy of_int of_float of_chars
copy_stored (int_stored n h) = refl
copy_stored (float_stored n h) = refl
copy_stored (text_stored text h) = rw (
  mod-eq_of_lt {n = length text} {m = 2 ^ 32} (omega arith),
  load_ok text 0 (length text) (omega arith),
  slice_whole text,
)
