-- ===== src/Memory/Reader.antt =====
-- The pattern `memcpy(p, buffer + offset, n); offset += n;` of the deserializers.
use tiny_dbms.Base.{
  ℕ, zero, suc, ◌+◌, ◌≤◌, ◌≡◌, refl, not, List, [], ◌∷◌, ◌++◌, append_assoc, arith, length,
  length-append, All, Result, ok, bad_length, require, ◌>>=◌, ◌>>◌,
}
use tiny_dbms.Memory.Words.{
  IsInt, IsSize, add_int, add_int-lt, int_bytes, length-int_bytes, is_negative, is_negative-size,
}
use tiny_dbms.Memory.Buffer.{Buffer, load, load_ok, load_int, load_int_at, slice, slice_split}
use tiny_dbms.Memory.Cursor.{ints, texts}

-- What was read, and the next offset.
unfoldable pub get_int : Buffer → ℕ → Result (ℕ × ℕ)
get_int buffer offset = do n ← load_int buffer offset; ok (n, add_int offset 4)

-- `text.resize(n); memcpy(&text[0], buffer + offset, n); offset += n;`
unfoldable pub get_text : Buffer → ℕ → ℕ → Result (List ℕ × ℕ)
get_text buffer n offset = do
  require (not (is_negative n)) bad_length
  text ← load buffer offset n
  ok (text, add_int offset n)

unfoldable pub get_ints : ℕ → Buffer → ℕ → Result (List ℕ × ℕ)
get_ints zero buffer offset = ok ([], offset)
get_ints (suc n) buffer offset = do
  (x, offset1) ← get_int buffer offset
  (array, offset2) ← get_ints n buffer offset1
  ok (x ∷ array, offset2)

unfoldable pub get_texts : ℕ → Buffer → ℕ → Result (List (List ℕ) × ℕ)
get_texts zero buffer offset = ok ([], offset)
get_texts (suc n) buffer offset = do
  (size, offset1) ← get_int buffer offset
  (text, offset2) ← get_text buffer size offset1
  (array, offset3) ← get_texts n buffer offset2
  ok (text ∷ array, offset3)

-- The bytes `bytes` stand in the buffer from `offset` on.
pub record Stands (buffer : Buffer) (offset : ℕ) (bytes : List ℕ) : Type 0 where
  pub same : slice buffer offset (length bytes) ≡ bytes
  pub within : offset + length bytes ≤ length buffer
  pub small : IsSize (length buffer)

module _ (buffer : Buffer) (offset : ℕ) where
  pub Stands-first : (bs cs : List ℕ) → Stands buffer offset (bs ++ cs) → Stands buffer offset bs
  Stands-first bs cs s = record {
    same = (slice_split buffer offset (offset + length bs) bs cs s.same refl s.within).0;
    within = omega (arith, s.within, length-append bs cs);
    small = s.small;
  }

  pub Stands-rest :
      (bs cs : List ℕ) → Stands buffer offset (bs ++ cs) → Stands buffer (offset + length bs) cs
  Stands-rest bs cs s = record {
    same = (slice_split buffer offset (offset + length bs) bs cs s.same refl s.within).1;
    within = omega (arith, s.within, length-append bs cs);
    small = s.small;
  }

  pub get_int_lem :
      (n : ℕ) (rest : List ℕ)
      → IsInt n
      → Stands buffer offset (int_bytes n ++ rest)
      → get_int buffer offset ≡ ok (n, offset + length (int_bytes n))
  unfolding get_int
  get_int_lem n rest h s =
      let first = Stands-first (int_bytes n) rest s in
      let four = length-int_bytes n in
      rw (
        load_int_at buffer offset n h (omega (arith, first.within, four)) (rw four at first.same),
        add_int-lt offset 4 (omega (arith, first.within, first.small, four)),
        four,
      )

  pub get_text_lem :
      (text rest : List ℕ)
      → Stands buffer offset (text ++ rest)
      → get_text buffer (length text) offset ≡ ok (text, offset + length text)
  unfolding get_text
  get_text_lem text rest s =
      let first = Stands-first text rest s in
      rw (
        is_negative-size (length text) (omega (arith, first.within, first.small)),
        load_ok buffer offset (length text) first.within,
        first.same,
        add_int-lt offset (length text) (omega (arith, first.within, first.small)),
      )

pub get_ints_lem :
    (array : List ℕ) (buffer : Buffer) (offset : ℕ) (rest : List ℕ)
    → All IsInt array
    → Stands buffer offset (ints array ++ rest)
    → get_ints (length array) buffer offset ≡ ok (array, offset + length (ints array))
unfolding get_ints
get_ints_lem [] buffer offset rest h s = ground arith
get_ints_lem (x ∷ array) buffer offset rest (hx, h) s =
    let s' = rw (append_assoc (int_bytes x) (ints array) rest) at s in
    rw
      (
        get_int_lem buffer offset x (ints array ++ rest) hx s',
        get_ints_lem array buffer (offset + length (int_bytes x)) rest h
            (Stands-rest buffer offset (int_bytes x) (ints array ++ rest) s'),
      )
      (ground (arith, length-append (int_bytes x) (ints array)))

pub get_texts_lem :
    (array : List (List ℕ)) (buffer : Buffer) (offset : ℕ) (rest : List ℕ)
    → All (λ text. IsInt (length text)) array
    → Stands buffer offset (texts array ++ rest)
    → get_texts (length array) buffer offset ≡ ok (array, offset + length (texts array))
unfolding get_texts
get_texts_lem [] buffer offset rest h s = ground arith
get_texts_lem (text ∷ array) buffer offset rest (hx, h) s =
    let head = int_bytes (length text) in
    let tail = texts array ++ rest in
    let s1 : Stands buffer offset (head ++ (text ++ tail)) =
      rw (append_assoc head (text ++ texts array) rest, append_assoc text (texts array) rest) at
        s in
    let s2 = Stands-rest buffer offset head (text ++ tail) s1 in
    let s3 = Stands-rest buffer (offset + length head) text tail s2 in
    rw
      (
        get_int_lem buffer offset (length text) (text ++ tail) hx s1,
        get_text_lem buffer (offset + length head) text tail s2,
        get_texts_lem array buffer (offset + length head + length text) rest h s3,
      )
      (ground (arith, length-append head (text ++ texts array), length-append text (texts array)))
