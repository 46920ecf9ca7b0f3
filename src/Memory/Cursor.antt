-- ===== src/Memory/Cursor.antt =====
-- The pattern `memcpy(buffer + offset, p, n); offset += n;` of the serializers, and its counterpart
-- for reading.
use tiny_dbms.Base.{
  ℕ, zero, suc, ◌+◌, ◌*◌, ◌%◌, ◌^◌, ◌≤◌, ◌≡◌, ap, ◌∙◌, List, [], ◌∷◌, ◌++◌, append_assoc,
  append-nil, arith, length, length-append, Result, ok, fault, ◌>>=◌,
}
use native.Mathlib.Nat.{mod-eq_of_lt}
use tiny_dbms.Memory.Words.{IsSize, int_mod, add_int, add_int-lt, int_bytes, length-int_bytes}
use tiny_dbms.Memory.Buffer.{Buffer, store, store_ok, patch, patch_append, length-patch}

-- A buffer that is written from `begin` on, and the number of bytes written.
abbrev pub Writer : Type 0
Writer = Buffer × ℕ

unfoldable pub put : ℕ → List ℕ → Writer → Result Writer
put begin bytes (memory, offset) = do
  memory' ← store memory (offset + begin) bytes
  ok (memory', add_int offset (length bytes % int_mod))

-- `for (i = 0; i < n; ++i)` over an array of ints. Past its end a read is undefined behaviour.
unfoldable pub put_ints : ℕ → ℕ → List ℕ → Writer → Result Writer
put_ints begin zero array w = ok w
put_ints begin (suc n) [] w = fault
put_ints begin (suc n) (x ∷ array) w = do w' ← put begin (int_bytes x) w; put_ints begin n array w'

-- The same over an array of strings, each with its length in front.
unfoldable pub put_texts : ℕ → ℕ → List (List ℕ) → Writer → Result Writer
put_texts begin zero array w = ok w
put_texts begin (suc n) [] w = fault
put_texts begin (suc n) (text ∷ array) w = do
  w1 ← put begin (int_bytes (length text % int_mod)) w
  w2 ← put begin text w1
  put_texts begin n array w2

abbrev pub ints : List ℕ → List ℕ
ints [] = []
ints (x ∷ array) = int_bytes x ++ ints array

abbrev pub texts : List (List ℕ) → List ℕ
texts [] = []
texts (text ∷ array) = int_bytes (length text) ++ (text ++ texts array)

pub length-ints : (array : List ℕ) → length (ints array) ≡ 4 * length array
length-ints [] = omega arith
length-ints (x ∷ array) =
    omega (arith, length-append (int_bytes x) (ints array), length-int_bytes x, length-ints array)

module _ (base : Buffer) (begin : ℕ) (small : IsSize (length base)) where
  -- The writer that has written `bytes`.
  abbrev pub after : List ℕ → Writer
  after bytes = (patch base begin bytes, length bytes)

  pub put_lem :
      (done more : List ℕ)
      → begin + length (done ++ more) ≤ length base
      → put begin more (after done) ≡ ok (after (done ++ more))
  unfolding put
  put_lem done more h =
      let total = length-append done more in
      let size = length-patch base begin done (omega (arith, total)) in
      rw (
        store_ok (patch base begin done) (length done + begin) more (omega (arith, total, size)),
        patch_append base begin (length done + begin) done more (omega arith)
            (omega (arith, total)),
        mod-eq_of_lt {n = length more} {m = 2 ^ 32} (omega (arith, total)),
        add_int-lt (length done) (length more) (omega (arith, total)),
        total,
      )

  pub put_ints_lem :
      (array done : List ℕ)
      → begin + length (done ++ ints array) ≤ length base
      → put_ints begin (length array) array (after done) ≡ ok (after (done ++ ints array))
  unfolding put_ints
  put_ints_lem [] done h = rw (append-nil done)
  put_ints_lem (x ∷ array) done h =
      let regroup = append_assoc done (int_bytes x) (ints array) in
      let total = length-append (done ++ int_bytes x) (ints array) in
      rw (put_lem done (int_bytes x) (omega (arith, ap length regroup, total)))
        (put_ints_lem array (done ++ int_bytes x) (rw regroup h) ∙ ap (λ bs. ok (after bs)) regroup)

  pub put_texts_lem :
      (array : List (List ℕ)) (done : List ℕ)
      → begin + length (done ++ texts array) ≤ length base
      → put_texts begin (length array) array (after done) ≡ ok (after (done ++ texts array))
  unfolding put_texts
  put_texts_lem [] done h = rw (append-nil done)
  put_texts_lem (text ∷ array) done h =
      let head = int_bytes (length text) in
      let regroup1 = append_assoc (done ++ head) text (texts array) in
      let regroup2 = append_assoc done head (text ++ texts array) in
      let whole = regroup1 ∙ regroup2 in
      let total1 = length-append ((done ++ head) ++ text) (texts array) in
      let total2 = length-append (done ++ head) text in
      rw
        (
          mod-eq_of_lt {n = length text} {m = 2 ^ 32}
              (omega (arith, ap length whole, total1, total2)),
          put_lem done head (omega (arith, ap length whole, total1, total2)),
          put_lem (done ++ head) text (omega (arith, ap length whole, total1, total2)),
        )
        (put_texts_lem array ((done ++ head) ++ text) (rw whole h) ∙ ap (λ bs. ok (after bs)) whole)
