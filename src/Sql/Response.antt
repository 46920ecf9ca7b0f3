-- ===== src/Sql/Response.antt =====
-- include/sql/sql_struct.h: the bytes of an answer, which the server writes and the client reads.
use tiny_dbms.Base.{
  ℕ, suc, ◌+◌, ◌%◌, ◌^◌, ◌<◌, ◌≤◌, ◌≡◌, refl, ap, ◌∙◌, sym, List, [], ◌∷◌, ◌++◌, append-nil,
  append_assoc, arith, length, length-append, take, if◌then◌else◌, Result, ok, fault, ◌>>=◌, true,
  false, ◌==◌,
}
use tiny_dbms.Memory.Words.{IsSize, int_mod, int_bytes, lt_int}
use tiny_dbms.Memory.Buffer.{
  Buffer, load, load_ok, slice-patch_self, patch, patch_nothing, length-patch,
}
use tiny_dbms.Memory.Slices.{take_all}
use native.Mathlib.Nat.{mod-eq_of_lt}
use tiny_dbms.Memory.Cursor.{Writer, put, put_lem, after}
use tiny_dbms.Memory.Reader.{get_int, get_int_lem, Stands, Stands-rest}
use tiny_dbms.Value.{c_string}
use tiny_dbms.Sql.{SqlState, unsubmit, success, failure, parse_error, SqlResponse}

-- The enumerators by their numbers. A number that is none of them cannot be converted.
unfoldable pub state_number : SqlState → ℕ
state_number unsubmit = 0
state_number parse_error = 1
state_number success = 2
state_number failure = 3

unfoldable pub state_of : ℕ → Result SqlState
state_of n =
    if n == 0
    then ok unsubmit
    else if n == 1
    then ok parse_error
    else if n == 2
    then ok success
    else if n == 3
    then ok failure
    else fault

unfoldable pub get_length : SqlResponse → ℕ
get_length r = (8 + length r.information) % int_mod

unfoldable pub serialize : SqlResponse → Buffer → Result Writer
serialize r buffer =
    let information_length = length r.information % int_mod in
    do
      w1 ← put 0 (int_bytes (state_number r.sql_state)) (buffer, 0)
      w2 ← put 0 (int_bytes information_length) w1
      if lt_int 0 information_length
          then put 0 (take information_length r.information) w2
          else ok w2

-- `information.assign(inform)` takes the bytes up to a zero, which nothing puts behind them.
unfoldable pub deserialize : Buffer → Result SqlResponse
deserialize buffer = do
  (sql_state_value, o1) ← get_int buffer 0
  sql_state ← state_of sql_state_value
  (information_length, o2) ← get_int buffer o1
  information ←
      (if lt_int 0 information_length
        then (load buffer o2 information_length >>= λ inform. c_string inform)
        else ok [])
  ok (record { sql_state = sql_state; information = information })

-- The bytes of an answer.
abbrev pub response_bytes : SqlResponse → List ℕ
response_bytes r =
    int_bytes (state_number r.sql_state) ++ (int_bytes (length r.information) ++ r.information)

-- The text that the client has of one that was sent.
abbrev pub received : List ℕ → Result (List ℕ)
received [] = ok []
received (c ∷ cs) = c_string (c ∷ cs)

state_small : (s : SqlState) → state_number s < 4
unfolding state_number
state_small unsubmit = omega arith
state_small parse_error = omega arith
state_small success = omega arith
state_small failure = omega arith

state_of-state_number : (s : SqlState) → state_of (state_number s) ≡ ok s
unfolding state_number state_of
state_of-state_number unsubmit = refl
state_of-state_number parse_error = refl
state_of-state_number success = refl
state_of-state_number failure = refl

-- The length of a text, as an int, is positive if there is a text.
no_length : lt_int 0 0 ≡ false
no_length = refl

some_length : (n : ℕ) → suc n < 2 ^ 31 → lt_int 0 (suc n) ≡ true
some_length n h = ground arith

module _ (r : SqlResponse) (buffer : Buffer) (small : IsSize (length buffer))
    (fits : length (response_bytes r) ≤ length buffer) where
  abbrev state_bytes : List ℕ
  state_bytes = int_bytes (state_number r.sql_state)

  abbrev length_bytes : List ℕ
  length_bytes = int_bytes (length r.information)

  room : length state_bytes + (length length_bytes + length r.information) ≤ length buffer
  room = omega (
    arith,
    fits,
    length-append state_bytes (length_bytes ++ r.information),
    length-append length_bytes r.information,
  )

  first_word : put 0 state_bytes (buffer, 0) ≡ ok (after buffer 0 small state_bytes)
  first_word =
      ap (λ z. put 0 state_bytes (z, 0)) (sym (patch_nothing buffer 0))
      ∙ put_lem buffer 0 small [] state_bytes (omega (arith, room))

  second_word :
      put 0 length_bytes (after buffer 0 small state_bytes)
      ≡ ok (after buffer 0 small (state_bytes ++ length_bytes))
  second_word =
      put_lem buffer 0 small state_bytes length_bytes
        (omega (arith, room, length-append state_bytes length_bytes))

  text_part :
      (text : List ℕ)
      → text ≡ r.information
      → (if lt_int 0 (length text)
          then put 0 text (after buffer 0 small (state_bytes ++ length_bytes))
          else ok (after buffer 0 small (state_bytes ++ length_bytes)))
        ≡ ok (after buffer 0 small (state_bytes ++ (length_bytes ++ text)))
  text_part [] e =
      ap (λ z. ok (after buffer 0 small (state_bytes ++ z))) (sym (append-nil length_bytes))
  text_part (c ∷ cs) e =
      let words = length-append state_bytes length_bytes in
      rw (some_length (length cs) (omega (arith, small, room, ap length e))) (
        put_lem buffer 0 small (state_bytes ++ length_bytes) (c ∷ cs) (
          omega
            (arith, room, words, ap length e, length-append (state_bytes ++ length_bytes) (c ∷ cs)))
        ∙ ap (λ z. ok (after buffer 0 small z)) (append_assoc state_bytes length_bytes (c ∷ cs)))

  serialize-response_bytes : serialize r buffer ≡ ok (after buffer 0 small (response_bytes r))
  unfolding serialize
  serialize-response_bytes =
      rw
        (
          mod-eq_of_lt {n = length r.information} {m = 2 ^ 32} (omega (arith, room, small)),
          first_word,
          second_word,
          take_all r.information (length r.information) (omega arith),
        )
        (text_part r.information refl)

got_text :
    (buffer : Buffer) (text : List ℕ) (o : ℕ)
    → length text < 2 ^ 31
    → load buffer o (length text) ≡ ok text
    → (if lt_int 0 (length text)
        then (load buffer o (length text) >>= λ inform. c_string inform)
        else ok [])
      ≡ received text
got_text buffer [] o h e = refl
got_text buffer (c ∷ cs) o h e = rw (some_length (length cs) h, e) refl

deserialize-response_bytes :
    (r : SqlResponse) (buffer : Buffer)
    → Stands buffer 0 (response_bytes r)
    → deserialize buffer ≡ (received r.information >>= λ text. ok (record r { information = text }))
unfolding deserialize
deserialize-response_bytes r buffer s =
    let b1 = int_bytes (state_number r.sql_state) in
    let b2 = int_bytes (length r.information) in
    let o1 = 0 + length b1 in
    let o2 = o1 + length b2 in
    let s1 = Stands-rest buffer 0 b1 (b2 ++ r.information) s in
    let s2 = Stands-rest buffer o1 b2 r.information s1 in
    rw
      (
        get_int_lem buffer 0 (state_number r.sql_state) (b2 ++ r.information)
            (omega (arith, state_small r.sql_state)) s,
        state_of-state_number r.sql_state,
        get_int_lem buffer o1 (length r.information) r.information
            (omega (arith, s2.within, s2.small)) s1,
        got_text buffer r.information o2 (omega (arith, s2.within, s2.small))
            (load_ok buffer o2 (length r.information) s2.within ∙ ap ok s2.same),
      )
      refl

-- What Serialize writes into a buffer with room for it, Deserialize reads back as the state and the
-- bytes of the text up to the first zero byte; where the text has none, it reads past the end of its
-- array, unless the text is empty.
pub serialize-deserialize_response :
    (r : SqlResponse) (buffer : Buffer)
    → IsSize (length buffer)
    → length (response_bytes r) ≤ length buffer
    → (serialize r buffer >>= λ w. deserialize w.0)
      ≡ (received r.information >>= λ text. ok (record r { information = text }))
serialize-deserialize_response r buffer small fits =
    let room : (0 + length (response_bytes r) ≤ length buffer) = omega (arith, fits) in
    let size = length-patch buffer 0 (response_bytes r) room in
    rw (serialize-response_bytes r buffer small fits) (
      deserialize-response_bytes r (patch buffer 0 (response_bytes r)) (record {
        same = slice-patch_self buffer 0 (response_bytes r) room;
        within = omega (arith, size, fits);
        small = omega (arith, size, small);
      }))
