-- ===== src/Value/Convert/Decimal.antt =====
-- An int that is written as a decimal number is read back: InitValue undoes GetStringValue.
use tiny_dbms.Base.{
  ℕ, zero, suc, ◌+◌, ◌-◌, ◌*◌, ◌/◌, ◌%◌, ◌^◌, ◌≤◌, ◌<◌, ◌≡◌, refl, ap, ◌∙◌, sym, inl, inr, Bool,
  true, false, Bool-cases, List, [], ◌∷◌, ltb, leb, ◌==◌, if◌then◌else◌, arith, tests, lt→ltb,
  le→leb, ok,
}
use tiny_dbms.Memory.Words.{int_mod}
use tiny_dbms.Value.{int_t, of_int, of_raw}
use tiny_dbms.Value.Compare.{Floats}
use tiny_dbms.Value.Convert.{
  read_digits, digits_to_int, stoi, decimal, int_to_string, init_value, get_string_value, is_digit,
  is_space,
}

-- The numbers with so many digits end here.
abbrev limit : ℕ → ℕ
limit zero = 1
limit (suc digits) = 10 * limit digits

read_one :
    (acc d : ℕ) (text : List ℕ)
    → d < 10
    → read_digits acc ((48 + d) ∷ text) ≡ read_digits (acc * 10 + d) text
unfolding read_digits
read_one acc d text h =
    let digit : (is_digit (48 + d) ≡ true) = ground arith in
    let off : (48 + d - 48 ≡ d) = omega arith in rw (digit, off) refl

-- The first digits are read before the text behind them.
read_digits-decimal :
    (fuel n : ℕ) (text : List ℕ)
    → n < limit (suc fuel)
    → read_digits 0 (decimal (suc fuel) n text) ≡ read_digits n text
unfolding decimal
read_digits-decimal zero n text h =
    let small : (ltb n 10 ≡ true) = lt→ltb n 10 (omega (arith, h)) in
    rw small (read_one 0 n text (omega (arith, h)) ∙ ap (λ z. read_digits z text) (omega arith))
read_digits-decimal (suc fuel) n text h = elim (Bool-cases (ltb n 10)) [
  | inl small ↦
      rw small (read_one 0 n text (omega tests) ∙ ap (λ z. read_digits z text) (omega arith))
  | inr large ↦ rw large (
      read_digits-decimal fuel (n / 10) ((48 + n % 10) ∷ text) (omega (arith, h))
      ∙ read_one (n / 10) (n % 10) text (omega arith)
      ∙ ap (λ z. read_digits z text) (omega arith))
]

-- A decimal number starts with a digit.
decimal-digit :
    (fuel n : ℕ) (text : List ℕ)
    → n < limit (suc fuel)
    → (c : ℕ) × (cs : List ℕ) × (decimal (suc fuel) n text ≡ c ∷ cs) × (is_digit c ≡ true)
unfolding decimal
decimal-digit zero n text h =
    let small : (ltb n 10 ≡ true) = lt→ltb n 10 (omega (arith, h)) in
    (48 + n, text, rw small refl, ground arith)
decimal-digit (suc fuel) n text h = elim (Bool-cases (ltb n 10)) [
  | inl small ↦ (48 + n, text, rw small refl, ground arith)
  | inr large ↦ rw large (decimal-digit fuel (n / 10) ((48 + n % 10) ∷ text) (omega (arith, h)))
]

digits_to_int_lem :
    (negative : Bool) (c : ℕ) (cs : List ℕ) (n : ℕ)
    → is_digit c ≡ true
    → read_digits 0 (c ∷ cs) ≡ n
    → n ≤ 2 ^ 31
    → (negative ≡ false → n < 2 ^ 31)
    → digits_to_int negative (c ∷ cs) ≡ ok (if negative then (int_mod - n) % int_mod else n)
unfolding digits_to_int
digits_to_int_lem true c cs n digit value h small =
    let within : (leb n (2 ^ 31) ≡ true) = le→leb n (2 ^ 31) h in rw (digit, value, within) refl
digits_to_int_lem false c cs n digit value h small =
    let within : (ltb n (2 ^ 31) ≡ true) = lt→ltb n (2 ^ 31) (small refl) in
    rw (digit, value, within) refl

-- A text that starts with a digit has no white space and no sign to skip.
stoi-digits :
    (c : ℕ) (cs : List ℕ) → is_digit c ≡ true → stoi (c ∷ cs) ≡ digits_to_int false (c ∷ cs)
unfolding stoi
stoi-digits c cs digit =
    let no_space : (is_space c ≡ false) = ground arith in
    let no_minus : ((c == 45) ≡ false) = ground arith in
    let no_plus : ((c == 43) ≡ false) = ground arith in rw (no_space, no_minus, no_plus) refl

read_nil : (n : ℕ) → read_digits n [] ≡ n
unfolding read_digits
read_nil n = refl

digits_to_int-decimal :
    (negative : Bool) (n : ℕ)
    → n ≤ 2 ^ 31
    → (negative ≡ false → n < 2 ^ 31)
    → digits_to_int negative (decimal 10 n [])
      ≡ ok (if negative then (int_mod - n) % int_mod else n)
digits_to_int-decimal negative n h small =
    let (c, cs, e, digit) = decimal-digit 9 n [] (omega (arith, h)) in
    rw e (
      digits_to_int_lem negative c cs n digit
        (ap (read_digits 0) (sym e) ∙ read_digits-decimal 9 n [] (omega (arith, h)) ∙ read_nil n) h
        small)

stoi-decimal : (n : ℕ) → n < 2 ^ 31 → stoi (decimal 10 n []) ≡ ok n
stoi-decimal n h =
    let (c, cs, e, digit) = decimal-digit 9 n [] (omega (arith, h)) in
    ap stoi e
    ∙ stoi-digits c cs digit
    ∙ ap (digits_to_int false) (sym e)
    ∙ digits_to_int-decimal false n (omega (arith, h)) (λ z. h)

stoi-int_to_string : (n : ℕ) → n < int_mod → stoi (int_to_string n) ≡ ok n
unfolding int_to_string stoi
stoi-int_to_string n h = elim (Bool-cases (ltb n (2 ^ 31))) [
  | inl positive ↦ rw positive (stoi-decimal n (omega tests))
  | inr negative ↦
      let large : (2 ^ 31 ≤ n) = ground arith in
      rw negative (
        digits_to_int-decimal true (int_mod - n) (omega (arith, large)) (λ z. cc)
        ∙ ap ok (omega (arith, large, h)))
]

-- InitValue reads the text of any INT back as the same INT, and keeps the text.
pub init_value-get_string_value :
    (fl : Floats) (n : ℕ)
    → n < int_mod
    → (text : List ℕ) × (get_string_value fl (of_int n) ≡ ok text)
      × (init_value fl (of_raw text) int_t ≡ ok (true, record (of_int n) { raw_value = text }))
unfolding init_value get_string_value of_int of_raw
init_value-get_string_value fl n h = (int_to_string n, refl, ground (arith, stoi-int_to_string n h))
