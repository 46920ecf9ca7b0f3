-- ===== src/Value/Compare/Texts.antt =====
-- The order that `Compare` gives to VCHAR values, which `strcmp` compares. Their arrays hold the
-- characters alone, with no zero behind them.
use tiny_dbms.Base.{
  ℕ, ◌≡◌, ◌≢◌, refl, List, [], ◌∷◌, Option, none, some, arith, ltb, ◌==◌, if◌then◌else◌, Result, ok,
  fault, All,
}
use tiny_dbms.Value.{of_chars}
use tiny_dbms.Value.Compare.{Floats, compare_values, strcmp, minus_one}

-- The first place where two texts differ; none if one is the beginning of the other.
pub first_difference : List ℕ → List ℕ → Option (ℕ × ℕ)
first_difference [] ys = none
first_difference (x ∷ xs) [] = none
first_difference (x ∷ xs) (y ∷ ys) =
    let rest = first_difference xs ys in if x == y then rest else some (x, y)

abbrev pub HasNoZero : List ℕ → Type 0
HasNoZero = All (λ c. c ≢ 0)

abbrev pub verdict : Option (ℕ × ℕ) → Result ℕ
verdict none = fault
verdict (some (a, b)) = if ltb a b then ok minus_one else ok 1

strcmp_lem : (xs ys : List ℕ) → HasNoZero xs → strcmp xs ys ≡ verdict (first_difference xs ys)
unfolding strcmp first_difference
strcmp_lem [] ys h = refl
strcmp_lem (x ∷ xs) [] h = refl
strcmp_lem (x ∷ xs) (y ∷ ys) h = ground (arith, strcmp_lem xs ys h.1, h.0)

-- A VCHAR value with no zero byte compares with another by the first byte in which they differ;
-- where one is the beginning of the other, and so also where they are equal, the comparison reads
-- past the end of an array.
pub compare_texts :
    (fl : Floats) (xs ys : List ℕ)
    → HasNoZero xs
    → compare_values fl (of_chars xs) (of_chars ys) ≡ verdict (first_difference xs ys)
unfolding compare_values of_chars
compare_texts fl xs ys h = strcmp_lem xs ys h

first_difference_self : (xs : List ℕ) → first_difference xs xs ≡ none
unfolding first_difference
first_difference_self [] = refl
first_difference_self (x ∷ xs) = ground (arith, first_difference_self xs)

verdict-ne-zero : (d : Option (ℕ × ℕ)) → verdict d ≢ ok 0
verdict-ne-zero none = λ e. cc
verdict-ne-zero (some (a, b)) = λ e. ground arith

-- Such values never compare as equal.
pub compare_texts-ne-zero :
    (fl : Floats) (xs ys : List ℕ)
    → HasNoZero xs
    → compare_values fl (of_chars xs) (of_chars ys) ≢ ok 0
compare_texts-ne-zero fl xs ys h =
    rw (compare_texts fl xs ys h) (verdict-ne-zero (first_difference xs ys))

pub compare_texts_self :
    (fl : Floats) (xs : List ℕ)
    → HasNoZero xs
    → compare_values fl (of_chars xs) (of_chars xs) ≡ fault
compare_texts_self fl xs h = rw (compare_texts fl xs xs h, first_difference_self xs)
